-- ===== src/Kern/UserMem/Check.antt =====
-- user_mem_check of lab/kern/pmap.c against the accesses that the page tables allow.
use adv_os_jos.Prelude.{
  ℕ, ◌+◌, ◌-◌, ◌/◌, ◌%◌, ◌^◌, ◌<◌, ◌≤◌, ◌≡◌, ◌∙◌, lt→leb, ◌⊎◌, some, pos, neg, arith,
}
use adv_os_jos.Kern.Machine.{Kernel, Env, ok, pgsize, ulim, rounddown, roundup, e_fault}
use adv_os_jos.Kern.UserMem.{check_pages, user_mem_check}
use adv_os_jos.Kern.UserMem.Range.{Allows, reported}

-- The rounds of the loop for a range.
abbrev rounds : ℕ → ℕ → ℕ
rounds va len = (roundup ((va + len) % 2 ^ 32) pgsize - rounddown va pgsize) / pgsize

abbrev pub Accessible : (k : Kernel) (pgdir va len perm : ℕ) → Type 0
Accessible k pgdir va len perm =
    (va + len < ulim) × ((b : ℕ) → va ≤ b → b < va + len → Allows k pgdir perm b)

-- The reported address: at or above ULIM, or the first address of the range that is refused.
abbrev pub Offends : (k : Kernel) (pgdir va len perm b : ℕ) → Type 0
Offends k pgdir va len perm b =
    (va ≤ b)
    × ((ulim ≤ b)
        ⊎ ((¬ (Allows k pgdir perm b))
            × ((len ≡ 0) ⊎ (b < va + len))
            × ((c : ℕ) → va ≤ c → c < b → Allows k pgdir perm c)))

-- user_mem_check accepted the range, or reported an address of it.
abbrev pub CheckOutcome : (k : Kernel) (env : Env) (pgdir va len perm : ℕ) → Type 0
CheckOutcome k env pgdir va len perm =
    ((user_mem_check env va len perm k ≡ ok (pos 0) k) × Accessible k pgdir va len perm)
    ⊎ ((b : ℕ) × (user_mem_check env va len perm k ≡ ok (neg e_fault) (reported k b))
        × Offends k pgdir va len perm b)

module _ (k : Kernel) (env : Env) (pgdir va len perm : ℕ) (dir : env.env_pgdir ≡ some pgdir) where
  below-ulim :
      va < ulim
      → (va + len) % 2 ^ 32 < ulim
      → user_mem_check env va len perm k
        ≡ check_pages (rounds va len) pgdir va (rounddown va pgsize) perm k
  unfolding user_mem_check
  below-ulim lo hi = rw (lt→leb va ulim lo, lt→leb ((va + len) % 2 ^ 32) ulim hi, dir)

  -- A range that passes the top of the address space and ends at or below the first page of `va` is
  -- accepted, whatever the page tables allow.
  pub user_mem_check_wraps :
      (e : ℕ)
      → va < ulim
      → va + len ≡ 2 ^ 32 + e
      → e ≤ rounddown va pgsize
      → user_mem_check env va len perm k ≡ ok (pos 0) k
  unfolding check_pages
  user_mem_check_wraps e lo sum below = below-ulim lo (omega arith) ∙ rw none_left
    where
      none_left : rounds va len ≡ 0
      none_left = omega arith

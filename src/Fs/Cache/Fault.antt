-- ===== src/Fs/Cache/Fault.antt =====
-- The faults of lab/fs/bc.c at addresses inside a block.
use adv_os_jos.Prelude.{
  ℕ, ◌/◌, ◌^◌, ◌%◌, bit_and, Bool, true, false, ◌||◌, Option, none, some, ◌≡◌, ◌≢◌, inl, inr, refl,
  Bool-cases, if◌then◌else◌, ℤ,
}
use adv_os_jos.Kern.Machine
use adv_os_jos.Kern.Machine.{Kernel, Run, ok, Cmd, pgsize, utop, rounddown, deref, pte_syscall}
use adv_os_jos.Kern.Syscall.Memory.{sys_page_alloc, sys_page_map}
use adv_os_jos.Kern.Syscall.Memory.Grant.{sys_page_map-unaligned}
use adv_os_jos.User.Fork.{User, ◌>>=◌, ◌>>◌, continue, checked, uvpt_at, panics, returns}
use adv_os_jos.Fs.Cache.{bc_pgfault, clear_dirty, load_page, Disk, off_disk, past_end, block_at}

-- A run that does not come back to the program with a value: the program panics, or the kernel does
-- not return to it.

abbrev pub returned : {A : Type 0} → Run (Option A) → Bool
returned (ok none k) = false
returned (ok (some a) k) = true
returned Run.panic = false
returned (Run.user_mode k) = false
returned (Run.halted k) = false
returned (Run.in_monitor k) = false

-- A part that never returns leaves no way for the whole to do so.
returned-bind :
    {A B : Type 0} (m : User A) (f : A → User B)
    → ((a : A) (k : Kernel) → returned (f a k) ≡ false)
    → (k : Kernel) → returned ((m >>= f) k) ≡ false
returned-bind {A} {B} m f h k = by_run (m k)
  where
    by_run : (r : Run (Option A)) → returned (Machine.and_then r (continue f)) ≡ false
    by_run (ok none k') = refl
    by_run (ok (some a) k') = h a k'
    by_run Run.panic = refl
    by_run (Run.user_mode k') = refl
    by_run (Run.halted k') = refl
    by_run (Run.in_monitor k') = refl

returned-first :
    {A B : Type 0} (m : User A) (f : A → User B)
    → ((k : Kernel) → returned (m k) ≡ false)
    → (k : Kernel) → returned ((m >>= f) k) ≡ false
returned-first {A} {B} m f h k = by_run (m k) (h k)
  where
    by_run :
        (r : Run (Option A))
        → returned r ≡ false
        → returned (Machine.and_then r (continue f)) ≡ false
    by_run (ok none k') e = refl
    by_run (ok (some a) k') e = absurd cc
    by_run Run.panic e = refl
    by_run (Run.user_mode k') e = refl
    by_run (Run.halted k') e = refl
    by_run (Run.in_monitor k') e = refl

checked-unaligned :
    (va perm : ℕ)
    → va % pgsize ≢ 0
    → (k : Kernel) → returned (checked (sys_page_map 0 va 0 va perm) k) ≡ false
checked-unaligned va perm n k = rw (sys_page_map-unaligned va perm n k) refl

clear_dirty-unaligned :
    (addr : ℕ) → addr % pgsize ≢ 0 → (k : Kernel) → returned (clear_dirty addr k) ≡ false
clear_dirty-unaligned addr n =
    returned-bind (uvpt_at (addr / 2 ^ 12))
      (λ w. checked (sys_page_map 0 addr 0 addr (bit_and w pte_syscall)))
      (λ w. checked-unaligned addr (bit_and w pte_syscall) n)

-- A fault at an address of the disk map that is not the first of a page never loads the block: bc_pgfault
-- maps the address itself, not its page's, which the kernel refuses, and the server panics.
pub bc_pgfault_unaligned :
    (s_nblocks : Option ℕ) (is_free ready : ℕ → Bool) (disk : Disk) (addr : ℕ)
    → addr % pgsize ≢ 0
    → (k : Kernel) → returned (bc_pgfault s_nblocks is_free ready disk addr k) ≡ false
unfolding bc_pgfault
bc_pgfault_unaligned s_nblocks is_free ready disk addr n k =
    elim (Bool-cases (off_disk addr || past_end s_nblocks (block_at addr))) [
      | inl t ↦ rw t refl
      | inr t ↦ rw t (
          returned-first (loaded >> clear_dirty addr) (λ _. check)
            (returned-bind loaded (λ _. clear_dirty addr) (λ a. clear_dirty-unaligned addr n)) k)
    ]
  where
    loaded : User ℤ
    loaded =
        checked (sys_page_alloc 0 (rounddown addr pgsize) 7)
        >> load_page ready disk (rounddown addr pgsize)

    check : User (Unit {0})
    check = if is_free (block_at addr) then panics else returns tt

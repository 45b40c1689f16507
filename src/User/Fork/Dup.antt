-- ===== src/User/Fork/Dup.antt =====
-- duppage of lab/lib/fork.c: what it maps for the child.
use adv_os_jos.Prelude.{
  ℕ, ◌*◌, ◌/◌, ◌%◌, ◌^◌, ◌<◌, ◌≡◌, refl, ◌∙◌, ap, Bool, true, false, not, ◌||◌, inl, inr, Option,
  some, arith, if◌then◌else◌, ℤ, pos, negsuc, is_neg,
}
use adv_os_jos.Kern.Machine
use adv_os_jos.Kern.Machine.{
  Kernel, Run, ok, Cmd, deref, has_bits, pgsize, utop, pdx, ptx, pte_addr, pte_p, pte_w,
}
use adv_os_jos.Kern.Pgdir.{page_insert}
use adv_os_jos.Kern.Pgdir.Entry.{pdx_lem, ptx_lem}
use adv_os_jos.Kern.Pgdir.Translate.{IsDir, translate, translate-some}
use adv_os_jos.Kern.Pgdir.Remove.{page_of}
use adv_os_jos.Kern.Env.{envid2env}
use adv_os_jos.Kern.Syscall.Memory.{bad_perm, sys_page_map}
use adv_os_jos.Kern.Syscall.Memory.Grant.{sys_page_map_lem, bad_perm-Permitted}
use adv_os_jos.User.Fork.{User, returns, panics, continue, ◌>>◌, checked, uvpd_at, uvpt_at, pte_cow}

-- The current environment `c` has the directory `d`, which maps page `pn` by the entry `w`; and
-- `envid` is its child `e`, of the directory `d'`.
pub record Forks (k : Kernel) (c d envid e d' pn w : ℕ) : Type 0 where
  pub current : k.curenv ≡ some c
  pub own : (k.envs c).env_pgdir ≡ some d
  pub child : envid2env envid true k ≡ ok (pos 0, some e) k
  pub child_dir : (k.envs e).env_pgdir ≡ some d'
  pub tables : IsDir k d
  pub below : pn * pgsize < utop
  pub maps : translate k.memory d (pn * pgsize) ≡ some w

-- The child's permissions: of a copy on write, or to read.
abbrev pub is_cow : ℕ → Bool
is_cow w = has_bits w pte_w || has_bits w pte_cow

abbrev pub child_perm : ℕ → ℕ
child_perm w = if is_cow w then 0x805 else 5

-- The parent's own mapping made one of a copy on write.
abbrev pub remap : (envid va w : ℕ) → User ℤ
remap envid va w =
    if is_cow w
    then (checked (sys_page_map envid va 0 va 0x805) >> returns (pos 0))
    else returns (pos 0)

-- the entry of page `pn` by its directory entry
abbrev entry_of : (pn pde : ℕ) → User ℕ
entry_of pn pde =
    if not (has_bits pde pte_p)
    then panics
    else (λ k. ok (some (k.memory (pte_addr pde / 2 ^ 12) (pn % 1024))) k)

module _ (k : Kernel) (c d envid e d' pn w : ℕ) (h : Forks k c d envid e d' pn w) where
  pub self : envid2env 0 true k ≡ ok (pos 0, some c) k
  unfolding envid2env
  self = ap (λ (o : Option ℕ). ok (pos 0, o) k) h.current

  pub uvpd_at-entry : (i : ℕ) → uvpd_at i k ≡ ok (some (k.memory d i)) k
  uvpd_at-entry i =
      ap
        (λ (o : Option ℕ). Machine.and_then (deref o k) (λ c' k'.
          Machine.and_then (deref (k'.envs c').env_pgdir k')
            (λ dir k''. ok (some (k''.memory dir i)) k'')))
        h.current
      ∙ ap
          (λ (o : Option ℕ).
            Machine.and_then (deref o k) (λ dir k''. ok (some (k''.memory dir i)) k''))
          h.own

  pub uvpt_at-entry : uvpt_at pn k ≡ ok (some w) k
  uvpt_at-entry =
      let (here, at, set) = translate-some k.memory d (pn * pgsize) w h.maps in
      let top : pdx (pn * pgsize) ≡ pn / 1024 = omega (arith, pdx_lem (pn * pgsize), h.below) in
      let low : ptx (pn * pgsize) ≡ pn % 1024 = omega (arith, ptx_lem (pn * pgsize)) in
      let here' : has_bits (k.memory d (pn / 1024)) pte_p ≡ true = rw top at here in
      let at' : k.memory (pte_addr (k.memory d (pn / 1024)) / 2 ^ 12) (pn % 1024) ≡ w =
        rw (top, low) at at in
      ap (λ (r : Run (Option ℕ)). Machine.and_then r (continue (entry_of pn)))
        (uvpd_at-entry (pn / 1024))
      ∙ rw here' (ap (λ (x : ℕ). ok (some x) k) at')

  granted :
      (perm : ℕ)
      → bad_perm perm ≡ false
      → (has_bits perm pte_w ≡ true → has_bits w pte_w ≡ true)
      → sys_page_map 0 (pn * pgsize) envid (pn * pgsize) perm k
        ≡ Machine.and_then
            (page_insert d' (page_of w) (pn * pgsize) perm k)
            (λ code. if is_neg code then Machine.pure code else Machine.pure (pos 0))
  granted perm flags gain =
      elim (sys_page_map_lem k 0 envid c e d d' self h.child h.own h.child_dir h.tables
        (pn * pgsize) (pn * pgsize) perm) [
          | inl (w', t, m, r) ↦
              let same : w' ≡ w = cc (t, h.maps) in
              r
              ∙ ap
                  (λ (x : ℕ).
                    Machine.and_then (page_insert d' (page_of x) (pn * pgsize) perm k)
                      (λ code. if is_neg code then Machine.pure code else Machine.pure (pos 0)))
                  same
          | inr (never, r) ↦ absurd (
              never w h.maps (record {
                source = (h.below, omega arith);
                target = (h.below, omega arith);
                flags = bad_perm-Permitted perm flags;
                no_gain = gain;
              }))
        ]

  -- What follows a mapping for the child.
  abbrev pub mapped_then : {B : Type 0} (perm : ℕ) → User B → Run (Option B)
  mapped_then perm rest =
      Machine.and_then (page_insert d' (page_of w) (pn * pgsize) perm k)
        (λ code. if is_neg code then panics else rest)

  -- A request of the parent's that is granted.
  pub checked-granted :
      {B : Type 0} (perm : ℕ) (rest : User B)
      → bad_perm perm ≡ false
      → (has_bits perm pte_w ≡ true → has_bits w pte_w ≡ true)
      → (checked (sys_page_map 0 (pn * pgsize) envid (pn * pgsize) perm) >> rest) k
        ≡ mapped_then perm rest
  checked-granted {B} perm rest flags gain =
      ap (λ (r : Run ℤ). after_check r rest) (granted perm flags gain)
      ∙ joined (page_insert d' (page_of w) (pn * pgsize) perm k)
    where
      after_check : Run ℤ → User B → Run (Option B)
      after_check r go =
          Machine.and_then
            (Machine.and_then (Machine.and_then r (λ a. ok (some a)))
              (continue (λ a. if is_neg a then panics else returns a)))
            (continue (λ _. go))

      joined :
          (r : Run ℤ)
          → after_check
              (Machine.and_then r
                (λ code. if is_neg code then Machine.pure code else Machine.pure (pos 0)))
              rest
            ≡ Machine.and_then r (λ code. if is_neg code then panics else rest)
      joined (ok (pos n) k') = refl
      joined (ok (negsuc n) k') = refl
      joined Run.panic = refl
      joined (Run.user_mode k') = refl
      joined (Run.halted k') = refl
      joined (Run.in_monitor k') = refl

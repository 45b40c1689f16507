-- ===== src/User/Fork.antt =====
-- fork of lab/lib/fork.c with copy on write, and set_pgfault_handler of lab/lib/pgfault.c, as the
-- current environment runs them: each system call is the kernel's.
pub mod Dup
mod Tests
use adv_os_jos.Prelude.{
  ℕ, zero, suc, ◌+◌, ◌-◌, ◌*◌, ◌/◌, ◌%◌, ◌^◌, bit_and, bit_or, Bool, true, false, not, ◌&&◌, ◌||◌,
  Option, none, some, ◌==◌, update, if◌then◌else◌, ℤ, pos, negsuc, is_neg,
}
use adv_os_jos.Kern.Machine
use adv_os_jos.Kern.Machine.{
  Kernel, Run, ok, Cmd, deref, has_bits, pgsize, pdx, ptx, pte_addr, pte_p, pte_w, pte_u,
  pte_syscall, rounddown, ustacktop,
}
use adv_os_jos.Kern.Trap.{uxstacktop}
use adv_os_jos.Kern.Syscall.Process.{sys_exofork, sys_env_set_status, sys_env_set_pgfault_upcall}
use adv_os_jos.Kern.Syscall.Memory.{sys_page_alloc, sys_page_map, sys_page_unmap}

abbrev pub pte_cow : ℕ
pte_cow = 0x800

abbrev pub pte_share : ℕ
pte_share = 0x400

abbrev pub fec_wr : ℕ
fec_wr = 2

abbrev pub utext : ℕ
utext = 0x800000

abbrev pub pftemp : ℕ
pftemp = 0x7ff000

-- A program's command: `none` where the program panics, or faults on its own memory.
abbrev pub User : Type 0 → Type 0
User A = Cmd (Option A)

abbrev pub returns : {A : Type 0} → A → User A
returns a = ok (some a)

abbrev pub panics : {A : Type 0} → User A
panics = ok none

module _ {A B : Type 0} where
  abbrev pub continue : (A → User B) → Option A → User B
  continue f none = panics
  continue f (some a) = f a

  infixl 5 ◌>>=◌ ◌>>◌
  abbrev pub ◌>>=◌ : User A → (A → User B) → User B
  m >>= f = λ k. Machine.and_then (m k) (continue f)

  abbrev pub ◌>>◌ : User A → User B → User B
  m >> n = m >>= λ _. n

-- a system call
abbrev pub sys : {A : Type 0} → Cmd A → User A
sys c k = Machine.and_then (c k) (λ a. ok (some a))

-- `if ((r = ...) < 0) panic(...)`
abbrev pub checked : Cmd ℤ → User ℤ
checked c = sys c >>= λ r. if is_neg r then panics else returns r

-- `uvpd[d]`: the directory of the current environment.
abbrev pub uvpd_at : (d : ℕ) → User ℕ
uvpd_at d k = Machine.and_then (deref k.curenv k) λ c k'.
    Machine.and_then (deref (k'.envs c).env_pgdir k') λ dir k''. ok (some (k''.memory dir d)) k''

-- `uvpt[pn]`, which faults where there is no page table.
abbrev pub uvpt_at : (pn : ℕ) → User ℕ
uvpt_at pn = uvpd_at (pn / 1024) >>= λ pde.
    if not (has_bits pde pte_p)
    then panics
    else (λ k. ok (some (k.memory (pte_addr pde / 2 ^ 12) (pn % 1024))) k)

-- the frame of a page of the program's
abbrev pub frame_of : (va : ℕ) → User ℕ
frame_of va = uvpt_at (va / 2 ^ 12) >>= λ pte.
    if has_bits pte pte_p then returns (pte_addr pte / 2 ^ 12) else panics

-- memmove(to, from, PGSIZE), of two pages
abbrev pub copy_page : (to from : ℕ) → User (Unit {0})
copy_page to from = frame_of to >>= λ g.
    frame_of from >>= λ f k. ok (some tt) (record k { memory = update k.memory g (k.memory f) })

unfoldable pub pgfault : (fault_va err : ℕ) → User ℤ
pgfault fault_va err = uvpt_at (fault_va / 2 ^ 12) >>= λ pte.
    if not (has_bits err fec_wr && has_bits pte pte_cow)
    then panics
    else (checked (sys_page_alloc 0 pftemp 7)
        >> copy_page pftemp (rounddown fault_va pgsize)
        >> checked (sys_page_map 0 pftemp 0 (rounddown fault_va pgsize) 7)
        >> checked (sys_page_unmap 0 pftemp))

unfoldable pub duppage : (envid pn : ℕ) → User ℤ
duppage envid pn = uvpt_at pn >>= λ pte.
    let va = pn * pgsize in
    if has_bits pte pte_share
    then (checked (sys_page_map 0 va envid va (bit_and pte pte_syscall)) >> returns (pos 0))
    else if has_bits pte pte_w || has_bits pte pte_cow
    then (checked (sys_page_map 0 va envid va 0x805)
        >> (checked (sys_page_map envid va 0 va 0x805) >> returns (pos 0)))
    else (checked (sys_page_map 0 va envid va 5) >> returns (pos 0))

-- set_pgfault_handler, less the store of the handler itself: `first` is the test of _pgfault_handler,
-- and `upcall` the address of _pgfault_upcall.
unfoldable pub set_pgfault_handler : (first : Bool) (upcall : ℕ) → User ℤ
set_pgfault_handler false upcall = returns (pos 0)
set_pgfault_handler true upcall =
    (λ k.
      Machine.and_then (deref k.curenv k)
        (λ c k'. checked (sys_page_alloc (k'.envs c).env_id (uxstacktop - pgsize) 7) k'))
    >> sys (sys_env_set_pgfault_upcall 0 upcall)

-- The `for` of fork, from page `pn` with `n` rounds left.
dup_pages : (n pn envid : ℕ) → User ℤ
dup_pages zero pn envid = returns (pos 0)
dup_pages (suc n) pn envid = uvpd_at (pn / 1024) >>= λ pde.
    (if not (has_bits pde pte_p)
      then returns (pos 0)
      else (uvpt_at pn >>= λ pte.
          if not (has_bits pte 5) then returns (pos 0) else duppage envid pn))
    >> dup_pages n (pn + 1) envid

-- What the parent does for the child `envid`.
copy_to_child : (envid : ℕ) → User ℤ
unfolding dup_pages
copy_to_child envid =
    dup_pages (ustacktop / 2 ^ 12 - utext / 2 ^ 12) (utext / 2 ^ 12) envid
    >> (λ k.
        Machine.and_then (deref k.curenv k)
          (λ c k'. checked (sys_env_set_pgfault_upcall envid (k'.envs c).env_pgfault_upcall) k'))
    >> checked (sys_page_alloc envid (uxstacktop - pgsize) 7)
    >> checked (sys_env_set_status envid 2)
    >> returns (pos envid)

-- fork: the child's id in the parent, and 0 in the child, which sys_exofork gives 0.
unfoldable pub fork : (first : Bool) (upcall : ℕ) → User ℤ
unfolding copy_to_child
fork first upcall = set_pgfault_handler first upcall >> checked sys_exofork >>= λ r. elim r [
  | negsuc n ↦ panics
  | pos zero ↦ returns (pos 0)
  | pos (suc n) ↦ copy_to_child (suc n)
]

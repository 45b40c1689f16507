-- ===== src/Kern/Trap/Fault.antt =====
-- The page fault upcall of lab/kern/trap.c.
use adv_os_jos.Prelude.{
  ℕ, ◌+◌, ◌/◌, ◌^◌, ◌<◌, ◌≤◌, ◌≡◌, ◌≢◌, ◌⊎◌, refl, ap, true, false, List, [], ◌∷◌, ◌==◌, ==_ne,
  arith, update_ne, if◌then◌else◌,
}
use adv_os_jos.Kern.Machine.{Kernel, ok, write_word, pdx, ptx, pte_addr, pte_p, pte_w, has_bits}
use adv_os_jos.Kern.Pgdir.Entry.{pdx_lem, ptx_lem}
use adv_os_jos.Kern.Mmu.{frame_at}

-- The page tables in use map the page of `va`, for writing, to the frame `f`, which is none of the
-- two levels on the way.
pub record Writable (k : Kernel) (va f : ℕ) : Type 0 where
  pub pde_set : has_bits (k.memory k.cr3 (pdx va)) pte_p ≡ true
  pub pde_writable : has_bits (k.memory k.cr3 (pdx va)) pte_w ≡ true
  pub pte_set :
      has_bits (k.memory (pte_addr (k.memory k.cr3 (pdx va)) / 2 ^ 12) (ptx va)) pte_p ≡ true
  pub pte_writable :
      has_bits (k.memory (pte_addr (k.memory k.cr3 (pdx va)) / 2 ^ 12) (ptx va)) pte_w ≡ true
  pub leads :
      pte_addr (k.memory (pte_addr (k.memory k.cr3 (pdx va)) / 2 ^ 12) (ptx va)) / 2 ^ 12 ≡ f
  pub not_dir : f ≢ k.cr3
  pub not_table : f ≢ pte_addr (k.memory k.cr3 (pdx va)) / 2 ^ 12

pub frame_at-Writable : (k : Kernel) (va f : ℕ) → Writable k va f → frame_at va k ≡ ok f k
frame_at-Writable k va f h =
    rw (h.pde_set, h.pde_writable) (rw (h.pte_set, h.pte_writable) (ap (λ (x : ℕ). ok x k) h.leads))

-- Another address of the page.
pub Writable-page :
    (k : Kernel) (va a f : ℕ) → a / 4096 ≡ va / 4096 → Writable k va f → Writable k a f
Writable-page k va a f same h =
    let d : pdx a ≡ pdx va = omega (arith, pdx_lem a, pdx_lem va, same) in
    let t : ptx a ≡ ptx va = omega (arith, ptx_lem a, ptx_lem va, same) in
    record {
      pde_set = rw d h.pde_set;
      pde_writable = rw d h.pde_writable;
      pte_set = rw (d, t) h.pte_set;
      pte_writable = rw (d, t) h.pte_writable;
      leads = rw (d, t) h.leads;
      not_dir = h.not_dir;
      not_table = rw d h.not_table;
    }

-- A write to the frame leaves the tables as they are.
pub Writable-write_word :
    (k : Kernel) (va f i w : ℕ) → Writable k va f → Writable (write_word f i w k) va f
Writable-write_word k va f i w h =
    let k' = write_word f i w k in
    let d : k'.memory k.cr3 ≡ k.memory k.cr3 =
      update_ne k.memory f _ k.cr3 (==_ne f k.cr3 h.not_dir) in
    let t : k'.memory (pte_addr (k.memory k.cr3 (pdx va)) / 2 ^ 12)
        ≡ k.memory (pte_addr (k.memory k.cr3 (pdx va)) / 2 ^ 12) =
      update_ne k.memory f _ _ (==_ne f _ h.not_table) in
    record {
      pde_set = rw d h.pde_set;
      pde_writable = rw d h.pde_writable;
      pte_set = rw (d, t) h.pte_set;
      pte_writable = rw (d, t) h.pte_writable;
      leads = rw (d, t) h.leads;
      not_dir = h.not_dir;
      not_table = rw d h.not_table;
    }

-- the word of a page after stores at offsets from index `b`
abbrev pub stored : (b : ℕ) → List (ℕ × ℕ) → (i old : ℕ) → ℕ
stored b [] i old = old
stored b ((o, w) ∷ ws) i old = stored b ws i (if b + o == i then w else old)

-- each offset is in a struct UTrapframe
abbrev pub Offsets : List (ℕ × ℕ) → Type 0
Offsets [] = Unit
Offsets ((o, w) ∷ ws) = (o < 13) × Offsets ws

pub stored-outside :
    (b : ℕ) (ws : List (ℕ × ℕ)) (i old : ℕ)
    → Offsets ws
    → (i < b) ⊎ (b + 13 ≤ i)
    → stored b ws i old ≡ old
stored-outside b [] i old offsets out = refl
stored-outside b ((o, w) ∷ ws) i old (small, offsets) out =
    let apart : (b + o == i) ≡ false = ground arith in
    rw apart (stored-outside b ws i old offsets out)

pub stored-shift :
    (b : ℕ) (ws : List (ℕ × ℕ)) (j old : ℕ) → stored b ws (b + j) old ≡ stored 0 ws j old
stored-shift b [] j old = refl
stored-shift b ((o, w) ∷ ws) j old =
    let same : (b + o == b + j) ≡ (0 + o == j) = ground arith in
    rw same (stored-shift b ws j (if 0 + o == j then w else old))

-- ===== src/Kern/Pgdir/Translate.antt =====
-- What a page directory maps: the MMU's reading of the two levels, as the specification of
-- pgdir_walk and page_lookup in lab/kern/pmap.c.
use adv_os_jos.Prelude.{
  ℕ, ◌/◌, ◌^◌, ◌<◌, ◌≡◌, ◌≢◌, Bool, true, false, Option, none, some, Bool-cases, lt→leb, inl, inr,
  if◌then◌else◌,
}
use adv_os_jos.Kern.Machine.{Kernel, ok, has_bits, pte_addr, pte_p, pdx, ptx, pgnum, kaddr}
use adv_os_jos.Kern.Pgdir.{pgdir_walk, page_lookup, PtePtr}

-- physical memory by frame and word
abbrev pub Memory : Type 0
Memory = ℕ → ℕ → ℕ

-- the entry of the directory at index `d`
abbrev pub pde : Memory → ℕ → ℕ → ℕ
pde m pgdir d = m pgdir d

abbrev pub present : Memory → ℕ → ℕ → Bool
present m pgdir d = has_bits (pde m pgdir d) pte_p

-- the frame of the page table at index `d`
abbrev pub table : Memory → ℕ → ℕ → ℕ
table m pgdir d = pte_addr (pde m pgdir d) / 2 ^ 12

-- an entry, if it is present
abbrev pub valid : ℕ → Option ℕ
valid w = if has_bits w pte_p then some w else none

-- The entry that maps `va`, if both levels are present. Whether an access is allowed depends on the
-- directory's entry as well.
unfoldable pub translate : Memory → ℕ → ℕ → Option ℕ
translate m pgdir va =
    if present m pgdir (pdx va) then valid (m (table m pgdir (pdx va)) (ptx va)) else none

-- `PDX(UVPT)`, where a directory of the program has itself as a table
abbrev pub uvpt_slot : ℕ
uvpt_slot = 957

-- The page tables of a directory are pages of the machine, no two of them are the same page, and
-- none is the directory itself, unless at UVPT, where the kernel enters the directory.
pub record IsDir (k : Kernel) (pgdir : ℕ) : Type 0 where
  pub table_in : (d : ℕ) → present k.memory pgdir d ≡ true → table k.memory pgdir d < k.npages
  pub table_apart :
      (d : ℕ) → d ≢ uvpt_slot → present k.memory pgdir d ≡ true → table k.memory pgdir d ≢ pgdir
  pub tables_differ :
      (d e : ℕ)
      → d ≢ e
      → present k.memory pgdir d ≡ true
      → present k.memory pgdir e ≡ true
      → table k.memory pgdir d ≢ table k.memory pgdir e

pub kaddr-ok : (k : Kernel) (pa : ℕ) → pgnum pa < k.npages → kaddr pa k ≡ ok (pgnum pa) k
kaddr-ok k pa h = rw (lt→leb (pgnum pa) k.npages h)

module _ (k : Kernel) (pgdir va : ℕ) where
  -- The walk finds the entry of a present table, and changes nothing.
  pub walk-present :
      (create : Bool)
      → IsDir k pgdir
      → present k.memory pgdir (pdx va) ≡ true
      → pgdir_walk pgdir va create k ≡ ok (some (table k.memory pgdir (pdx va), ptx va)) k
  unfolding pgdir_walk
  walk-present create v here =
      rw here (rw (kaddr-ok k (pte_addr (pde k.memory pgdir (pdx va))) (v.table_in (pdx va) here)))

  -- Without leave to create, the walk of an absent table returns NULL and changes nothing.
  pub walk-absent :
      present k.memory pgdir (pdx va) ≡ false → pgdir_walk pgdir va false k ≡ ok none k
  unfolding pgdir_walk
  walk-absent gone = rw gone

  abbrev pub located : Option ℕ → Option (ℕ × PtePtr)
  located none = none
  located (some w) = some (pte_addr w / 2 ^ 12, (table k.memory pgdir (pdx va), ptx va))

  -- page_lookup returns the page that the directory maps at `va` and the place of its entry, or
  -- NULL if there is none, and changes nothing.
  pub page_lookup-translate :
      IsDir k pgdir → page_lookup pgdir va k ≡ ok (located (translate k.memory pgdir va)) k
  unfolding page_lookup translate
  page_lookup-translate v = elim (Bool-cases (present k.memory pgdir (pdx va))) [
    | inl here ↦
        rw (walk-present false v here, here)
          (elim (Bool-cases (has_bits (k.memory (table k.memory pgdir (pdx va)) (ptx va)) pte_p)) [
            | inl mapped ↦ rw mapped
            | inr unmapped ↦ rw unmapped
          ])
    | inr gone ↦ rw (walk-absent gone, gone)
  ]

-- What a mapping says of the two levels.
module _ (m : Memory) (pgdir va : ℕ) where
  pub translate-some :
      (w : ℕ)
      → translate m pgdir va ≡ some w
      → (present m pgdir (pdx va) ≡ true)
        × (m (table m pgdir (pdx va)) (ptx va) ≡ w)
        × (has_bits w pte_p ≡ true)
  unfolding translate
  translate-some w h = elim (Bool-cases (present m pgdir (pdx va))) [
    | inl here ↦
        let (at, set) = by_bit (m (table m pgdir (pdx va)) (ptx va)) (rw here at h) in
        (here, at, set)
    | inr gone ↦ absurd (cc (rw gone at h))
  ]
    where
      by_bit : (x : ℕ) → valid x ≡ some w → (x ≡ w) × (has_bits w pte_p ≡ true)
      by_bit x e = elim (Bool-cases (has_bits x pte_p)) [
        | inl set ↦ let same : x ≡ w = cc (rw set at e) in (same, rw (← same) set)
        | inr clear ↦ absurd (cc (rw clear at e))
      ]

  pub translate-none :
      present m pgdir (pdx va) ≡ true
      → translate m pgdir va ≡ none
      → has_bits (m (table m pgdir (pdx va)) (ptx va)) pte_p ≡ false
  unfolding translate
  translate-none here h = by_bit (m (table m pgdir (pdx va)) (ptx va)) (rw here at h)
    where
      by_bit : (x : ℕ) → valid x ≡ none → has_bits x pte_p ≡ false
      by_bit x e = elim (Bool-cases (has_bits x pte_p)) [
        | inl set ↦ absurd (cc (rw set at e))
        | inr clear ↦ clear
      ]

  pub translate-absent : present m pgdir (pdx va) ≡ false → translate m pgdir va ≡ none
  unfolding translate
  translate-absent gone = rw gone

  pub translate-present :
      present m pgdir (pdx va) ≡ true
      → translate m pgdir va ≡ valid (m (table m pgdir (pdx va)) (ptx va))
  unfolding translate
  translate-present here = rw here

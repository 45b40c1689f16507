-- ===== src/Kern/Boot/Identity.antt =====
-- What the entry page directory of lab/kern/entrypgdir.c maps.
use mathlib.Core.Option
use adv_os_jos.Prelude.{
  ℕ, Bool, ◌+◌, ◌-◌, ◌*◌, ◌/◌, ◌%◌, ◌^◌, ◌<◌, true, false, ◌&&◌, ◌==◌, ltb, leb, Option, none, some,
  ◌≡◌, ◌≢◌, refl, ap, if◌then◌else◌, arith, Bool-cases, inl, inr, lt→ltb, le→ltb, le→leb, ◌∙◌, sym,
  ==_ne, ==_iff,
}
use adv_os_jos.Prelude.Words.{bit_or_packed, bit_and_bit}
use adv_os_jos.Kern.Machine.{kernbase, pte_p, pte_w, ptsize, has_bits, pdx, ptx, pte_addr}
use adv_os_jos.Kern.Pgdir.Translate.{Memory, translate}
use adv_os_jos.Kern.Pgdir.Entry.{has_bits-p, pte_addr_lem, pdx_lem, ptx_lem}
use adv_os_jos.Kern.Boot.{entry_pgdir, entry_pgtable}

-- The two pages in memory: the directory in the frame `d`, and the table, which the linker puts at a
-- page of the kernel's addresses, in the frame `t` behind KERNBASE.
pub record Placed (m : Memory) (d t : ℕ) : Type 0 where
  pub small : t < 2 ^ 16
  pub dir : (i : ℕ) → i < 1024 → m d i ≡ entry_pgdir (kernbase + t * 4096) i
  pub tab : (i : ℕ) → i < 1024 → m t i ≡ entry_pgtable i

-- the table's entry, of the physical page and for writing, of an address of the first 4MB
abbrev pub page_entry : ℕ → ℕ
page_entry va = va / 4096 * 4096 + 3

-- the entries behind the addresses of the first 4MB, at 0 and at KERNBASE
abbrev low_entries : (va : ℕ) → Option ℕ
low_entries va =
    if ltb va ptsize
    then some (page_entry va)
    else if leb kernbase va && ltb va (kernbase + ptsize)
    then some (page_entry (va - kernbase))
    else none

-- The MMU's reading of an address, with write protection on: the physical address behind it, and
-- whether it may be written, for which both levels must have PTE_W; if it is mapped at all.
unfoldable pub reach : Memory → (d va : ℕ) → Option (ℕ × Bool)
reach m d va =
    Option.map (λ w. (pte_addr w + va % 4096, has_bits (m d (pdx va)) pte_w && has_bits w pte_w))
      (translate m d va)

-- what entry_pgdir is for: the first 4MB of memory, to read from 0 on and to write from KERNBASE on
abbrev pub low_memory : (va : ℕ) → Option (ℕ × Bool)
low_memory va =
    if ltb va 0x400000
    then some (va, false)
    else if leb 0xf0000000 va && ltb va 0xf0400000
    then some (va - 0xf0000000, true)
    else none

entry_pgtable_lem : (i : ℕ) → entry_pgtable i ≡ i * 4096 + 3
unfolding entry_pgtable
entry_pgtable_lem i = bit_or_packed 12 i 3 (omega arith)

-- an entry of the directory: the table's frame with the low bits `c`
has_bits-dir : (t c : ℕ) → c % 2 ≡ 1 → has_bits (t * 4096 + c) pte_p ≡ true
has_bits-dir t c odd = rw has_bits-p (ground arith)

pte_addr-dir : (t c : ℕ) → t < 2 ^ 16 → c < 4096 → pte_addr (t * 4096 + c) / 2 ^ 12 ≡ t
pte_addr-dir t c small low = omega (arith, pte_addr_lem (t * 4096 + c))

module _ (m : Memory) (d t : ℕ) (placed : Placed m d t) (va : ℕ) (word : va < 2 ^ 32) where
  -- Where the directory's entry is that of the table, the table's entry decides.
  through_table :
      (c : ℕ)
      → c % 2 ≡ 1
      → c < 4096
      → m d (pdx va) ≡ t * 4096 + c
      → translate m d va ≡ some (ptx va * 4096 + 3)
  unfolding translate
  through_table c odd low e =
      rw
        (
          e,
          has_bits-dir t c odd,
          pte_addr-dir t c placed.small low,
          placed.tab (ptx va) (omega (arith, ptx_lem va)),
          entry_pgtable_lem,
          has_bits-dir (ptx va) 3 refl,
        )
        refl

  no_table : m d (pdx va) ≡ 0 → translate m d va ≡ none
  unfolding translate
  no_table e = rw e refl

  index : pdx va < 1024
  index = omega (arith, pdx_lem va)

  dir_first : pdx va ≡ 0 → m d (pdx va) ≡ t * 4096 + 1
  unfolding entry_pgdir
  dir_first e = rw (placed.dir (pdx va) index, e) (omega arith)

  dir_kernel : pdx va ≡ 960 → m d (pdx va) ≡ t * 4096 + 3
  unfolding entry_pgdir
  dir_kernel e = rw (placed.dir (pdx va) index, e) (omega arith)

  dir_other : pdx va ≢ 0 → pdx va ≢ 960 → m d (pdx va) ≡ 0
  unfolding entry_pgdir
  dir_other n k = rw (placed.dir (pdx va) index, ==_ne (pdx va) 0 n, ==_ne (pdx va) 960 k) refl

  above : pdx va ≡ 960 → 0 < 960 → ltb va ptsize ≡ false
  above e h = le→ltb va ptsize (omega (arith, e, pdx_lem va))

  outside : pdx va ≢ 960 → (leb kernbase va && ltb va (kernbase + ptsize)) ≡ false
  outside n = let e = pdx_lem va in ground (arith, n)

  test_ne : {i : ℕ} → (pdx va == i) ≡ false → pdx va ≢ i
  test_ne h e = ground arith

  translate-low_entries : translate m d va ≡ low_entries va
  translate-low_entries = elim (Bool-cases (pdx va == 0)) [
    | inl a ↦
        let e : pdx va ≡ 0 = (==_iff _ _).0 a in
        through_table 1 refl (omega arith) (dir_first e)
        ∙ rw (lt→ltb va ptsize (omega (arith, e, pdx_lem va)))
            (ap some (omega (arith, e, pdx_lem va, ptx_lem va)))
    | inr a ↦ elim (Bool-cases (pdx va == 960)) [
      | inl b ↦
          let e : pdx va ≡ 960 = (==_iff _ _).0 b in
          through_table 3 refl (omega arith) (dir_kernel e)
          ∙ rw
              (
                above e (omega arith),
                le→leb kernbase va (omega (arith, e, pdx_lem va)),
                lt→ltb va (kernbase + ptsize) (omega (arith, e, pdx_lem va)),
              )
              (ap some (omega (arith, e, pdx_lem va, ptx_lem va)))
      | inr b ↦
          no_table (dir_other (test_ne a) (test_ne b))
          ∙ sym (
              rw (le→ltb va ptsize (omega (arith, test_ne a, pdx_lem va)), outside (test_ne b))
                refl)
    ]
  ]

  has_bits-entry : (q : ℕ) → has_bits (q * 4096 + 3) pte_w ≡ true
  has_bits-entry q = rw (bit_and_bit 1 (q * 4096 + 3)) (ground arith)

  write_first : pdx va ≡ 0 → has_bits (m d (pdx va)) pte_w ≡ false
  write_first e = rw (dir_first e, bit_and_bit 1 (t * 4096 + 1)) (ground arith)

  write_kernel : pdx va ≡ 960 → has_bits (m d (pdx va)) pte_w ≡ true
  write_kernel e = rw (dir_kernel e, bit_and_bit 1 (t * 4096 + 3)) (ground arith)

  -- The directory and the entry of a page, read together.
  reach-entry :
      (q : ℕ) (writes : Bool)
      → translate m d va ≡ some (q * 4096 + 3)
      → has_bits (m d (pdx va)) pte_w ≡ writes
      → q < 2 ^ 20
      → reach m d va ≡ some (q * 4096 + va % 4096, writes && true)
  unfolding reach
  reach-entry q writes e f small =
      rw (e, f, has_bits-entry q)
        (ap (λ (a : ℕ). some (a + va % 4096, writes && true))
          (omega (arith, pte_addr_lem (q * 4096 + 3))))

  -- With the entry page directory the MMU reaches the first 4MB of physical memory at the addresses from
  -- 0 on, for reading alone where write protection is on, and from KERNBASE on, for reading and
  -- writing, and no other address.
  pub reach-low_memory : reach m d va ≡ low_memory va
  unfolding reach
  reach-low_memory = elim (Bool-cases (ltb va ptsize)) [
    | inl low ↦
        reach-entry (va / 4096) false (translate-low_entries ∙ rw low refl)
          (write_first (let e = pdx_lem va in ground arith)) (ground arith)
        ∙ rw low (ap (λ (a : ℕ). some (a, false)) (omega arith))
    | inr high ↦ elim (Bool-cases (leb kernbase va && ltb va (kernbase + ptsize))) [
      | inl in_kernel ↦
          reach-entry ((va - kernbase) / 4096) true
            (translate-low_entries ∙ rw (high, in_kernel) refl)
            (write_kernel (let e = pdx_lem va in ground arith)) (ground arith)
          ∙ rw (high, in_kernel) (ap (λ (a : ℕ). some (a, true)) (ground arith))
      | inr outside_it ↦ rw (translate-low_entries, high, outside_it) refl
    ]
  ]

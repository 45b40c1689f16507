-- ===== src/Kern/Pgdir/Entry.antt =====
-- The words of page tables: the entry that maps a page carries its address and its permissions.
use adv_os_jos.Prelude.{ℕ, ◌-◌, ◌*◌, ◌/◌, ◌%◌, ◌^◌, ◌<◌, ◌≡◌, ◌∙◌, ap, bit_or, true, ◌==◌, arith}
use adv_os_jos.Prelude.Words.{bit_and_low, bit_and_high, bit_or-div, bit_of_or, bit_or-zero}
use adv_os_jos.Kern.Machine.{has_bits, pte_addr, pte_p, pte_w, pte_u, page2pa, pdx, ptx}

-- `pgtab[...] = page2pa(pp) | PTE_P | perm`
abbrev pub entry : ℕ → ℕ → ℕ
entry pp perm = bit_or (bit_or (page2pa pp) pte_p) perm

pub has_bits-p : (w : ℕ) → has_bits w pte_p ≡ (w % 2 == 1)
has_bits-p w = rw (bit_and_low 1 w) (ground arith)

pub pte_addr_lem : (w : ℕ) → pte_addr w ≡ w / 4096 % 2 ^ 20 * 4096
pte_addr_lem w =
    bit_and_high 12 w (2 ^ 20 - 1) ∙ ap (λ (t : ℕ). t * 4096) (bit_and_low 20 (w / 4096))

pub entry-present : (pp perm : ℕ) → has_bits (entry pp perm) pte_p ≡ true
entry-present pp perm =
    rw has_bits-p
      (ground (arith, bit_of_or 0 (bit_or (page2pa pp) pte_p) perm, bit_of_or 0 (page2pa pp) pte_p))

pub pte_addr-entry :
    (pp perm : ℕ) → pp < 2 ^ 20 → perm < 4096 → pte_addr (entry pp perm) ≡ page2pa pp
pte_addr-entry pp perm hp hm = omega (
  arith,
  pte_addr_lem (entry pp perm),
  bit_or-div 12 (bit_or (page2pa pp) pte_p) perm,
  bit_or-div 12 (page2pa pp) pte_p,
  ap (λ (t : ℕ). bit_or (bit_or (page2pa pp) 1 / 4096) t) {x = perm / 4096} {y = 0} (omega arith),
  bit_or-zero (bit_or (page2pa pp) 1 / 4096),
  bit_or-zero (page2pa pp / 4096),
)

pub pdx_lem : (va : ℕ) → pdx va ≡ va / 2 ^ 22 % 1024
pdx_lem va = bit_and_low 10 (va / 2 ^ 22)

pub ptx_lem : (va : ℕ) → ptx va ≡ va / 2 ^ 12 % 1024
ptx_lem va = bit_and_low 10 (va / 2 ^ 12)

-- the directory's entry for a new page table
abbrev pub dir_entry : ℕ → ℕ
dir_entry p = bit_or (bit_or (bit_or (page2pa p) pte_p) pte_w) pte_u

-- The directory's entry carries the bits of an entry with the permissions that it is given.
pub dir_entry_lem :
    (p : ℕ)
    → p < 2 ^ 20
    → (has_bits (dir_entry p) pte_p ≡ true) × (pte_addr (dir_entry p) / 2 ^ 12 ≡ p)
dir_entry_lem p h = (
  rw has_bits-p (
      ground (
        arith,
        bit_of_or 0 (bit_or (bit_or (page2pa p) 1) 2) 4,
        bit_of_or 0 (bit_or (page2pa p) 1) 2,
        bit_of_or 0 (page2pa p) 1,
      )),
  omega (
    arith,
    pte_addr_lem (dir_entry p),
    bit_or-div 12 (bit_or (bit_or (page2pa p) 1) 2) 4,
    bit_or-div 12 (bit_or (page2pa p) 1) 2,
    bit_or-div 12 (page2pa p) 1,
    bit_or-zero (bit_or (bit_or (page2pa p) 1) 2 / 4096),
    bit_or-zero (bit_or (page2pa p) 1 / 4096),
    bit_or-zero (page2pa p / 4096),
  ),
)

-- ===== src/Kern/Mmu.antt =====
-- How the kernel writes to the addresses that the page tables in use map, as the MMU of the machine
-- does it (the bits of lab/inc/mmu.h).
use adv_os_jos.Prelude.{ℕ, ◌+◌, ◌-◌, ◌*◌, ◌/◌, ◌%◌, ◌^◌, not, ◌&&◌, ◌==◌, if◌then◌else◌}
use adv_os_jos.Kern.Machine.{
  Cmd, pure, fail, gets, modify, ◌>>=◌, ◌>>◌, write_word, pgsize, pdx, ptx, pte_addr, pte_p, pte_w,
  has_bits,
}

-- The frame that the page tables in use map an address to, for a write: without one, the kernel
-- itself faults.
abbrev pub frame_at : (va : ℕ) → Cmd ℕ
frame_at va = do
  pde ← gets (λ k. k.memory k.cr3 (pdx va))
  if not (has_bits pde pte_p && has_bits pde pte_w) then fail else do
    pte ← gets (λ k. k.memory (pte_addr pde / 2 ^ 12) (ptx va))
    if not (has_bits pte pte_p && has_bits pte pte_w) then fail else pure (pte_addr pte / 2 ^ 12)

-- the index of an address's word in its page
abbrev pub word_index : ℕ → ℕ
word_index va = va % pgsize / 4

-- `*va = w`, of a word at an aligned address.
abbrev pub store_word : (va w : ℕ) → Cmd (Unit {0})
store_word va w = do frame ← frame_at va; modify (write_word frame (word_index va) w)

-- `*va = w` at any address: two words take a part each, where it is not aligned.
unfoldable pub store_at : (va w : ℕ) → Cmd (Unit {0})
store_at va w =
    let s = 2 ^ (8 * (va % 4)) in
    let lo = va - va % 4 in
    let hi = (lo + 4) % 2 ^ 32 in
    if va % 4 == 0 then store_word va w else (do
      f ← frame_at lo
      a ← gets (λ k. k.memory f (word_index lo))
      store_word lo (a % s + w * s % 2 ^ 32)
      g ← frame_at hi
      b ← gets (λ k. k.memory g (word_index hi))
      store_word hi (b / s * s + w * s / 2 ^ 32))

-- A byte stored at any address.
unfoldable pub store_byte : (va b : ℕ) → Cmd (Unit {0})
store_byte va b =
    let s = 2 ^ (8 * (va % 4)) in
    (do
      f ← frame_at va
      w ← gets (λ k. k.memory f (word_index va))
      store_word va (w - w / s % 256 * s + b * s))

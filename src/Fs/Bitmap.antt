-- ===== src/Fs/Bitmap.antt =====
-- The bitmap of lab/fs/fs.c as the set of free blocks.
use adv_os_jos.Prelude.{
  ℕ, zero, suc, ◌+◌, ◌-◌, ◌/◌, ◌%◌, ◌^◌, ◌<◌, ◌≤◌, ◌≡◌, ◌≢◌, refl, sym, ◌∙◌, ap, Bool, true, false,
  not, ◌&&◌, ◌||◌, ◌⊎◌, inl, inr, none, some, ◌∷◌, ◌==◌, ==_iff, ==_ne, leb, lt→leb, Bool-cases,
  arith, update_self, update_ne, pos, neg, bit_or, bit_and,
}
use adv_os_jos.Prelude.Masks.{is_set, is_set-bit_or, is_set-bit_and}
use adv_os_jos.Fs.{
  Disk, ok, block, block_is_free, mark_free, mark_used, free_block, find_free, alloc_block,
  e_no_disk,
}

module _ (s : Disk) (b c : ℕ) where
  -- Block numbers are the same if they have the same word and bit.
  same_bit : b / 32 ≡ c / 32 → (b % 32 == c % 32) ≡ (b == c)
  same_bit e = ground arith

  other_word : (b / 32 == c / 32) ≡ false → (b == c) ≡ false
  other_word e = elim (Bool-cases (b == c)) [
    | inl t ↦
        let same : b / 32 ≡ c / 32 = ap (λ (n : ℕ). n / 32) ((==_iff b c).0 t) in
        absurd (ground arith)
    | inr t ↦ t
  ]

  pub is_free-mark_free :
      c < s.s_nblocks → block_is_free c (mark_free b s) ≡ ((b == c) || block_is_free c s)
  unfolding block_is_free
  is_free-mark_free lt = elim (Bool-cases (b / 32 == c / 32)) [
    | inl t ↦
        let e : b / 32 ≡ c / 32 = (==_iff _ _).0 t in
        rw (lt→leb c s.s_nblocks lt, e, update_self)
          (is_set-bit_or (s.bitmap (c / 32)) (b % 32) (c % 32) (omega arith) (omega arith)
            ∙ ap (λ (x : Bool). x || is_set (s.bitmap (c / 32)) (c % 32)) (same_bit e))
    | inr t ↦
        rw
          (
            lt→leb c s.s_nblocks lt,
            update_ne s.bitmap (b / 32) (bit_or (s.bitmap (b / 32)) (2 ^ (b % 32))) (c / 32) t,
            other_word t,
          )
          refl
  ]

  pub is_free-mark_used :
      c < s.s_nblocks → block_is_free c (mark_used b s) ≡ (not (b == c) && block_is_free c s)
  unfolding block_is_free
  is_free-mark_used lt = elim (Bool-cases (b / 32 == c / 32)) [
    | inl t ↦
        let e : b / 32 ≡ c / 32 = (==_iff _ _).0 t in
        rw (lt→leb c s.s_nblocks lt, e, update_self)
          (is_set-bit_and (s.bitmap (c / 32)) (b % 32) (c % 32) (omega arith) (omega arith)
            ∙ ap (λ (x : Bool). not x && is_set (s.bitmap (c / 32)) (c % 32)) (same_bit e))
    | inr t ↦
        rw
          (
            lt→leb c s.s_nblocks lt,
            update_ne s.bitmap (b / 32) (bit_and (s.bitmap (b / 32)) (2 ^ 32 - 1 - 2 ^ (b % 32)))
                (c / 32) t,
            other_word t,
          )
          refl
  ]

-- free_block of a block of the disk other than 0 makes that block free, and no other.
pub free_block_lem :
    (s : Disk) (b : ℕ)
    → b ≢ 0
    → (free_block b s ≡ ok tt (mark_free b s))
      × ((c : ℕ)
          → c < s.s_nblocks
          → block_is_free c (mark_free b s) ≡ ((b == c) || block_is_free c s))
unfolding free_block
free_block_lem s b ne = (rw (==_ne b 0 ne) refl, λ c lt. is_free-mark_free s b c lt)

-- The search finds the first free block from `i` on among `n`, or there is none.
find_free_lem :
    (n i : ℕ) (s : Disk)
    → ((b : ℕ) × (find_free n i s ≡ some b)
        × (i ≤ b)
        × (b < i + n)
        × (block_is_free b s ≡ true)
        × ((c : ℕ) → i ≤ c → c < b → block_is_free c s ≡ false))
      ⊎ ((find_free n i s ≡ none) × ((c : ℕ) → i ≤ c → c < i + n → block_is_free c s ≡ false))
unfolding find_free
find_free_lem zero i s = inr (refl, λ c lo hi. absurd (omega arith))
find_free_lem (suc n) i s = elim (Bool-cases (block_is_free i s)) [
  | inl t ↦ rw t (inl (i, refl, omega arith, omega arith, t, λ c lo hi. absurd (omega arith)))
  | inr t ↦ rw t (elim (find_free_lem n (i + 1) s) [
    | inl (b, e, lo, hi, is_free, before) ↦
        inl (b, e, omega arith, omega arith, is_free, λ c lo' hi'. skipped b t before c lo' hi')
    | inr (e, all_used) ↦
        inr (e, λ c lo hi. skipped (i + suc n) t (λ d l h. all_used d l (omega arith)) c lo hi)
  ])
]
  where
    skipped :
        (b : ℕ)
        → block_is_free i s ≡ false
        → ((c : ℕ) → i + 1 ≤ c → c < b → block_is_free c s ≡ false)
        → (c : ℕ) → i ≤ c
        → c < b
        → block_is_free c s ≡ false
    skipped b t before c lo hi = elim (Bool-cases (i == c)) [
      | inl e ↦ rw (← (==_iff i c).0 e) t
      | inr ne ↦ before c (ground arith) hi
    ]

-- What alloc_block comes to.
abbrev pub BlockOutcome : Disk → Type 0
BlockOutcome s =
    ((b : ℕ) × (s' : Disk) × (alloc_block s ≡ ok (pos b) s')
      × (b < s.s_nblocks)
      × (block_is_free b s ≡ true)
      × ((c : ℕ) → c < b → block_is_free c s ≡ false)
      × ((c : ℕ) → c < s.s_nblocks → block_is_free c s' ≡ (not (b == c) && block_is_free c s))
      × (s'.s_nblocks ≡ s.s_nblocks)
      × (s'.files ≡ s.files)
      × (s'.words ≡ s.words)
      × (s'.bytes ≡ s.bytes))
    ⊎ (((c : ℕ) → c < s.s_nblocks → block_is_free c s ≡ false)
        × (alloc_block s ≡ ok (neg e_no_disk) s))

-- Where block 0 is in use, alloc_block returns the first free block of the disk, which is then in
-- use, while every other block is in use or free as it was, and the files and the contents of all
-- blocks other than the bitmap are as they were; or no block is free, it returns -E_NO_DISK and
-- changes nothing.
pub alloc_block_lem : (s : Disk) → block_is_free 0 s ≡ false → BlockOutcome s
unfolding alloc_block block_is_free
alloc_block_lem s boot = elim (find_free_lem s.s_nblocks 0 s) [
  | inr (e, all_used) ↦
      inr ((λ c lt. all_used c (omega arith) (omega arith)), rw (alloc_block, e) refl)
  | inl (b, e, lo, hi, is_free, before) ↦
      let not_boot : (b == 0) ≡ false = ==_ne b 0 (λ z.
        let bad : true ≡ false = sym is_free ∙ ap (λ (x : ℕ). block_is_free x s) z ∙ boot in
        cc bad) in
      let inside : leb s.s_nblocks b ≡ false = lt→leb b s.s_nblocks (omega arith) in
      inl (
        b,
        record (mark_used b s) { flushed = block b ∷ s.flushed },
        rw (alloc_block, e, not_boot, inside) refl,
        omega arith,
        is_free,
        (λ c lt. before c (omega arith) lt),
        (λ c lt. is_free-mark_used s b c lt),
        refl,
        refl,
        refl,
        refl,
      )
]

-- ===== src/Kern/UserMem/Range.antt =====
-- What a success and a failure of user_mem_check say of the range.
use adv_os_jos.Prelude.{
  ℕ, zero, suc, ◌+◌, ◌*◌, ◌/◌, ◌^◌, ◌<◌, ◌≡◌, ◌≢◌, refl, sym, ◌∙◌, bit_and, true, false, ◌==◌,
  ==_iff, Bool-cases, ◌⊎◌, inl, inr, ℤ, pos, neg, arith,
}
use adv_os_jos.Prelude.Words.{zero-bit_and}
use adv_os_jos.Kern.Machine.{Kernel, Run, ok, pdx, ptx, pte_addr, pte_p, has_bits, e_fault}
use adv_os_jos.Kern.UserMem.{check_pages, first_bad}
use adv_os_jos.Kern.Pgdir.Translate.{kaddr-ok}

-- Both levels of the page tables are there for `a`, so the entry is present, and it has all the bits
-- of `perm`.
abbrev pub Allows : Kernel → (pgdir perm a : ℕ) → Type 0
Allows k pgdir perm a =
    (has_bits (k.memory pgdir (pdx a)) pte_p ≡ true)
    × (pte_addr (k.memory pgdir (pdx a)) / 2 ^ 12 < k.npages)
    × (has_bits (k.memory (pte_addr (k.memory pgdir (pdx a)) / 2 ^ 12) (ptx a)) pte_p ≡ true)
    × (bit_and (k.memory (pte_addr (k.memory pgdir (pdx a)) / 2 ^ 12) (ptx a)) perm ≡ perm)

-- `k'` differs from `k` in the address that user_mem_check reports.
abbrev pub reported : Kernel → ℕ → Kernel
reported k a = record k { user_mem_check_addr = a }

-- The page tables of the directory are pages of the machine.
abbrev pub TablesIn : Kernel → ℕ → Type 0
TablesIn k pgdir =
    (d : ℕ)
    → has_bits (k.memory pgdir d) pte_p ≡ true
    → pte_addr (k.memory pgdir d) / 2 ^ 12 < k.npages

-- The entries of the page tables that are not present are 0.
abbrev pub Cleared : Kernel → ℕ → Type 0
Cleared k pgdir =
    (d i : ℕ)
    → has_bits (k.memory pgdir d) pte_p ≡ true
    → has_bits (k.memory (pte_addr (k.memory pgdir d) / 2 ^ 12) i) pte_p ≡ false
    → k.memory (pte_addr (k.memory pgdir d) / 2 ^ 12) i ≡ 0

-- An entry that has some bits, where an entry that is not present is 0, is present.
with_bits :
    (w perm : ℕ)
    → perm ≢ 0
    → (has_bits w pte_p ≡ false → w ≡ 0)
    → bit_and w perm ≡ perm
    → has_bits w pte_p ≡ true
with_bits w perm some_bit cleared e = elim (Bool-cases (has_bits w pte_p)) [
  | inl there ↦ there
  | inr gone ↦
      let none_left : bit_and 0 perm ≡ perm = rw (cleared gone) at e in
      absurd (some_bit (sym none_left ∙ zero-bit_and perm))
]

-- What a pass over `n` pages from `a` returns: 0 if all are accessible; else -E_FAULT, with the
-- address of the first that is not.
abbrev pub Verdict : Kernel → (pgdir perm va a n : ℕ) → Run ℤ → Type 0
Verdict k pgdir perm va a n r =
    ((r ≡ ok (pos 0) k) × ((i : ℕ) → i < n → Allows k pgdir perm (a + i * 4096)))
    ⊎ ((i : ℕ) × (i < n)
        × ((j : ℕ) → j < i → Allows k pgdir perm (a + j * 4096))
        × (¬ (Allows k pgdir perm (a + i * 4096)))
        × (r ≡ ok (neg e_fault) (reported k (first_bad va (a + i * 4096)))))

module _ (k : Kernel) (pgdir perm va : ℕ) where
  -- a pass whose first page is bad
  stop :
      (n a : ℕ) (r : Run ℤ)
      → ¬ (Allows k pgdir perm a)
      → r ≡ ok (neg e_fault) (reported k (first_bad va a))
      → Verdict k pgdir perm va a (suc n) r
  stop n a r bad e =
      let here : a + 0 * 4096 ≡ a = omega arith in
      inr (0, omega arith, (λ j lt. absurd (omega arith)), rw here bad, rw here e)

  -- a pass whose first page is good
  go_on :
      (n a : ℕ) (r : Run ℤ)
      → Allows k pgdir perm a
      → Verdict k pgdir perm va (a + 4096) n r
      → Verdict k pgdir perm va a (suc n) r
  go_on n a r good (inl (e, all)) = inl (e, every)
    where
      every : (i : ℕ) → i < suc n → Allows k pgdir perm (a + i * 4096)
      every zero lt = let here : a + 0 * 4096 ≡ a = omega arith in rw here good
      every (suc i) lt =
          let next : a + suc i * 4096 ≡ a + 4096 + i * 4096 = omega arith in
          rw next (all i (omega arith))
  go_on n a r good (inr (i, lt, before, bad, e)) =
      let next : a + suc i * 4096 ≡ a + 4096 + i * 4096 = omega arith in
      inr (suc i, omega arith, earlier, rw next bad, rw next e)
    where
      earlier : (j : ℕ) → j < suc i → Allows k pgdir perm (a + j * 4096)
      earlier zero lt' = let here : a + 0 * 4096 ≡ a = omega arith in rw here good
      earlier (suc j) lt' =
          let next : a + suc j * 4096 ≡ a + 4096 + j * 4096 = omega arith in
          rw next (before j (omega arith))

  pub check_pages-Verdict :
      TablesIn k pgdir
      → perm ≢ 0
      → Cleared k pgdir
      → (n a : ℕ) → Verdict k pgdir perm va a n (check_pages n pgdir va a perm k)
  unfolding check_pages
  check_pages-Verdict tables some_bit cleared zero a = inl (refl, λ i lt. absurd (omega arith))
  check_pages-Verdict tables some_bit cleared (suc n) a =
      elim (Bool-cases (has_bits (k.memory pgdir (pdx a)) pte_p)) [
        | inr gone ↦ stop n a _ (λ ok. cc (gone, ok.0)) (rw gone)
        | inl here ↦
            elim (Bool-cases (
              bit_and (k.memory (pte_addr (k.memory pgdir (pdx a)) / 2 ^ 12) (ptx a)) perm
              == perm)) [
                | inr denied ↦
                    stop n a _ (λ good. cc (denied, (==_iff _ _).1 good.3))
                      (rw (here, kaddr-ok k _ (tables (pdx a) here), denied))
                | inl allowed ↦
                    go_on n a _
                      (
                        here,
                        tables (pdx a) here,
                        with_bits _ perm some_bit (cleared (pdx a) (ptx a) here)
                            ((==_iff _ _).0 allowed),
                        (==_iff _ _).0 allowed,
                      )
                      (rw (here, kaddr-ok k _ (tables (pdx a) here), allowed)
                        (check_pages-Verdict tables some_bit cleared n (a + 4096)))
              ]
      ]

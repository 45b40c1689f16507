-- ===== src/Kern/Page/Decref.antt =====
-- Counts and freed pages: page_decref of lab/kern/pmap.c.
use adv_os_jos.Prelude.{
  ℕ, zero, suc, ◌+◌, ◌-◌, ◌%◌, ◌^◌, ◌<◌, ◌≡◌, ◌≢◌, refl, sym, ◌∙◌, Bool, true, false, List, ◌∷◌,
  some, ◌==◌, update, update_self, update_ne, ==_ne, arith, if◌then◌else◌,
}
use adv_os_jos.Kern.Machine.{Kernel, ok}
use adv_os_jos.Kern.Page.{page_free, page_decref}
use adv_os_jos.Kern.Page.FreeList.{
  has, has_ne, IsFree, Chain-frame, Chain-push, freed, page_free-freed,
}

abbrev counted : ℕ → ℕ → Kernel → Kernel
counted n p k = record k { pages = update k.pages p (record (k.pages p) { pp_ref = n }) }

page_decref-counted :
    (k : Kernel) (p n : ℕ)
    → (k.pages p).pp_ref ≡ suc n
    → n < 2 ^ 16
    → page_decref p k
      ≡ (if n == 0 then page_free (some p) (counted n p k) else ok tt (counted n p k))
unfolding page_decref
page_decref-counted k p n r small =
    let e : ((k.pages p).pp_ref + 2 ^ 16 - 1) % 2 ^ 16 ≡ n = omega arith in
    rw (e, update_self) (by_test (n == 0))
  where
    by_test :
        (t : Bool)
        → (if t then page_free (some p) else λ k'. ok tt k') (counted n p k)
          ≡ (if t then page_free (some p) (counted n p k) else ok tt (counted n p k))
    by_test true = refl
    by_test false = refl

Chain-counted :
    (k : Kernel) (p n : ℕ) (xs : List ℕ)
    → IsFree k xs
    → has p xs ≡ false
    → IsFree (counted n p k) xs
Chain-counted k p n xs free out =
    Chain-frame k.npages k.pages (counted n p k).pages k.page_free_list xs
      (λ a on. update_ne k.pages p _ a (has_ne p a xs out on)) free

-- page_decref lowered the count of `p` to `n`, where the free list was `xs`.
abbrev pub Lowered : (k : Kernel) (p : ℕ) (xs : List ℕ) (n : ℕ) → Type 0
Lowered k p xs n =
    (k' : Kernel) × (page_decref p k ≡ ok tt k')
    × IsFree k' (if n == 0 then p ∷ xs else xs)
    × ((k'.pages p).pp_ref ≡ n)
    × ((q : ℕ) → q ≢ p → k'.pages q ≡ k.pages q)
    × (k'.memory ≡ k.memory)

-- page_decref on a page with more than one reference only lowers the count; on the last reference
-- the page goes to the front of the free list.
pub page_decref_lem :
    (k : Kernel) (p : ℕ) (xs : List ℕ)
    → IsFree k xs
    → p < k.npages
    → has p xs ≡ false
    → (n : ℕ) → (k.pages p).pp_ref ≡ suc n
    → n < 2 ^ 16
    → Lowered k p xs n
page_decref_lem k p xs free lt out zero r small =
    let k1 = counted 0 p k in
    (
      freed p k1,
      page_decref-counted k p 0 r small ∙ page_free-freed k1 p (rw update_self),
      Chain-push k.npages k1.pages k.page_free_list p xs (Chain-counted k p 0 xs free out) lt
          (rw update_self) out,
      simp update_self,
      λ q ne.
          let off : (p == q) ≡ false = ==_ne p q (λ e. ne (sym e)) in
          update_ne k1.pages p _ q off ∙ update_ne k.pages p _ q off,
      refl,
    )
page_decref_lem k p xs free lt out (suc n) r small =
    let k1 = counted (suc n) p k in
    let t : (suc n == 0) ≡ false = ground arith in
    (
      k1,
      rw t at (page_decref-counted k p (suc n) r small),
      rw t (Chain-counted k p (suc n) xs free out),
      rw update_self,
      λ q ne. update_ne k.pages p _ q (==_ne p q (λ e. ne (sym e))),
      refl,
    )

-- ===== src/Kern/Page/Init/Links.antt =====
-- The free list that page_init of lab/kern/pmap.c builds.
use adv_os_jos.Prelude.{
  ℕ, zero, suc, ◌+◌, ◌/◌, ◌≤◌, ◌<◌, ◌≡◌, ◌≢◌, refl, sym, ◌∙◌, ap, true, false, ◌||◌, Option, none,
  some, List, [], ◌∷◌, ◌++◌, append_assoc, append-nil, ◌==◌, ==_ne, ==_iff, update, update_self,
  update_ne, arith, Bool-cases, inl, inr, if◌then◌else◌,
}
use adv_os_jos.Kern.Machine.{Kernel, PageInfo, set_link, set_ref, pgsize, mpentry_paddr}
use adv_os_jos.Kern.Page.Init.{free_extended}
use adv_os_jos.Kern.Page.FreeList.{has, Chain, IsFree}

-- the pages from `i` on, `n` of them, but for that of MPENTRY_PADDR
unfoldable pub usable : (n i : ℕ) → List ℕ
usable zero i = []
usable (suc n) i =
    let rest = usable n (i + 1) in if i == mpentry_paddr / pgsize then rest else i ∷ rest

-- the pages from `i` on, `n` of them
unfoldable pub range : (n i : ℕ) → List ℕ
range zero i = []
range (suc n) i = i ∷ range n (i + 1)

has-append : (a : ℕ) (xs ys : List ℕ) → has a (xs ++ ys) ≡ (has a xs || has a ys)
has-append a [] ys = refl
has-append a (x ∷ xs) ys = ground (arith, has-append a xs ys)

-- A free page `q` is linked behind the last one.
Chain-snoc :
    (n : ℕ) (f g : ℕ → PageInfo) (l : Option ℕ) (zs : List ℕ) (last q : ℕ)
    → Chain n f l (zs ++ last ∷ [])
    → has q (zs ++ last ∷ []) ≡ false
    → q < n
    → g q ≡ record { pp_link = none; pp_ref = 0 }
    → g last ≡ record (f last) { pp_link = some q }
    → ((a : ℕ) → has a (zs ++ last ∷ []) ≡ true → a ≢ last → g a ≡ f a)
    → Chain n g l ((zs ++ last ∷ []) ++ q ∷ [])
Chain-snoc n f g l [] last q (e, lt, r, out, c) new below at_q at_last same = (
  e,
  lt,
  rw at_last r,
  ground (arith, new),
  (rw at_last refl, below, rw at_q refl, refl, rw at_q refl),
)
Chain-snoc n f g l (p ∷ zs) last q (e, lt, r, out, c) new below at_q at_last same =
    let apart : p ≢ last = λ h. not_last zs (rw h at out) in
    let at : g p ≡ f p = same p (ground arith) apart in
    (
      e,
      lt,
      rw at r,
      rw (has-append p (zs ++ last ∷ []) (q ∷ []), out) (ground (arith, new)),
      rw at (
          Chain-snoc n f g (f p).pp_link zs last q c (ground (arith, new)) below at_q at_last
            (λ a h ne. same a (ground (arith, h)) ne)),
    )
  where
    not_last : (ys : List ℕ) → has last (ys ++ last ∷ []) ≡ false → ⊥
    not_last ys h = let bad : true ≡ false = sym (has-last ys) ∙ h in cc bad
      where
        has-last : (ys : List ℕ) → has last (ys ++ last ∷ []) ≡ true
        has-last [] = ground arith
        has-last (y ∷ ys) = ground (arith, has-last ys)

-- The free list is `zs` and then `last`, which is the highest of its pages.
pub record Chained (k : Kernel) (zs : List ℕ) (last : ℕ) : Type 0 where
  pub chain : IsFree k (zs ++ last ∷ [])
  pub up_to : (a : ℕ) → has a (zs ++ last ∷ []) ≡ true → a ≤ last

not_above :
    (k : Kernel) (zs : List ℕ) (last i : ℕ)
    → Chained k zs last
    → last < i
    → has i (zs ++ last ∷ []) ≡ false
not_above k zs last i c lt = elim (Bool-cases (has i (zs ++ last ∷ []))) [
  | inl t ↦ absurd (let h = c.up_to i t in omega arith)
  | inr f ↦ f
]

-- The page `i`, above the others, is freed and linked behind them.
pub Chained-next :
    (k k' : Kernel) (zs : List ℕ) (last i : ℕ)
    → Chained k zs last
    → last < i
    → i < k.npages
    → k'.npages ≡ k.npages
    → k'.page_free_list ≡ k.page_free_list
    → k'.pages i ≡ record { pp_link = none; pp_ref = 0 }
    → k'.pages last ≡ record (k.pages last) { pp_link = some i }
    → ((a : ℕ) → a < last → k'.pages a ≡ k.pages a)
    → Chained k' (zs ++ last ∷ []) i
Chained-next k k' zs last i c lt below n_same l_same at_i at_last same = record {
  chain =
      rw (n_same, l_same)
        (Chain-snoc k.npages k.pages k'.pages k.page_free_list zs last i c.chain
          (not_above k zs last i c lt) below at_i at_last
          (λ a h ne. same a (lt_of a (c.up_to a h) ne)));
  up_to = λ a h. by_cases a (rw (has-append a (zs ++ last ∷ []) (i ∷ [])) at h);
}
  where
    lt_of : (a : ℕ) → a ≤ last → a ≢ last → a < last
    lt_of a le ne = elim (Bool-cases (a == last)) [
      | inl e ↦ absurd (ne ((==_iff a last).0 e))
      | inr e ↦ ground arith
    ]

    by_cases : (a : ℕ) → (has a (zs ++ last ∷ []) || ((a == i) || false)) ≡ true → a ≤ i
    by_cases a h = elim (Bool-cases (has a (zs ++ last ∷ []))) [
      | inl t ↦ (let u = c.up_to a t in omega arith)
      | inr f ↦ (let g = rw f at h in ground arith)
    ]

-- What page_init does not touch.
pub record Kept (k k' : Kernel) : Type 0 where
  pub npages_is : k'.npages ≡ k.npages
  pub base_is : k'.npages_basemem ≡ k.npages_basemem
  pub next_is : k'.nextfree ≡ k.nextfree

pub Kept-trans : {k k' k'' : Kernel} → Kept k k' → Kept k' k'' → Kept k k''
Kept-trans a b = record {
  npages_is = b.npages_is ∙ a.npages_is;
  base_is = b.base_is ∙ a.base_is;
  next_is = b.next_is ∙ a.next_is;
}

-- The state when the page `i` is freed and linked behind `last`.
abbrev pub linked : (last i : ℕ) → Kernel → Kernel
linked last i k = set_link last (some i) (set_link i none (set_ref i 0 k))

module _ (k : Kernel) (last i : ℕ) (lt : last < i) where
  freed : ℕ → PageInfo
  freed = (set_link i none (set_ref i 0 k)).pages

  freed_self : freed i ≡ record { pp_link = none; pp_ref = 0 }
  unfolding freed
  freed_self =
      rw (update_self (update k.pages i (record (k.pages i) { pp_ref = 0 })) i _)
        (rw (update_self k.pages i _) refl)

  freed_ne : (a : ℕ) → a < i → freed a ≡ k.pages a
  unfolding freed
  freed_ne a less =
      let n : (i == a) ≡ false = ==_ne i a (λ e. omega (arith, e)) in
      update_ne (update k.pages i _) i _ a n ∙ update_ne k.pages i _ a n

  pub linked_i : (linked last i k).pages i ≡ record { pp_link = none; pp_ref = 0 }
  unfolding freed
  linked_i = update_ne _ last _ i (==_ne last i (λ e. omega (arith, e))) ∙ freed_self

  pub linked-last : (linked last i k).pages last ≡ record (k.pages last) { pp_link = some i }
  unfolding freed
  linked-last =
      update_self _ last _ ∙ ap (λ (x : PageInfo). record x { pp_link = some i }) (freed_ne last lt)

  pub linked_below : (a : ℕ) → a < last → (linked last i k).pages a ≡ k.pages a
  unfolding freed
  linked_below a less =
      update_ne _ last _ a (==_ne last a (λ e. omega (arith, e))) ∙ freed_ne a (omega arith)

  linked-Chained :
      (zs : List ℕ)
      → Chained k zs last
      → i < k.npages
      → Chained (linked last i k) (zs ++ last ∷ []) i
  linked-Chained zs c below =
      Chained-next k (linked last i k) zs last i c lt below refl refl linked_i linked-last
        linked_below

-- The second loop.
pub free_extended-Chained :
    (n i last : ℕ) (k : Kernel) (zs : List ℕ)
    → Chained k zs last
    → last < i
    → i + n ≤ k.npages
    → IsFree (free_extended n i last k) ((zs ++ last ∷ []) ++ range n i)
      × Kept k (free_extended n i last k)
unfolding free_extended range
free_extended-Chained zero i last k zs c lt fits = (
  rw (append-nil (zs ++ last ∷ [])) c.chain,
  record { npages_is = refl; base_is = refl; next_is = refl },
)
free_extended-Chained (suc n) i last k zs c lt fits =
    let (free, kept) =
      free_extended-Chained n (i + 1) i (linked last i k) (zs ++ last ∷ [])
        (linked-Chained k last i lt zs c (omega arith)) (omega arith) (omega arith) in
    (
      rw⁻¹ (append_assoc (zs ++ last ∷ []) (i ∷ []) (range n (i + 1))) free,
      Kept-trans (record { npages_is = refl; base_is = refl; next_is = refl }) kept,
    )

-- ===== src/Kern/Page/FreeList.antt =====
-- The free list as a list of pages, and what page_alloc, page_free and page_decref do to it.
use adv_os_jos.Prelude.{
  ℕ, ◌^◌, ◌≤◌, ◌<◌, ◌≡◌, ◌≢◌, ◌⊎◌, refl, Bool, true, false, ◌||◌, Option, none, some, List, [], ◌∷◌,
  ◌==◌, update, update_laws, update_self, update_ne, ==_iff, ap, arith, Bool-cases, inl, inr,
  if◌then◌else◌,
}
use adv_os_jos.Kern.Machine.{Kernel, PageInfo, ok, panic, set_link, page2kva}
use adv_os_jos.Kern.Page.{page_alloc, page_free}

abbrev pub has : ℕ → List ℕ → Bool
has a [] = false
has a (p ∷ xs) = (a == p) || has a xs

-- From `l` the links lead through the distinct pages `xs`, each below `n` and of count 0, to NULL.
abbrev pub Chain : ℕ → (ℕ → PageInfo) → Option ℕ → List ℕ → Type 0
Chain n pages l [] = l ≡ none
Chain n pages l (p ∷ xs) =
    (l ≡ some p)
    × (p < n)
    × ((pages p).pp_ref ≡ 0)
    × (has p xs ≡ false)
    × Chain n pages (pages p).pp_link xs

-- The free list of `k` is `xs`.
abbrev pub IsFree : Kernel → List ℕ → Type 0
IsFree k xs = Chain k.npages k.pages k.page_free_list xs

-- A chain does not depend on the pages outside it.
pub Chain-frame :
    (n : ℕ) (f g : ℕ → PageInfo) (l : Option ℕ) (xs : List ℕ)
    → ((a : ℕ) → has a xs ≡ true → g a ≡ f a)
    → Chain n f l xs
    → Chain n g l xs
Chain-frame n f g l [] same c = c
Chain-frame n f g l (p ∷ xs) same (e, lt, r, out, c) =
    let at : g p ≡ f p = same p (ground arith) in
    (
      e,
      lt,
      rw at r,
      out,
      rw at (Chain-frame n f g (f p).pp_link xs (λ a h. same a (ground arith)) c),
    )

-- The state when page_alloc has moved the head of the list past the page `p`.
abbrev unlinked : ℕ → Kernel → Kernel
unlinked p k = set_link p none (record k { page_free_list = (k.pages p).pp_link })

-- The state after page_alloc took the page `p`.
abbrev pub taken : ℕ → ℕ → Kernel → Kernel
taken flags p k = record k {
  pages = update k.pages p (record { pp_link = none; pp_ref = 0 });
  page_free_list = (k.pages p).pp_link;
  memory = if flags == 0 then k.memory else update k.memory p (λ _. 0);
}

pub page2kva-ok : (k : Kernel) (p : ℕ) → p < k.npages → k.npages ≤ 2 ^ 20 → page2kva p k ≡ ok p k
page2kva-ok k p lt small = ground arith

pub page_alloc-taken :
    (flags : ℕ) (k : Kernel) (p : ℕ)
    → k.page_free_list ≡ some p
    → p < k.npages
    → k.npages ≤ 2 ^ 20
    → page_alloc flags k ≡ ok (some p) (taken flags p k)
unfolding page_alloc
page_alloc-taken flags k p e lt small = elim (Bool-cases (flags == 0)) [
  | inl none_set ↦ rw (e, none_set) (simp update_laws)
  | inr some_set ↦ rw (e, some_set) (rw (page2kva-ok (unlinked p k) p lt small) (simp update_laws))
]

-- page_alloc on an empty free list returns NULL and changes nothing.
pub page_alloc-none : (flags : ℕ) (k : Kernel) → IsFree k [] → page_alloc flags k ≡ ok none k
unfolding page_alloc
page_alloc-none flags k free = rw free

-- page_alloc took `p` from the free list `p ∷ xs`.
abbrev pub Allocated : (flags : ℕ) (k : Kernel) (p : ℕ) (xs : List ℕ) → Type 0
Allocated flags k p xs =
    (k' : Kernel) × (page_alloc flags k ≡ ok (some p) k')
    × IsFree k' xs
    × (has p xs ≡ false)
    × (k'.pages p ≡ record { pp_link = none; pp_ref = 0 })
    × ((q : ℕ) → q ≢ p → k'.pages q ≡ k.pages q)
    × ((i : ℕ) → flags ≢ 0 → k'.memory p i ≡ 0)
    × ((q : ℕ) → (q ≢ p) ⊎ (flags ≡ 0) → k'.memory q ≡ k.memory q)

-- On a free list `p ∷ xs` of a machine with 32-bit physical addresses, page_alloc returns `p`, with
-- count 0 and no link; the free list is then `xs`; the other pages keep their counts and links; the
-- page is cleared if a flag is set, and no other byte of memory changes.
pub page_alloc-cons :
    (flags : ℕ) (k : Kernel) (p : ℕ) (xs : List ℕ)
    → IsFree k (p ∷ xs)
    → k.npages ≤ 2 ^ 20
    → Allocated flags k p xs
unfolding update
page_alloc-cons flags k p xs (e, lt, r, out, c) small = (
  taken flags p k,
  page_alloc-taken flags k p e lt small,
  Chain-frame k.npages k.pages (taken flags p k).pages (k.pages p).pp_link xs (λ a h. ground arith)
      c,
  out,
  ground arith,
  λ q ne. ground arith,
  λ i set. ground arith,
  λ q h. ground arith,
)

-- A page on a list is not one that is off it.
pub has_ne : (p a : ℕ) (xs : List ℕ) → has p xs ≡ false → has a xs ≡ true → (p == a) ≡ false
has_ne p a xs out on = elim (Bool-cases (p == a)) [
  | inl same ↦ absurd (cc (ap (λ b. has b xs) ((==_iff p a).0 same), on, out))
  | inr differ ↦ differ
]

-- Linking a page that is not on a chain in front of it gives a longer chain.
pub Chain-push :
    (n : ℕ) (f : ℕ → PageInfo) (l : Option ℕ) (p : ℕ) (xs : List ℕ)
    → Chain n f l xs
    → p < n
    → (f p).pp_ref ≡ 0
    → has p xs ≡ false
    → Chain n (update f p (record (f p) { pp_link = l })) (some p) (p ∷ xs)
Chain-push n f l p xs c lt r out =
    let linked = update f p (record (f p) { pp_link = l }) in
    let other = λ (a : ℕ) (h : has a xs ≡ true). update_ne f p _ a (has_ne p a xs out h) in
    (refl, lt, rw update_self r, out, rw update_self (Chain-frame n f linked l xs other c))

abbrev pub freed : ℕ → Kernel → Kernel
freed p k = record k {
  pages = update k.pages p (record (k.pages p) { pp_link = k.page_free_list });
  page_free_list = some p;
}

pub page_free-freed :
    (k : Kernel) (p : ℕ) → (k.pages p).pp_ref ≡ 0 → page_free (some p) k ≡ ok tt (freed p k)
unfolding page_free
page_free-freed k p r = elim (Bool-cases ((k.pages p).pp_ref == 0)) [
  | inl zero_ref ↦ rw zero_ref
  | inr counted ↦ absurd (ground arith)
]

-- page_free put `p` in front of the free list `xs`.
abbrev pub Released : (k : Kernel) (p : ℕ) (xs : List ℕ) → Type 0
Released k p xs =
    (k' : Kernel) × (page_free (some p) k ≡ ok tt k')
    × IsFree k' (p ∷ xs)
    × ((q : ℕ) → (k'.pages q).pp_ref ≡ (k.pages q).pp_ref)
    × (k'.memory ≡ k.memory)

-- page_free puts a page of count 0 that is not free yet in front of the list, and changes nothing else.
pub page_free-cons :
    (k : Kernel) (p : ℕ) (xs : List ℕ)
    → IsFree k xs
    → p < k.npages
    → (k.pages p).pp_ref ≡ 0
    → has p xs ≡ false
    → Released k p xs
unfolding update
page_free-cons k p xs free lt r out = (
  freed p k,
  page_free-freed k p r,
  Chain-push k.npages k.pages k.page_free_list p xs free lt r out,
  λ q. same_ref q,
  refl,
)
  where
    same_ref : (q : ℕ) → ((freed p k).pages q).pp_ref ≡ (k.pages q).pp_ref
    same_ref q = ground arith

-- page_free panics on a page that is still referenced, and on NULL.
pub page_free_panics :
    (k : Kernel)
    → (page_free none k ≡ panic) × ((p : ℕ) → (k.pages p).pp_ref ≢ 0 → page_free (some p) k ≡ panic)
unfolding page_free
page_free_panics k = (refl, λ p h. ground arith)

-- ===== src/Kern/Page/Init/Usable.antt =====
-- That page_init of lab/kern/pmap.c makes free exactly the pages that may be used.
use adv_os_jos.Prelude.{
  ℕ, zero, suc, ◌+◌, ◌-◌, ◌*◌, ◌/◌, ◌^◌, ◌≤◌, ◌<◌, ◌≡◌, refl, sym, ◌∙◌, ap, true, false, Option,
  none, some, List, [], ◌∷◌, ◌++◌, append_assoc, append-nil, ◌==◌, ==_ne, ==_iff, ltb, max, update,
  update_self, update_ne, arith, Bool-cases, inl, inr, if◌then◌else◌,
}
use adv_os_jos.Kern.Machine.{
  Kernel, PageInfo, Run, ok, set_link, set_ref, pgsize, roundup, kernbase, mpentry_paddr, and_then,
  Cmd, fail, modify,
}
use adv_os_jos.Kern.Page.{boot_alloc}
use adv_os_jos.Kern.Page.Init.{page_init, mark_used, free_base, free_extended, link_base}
use adv_os_jos.Kern.Page.FreeList.{Chain, IsFree}
use adv_os_jos.Kern.Page.Init.Links.{
  usable, range, Chained, Kept, Kept-trans, Chained-next, linked, linked_i, linked-last,
  linked_below, free_extended-Chained,
}

-- The state of the first loop, which links the page `i` behind `last` and behind page `i - 1`.
abbrev base_linked : (last i : ℕ) → Kernel → Kernel
base_linked last i k = set_link (i - 1) (some i) (linked last i k)

module _ (k : Kernel) (last i : ℕ) (lt : last < i) where
  base_last : (base_linked last i k).pages last ≡ record (k.pages last) { pp_link = some i }
  base_last = elim (Bool-cases (i - 1 == last)) [
    | inl t ↦
        let e : i - 1 ≡ last = (==_iff _ _).0 t in
        rw e (
          update_self _ last _
          ∙ ap (λ (x : PageInfo). record x { pp_link = some i }) (linked-last k last i lt))
    | inr t ↦ update_ne _ (i - 1) _ last t ∙ linked-last k last i lt
  ]

  base-Chained :
      (zs : List ℕ)
      → Chained k zs last
      → i < k.npages
      → Chained (base_linked last i k) (zs ++ last ∷ []) i
  base-Chained zs c below =
      Chained-next k (base_linked last i k) zs last i c lt below refl refl
        (update_ne _ (i - 1) _ i (==_ne (i - 1) i (λ e. omega (arith, e))) ∙ linked_i k last i lt)
        base_last
        (λ a less.
          update_ne _ (i - 1) _ a (==_ne (i - 1) a (λ e. omega (arith, e)))
          ∙ linked_below k last i lt a less)

-- The list is not empty.
head_is :
    (n : ℕ) (f : ℕ → PageInfo) (l : Option ℕ) (zs : List ℕ) (last : ℕ)
    → Chain n f l (zs ++ last ∷ [])
    → (h : ℕ) × (l ≡ some h)
head_is n f l [] last c = (last, c.0)
head_is n f l (z ∷ zs) last c = (z, c.0)

link_base-some :
    (k : Kernel) (i p h : ℕ)
    → k.page_free_list ≡ some h
    → link_base i (some p) k ≡ ok tt (set_link (i - 1) (some i) (set_link p (some i) k))
unfolding link_base
link_base-some k i p h e =
    ap {B = Run (Unit {0})}
      (λ (o : Option ℕ). elim o [
        | none ↦ ok tt (record k { page_free_list = some i })
        | some x ↦ ok tt (set_link (i - 1) (some i) (set_link p (some i) k))
      ])
      e

-- The last page linked by the first loop.
last_from : (n i last : ℕ) → ℕ
last_from zero i last = last
last_from (suc n) i last =
    let skipped = last_from n (i + 1) last in
    let rest = last_from n (i + 1) i in if i == mpentry_paddr / pgsize then skipped else rest

last_from_lem : (n i last : ℕ) → 7 < i + n → last_from (suc n) i last ≡ i + n
unfolding last_from
last_from_lem zero i last h = ground arith
last_from_lem (suc n) i last h = elim (Bool-cases (i == mpentry_paddr / pgsize)) [
  | inl t ↦ rw t (last_from_lem n (i + 1) last (omega arith) ∙ omega arith)
  | inr t ↦ rw t (last_from_lem n (i + 1) i (omega arith) ∙ omega arith)
]

-- The first loop, from a list that is not empty.
record Based (n i last : ℕ) (k : Kernel) (zs : List ℕ) : Type 0 where
  end : Kernel
  before : List ℕ
  runs : free_base n i (some last) k ≡ ok tt end
  pages_are : before ++ last_from n i last ∷ [] ≡ (zs ++ last ∷ []) ++ usable n i
  chained : Chained end before (last_from n i last)
  kept : Kept k end

free_base-Based :
    (n i last : ℕ) (k : Kernel) (zs : List ℕ)
    → Chained k zs last
    → last < i
    → i + n ≤ k.npages
    → Based n i last k zs
unfolding free_base last_from usable
free_base-Based zero i last k zs c lt fits = record {
  end = k;
  before = zs;
  runs = refl;
  pages_are = sym (append-nil (zs ++ last ∷ []));
  chained = c;
  kept = record { npages_is = refl; base_is = refl; next_is = refl };
}
free_base-Based (suc n) i last k zs c lt fits = elim (Bool-cases (i == mpentry_paddr / pgsize)) [
  | inl t ↦ skip t (free_base-Based n (i + 1) last k zs c (omega arith) (omega arith))
  | inr t ↦ link t (
      free_base-Based n (i + 1) i (base_linked last i k) (zs ++ last ∷ [])
        (base-Chained k last i lt zs c (omega arith)) (omega arith) (omega arith))
]
  where
    skip :
        (i == mpentry_paddr / pgsize) ≡ true → Based n (i + 1) last k zs → Based (suc n) i last k zs
    skip t b = record {
      end = b.end;
      before = b.before;
      runs = rw (free_base, t) b.runs;
      pages_are = rw t b.pages_are;
      chained = rw t b.chained;
      kept = b.kept;
    }

    link :
        (i == mpentry_paddr / pgsize) ≡ false
        → Based n (i + 1) i (base_linked last i k) (zs ++ last ∷ [])
        → Based (suc n) i last k zs
    link t b =
        let (h, head) = head_is k.npages k.pages k.page_free_list zs last c.chain in
        record {
          end = b.end;
          before = b.before;
          runs =
              rw (free_base, t)
                (rw (link_base-some (set_link i none (set_ref i 0 k)) i last h head) b.runs);
          pages_are =
              rw t (b.pages_are ∙ append_assoc (zs ++ last ∷ []) (i ∷ []) (usable n (i + 1)));
          chained = rw t b.chained;
          kept = Kept-trans (record { npages_is = refl; base_is = refl; next_is = refl }) b.kept;
        }

-- What mark_used leaves.
mark_used-Kept : (n i : ℕ) (k : Kernel) → Kept k (mark_used n i k)
unfolding mark_used
mark_used-Kept zero i k = record { npages_is = refl; base_is = refl; next_is = refl }
mark_used-Kept (suc n) i k =
    Kept-trans (record { npages_is = refl; base_is = refl; next_is = refl })
      (mark_used-Kept n (i + 1) (set_link i none (set_ref i 1 k)))

-- The state when page 1 is the only free page.
abbrev first_free : Kernel → Kernel
first_free k = record (set_link 1 none (set_ref 1 0 k)) { page_free_list = some 1 }

first_free-Chained : (k : Kernel) → 1 < k.npages → Chained (first_free k) [] 1
first_free-Chained k more = record {
  chain = (
    refl,
    more,
    rw (update_self (update k.pages 1 _) 1 _) (rw (update_self k.pages 1 _) refl),
    refl,
    rw (update_self (update k.pages 1 _) 1 _) refl,
  );
  up_to = λ a h. ground arith;
}

-- The machine at the start of page_init: base memory of more than 8 pages, and `next`, where boot_alloc
-- goes on, which is the address of a page behind it.
pub record Boots (end first : ℕ) (k : Kernel) : Type 0 where
  pub base : 8 < k.npages_basemem
  pub in_memory : k.npages_basemem ≤ k.npages
  pub behind_base : k.npages_basemem ≤ first
  pub in_reach : first ≤ k.npages
  pub next_free :
      (if k.nextfree == 0 then roundup end pgsize else k.nextfree) ≡ kernbase + first * pgsize
  pub word : kernbase + first * pgsize < 2 ^ 32

module _ (end first : ℕ) (k : Kernel) (b : Boots end first k) where
  -- every page but the first is in use
  all_used : Kernel
  all_used = record (mark_used (k.npages - 1) 1 k) { page_free_list = none }

  all_used-Kept : Kept k all_used
  unfolding all_used
  all_used-Kept =
      let m = mark_used-Kept (k.npages - 1) 1 k in
      record { npages_is = m.npages_is; base_is = m.base_is; next_is = m.next_is }

  rounds : ℕ
  rounds = k.npages_basemem - 3

  base_rounds : all_used.npages_basemem - 1 ≡ suc (suc rounds)
  unfolding rounds
  base_rounds =
      let e : all_used.npages_basemem ≡ k.npages_basemem = all_used-Kept.base_is in
      omega (arith, e, b.base)

  based : Based (suc rounds) 2 1 (first_free all_used) []
  unfolding rounds
  based =
      let e : all_used.npages ≡ k.npages = all_used-Kept.npages_is in
      free_base-Based (suc rounds) 2 1 (first_free all_used) []
        (first_free-Chained all_used (omega (arith, e, b.base, b.in_memory))) (omega arith)
        (omega (arith, e, b.base, b.in_memory))

  based_runs : free_base (all_used.npages_basemem - 1) 1 none all_used ≡ ok tt based.end
  unfolding free_base link_base all_used
  based_runs = rw base_rounds based.runs

  based_last : last_from (suc rounds) 2 1 ≡ k.npages_basemem - 1
  unfolding rounds
  based_last = last_from_lem rounds 2 1 (omega (arith, b.base)) ∙ omega (arith, b.base)

  -- behind boot_alloc
  allotted : Kernel
  allotted = record based.end { nextfree = kernbase + first * pgsize }

  boot_alloc_runs : boot_alloc end 0 based.end ≡ ok (kernbase + first * pgsize) allotted
  unfolding boot_alloc allotted
  boot_alloc_runs =
      let same : based.end.nextfree ≡ k.nextfree = based.kept.next_is ∙ all_used-Kept.next_is in
      let e : (if based.end.nextfree == 0 then roundup end pgsize else based.end.nextfree)
          ≡ kernbase + first * pgsize =
        ap (λ (n : ℕ). if n == 0 then roundup end pgsize else n) same ∙ b.next_free in
      ap (λ (n : ℕ). ok n (record based.end { nextfree = n })) e

  same_pages : allotted.npages ≡ k.npages
  unfolding allotted
  same_pages = based.kept.npages_is ∙ all_used-Kept.npages_is

  same_base : allotted.npages_basemem ≡ k.npages_basemem
  unfolding allotted
  same_base = based.kept.base_is ∙ all_used-Kept.base_is

  allotted-Chained : Chained allotted based.before (k.npages_basemem - 1)
  unfolding allotted
  allotted-Chained =
      let c = rw based_last at based.chained in record { chain = c.chain; up_to = c.up_to }

  base_pages : based.before ++ (k.npages_basemem - 1) ∷ [] ≡ usable (k.npages_basemem - 1) 1
  unfolding usable
  base_pages =
      let e : k.npages_basemem - 1 ≡ suc (suc rounds) = rw all_used-Kept.base_is at base_rounds in
      rw based_last at based.pages_are ∙ rw e refl

  finished : Kernel
  finished = free_extended (k.npages - first) first (k.npages_basemem - 1) allotted

  finished-IsFree :
      IsFree finished (usable (k.npages_basemem - 1) 1 ++ range (k.npages - first) first)
  unfolding finished
  finished-IsFree =
      rw (← base_pages)
        (free_extended-Chained (k.npages - first) first (k.npages_basemem - 1) allotted based.before
          allotted-Chained (omega (arith, b.base, b.behind_base))
          (omega (arith, same_pages, b.in_reach))).0

  -- page_init behind boot_alloc
  extend : (kva : ℕ) → Cmd (Unit {0})
  extend kva =
      if ltb kva kernbase
      then fail
      else (let f = roundup (kva - kernbase) pgsize / pgsize in
          modify (λ k'. free_extended (k'.npages - f) f (max 1 k'.npages_basemem - 1) k'))

  extend_runs : extend (kernbase + first * pgsize) allotted ≡ ok tt finished
  unfolding extend finished
  extend_runs =
      let w = b.word in
      let above : ltb (kernbase + first * pgsize) kernbase ≡ false = ground arith in
      let page : roundup (kernbase + first * pgsize - kernbase) pgsize / pgsize ≡ first =
        omega (arith, w) in
      let last : max 1 allotted.npages_basemem - 1 ≡ k.npages_basemem - 1 =
        omega (arith, same_base, b.base) in
      rw above (rw (page, last, same_pages) refl)

  init_runs : page_init end k ≡ ok tt finished
  unfolding page_init all_used extend
  init_runs =
      ap (λ (r : Run (Unit {0})). and_then r (λ _ k'. and_then (boot_alloc end 0 k') extend))
        based_runs
      ∙ ap (λ (r : Run ℕ). and_then r extend) boot_alloc_runs
      ∙ extend_runs

-- page_init, on a machine whose base memory has more than 8 pages and lies below what boot_alloc has
-- given out: it returns, with the free list of the pages of base memory but the first and that of
-- MPENTRY_PADDR, and of those behind what boot_alloc has given out, in ascending order.
pub page_init-IsFree :
    (end first : ℕ) (k : Kernel)
    → Boots end first k
    → (k' : Kernel) × (page_init end k ≡ ok tt k')
      × IsFree k' (usable (k.npages_basemem - 1) 1 ++ range (k.npages - first) first)
unfolding page_init
page_init-IsFree end first k b =
    (finished end first k b, init_runs end first k b, finished-IsFree end first k b)

-- ===== src/Kern/Env/Init.antt =====
-- env_init of lab/kern/env.c: the free list of environments at boot.
use adv_os_jos.Prelude.{
  ℕ, zero, suc, ◌+◌, ◌-◌, ◌≡◌, refl, sym, ◌∙◌, ap, subst, true, false, Option, none, some, inl, inr,
  Bool-cases, ◌==◌, ==_iff, ltb, arith, update, update_ne, if◌then◌else◌,
}
use adv_os_jos.Kern.Machine.{Kernel, Env, set_env, nenv}

-- `if (!env_free_list)` in the loop of env_init, by the list's head.
abbrev pub link_after : Option ℕ → (i : ℕ) → Kernel → Kernel
link_after none i k = record k { env_free_list = some i }
link_after (some _) i k = set_env (i - 1) (record (k.envs (i - 1)) { env_link = some i }) k

-- A round of the loop.
abbrev pub link_env : (i : ℕ) → Kernel → Kernel
link_env i k =
    link_after k.env_free_list i (set_env i (record (k.envs i) { env_id = 0; env_link = none }) k)

-- The loop, from environment `i` with `n` rounds left.
link_from : (n i : ℕ) → Kernel → Kernel
link_from zero i k = k
link_from (suc n) i k = link_from n (i + 1) (link_env i k)

-- env_init, less the per-CPU part, which loads the CPU's descriptor registers.
unfoldable pub env_init : Kernel → Kernel
unfolding link_from
env_init = link_from nenv 0

by_index : {A : Type 0} (g : ℕ → A) (v : A) (i j : ℕ) → update g i v j ≡ (if i == j then v else g j)
unfolding update
by_index g v i j = refl

-- the environment `j` when the first `i` are linked
abbrev pub linked : (k : Kernel) (i j : ℕ) → Env
linked k i j =
    if ltb j i
    then record (k.envs j) { env_id = 0; env_link = if suc j == i then none else some (suc j) }
    else k.envs j

-- The list from environment 0, and the environments, after the rounds for the first `i`.
abbrev pub Linked : (k k' : Kernel) (i : ℕ) → Type 0
Linked k k' i = (k'.env_free_list ≡ some 0) × ((j : ℕ) → k'.envs j ≡ linked k i j)

Linked-first : (k : Kernel) → k.env_free_list ≡ none → Linked k (link_env 0 k) 1
Linked-first k empty =
    let k' = set_env 0 (record (k.envs 0) { env_id = 0; env_link = none }) k in
    let e : link_env 0 k ≡ record k' { env_free_list = some 0 } =
      ap (λ (l : Option ℕ). link_after l 0 k') empty in
    (
      ap (λ (x : Kernel). x.env_free_list) e,
      λ j.
          ap (λ (x : Kernel). x.envs j) e
          ∙ by_index k.envs (record (k.envs 0) { env_id = 0; env_link = none }) 0 j
          ∙ first j,
    )
  where
    first :
        (j : ℕ)
        → (if 0 == j then record (k.envs 0) { env_id = 0; env_link = none } else k.envs j)
          ≡ linked k 1 j
    first zero = refl
    first (suc j) =
        let later : (0 == suc j) ≡ false = ground arith in
        let outside : ltb (suc j) 1 ≡ false = ground arith in rw (later, outside) refl

-- the environment that the loop has come to
abbrev cut : Env → Env
cut env = record env { env_id = 0; env_link = none }

module _ (k : Kernel) (envs : ℕ → Env) (i : ℕ) (at : (j : ℕ) → envs j ≡ linked k (suc i) j) where
  previous : record (envs i) { env_link = some (suc i) } ≡ linked k (suc (suc i)) i
  previous =
      let here : ltb i (suc i) ≡ true = ground arith in
      let below : ltb i (suc (suc i)) ≡ true = ground arith in
      let more : (suc i == suc (suc i)) ≡ false = ground arith in
      let same : (suc i == suc i) ≡ true = ground arith in
      let was : envs i ≡ cut (k.envs i) = at i ∙ rw (here, same) refl in
      rw (below, more) (ap (λ (x : Env). record x { env_link = some (suc i) }) was)

  current : cut (envs (suc i)) ≡ linked k (suc (suc i)) (suc i)
  current =
      let out : ltb (suc i) (suc i) ≡ false = ground arith in
      let below : ltb (suc i) (suc (suc i)) ≡ true = ground arith in
      let last : (suc (suc i) == suc (suc i)) ≡ true = ground arith in
      let was : envs (suc i) ≡ k.envs (suc i) = at (suc i) ∙ rw out refl in
      rw (below, last) (ap cut was)

  other : (j : ℕ) → (i == j) ≡ false → (suc i == j) ≡ false → envs j ≡ linked k (suc (suc i)) j
  other j not_i not_next = at j ∙ elim (Bool-cases (ltb j (suc i))) [
    | inl t ↦
        let below : ltb j (suc (suc i)) ≡ true = ground arith in
        let e : (suc j == suc i) ≡ false = ground arith in
        let e' : (suc j == suc (suc i)) ≡ false = ground arith in rw (t, below, e, e') refl
    | inr t ↦ let out : ltb j (suc (suc i)) ≡ false = ground arith in rw (t, out) refl
  ]

  -- What a round leaves, where both writes come before the read.
  round_at :
      (j : ℕ)
      → update
          (update envs (suc i) (cut (envs (suc i))))
          i
          (record (update envs (suc i) (cut (envs (suc i))) i) { env_link = some (suc i) })
          j
        ≡ linked k (suc (suc i)) j
  round_at j =
      let kept : update envs (suc i) (cut (envs (suc i))) i ≡ envs i =
        update_ne envs (suc i) (cut (envs (suc i))) i (ground arith) in
      by_index (update envs (suc i) (cut (envs (suc i)))) _ i j ∙ elim (Bool-cases (i == j)) [
        | inl t ↦ rw t (
            ap (λ (x : Env). record x { env_link = some (suc i) }) kept
            ∙ previous
            ∙ ap (linked k (suc (suc i))) ((==_iff i j).0 t))
        | inr t ↦ rw t (
            by_index envs (cut (envs (suc i))) (suc i) j ∙ elim (Bool-cases (suc i == j)) [
              | inl u ↦ rw u (current ∙ ap (linked k (suc (suc i))) ((==_iff (suc i) j).0 u))
              | inr u ↦ rw u (other j t u)
            ])
      ]

Linked-link_env :
    (k k' : Kernel) (i : ℕ) → Linked k k' (suc i) → Linked k (link_env (suc i) k') (suc (suc i))
Linked-link_env k k' i (head, at) =
    let cleared = set_env (suc i) (cut (k'.envs (suc i))) k' in
    let e : link_env (suc i) k' ≡ link_after (some 0) (suc i) cleared =
      ap (λ (l : Option ℕ). link_after l (suc i) cleared) head in
    let before : suc i - 1 ≡ i = omega arith in
    (
      ap (λ (x : Kernel). x.env_free_list) e ∙ head,
      λ j. ap (λ (x : Kernel). x.envs j) e ∙ rw before (round_at k k'.envs i at j),
    )

link_from-Linked :
    (k : Kernel) (n i : ℕ) (k' : Kernel)
    → Linked k k' (suc i)
    → Linked k (link_from n (suc i) k') (suc i + n)
unfolding link_from
link_from-Linked k zero i k' h = let e : suc i + 0 ≡ suc i = omega arith in rw e h
link_from-Linked k (suc n) i k' h =
    let e : suc i + suc n ≡ suc (suc i) + n = omega arith in
    let e' : suc i + 1 ≡ suc (suc i) = omega arith in
    subst (λ (x : ℕ). Linked k (link_from n x (link_env (suc i) k')) (suc i + suc n)) (sym e')
      (rw e (link_from-Linked k n (suc i) (link_env (suc i) k') (Linked-link_env k k' i h)))

-- If no list of free environments is there yet, env_init puts all 1024 environments on it, in the
-- order of the array: it begins at environment 0, each links to the next, and the last to none; all
-- ids are 0, and the other fields of the environments are as they were.
pub env_init_lem : (k : Kernel) → k.env_free_list ≡ none → Linked k (env_init k) nenv
unfolding env_init link_from
env_init_lem k empty = link_from-Linked k 1023 0 (link_env 0 k) (Linked-first k empty)

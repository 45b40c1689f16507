-- ===== src/Kern/Debug/Bracket.antt =====
-- That the search of lab/kern/kdebug.c ends, and brackets the address.
use adv_os_jos.Prelude.{
  ℕ, zero, suc, ◌+◌, ◌-◌, ◌*◌, ◌≤◌, ◌<◌, true, false, ◌==◌, ==_iff, ltb, some, pos, ◌≡◌, ◌⊎◌, inl,
  inr, refl, ap, Bool-cases, arith, ltb→lt, le→leb, lt→leb,
}
use adv_os_jos.Kern.Debug.{
  Stab, Search, is_type, search_round, search_loop, last_back, store_region, stab_binsearch,
}
use adv_os_jos.Kern.Debug.Round.{Is, value, NoneIn, Sorted, Brackets, bound, Fine-round}

module _ (stabs : ℕ → Stab) (type : ℕ) where
  -- The last stab of the type behind `left`, or `left`.
  last_back-NoneIn :
      (n left : ℕ)
      → (left ≤ last_back stabs type n left)
        × (last_back stabs type n left ≤ left + n)
        × ((last_back stabs type n left ≡ left) ⊎ Is stabs type (last_back stabs type n left))
        × NoneIn stabs type (last_back stabs type n left + 1) (left + n + 1)
  unfolding last_back
  last_back-NoneIn zero left = (omega arith, omega arith, inl refl, λ k x y. absurd (omega arith))
  last_back-NoneIn (suc n) left = elim (Bool-cases (is_type stabs type (left + suc n))) [
    | inl t ↦ rw t (omega arith, omega arith, inr t, λ k x y. absurd (omega arith))
    | inr t ↦ rw t (
        let (a, b, c, d) = last_back-NoneIn n left in
        (
          a,
          omega arith,
          c,
          λ k x y. elim (Bool-cases (k == left + suc n)) [
            | inl e ↦ let e' : k ≡ left + suc n = (==_iff _ _).0 e in rw e' t
            | inr e ↦ d k x (ground arith)
          ],
        ))
  ]

  -- The stab `i` of the type is the last at or below the address `a`, and `j` is where the next stab of
  -- the type is, which is above the address, or the end of the region.
  pub record Contains (lo hi a i j : ℕ) : Type 0 where
    pub from : lo ≤ i
    pub before : i < j
    pub to : j ≤ hi
    pub of_type : Is stabs type i
    pub at_or_below : value stabs type i ≤ a
    pub no_other : NoneIn stabs type (i + 1) j
    pub next : (j ≡ hi) ⊎ (Is stabs type j × (a < value stabs type j))

  module _ (lo hi a : ℕ) (sorted : Sorted stabs type lo hi a) where
    -- With fuel for the rounds that are left, the loop ends, with its invariant.
    search_loop-Brackets :
        (fuel : ℕ) (s : Search)
        → Brackets stabs type lo hi a s
        → bound stabs type lo hi a s < fuel
        → (t : Search) × (search_loop stabs type fuel s ≡ some t)
          × Brackets stabs type lo hi a t
          × (t.e ≤ t.l)
    unfolding search_loop
    search_loop-Brackets zero s inv enough = absurd (omega arith)
    search_loop-Brackets (suc fuel) s inv enough = elim (Bool-cases (ltb s.l s.e)) [
      | inl c ↦
          rw (search_loop, c)
            (let (v, less) = Fine-round stabs type lo hi a sorted s inv (ltb→lt s.l s.e c) in
              search_loop-Brackets fuel (search_round stabs type s) v (omega arith))
      | inr c ↦ rw (search_loop, c) (s, refl, inv, ground arith)
    ]

    -- What the loop has at its end, where some stab of the type is at or below the address.
    module _ (s : Search) (inv : Brackets stabs type lo hi a s) (done : s.e ≤ s.l) (k : ℕ)
        (lo_k : lo ≤ k) (k_hi : k < hi) (t : Is stabs type k) (low : value stabs type k ≤ a) where
      k_before : k < s.e
      k_before = elim (Bool-cases (ltb k s.e)) [
        | inl b ↦ ltb→lt k s.e b
        | inr b ↦ absurd (let h = inv.above k (ground arith) k_hi t in omega arith)
      ]

      matched : s.any_matches ≡ true
      matched = elim (Bool-cases s.any_matches) [
        | inl b ↦ b
        | inr b ↦ absurd (let h = inv.none_yet b k lo_k (omega (arith, k_before)) in cc)
      ]

      left_before : s.left < s.e
      left_before = elim inv.left_is [ inl e ↦ omega (arith, k_before) | inr (x, y, z) ↦ z ]

      last : ℕ
      last = last_back stabs type (s.e - 1 - s.left) s.left

      last_typed : Is stabs type last
      unfolding last
      last_typed =
          let (a1, b1, c1, d1) = last_back-NoneIn (s.e - 1 - s.left) s.left in
          elim c1 [
            | inr h ↦ h
            | inl h ↦ elim inv.left_is [
              | inr (x, y, z) ↦ rw h x
              | inl e ↦ rw h (elim (Bool-cases (k == s.left)) [
                | inl q ↦ let q' : k ≡ s.left = (==_iff k s.left).0 q in rw⁻¹ q' t
                | inr q ↦ absurd (let n = d1 k (ground arith) (omega (arith, k_before)) in cc)
              ])
            ]
          ]

      last-Contains : Contains lo hi a last s.e
      unfolding last
      last-Contains =
          let (a1, b1, c1, d1) = last_back-NoneIn (s.e - 1 - s.left) s.left in
          record {
            from = omega (arith, inv.left_from);
            before = omega (arith, left_before);
            to = inv.within;
            of_type = last_typed;
            at_or_below =
                inv.below last (omega (arith, inv.left_from)) (omega (arith, left_before, inv.to))
                  last_typed;
            no_other = λ i x y. d1 i x (omega (arith, left_before));
            next = elim inv.end_is [
              | inl e ↦ inl e
              | inr h ↦ elim (Bool-cases (ltb s.e hi)) [
                | inl b ↦ inr (h, inv.above s.e (omega arith) (ltb→lt s.e hi b) h)
                | inr b ↦ inl (let w = inv.within in ground arith)
              ]
            ];
          }

      stored : store_region stabs type s ≡ (pos last, pos (s.e - 1))
      unfolding last
      stored =
          rw (matched, inv.same_end, lt→leb s.left s.e left_before)
            (rw (le→leb 1 s.e (omega (arith, left_before))) refl)

    -- stab_binsearch in a region where the stabs of the type are in ascending order, none is at the
    -- address `a + 1`, and one is at or below `a`: with fuel for two rounds for each stab and two more
    -- it ends, and the region that it stores begins with the last stab of the type at or below `a` and
    -- ends before the next stab of the type, or with the region.
    pub stab_binsearch-Contains :
        (fuel k : ℕ)
        → lo ≤ k
        → k < hi
        → Is stabs type k
        → value stabs type k ≤ a
        → 2 * (hi - lo) + 1 < fuel
        → (i j : ℕ) × (stab_binsearch stabs type fuel lo hi a ≡ some (pos i, pos (j - 1)))
          × Contains lo hi a i j
    unfolding stab_binsearch
    stab_binsearch-Contains fuel k lo_k k_hi t low enough =
        let (s, runs, inv, done) = search_loop-Brackets fuel _ first (ground arith) in
        (
          last s inv done k lo_k k_hi t low,
          s.e,
          rw runs (ap some (stored s inv done k lo_k k_hi t low)),
          last-Contains s inv done k lo_k k_hi t low,
        )
      where
        first :
            Brackets stabs type lo hi a
              (record { left = lo; behind = hi; l = lo; e = hi; any_matches = false; addr = a })
        first = record {
          from = omega arith;
          to = omega arith;
          within = omega arith;
          left_from = omega arith;
          left_to = omega arith;
          addr_is = inl refl;
          same_end = refl;
          end_is = inl refl;
          below = λ i x y. absurd (omega arith);
          above = λ i x y. absurd (omega arith);
          left_is = inl refl;
          none_yet = λ e i x y. absurd (omega arith);
        }

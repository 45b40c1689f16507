-- ===== src/Kern/Debug/Round.antt =====
-- A round of the search of lab/kern/kdebug.c: what it keeps, and that it comes nearer to the end.
use adv_os_jos.Prelude.{
  ℕ, zero, suc, ◌+◌, ◌-◌, ◌*◌, ◌%◌, ◌^◌, ◌≤◌, ◌<◌, true, false, ◌==◌, ==_iff, ltb, Option, none,
  some, if◌then◌else◌, ◌≡◌, ◌⊎◌, inl, inr, refl, Bool-cases, arith, ltb→lt,
}
use adv_os_jos.Kern.Debug.{
  Stab, Search, is_type, match_back, true_m, compare_at, after_match, search_round,
}

module _ (stabs : ℕ → Stab) (type : ℕ) where
  -- a stab of the type, at an index
  abbrev pub Is : ℕ → Type 0
  Is i = is_type stabs type i ≡ true

  abbrev pub value : ℕ → ℕ
  value i = (stabs i).n_value

  -- No stab from `i` to before `j` is of the type.
  abbrev pub NoneIn : (i j : ℕ) → Type 0
  NoneIn i j = (k : ℕ) → i ≤ k → k < j → is_type stabs type k ≡ false

  -- what match_back finds in `n` indices from `l` on
  abbrev pub Found : (n l : ℕ) → Option ℕ → Type 0
  Found n l none = NoneIn l (l + n)
  Found n l (some m) = (l ≤ m) × (m < l + n) × Is m × NoneIn (m + 1) (l + n)

  NoneIn-suc : (i n : ℕ) → is_type stabs type n ≡ false → NoneIn i n → NoneIn i (n + 1)
  NoneIn-suc i n f h k a b = elim (Bool-cases (k == n)) [
    | inl t ↦ let e : k ≡ n = (==_iff k n).0 t in rw e f
    | inr t ↦ h k a (ground arith)
  ]

  Found-suc :
      (n l : ℕ) (r : Option ℕ)
      → is_type stabs type (l + n) ≡ false
      → Found n l r
      → Found (suc n) l r
  Found-suc n l none f h = λ k a b. NoneIn-suc l (l + n) f h k a (omega arith)
  Found-suc n l (some m) f (a, b, c, d) =
      (a, omega arith, c, λ k x y. NoneIn-suc (m + 1) (l + n) f d k x (omega arith))

  pub match_back-Found : (n l : ℕ) → Found n l (match_back stabs type n l)
  unfolding match_back
  match_back-Found zero l = λ k a b. absurd (omega arith)
  match_back-Found (suc n) l = elim (Bool-cases (is_type stabs type (l + n))) [
    | inl t ↦ rw t (omega arith, omega arith, t, λ k a b. absurd (omega arith))
    | inr t ↦ rw t (Found-suc n l (match_back stabs type n l) t (match_back-Found n l))
  ]

  -- The region from `lo` to before `hi`, and an address with no stab right behind it.
  module _ (lo hi a : ℕ) where
    pub record Sorted : Type 0 where
      pub ascending : (i j : ℕ) → lo ≤ i → i < j → j < hi → Is i → Is j → value i ≤ value j
      pub no_next : (i : ℕ) → lo ≤ i → i < hi → Is i → value i ≡ a + 1 → ⊥
      pub in_words : a + 1 < 2 ^ 32

    -- The invariant of the loop.
    pub record Brackets (s : Search) : Type 0 where
      pub from : lo ≤ s.l
      pub to : s.l ≤ s.e
      pub within : s.e ≤ hi
      pub left_from : lo ≤ s.left
      pub left_to : s.left ≤ s.l
      pub addr_is : (s.addr ≡ a) ⊎ (s.addr ≡ a + 1)
      pub same_end : s.behind ≡ s.e
      pub end_is : (s.e ≡ hi) ⊎ Is s.e
      pub below : (i : ℕ) → lo ≤ i → i < s.l → Is i → value i ≤ a
      pub above : (i : ℕ) → s.e ≤ i → i < hi → Is i → a < value i
      pub left_is : (s.left ≡ lo) ⊎ (Is s.left × (value s.left ≤ a) × (s.left < s.e))
      pub none_yet : s.any_matches ≡ false → NoneIn lo s.l

    -- Rounds left.
    abbrev pub bound : Search → ℕ
    bound s = 2 * (s.e - s.l) + (if s.addr == a then 1 else 0)

    module _ (sorted : Sorted) (s : Search) (inv : Brackets s) (more : s.l < s.e) where
      middle : (s.l ≤ true_m stabs type s) × (true_m stabs type s < s.e)
      middle = (omega arith, omega arith)

      abbrev pub Fine : Search → Type 0
      Fine t = Brackets t × (bound t < bound s)

      -- Up to `j`, what is below `i` and nothing of the type behind it.
      below_to :
          (i j : ℕ)
          → ((k : ℕ) → lo ≤ k → k < i → Is k → value k ≤ a)
          → NoneIn i j
          → (k : ℕ) → lo ≤ k
          → k < j
          → Is k
          → value k ≤ a
      below_to i j h n k x y t = elim (Bool-cases (ltb k i)) [
        | inl b ↦ h k x (ltb→lt k i b) t
        | inr b ↦ absurd (let f = n k (ground arith) y in cc)
      ]

      Fine-none : NoneIn s.l (true_m stabs type s + 1) → Fine (after_match stabs type s none)
      Fine-none h = (
        record {
          from = omega (arith, inv.from);
          to = omega (arith, middle);
          within = inv.within;
          left_from = inv.left_from;
          left_to = omega (arith, inv.left_to);
          addr_is = inv.addr_is;
          same_end = inv.same_end;
          end_is = inv.end_is;
          below = below_to s.l (true_m stabs type s + 1) inv.below h;
          above = inv.above;
          left_is = inv.left_is;
          none_yet = λ e k x y. elim (Bool-cases (ltb k s.l)) [
            | inl b ↦ inv.none_yet e k x (ltb→lt k s.l b)
            | inr b ↦ h k (ground arith) y
          ];
        },
        omega arith,
      )

      module _ (m : ℕ) (l_m : s.l ≤ m) (m_e : m ≤ true_m stabs type s) (t : Is m)
          (h : NoneIn (m + 1) (true_m stabs type s + 1)) where
        m_from : lo ≤ m
        m_from = omega (arith, inv.from)

        m_hi : m < hi
        m_hi = omega (arith, inv.within, middle)

        below_match : value m ≤ a → (k : ℕ) → lo ≤ k → k < m + 1 → Is k → value k ≤ a
        below_match v k x y is = elim (Bool-cases (k == m)) [
          | inl e ↦ let e' : k ≡ m = (==_iff k m).0 e in rw e' v
          | inr n ↦ omega (arith, sorted.ascending k m x (ground arith) m_hi is t)
        ]

        Fine-below :
            value m ≤ a
            → Fine (record s { left = m; l = true_m stabs type s + 1; any_matches = true })
        Fine-below v = (
          record {
            from = omega (arith, inv.from);
            to = omega (arith, middle);
            within = inv.within;
            left_from = m_from;
            left_to = omega arith;
            addr_is = inv.addr_is;
            same_end = inv.same_end;
            end_is = inv.end_is;
            below = below_to (m + 1) (true_m stabs type s + 1) (below_match v) h;
            above = inv.above;
            left_is = inr (t, v, omega (arith, middle));
            none_yet = λ e. absurd cc;
          },
          omega arith,
        )

        Fine-above : a < value m → Fine (record s { behind = m; e = m; any_matches = true })
        Fine-above v = (
          record {
            from = inv.from;
            to = l_m;
            within = omega (arith, m_hi);
            left_from = inv.left_from;
            left_to = inv.left_to;
            addr_is = inv.addr_is;
            same_end = refl;
            end_is = inr t;
            below = inv.below;
            above = λ i x y is. elim (Bool-cases (i == m)) [
              | inl e ↦ let e' : i ≡ m = (==_iff i m).0 e in rw e' v
              | inr n ↦ omega (arith, v, sorted.ascending m i m_from (ground arith) y t is)
            ];
            left_is = elim inv.left_is [
              | inl e ↦ inl e
              | inr (is, w, lt) ↦ inr (
                is,
                w,
                elim (Bool-cases (s.left == m)) [
                  | inl e ↦
                      let e' : s.left ≡ m = (==_iff s.left m).0 e in
                      absurd (let w' : value m ≤ a = rw⁻¹ e' w in omega arith)
                  | inr n ↦ (let q = inv.left_to in ground arith)
                ],
              )
            ];
            none_yet = λ e. absurd cc;
          },
          omega (arith, middle),
        )

        Fine-exact :
            value m ≡ a
            → s.addr ≡ a
            → Fine (record s { left = m; l = m; addr = (s.addr + 1) % 2 ^ 32; any_matches = true })
        Fine-exact v e =
            let next : (s.addr + 1) % 2 ^ 32 ≡ a + 1 = omega (arith, sorted.in_words) in
            (
              record {
                from = m_from;
                to = omega (arith, middle);
                within = inv.within;
                left_from = m_from;
                left_to = omega arith;
                addr_is = inr next;
                same_end = inv.same_end;
                end_is = inv.end_is;
                below = λ k x y. below_match (omega arith) k x (omega arith);
                above = inv.above;
                left_is = inr (t, omega arith, omega (arith, middle));
                none_yet = λ e. absurd cc;
              },
              rw next (ground arith),
            )

        Fine-compare_at : Fine (compare_at stabs type s m)
        Fine-compare_at = elim (Bool-cases (ltb (value m) s.addr)) [
          | inl b ↦
              rw b (Fine-below (elim inv.addr_is [ inl e ↦ ground arith | inr e ↦ ground arith ]))
          | inr b ↦ elim (Bool-cases (ltb s.addr (value m))) [
            | inl c ↦
                rw (b, c)
                  (Fine-above (elim inv.addr_is [ inl e ↦ ground arith | inr e ↦ ground arith ]))
            | inr c ↦
                rw (b, c)
                  (elim inv.addr_is [
                    | inl e ↦ Fine-exact (ground arith) e
                    | inr e ↦ absurd (sorted.no_next m m_from m_hi t (ground arith))
                  ])
          ]
        ]

      Fine-after_match :
          (r : Option ℕ)
          → Found (true_m stabs type s + 1 - s.l) s.l r
          → Fine (after_match stabs type s r)
      Fine-after_match none h = Fine-none (λ k x y. h k x (omega arith))
      Fine-after_match (some m) (x, y, t, h) =
          Fine-compare_at m x (omega (arith, middle)) t (λ k u v. h k u (omega (arith, middle)))

      -- A round keeps the invariant, and leaves fewer rounds.
      pub Fine-round : Fine (search_round stabs type s)
      unfolding search_round
      Fine-round =
          Fine-after_match (match_back stabs type (true_m stabs type s + 1 - s.l) s.l)
            (match_back-Found (true_m stabs type s + 1 - s.l) s.l)

-- ===== src/Kern/Syscall/Memory/Grant.antt =====
-- What sys_page_map of lab/kern/syscall.c lets one environment map for another.
use adv_os_jos.Prelude.{
  ℕ, ◌-◌, ◌^◌, ◌%◌, ◌<◌, ◌≡◌, ◌≢◌, ==_ne, Option, refl, sym, ◌∙◌, Bool, true, false, not, ◌&&◌,
  ◌||◌, ◌⊎◌, inl, inr, none, some, ◌==◌, leb, Bool-cases, Option-cases, arith, if◌then◌else◌, pos,
  neg, is_neg,
}
use adv_os_jos.Kern.Machine.{
  Kernel, ok, pure, and_then, pdx, ptx, pgsize, utop, pte_w, has_bits, e_inval,
}
use adv_os_jos.Kern.Pgdir.{page_insert}
use adv_os_jos.Kern.Pgdir.Translate.{IsDir, translate, translate-some, page_lookup-translate, table}
use adv_os_jos.Kern.Pgdir.Remove.{page_of}
use adv_os_jos.Kern.Env.{envid2env}
use adv_os_jos.Kern.Syscall.Memory.{bad_perm, sys_page_map, map_between, map_found}

-- The permissions that the code's test lets pass: with PTE_U, or with PTE_P, or with a bit outside
-- PTE_SYSCALL. (The comment in the source asks for PTE_U and PTE_P, and for no bit outside.)
abbrev pub Permitted : ℕ → Type 0
Permitted perm =
    (has_bits perm 4 ≡ true)
    ⊎ ((has_bits perm 1 ≡ true) ⊎ (has_bits perm (2 ^ 32 - 1 - 0xe07) ≡ true))

pub bad_perm-Permitted : (perm : ℕ) → bad_perm perm ≡ false → Permitted perm
bad_perm-Permitted perm h = elim (Bool-cases (has_bits perm 4)) [
  | inl u ↦ inl u
  | inr u ↦ elim (Bool-cases (has_bits perm 1)) [
    | inl p ↦ inr (inl p)
    | inr p ↦ elim (Bool-cases (has_bits perm 0xfffff1f8)) [
      | inl x ↦ inr (inr x)
      | inr x ↦ let bad : true ≡ false = rw (u, p, x) at h in absurd (cc bad)
    ]
  ]
]

Permitted-bad_perm : (perm : ℕ) → Permitted perm → ¬ (bad_perm perm ≡ true)
Permitted-bad_perm perm (inl u) h = let bad : false ≡ true = rw u at h in cc bad
Permitted-bad_perm perm (inr (inl p)) h = elim (Bool-cases (has_bits perm 4)) [
  | inl u ↦ let bad : false ≡ true = rw u at h in cc bad
  | inr u ↦ let bad : false ≡ true = rw (u, p) at h in cc bad
]
Permitted-bad_perm perm (inr (inr x)) h = elim (Bool-cases (has_bits perm 4)) [
  | inl u ↦ let bad : false ≡ true = rw u at h in cc bad
  | inr u ↦ elim (Bool-cases (has_bits perm 1)) [
    | inl p ↦ let bad : false ≡ true = rw (u, p) at h in cc bad
    | inr p ↦ let bad : false ≡ true = rw (u, p, x) at h in cc bad
  ]
]

-- The addresses are of user pages, the permissions pass, and the entry `w` of the source
-- is writable if the mapping is to be.
pub record Mappable (srcva dstva perm w : ℕ) : Type 0 where
  pub source : (srcva < utop) × (srcva % pgsize ≡ 0)
  pub target : (dstva < utop) × (dstva % pgsize ≡ 0)
  pub flags : Permitted perm
  pub no_gain : has_bits perm pte_w ≡ true → has_bits w pte_w ≡ true

-- The page goes to page_insert; or nothing at `srcva` may be mapped so.
abbrev pub MapOutcome : (k : Kernel) (d d' src srcva dst dstva perm : ℕ) → Type 0
MapOutcome k d d' src srcva dst dstva perm =
    ((w : ℕ) × (translate k.memory d srcva ≡ some w)
      × Mappable srcva dstva perm w
      × (sys_page_map src srcva dst dstva perm k
          ≡ and_then (page_insert d' (page_of w) dstva perm k)
              (λ code. if is_neg code then pure code else pure (pos 0))))
    ⊎ (((w : ℕ) → translate k.memory d srcva ≡ some w → ¬ (Mappable srcva dstva perm w))
        × (sys_page_map src srcva dst dstva perm k ≡ ok (neg e_inval) k))

module _ (k : Kernel) (src dst e e' d d' : ℕ) (from : envid2env src true k ≡ ok (pos 0, some e) k)
    (to : envid2env dst true k ≡ ok (pos 0, some e') k) (dir : (k.envs e).env_pgdir ≡ some d)
    (dir' : (k.envs e').env_pgdir ≡ some d') (v : IsDir k d) (srcva dstva perm : ℕ) where
  between :
      sys_page_map src srcva dst dstva perm k ≡ map_between (some e) srcva (some e') dstva perm k
  unfolding sys_page_map
  between = rw (from, to) refl

  unmapped :
      (leb utop srcva || leb utop dstva) ≡ false
      → (not (srcva % pgsize == 0) || not (dstva % pgsize == 0)) ≡ false
      → translate k.memory d srcva ≡ none
      → map_between (some e) srcva (some e') dstva perm k ≡ ok (neg e_inval) k
  unfolding map_between
  unmapped low aligned t = rw (low, aligned, dir, page_lookup-translate k d srcva v, t) refl

  found :
      (w : ℕ)
      → (leb utop srcva || leb utop dstva) ≡ false
      → (not (srcva % pgsize == 0) || not (dstva % pgsize == 0)) ≡ false
      → translate k.memory d srcva ≡ some w
      → map_between (some e) srcva (some e') dstva perm k
        ≡ map_found (some e') dstva perm (page_of w) (table k.memory d (pdx srcva), ptx srcva) k
  unfolding map_between
  found w low aligned t = rw (low, aligned, dir, page_lookup-translate k d srcva v, t) refl

  -- the tests of map_found on the entry `w`
  bad_flags :
      (page : ℕ) (pte : ℕ × ℕ)
      → bad_perm perm ≡ true
      → map_found (some e') dstva perm page pte k ≡ ok (neg e_inval) k
  unfolding map_found
  bad_flags page pte h = rw h refl

  gains :
      (w page : ℕ) (pte : ℕ × ℕ)
      → k.memory pte.0 pte.1 ≡ w
      → bad_perm perm ≡ false
      → (not (has_bits w pte_w) && has_bits perm pte_w) ≡ true
      → map_found (some e') dstva perm page pte k ≡ ok (neg e_inval) k
  unfolding map_found
  gains w page pte at h g = rw (h, at, g) refl

  granted :
      (w page : ℕ) (pte : ℕ × ℕ)
      → k.memory pte.0 pte.1 ≡ w
      → bad_perm perm ≡ false
      → (not (has_bits w pte_w) && has_bits perm pte_w) ≡ false
      → map_found (some e') dstva perm page pte k
        ≡ and_then
            (page_insert d' page dstva perm k)
            (λ code. if is_neg code then pure code else pure (pos 0))
  unfolding map_found
  granted w page pte at h g = rw (h, at, g, dir') refl

  same_entry :
      (w : ℕ)
      → translate k.memory d srcva ≡ some w
      → (x : ℕ) → translate k.memory d srcva ≡ some x
      → w ≡ x
  same_entry w t x t' = cc (t, t')

  high :
      (leb utop srcva || leb utop dstva) ≡ true
      → map_between (some e) srcva (some e') dstva perm k ≡ ok (neg e_inval) k
  unfolding map_between
  high h = rw h refl

  odd :
      (leb utop srcva || leb utop dstva) ≡ false
      → (not (srcva % pgsize == 0) || not (dstva % pgsize == 0)) ≡ true
      → map_between (some e) srcva (some e') dstva perm k ≡ ok (neg e_inval) k
  unfolding map_between
  odd low h = rw (low, h) refl

  by_entry :
      (w : ℕ)
      → (leb utop srcva || leb utop dstva) ≡ false
      → (not (srcva % pgsize == 0) || not (dstva % pgsize == 0)) ≡ false
      → translate k.memory d srcva ≡ some w
      → MapOutcome k d d' src srcva dst dstva perm
  by_entry w low aligned t =
      let (here, at, set) = translate-some k.memory d srcva w t in
      let pte : ℕ × ℕ = (table k.memory d (pdx srcva), ptx srcva) in
      let start = between ∙ found w low aligned t in
      elim (Bool-cases (bad_perm perm)) [
        | inl h ↦
            inr ((λ x t' m. Permitted-bad_perm perm m.flags h), start ∙ bad_flags (page_of w) pte h)
        | inr h ↦ elim (Bool-cases (not (has_bits w pte_w) && has_bits perm pte_w)) [
          | inl g ↦ inr (
            (λ x t' m. refuse w x (same_entry w t x t') g m.no_gain),
            start ∙ gains w (page_of w) pte at h g,
          )
          | inr g ↦ inl (
            w,
            t,
            record {
              source = ground arith;
              target = ground arith;
              flags = bad_perm-Permitted perm h;
              no_gain = λ want. writable (has_bits w pte_w) (has_bits perm pte_w) g want;
            },
            start ∙ granted w (page_of w) pte at h g,
          )
        ]
      ]
    where
      writable : (a b : Bool) → (not a && b) ≡ false → b ≡ true → a ≡ true
      writable true b g want = refl
      writable false b g want = absurd (cc (g, want))

      refuse :
          (w x : ℕ)
          → w ≡ x
          → (not (has_bits w pte_w) && has_bits perm pte_w) ≡ true
          → ¬ (has_bits perm pte_w ≡ true → has_bits x pte_w ≡ true)
      refuse w x same g allowed =
          both (has_bits x pte_w) (has_bits perm pte_w) (rw (← same) g) allowed
        where
          both : (a b : Bool) → (not a && b) ≡ true → ¬ (b ≡ true → a ≡ true)
          both true b g' allowed' = cc g'
          both false b g' allowed' = let bad : false ≡ true = allowed' g' in cc bad

  -- sys_page_map between two environments that the caller may name: it hands the page that the
  -- source maps at `srcva` to page_insert, and passes on its error, exactly if both addresses are
  -- page-aligned and below UTOP, the permissions have PTE_U or PTE_P or a bit outside PTE_SYSCALL, and
  -- write permission is asked for only where the source has it; else it returns -E_INVAL and changes
  -- nothing. (The comment in the source asks for PTE_U and PTE_P and for no bit outside PTE_SYSCALL;
  -- the code does not.)
  pub sys_page_map_lem : MapOutcome k d d' src srcva dst dstva perm
  sys_page_map_lem = elim (Bool-cases (leb utop srcva || leb utop dstva)) [
    | inl h ↦ inr ((λ w t m. ground (arith, m.source, m.target)), between ∙ high h)
    | inr low ↦ elim (Bool-cases (not (srcva % pgsize == 0) || not (dstva % pgsize == 0))) [
      | inl h ↦ inr ((λ w t m. ground (arith, m.source, m.target)), between ∙ odd low h)
      | inr aligned ↦ elim (Option-cases (translate k.memory d srcva)) [
        | inl t ↦ inr (
          (λ w t' m. let bad : none ≡ some w = sym t ∙ t' in cc bad),
          between ∙ unmapped low aligned t,
        )
        | inr (w, t) ↦ by_entry w low aligned t
      ]
    ]
  ]

-- The kernel refuses to map an address inside a page.
map_between-unaligned :
    (c : Option ℕ) (va perm : ℕ)
    → va % pgsize ≢ 0
    → (k : Kernel) → map_between c va c va perm k ≡ ok (neg e_inval) k
unfolding map_between
map_between-unaligned c va perm n k = elim (Bool-cases (leb utop va)) [
  | inl t ↦ rw t refl
  | inr t ↦ rw (t, ==_ne (va % pgsize) 0 n) refl
]

pub sys_page_map-unaligned :
    (va perm : ℕ)
    → va % pgsize ≢ 0
    → (k : Kernel) → sys_page_map 0 va 0 va perm k ≡ ok (neg e_inval) k
unfolding sys_page_map envid2env
sys_page_map-unaligned va perm n k = map_between-unaligned k.curenv va perm n k

-- ===== src/Fs/Serv/Alloc.antt =====
-- openfile_alloc of lab/fs/serv.c.
use adv_os_jos.Prelude.{
  ℕ, zero, suc, ◌+◌, ◌<◌, ◌≤◌, ◌≡◌, ◌⊎◌, refl, sym, subst, inl, inr, Option, none, some, ◌==◌,
  ==_iff, Bool-cases, arith, ℤ, pos, negsuc, neg,
}
use adv_os_jos.Fs.Serv.{
  Server, Outcome, done, maxopen, e_max_open, hand_out, openfile_alloc, alloc_from, take_new,
  once_mapped,
}
use adv_os_jos.Fs.Serv.Table.{IsTable, shared, count_at, HandsOut, Rightly, Rightly-hand_out}

abbrev pub SysPageAlloc : Type 0
SysPageAlloc = (va : ℕ) → (ℕ → ℕ) → ℤ × (ℕ → ℕ)

-- Each entry from `i` on and below `j` has a page that a client has, too.
abbrev pub Busy : (s : Server) (i j : ℕ) → Type 0
Busy s i j = (k : ℕ) → i ≤ k → k < j → 1 < count_at s k

-- What openfile_alloc comes to, from entry `i` with `n` rounds left.
abbrev pub AllocOutcome : SysPageAlloc → (s : Server) (n i : ℕ) → Outcome (ℤ × Option ℕ) → Type 0
AllocOutcome sys_page_alloc s n i out =
    (Busy s i (i + n) × (out ≡ done (neg e_max_open, none) s))
    ⊎ ((j : ℕ) × (i ≤ j) × (j < i + n) × Busy s i j × (count_at s j ≡ 1) × (out ≡ hand_out j s))
    ⊎ ((j : ℕ) × (i ≤ j)
        × (j < i + n)
        × Busy s i j
        × (count_at s j ≡ 0)
        × (out ≡ take_new sys_page_alloc j s))

module _ (sys_page_alloc : SysPageAlloc) (s : Server) where
  Busy-cons : (i j : ℕ) → 1 < count_at s i → Busy s (i + 1) j → Busy s i j
  Busy-cons i j first rest k from below = elim (Bool-cases (i == k)) [
    | inl t ↦ ap_lt ((==_iff i k).0 t) first
    | inr t ↦ rest k (ground arith) below
  ]
    where
      ap_lt : {k : ℕ} → i ≡ k → 1 < count_at s i → 1 < count_at s k
      ap_lt e h = rw e at h

  alloc_from_lem : (n i : ℕ) → AllocOutcome sys_page_alloc s n i (alloc_from sys_page_alloc n i s)
  unfolding alloc_from
  alloc_from_lem zero i = inl (λ k from below. absurd (omega arith), refl)
  alloc_from_lem (suc n) i = elim (Bool-cases (count_at s i == 0)) [
    | inl t ↦ inr (
        inr (
          i,
          omega arith,
          omega arith,
          λ k from below. absurd (omega arith),
          (==_iff _ _).0 t,
          rw t refl,
        ))
    | inr t ↦ elim (Bool-cases (count_at s i == 1)) [
      | inl u ↦ inr (
          inl (
            i,
            omega arith,
            omega arith,
            λ k from below. absurd (omega arith),
            (==_iff _ _).0 u,
            rw (t, u) refl,
          ))
      | inr u ↦
          let used : 1 < count_at s i = ground arith in
          elim (alloc_from_lem n (i + 1)) [
            | inl (busy, e) ↦ inl (
              λ k from below. Busy-cons i (i + 1 + n) used busy k from (omega arith),
              rw (t, u) e,
            )
            | inr (inl (j, from, below, busy, c, e)) ↦
                inr (inl (j, omega arith, omega arith, Busy-cons i j used busy, c, rw (t, u) e))
            | inr (inr (j, from, below, busy, c, e)) ↦
                inr (inr (j, omega arith, omega arith, Busy-cons i j used busy, c, rw (t, u) e))
          ]
    ]
  ]

-- openfile_alloc takes the first entry whose page no client has: one that is mapped here alone it
-- hands out, and for one that is not mapped it calls sys_page_alloc first. If clients have the pages
-- of all 1024 entries, it returns -E_MAX_OPEN and changes nothing.
pub openfile_alloc_lem :
    (sys_page_alloc : SysPageAlloc) (s : Server)
    → AllocOutcome sys_page_alloc s maxopen 0 (openfile_alloc sys_page_alloc s)
unfolding openfile_alloc
openfile_alloc_lem sys_page_alloc s = alloc_from_lem sys_page_alloc s maxopen 0

Rightly-once_mapped :
    (s : Server) (j : ℕ) (r : ℤ) (refs : ℕ → ℕ)
    → j < maxopen
    → IsTable s
    → Rightly s (once_mapped j r (shared s refs))
Rightly-once_mapped s j (pos n) refs less table = Rightly-hand_out s j refs less table
Rightly-once_mapped s j (negsuc n) refs less table = tt

Rightly-openfile_alloc :
    (sys_page_alloc : SysPageAlloc) (s : Server)
    → IsTable s
    → Rightly s (openfile_alloc sys_page_alloc s)
unfolding take_new
Rightly-openfile_alloc sys_page_alloc s table = elim (openfile_alloc_lem sys_page_alloc s) [
  | inl (busy, e) ↦ subst (Rightly s) (sym e) tt
  | inr (inl (j, from, below, busy, c, e)) ↦
      subst (Rightly s) (sym e) (Rightly-hand_out s j s.pageref (omega (arith, below)) table)
  | inr (inr (j, from, below, busy, c, e)) ↦
      let out = sys_page_alloc (s.opentab j).o_fd s.pageref in
      subst (Rightly s) (sym e) (Rightly-once_mapped s j out.0 out.1 (omega (arith, below)) table)
]

-- If openfile_alloc hands out the entry `i`, where the id of each entry of the table leads to it, then
-- each still does; the result is the new id; and openfile_lookup, whatever the counts of the pages
-- are by then, finds the new id if a client has its page, refuses the entry's old id, and answers for
-- the ids of the other entries as before.
pub openfile_lookup-openfile_alloc :
    (sys_page_alloc : SysPageAlloc) (s s' : Server) (r : ℤ) (i : ℕ)
    → IsTable s
    → openfile_alloc sys_page_alloc s ≡ done (r, some i) s'
    → HandsOut s s' r i
openfile_lookup-openfile_alloc sys_page_alloc s s' r i table e =
    subst (Rightly s) e (Rightly-openfile_alloc sys_page_alloc s table)

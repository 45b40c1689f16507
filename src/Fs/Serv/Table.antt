-- ===== src/Fs/Serv/Table.antt =====
-- The table of open files of lab/fs/serv.c: what openfile_alloc hands out, and what openfile_lookup
-- then finds.
use adv_os_jos.Prelude.{
  ℕ, ◌+◌, ◌%◌, ◌^◌, ◌<◌, ◌≡◌, ◌≢◌, refl, sym, ◌∙◌, ap, ap₂, subst, false, not, ◌||◌, inl, inr,
  Option, none, some, ◌==◌, ==_ne, ==_refl, ==_iff, leb, lt→leb, lt→ltb, Bool-cases, arith, update,
  ℤ, pos, neg, if◌then◌else◌,
}
use adv_os_jos.Fs.{e_inval}
use adv_os_jos.Fs.Serv.{
  Server, OpenFile, Outcome, done, panicked, maxopen, handed, hand_out, as_int, openfile_lookup,
  serve_init,
}

-- The id of each entry leads to it.
abbrev pub IsTable : Server → Type 0
IsTable s =
    (i : ℕ)
    → i < maxopen
    → ((s.opentab i).o_fileid % maxopen ≡ i) × ((s.opentab i).o_fileid < 2 ^ 32)

pub IsTable-serve_init : (s : Server) → IsTable (serve_init s)
unfolding serve_init
IsTable-serve_init s i less = rw (lt→ltb i maxopen less) (omega arith, omega arith)

-- The server, where pageref tells something else.
abbrev pub shared : Server → (ℕ → ℕ) → Server
shared s refs = record s { pageref = refs }

abbrev pub count_at : Server → ℕ → ℕ
count_at s i = s.pageref (s.opentab i).o_fd

-- the id that openfile_alloc gives to entry `i`
abbrev pub new_id : Server → ℕ → ℕ
new_id s i = ((s.opentab i).o_fileid + maxopen) % 2 ^ 32

tab-handed :
    (s : Server) (i j : ℕ)
    → (handed i s).opentab j
      ≡ (if i == j then record (s.opentab i) { o_fileid = new_id s i } else s.opentab j)
unfolding update
tab-handed s i j = refl

module _ (s : Server) (i : ℕ) (less : i < maxopen) (table : IsTable s) where
  id-handed :
      (j : ℕ)
      → ((handed i s).opentab j).o_fileid ≡ (if i == j then new_id s i else (s.opentab j).o_fileid)
  id-handed j = elim (Bool-cases (i == j)) [
    | inl t ↦ rw t (ap (λ (o : OpenFile). o.o_fileid) (rw t at (tab-handed s i j)))
    | inr t ↦ rw t (ap (λ (o : OpenFile). o.o_fileid) (rw t at (tab-handed s i j)))
  ]

  IsTable-handed : IsTable (handed i s)
  IsTable-handed j small = elim (Bool-cases (i == j)) [
    | inl t ↦
        let same : i ≡ j = (==_iff i j).0 t in
        let (here, bound) = table i less in
        let e : ((handed i s).opentab j).o_fileid ≡ new_id s i = rw t at (id-handed j) in
        rw e (omega arith, omega arith)
    | inr t ↦
        let e : ((handed i s).opentab j).o_fileid ≡ (s.opentab j).o_fileid =
          rw t at (id-handed j) in
        rw e (table j small)
  ]

fd-handed : (s : Server) (i j : ℕ) → ((handed i s).opentab j).o_fd ≡ (s.opentab j).o_fd
fd-handed s i j = elim (Bool-cases (i == j)) [
  | inl t ↦
      ap (λ (o : OpenFile). o.o_fd) (rw t at (tab-handed s i j))
      ∙ ap (λ (x : ℕ). (s.opentab x).o_fd) ((==_iff i j).0 t)
  | inr t ↦ ap (λ (o : OpenFile). o.o_fd) (rw t at (tab-handed s i j))
]

-- openfile_lookup by the page's count, and the entry's id.
abbrev verdict : (refs fileid id : ℕ) → ℤ × Option ℕ
verdict refs fileid id =
    if leb refs 1 || not (id == fileid)
    then (neg e_inval, none)
    else (pos 0, some (fileid % maxopen))

-- The entry `i` under a new id, in `s'`, and what openfile_lookup then makes of an id, with any
-- counts of the pages.
pub record HandsOut (s s' : Server) (r : ℤ) (i : ℕ) : Type 0 where
  pub inside : i < maxopen
  pub table : IsTable s'
  pub result : r ≡ as_int (new_id s i)
  pub finds :
      (refs : ℕ → ℕ)
      → 1 < count_at (shared s refs) i
      → openfile_lookup (new_id s i) (shared s' refs) ≡ (pos 0, some i)
  pub refuses_old :
      (refs : ℕ → ℕ) → openfile_lookup (s.opentab i).o_fileid (shared s' refs) ≡ (neg e_inval, none)
  pub keeps :
      (refs : ℕ → ℕ) (fileid : ℕ)
      → fileid % maxopen ≢ i
      → openfile_lookup fileid (shared s' refs) ≡ openfile_lookup fileid (shared s refs)

module _ (s : Server) (i : ℕ) (before : ℕ → ℕ) (less : i < maxopen) (table : IsTable s) where
  abbrev then_state : Server
  then_state = handed i (shared s before)

  lookup-handed :
      (refs : ℕ → ℕ) (fileid : ℕ)
      → openfile_lookup fileid (shared then_state refs)
        ≡ verdict
            (refs (s.opentab (fileid % maxopen)).o_fd)
            fileid
            (if i == fileid % maxopen then new_id s i else (s.opentab (fileid % maxopen)).o_fileid)
  unfolding openfile_lookup
  lookup-handed refs fileid =
      ap₂ (λ (fd id : ℕ). verdict (refs fd) fileid id)
        (fd-handed (shared s before) i (fileid % maxopen))
        (id-handed (shared s before) i less table (fileid % maxopen))

  HandsOut-handed : HandsOut s then_state (as_int (new_id s i)) i
  unfolding openfile_lookup
  HandsOut-handed =
      let (here, bound) = table i less in
      record {
        inside = less;
        table = IsTable-handed (shared s before) i less table;
        result = refl;
        finds = λ refs used.
            let place : new_id s i % maxopen ≡ i = omega arith in
            let busy : leb (refs (s.opentab i).o_fd) 1 ≡ false = lt→leb 1 _ used in
            lookup-handed refs (new_id s i)
            ∙ rw (place, ==_refl i, busy, ==_refl (new_id s i)) refl;
        refuses_old = λ refs.
            let changed : (new_id s i == (s.opentab i).o_fileid) ≡ false =
              ==_ne _ _ (λ e. omega (arith, e)) in
            lookup-handed refs (s.opentab i).o_fileid
            ∙ rw (here, ==_refl i, changed) (ground arith);
        keeps = λ refs fileid other.
            let apart : (i == fileid % maxopen) ≡ false = ==_ne _ _ (λ e. other (sym e)) in
            lookup-handed refs fileid ∙ rw apart refl;
      }

-- An outcome of openfile_alloc that hands out an entry hands it out rightly.
abbrev pub Rightly : (s : Server) → Outcome (ℤ × Option ℕ) → Type 0
Rightly s (done (r, some i) s') = HandsOut s s' r i
Rightly s (done (r, none) s') = Unit
Rightly s panicked = Unit

pub Rightly-hand_out :
    (s : Server) (i : ℕ) (before : ℕ → ℕ)
    → i < maxopen
    → IsTable s
    → Rightly s (hand_out i (shared s before))
Rightly-hand_out s i before less table =
    let e : ((then_state s i before less table).opentab i).o_fileid ≡ new_id s i =
      rw (==_refl i) at (id-handed (shared s before) i less table i) in
    subst (λ (x : ℕ). HandsOut s (then_state s i before less table) (as_int x) i) (sym e)
      (HandsOut-handed s i before less table)

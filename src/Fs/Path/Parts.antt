-- ===== src/Fs/Path/Parts.antt =====
-- walk_path of lab/fs/fs.c against a walk of the path's parts.
use adv_os_jos.Prelude.{
  ℕ, zero, suc, ◌≤◌, ◌≡◌, refl, sym, ◌∙◌, ap, fun_ext, false, Option, none, some, List, [], ◌∷◌,
  ◌++◌, append_assoc, append-nil, ◌==◌, length, if◌then◌else◌, pos, Bool-cases, inl, inr, arith,
}
use adv_os_jos.Fs.{Disk, ok, Cmd}
use adv_os_jos.Fs.Dir.{s_root}
use adv_os_jos.Fs.Path.{slash, skip_slash, next_name, Walk, walk_element, walk_from, walk_path}

-- a part, unless it is empty
abbrev flush_part : List ℕ → List (List ℕ) → List (List ℕ)
flush_part [] parts = parts
flush_part (c ∷ part) parts = (c ∷ part) ∷ parts

-- The bytes between slashes, where there are any; `part` has those since the last slash.
abbrev parts_after : (part : List ℕ) → List ℕ → List (List ℕ)
parts_after part [] = flush_part part []
parts_after part (c ∷ path) =
    if c == slash
    then flush_part part (parts_after [] path)
    else parts_after (part ++ (c ∷ [])) path

abbrev pub parts : List ℕ → List (List ℕ)
parts = parts_after []

-- whether parts are left, as walk_path asks of the path
abbrev pub left : List (List ℕ) → List ℕ
left [] = []
left (part ∷ ps) = slash ∷ []

-- The walk of the parts from the file `f`, in the directory `dir`.
abbrev pub walk_parts : (dir : Option ℕ) (f : ℕ) → List (List ℕ) → Cmd Walk
walk_parts dir f [] s = ok (record { result = pos 0; pf = some f; pdir = dir; lastelem = none }) s
walk_parts dir f (part ∷ ps) s = walk_element f part (left ps) (λ g. walk_parts (some f) g ps) s

parts-next_name :
    (part path : List ℕ)
    → parts_after part path ≡ flush_part (part ++ (next_name path).0) (parts (next_name path).1)
parts-next_name part [] = rw (append-nil part) refl
parts-next_name part (c ∷ path) = elim (Bool-cases (c == slash)) [
  | inl t ↦ rw (t, append-nil part) (rw t refl)
  | inr t ↦ rw t (
      parts-next_name (part ++ (c ∷ [])) path
      ∙ ap (λ (xs : List ℕ). flush_part xs (parts (next_name path).1))
          (append_assoc part (c ∷ []) (next_name path).0))
]

parts-skip_slash : (path : List ℕ) → parts (skip_slash path) ≡ parts path
parts-skip_slash [] = refl
parts-skip_slash (c ∷ path) = elim (Bool-cases (c == slash)) [
  | inl t ↦ rw t (parts-skip_slash path)
  | inr t ↦ rw t (rw t refl)
]

length-skip_slash : (path : List ℕ) → length (skip_slash path) ≤ length path
length-skip_slash [] = omega arith
length-skip_slash (c ∷ path) = elim (Bool-cases (c == slash)) [
  | inl t ↦ rw t (omega (arith, length-skip_slash path))
  | inr t ↦ rw t (omega arith)
]

length-next_name : (path : List ℕ) → length (next_name path).1 ≤ length path
length-next_name [] = omega arith
length-next_name (c ∷ path) = elim (Bool-cases (c == slash)) [
  | inl t ↦ rw t (omega arith)
  | inr t ↦ rw t (omega (arith, length-next_name path))
]

-- what skip_slash leaves does not begin with a slash
abbrev Starts : List ℕ → Type 0
Starts [] = Unit
Starts (c ∷ path) = (c == slash) ≡ false

Starts-skip_slash : (path : List ℕ) → Starts (skip_slash path)
Starts-skip_slash [] = tt
Starts-skip_slash (c ∷ path) = elim (Bool-cases (c == slash)) [
  | inl t ↦ rw t (Starts-skip_slash path)
  | inr t ↦ rw t t
]

-- The parts of a path that begins with no slash.
parts-cons :
    (c : ℕ) (path : List ℕ)
    → (c == slash) ≡ false
    → parts (c ∷ path) ≡ (c ∷ (next_name path).0) ∷ parts (skip_slash (next_name path).1)
parts-cons c path t = rw t (
    parts-next_name (c ∷ []) path
    ∙ ap (λ (ps : List (List ℕ)). (c ∷ (next_name path).0) ∷ ps)
        (sym (parts-skip_slash (next_name path).1)))

-- walk_element asks of the rest of the path only if there is any.
walk_element-left :
    (f : ℕ) (name path : List ℕ) (go : ℕ → Cmd Walk) (s : Disk)
    → Starts path
    → walk_element f name path go s ≡ walk_element f name (left (parts path)) go s
walk_element-left f name [] go s starts = refl
walk_element-left f name (c ∷ path) go s starts =
    ap (λ (ps : List (List ℕ)). walk_element f name (left ps) go s) {y = parts (c ∷ path)}
      (sym (parts-cons c path starts))

next_name-cons :
    (c : ℕ) (path : List ℕ)
    → (c == slash) ≡ false
    → next_name (c ∷ path) ≡ (c ∷ (next_name path).0, (next_name path).1)
next_name-cons c path t = rw t refl

-- A round of the loop.
walk_from-cons :
    (fuel : ℕ) (dir : Option ℕ) (f c : ℕ) (path : List ℕ) (s : Disk)
    → (c == slash) ≡ false
    → walk_from (suc fuel) dir f (c ∷ path) s
      ≡ walk_element f
          (c ∷ (next_name path).0)
          (skip_slash (next_name path).1)
          (λ g. walk_from fuel (some f) g (skip_slash (next_name path).1))
          s
unfolding walk_from
walk_from-cons fuel dir f c path s t =
    ap
      (λ (x : List ℕ × List ℕ).
        walk_element f x.0 (skip_slash x.1) (λ g. walk_from fuel (some f) g (skip_slash x.1)) s)
      (next_name-cons c path t)

walk_from-nil :
    (fuel : ℕ) (dir : Option ℕ) (f : ℕ) (s : Disk)
    → walk_from fuel dir f [] s ≡ walk_parts dir f [] s
unfolding walk_from
walk_from-nil zero dir f s = refl
walk_from-nil (suc fuel) dir f s = refl

walk_from-walk_parts :
    (fuel : ℕ) (dir : Option ℕ) (f : ℕ) (path : List ℕ) (s : Disk)
    → Starts path
    → length path ≤ fuel
    → walk_from fuel dir f path s ≡ walk_parts dir f (parts path) s
walk_from-walk_parts fuel dir f [] s starts enough = walk_from-nil fuel dir f s
walk_from-walk_parts zero dir f (c ∷ path) s starts enough = absurd (omega arith)
walk_from-walk_parts (suc fuel) dir f (c ∷ path) s starts enough =
    let name = c ∷ (next_name path).0 in
    let rest = skip_slash (next_name path).1 in
    let shorter : length rest ≤ fuel =
      omega (arith, length-skip_slash (next_name path).1, length-next_name path) in
    let go : (λ (g : ℕ). walk_from fuel (some f) g rest)
        ≡ (λ (g : ℕ). walk_parts (some f) g (parts rest)) =
      fun_ext (λ g. fun_ext (λ s'.
        walk_from-walk_parts fuel (some f) g rest s' (Starts-skip_slash (next_name path).1)
          shorter)) in
    walk_from-cons fuel dir f c path s starts
    ∙ walk_element-left f name rest (λ g. walk_from fuel (some f) g rest) s
        (Starts-skip_slash (next_name path).1)
    ∙ ap (λ (h : ℕ → Cmd Walk). walk_element f name (left (parts rest)) h s) go
    ∙ ap (λ (ps : List (List ℕ)). walk_parts dir f ps s) {x = name ∷ parts rest}
        (sym (parts-cons c path starts))

-- walk_path always comes to an end, and is the walk of the path's parts, the non-empty strings of
-- bytes between slashes, from the root: slashes at the front, at the end and in a row do not count.
pub walk_path-walk_parts :
    (path : List ℕ) (s : Disk) → walk_path path s ≡ walk_parts none s_root (parts path) s
unfolding walk_path
walk_path-walk_parts path s =
    walk_from-walk_parts (length path) none s_root (skip_slash path) s (Starts-skip_slash path)
      (length-skip_slash path)
    ∙ ap (λ (ps : List (List ℕ)). walk_parts none s_root ps s) (parts-skip_slash path)

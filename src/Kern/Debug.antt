-- ===== src/Kern/Debug.antt =====
-- The search in the symbol table of lab/kern/kdebug.c. The table is a function of the index; the right
-- end of a region in the search is the index behind it, since the C variable may be -1.
pub mod Round
pub mod Bracket
mod Tests
use mathlib.Core.Option
use adv_os_jos.Prelude.{
  ℕ, zero, suc, ◌+◌, ◌-◌, ◌/◌, ◌%◌, ◌^◌, Bool, true, false, not, ◌==◌, ltb, leb, Option, none, some,
  if◌then◌else◌, ℤ, pos, sub_ℕ,
}

-- struct Stab
pub record Stab : Type 0 where
  pub n_strx : ℕ
  pub n_type : ℕ
  pub n_other : ℕ
  pub n_desc : ℕ
  pub n_value : ℕ

-- The variables of stab_binsearch: `*region_left`, the index behind `*region_right`, `l`, the index
-- behind `r`, `any_matches` and `addr`.
pub record Search : Type 0 where
  pub left : ℕ
  pub behind : ℕ
  pub l : ℕ
  pub e : ℕ
  pub any_matches : Bool
  pub addr : ℕ

module _ (stabs : ℕ → Stab) (type : ℕ) where
  -- `stabs[m].n_type == type`
  unfoldable pub is_type : ℕ → Bool
  is_type m = (stabs m).n_type == type

  -- `while (m >= l && ...) m--`, from the index `l + n - 1`: `none` where m < l.
  unfoldable pub match_back : (n l : ℕ) → Option ℕ
  match_back zero l = none
  match_back (suc n) l =
      let earlier = match_back n l in if is_type (l + n) then some (l + n) else earlier

  -- `(l + r) / 2`
  abbrev pub true_m : Search → ℕ
  true_m s = (s.l + (s.e - 1)) / 2

  abbrev pub compare_at : Search → ℕ → Search
  compare_at s m =
      if ltb (stabs m).n_value s.addr
      then record s { left = m; l = true_m s + 1; any_matches = true }
      else if ltb s.addr (stabs m).n_value
      then record s { behind = m; e = m; any_matches = true }
      else record s { left = m; l = m; addr = (s.addr + 1) % 2 ^ 32; any_matches = true }

  abbrev pub after_match : Search → Option ℕ → Search
  after_match s none = record s { l = true_m s + 1 }
  after_match s (some m) = compare_at s m

  -- A round of the loop.
  unfoldable pub search_round : Search → Search
  unfolding match_back
  search_round s = after_match s (match_back (true_m s + 1 - s.l) s.l)

  -- The loop: `none` where the fuel is out.
  unfoldable pub search_loop : (fuel : ℕ) → Search → Option Search
  unfolding search_round
  search_loop zero s = none
  search_loop (suc fuel) s = elim (ltb s.l s.e) [
    | true ↦ search_loop fuel (search_round s)
    | false ↦ some s
  ]

  -- The last loop, from the index `left + n`.
  unfoldable pub last_back : (n left : ℕ) → ℕ
  last_back zero left = left
  last_back (suc n) left =
      let earlier = last_back n left in if is_type (left + suc n) then left + suc n else earlier

  -- What is stored in the end in `*region_left` and `*region_right`.
  abbrev pub store_region : Search → ℤ × ℤ
  store_region s =
      if not s.any_matches
      then (pos s.left, sub_ℕ s.left 1)
      else if leb s.behind s.left
      then (sub_ℕ s.behind 1, sub_ℕ s.behind 1)
      else (pos (last_back (s.behind - 1 - s.left) s.left), sub_ℕ s.behind 1)

  -- stab_binsearch, from `*region_left` and the index behind `*region_right`.
  unfoldable pub stab_binsearch : (fuel left behind addr : ℕ) → Option (ℤ × ℤ)
  unfolding search_loop last_back
  stab_binsearch fuel left behind addr = Option.map store_region (
      search_loop fuel (record {
        left = left;
        behind = behind;
        l = left;
        e = behind;
        any_matches = false;
        addr = addr;
      }))

-- ===== src/Clib/Str/Copy.antt =====
-- strlcpy of lab/lib/string.c: what they write, and where.
use adv_os_jos.Prelude.{
  ℕ, zero, suc, ◌+◌, ◌<◌, ◌≤◌, ◌≡◌, refl, sym, ◌∙◌, subst, false, ◌⊎◌, inl, List, [], ◌∷◌, ◌==◌,
  ==_ne, arith, length, update, update_self, update_ne, min, take,
}
use adv_os_jos.Clib.Str.{Bytes, strlcpy, strlcpy_loop}
use adv_os_jos.Clib.Str.Scan.{IsString}

-- A string is where it was, if the bytes that change are not its own.
IsString-same :
    (m m' : Bytes) (s : ℕ) (xs : List ℕ)
    → ((a : ℕ) → s ≤ a → a ≤ s + length xs → m' a ≡ m a)
    → IsString m s xs
    → IsString m' s xs
IsString-same m m' s [] same h = same s (omega arith) (omega arith) ∙ h
IsString-same m m' s (x ∷ xs) same (ne, e, h) = (
  ne,
  same s (omega arith) (omega arith) ∙ e,
  IsString-same m m' (s + 1) xs (λ a lo hi. same a (omega arith) (omega arith)) h,
)

-- `xs`, cut to `room` bytes, is the string at `d`, whose end is `end`, and no byte outside of the
-- `room + 1` at `d` has changed.
abbrev pub Copied : (m : Bytes) (d room : ℕ) (xs : List ℕ) → Bytes × ℕ → Type 0
Copied m d room xs (m', end) =
    IsString m' d (take room xs)
    × (end ≡ d + min room (length xs))
    × ((a : ℕ) → (a < d) ⊎ (d + room < a) → m' a ≡ m a)

strlcpy_loop_lem :
    (m : Bytes) (d s room : ℕ) (xs : List ℕ)
    → IsString m s xs
    → (d + room < s) ⊎ (s + length xs < d)
    → Copied m d room xs (strlcpy_loop m d s room)
unfolding strlcpy_loop
strlcpy_loop_lem m d s zero xs h apart =
    (update_self m d 0, omega arith, λ a far. update_ne m d 0 a (ground arith))
strlcpy_loop_lem m d s (suc room) [] h apart =
    rw h (update_self m d 0, omega arith, λ a far. update_ne m d 0 a (ground arith))
strlcpy_loop_lem m d s (suc room) (x ∷ xs) (ne, e, h) apart =
    let m1 = update m d (m s) in
    let still : IsString m1 (s + 1) xs =
      IsString-same m m1 (s + 1) xs (λ a lo hi. update_ne m d (m s) a (ground arith)) h in
    let (copied, end, kept) = strlcpy_loop_lem m1 (d + 1) (s + 1) room xs still (ground arith) in
    let test : (m s == 0) ≡ false = rw e (==_ne x 0 ne) in
    let step : strlcpy_loop m d s (suc room) ≡ strlcpy_loop m1 (d + 1) (s + 1) room =
      rw test refl in
    subst (Copied m d (suc room) (x ∷ xs)) (sym step) (
      (ne, kept d (inl (omega arith)) ∙ update_self m d (m s) ∙ e, copied),
      end ∙ omega arith,
      λ a far. kept a (ground arith) ∙ update_ne m d (m s) a (ground arith),
    )

-- strlcpy of a string into a buffer of `room + 1` bytes apart from it: the buffer has the string,
-- cut to `room` bytes and ended by NUL; the result is the number of bytes before the NUL; no byte
-- outside the buffer changes.
pub strlcpy_lem :
    (m : Bytes) (dst src room : ℕ) (xs : List ℕ)
    → IsString m src xs
    → (dst + room < src) ⊎ (src + length xs < dst)
    → let r = strlcpy m dst src (suc room) in
      IsString r.0 dst (take room xs)
      × (r.1 ≡ min room (length xs))
      × ((a : ℕ) → (a < dst) ⊎ (dst + room < a) → r.0 a ≡ m a)
unfolding strlcpy
strlcpy_lem m dst src room xs h apart =
    let (copied, end, kept) = strlcpy_loop_lem m dst src room xs h apart in
    (copied, omega (arith, end), kept)

-- ===== src/Clib/Str.antt =====
-- The string functions of lab/lib/string.c. A pointer is an address of a memory of bytes; the
-- loops over a string have fuel, and give `none` without it.
pub mod Copy
pub mod Scan
use adv_os_jos.Prelude.{
  ℕ, zero, suc, ◌+◌, ◌-◌, Bool, true, false, not, ◌&&◌, ◌||◌, Option, none, some, ◌==◌, ltb, update,
  if◌then◌else◌, ℤ, pos, sub_ℕ,
}

-- the memory, a byte at each address
abbrev pub Bytes : Type 0
Bytes = ℕ → ℕ

-- `for (n = 0; *s != '\0'; s++) n++;`
unfoldable pub strlen_from : (fuel : ℕ) → Bytes → (s n : ℕ) → Option ℕ
strlen_from zero m s n = none
strlen_from (suc fuel) m s n =
    let rest = strlen_from fuel m (s + 1) (n + 1) in if m s == 0 then some n else rest

abbrev pub strlen : (fuel : ℕ) → Bytes → (s : ℕ) → Option ℕ
strlen fuel m s = strlen_from fuel m s 0

-- `for (n = 0; size > 0 && *s != '\0'; s++, size--) n++;`
unfoldable pub strnlen_from : Bytes → (s size n : ℕ) → ℕ
strnlen_from m s zero n = n
strnlen_from m s (suc size) n =
    let rest = strnlen_from m (s + 1) size (n + 1) in if m s == 0 then n else rest

abbrev pub strnlen : Bytes → (s size : ℕ) → ℕ
strnlen m s size = strnlen_from m s size 0

-- The result is the memory; the pointer returned is `dst`.
unfoldable pub strcpy : (fuel : ℕ) → Bytes → (dst src : ℕ) → Option Bytes
strcpy zero m dst src = none
strcpy (suc fuel) m dst src =
    let m' = update m dst (m src) in
    let rest = strcpy fuel m' (dst + 1) (src + 1) in if m src == 0 then some m' else rest

unfoldable pub strcat : (fuel : ℕ) → Bytes → (dst src : ℕ) → Option Bytes
strcat fuel m dst src = elim (strlen fuel m dst) [
  | none ↦ none
  | some n ↦ strcpy fuel m (dst + n) src
]

-- The `for` over `size` bytes.
unfoldable pub strncpy : Bytes → (dst src size : ℕ) → Bytes
strncpy m dst src zero = m
strncpy m dst src (suc size) =
    let m' = update m dst (m src) in
    strncpy m' (dst + 1) (if m' src == 0 then src else src + 1) size

-- `while (--size > 0 && *src != '\0') *dst++ = *src++;` with `room` = size - 1 rounds at most, and the
-- NUL behind. The result is the memory and the final `dst`.
strlcpy_loop : Bytes → (dst src room : ℕ) → Bytes × ℕ
strlcpy_loop m dst src zero = (update m dst 0, dst)
strlcpy_loop m dst src (suc room) =
    let rest = strlcpy_loop (update m dst (m src)) (dst + 1) (src + 1) room in
    if m src == 0 then (update m dst 0, dst) else rest

unfoldable pub strlcpy : Bytes → (dst src size : ℕ) → Bytes × ℕ
unfolding strlcpy_loop
strlcpy m dst src zero = (m, 0)
strlcpy m dst src (suc room) = let (m', end) = strlcpy_loop m dst src room in (m', end - dst)

-- The difference of the first bytes that differ or end a string, as unsigned char.
unfoldable pub strcmp : (fuel : ℕ) → Bytes → (p q : ℕ) → Option ℤ
strcmp zero m p q = none
strcmp (suc fuel) m p q =
    let rest = strcmp fuel m (p + 1) (q + 1) in
    if not (m p == 0) && (m p == m q) then rest else some (sub_ℕ (m p) (m q))

unfoldable pub strncmp : Bytes → (p q n : ℕ) → ℤ
strncmp m p q zero = pos 0
strncmp m p q (suc n) =
    let rest = strncmp m (p + 1) (q + 1) n in
    if not (m p == 0) && (m p == m q) then rest else sub_ℕ (m p) (m q)

-- `some none` is NULL.
unfoldable pub strchr : (fuel : ℕ) → Bytes → (s c : ℕ) → Option (Option ℕ)
strchr zero m s c = none
strchr (suc fuel) m s c =
    let rest = strchr fuel m (s + 1) c in
    if m s == 0 then some none else if m s == c then some (some s) else rest

unfoldable pub strfind : (fuel : ℕ) → Bytes → (s c : ℕ) → Option ℕ
strfind zero m s c = none
strfind (suc fuel) m s c =
    let rest = strfind fuel m (s + 1) c in
    if m s == 0 then some s else if m s == c then some s else rest

unfoldable pub memcmp : Bytes → (s1 s2 n : ℕ) → ℤ
memcmp m s1 s2 zero = pos 0
memcmp m s1 s2 (suc n) =
    let rest = memcmp m (s1 + 1) (s2 + 1) n in
    if not (m s1 == m s2) then sub_ℕ (m s1) (m s2) else rest

unfoldable pub memfind : Bytes → (s c n : ℕ) → ℕ
memfind m s c zero = s
memfind m s c (suc n) = let rest = memfind m (s + 1) c n in if m s == c then s else rest

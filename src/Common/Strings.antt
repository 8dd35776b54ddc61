-- ===== src/Common/Strings.antt =====
-- Python's operations on `str` that the program uses, over the native texts.
use Prim.Native.Nat.{ℕ, zero, suc, ◌+◌, ◌/◌, ◌%◌}
use Prim.Native.Char.{Char, code}
use Prim.Native.String.{String}
use mathlib.Core.Bool.{Bool, true, false, ◌&&◌, ◌||◌}
use mathlib.Core.Path.{◌≡◌, refl}
use native.Mathlib.Omega.{arith}
use afk_composable_pipeline.Common.Tests.{leb, ◌==◌, if◌then◌else◌}

-- `s + t`
unfoldable pub cat : String → String → String
cat String.[] t = t
cat (String.◌∷◌ c s) t = String.◌∷◌ c (cat s t)

-- `len(s)`
unfoldable pub characters : String → ℕ
characters String.[] = 0
characters (String.◌∷◌ c s) = suc (characters s)

-- `s[:n]`
unfoldable pub prefix : ℕ → String → String
prefix zero s = ""
prefix (suc n) String.[] = ""
prefix (suc n) (String.◌∷◌ c s) = String.◌∷◌ c (prefix n s)

-- `all(p(c) for c in s)`
unfoldable pub all_chars : (ℕ → Bool) → String → Bool
all_chars p String.[] = true
all_chars p (String.◌∷◌ c s) = p (code c) && all_chars p s

abbrev pub is_empty : String → Bool
is_empty String.[] = true
is_empty (String.◌∷◌ c s) = false

abbrev pub between : ℕ → ℕ → ℕ → Bool
between lo hi c = leb lo c && leb c hi

-- The code points that `str.strip` removes.
unfoldable pub is_space : ℕ → Bool
is_space c =
    between 9 13 c
    || between 28 32 c
    || c == 133
    || c == 160
    || c == 5760
    || between 8192 8202 c
    || c == 8232
    || c == 8233
    || c == 8239
    || c == 8287
    || c == 12288

unfoldable pub lstrip : String → String
lstrip String.[] = ""
lstrip (String.◌∷◌ c s) = let rest = lstrip s in if is_space (code c) then rest else String.◌∷◌ c s

unfoldable pub rstrip : String → String
rstrip String.[] = ""
rstrip (String.◌∷◌ c s) =
    let rest = rstrip s in if is_space (code c) && is_empty rest then "" else String.◌∷◌ c rest

-- `s.strip()`
unfoldable pub strip : String → String
unfolding lstrip rstrip is_space
strip s = rstrip (lstrip s)

-- `not s.strip()`
unfoldable pub is_blank : String → Bool
unfolding strip
is_blank s = is_empty (strip s)

-- The character of a decimal digit.
unfoldable pub digit : ℕ → Char
digit d =
    if d == 0
    then "0"
    else if d == 1
    then "1"
    else if d == 2
    then "2"
    else if d == 3
    then "3"
    else if d == 4
    then "4"
    else if d == 5
    then "5"
    else if d == 6
    then "6"
    else if d == 7
    then "7"
    else if d == 8
    then "8"
    else "9"

unfoldable pub decimal_onto : ℕ → ℕ → String → String
unfolding digit
decimal_onto zero n acc = acc
decimal_onto (suc fuel) n acc =
    let here = String.◌∷◌ (digit (n % 10)) acc in
    let rest = decimal_onto fuel (n / 10) here in if n / 10 == 0 then here else rest

-- `str(n)`; a number has no more digits than its value plus one, which is the fuel.
unfoldable pub decimal : ℕ → String
unfolding decimal_onto
decimal n = decimal_onto (suc n) n ""

pub characters-cat : (s t : String) → characters (cat s t) ≡ characters s + characters t
unfolding characters cat
characters-cat String.[] t = omega arith
characters-cat (String.◌∷◌ c s) t = omega (arith, characters-cat s t)

pub all_chars-cat :
    (p : ℕ → Bool) (s t : String) → all_chars p (cat s t) ≡ (all_chars p s && all_chars p t)
unfolding all_chars cat
all_chars-cat p String.[] t = refl
all_chars-cat p (String.◌∷◌ c s) t = ground (arith, all_chars-cat p s t)

strip_runs : strip " \tkept  note\n" ≡ "kept  note"
unfolding strip
strip_runs = refl

decimal_runs : decimal 1207 ≡ "1207"
unfolding decimal
decimal_runs = refl

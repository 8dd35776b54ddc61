-- ===== src/Common/Blank.antt =====
-- Blank texts, the beginning and the end of a text.
use Prim.Native.Nat.{ℕ, zero, suc, ◌≤◌}
use Prim.Native.String.{String}
use mathlib.Core.Bool.{Bool, true, false, ◌||◌}
use mathlib.Core.Path.{◌≡◌, refl, ◌∙◌}
use native.Mathlib.Omega.{arith}
use text.Mathlib.TextPositions.{eq_refl}
use afk_composable_pipeline.Common.Tests.{str_eq}
use afk_composable_pipeline.Common.Strings.{
  cat, characters, prefix, all_chars, is_empty, is_space, lstrip, rstrip, is_blank, all_chars-cat,
}

is_empty-rstrip : (s : String) → is_empty (rstrip s) ≡ all_chars is_space s
unfolding rstrip all_chars
is_empty-rstrip String.[] = refl
is_empty-rstrip (String.◌∷◌ c s) = ground (arith, is_empty-rstrip s)

all_chars-lstrip : (s : String) → all_chars is_space (lstrip s) ≡ all_chars is_space s
unfolding lstrip all_chars
all_chars-lstrip String.[] = refl
all_chars-lstrip (String.◌∷◌ c s) = ground (arith, all_chars-lstrip s)

-- A text is blank where all its characters are spaces.
pub is_blank_lem : (s : String) → is_blank s ≡ all_chars is_space s
unfolding is_blank
is_blank_lem s = is_empty-rstrip (lstrip s) ∙ all_chars-lstrip s

pub is_blank-cat : (s t : String) → is_blank t ≡ false → is_blank (cat s t) ≡ false
is_blank-cat s t h =
    ground (arith, is_blank_lem t, is_blank_lem (cat s t), all_chars-cat is_space s t)

pub characters-prefix : (n : ℕ) (s : String) → n ≤ characters s → characters (prefix n s) ≡ n
unfolding characters prefix
characters-prefix zero s h = refl
characters-prefix (suc n) String.[] h = omega arith
characters-prefix (suc n) (String.◌∷◌ c s) h = ground (arith, characters-prefix n s)

-- `s.endswith(t)`
unfoldable pub ends_with : String → String → Bool
ends_with String.[] t = is_empty t
ends_with (String.◌∷◌ c s) t = str_eq (String.◌∷◌ c s) t || ends_with s t

ends_with_self : (t : String) → ends_with t t ≡ true
unfolding ends_with
ends_with_self String.[] = refl
ends_with_self (String.◌∷◌ c s) = ground (arith, eq_refl (String.◌∷◌ c s))

pub ends_with-cat : (s t : String) → ends_with (cat s t) t ≡ true
unfolding ends_with cat
ends_with-cat String.[] t = ends_with_self t
ends_with-cat (String.◌∷◌ c s) t = ground (arith, ends_with-cat s t)

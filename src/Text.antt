-- ===== src/Text.antt =====
-- The texts that the records are checked by: durable ids (src/afk/durable_id.py), Git SHAs and
-- digests. Each regular expression is read with `fullmatch`.
pub mod FilePath
use afk_composable_pipeline.Common.{
  ℕ, code, String, ◌≡◌, refl, Bool, true, false, ◌&&◌, ◌||◌, leb, ◌==◌, between, characters,
  all_chars,
}

-- `[A-Za-z0-9]`
unfoldable pub is_alnum : ℕ → Bool
is_alnum c = between b'A' b'Z' c || between b'a' b'z' c || between b'0' b'9' c

-- `[A-Za-z0-9._-]`
unfoldable pub is_id_char : ℕ → Bool
unfolding is_alnum
is_id_char c = is_alnum c || c == b'.' || c == b'_' || c == b'-'

-- `^[A-Za-z0-9][A-Za-z0-9._-]{0,127}$`
unfoldable pub is_durable_id : String → Bool
unfolding is_alnum is_id_char all_chars characters
is_durable_id String.[] = false
is_durable_id (String.◌∷◌ c s) =
    is_alnum (code c) && all_chars is_id_char s && leb (characters s) 127

-- `[0-9a-f]`
unfoldable pub is_hex : ℕ → Bool
is_hex c = between b'0' b'9' c || between b'a' b'f' c

-- `^[0-9a-f]{40}$`
unfoldable pub is_sha : String → Bool
unfolding is_hex all_chars characters
is_sha s = all_chars is_hex s && characters s == 40

-- `^[0-9a-f]{64}$`
unfoldable pub is_sha256 : String → Bool
unfolding is_hex all_chars characters
is_sha256 s = all_chars is_hex s && characters s == 64

is_durable_id_runs : is_durable_id "validation-0a1b2c-7" ≡ true
unfolding is_durable_id
is_durable_id_runs = refl

is_durable_id_refuses : is_durable_id "../etc" ≡ false
unfolding is_durable_id
is_durable_id_refuses = refl

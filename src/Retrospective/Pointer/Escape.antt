-- ===== src/Retrospective/Pointer/Escape.antt =====
-- A JSON pointer of escaped tokens, in src/afk/retrospective_result.py.
use afk_composable_pipeline.Common.{
  String, List, [], ◌∷◌, Option, some, Bool, true, false, not, ◌==◌, ltb, code, characters,
  all_chars, if◌then◌else◌, ◌≡◌, refl, ap, ◌∙◌, arith, cat, ◌≤◌, map, Char, Bool-cases, ◌⊎◌, inl,
  inr,
}
use afk_composable_pipeline.Text.FilePath.{split_slash, join_slash}
use text.Mathlib.TextEquality.{codes_equal}
use mathlib.Core.Path.{fun_ext}
use afk_composable_pipeline.Json.{Json}
use afk_composable_pipeline.Retrospective.Inventory.{text_limit}
use afk_composable_pipeline.Retrospective.Pointer.{
  cons_some, pointer_token, child, then_at, resolve_tokens, resolve_pointer,
}

-- "~" is written "~0", and "/" is written "~1".
unfoldable pub escape : String → String
escape String.[] = ""
escape (String.◌∷◌ c s) =
    let rest = escape s in
    if code c == b'~'
    then String.◌∷◌ "~" (String.◌∷◌ "0" rest)
    else if code c == b'/'
    then String.◌∷◌ "~" (String.◌∷◌ "1" rest)
    else String.◌∷◌ c rest

-- The value that a path of keys and indices leads to.
unfoldable pub value_at : Json → List String → Option Json
value_at document [] = some document
value_at document (token ∷ rest) = then_at (child document token) (λ v. value_at v rest)

plain_char :
    (c : Char) (s : String)
    → (code c == b'~') ≡ false
    → pointer_token (String.◌∷◌ c s) ≡ cons_some c (pointer_token s)
unfolding pointer_token
plain_char c String.[] h = rw h refl
plain_char c (String.◌∷◌ d s) h = rw h refl

tilde_char :
    (s : String)
    → pointer_token (String.◌∷◌ "~" (String.◌∷◌ "0" s)) ≡ cons_some "~" (pointer_token s)
unfolding pointer_token
tilde_char s = refl

slash_char :
    (s : String)
    → pointer_token (String.◌∷◌ "~" (String.◌∷◌ "1" s)) ≡ cons_some "/" (pointer_token s)
unfolding pointer_token
slash_char s = refl

same_char : (c d : Char) → (code c == code d) ≡ true → c ≡ d
same_char c d h = codes_equal c d (ground arith)

pointer_token-escape : (s : String) → pointer_token (escape s) ≡ some s
unfolding escape
pointer_token-escape String.[] = unfold pointer_token in refl
pointer_token-escape (String.◌∷◌ c s) =
    go (pointer_token-escape s) (Bool-cases (code c == b'~')) (Bool-cases (code c == b'/'))
  where
    go :
        pointer_token (escape s) ≡ some s
        → ((code c == b'~') ≡ true) ⊎ ((code c == b'~') ≡ false)
        → ((code c == b'/') ≡ true) ⊎ ((code c == b'/') ≡ false)
        → pointer_token (escape (String.◌∷◌ c s)) ≡ some (String.◌∷◌ c s)
    go ih (inl tilde) other = rw tilde (rw (tilde_char (escape s), ih, same_char c "~" tilde) refl)
    go ih (inr plain) (inl slash) =
        rw (plain, slash) (rw (slash_char (escape s), ih, same_char c "/" slash) refl)
    go ih (inr plain) (inr other) = rw (plain, other) (rw (plain_char c (escape s) plain, ih) refl)

abbrev no_slash : String → Bool
no_slash s = all_chars (λ c. not (c == b'/')) s

escape-no_slash : (s : String) → no_slash (escape s) ≡ true
unfolding escape all_chars
escape-no_slash String.[] = refl
escape-no_slash (String.◌∷◌ c s) = ground (arith, escape-no_slash s)

split_one : (e : String) → no_slash e ≡ true → split_slash e ≡ e ∷ []
unfolding split_slash all_chars cat
split_one String.[] h = refl
split_one (String.◌∷◌ c s) h = ground (arith, split_one s)

split_first :
    (e rest : String)
    → no_slash e ≡ true
    → split_slash (cat e (cat "/" rest)) ≡ e ∷ split_slash rest
unfolding split_slash all_chars cat
split_first String.[] rest h = refl
split_first (String.◌∷◌ c s) rest h = ground (arith, split_first s rest)

split-join_slash :
    (t : String) (ts : List String)
    → split_slash (join_slash (map escape (t ∷ ts))) ≡ map escape (t ∷ ts)
unfolding join_slash
split-join_slash t [] = split_one (escape t) (escape-no_slash t)
split-join_slash t (u ∷ ts) =
    split_first (escape t) (join_slash (map escape (u ∷ ts))) (escape-no_slash t)
    ∙ ap (λ l. escape t ∷ l) (split-join_slash u ts)

resolve_tokens-escape :
    (document : Json) (ts : List String)
    → resolve_tokens document (map escape ts) ≡ value_at document ts
unfolding resolve_tokens value_at
resolve_tokens-escape document [] = refl
resolve_tokens-escape document (t ∷ ts) =
    rw (pointer_token-escape t)
      (ap (then_at (child document t)) (fun_ext (λ v. resolve_tokens-escape v ts)))

-- The pointer of a path with at least one token.
abbrev pub pointer_of : String → List String → String
pointer_of t ts = cat "/" (join_slash (map escape (t ∷ ts)))

-- The JSON pointer of a path with at least one token, each token escaped, resolves to the value
-- that the path leads to, or to none where it leads to none, if the pointer is within its length.
pub resolve_pointer-pointer_of :
    (document : Json) (t : String) (ts : List String)
    → characters (pointer_of t ts) ≤ text_limit
    → resolve_pointer document (pointer_of t ts) ≡ value_at document (t ∷ ts)
unfolding resolve_pointer
resolve_pointer-pointer_of document t ts short =
    let fits : ltb text_limit (characters (pointer_of t ts)) ≡ false = ground arith in
    rw fits (unfold cat in rw (split-join_slash t ts) (resolve_tokens-escape document (t ∷ ts)))

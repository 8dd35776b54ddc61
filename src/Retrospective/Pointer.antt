-- ===== src/Retrospective/Pointer.antt =====
-- JSON pointers in src/afk/retrospective_result.py: `_pointer_token` and `_resolve_pointer`. A
-- pointer that raises KeyError or ValueError resolves to nothing: the callers take both alike.
pub mod Escape
use afk_composable_pipeline.Common.{
  ℕ, zero, suc, ◌+◌, ◌*◌, ◌-◌, String, List, [], ◌∷◌, Option, none, some, Bool, true, false, not,
  ◌&&◌, ◌||◌, ◌==◌, leb, ltb, code, between, characters, all_chars, is_empty, if◌then◌else◌, ◌≡◌,
  refl, Char,
}
use afk_composable_pipeline.Text.FilePath.{split_slash}
use afk_composable_pipeline.Json.{
  Json, Items, Fields, null, bool, int, str, arr, obj, nil, cons, end, field, lookup, nat,
}
use afk_composable_pipeline.Retrospective.Inventory.{text_limit}

abbrev pub cons_some : Char → Option String → Option String
cons_some c none = none
cons_some c (some s) = some (String.◌∷◌ c s)

-- What follows the "~" of an escape.
abbrev pub unescape : ℕ → Option String → Option String
unescape d rest =
    if d == b'0' then cons_some "~" rest else if d == b'1' then cons_some "/" rest else none

-- `_pointer_token`
unfoldable pub pointer_token : String → Option String
pointer_token String.[] = some ""
pointer_token (String.◌∷◌ c String.[]) = if code c == b'~' then none else some (String.◌∷◌ c "")
pointer_token (String.◌∷◌ c (String.◌∷◌ d s)) =
    let escaped = unescape (code d) (pointer_token s) in
    let plain = cons_some c (pointer_token (String.◌∷◌ d s)) in
    if code c == b'~' then escaped else plain

abbrev pub is_digit : ℕ → Bool
is_digit c = between b'0' b'9' c

abbrev starts_with_zero : String → Bool
starts_with_zero String.[] = false
starts_with_zero (String.◌∷◌ c s) = code c == b'0'

-- The number of a text of digits, behind the digits read before.
unfoldable pub number_from : ℕ → String → ℕ
number_from n String.[] = n
number_from n (String.◌∷◌ c s) = number_from (n * 10 + (code c - b'0')) s

-- An index of a list, written without a sign or a leading zero.
unfoldable pub is_index : String → Bool
is_index token =
    not (is_empty token)
    && all_chars is_digit token
    && not (ltb 1 (characters token) && starts_with_zero token)

unfoldable pub item_at : Items → ℕ → Option Json
item_at nil n = none
item_at (cons x xs) zero = some x
item_at (cons x xs) (suc n) = item_at xs n

-- One round of the loop over the tokens.
unfoldable pub child : Json → String → Option Json
child (obj fs) token = lookup token fs
child (arr xs) token = if is_index token then item_at xs (number_from 0 token) else none
child _ token = none

abbrev pub then_at {ℓ κ} : {A : Type ℓ} {B : Type κ} → Option A → (A → Option B) → Option B
then_at none next = none
then_at (some a) next = next a

unfoldable pub resolve_tokens : Json → List String → Option Json
resolve_tokens document [] = some document
resolve_tokens document (encoded ∷ rest) =
    then_at (pointer_token encoded)
      (λ token. then_at (child document token) (λ v. resolve_tokens v rest))

abbrev pub after_slash : Json → String → Option Json
after_slash document String.[] = some document
after_slash document (String.◌∷◌ c s) =
    if code c == b'/' then resolve_tokens document (split_slash s) else none

-- `_resolve_pointer`
unfoldable pub resolve_pointer : Json → String → Option Json
resolve_pointer document pointer =
    if ltb text_limit (characters pointer) then none else after_slash document pointer

resolve_runs :
    resolve_pointer (obj (field "a/b" (arr (cons null (cons (nat 7) nil))) end)) "/a~1b/1"
    ≡ some (nat 7)
unfolding resolve_pointer characters resolve_tokens split_slash pointer_token
    afk_composable_pipeline.Common.cat child lookup is_index all_chars item_at number_from
resolve_runs = refl

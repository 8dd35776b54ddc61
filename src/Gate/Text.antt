-- ===== src/Gate/Text.antt =====
-- `_identifier` of src/afk/candidate_gate.py.
use afk_composable_pipeline.Common.{
  ℕ, String, Bool, true, false, ◌||◌, ◌==◌, code, between, is_empty, if◌then◌else◌, ◌≡◌, refl,
}
use afk_composable_pipeline.Json.{Json}

-- `str.lower`, and `str` of a value
pub record PythonText : Type 0 where
  pub lower : String → String
  pub to_text : Json → String

abbrev pub is_slug : ℕ → Bool
is_slug c = between b'a' b'z' c || between b'0' b'9' c

-- `re.sub(r"[^a-z0-9]+", "-", s)`; the flag says that the text before is replaced already.
unfoldable pub collapse : Bool → String → String
collapse replaced String.[] = ""
collapse replaced (String.◌∷◌ c s) =
    let kept = String.◌∷◌ c (collapse false s) in
    let rest = collapse true s in
    if is_slug (code c) then kept else if replaced then rest else String.◌∷◌ "-" rest

unfoldable pub lstrip_dash : String → String
lstrip_dash String.[] = ""
lstrip_dash (String.◌∷◌ c s) =
    let rest = lstrip_dash s in if code c == b'-' then rest else String.◌∷◌ c s

unfoldable pub rstrip_dash : String → String
rstrip_dash String.[] = ""
rstrip_dash (String.◌∷◌ c s) =
    let rest = rstrip_dash s in
    elim (code c == b'-') [
      | true ↦ if is_empty rest then "" else String.◌∷◌ c rest
      | false ↦ String.◌∷◌ c rest
    ]

abbrev pub or_check : String → String
or_check s = if is_empty s then "check" else s

-- `_identifier`
unfoldable pub identifier : PythonText → String → String
identifier python value = or_check (rstrip_dash (lstrip_dash (collapse false (python.lower value))))

as_it_is : PythonText
as_it_is = record { lower = λ s. s; to_text = λ v. "" }

identifier_runs : identifier as_it_is "unit tests / linux!" ≡ "unit-tests-linux"
unfolding identifier as_it_is collapse lstrip_dash rstrip_dash
identifier_runs = refl

identifier_empty : identifier as_it_is "--" ≡ "check"
unfolding identifier as_it_is collapse lstrip_dash rstrip_dash
identifier_empty = refl

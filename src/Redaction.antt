-- ===== src/Redaction.antt =====
-- The walk of src/afk/redaction.py over a value. What its regular expressions answer about one text
-- (`redact_text`, `is_secret_key`, `is_secret_command_flag`) is a parameter: Python's `re` does it.

pub mod Walk
use afk_composable_pipeline.Common.{
  ℕ, String, Option, none, some, Bool, true, false, not, ◌&&◌, ◌||◌, str_eq, if◌then◌else◌, code,
  ◌==◌, cat,
}
use afk_composable_pipeline.Json.{
  Json, Items, Fields, null, bool, int, str, arr, obj, nil, cons, end, field,
}

pub record TextRules : Type 0 where
  pub redact_text : String → String
  pub is_secret_key : String → Bool
  pub is_secret_flag : String → Bool

abbrev pub marker : String
marker = "[REDACTED]"

-- `"=" in item`
unfoldable pub has_equals : String → Bool
has_equals String.[] = false
has_equals (String.◌∷◌ c s) = code c == b'=' || has_equals s

-- `item.split("=", 1)[0]`
unfoldable pub before_equals : String → String
before_equals String.[] = ""
before_equals (String.◌∷◌ c s) =
    let rest = before_equals s in if code c == b'=' then "" else String.◌∷◌ c rest

abbrev pub is_command : Option String → Bool
is_command none = false
is_command (some k) = str_eq k "command"

module _ (rules : TextRules) where
  open rules use {redact_text, is_secret_key, is_secret_flag}

  abbrev pub secret : Option String → Bool
  secret none = false
  secret (some k) = is_secret_key k

  -- One text of a command line, where the text before it was no bare secret flag.
  unfoldable pub redact_argument : String → String
  unfolding has_equals before_equals
  redact_argument s =
      if is_secret_flag s
      then (if has_equals s then cat (before_equals s) "=[REDACTED]" else s)
      else redact_text s

  -- Whether the text after `s` is the secret that the flag `s` announces.
  unfoldable pub announces : String → Bool
  unfolding has_equals
  announces s = is_secret_flag s && not (has_equals s)

  unfoldable mutual
    unfolding redact_argument announces

    -- `redact_artifact_value_for_key`; `redact_artifact_value` is the case of no key.
    pub redact : Option String → Json → Json
    redact key null = if secret key then str marker else null
    redact key (bool b) = if secret key then str marker else bool b
    redact key (int z) = if secret key then str marker else int z
    redact key (str s) = if secret key then str marker else str (redact_text s)
    redact key (arr xs) =
        let arguments = redact_command false xs in
        let items = redact_items key xs in
        let kept = arr (if is_command key then arguments else items) in
        if secret key then str marker else kept
    redact key (obj fs) =
        let kept = obj (redact_fields fs) in if secret key then str marker else kept

    pub redact_items : Option String → Items → Items
    redact_items key nil = nil
    redact_items key (cons x xs) = cons (redact key x) (redact_items key xs)

    pub redact_fields : Fields → Fields
    redact_fields end = end
    redact_fields (field k v fs) = field k (redact (some k) v) (redact_fields fs)

    -- The loop of `redact_command_list`, with `redact_next`.
    pub redact_command : Bool → Items → Items
    redact_command next nil = nil
    redact_command next (cons (str s) xs) =
        cons (str (if next then marker else redact_argument s))
          (redact_command (not next && announces s) xs)
    redact_command next (cons x xs) = cons (redact none x) (redact_command false xs)

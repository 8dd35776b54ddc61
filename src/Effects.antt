-- ===== src/Effects.antt =====
-- The durable effects of src/afk/run_store.py: `prepare_effect`, `effect` and `confirm_effect`. Each
-- runs under the lock of the store, so that it is a function of the effect's file. A status that is
-- a list or a dict is invalid here; Python's `in` raises for it.
pub mod Stable
use afk_composable_pipeline.Common.{
  String, List, [], ◌∷◌, ◌++◌, Option, none, some, Bool, true, false, not, ◌&&◌, ◌||◌, cat,
  if◌then◌else◌,
}
use afk_composable_pipeline.Text.{is_durable_id}
use afk_composable_pipeline.Json.{
  Json, Fields, obj, str, nat, pos, get, eq, fields, merge, dict, keys_are, is_dict, str_and,
  int_and, int_eq, one_of,
}
use afk_composable_pipeline.Redaction.{TextRules, redact}
use afk_composable_pipeline.Errors.{Result, ok, err, Failure, store_error, ◌>>=◌, ◌>>◌, guard}
use afk_composable_pipeline.History.Record.{not_blank}

-- `effects/<effect_id>.json`: no file, one that is no JSON text, or the value it holds.
pub data EffectFile : Type 0 where
  absent : EffectFile
  unreadable : EffectFile
  holding : Json → EffectFile

unfoldable pub effect_keys : List String
effect_keys = "schema_version" ∷ "effect_id" ∷ "kind" ∷ "status" ∷ "intended" ∷ []

-- `expected_keys`, for a status
unfoldable pub status_keys : Json → List String
status_keys status = if eq status (str "confirmed") then "observed" ∷ effect_keys else effect_keys

unfoldable pub valid_effect : String → Json → Bool
valid_effect effect_id r =
    let status = get r "status" in
    keys_are (status_keys status) r
    && int_and (int_eq (pos 1)) (get r "schema_version")
    && eq (get r "effect_id") (str effect_id)
    && str_and not_blank (get r "kind")
    && one_of ("prepared" ∷ "confirmed" ∷ []) status
    && is_dict (get r "intended")
    && (not (eq status (str "confirmed")) || is_dict (get r "observed"))

abbrev pub durable : String → Result (Unit {0})
durable effect_id =
    guard (is_durable_id effect_id) (store_error "run_id contains unsupported characters")

abbrev pub read_effect : String → EffectFile → Result Json
read_effect effect_id absent = err (store_error (cat "Effect is missing or invalid: " effect_id))
read_effect effect_id unreadable =
    err (store_error (cat "Effect is missing or invalid: " effect_id))
read_effect effect_id (holding r) =
    guard (is_dict r && valid_effect effect_id r)
      (store_error (cat "Effect is invalid: " effect_id))
    >> ok r

-- `effect`
unfoldable pub effect : String → EffectFile → Result Json
effect effect_id file = durable effect_id >> read_effect effect_id file

-- `effect_if_present`
unfoldable pub effect_if_present : String → EffectFile → Result (Option Json)
unfolding effect
effect_if_present effect_id absent = durable effect_id >> ok none
effect_if_present effect_id file = effect effect_id file >>= (λ r. ok (some r))

-- The record of a new effect, before it is redacted.
unfoldable pub effect_record : String → String → Fields → Fields
effect_record effect_id kind intended = dict (
    ("schema_version", nat 1)
    ∷ ("effect_id", str effect_id)
    ∷ ("kind", str kind)
    ∷ ("status", str "prepared")
    ∷ ("intended", obj intended)
    ∷ [])

abbrev pub new_record : String → String → Fields → Json
new_record effect_id kind intended = obj (effect_record effect_id kind intended)

-- A call for an effect that is there.
unfoldable pub prepare_existing :
    String → String → Json → EffectFile → Json → Result (EffectFile × Json)
prepare_existing effect_id kind intended file existing =
    guard (eq (get existing "kind") (str kind) && eq (get existing "intended") intended)
      (store_error (cat "Effect identity conflict: " effect_id))
    >> ok (file, existing)

module _ (rules : TextRules) where
  -- `redact_artifact_value`
  abbrev pub redacted : Json → Json
  redacted v = redact rules none v

  abbrev pub prepare_file : String → String → Json → EffectFile → Result (EffectFile × Json)
  prepare_file effect_id kind r absent = ok (holding (redacted r), r)
  prepare_file effect_id kind r file =
      effect effect_id file >>= prepare_existing effect_id kind (get r "intended") file

  -- `prepare_effect`: the file behind it and the record that it returns. A failure writes nothing.
  unfoldable pub prepare_effect : String → String → Fields → EffectFile → Result (EffectFile × Json)
  prepare_effect effect_id kind intended file =
      durable effect_id
      >> prepare_file effect_id kind (redacted (new_record effect_id kind intended)) file

  -- `{**record, "status": "confirmed", "observed": ...}`
  unfoldable pub confirmed_record : Json → Fields → Json
  confirmed_record r observed = obj (
      merge (fields r)
        (dict (("status", str "confirmed") ∷ ("observed", redacted (obj observed)) ∷ [])))

  unfoldable pub confirm_record : String → Fields → EffectFile → Json → Result (EffectFile × Json)
  confirm_record effect_id observed file r =
      if eq (get r "status") (str "confirmed")
      then guard (eq (get r "observed") (redacted (obj observed)))
          (store_error (cat "Effect observation conflict: " effect_id))
        >> ok (file, r)
      else ok (holding (redacted (confirmed_record r observed)), confirmed_record r observed)

  -- `confirm_effect`
  unfoldable pub confirm_effect : String → Fields → EffectFile → Result (EffectFile × Json)
  confirm_effect effect_id observed file =
      effect effect_id file >>= confirm_record effect_id observed file

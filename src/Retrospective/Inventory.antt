-- ===== src/Retrospective/Inventory.antt =====
-- The inventory of artifacts that an episode carries, in src/afk/retrospective_contract.py: how it
-- is captured and how it is read. The digest of a manifest is a parameter.
pub mod Entries
pub mod RoundTrip
use afk_composable_pipeline.Common.{
  ℕ, ◌+◌, ◌-◌, String, List, [], ◌∷◌, Bool, false, not, ◌&&◌, ◌||◌, ◌==◌, leb, cat, characters,
  prefix, length, take, map, all, str_eq, if◌then◌else◌,
}
use afk_composable_pipeline.Common.Order.{sorted_by, distinct, is_in, texts_eq}
use afk_composable_pipeline.Common.Blank.{ends_with}
use afk_composable_pipeline.Text.{is_durable_id, is_sha256}
use afk_composable_pipeline.Text.FilePath.{path_parts}
use afk_composable_pipeline.Json.{
  Json, str, obj, nat, pos, get, eq, keys_are, dict, str_and, int_and, int_eq, at_least, one_of,
  is_dict, is_list,
}
use afk_composable_pipeline.Json.Lists.{array, elements}
use afk_composable_pipeline.Errors.{Result, ok, contract_error, ◌>>◌, guard}
use afk_composable_pipeline.History.Record.{text_of, not_blank}

-- `ARTIFACT_INVENTORY_LIMIT`
abbrev pub inventory_limit : ℕ
inventory_limit = 32

-- `TEXT_CHARACTER_LIMIT`
abbrev pub text_limit : ℕ
text_limit = 512

-- `TRUNCATION_SUFFIX`
abbrev pub truncation_suffix : String
truncation_suffix = "…[TRUNCATED]"

unfoldable pub bounded_text : String → String
bounded_text value =
    if leb (characters value) text_limit
    then value
    else cat (prefix text_limit value) truncation_suffix

-- `_valid_bounded_text`
unfoldable pub valid_bounded_text : String → Bool
valid_bounded_text value =
    leb (characters value) text_limit
    || characters value == text_limit + characters truncation_suffix
      && ends_with value truncation_suffix

-- `select_inventory_items`
abbrev pub selected_items : (Json → String) → List Json → List Json
selected_items identity items = take inventory_limit (sorted_by identity items)

abbrev pub omitted_items : List Json → ℕ
omitted_items items = length items - inventory_limit

abbrev pub text_at : String → Json → String
text_at key v = text_of (get v key)

unfoldable pub captured_effect : Json → Json
captured_effect v = obj (
    dict (
      ("effect_id", str (text_at "effect_id" v))
      ∷ ("kind", str (bounded_text (text_at "kind" v)))
      ∷ ("status", get v "status")
      ∷ []))

unfoldable pub captured_unit : (Json → String) → Json → Json
captured_unit digest v = obj (
    dict (
      ("unit", str (text_at "unit" v)) ∷ ("manifest_sha256", str (digest (get v "manifest"))) ∷ []))

-- `capture_inventory`
unfoldable pub capture_inventory : (Json → String) → ℕ → List Json → List Json → ℕ → ℕ → Json
capture_inventory digest sequence effects evidence omitted_effects omitted_units = obj (
    dict (
      ("schema_version", nat 1)
      ∷ ("through_sequence", nat sequence)
      ∷ ("effects", array (map captured_effect (selected_items (text_at "effect_id") effects)))
      ∷ ("evidence", array (map (captured_unit digest) (selected_items (text_at "unit") evidence)))
      ∷ (
        "omitted",
        obj (
            dict (
              ("effects", nat (omitted_effects + omitted_items effects))
              ∷ ("evidence_units", nat (omitted_units + omitted_items evidence))
              ∷ [])),
      )
      ∷ []))

-- `capture_unavailable_inventory`
unfoldable pub capture_unavailable_inventory : ℕ → Json
capture_unavailable_inventory sequence = obj (
    dict (
      ("schema_version", nat 1)
      ∷ ("through_sequence", nat sequence)
      ∷ ("status", str "unavailable")
      ∷ ("reason", str "artifact_inventory_invalid")
      ∷ []))

abbrev pub header_of : ℕ → Json → Bool
header_of sequence v =
    int_and (int_eq (pos 1)) (get v "schema_version")
    && int_and (int_eq (pos sequence)) (get v "through_sequence")

unfoldable pub is_unavailable : ℕ → Json → Bool
is_unavailable sequence v =
    keys_are ("schema_version" ∷ "through_sequence" ∷ "status" ∷ "reason" ∷ []) v
    && header_of sequence v
    && eq (get v "status") (str "unavailable")
    && eq (get v "reason") (str "artifact_inventory_invalid")

abbrev pub short_list : Json → Bool
short_list v = is_list v && leb (length (elements v)) inventory_limit

unfoldable pub valid_omitted : Json → Bool
valid_omitted v =
    keys_are ("effects" ∷ "evidence_units" ∷ []) v
    && int_and (at_least 0) (get v "effects")
    && int_and (at_least 0) (get v "evidence_units")

unfoldable pub valid_shape : ℕ → Json → Bool
valid_shape sequence v =
    keys_are ("schema_version" ∷ "through_sequence" ∷ "effects" ∷ "evidence" ∷ "omitted" ∷ []) v
    && header_of sequence v
    && short_list (get v "effects")
    && short_list (get v "evidence")
    && valid_omitted (get v "omitted")

unfoldable pub valid_effect_entry : Json → Bool
valid_effect_entry v =
    keys_are ("effect_id" ∷ "kind" ∷ "status" ∷ []) v
    && str_and is_durable_id (get v "effect_id")
    && str_and not_blank (get v "kind")
    && str_and valid_bounded_text (get v "kind")
    && one_of ("prepared" ∷ "confirmed" ∷ []) (get v "status")

-- The parts of the unit are one of the roots and a name.
abbrev pub two_parts : List String → List String → Bool
two_parts roots (root ∷ name ∷ []) = is_in root roots
two_parts roots _ = false

unfoldable pub valid_unit : List String → String → Bool
valid_unit roots unit = two_parts roots (path_parts unit)

unfoldable pub valid_evidence_entry : List String → Json → Bool
valid_evidence_entry roots v =
    keys_are ("unit" ∷ "manifest_sha256" ∷ []) v
    && str_and (valid_unit roots) (get v "unit")
    && str_and is_sha256 (get v "manifest_sha256")

-- `texts == sorted(set(texts))`
abbrev pub rising : List String → Bool
rising texts = texts_eq texts (sorted_by (λ s. s) (distinct texts))

unfoldable pub valid_inventory : ℕ → List String → Json → Bool
valid_inventory sequence roots v =
    valid_shape sequence v
    && all valid_effect_entry (elements (get v "effects"))
    && all (valid_evidence_entry roots) (elements (get v "evidence"))
    && rising (map (text_at "effect_id") (elements (get v "effects")))
    && rising (map (text_at "unit") (elements (get v "evidence")))

unfoldable pub decode_inventory : ℕ → List String → Json → Result Json
decode_inventory sequence roots v =
    guard (is_unavailable sequence v || valid_inventory sequence roots v)
      (contract_error "retrospective inventory is invalid")
    >> ok v

-- ===== src/Gate/Brief.antt =====
-- `build_repair_brief` of src/afk/candidate_gate.py. Where a list is expected and another value
-- stands, Python raises; there are no items here.
use afk_composable_pipeline.Common.{
  ℕ, String, [], ◌∷◌, Bool, true, false, ◌&&◌, cat, strip, is_empty, if◌then◌else◌,
}
use afk_composable_pipeline.Json.{
  Json, Items, Fields, null, bool, str, arr, obj, nil, cons, nat, get, has, eq, fields, dict, merge,
  is_dict,
}
use afk_composable_pipeline.Attempts.{is_true}
use afk_composable_pipeline.Resume.Retry.{items}
use afk_composable_pipeline.Gate.Text.{PythonText, identifier}

-- `v.get(k, default)`
abbrev pub get_or : Json → String → Json → Json
get_or v k d = if has v k then get v k else d

unfoldable pub append_items : Items → Items → Items
append_items nil ys = ys
append_items (cons x xs) ys = cons x (append_items xs ys)

-- The parts that are not empty, with an empty line between them.
unfoldable pub join_parts : String → String → String
join_parts a b = if is_empty a then b else if is_empty b then a else cat a (cat "\n\n" b)

module _ (python : PythonText) where
  open python use {to_text}

  -- One diagnostic: its path in brackets, and its content.
  abbrev pub diagnostic : Json → String
  diagnostic item = cat "[" (
      cat (to_text (get_or item "path" (str "validation log")))
        (cat "]\n" (to_text (get_or item "content" (str "")))))

  -- `"\n\n".join(...)` over the diagnostics that are dicts; the flag says that one stands before.
  unfoldable pub diagnostic_text : Bool → Items → String
  diagnostic_text behind nil = ""
  diagnostic_text behind (cons x xs) =
      let rest = diagnostic_text (if is_dict x then true else behind) xs in
      if is_dict x then cat (if behind then "\n\n" else "") (cat (diagnostic x) rest) else rest

  unfoldable pub validation_body : Json → String
  validation_body validation =
      join_parts (to_text (get_or validation "summary" (str "Validation rejected.")))
        (diagnostic_text false (items (get validation "diagnostics")))

  -- A finding for the validation.
  unfoldable pub validation_finding : String → String → String → String → Fields
  validation_finding finding_id title body path = dict (
      ("id", str finding_id)
      ∷ ("source", str "validation")
      ∷ ("priority", str "high")
      ∷ ("title", str title)
      ∷ ("body", str body)
      ∷ ("path", str path)
      ∷ ("line", null)
      ∷ ("blocking", bool true)
      ∷ [])

  -- `str(check.get("name", "validation")).strip() or "validation"`
  abbrev pub check_name : Json → String
  check_name check =
      let name = strip (to_text (get_or check "name" (str "validation"))) in
      if is_empty name then "validation" else name

  unfoldable pub check_findings : Json → Items → Items
  check_findings validation nil = nil
  check_findings validation (cons check checks) =
      let rest = check_findings validation checks in
      if is_dict check && eq (get check "status") (str "rejected")
      then cons
          (obj (
            validation_finding (cat "validation-" (identifier python (check_name check)))
              (cat "Validation check rejected: " (check_name check)) (validation_body validation)
              (to_text (get_or check "log_path" (str "")))))
          rest
      else rest

  abbrev pub is_none : Items → Bool
  is_none nil = true
  is_none (cons _ _) = false

  -- The findings of the validation: one for the contract where no check is named.
  unfoldable pub validation_findings : Json → Items
  validation_findings validation =
      let checked = check_findings validation (items (get validation "checks")) in
      if eq (get validation "status") (str "rejected") && is_none checked
      then cons
          (obj (
            validation_finding "validation-contract" "Validation Contract rejected the Candidate"
              (validation_body validation) (to_text (get_or validation "evidence" (str "")))))
          nil
      else checked

  -- The blocking findings of one review, each with its axis.
  unfoldable pub blocking_findings : String → Items → Items
  blocking_findings axis nil = nil
  blocking_findings axis (cons x xs) =
      let rest = blocking_findings axis xs in
      if is_dict x && is_true (get x "blocking")
      then cons (obj (merge (dict (("source", str axis) ∷ [])) (fields x))) rest
      else rest

  unfoldable pub review_findings : Items → Items
  review_findings nil = nil
  review_findings (cons review reviews) =
      let rest = review_findings reviews in
      if is_dict review
      then append_items
          (blocking_findings (to_text (get_or review "axis" (str "review")))
            (items (get review "findings")))
          rest
      else rest

  -- `build_repair_brief`
  unfoldable pub repair_brief : String → ℕ → Json → Items → Fields
  repair_brief candidate_sha cycle validation reviews = dict (
      ("schema_version", nat 1)
      ∷ ("candidate_sha", str candidate_sha)
      ∷ ("repair_attempt", nat cycle)
      ∷ (
        "blocking_findings",
        arr (append_items (validation_findings validation) (review_findings reviews)),
      )
      ∷ [])

-- ===== src/Gate/Advance/Outcome.antt =====
-- What follows the outcome that `complete_gate_cycle` of src/afk/candidate_gate.py builds, in
-- src/afk/start.py.
use afk_composable_pipeline.Common.{
  ℕ, suc, String, [], ◌∷◌, Bool, true, false, not, ◌&&◌, str_eq, leb, ltb, ◌==◌, if◌then◌else◌, ◌≡◌,
  refl,
}
use afk_composable_pipeline.Json.{
  Json, Items, Fields, str, arr, obj, nat, get, eq, put, dict, lookup, has, truthy,
}
use afk_composable_pipeline.Gate.Text.{PythonText}
use afk_composable_pipeline.Gate.Brief.{repair_brief}
use afk_composable_pipeline.Gate.Cycle.{
  item_count, max_gate_comments, any_status, is_rejected, next_action, stopped, action_part,
  gate_outcome,
}
use afk_composable_pipeline.Gate.Advance.{Advance, completed, attention, repair, advance_outcome}

-- The decision by the action, whether the repair budget stopped it, and whether the comments are
-- used up.
abbrev pub expected_advance : PythonText → String → Bool → Bool → Json → Advance
expected_advance python action is_stopped full brief =
    if str_eq action "complete"
    then completed
    else if not is_stopped && full
    then attention "exhausted" "Gate evidence comment budget exhausted after five comments"
    else if str_eq action "attention"
    then (if is_stopped
        then attention "exhausted"
            (python.to_text (str "repair budget exhausted after four attempts"))
        else attention "inconclusive" (python.to_text (str "Gate Cycle was inconclusive")))
    else repair brief

by_tests {ℓ} :
    (P : String → Type ℓ) (inconclusive rejects more : Bool)
    → P "complete"
    → P "attention"
    → P "repair"
    → P (
        if inconclusive
        then "attention"
        else if rejects
        then (if more then "repair" else "attention")
        else "complete")
by_tests P true r m c a b = a
by_tests P false true true c a b = b
by_tests P false true false c a b = a
by_tests P false false m c a b = c

pub by_action {ℓ} :
    (P : String → Type ℓ) (validation : Json) (used : ℕ) (reviews : Items)
    → P "complete"
    → P "attention"
    → P "repair"
    → P (next_action validation used reviews)
unfolding next_action
by_action P validation used reviews c a b =
    by_tests P (any_status "inconclusive" reviews) (is_rejected validation reviews) (ltb used 4) c a
      b

-- The outcome as a function of the action.
abbrev pub shape : String → Bool → Bool → Bool → ℕ → Json → Fields → Fields
shape action at_limit rejects no_retry retry brief base =
    let retried = if no_retry then base else put "retry" (nat retry) base in
    if str_eq action "repair"
    then put "repair_brief" brief retried
    else if str_eq action "attention" && at_limit && rejects
    then put "stop_reason" (str "repair budget exhausted after four attempts") retried
    else retried

abbrev pub base_outcome : String → String → Json → Json → ℕ → Items → String → Fields
base_outcome candidate_sha evidence dispositions validation used reviews action = dict (
    ("schema_version", nat 1)
    ∷ ("cycle", nat (suc used))
    ∷ ("candidate_sha", str candidate_sha)
    ∷ ("validation", validation)
    ∷ ("reviews", arr reviews)
    ∷ ("prior_dispositions", dispositions)
    ∷ ("next_action", str action)
    ∷ ("evidence", str evidence)
    ∷ [])

-- What is said of an outcome whose action and brief are given.
abbrev Follows :
    PythonText → Bool → Bool → Bool → ℕ → Json → (String → Fields) → Items → String → Type 0
Follows python at_limit rejects no_retry retry brief base cycles action =
    advance_outcome python (arr cycles)
      (obj (shape action at_limit rejects no_retry retry brief (base action)))
    ≡ expected_advance python action (str_eq action "attention" && at_limit && rejects)
        (leb max_gate_comments (item_count cycles)) brief

module _ (python : PythonText) (retry : ℕ) (brief : Fields) (sha e : String) (d v : Json) (used : ℕ)
    (reviews cycles : Items) where
  abbrev base : String → Fields
  base = base_outcome sha e d v used reviews

  complete-Follows :
      (at_limit rejects no_retry : Bool)
      → Follows python at_limit rejects no_retry retry (obj brief) base cycles "complete"
  unfolding advance_outcome get eq put lookup
  complete-Follows at_limit rejects true = refl
  complete-Follows at_limit rejects false = refl

  attention-Follows :
      (at_limit rejects no_retry : Bool)
      → Follows python at_limit rejects no_retry retry (obj brief) base cycles "attention"
  unfolding advance_outcome get eq put lookup truthy has
  attention-Follows true true true = refl
  attention-Follows true true false = refl
  attention-Follows true false true = refl
  attention-Follows true false false = refl
  attention-Follows false rejects true = refl
  attention-Follows false rejects false = refl

  repair-Follows :
      (at_limit rejects no_retry : Bool)
      → Follows python at_limit rejects no_retry retry (obj brief) base cycles "repair"
  unfolding advance_outcome get eq put lookup truthy
  repair-Follows at_limit rejects true = refl
  repair-Follows at_limit rejects false = refl

-- For the outcome of a Gate Cycle as it is before redaction and before the identity of the comment
-- is added, the Run completes where the action is "complete"; else it asks for attention where the
-- comments are used up and the repair budget did not stop the cycle; else, where the action is
-- "attention", it asks for attention as exhausted or inconclusive, by whether that budget stopped
-- the cycle; else it repairs with the brief of the next attempt.
pub advance_outcome-gate_outcome :
    (python : PythonText) (candidate_sha evidence : String) (dispositions validation : Json)
    (used retry : ℕ) (reviews cycles : Items)
    → advance_outcome python (arr cycles) (
        obj (gate_outcome python candidate_sha evidence dispositions validation used retry reviews))
      ≡ expected_advance python
          (next_action validation used reviews)
          (stopped validation used reviews)
          (leb max_gate_comments (item_count cycles))
          (obj (repair_brief python candidate_sha (suc used) validation reviews))
unfolding gate_outcome action_part
advance_outcome-gate_outcome python sha e d v used retry reviews cycles =
    let brief = repair_brief python sha (suc used) v reviews in
    let at_limit = leb 4 used in
    let rejects = is_rejected v reviews in
    by_action
      (Follows python at_limit rejects (retry == 0) retry (obj brief)
        (base_outcome sha e d v used reviews) cycles)
      v used reviews
      (complete-Follows python retry brief sha e d v used reviews cycles at_limit rejects
        (retry == 0))
      (attention-Follows python retry brief sha e d v used reviews cycles at_limit rejects
        (retry == 0))
      (repair-Follows python retry brief sha e d v used reviews cycles at_limit rejects
        (retry == 0))

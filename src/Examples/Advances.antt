-- ===== src/Examples/Advances.antt =====
-- A Gate Cycle with a rejected validation that leads to a repair.
use afk_composable_pipeline.Common.{String, [], ◌∷◌, none, true, ◌≡◌, refl, leb}
use afk_composable_pipeline.Json.{
  Json, nat, Items, str, arr, obj, nil, cons, end, field, dict, get, is_dict, put,
}
use afk_composable_pipeline.Gate.Text.{PythonText}
use afk_composable_pipeline.Gate.Brief.{repair_brief}
use afk_composable_pipeline.Gate.Cycle.{
  item_count, max_gate_comments, next_action, stopped, gate_outcome,
}
use afk_composable_pipeline.Gate.Advance.{
  attention, gate_cycles, advance_outcome, advance_completed_gate,
}
use afk_composable_pipeline.Gate.Advance.Outcome.{expected_advance, advance_outcome-gate_outcome}

abbrev toy_python : PythonText
toy_python = record { lower = λ s. s; to_text = λ v. "" }

abbrev candidate_sha : String
candidate_sha = "abcdefabcdabcdefabcdabcdefabcdabcdefabcd"

abbrev rejected : Json
rejected = obj (dict (("status", str "rejected") ∷ []))

abbrev outcome : Json
outcome = obj (gate_outcome toy_python candidate_sha "gates/1" (obj end) rejected 3 0 nil)

missing :
    advance_completed_gate toy_python (obj end) none true
    ≡ attention "invalid" "completed Gate Cycle outcome is missing"
unfolding advance_completed_gate afk_composable_pipeline.Gate.Advance.recorded_outcome
    afk_composable_pipeline.Json.has afk_composable_pipeline.Gate.Advance.last_item
missing = refl

advance_outcome-gate_outcome_example :
    advance_outcome toy_python
      (arr (cons outcome nil))
      (obj (gate_outcome toy_python candidate_sha "gates/1" (obj end) rejected 3 0 nil))
    ≡ expected_advance toy_python
        (next_action rejected 3 nil)
        (stopped rejected 3 nil)
        (leb max_gate_comments (item_count (cons outcome nil)))
        (obj (repair_brief toy_python candidate_sha 4 rejected nil))
advance_outcome-gate_outcome_example =
    advance_outcome-gate_outcome toy_python candidate_sha "gates/1" (obj end) rejected 3 0 nil
      (cons outcome nil)

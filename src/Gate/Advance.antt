-- ===== src/Gate/Advance.antt =====
-- `_advance_completed_gate` of src/afk/start.py: what follows a Gate Cycle that completed.
pub mod Outcome
use afk_composable_pipeline.Common.{
  String, List, [], ◌∷◌, Option, none, some, Bool, true, false, not, ◌&&◌, ◌||◌, leb, if◌then◌else◌,
}
use afk_composable_pipeline.Json.{
  Json, Items, str, arr, nil, cons, get, eq, truthy, one_of, is_dict, is_list,
}
use afk_composable_pipeline.Resume.Retry.{items}
use afk_composable_pipeline.Gate.Text.{PythonText}
use afk_composable_pipeline.Gate.Brief.{get_or}
use afk_composable_pipeline.Gate.Cycle.{item_count, max_gate_comments}

-- Nothing more to do; an attention of the scope "gate" with its kind and summary; a repair for the
-- brief; or whatever `_reobserve_gate_comment` reported.
pub data Advance : Type 0 where
  completed : Advance
  attention : String → String → Advance
  repair : Json → Advance
  reported : Advance

unfoldable pub last_item : Items → Option Json
last_item nil = none
last_item (cons x nil) = some x
last_item (cons x (cons y ys)) = last_item (cons y ys)

abbrev pub gate_cycles : Json → Json
gate_cycles p = get_or p "gate_cycles" (arr nil)

-- `str(outcome.get("stop_reason", "Gate Cycle was inconclusive"))`
abbrev pub stop_summary : PythonText → Json → String
stop_summary python outcome =
    python.to_text (get_or outcome "stop_reason" (str "Gate Cycle was inconclusive"))

abbrev pub comments_exhausted : Json → Json → Bool
comments_exhausted cycles outcome =
    one_of ("attention" ∷ "repair" ∷ []) (get outcome "next_action")
    && not (truthy (get outcome "stop_reason"))
    && is_list cycles
    && leb max_gate_comments (item_count (items cycles))

-- What follows the outcome, for the projection's cycles.
unfoldable pub advance_outcome : PythonText → Json → Json → Advance
advance_outcome python cycles outcome =
    if eq (get outcome "next_action") (str "complete")
    then completed
    else if comments_exhausted cycles outcome
    then attention "exhausted" "Gate evidence comment budget exhausted after five comments"
    else if eq (get outcome "next_action") (str "attention")
    then attention (if truthy (get outcome "stop_reason") then "exhausted" else "inconclusive")
        (stop_summary python outcome)
    else if not (eq (get outcome "next_action") (str "repair"))
        || not (is_dict (get outcome "repair_brief"))
    then attention "invalid" "Gate Cycle next action is invalid"
    else repair (get outcome "repair_brief")

abbrev pub dict_or_none : Option Json → Option Json
dict_or_none none = none
dict_or_none (some v) = if is_dict v then some v else none

-- The outcome of the last recorded cycle, if there is one.
unfoldable pub recorded_outcome : Json → Option Json
recorded_outcome p =
    if is_list (gate_cycles p) then dict_or_none (last_item (items (gate_cycles p))) else none

-- For the recorded outcome, and what `_reobserve_gate_comment` returned for it.
abbrev pub advance_recorded : PythonText → Json → Option Json → Bool → Advance
advance_recorded python cycles none observed =
    attention "invalid" "completed Gate Cycle outcome is missing"
advance_recorded python cycles (some outcome) observed =
    if observed then advance_outcome python cycles outcome else reported

-- For the projection and the outcome that the caller hands over; without one, the recorded outcome
-- is taken.
unfoldable pub advance_completed_gate : PythonText → Json → Option Json → Bool → Advance
advance_completed_gate python p (some outcome) observed =
    advance_outcome python (gate_cycles p) outcome
advance_completed_gate python p none observed =
    advance_recorded python (gate_cycles p) (recorded_outcome p) observed

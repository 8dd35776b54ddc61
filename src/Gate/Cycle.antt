-- ===== src/Gate/Cycle.antt =====
-- The decision of `complete_gate_cycle` in src/afk/candidate_gate.py: what a Gate Cycle asks for
-- next, its outcome and the data of its event.
pub mod Safety
pub mod Bounds
use afk_composable_pipeline.Common.{
  ℕ, suc, String, List, [], ◌∷◌, Bool, true, false, ◌&&◌, ◌||◌, str_eq, cat, ltb, leb, ◌==◌, length,
  if◌then◌else◌, not,
}
use afk_composable_pipeline.Json.{
  Json, Items, Fields, str, arr, obj, nil, cons, end, field, nat, pos, get, eq, put, dict, int_and,
  one_of, is_dict, is_list, at_least, at_most, str_and,
}
use afk_composable_pipeline.Errors.{Failure, Result, ok, gate_error, ◌>>=◌, ◌>>◌, guard}
use afk_composable_pipeline.Gate.Text.{PythonText}
use afk_composable_pipeline.Gate.Brief.{get_or, repair_brief}
use afk_composable_pipeline.Resume.Retry.{items}
use afk_composable_pipeline.Episodes.{number_of}
use afk_composable_pipeline.History.Record.{text_of}
use afk_composable_pipeline.Attempts.{filled_text}

-- `MAX_GATE_COMMENTS`
abbrev pub max_gate_comments : ℕ
max_gate_comments = 5

abbrev pub item_count : Items → ℕ
item_count nil = 0
item_count (cons x xs) = suc (item_count xs)

abbrev pub number_from_0_to_4 : Json → Bool
number_from_0_to_4 v = int_and (λ z. at_least 0 z && at_most 4 z) v

abbrev pub gate_invalid : String → Failure
gate_invalid summary = gate_error "invalid" summary

-- `_required_text`
abbrev pub required_text : Json → String → Result String
required_text v key =
    guard (str_and filled_text (get v key))
      (gate_invalid (cat "required Gate field is missing: " key))
    >> ok (text_of (get v key))

-- The checks of `complete_gate_cycle` on the projection before it starts a cycle; they give the
-- repair attempts used. The bead, the publication and the evidence are looked at between them.
unfoldable pub gate_ready : Json → Result ℕ
gate_ready p = do
  guard (is_list (get_or p "gate_cycles" (arr nil))) (gate_invalid "Gate Cycle history is invalid")
  guard (ltb (item_count (items (get_or p "gate_cycles" (arr nil)))) max_gate_comments)
      (gate_error "exhausted" "Gate evidence comment budget exhausted after five comments")
  candidate_sha ← required_text p "candidate_sha"
  guard
      (is_dict (get p "validation")
        && eq (get (get p "validation") "candidate_sha") (str candidate_sha))
      (gate_invalid "Gate Cycle validation does not match the current Candidate")
  guard (one_of ("passed" ∷ "rejected" ∷ []) (get (get p "validation") "status"))
      (gate_invalid "Gate Cycle requires a conclusive validation result")
  evidence ← required_text (get p "validation") "evidence"
  guard (number_from_0_to_4 (get_or p "repair_attempts_used" (nat 0)))
      (gate_invalid "repair budget state is invalid")
  ok (number_of (get_or p "repair_attempts_used" (nat 0)))

-- The cycle, its Candidate and its retry are recorded.
unfoldable pub cycle_recorded : ℕ → String → ℕ → Items → Bool
cycle_recorded cycle candidate_sha retry nil = false
cycle_recorded cycle candidate_sha retry (cons x xs) =
    is_dict x
      && eq (get x "cycle") (nat cycle)
      && eq (get x "candidate_sha") (str candidate_sha)
      && eq (get_or x "retry" (nat 0)) (nat retry)
    || cycle_recorded cycle candidate_sha retry xs

-- `status in review_statuses`
unfoldable pub any_status : String → Items → Bool
any_status status nil = false
any_status status (cons x xs) = eq (get x "status") (str status) || any_status status xs

-- The validation or a review rejects the Candidate.
unfoldable pub is_rejected : Json → Items → Bool
is_rejected validation reviews =
    eq (get validation "status") (str "rejected") || any_status "rejected" reviews

-- `next_action`, after `used` repair attempts
unfoldable pub next_action : Json → ℕ → Items → String
next_action validation used reviews =
    if any_status "inconclusive" reviews
    then "attention"
    else if is_rejected validation reviews
    then (if ltb used 4 then "repair" else "attention")
    else "complete"

abbrev pub stopped : Json → ℕ → Items → Bool
stopped validation used reviews =
    str_eq (next_action validation used reviews) "attention"
    && leb 4 used
    && is_rejected validation reviews

-- What the action adds to the outcome.
unfoldable pub action_part : PythonText → String → Json → ℕ → Items → Fields → Fields
action_part python candidate_sha validation used reviews outcome =
    if str_eq (next_action validation used reviews) "repair"
    then put "repair_brief" (obj (repair_brief python candidate_sha (suc used) validation reviews))
        outcome
    else if stopped validation used reviews
    then put "stop_reason" (str "repair budget exhausted after four attempts") outcome
    else outcome

abbrev pub retry_part : ℕ → Fields → Fields
retry_part retry outcome = if retry == 0 then outcome else put "retry" (nat retry) outcome

-- The outcome before it is redacted, and before the comment's identity is added.
unfoldable pub gate_outcome : PythonText → String → String → Json → Json → ℕ → ℕ → Items → Fields
gate_outcome python candidate_sha evidence dispositions validation used retry reviews =
    action_part python candidate_sha validation used reviews (
      retry_part retry (
        dict (
          ("schema_version", nat 1)
          ∷ ("cycle", nat (suc used))
          ∷ ("candidate_sha", str candidate_sha)
          ∷ ("validation", validation)
          ∷ ("reviews", arr reviews)
          ∷ ("prior_dispositions", dispositions)
          ∷ ("next_action", str (next_action validation used reviews))
          ∷ ("evidence", str evidence)
          ∷ [])))

-- The checkpoint of the event `gate.cycle_completed`.
unfoldable pub gate_checkpoint : Json → Json → String
gate_checkpoint outcome validation =
    if eq (get outcome "next_action") (str "complete")
    then "reviewed"
    else if eq (get validation "status") (str "passed")
    then "validated"
    else "candidate_ready"

unfoldable pub append_item : Items → Json → Items
append_item nil v = cons v nil
append_item (cons x xs) v = cons x (append_item xs v)

-- The cycles behind the event: a recorded cycle is not recorded again.
unfoldable pub cycles_after : ℕ → String → ℕ → Items → Json → Items
cycles_after cycle candidate_sha retry cycles outcome =
    if cycle_recorded cycle candidate_sha retry cycles then cycles else append_item cycles outcome

-- The data of the event `gate.cycle_completed`.
unfoldable pub cycle_data : Items → Json → Json → Fields
cycle_data cycles outcome validation = dict (
    ("checkpoint", str (gate_checkpoint outcome validation))
    ∷ ("gate_cycles", arr (append_item cycles outcome))
    ∷ ("gate_retry", obj end)
    ∷ ("attention", obj end)
    ∷ [])

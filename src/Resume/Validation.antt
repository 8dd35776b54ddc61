-- ===== src/Resume/Validation.antt =====
-- The records of a validation attempt in src/afk/start.py: `_start_validation_attempt`, the record
-- of `_finish_validation_attempt`, and `_record_validation_outcome`.
pub mod Closing
use afk_composable_pipeline.Common.{
  ℕ, suc, String, List, [], ◌∷◌, Option, none, some, Bool, cat, prefix, decimal, if◌then◌else◌,
}
use afk_composable_pipeline.Json.{Json, Fields, str, obj, end, get, has, eq, put, dict}
use afk_composable_pipeline.Episodes.{number_of}

-- `attempt_id`, for the projection before the start
unfoldable pub validation_attempt_id : Json → String → String
validation_attempt_id p candidate_sha =
    let base_attempt_id = cat "validation-" (prefix 12 candidate_sha) in
    if has p "validation_attempt"
    then cat base_attempt_id (cat "-" (decimal (suc (number_of (get p "last_sequence")))))
    else base_attempt_id

-- The attempt that `_start_validation_attempt` records.
unfoldable pub started_validation : String → String → Fields
started_validation attempt_id candidate_sha = dict (
    ("attempt_id", str attempt_id)
    ∷ ("candidate_sha", str candidate_sha)
    ∷ ("status", str "started")
    ∷ ("evidence", str (cat "attempts/" attempt_id))
    ∷ [])

-- `{**attempt, "status": status}`
unfoldable pub finished_validation : Fields → String → Fields
finished_validation attempt status = put "status" (str status) attempt

-- The data of `validation.attempt_started` and of `validation.attempt_finished`.
unfoldable pub attempt_data : Fields → Fields
attempt_data attempt =
    dict (("checkpoint", str "candidate_ready") ∷ ("validation_attempt", obj attempt) ∷ [])

-- What `_record_validation_outcome` appends: the name, the state and the data, and nothing where it
-- asks for attention.
pub record OutcomeEvent : Type 0 where
  pub name : String
  pub state : String
  pub data_fields : Fields

unfoldable pub outcome_event : Json → Option OutcomeEvent
outcome_event validation =
    if eq (get validation "status") (str "passed")
    then some (record {
      name = "validation.passed";
      state = "validated";
      data_fields = dict (("checkpoint", str "validated") ∷ ("validation", validation) ∷ []);
    })
    else if eq (get validation "status") (str "rejected")
    then some (record {
      name = "validation.rejected";
      state = "candidate_ready";
      data_fields = dict (
          ("checkpoint", str "candidate_ready")
          ∷ ("attention", obj end)
          ∷ ("validation", validation)
          ∷ []);
    })
    else none

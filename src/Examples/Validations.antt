-- ===== src/Examples/Validations.antt =====
-- A validation attempt that is started and finished, from src/afk/start.py.
use afk_composable_pipeline.Common.{
  ℕ, String, List, [], ◌∷◌, ◌++◌, none, some, true, false, ◌≡◌, refl, cat,
}
use afk_composable_pipeline.Text.{is_sha, is_durable_id}
use afk_composable_pipeline.Json.{
  Fields, str, obj, end, field, nat, get, has, lookup, eq, one_of, keys_are,
}
use afk_composable_pipeline.History.Record.{Event}
use afk_composable_pipeline.Preflight.Validation.{
  no_attempt, terminal_statuses, valid_validation_attempt, open_validation_attempt,
}
use afk_composable_pipeline.Resume.Validation.{
  validation_attempt_id, started_validation, finished_validation, attempt_data, outcome_event,
}
use afk_composable_pipeline.Resume.Validation.Closing.{
  LeftOpen, open_validation_attempt-append, open_validation_attempt-start,
}

abbrev candidate_sha : String
candidate_sha = "abcdefabcdabcdefabcdabcdefabcdabcdefabcd"

abbrev attempt_id : String
attempt_id = "validation-abcdefabcdab"

abbrev attempt : Fields
attempt = started_validation attempt_id candidate_sha

first_id : validation_attempt_id (obj end) candidate_sha ≡ attempt_id
unfolding validation_attempt_id cat afk_composable_pipeline.Common.prefix get has lookup
first_id = refl

later_id :
    validation_attempt_id
      (obj (field "validation_attempt" (obj attempt) (field "last_sequence" (nat 7) end)))
      candidate_sha
    ≡ "validation-abcdefabcdab-8"
unfolding validation_attempt_id cat afk_composable_pipeline.Common.prefix get has lookup
    afk_composable_pipeline.Common.decimal
later_id = refl

other_outcome : outcome_event (obj (field "status" (str "invalid") end)) ≡ none
unfolding outcome_event eq get
other_outcome = refl

abbrev event_of : ℕ → String → Fields → Event
event_of n name data_fields = record {
  sequence = n;
  recorded_at = "2026-01-01T00:00:00Z";
  event = name;
  state = none;
  data_fields = data_fields;
}

abbrev earlier : List Event
earlier = event_of 1 "candidate.ready" (field "candidate_sha" (str candidate_sha) end) ∷ []

abbrev start_event : Event
start_event = event_of 2 "validation.attempt_started" (attempt_data attempt)

abbrev finish_event : Event
finish_event =
    event_of 3 "validation.attempt_finished" (attempt_data (finished_validation attempt "passed"))

earlier_accepted : (open_validation_attempt earlier).invalid ≡ false
unfolding open_validation_attempt afk_composable_pipeline.Preflight.Scan.scan
    afk_composable_pipeline.Preflight.Validation.validation_step
earlier_accepted = refl

earlier_closed : (open_validation_attempt earlier).state.is_open ≡ false
unfolding open_validation_attempt afk_composable_pipeline.Preflight.Scan.scan
    afk_composable_pipeline.Preflight.Validation.validation_step
earlier_closed = refl

id_durable : is_durable_id attempt_id ≡ true
unfolding is_durable_id
id_durable = refl

candidate_hash : is_sha candidate_sha ≡ true
unfolding is_sha
candidate_hash = refl

attempt_valid : valid_validation_attempt ("started" ∷ []) (obj attempt) ≡ true
unfolding valid_validation_attempt keys_are started_validation get is_durable_id is_sha eq cat
attempt_valid = refl

passed_terminal : one_of terminal_statuses (str "passed") ≡ true
unfolding eq
passed_terminal = refl

open_validation_attempt-start_example : LeftOpen (earlier ++ start_event ∷ []) attempt
open_validation_attempt-start_example =
    open_validation_attempt-start earlier start_event attempt_id candidate_sha earlier_accepted
      earlier_closed id_durable candidate_hash refl refl

started_history-LeftOpen : LeftOpen (earlier ++ start_event ∷ []) attempt
unfolding open_validation_attempt afk_composable_pipeline.Preflight.Scan.scan
    afk_composable_pipeline.Preflight.Validation.validation_step valid_validation_attempt keys_are
    get attempt_data started_validation is_durable_id is_sha eq cat
started_history-LeftOpen = record { accepted = refl; opened = refl; attempt = refl }

open_validation_attempt-append_example :
    ((open_validation_attempt ((earlier ++ start_event ∷ []) ++ finish_event ∷ [])).invalid ≡ false)
    × ((open_validation_attempt ((earlier ++ start_event ∷ []) ++ finish_event ∷ [])).state
        ≡ no_attempt)
open_validation_attempt-append_example =
    open_validation_attempt-append (earlier ++ start_event ∷ []) finish_event attempt "passed"
      started_history-LeftOpen attempt_valid passed_terminal refl refl

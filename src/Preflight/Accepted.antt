-- ===== src/Preflight/Accepted.antt =====
-- What the whole preflight of src/afk/resume_preflight.py guarantees.
use afk_composable_pipeline.Common.{◌+◌, ◌≤◌, List, none, true, false, ◌≡◌, arith}
use afk_composable_pipeline.Json.{Json, str, get, eq, is_dict}
use afk_composable_pipeline.History.Record.{Event}
use afk_composable_pipeline.Preflight.{
  validate_open_attempts, implementation_invalid, validation_lifecycle_invalid,
  open_validation_invalid, repair_lifecycle_invalid, open_repair_invalid,
}
use afk_composable_pipeline.Preflight.Validation.{open_validation_attempt}
use afk_composable_pipeline.Preflight.Validation.Counts.{
  starts, finishings, open_validation_attempt_balance,
}
use afk_composable_pipeline.Preflight.Implementation.{open_implementation_attempt}
use afk_composable_pipeline.Preflight.Implementation.Bound.{
  implementation_starts, open_implementation_attempt_bound,
}
use afk_composable_pipeline.Preflight.Repair.{open_repair_attempt}

-- The checks that a passed preflight made.
record Passed (projection : Json) (events : List Event) : Type 0 where
  implementation : implementation_invalid projection (open_implementation_attempt events) ≡ false
  validation : validation_lifecycle_invalid projection (open_validation_attempt events) ≡ false
  open_validation : open_validation_invalid projection (open_validation_attempt events) ≡ false
  repair : repair_lifecycle_invalid projection (open_repair_attempt events) ≡ false
  open_repair : open_repair_invalid projection (open_repair_attempt events) ≡ false

passed :
    (projection : Json) (events : List Event)
    → validate_open_attempts projection events ≡ none
    → Passed projection events
unfolding validate_open_attempts
passed projection events h = ground arith

implementation_accepted :
    (projection : Json) (events : List Event)
    → implementation_invalid projection (open_implementation_attempt events) ≡ false
    → (open_implementation_attempt events).invalid ≡ false
unfolding implementation_invalid
implementation_accepted projection events h = ground arith

validation_accepted :
    (projection : Json) (events : List Event)
    → validation_lifecycle_invalid projection (open_validation_attempt events) ≡ false
    → (open_validation_attempt events).invalid ≡ false
unfolding validation_lifecycle_invalid
validation_accepted projection events h = ground arith

-- A projection whose validation attempt reads as started has an open attempt in its history.
started_is_open :
    (projection : Json) (events : List Event)
    → validation_lifecycle_invalid projection (open_validation_attempt events) ≡ false
    → is_dict (get projection "validation_attempt") ≡ true
    → eq (get (get projection "validation_attempt") "status") (str "started") ≡ true
    → (open_validation_attempt events).state.is_open ≡ true
unfolding validation_lifecycle_invalid
started_is_open projection events h d s = ground arith

open_is_same :
    (projection : Json) (events : List Event)
    → open_validation_invalid projection (open_validation_attempt events) ≡ false
    → (open_validation_attempt events).state.is_open ≡ true
    → (eq (get projection "validation_attempt") (open_validation_attempt events).state.attempt
        ≡ true)
      × (eq
            (get (get projection "validation_attempt") "candidate_sha")
            (get projection "candidate_sha")
          ≡ true)
unfolding open_validation_invalid
open_is_same projection events h o = ground arith

-- After a passed preflight the history has at most two starts of an implementation attempt, and as
-- many finishes of validation attempts as starts of them, or one less.
pub validate_open_attempts_sound :
    (projection : Json) (events : List Event)
    → validate_open_attempts projection events ≡ none
    → (implementation_starts events ≤ 2)
      × (finishings events ≤ starts events)
      × (starts events ≤ finishings events + 1)
validate_open_attempts_sound projection events h =
    let p = passed projection events h in
    let bound =
      open_implementation_attempt_bound events
        (implementation_accepted projection events p.implementation) in
    let balance =
      open_validation_attempt_balance events (validation_accepted projection events p.validation) in
    (bound, ground (arith, balance), ground (arith, balance))

-- After a passed preflight of a projection whose validation attempt reads "started", the history
-- has exactly one start of a validation attempt more than finishes, and the projected attempt
-- equals the one left open and is of the projection's Candidate.
pub validate_open_attempts_started :
    (projection : Json) (events : List Event)
    → validate_open_attempts projection events ≡ none
    → is_dict (get projection "validation_attempt") ≡ true
    → eq (get (get projection "validation_attempt") "status") (str "started") ≡ true
    → (starts events ≡ finishings events + 1)
      × (eq (get projection "validation_attempt") (open_validation_attempt events).state.attempt
          ≡ true)
      × (eq
            (get (get projection "validation_attempt") "candidate_sha")
            (get projection "candidate_sha")
          ≡ true)
validate_open_attempts_started projection events h d s =
    let p = passed projection events h in
    let balance =
      open_validation_attempt_balance events (validation_accepted projection events p.validation) in
    let open_now = started_is_open projection events p.validation d s in
    let same = open_is_same projection events p.open_validation open_now in
    (ground (arith, balance, open_now), same.0, same.1)

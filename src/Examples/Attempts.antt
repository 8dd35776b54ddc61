-- ===== src/Examples/Attempts.antt =====
-- A Run whose implementation attempt is completed and whose validation attempt is open.
use afk_composable_pipeline.Common.{
  ℕ, ◌+◌, ◌≤◌, String, List, [], ◌∷◌, none, true, false, cat, ◌≡◌, refl, all_chars, characters,
}
use afk_composable_pipeline.Text.{is_sha, is_durable_id, is_hex}
use afk_composable_pipeline.Json.{
  Json, Fields, str, obj, end, field, nat, get, has, eq, dict, lookup, put, merge, size, keys_are,
  is_dict,
}
use afk_composable_pipeline.Attempts.{
  Binding, binding_dict, started_attempt, completed_attempt, valid_attempt, common_keys, extra_keys,
  binding_fields, completed_part, interrupted_part, valid_filesystem_identity, next_attempt_id,
}
use afk_composable_pipeline.History.Record.{Event}
use afk_composable_pipeline.Preflight.{validate_open_attempts}
use afk_composable_pipeline.Preflight.Scan.{Scanned}
use afk_composable_pipeline.Preflight.Validation.{open_validation_attempt}
use afk_composable_pipeline.Preflight.Validation.Counts.{
  starts, finishings, open_count, open_validation_attempt_balance,
}
use afk_composable_pipeline.Preflight.Implementation.{open_implementation_attempt}
use afk_composable_pipeline.Preflight.Implementation.Bound.{
  implementation_starts, open_implementation_attempt_bound,
}
use afk_composable_pipeline.Preflight.Accepted.{
  validate_open_attempts_sound, validate_open_attempts_started,
}

abbrev base_sha : String
base_sha = "0123456789012345678901234567890123456789"

abbrev candidate_sha : String
candidate_sha = "abcdefabcdabcdefabcdabcdefabcdabcdefabcd"

abbrev checkout : Fields
checkout = binding_dict (record {
  repository = "/srv/afk";
  repository_common_dir = "/srv/afk/.git";
  device = nat 1;
  inode = nat 2;
  origin = "git@example.org:afk.git";
  branch = "afk/run-1";
  worktree_path = "/srv/worktrees/run-1";
})

abbrev started : Fields
started = started_attempt "implementation-1" base_sha checkout

abbrev completed : Fields
completed = completed_attempt started candidate_sha

abbrev validating : Json
validating = obj (
    dict (
      ("attempt_id", str "validation-1")
      ∷ ("candidate_sha", str candidate_sha)
      ∷ ("status", str "started")
      ∷ ("evidence", str "attempts/validation-1")
      ∷ []))

abbrev event_of : ℕ → String → Fields → Event
event_of n name data_fields = record {
  sequence = n;
  recorded_at = "2026-01-01T00:00:00Z";
  event = name;
  state = none;
  data_fields = data_fields;
}

abbrev events : List Event
events =
    event_of 1 "implementation.attempt_started" (field "implementation_attempt" (obj started) end)
    ∷ event_of 2 "implementation.attempt_finished"
        (field "implementation_attempt" (obj completed) end)
    ∷ event_of 3 "validation.attempt_started" (field "validation_attempt" validating end)
    ∷ []

abbrev projection : Json
projection = obj (
    dict (
      ("base_sha", str base_sha)
      ∷ ("candidate_sha", str candidate_sha)
      ∷ ("implementation_attempt", obj completed)
      ∷ ("validation_attempt", validating)
      ∷ []))

validation_accepted : (open_validation_attempt events).invalid ≡ false
unfolding open_validation_attempt afk_composable_pipeline.Preflight.Scan.scan
    afk_composable_pipeline.Preflight.Validation.validation_step
    afk_composable_pipeline.Preflight.Validation.valid_validation_attempt keys_are get is_durable_id
    is_sha eq cat
validation_accepted = refl

implementation_accepted : (open_implementation_attempt events).invalid ≡ false
unfolding open_implementation_attempt afk_composable_pipeline.Preflight.Scan.scan
    afk_composable_pipeline.Preflight.Implementation.implementation_step
    afk_composable_pipeline.Preflight.Implementation.start_step valid_attempt keys_are get
    extra_keys eq started_attempt merge binding_dict common_keys binding_fields is_sha cat
    valid_filesystem_identity completed_part interrupted_part
    afk_composable_pipeline.Attempts.interruption_is_retryable next_attempt_id all_chars characters
    lookup put size afk_composable_pipeline.Preflight.Implementation.closes
    afk_composable_pipeline.Preflight.Implementation.finish_step
    afk_composable_pipeline.Preflight.Implementation.same_field is_hex completed_attempt
implementation_accepted = refl

accepted : validate_open_attempts projection events ≡ none
unfolding validate_open_attempts afk_composable_pipeline.Preflight.implementation_invalid has
    afk_composable_pipeline.Json.truthy
    afk_composable_pipeline.Preflight.Publication.candidate_pr_publication_invalid
    afk_composable_pipeline.Preflight.Publication.candidate_publication_invalid
    afk_composable_pipeline.Preflight.Publication.pr_publication_step
    afk_composable_pipeline.Preflight.Publication.publication_step
    afk_composable_pipeline.Preflight.Repair.open_repair_attempt
    afk_composable_pipeline.Preflight.Repair.repair_step
    afk_composable_pipeline.Preflight.open_repair_invalid
    afk_composable_pipeline.Preflight.open_validation_invalid
    afk_composable_pipeline.Preflight.projected_repair_is_open
    afk_composable_pipeline.Preflight.repair_lifecycle_invalid
    afk_composable_pipeline.Preflight.validation_lifecycle_invalid is_durable_id
    open_validation_attempt afk_composable_pipeline.Preflight.Validation.validation_step
    afk_composable_pipeline.Preflight.Validation.valid_validation_attempt
    open_implementation_attempt afk_composable_pipeline.Preflight.Scan.scan
    afk_composable_pipeline.Preflight.Implementation.implementation_step
    afk_composable_pipeline.Preflight.Implementation.start_step valid_attempt keys_are get
    extra_keys eq started_attempt merge binding_dict common_keys binding_fields is_sha cat
    valid_filesystem_identity completed_part interrupted_part
    afk_composable_pipeline.Attempts.interruption_is_retryable next_attempt_id all_chars characters
    lookup put size afk_composable_pipeline.Preflight.Implementation.closes
    afk_composable_pipeline.Preflight.Implementation.finish_step
    afk_composable_pipeline.Preflight.Implementation.same_field is_hex completed_attempt
accepted = refl

is_dict_attempt : is_dict (get projection "validation_attempt") ≡ true
unfolding get
is_dict_attempt = refl

is_started : eq (get (get projection "validation_attempt") "status") (str "started") ≡ true
unfolding eq get
is_started = refl

open_implementation_attempt_bound_example : implementation_starts events ≤ 2
open_implementation_attempt_bound_example =
    open_implementation_attempt_bound events implementation_accepted

open_validation_attempt_balance_example :
    starts events ≡ finishings events + open_count (open_validation_attempt events).state.is_open
open_validation_attempt_balance_example = open_validation_attempt_balance events validation_accepted

validate_open_attempts_sound_example :
    (implementation_starts events ≤ 2)
    × (finishings events ≤ starts events)
    × (starts events ≤ finishings events + 1)
validate_open_attempts_sound_example = validate_open_attempts_sound projection events accepted

validate_open_attempts_started_example :
    (starts events ≡ finishings events + 1)
    × (eq (get projection "validation_attempt") (open_validation_attempt events).state.attempt
        ≡ true)
    × (eq
          (get (get projection "validation_attempt") "candidate_sha")
          (get projection "candidate_sha")
        ≡ true)
validate_open_attempts_started_example =
    validate_open_attempts_started projection events accepted is_dict_attempt is_started

-- ===== src/Preflight/Implementation.antt =====
-- `_open_implementation_attempt` of src/afk/resume_preflight.py.
pub mod Bound
use afk_composable_pipeline.Common.{
  String, List, [], ◌∷◌, Option, none, some, Bool, true, false, not, ◌&&◌, ◌||◌, str_eq,
  if◌then◌else◌, all,
}
use afk_composable_pipeline.Json.{Json, null, str, get, eq}
use afk_composable_pipeline.Attempts.{
  first_attempt_id, binding_fields, valid_attempt, next_attempt_id,
}
use afk_composable_pipeline.History.Record.{Event, data_of}
use afk_composable_pipeline.Preflight.Scan.{Scanned, scan}

-- The loop's variables.
pub record ImplementationLoop : Type 0 where
  pub is_open : Bool
  pub attempt : Json
  pub terminal : Json
  pub expected_attempt_id : Option String

abbrev pub no_implementation : ImplementationLoop
no_implementation = record {
  is_open = false;
  attempt = null;
  terminal = null;
  expected_attempt_id = some first_attempt_id;
}

-- An optional text as a value of Python.
abbrev pub text_or_none : Option String → Json
text_or_none none = null
text_or_none (some s) = str s

abbrev pub implementation_started : String
implementation_started = "implementation.attempt_started"

abbrev pub implementation_finished : String
implementation_finished = "implementation.attempt_finished"

abbrev pub implementation_interrupted : String
implementation_interrupted = "implementation.attempt_interrupted"

unfoldable pub same_field : Json → Json → String → Bool
same_field a b key = eq (get a key) (get b key)

unfoldable pub closes : List String → Json → Json → Bool
closes statuses attempt finished =
    valid_attempt statuses finished
    && same_field finished attempt "attempt_id"
    && same_field finished attempt "starting_sha"
    && same_field finished attempt "evidence"
    && all (same_field finished attempt) binding_fields

unfoldable pub start_step : Json → ImplementationLoop → Option ImplementationLoop
start_step started s =
    if s.is_open
      || not (valid_attempt ("started" ∷ []) started)
      || not (eq (get started "attempt_id") (text_or_none s.expected_attempt_id))
    then none
    else some
        (record { is_open = true; attempt = started; terminal = null; expected_attempt_id = none })

unfoldable pub finish_step : List String → Json → ImplementationLoop → Option ImplementationLoop
finish_step statuses finished s =
    if not (s.is_open && closes statuses s.attempt finished)
    then none
    else some (record {
      is_open = false;
      attempt = null;
      terminal = finished;
      expected_attempt_id = next_attempt_id finished;
    })

unfoldable pub implementation_step : Event → ImplementationLoop → Option ImplementationLoop
implementation_step e s =
    let named = get (data_of e) "implementation_attempt" in
    if str_eq e.event implementation_started
    then start_step named s
    else if str_eq e.event implementation_finished
    then finish_step ("completed" ∷ []) named s
    else if str_eq e.event implementation_interrupted
    then finish_step ("interrupted" ∷ []) named s
    else some s

unfoldable pub open_implementation_attempt : List Event → Scanned ImplementationLoop
open_implementation_attempt events = scan implementation_step no_implementation events

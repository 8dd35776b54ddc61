-- ===== src/Preflight/Validation.antt =====
-- `_open_validation_attempt` and `_valid_validation_attempt` of src/afk/resume_preflight.py.
pub mod Counts
use afk_composable_pipeline.Common.{
  String, List, [], ◌∷◌, Option, none, some, Bool, true, false, not, ◌&&◌, ◌||◌, cat, str_eq,
  if◌then◌else◌,
}
use afk_composable_pipeline.Text.{is_durable_id, is_sha}
use afk_composable_pipeline.Json.{Json, null, str, get, eq, str_and, keys_are, one_of}
use afk_composable_pipeline.Attempts.{evidence_of}
use afk_composable_pipeline.History.Record.{Event, data_of}
use afk_composable_pipeline.Preflight.Scan.{Scanned, scan}

-- `VALIDATION_TERMINAL_STATUSES`
abbrev pub terminal_statuses : List String
terminal_statuses =
    "passed" ∷ "rejected" ∷ "inconclusive" ∷ "invalid" ∷ "head_mismatch" ∷ "interrupted" ∷ []

unfoldable pub valid_validation_attempt : List String → Json → Bool
valid_validation_attempt statuses v =
    keys_are ("attempt_id" ∷ "candidate_sha" ∷ "status" ∷ "evidence" ∷ []) v
    && str_and is_durable_id (get v "attempt_id")
    && str_and is_sha (get v "candidate_sha")
    && one_of statuses (get v "status")
    && eq (get v "evidence") (str (evidence_of (get v "attempt_id")))

-- The loop's `is_open` and `attempt`.
pub record OpenAttempt : Type 0 where
  pub is_open : Bool
  pub attempt : Json

abbrev pub no_attempt : OpenAttempt
no_attempt = record { is_open = false; attempt = null }

-- `finished` is of the same attempt.
unfoldable pub finishes : Json → Json → Bool
finishes attempt finished =
    valid_validation_attempt terminal_statuses finished
    && eq (get finished "attempt_id") (get attempt "attempt_id")
    && eq (get finished "candidate_sha") (get attempt "candidate_sha")
    && eq (get finished "evidence") (get attempt "evidence")

unfoldable pub validation_step : Event → OpenAttempt → Option OpenAttempt
validation_step e s =
    let named = get (data_of e) "validation_attempt" in
    if str_eq e.event "validation.attempt_started"
    then if s.is_open || not (valid_validation_attempt ("started" ∷ []) named)
      then none
      else some (record { is_open = true; attempt = named })
    else if str_eq e.event "validation.attempt_finished"
    then if not (s.is_open && finishes s.attempt named) then none else some no_attempt
    else some s

unfoldable pub open_validation_attempt : List Event → Scanned OpenAttempt
open_validation_attempt events = scan validation_step no_attempt events

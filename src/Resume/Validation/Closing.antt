-- ===== src/Resume/Validation/Closing.antt =====
-- A validation attempt that src/afk/start.py records, as src/afk/resume_preflight.py reads it.
use afk_composable_pipeline.Common.{
  cat, String, List, [], ◌∷◌, ◌++◌, some, true, false, ◌≡◌, refl, arith,
}
use afk_composable_pipeline.Text.{is_durable_id, is_sha}
use afk_composable_pipeline.Json.{
  Json, Fields, str, obj, get, eq, lookup, is_some, keys_are, str_and, one_of,
}
use afk_composable_pipeline.Json.Laws.{eq_str_refl, eq-str}
use afk_composable_pipeline.Json.Keys.{keys_are-put, get-put, eq_text}
use afk_composable_pipeline.Attempts.{evidence_of}
use afk_composable_pipeline.History.Record.{Event, data_of}
use afk_composable_pipeline.Preflight.Scan.{scan-append}
use afk_composable_pipeline.Preflight.Validation.{
  OpenAttempt, no_attempt, terminal_statuses, valid_validation_attempt, finishes, validation_step,
  open_validation_attempt,
}
use afk_composable_pipeline.Resume.Validation.{
  started_validation, finished_validation, attempt_data,
}

-- What a valid started attempt says of its parts.
record AttemptParts (attempt : Json) : Type 0 where
  keys : keys_are ("attempt_id" ∷ "candidate_sha" ∷ "status" ∷ "evidence" ∷ []) attempt ≡ true
  id : str_and is_durable_id (get attempt "attempt_id") ≡ true
  sha : str_and is_sha (get attempt "candidate_sha") ≡ true
  evidence : eq (get attempt "evidence") (str (evidence_of (get attempt "attempt_id"))) ≡ true

attempt_parts :
    (statuses : List String) (attempt : Json)
    → valid_validation_attempt statuses attempt ≡ true
    → AttemptParts attempt
unfolding valid_validation_attempt
attempt_parts statuses attempt h = ground arith

has_status : (fs : Fields) → AttemptParts (obj fs) → is_some (lookup "status" fs) ≡ true
has_status fs parts = go parts.keys
  where
    go :
        keys_are ("attempt_id" ∷ "candidate_sha" ∷ "status" ∷ "evidence" ∷ []) (obj fs) ≡ true
        → is_some (lookup "status" fs) ≡ true
    go h = unfold keys_are in ground arith

same_evidence : (v : Json) (s : String) → eq v (str s) ≡ true → eq v v ≡ true
same_evidence v s h = rw (eq-str v s h) (eq_str_refl s)

finished_is_valid :
    (fs : Fields) (status : String)
    → AttemptParts (obj fs)
    → one_of terminal_statuses (str status) ≡ true
    → finishes (obj fs) (obj (finished_validation fs status)) ≡ true
unfolding finishes valid_validation_attempt finished_validation
finished_is_valid fs status parts terminal =
    rw (keys_are-put _ "status" (str status) fs parts.keys (has_status fs parts)) (
      simp get-put (
        rw
          (
            parts.id,
            parts.sha,
            terminal,
            parts.evidence,
            eq_text is_durable_id (get (obj fs) "attempt_id") parts.id,
            eq_text is_sha (get (obj fs) "candidate_sha") parts.sha,
            same_evidence (get (obj fs) "evidence") _ parts.evidence,
          )
          refl))

get-attempt_data : (fs : Fields) → get (obj (attempt_data fs)) "validation_attempt" ≡ obj fs
unfolding get attempt_data
get-attempt_data fs = refl

closing_step :
    (e : Event) (s : OpenAttempt) (v : Json)
    → e.event ≡ "validation.attempt_finished"
    → s.is_open ≡ true
    → get (data_of e) "validation_attempt" ≡ v
    → finishes s.attempt v ≡ true
    → validation_step e s ≡ some no_attempt
unfolding validation_step
closing_step e s v name opened named closes = rw (name, opened, named, closes) refl

-- The history is accepted and left the attempt of the fields open.
pub record LeftOpen (events : List Event) (fs : Fields) : Type 0 where
  pub accepted : (open_validation_attempt events).invalid ≡ false
  pub opened : (open_validation_attempt events).state.is_open ≡ true
  pub attempt : (open_validation_attempt events).state.attempt ≡ obj fs

-- Where the preflight accepts a history and finds a valid started validation attempt open in it, it
-- accepts the history with the finish of that attempt in a terminal status behind it, and finds no
-- open validation attempt there.
pub open_validation_attempt-append :
    (events : List Event) (e : Event) (fs : Fields) (status : String)
    → LeftOpen events fs
    → valid_validation_attempt ("started" ∷ []) (obj fs) ≡ true
    → one_of terminal_statuses (str status) ≡ true
    → e.event ≡ "validation.attempt_finished"
    → data_of e ≡ obj (attempt_data (finished_validation fs status))
    → ((open_validation_attempt (events ++ e ∷ [])).invalid ≡ false)
      × ((open_validation_attempt (events ++ e ∷ [])).state ≡ no_attempt)
unfolding open_validation_attempt
open_validation_attempt-append events e fs status left v terminal name kept =
    let s = (open_validation_attempt events).state in
    let done = obj (finished_validation fs status) in
    let named : get (data_of e) "validation_attempt" ≡ done =
      rw kept (get-attempt_data (finished_validation fs status)) in
    let closes : finishes s.attempt done ≡ true =
      rw left.attempt (finished_is_valid fs status (attempt_parts _ _ v) terminal) in
    rw
      (
        scan-append validation_step no_attempt events e left.accepted,
        closing_step e s done name left.opened named closes,
      )
      (refl, refl)

started_is_valid :
    (id sha : String)
    → is_durable_id id ≡ true
    → is_sha sha ≡ true
    → valid_validation_attempt ("started" ∷ []) (obj (started_validation id sha)) ≡ true
unfolding valid_validation_attempt started_validation keys_are get eq
started_is_valid id sha durable hash = rw (durable, hash) (eq_str_refl (cat "attempts/" id))

starting_step :
    (e : Event) (s : OpenAttempt) (v : Json)
    → e.event ≡ "validation.attempt_started"
    → s.is_open ≡ false
    → get (data_of e) "validation_attempt" ≡ v
    → valid_validation_attempt ("started" ∷ []) v ≡ true
    → validation_step e s ≡ some (record { is_open = true; attempt = v })
unfolding validation_step
starting_step e s v name closed named valid = rw (name, closed, named, valid) refl

-- Where the preflight accepts a history and finds no open validation attempt in it, it accepts the
-- history with the start of an attempt with a durable id and a Candidate's hash behind it, and
-- finds that attempt open there.
pub open_validation_attempt-start :
    (events : List Event) (e : Event) (id sha : String)
    → (open_validation_attempt events).invalid ≡ false
    → (open_validation_attempt events).state.is_open ≡ false
    → is_durable_id id ≡ true
    → is_sha sha ≡ true
    → e.event ≡ "validation.attempt_started"
    → data_of e ≡ obj (attempt_data (started_validation id sha))
    → LeftOpen (events ++ e ∷ []) (started_validation id sha)
unfolding open_validation_attempt
open_validation_attempt-start events e id sha accepted closed durable hash name kept =
    let s = (open_validation_attempt events).state in
    let start = started_validation id sha in
    let named : get (data_of e) "validation_attempt" ≡ obj start =
      rw kept (get-attempt_data start) in
    let step : validation_step e s ≡ some (record { is_open = true; attempt = obj start }) =
      starting_step e s (obj start) name closed named (started_is_valid id sha durable hash) in
    let scanned = scan-append validation_step no_attempt events e accepted in
    record {
      accepted = rw (scanned, step) refl;
      opened = rw (scanned, step) refl;
      attempt = rw (scanned, step) refl;
    }

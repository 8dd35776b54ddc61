-- ===== src/Preflight.antt =====
-- src/afk/resume_preflight.py: whether the open attempts of a projection are those of its Event
-- History. A value of a wrong type where a set of texts is asked for a member is not a member here;
-- Python's `in` raises for a list or a dict.
pub mod Scan
pub mod Validation
pub mod Implementation
pub mod Repair
pub mod Publication
pub mod Accepted
use afk_composable_pipeline.Common.{
  String, List, [], ◌∷◌, Option, none, some, Bool, true, false, not, ◌&&◌, ◌||◌, if◌then◌else◌,
}
use afk_composable_pipeline.Json.{Json, null, str, get, has, eq, truthy, is_dict, is_int, is_list}
use afk_composable_pipeline.History.Record.{Event}
use Validation.{OpenAttempt, open_validation_attempt, valid_validation_attempt}
use Implementation.{ImplementationLoop, open_implementation_attempt}
use Repair.{RepairLoop, open_repair_attempt, valid_repair_brief}
use Publication.{candidate_publication_invalid, candidate_pr_publication_invalid}
use Scan.{Scanned}

-- The first check: the projected implementation attempt is the one of the history.
unfoldable pub implementation_invalid : Json → Scanned ImplementationLoop → Bool
implementation_invalid projection r =
    let projected = get projection "implementation_attempt" in
    let exists = not (eq r.state.attempt null) || not (eq r.state.terminal null) in
    r.invalid
    || not exists && has projection "implementation_attempt"
    || r.state.is_open && not (eq projected r.state.attempt)
    || not r.state.is_open && not (eq r.state.terminal null) && not (eq projected r.state.terminal)
    || is_dict projected && not (eq (get projected "starting_sha") (get projection "base_sha"))

unfoldable pub validation_lifecycle_invalid : Json → Scanned OpenAttempt → Bool
validation_lifecycle_invalid projection r =
    let projected = get projection "validation_attempt" in
    r.invalid
    || not r.state.is_open && is_dict projected && eq (get projected "status") (str "started")

unfoldable pub open_validation_invalid : Json → Scanned OpenAttempt → Bool
open_validation_invalid projection r =
    let projected = get projection "validation_attempt" in
    r.state.is_open
    && (not (valid_validation_attempt ("started" ∷ []) projected)
        || not (eq (get projected "candidate_sha") (get projection "candidate_sha"))
        || not (eq projected r.state.attempt))

-- `repair_attempt`: `None` unless the brief is a dict
abbrev pub brief_attempt : Json → Json
brief_attempt brief = if is_dict brief then get brief "repair_attempt" else null

unfoldable pub projected_repair_is_open : Json → Bool
projected_repair_is_open projection =
    let brief = get projection "repair_brief" in
    is_dict brief
    && truthy brief
    && eq (brief_attempt brief) (get projection "repair_attempts_used")
    && eq (get brief "candidate_sha") (get projection "candidate_sha")

unfoldable pub repair_lifecycle_invalid : Json → Scanned RepairLoop → Bool
repair_lifecycle_invalid projection r =
    r.invalid || not r.state.is_open && projected_repair_is_open projection

unfoldable pub open_repair_invalid : Json → Scanned RepairLoop → Bool
open_repair_invalid projection r =
    let brief = get projection "repair_brief" in
    let used = get projection "repair_attempts_used" in
    r.state.is_open
    && (not (valid_repair_brief brief)
        || not (eq (get brief "candidate_sha") (get projection "candidate_sha"))
        || not (is_int r.state.consumed_slot)
        || not (eq (brief_attempt brief) r.state.consumed_slot)
        || not (is_int used)
        || not (eq used r.state.consumed_slot)
        || not (is_list (get brief "blocking_findings"))
        || not (eq brief r.state.brief))

-- `validate_open_attempts`: what is wrong, or nothing.
unfoldable pub validate_open_attempts : Json → List Event → Option String
validate_open_attempts projection events =
    if implementation_invalid projection (open_implementation_attempt events)
    then some "implementation attempt lifecycle is invalid"
    else if candidate_publication_invalid projection events
    then some "Candidate branch publication lifecycle is invalid"
    else if candidate_pr_publication_invalid projection events
    then some "Candidate PR publication lifecycle is invalid"
    else if validation_lifecycle_invalid projection (open_validation_attempt events)
    then some "validation attempt lifecycle is invalid"
    else if open_validation_invalid projection (open_validation_attempt events)
    then some "open validation attempt is invalid"
    else if repair_lifecycle_invalid projection (open_repair_attempt events)
    then some "repair attempt lifecycle is invalid"
    else if open_repair_invalid projection (open_repair_attempt events)
    then some "open repair attempt is invalid"
    else none

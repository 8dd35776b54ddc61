-- ===== src/Retrospective/Outcome.antt =====
-- `normalize_retrospective_outcome` of src/afk/retrospective_outcome.py. A text here has no lone
-- surrogate, so that its encoding as UTF-8 does not fail.
use afk_composable_pipeline.Common.{
  ℕ, ◌+◌, String, List, [], ◌∷◌, Bool, true, not, ◌&&◌, ◌||◌, ◌==◌, leb, characters, if◌then◌else◌,
  ◌≡◌, arith,
}
use afk_composable_pipeline.Text.{is_durable_id}
use afk_composable_pipeline.Json.{
  Json, int, str, pos, get, eq, keys_are, str_and, int_and, int_eq, at_least, is_bool, one_of,
}
use afk_composable_pipeline.Attempts.{is_true}
use afk_composable_pipeline.Errors.{Result, ok, store_error, ◌>>◌, guard}
use afk_composable_pipeline.History.Record.{not_blank}

-- A count that was checked not to be negative.
abbrev pub count_of : Json → ℕ
count_of (int (pos n)) = n
count_of _ = 0

unfoldable pub is_warning_status : Json → Bool
is_warning_status status = one_of ("invalid" ∷ "unavailable" ∷ "interrupted" ∷ []) status

unfoldable pub outcome_keys : List String
outcome_keys =
    "schema_version" ∷ "run_id" ∷ "episode_sequence" ∷ "status" ∷ "warning"
    ∷ "process_findings_count" ∷ "improvement_proposals_count" ∷ []

unfoldable pub expected_outcome_keys : Json → List String
expected_outcome_keys status =
    if is_warning_status status then "warning_summary" ∷ outcome_keys else outcome_keys

-- `_valid_warning_summary`
unfoldable pub valid_warning_summary : Json → Bool
valid_warning_summary v = str_and (λ s. not_blank s && leb (characters s) 1024) v

-- What each status asks of the warning and the counts.
unfoldable pub counts_agree : Json → Bool
counts_agree v =
    let status = get v "status" in
    let warning = is_true (get v "warning") in
    let findings = count_of (get v "process_findings_count") in
    let proposals = count_of (get v "improvement_proposals_count") in
    not (eq status (str "passed") && (warning || findings + proposals == 0))
    && not (eq status (str "empty") && (warning || not (findings == 0) || not (proposals == 0)))
    && not (
        is_warning_status status
        && (not warning
            || not (findings == 0)
            || not (proposals == 0)
            || not (valid_warning_summary (get v "warning_summary"))))

unfoldable pub valid_outcome : String → ℕ → Json → Bool
valid_outcome run_id episode_sequence v =
    keys_are (expected_outcome_keys (get v "status")) v
    && int_and (int_eq (pos 1)) (get v "schema_version")
    && str_and is_durable_id (get v "run_id")
    && eq (get v "run_id") (str run_id)
    && int_and (int_eq (pos episode_sequence)) (get v "episode_sequence")
    && one_of ("passed" ∷ "empty" ∷ "invalid" ∷ "unavailable" ∷ "interrupted" ∷ []) (get v "status")
    && is_bool (get v "warning")
    && int_and (at_least 0) (get v "process_findings_count")
    && int_and (at_least 0) (get v "improvement_proposals_count")
    && counts_agree v

unfoldable pub normalize_outcome : String → ℕ → Json → Result Json
normalize_outcome run_id episode_sequence v =
    guard (valid_outcome run_id episode_sequence v)
      (store_error "sealed retrospective outcome is invalid")
    >> ok v

normalized :
    (run_id : String) (n : ℕ) (v w : Json)
    → normalize_outcome run_id n v ≡ ok w
    → (valid_outcome run_id n v ≡ true) × (v ≡ w)
unfolding normalize_outcome
normalized run_id n v w h = ground arith

warning_counts :
    (v : Json)
    → one_of ("passed" ∷ "empty" ∷ "invalid" ∷ "unavailable" ∷ "interrupted" ∷ []) (get v "status")
      ≡ true
    → counts_agree v ≡ true
    → is_true (get v "warning") ≡ true
    → (count_of (get v "process_findings_count") ≡ 0)
      × (count_of (get v "improvement_proposals_count") ≡ 0)
      × (valid_warning_summary (get v "warning_summary") ≡ true)
unfolding counts_agree is_warning_status
warning_counts v status agree warning = ground arith

valid_parts :
    (run_id : String) (n : ℕ) (v : Json)
    → valid_outcome run_id n v ≡ true
    → (one_of ("passed" ∷ "empty" ∷ "invalid" ∷ "unavailable" ∷ "interrupted" ∷ []) (get v "status")
        ≡ true)
      × (counts_agree v ≡ true)
unfolding valid_outcome
valid_parts run_id n v h = ground arith

-- A normalized outcome with a warning counts no finding and no proposal, and has a valid summary of
-- the warning.
pub normalize_outcome-warning :
    (run_id : String) (n : ℕ) (v w : Json)
    → normalize_outcome run_id n v ≡ ok w
    → is_true (get w "warning") ≡ true
    → (count_of (get w "process_findings_count") ≡ 0)
      × (count_of (get w "improvement_proposals_count") ≡ 0)
      × (valid_warning_summary (get w "warning_summary") ≡ true)
normalize_outcome-warning run_id n v w h warning =
    let (valid, same) = normalized run_id n v w h in
    let parts = valid_parts run_id n w (rw same at valid) in
    warning_counts w parts.0 parts.1 warning

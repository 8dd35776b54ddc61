-- ===== src/Gate/Review.antt =====
-- `normalize_review_result` and `_normalize_finding` of src/afk/candidate_gate.py.
pub mod Blocking
use afk_composable_pipeline.Common.{
  ℕ, suc, String, List, [], ◌∷◌, none, Bool, true, false, not, ◌&&◌, ◌||◌, str_eq, cat, decimal,
  strip, if◌then◌else◌, all,
}
use afk_composable_pipeline.Json.{
  Json, ℤ, Items, Fields, null, str, arr, obj, nil, cons, nat, pos, negsuc, get, eq, put, fields,
  dict, keys_are, is_str, is_list, is_bool, str_and, int_and, int_eq, at_least, one_of,
}
use afk_composable_pipeline.Attempts.{is_true}
use afk_composable_pipeline.Redaction.{TextRules, redact}
use afk_composable_pipeline.Errors.{Failure, Result, ok, gate_error, ◌>>=◌, ◌>>◌, guard}
use afk_composable_pipeline.History.Record.{not_blank, text_of}
use afk_composable_pipeline.Resume.Retry.{items}
use afk_composable_pipeline.Gate.Text.{PythonText, identifier}

abbrev pub int_text : ℤ → String
int_text (pos n) = decimal n
int_text (negsuc n) = cat "-" (decimal (suc n))

abbrev pub finding_error : String → ℕ → String → Failure
finding_error axis index what =
    gate_error "invalid" (cat axis (cat " review findings[" (cat (decimal index) (cat "] " what))))

abbrev pub review_error : String → String → Failure
review_error axis what = gate_error "invalid" (cat axis (cat " " what))

unfoldable pub valid_line : Json → Bool
valid_line line = eq line null || int_and (at_least 1) line

-- `_normalize_finding`; `index` counts from 0.
unfoldable pub normalize_finding : PythonText → String → ℕ → Json → Result Json
normalize_finding python axis index value = do
  guard (keys_are ("id" ∷ "priority" ∷ "title" ∷ "body" ∷ "path" ∷ "line" ∷ "blocking" ∷ []) value)
      (finding_error axis index "is invalid")
  guard (all (λ k. is_str (get value k)) ("id" ∷ "priority" ∷ "title" ∷ "body" ∷ "path" ∷ []))
      (finding_error axis index "has invalid text")
  guard (all (λ k. str_and not_blank (get value k)) ("id" ∷ "priority" ∷ "title" ∷ "body" ∷ []))
      (finding_error axis index "has empty required text")
  guard (valid_line (get value "line")) (finding_error axis index "has invalid line")
  guard (is_bool (get value "blocking")) (finding_error axis index "has invalid blocking flag")
  ok (
      obj (
        put "id" (str (cat axis (cat "-" (identifier python (text_of (get value "id"))))))
          (fields value)))

unfoldable pub normalize_findings : PythonText → String → ℕ → Items → Result Items
normalize_findings python axis index nil = ok nil
normalize_findings python axis index (cons x xs) =
    let rest = normalize_findings python axis (suc index) xs in
    normalize_finding python axis index x >>= λ y. rest >>= λ ys. ok (cons y ys)

unfoldable pub has_id : Json → Items → Bool
has_id finding nil = false
has_id finding (cons x xs) = eq (get x "id") (get finding "id") || has_id finding xs

-- `len(finding_ids) != len(set(finding_ids))`
unfoldable pub duplicate_ids : Items → Bool
duplicate_ids nil = false
duplicate_ids (cons x xs) = has_id x xs || duplicate_ids xs

-- `any(finding["blocking"] for finding in findings)`
unfoldable pub any_blocking : Items → Bool
any_blocking nil = false
any_blocking (cons x xs) = is_true (get x "blocking") || any_blocking xs

-- The record of a review before it is redacted.
unfoldable pub review_record : String → String → String → String → Items → Json
review_record axis candidate_sha status summary findings = obj (
    dict (
      ("schema_version", nat 1)
      ∷ ("candidate_sha", str candidate_sha)
      ∷ ("axis", str axis)
      ∷ ("process_status", str "succeeded")
      ∷ ("status", str status)
      ∷ ("summary", str (strip summary))
      ∷ ("findings", arr findings)
      ∷ []))

-- The checks of the payload before its findings.
unfoldable pub check_payload : String → String → Json → Result (Unit {0})
check_payload axis candidate_sha payload = do
  guard
      (keys_are
        ("schema_version" ∷ "candidate_sha" ∷ "axis" ∷ "status" ∷ "summary" ∷ "findings" ∷ [])
        payload)
      (review_error axis "review output must contain exact identity, status, summary, and findings")
  guard (int_and (int_eq (pos 1)) (get payload "schema_version"))
      (review_error axis "review schema version is invalid")
  guard (eq (get payload "candidate_sha") (str candidate_sha))
      (review_error axis "review Candidate SHA is invalid")
  guard (eq (get payload "axis") (str axis)) (review_error axis "review axis is invalid")
  guard (one_of ("passed" ∷ "rejected" ∷ "inconclusive" ∷ []) (get payload "status"))
      (review_error axis "review status is invalid")
  guard (str_and not_blank (get payload "summary")) (review_error axis "review summary is required")
  guard (is_list (get payload "findings")) (review_error axis "review findings must be a list")

-- The checks of the findings against each other and against the status.
unfoldable pub check_findings : String → String → Items → Result (Unit {0})
check_findings axis status findings = do
  guard (not (duplicate_ids findings)) (review_error axis "review findings contain duplicate IDs")
  guard (not (str_eq status "passed" && any_blocking findings))
      (review_error axis "passed review contains blocking findings")
  guard (not (str_eq status "rejected" && not (any_blocking findings)))
      (review_error axis "rejected review has no blocking findings")

abbrev pub review_of : TextRules → String → String → String → String → Items → Result Json
review_of rules axis candidate_sha status summary findings =
    check_findings axis status findings
    >> ok (redact rules none (review_record axis candidate_sha status summary findings))

-- `normalize_review_result`
unfoldable pub normalize_review_result :
    PythonText → TextRules → String → Json → String → ℤ → Result Json
normalize_review_result python rules axis payload candidate_sha exit_code =
    guard (int_eq (pos 0) exit_code) (
      gate_error "inconclusive"
        (cat axis (cat " reviewer exited with status " (int_text exit_code))))
    >> (check_payload axis candidate_sha payload
        >> (normalize_findings python axis 0 (items (get payload "findings"))
            >>= review_of rules axis candidate_sha (text_of (get payload "status"))
                (text_of (get payload "summary"))))

-- ===== src/Examples/Gates.antt =====
-- A Gate Cycle with one review that passed, and one with a rejected validation.
use afk_composable_pipeline.Common.{
  ℕ, suc, ◌≤◌, String, List, [], ◌∷◌, none, Bool, true, false, ◌≡◌, refl, arith,
}
use afk_composable_pipeline.Text.{is_sha}
use afk_composable_pipeline.Json.{
  Json, Items, Fields, null, bool, str, arr, obj, nil, cons, end, ℤ, nat, pos, get, eq, dict,
  lookup, put,
}
use afk_composable_pipeline.Redaction.{redact}
use afk_composable_pipeline.Errors.{ok}
use afk_composable_pipeline.Preflight.Repair.{valid_repair_brief}
use afk_composable_pipeline.Resume.Retry.{items}
use afk_composable_pipeline.Gate.Text.{PythonText}
use afk_composable_pipeline.Gate.Review.{any_blocking, normalize_review_result, review_record}
use afk_composable_pipeline.Gate.Review.Blocking.{KeepsStatus, normalize_review_result-passed}
use afk_composable_pipeline.Gate.Brief.{get_or, repair_brief}
use afk_composable_pipeline.Gate.Cycle.{
  next_action, is_rejected, gate_ready, item_count, cycles_after, max_gate_comments,
}
use afk_composable_pipeline.Gate.Cycle.Bounds.{gate_ready_bounds}
use afk_composable_pipeline.Gate.Cycle.Safety.{
  AllReviewed, AllClear, next_action_complete, next_action-repair,
}
use afk_composable_pipeline.Examples.Histories.{toy_rules}

-- On texts in lower case.
abbrev toy_python : PythonText
toy_python = record { lower = λ s. s; to_text = λ v. "" }

toy_rules-KeepsStatus : KeepsStatus toy_rules
toy_rules-KeepsStatus = record { key = refl; passed = refl; rejected = refl; inconclusive = refl }

abbrev candidate_sha : String
candidate_sha = "abcdefabcdabcdefabcdabcdefabcdabcdefabcd"

abbrev remark : String → Json
remark finding_id = obj (
    dict (
      ("id", str finding_id)
      ∷ ("priority", str "low")
      ∷ ("title", str "a long line")
      ∷ ("body", str "fold it")
      ∷ ("path", str "src/a.py")
      ∷ ("line", nat 3)
      ∷ ("blocking", bool false)
      ∷ []))

abbrev payload : Json
payload = obj (
    dict (
      ("schema_version", nat 1)
      ∷ ("candidate_sha", str candidate_sha)
      ∷ ("axis", str "spec")
      ∷ ("status", str "passed")
      ∷ ("summary", str "as specified")
      ∷ ("findings", arr (cons (remark "line 3") nil))
      ∷ []))

abbrev review : Json
review =
    review_record "spec" candidate_sha "passed" "as specified" (cons (remark "spec-line-3") nil)

review_normalized :
    normalize_review_result toy_python toy_rules "spec" payload candidate_sha (pos 0) ≡ ok review
unfolding normalize_review_result afk_composable_pipeline.Gate.Review.check_payload
    afk_composable_pipeline.Json.keys_are get eq afk_composable_pipeline.Common.is_blank
    afk_composable_pipeline.Gate.Review.normalize_findings
    afk_composable_pipeline.Gate.Review.normalize_finding
    afk_composable_pipeline.Gate.Review.valid_line
    afk_composable_pipeline.Gate.Review.check_findings
    afk_composable_pipeline.Gate.Review.duplicate_ids afk_composable_pipeline.Gate.Review.has_id
    any_blocking put review_record redact afk_composable_pipeline.Common.cat
    afk_composable_pipeline.Gate.Text.identifier afk_composable_pipeline.Gate.Text.collapse
    afk_composable_pipeline.Gate.Text.lstrip_dash afk_composable_pipeline.Gate.Text.rstrip_dash
review_normalized = refl

review_passed : get review "status" ≡ str "passed"
unfolding get review_record
review_passed = refl

normalize_review_result-passed_example :
    (◌≡◌ {A = ℤ} (pos 0) (pos 0)) × (any_blocking (items (get review "findings")) ≡ false)
normalize_review_result-passed_example =
    normalize_review_result-passed toy_python toy_rules "spec" candidate_sha payload review (pos 0)
      toy_rules-KeepsStatus review_normalized review_passed

abbrev reviews : Items
reviews = cons review nil

reviews_normalized : AllReviewed toy_python toy_rules reviews
reviews_normalized = (
  record {
    axis = "spec";
    candidate_sha = candidate_sha;
    payload = payload;
    exit_code = pos 0;
    normalized = review_normalized;
  },
  tt,
)

abbrev passed_validation : Json
passed_validation = obj (dict (("status", str "passed") ∷ []))

complete_asked : next_action passed_validation 1 reviews ≡ "complete"
unfolding next_action afk_composable_pipeline.Gate.Cycle.any_status eq get review_record is_rejected
complete_asked = refl

next_action_complete_example :
    AllClear reviews × (eq (get passed_validation "status") (str "rejected") ≡ false)
next_action_complete_example =
    next_action_complete toy_python toy_rules passed_validation 1 reviews toy_rules-KeepsStatus
      reviews_normalized complete_asked

abbrev rejected_validation : Json
rejected_validation = obj (dict (("status", str "rejected") ∷ []))

repair_asked : next_action rejected_validation 3 nil ≡ "repair"
unfolding next_action afk_composable_pipeline.Gate.Cycle.any_status is_rejected eq get
repair_asked = refl

sha_valid : is_sha candidate_sha ≡ true
unfolding is_sha
sha_valid = refl

next_action-repair_example :
    (suc 3 ≤ 4)
    × (is_rejected rejected_validation nil ≡ true)
    × (valid_repair_brief
          (obj (repair_brief toy_python candidate_sha (suc 3) rejected_validation nil))
        ≡ true)
next_action-repair_example =
    next_action-repair toy_python candidate_sha rejected_validation 3 nil sha_valid repair_asked

abbrev validated : Json
validated = obj (
    dict (
      ("candidate_sha", str candidate_sha)
      ∷ (
        "validation",
        obj (
            dict (
              ("candidate_sha", str candidate_sha)
              ∷ ("status", str "passed")
              ∷ ("evidence", str "gates/validation-1")
              ∷ [])),
      )
      ∷ ("repair_attempts_used", nat 4)
      ∷ []))

validated_ready : gate_ready validated ≡ ok 4
unfolding gate_ready afk_composable_pipeline.Json.has get eq
validated_ready = refl

gate_ready_bounds_example :
    (suc 4 ≤ max_gate_comments)
    × (item_count (
          cycles_after
            (suc 4)
            candidate_sha
            0
            (items (get_or validated "gate_cycles" (arr nil)))
            (obj end))
        ≤ max_gate_comments)
gate_ready_bounds_example = gate_ready_bounds validated (obj end) 4 0 candidate_sha validated_ready

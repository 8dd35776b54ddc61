-- ===== src/Gate/Cycle/Safety.antt =====
-- What a Gate Cycle of src/afk/candidate_gate.py asks for next, by what it saw.
use afk_composable_pipeline.Common.{
  ℕ, suc, ◌≤◌, String, Bool, true, false, ◌||◌, str_eq, ltb, inl, inr, ◌⊎◌, if◌then◌else◌, ◌≡◌,
  refl, arith, eq_refl,
}
use afk_composable_pipeline.Text.{is_sha}
use afk_composable_pipeline.Json.{
  Json, ℤ, Items, str, obj, nil, cons, get, eq, lookup, size, keys_are,
}
use afk_composable_pipeline.Json.Laws.{eq_str_refl}
use afk_composable_pipeline.Redaction.{TextRules}
use afk_composable_pipeline.Errors.{ok}
use afk_composable_pipeline.Preflight.Repair.{valid_repair_brief}
use afk_composable_pipeline.Resume.Retry.{items}
use afk_composable_pipeline.Gate.Text.{PythonText}
use afk_composable_pipeline.Gate.Review.{any_blocking, normalize_review_result}
use afk_composable_pipeline.Gate.Review.Blocking.{
  KeepsStatus, normalized_status, normalize_review_result-passed,
}
use afk_composable_pipeline.Gate.Brief.{repair_brief}
use afk_composable_pipeline.Gate.Cycle.{any_status, is_rejected, next_action}

-- The review was normalized from what a reviewer wrote, and is one of the three statuses.
pub record Reviewed (python : PythonText) (rules : TextRules) (review : Json) : Type 0 where
  pub axis : String
  pub candidate_sha : String
  pub payload : Json
  pub exit_code : ℤ
  pub normalized :
      normalize_review_result python rules axis payload candidate_sha exit_code ≡ ok review

abbrev pub AllReviewed : PythonText → TextRules → Items → Type 0
AllReviewed python rules nil = Unit {0}
AllReviewed python rules (cons x xs) = Reviewed python rules x × AllReviewed python rules xs

-- Every review passed, and none of its findings blocks.
abbrev pub AllClear : Items → Type 0
AllClear nil = Unit {0}
AllClear (cons x xs) =
    (get x "status" ≡ str "passed")
    × (any_blocking (items (get x "findings")) ≡ false)
    × AllClear xs

one_passed :
    (v : Json)
    → (v ≡ str "passed") ⊎ ((v ≡ str "rejected") ⊎ (v ≡ str "inconclusive"))
    → eq v (str "rejected") ≡ false
    → eq v (str "inconclusive") ≡ false
    → v ≡ str "passed"
one_passed v (inl a) r i = a
one_passed v (inr (inl b)) r i = ground (arith, eq_str_refl "rejected", rw b at r)
one_passed v (inr (inr c)) r i = ground (arith, eq_str_refl "inconclusive", rw c at i)

split_status :
    (s : String) (x : Json) (xs : Items)
    → any_status s (cons x xs) ≡ false
    → (eq (get x "status") (str s) ≡ false) × (any_status s xs ≡ false)
unfolding any_status
split_status s x xs h = ground arith

reviews_clear :
    (python : PythonText) (rules : TextRules) (reviews : Items)
    → KeepsStatus rules
    → AllReviewed python rules reviews
    → any_status "inconclusive" reviews ≡ false
    → any_status "rejected" reviews ≡ false
    → AllClear reviews
reviews_clear python rules nil k a i r = tt
reviews_clear python rules (cons x xs) k a i r =
    let (here_i, rest_i) = split_status "inconclusive" x xs i in
    let (here_r, rest_r) = split_status "rejected" x xs r in
    let v = a.0 in
    let passed =
      one_passed (get x "status")
        (normalized_status python rules v.axis v.candidate_sha v.payload x v.exit_code k
          v.normalized)
        here_r here_i in
    let clear =
      normalize_review_result-passed python rules v.axis v.candidate_sha v.payload x v.exit_code k
        v.normalized passed in
    (passed, clear.1, reviews_clear python rules xs k a.1 rest_i rest_r)

-- The action as a function of its tests.
abbrev action : Bool → Bool → Bool → Bool → String
action inconclusive validation_rejects review_rejects more =
    if inconclusive
    then "attention"
    else if validation_rejects || review_rejects
    then (if more then "repair" else "attention")
    else "complete"

action_complete :
    (i v r more : Bool)
    → str_eq (action i v r more) "complete" ≡ true
    → (i ≡ false) × (r ≡ false) × (v ≡ false)
action_complete true v r more h = ground arith
action_complete false true r true h = ground arith
action_complete false true r false h = ground arith
action_complete false false true true h = ground arith
action_complete false false true false h = ground arith
action_complete false false false more h = (refl, refl, refl)

action_repair :
    (i v r more : Bool)
    → str_eq (action i v r more) "repair" ≡ true
    → (more ≡ true) × ((v || r) ≡ true)
action_repair true v r more h = ground arith
action_repair false true r true h = (refl, refl)
action_repair false true r false h = ground arith
action_repair false false true true h = (refl, refl)
action_repair false false true false h = ground arith
action_repair false false false more h = ground arith

complete_parts :
    (validation : Json) (used : ℕ) (reviews : Items)
    → str_eq (next_action validation used reviews) "complete" ≡ true
    → (any_status "inconclusive" reviews ≡ false)
      × (any_status "rejected" reviews ≡ false)
      × (eq (get validation "status") (str "rejected") ≡ false)
unfolding next_action is_rejected
complete_parts validation used reviews h =
    action_complete (any_status "inconclusive" reviews)
      (eq (get validation "status") (str "rejected")) (any_status "rejected" reviews) (ltb used 4) h

-- A Gate Cycle asks for nothing more only where every review passed with no blocking finding and
-- the validation was not rejected; the reviews are normalized ones, and redaction keeps the words
-- of their status.
pub next_action_complete :
    (python : PythonText) (rules : TextRules) (validation : Json) (used : ℕ) (reviews : Items)
    → KeepsStatus rules
    → AllReviewed python rules reviews
    → next_action validation used reviews ≡ "complete"
    → AllClear reviews × (eq (get validation "status") (str "rejected") ≡ false)
next_action_complete python rules validation used reviews k a h =
    let parts = complete_parts validation used reviews (rw h (eq_refl "complete")) in
    (reviews_clear python rules reviews k a parts.0 parts.1, parts.2)

repair_parts :
    (validation : Json) (used : ℕ) (reviews : Items)
    → str_eq (next_action validation used reviews) "repair" ≡ true
    → (ltb used 4 ≡ true) × (is_rejected validation reviews ≡ true)
unfolding next_action is_rejected
repair_parts validation used reviews h =
    action_repair (any_status "inconclusive" reviews)
      (eq (get validation "status") (str "rejected")) (any_status "rejected" reviews) (ltb used 4) h

brief_valid :
    (python : PythonText) (candidate_sha : String) (validation : Json) (used : ℕ) (reviews : Items)
    → is_sha candidate_sha ≡ true
    → ltb used 4 ≡ true
    → valid_repair_brief (obj (repair_brief python candidate_sha (suc used) validation reviews))
      ≡ true
unfolding valid_repair_brief repair_brief keys_are get lookup size
brief_valid python candidate_sha validation used reviews sha more = ground arith

-- A Gate Cycle asks for a repair only where the validation or a review rejects the Candidate and at
-- most three repair attempts are used; for a full SHA the brief that it builds is valid for the
-- preflight.
pub next_action-repair :
    (python : PythonText) (candidate_sha : String) (validation : Json) (used : ℕ) (reviews : Items)
    → is_sha candidate_sha ≡ true
    → next_action validation used reviews ≡ "repair"
    → (suc used ≤ 4)
      × (is_rejected validation reviews ≡ true)
      × (valid_repair_brief (obj (repair_brief python candidate_sha (suc used) validation reviews))
          ≡ true)
next_action-repair python candidate_sha validation used reviews sha h =
    let parts = repair_parts validation used reviews (rw h (eq_refl "repair")) in
    (
      ground (arith, parts.0),
      parts.1,
      brief_valid python candidate_sha validation used reviews sha parts.0,
    )

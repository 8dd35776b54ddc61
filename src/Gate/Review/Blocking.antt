-- ===== src/Gate/Review/Blocking.antt =====
-- The blocking findings of a review that src/afk/candidate_gate.py normalized.
use afk_composable_pipeline.Common.{
  String, [], ◌∷◌, Option, none, some, Bool, true, false, str_eq, Bool-cases, ◌⊎◌, inl, inr, ◌≡◌,
  refl, sym, ap, ◌∙◌, subst, arith,
}
use afk_composable_pipeline.Json.{
  Json, ℤ, Items, Fields, null, bool, int, str, arr, obj, nil, cons, get, eq, lookup, one_of,
  or_null, pos, negsuc, int_eq,
}
use afk_composable_pipeline.Json.Laws.{eq-str}
use afk_composable_pipeline.Attempts.{is_true}
use afk_composable_pipeline.Redaction.{TextRules, redact, redact_items, redact_fields, secret}
use afk_composable_pipeline.Redaction.Walk.{lookup-redact_fields}
use afk_composable_pipeline.Errors.{ok, succeeded, passed_check, same_value}
use afk_composable_pipeline.History.Record.{text_of}
use afk_composable_pipeline.Resume.Retry.{items}
use afk_composable_pipeline.Gate.Text.{PythonText}
use afk_composable_pipeline.Gate.Review.{
  any_blocking, review_record, review_of, check_findings, check_payload, normalize_findings,
  normalize_review_result,
}

-- The rules of redaction leave the statuses of a review as they are.
pub record KeepsStatus (rules : TextRules) : Type 0 where
  pub key : rules.is_secret_key "status" ≡ false
  pub passed : rules.redact_text "passed" ≡ "passed"
  pub rejected : rules.redact_text "rejected" ≡ "rejected"
  pub inconclusive : rules.redact_text "inconclusive" ≡ "inconclusive"

abbrev blocks : Json → Bool
blocks v = is_true (get v "blocking")

not_blocking_value :
    (rules : TextRules) (key : Option String) (v : Json)
    → is_true v ≡ false
    → is_true (redact rules key v) ≡ false
unfolding redact
not_blocking_value rules key null h = ground arith
not_blocking_value rules key (bool b) h = ground arith
not_blocking_value rules key (int z) h = ground arith
not_blocking_value rules key (str s) h = ground arith
not_blocking_value rules key (arr xs) h = ground arith
not_blocking_value rules key (obj fs) h = ground arith

not_blocking_lookup :
    (rules : TextRules) (o : Option Json)
    → is_true (or_null o) ≡ false
    → is_true (or_null (elim o [ none ↦ none | some v ↦ some (redact rules (some "blocking") v) ]))
      ≡ false
not_blocking_lookup rules none h = refl
not_blocking_lookup rules (some v) h = not_blocking_value rules (some "blocking") v h

not_blocking_fields :
    (rules : TextRules) (fs : Fields)
    → blocks (obj fs) ≡ false
    → blocks (obj (redact_fields rules fs)) ≡ false
unfolding get
not_blocking_fields rules fs h =
    rw (lookup-redact_fields rules "blocking" fs)
      (not_blocking_lookup rules (lookup "blocking" fs) h)

-- No value blocks because it was redacted.
not_blocking :
    (rules : TextRules) (key : Option String) (v : Json)
    → blocks v ≡ false
    → blocks (redact rules key v) ≡ false
unfolding redact
not_blocking rules key null h = unfold get in ground arith
not_blocking rules key (bool b) h = unfold get in ground arith
not_blocking rules key (int z) h = unfold get in ground arith
not_blocking rules key (str s) h = unfold get in ground arith
not_blocking rules key (arr xs) h = unfold get in ground arith
not_blocking rules key (obj fs) h = elim (Bool-cases (secret rules key)) [
  | inl hidden ↦ rw hidden (unfold get in refl)
  | inr shown ↦ rw shown (not_blocking_fields rules fs h)
]

none_blocking :
    (rules : TextRules) (key : Option String) (xs : Items)
    → any_blocking xs ≡ false
    → any_blocking (redact_items rules key xs) ≡ false
unfolding any_blocking redact
none_blocking rules key nil h = refl
none_blocking rules key (cons x xs) h =
    ground (arith, not_blocking rules key x, none_blocking rules key xs)

-- The status of a redacted review.
redacted_status :
    (rules : TextRules) (axis candidate_sha status summary : String) (findings : Items)
    → rules.is_secret_key "status" ≡ false
    → get (redact rules none (review_record axis candidate_sha status summary findings)) "status"
      ≡ str (rules.redact_text status)
unfolding redact review_record get lookup
redacted_status rules axis candidate_sha status summary findings h = rw h refl

-- The findings of a redacted review.
redacted_findings :
    (rules : TextRules) (axis candidate_sha status summary : String) (findings : Items)
    → any_blocking findings ≡ false
    → any_blocking (
        items (
          get
            (redact rules none (review_record axis candidate_sha status summary findings))
            "findings"))
      ≡ false
redacted_findings rules axis candidate_sha status summary findings h =
    elim (Bool-cases (rules.is_secret_key "findings")) [
      | inl hidden ↦ unfold redact review_record get lookup any_blocking in rw hidden refl
      | inr shown ↦
          unfold redact review_record get lookup in
          rw shown (none_blocking rules (some "findings") findings h)
    ]

passed_has_none :
    (axis status : String) (findings : Items) {u : Unit {0}}
    → check_findings axis status findings ≡ ok u
    → str_eq status "passed" ≡ true
    → any_blocking findings ≡ false
unfolding check_findings
passed_has_none axis status findings h p = ground arith

three_cases :
    (v : Json)
    → one_of ("passed" ∷ "rejected" ∷ "inconclusive" ∷ []) v ≡ true
    → (v ≡ str "passed") ⊎ ((v ≡ str "rejected") ⊎ (v ≡ str "inconclusive"))
three_cases v o = elim (Bool-cases (eq v (str "passed"))) [
  | inl a ↦ inl (eq-str v "passed" a)
  | inr a ↦ elim (Bool-cases (eq v (str "rejected"))) [
    | inl b ↦ inr (inl (eq-str v "rejected" b))
    | inr b ↦ inr (inr (eq-str v "inconclusive" (ground (arith, a, b))))
  ]
]

-- What is redacted to "passed" is no status that redaction keeps and that is another.
kept_other :
    (s t : String) → t ≡ s → t ≡ "passed" → str_eq s "passed" ≡ false → str_eq s "passed" ≡ true
kept_other s t k h other = rw (sym k ∙ h) refl

-- Of the three statuses only "passed" is redacted to "passed".
was_passed :
    (rules : TextRules) (v : Json)
    → KeepsStatus rules
    → one_of ("passed" ∷ "rejected" ∷ "inconclusive" ∷ []) v ≡ true
    → rules.redact_text (text_of v) ≡ "passed"
    → str_eq (text_of v) "passed" ≡ true
was_passed rules v k o h = elim (three_cases v o) [
  | inl a ↦ rw a refl
  | inr (inl b) ↦
      rw b (kept_other "rejected" (rules.redact_text "rejected") k.rejected (rw b at h) refl)
  | inr (inr c) ↦
      rw c (
        kept_other "inconclusive" (rules.redact_text "inconclusive") k.inconclusive (rw c at h)
          refl)
]

reviewed_passed :
    (rules : TextRules) (axis candidate_sha summary : String) (v w : Json) (findings : Items)
    → KeepsStatus rules
    → one_of ("passed" ∷ "rejected" ∷ "inconclusive" ∷ []) v ≡ true
    → review_of rules axis candidate_sha (text_of v) summary findings ≡ ok w
    → get w "status" ≡ str "passed"
    → any_blocking (items (get w "findings")) ≡ false
reviewed_passed rules axis candidate_sha summary v w findings k o h p =
    let (u, made, checked) = succeeded (check_findings axis (text_of v) findings) h in
    let same = same_value made in
    let status : str (rules.redact_text (text_of v)) ≡ str "passed" =
      sym (redacted_status rules axis candidate_sha (text_of v) summary findings k.key)
      ∙ (ap (λ x. get x "status") same ∙ p) in
    subst (λ x. any_blocking (items (get x "findings")) ≡ false) same
      (redacted_findings rules axis candidate_sha (text_of v) summary findings (
        passed_has_none axis (text_of v) findings checked
          (was_passed rules v k o (ap text_of status))))

exit_zero : (z : ℤ) → int_eq (pos 0) z ≡ true → z ≡ pos 0
exit_zero (pos n) h = ground arith
exit_zero (negsuc n) h = ground arith

-- What the checks of the payload leave of its status.
payload_status :
    (axis candidate_sha : String) (payload : Json) {u : Unit {0}}
    → check_payload axis candidate_sha payload ≡ ok u
    → one_of ("passed" ∷ "rejected" ∷ "inconclusive" ∷ []) (get payload "status") ≡ true
unfolding check_payload
payload_status axis candidate_sha payload h = ground arith

kept_status :
    (rules : TextRules) (v : Json)
    → KeepsStatus rules
    → one_of ("passed" ∷ "rejected" ∷ "inconclusive" ∷ []) v ≡ true
    → str (rules.redact_text (text_of v)) ≡ v
kept_status rules v k o = elim (three_cases v o) [
  | inl a ↦ rw a (ap str k.passed)
  | inr (inl b) ↦ rw b (ap str k.rejected)
  | inr (inr c) ↦ rw c (ap str k.inconclusive)
]

-- The status of a normalized review is the one that the reviewer wrote.
pub normalized_status :
    (python : PythonText) (rules : TextRules) (axis candidate_sha : String) (payload w : Json)
    (exit_code : ℤ)
    → KeepsStatus rules
    → normalize_review_result python rules axis payload candidate_sha exit_code ≡ ok w
    → (get w "status" ≡ str "passed")
      ⊎ ((get w "status" ≡ str "rejected") ⊎ (get w "status" ≡ str "inconclusive"))
unfolding normalize_review_result
normalized_status python rules axis candidate_sha payload w exit_code k h =
    let (exited, rest) = passed_check (int_eq (pos 0) exit_code) _ _ h in
    let (u, found, checked) = succeeded (check_payload axis candidate_sha payload) rest in
    let (findings, made, normalized) =
      succeeded (normalize_findings python axis 0 (items (get payload "findings"))) found in
    let v = get payload "status" in
    let (t, written, agreed) = succeeded (check_findings axis (text_of v) findings) made in
    let o = payload_status axis candidate_sha payload checked in
    let same : get w "status" ≡ v =
      ap (λ x. get x "status") (sym (same_value written))
      ∙ (redacted_status rules axis candidate_sha (text_of v) _ findings k.key
          ∙ kept_status rules v k o) in
    rw same (three_cases v o)

-- A normalized review whose status is "passed" comes from a reviewer that exited with 0, and none
-- of its findings blocks; redaction keeps the words of the status.
pub normalize_review_result-passed :
    (python : PythonText) (rules : TextRules) (axis candidate_sha : String) (payload w : Json)
    (exit_code : ℤ)
    → KeepsStatus rules
    → normalize_review_result python rules axis payload candidate_sha exit_code ≡ ok w
    → get w "status" ≡ str "passed"
    → (exit_code ≡ pos 0) × (any_blocking (items (get w "findings")) ≡ false)
unfolding normalize_review_result
normalize_review_result-passed python rules axis candidate_sha payload w exit_code k h p =
    let (exited, rest) = passed_check (int_eq (pos 0) exit_code) _ _ h in
    let (u, found, checked) = succeeded (check_payload axis candidate_sha payload) rest in
    let (findings, made, normalized) =
      succeeded (normalize_findings python axis 0 (items (get payload "findings"))) found in
    (
      exit_zero exit_code exited,
      reviewed_passed rules axis candidate_sha _ (get payload "status") w findings k
          (payload_status axis candidate_sha payload checked) made p,
    )

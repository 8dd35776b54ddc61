-- ===== src/Resume/Repair/Recovery.antt =====
-- The event that `_recover_interrupted_repair` of src/afk/start.py appends, as the preflight and
-- the next resume read it.
use afk_composable_pipeline.Common.{
  ℕ, suc, [], ◌∷◌, Bool, true, false, ◌&&◌, if◌then◌else◌, ltb, ==_refl, ◌≡◌, refl, arith,
  Bool-cases, inl, inr,
}
use afk_composable_pipeline.Text.{is_sha}
use afk_composable_pipeline.Json.{
  Json, Fields, str, obj, end, field, nat, pos, get, eq, put, is_dict, int_and, lookup, size,
  keys_are, is_some, one_of, str_and, is_list, int_eq,
}
use afk_composable_pipeline.Json.Laws.{eq_str_refl}
use afk_composable_pipeline.Json.Keys.{keys_are-put, get-put, eq_text}
use afk_composable_pipeline.Preflight.Repair.{
  valid_repair_brief, valid_interruption, valid_next_brief, valid_repair_interrupted_closure,
  between_1_and_4,
}
use afk_composable_pipeline.Resume.Repair.{
  interruption_of, next_brief, interrupted_data, interrupted_repair_resume_ready,
  interrupted_repair_terminal,
}

-- What a valid brief says of its parts.
record BriefParts (brief : Json) : Type 0 where
  keys :
      keys_are
        ("schema_version" ∷ "candidate_sha" ∷ "repair_attempt" ∷ "blocking_findings" ∷ [])
        brief
      ≡ true
  version : int_and (int_eq (pos 1)) (get brief "schema_version") ≡ true
  sha : str_and is_sha (get brief "candidate_sha") ≡ true
  slot : int_and between_1_and_4 (get brief "repair_attempt") ≡ true
  findings : is_list (get brief "blocking_findings") ≡ true

brief_parts : (brief : Json) → valid_repair_brief brief ≡ true → BriefParts brief
unfolding valid_repair_brief
brief_parts brief h = ground arith

valid_brief-put :
    (fs : Fields) (n : ℕ)
    → BriefParts (obj fs)
    → is_some (lookup "repair_attempt" fs) ≡ true
    → between_1_and_4 (pos n) ≡ true
    → valid_repair_brief (obj (put "repair_attempt" (nat n) fs)) ≡ true
unfolding valid_repair_brief
valid_brief-put fs n parts present small =
    rw (keys_are-put _ "repair_attempt" (nat n) fs parts.keys present)
      (simp (get-put, parts.version, parts.sha, small, parts.findings))

int_self : (n : ℕ) → eq (nat n) (nat n) ≡ true
unfolding eq
int_self n = ==_refl n

interruption_valid :
    (brief : Json) (n : ℕ)
    → eq (get brief "candidate_sha") (get brief "candidate_sha") ≡ true
    → valid_interruption (obj (interruption_of (get brief "candidate_sha") (nat n))) brief (nat n)
      ≡ true
unfolding valid_interruption
interruption_valid brief n self =
    unfold interruption_of keys_are get lookup eq size in ground (arith, self, int_self n)

small_suc : (n : ℕ) → ltb n 4 ≡ true → between_1_and_4 (pos (suc n)) ≡ true
small_suc n h = ground arith

empty_self : eq (obj end) (obj end) ≡ true
unfolding eq
empty_self = refl

present : (fs : Fields) → BriefParts (obj fs) → is_some (lookup "repair_attempt" fs) ≡ true
present fs parts = go parts.keys
  where
    go :
        keys_are
            ("schema_version" ∷ "candidate_sha" ∷ "repair_attempt" ∷ "blocking_findings" ∷ [])
            (obj fs)
          ≡ true
        → is_some (lookup "repair_attempt" fs) ≡ true
    go h = unfold keys_are in ground arith

before_last : (n : ℕ) → ltb n 4 ≡ true → eq (nat n) (nat 4) ≡ false
unfolding eq
before_last n h = ground arith

at_last : (n : ℕ) → ltb n 4 ≡ false → between_1_and_4 (pos n) ≡ true → eq (nat n) (nat 4) ≡ true
unfolding eq
at_last n h b = ground arith

next_brief_valid :
    (fs : Fields) (n : ℕ)
    → BriefParts (obj fs)
    → get (obj fs) "repair_attempt" ≡ nat n
    → valid_next_brief (next_brief (obj fs) n) (obj fs) (nat n) ≡ true
unfolding valid_next_brief next_brief
next_brief_valid fs n parts at = elim (Bool-cases (ltb n 4)) [
  | inl more ↦
      rw (more, before_last n more)
        (rw (valid_brief-put fs (suc n) parts (present fs parts) (small_suc n more)) (
          simp get-put
            (rw (eq_text is_sha (get (obj fs) "candidate_sha") parts.sha) (int_self (suc n)))))
  | inr last ↦ rw (last, at_last n last (rw at at parts.slot)) empty_self
]

-- The checkpoints at which a repair is interrupted.
abbrev pub is_repair_checkpoint : Json → Bool
is_repair_checkpoint = one_of ("validated" ∷ "candidate_ready" ∷ [])

-- The event's data, for a brief of the attempt `n`.
abbrev pub recovery_data : Json → Fields → ℕ → Fields
recovery_data checkpoint fs n =
    interrupted_data checkpoint n (obj fs)
      (obj (interruption_of (get (obj fs) "candidate_sha") (nat n)))

closure_of_parts :
    (checkpoint brief next interruption : Json) (n : ℕ)
    → is_dict brief ≡ true
    → is_repair_checkpoint checkpoint ≡ true
    → valid_interruption interruption brief (nat n) ≡ true
    → valid_next_brief next brief (nat n) ≡ true
    → valid_repair_interrupted_closure
        (obj (
          field "checkpoint" checkpoint (
            field "repair_attempts_used"
              (nat n)
              (field "repair_brief" next (field "interrupted_repair" interruption end)))))
        brief
        (nat n)
      ≡ true
unfolding valid_repair_interrupted_closure keys_are get lookup size
closure_of_parts checkpoint brief next interruption n d c i b = rw (d, c, int_self n, i, b)

-- For a valid repair brief of the attempt n and a repair checkpoint, the data that the recovery of
-- an interrupted repair records pass the preflight's test of an interruption that closes that
-- attempt.
pub recovery_data_closes :
    (checkpoint : Json) (fs : Fields) (n : ℕ)
    → valid_repair_brief (obj fs) ≡ true
    → get (obj fs) "repair_attempt" ≡ nat n
    → is_repair_checkpoint checkpoint ≡ true
    → valid_repair_interrupted_closure (obj (recovery_data checkpoint fs n)) (obj fs) (nat n) ≡ true
recovery_data_closes checkpoint fs n v at c =
    let parts = brief_parts (obj fs) v in
    unfold interrupted_data in
    closure_of_parts checkpoint (obj fs) (next_brief (obj fs) n)
      (obj (interruption_of (get (obj fs) "candidate_sha") (nat n))) n refl c
      (interruption_valid (obj fs) n (eq_text is_sha (get (obj fs) "candidate_sha") parts.sha))
      (next_brief_valid fs n parts at)

-- The projection holds what the event wrote, for the same Candidate.
pub record Recovered (q : Json) (fs : Fields) (n : ℕ) : Type 0 where
  pub interruption :
      get q "interrupted_repair" ≡ obj (interruption_of (get (obj fs) "candidate_sha") (nat n))
  pub brief : get q "repair_brief" ≡ next_brief (obj fs) n
  pub used : get q "repair_attempts_used" ≡ nat n
  pub candidate : get q "candidate_sha" ≡ get (obj fs) "candidate_sha"

-- The fields of an interruption.
interruption_fields :
    (c : Json) (n : ℕ)
    → let i = obj (interruption_of c (nat n)) in
      (get i "schema_version" ≡ nat 1)
      × (get i "status" ≡ str "interrupted")
      × (get i "candidate_sha" ≡ c)
      × (get i "repair_attempt" ≡ nat n)
unfolding interruption_of get lookup
interruption_fields c n = (refl, refl, refl, refl)

next_is_dict : (fs : Fields) (n : ℕ) → is_dict (next_brief (obj fs) n) ≡ true
unfolding next_brief
next_is_dict fs n = ground arith

-- The continuation that the resume asks of the next brief.
next_continues :
    (fs : Fields) (n : ℕ)
    → BriefParts (obj fs)
    → between_1_and_4 (pos n) ≡ true
    → (if eq (nat n) (nat 4)
        then eq (next_brief (obj fs) n) (obj end)
        else eq (get (next_brief (obj fs) n) "candidate_sha") (get (obj fs) "candidate_sha")
          && eq (get (next_brief (obj fs) n) "repair_attempt") (nat (suc n)))
      ≡ true
unfolding next_brief
next_continues fs n parts small = elim (Bool-cases (ltb n 4)) [
  | inl more ↦
      rw (more, before_last n more)
        (simp get-put
          (rw (eq_text is_sha (get (obj fs) "candidate_sha") parts.sha) (int_self (suc n))))
  | inr last ↦ rw (last, at_last n last small) empty_self
]

one_self : eq (nat 1) (nat 1) ≡ true
one_self = int_self 1

not_exhausted : eq (str "interrupted") (str "exhausted") ≡ false
unfolding eq
not_exhausted = refl

-- In a projection that holds what the recovery recorded for a valid brief, the next resume takes
-- the interrupted repair for one to go on with, and not for one whose exhausted budget was
-- reported.
pub recovery_resumes :
    (q : Json) (fs : Fields) (n : ℕ)
    → valid_repair_brief (obj fs) ≡ true
    → get (obj fs) "repair_attempt" ≡ nat n
    → Recovered q fs n
    → (interrupted_repair_resume_ready q ≡ true) × (interrupted_repair_terminal q ≡ false)
unfolding interrupted_repair_resume_ready interrupted_repair_terminal
recovery_resumes q fs n v at r =
    let parts = brief_parts (obj fs) v in
    let c = get (obj fs) "candidate_sha" in
    let (version, status, sha, attempt) = interruption_fields c n in
    let small : between_1_and_4 (pos n) ≡ true = rw at at parts.slot in
    (
      rw
          (
            r.interruption,
            r.brief,
            r.used,
            r.candidate,
            version,
            status,
            sha,
            attempt,
            one_self,
            eq_str_refl "interrupted",
            eq_text is_sha c parts.sha,
            int_self n,
            small,
            next_is_dict fs n,
          )
          (next_continues fs n parts small),
      rw (r.interruption, version, status, one_self, not_exhausted) refl,
    )

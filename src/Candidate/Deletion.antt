-- ===== src/Candidate/Deletion.antt =====
-- The deletion of a merged Candidate's branch: `reconcile_candidate_branch_deletion` of
-- src/afk/candidate.py.
use afk_composable_pipeline.Common.{
  String, [], ◌∷◌, Bool, true, false, not, ◌&&◌, ◌||◌, is_empty, str_eq, if◌then◌else◌, ◌≡◌, arith,
}
use afk_composable_pipeline.Json.{Json, Fields, str, bool, or_null, get, str_and, dict}
use afk_composable_pipeline.Redaction.{TextRules}
use afk_composable_pipeline.Errors.{Result, ok, ◌>>=◌, ◌>>◌, guard, succeeded, passed_check}
use afk_composable_pipeline.Effects.{EffectFile, effect_if_present, confirm_effect}
use afk_composable_pipeline.Candidate.{Subject, conflict, candidate_subject}
use afk_composable_pipeline.Candidate.Merge.{
  inconclusive, delete_intended, require_effect_identity, require_effect_observation,
}

-- `_pinned_repository_checkout`, for what `Path.is_dir` answers
unfoldable pub pinned_repository_checkout : (String → Bool) → Json → Result (Unit {0})
pinned_repository_checkout is_dir identity =
    guard
      (str_and (λ root. not (is_empty root) && is_dir root)
        (get (get identity "start_request") "repository_root"))
      (inconclusive "pinned repository checkout is unavailable")

unfoldable pub delete_observed : Json → Subject → Fields
delete_observed identity subject = dict (
    ("repository", get identity "repository")
    ∷ ("branch", str subject.branch)
    ∷ ("deleted", bool true)
    ∷ [])

module _ (rules : TextRules) (identity : Json) where
  -- What follows the view of the remote branch, "" for none.
  unfoldable pub reconcile_deleted :
      Subject → Json → EffectFile → String → Result (EffectFile × Bool)
  reconcile_deleted subject delete_effect file remote_sha =
      guard (is_empty remote_sha || str_eq remote_sha subject.candidate_sha)
        (conflict "remote Candidate branch was replaced after merge")
      >> (require_effect_observation delete_effect (delete_observed identity subject)
          >> (if is_empty remote_sha
              then confirm_effect rules "remote-branch-delete" (delete_observed identity subject)
                  file
                >>= (λ confirmed. ok (confirmed.0, true))
              else ok (file, false)))

  -- The remote branch is what `_pinned_origin` and `_remote_sha` return.
  unfoldable pub reconcile_subject_deletion :
      Result String → EffectFile → Subject → Result (EffectFile × Bool)
  reconcile_subject_deletion remote file subject =
      effect_if_present "remote-branch-delete" file >>= (λ delete_effect.
        require_effect_identity delete_effect "remote-branch-delete"
          (delete_intended identity subject)
        >> (remote >>= reconcile_deleted subject (or_null delete_effect) file))

  -- `reconcile_candidate_branch_deletion`: the effect's file behind it and what it returns
  unfoldable pub reconcile_candidate_branch_deletion :
      (String → Bool) → Json → Result String → EffectFile → Result (EffectFile × Bool)
  reconcile_candidate_branch_deletion is_dir projection remote file =
      pinned_repository_checkout is_dir identity
      >> (candidate_subject projection >>= reconcile_subject_deletion remote file)

  -- The remote branch is gone and the effect confirmed, or the branch is at the Candidate still and
  -- the file is as it was.
  pub record IsReconciled (subject : Subject) (file : EffectFile) (remote_sha : String)
      (after : EffectFile × Bool) : Type 0 where
    pub is_reported : after.1 ≡ is_empty remote_sha
    pub is_ours : (is_empty remote_sha || str_eq remote_sha subject.candidate_sha) ≡ true
    pub waits : after.1 ≡ false → after.0 ≡ file
    pub confirms :
        after.1 ≡ true
        → (r : Json) × (confirm_effect rules "remote-branch-delete"
              (delete_observed identity subject)
              file
            ≡ ok (after.0, r))

  confirmed_deletion :
      (subject : Subject) (file : EffectFile) (gone : Bool) (after : EffectFile × Bool)
      → (if gone
          then confirm_effect rules "remote-branch-delete" (delete_observed identity subject) file
            >>= (λ confirmed. ok (confirmed.0, true))
          else ok (file, false))
        ≡ ok after
      → after.1 ≡ true
      → (r : Json) × (confirm_effect rules "remote-branch-delete"
            (delete_observed identity subject)
            file
          ≡ ok (after.0, r))
  confirmed_deletion subject file true after h done =
      let confirmed =
        succeeded
          (confirm_effect rules "remote-branch-delete" (delete_observed identity subject) file) h in
      (confirmed.0.1, ground (arith, confirmed.1, confirmed.2))
  confirmed_deletion subject file false after h done = ground arith

  reconcile_deleted-IsReconciled :
      (subject : Subject) (delete_effect : Json) (file : EffectFile) (remote_sha : String)
      (after : EffectFile × Bool)
      → reconcile_deleted subject delete_effect file remote_sha ≡ ok after
      → IsReconciled subject file remote_sha after
  unfolding reconcile_deleted
  reconcile_deleted-IsReconciled subject delete_effect file remote_sha after h =
      let ours =
        passed_check (is_empty remote_sha || str_eq remote_sha subject.candidate_sha) _ _ h in
      let seen =
        succeeded (require_effect_observation delete_effect (delete_observed identity subject))
          ours.1 in
      record {
        is_reported = ground (arith, seen.1);
        is_ours = ours.0;
        waits = ground (arith, seen.1);
        confirms = confirmed_deletion subject file (is_empty remote_sha) after seen.1;
      }

  -- Where the handler of the branch's deletion returns, it reports the branch as deleted exactly if
  -- it is gone from the remote, and then the effect is confirmed; otherwise the branch is at the
  -- Candidate still and the file of the effect is as it was.
  pub reconcile_candidate_branch_deletion-IsReconciled :
      (is_dir : String → Bool) (projection : Json) (remote : Result String) (file : EffectFile)
      (after : EffectFile × Bool)
      → reconcile_candidate_branch_deletion is_dir projection remote file ≡ ok after
      → (subject : Subject) × (remote_sha : String) × (candidate_subject projection ≡ ok subject)
        × (remote ≡ ok remote_sha)
        × IsReconciled subject file remote_sha after
  unfolding reconcile_candidate_branch_deletion reconcile_subject_deletion
  reconcile_candidate_branch_deletion-IsReconciled is_dir projection remote file after h =
      let checkout = succeeded (pinned_repository_checkout is_dir identity) h in
      let subject = succeeded (candidate_subject projection) checkout.1 in
      let delete_effect = succeeded (effect_if_present "remote-branch-delete" file) subject.1 in
      let same =
        succeeded
          (require_effect_identity delete_effect.0 "remote-branch-delete"
            (delete_intended identity subject.0))
          delete_effect.1 in
      let shown = succeeded remote same.1 in
      (
        subject.0,
        shown.0,
        subject.2,
        shown.2,
        reconcile_deleted-IsReconciled subject.0 (or_null delete_effect.0) file shown.0 after
            shown.1,
      )

-- ===== src/Candidate/Merge/Authorized.antt =====
-- What stands when `merge_candidate_pr` of src/afk/candidate.py sends the merge command.
use afk_composable_pipeline.Common.{Option, Bool, true, false, ◌≡◌, refl, ◌∙◌, arith}
use afk_composable_pipeline.Json.{Json, Fields, str, or_null, get, eq}
use afk_composable_pipeline.Redaction.{TextRules}
use afk_composable_pipeline.Errors.{Failure, ok}
use afk_composable_pipeline.Effects.{EffectFile, prepare_effect}
use afk_composable_pipeline.Candidate.{Subject, subject_of}
use afk_composable_pipeline.Candidate.Merge.{MergeFiles, merge_intended, delete_intended}
use afk_composable_pipeline.Candidate.Merge.Command.{
  MergeWorld, MergeRun, stopped, may_merge, reconciled, reconcile_merged, command_merge,
  merge_prepared, prepare_merge, merge_open, merge_viewed, merge_candidate_pr,
}
use afk_composable_pipeline.Candidate.Merge.Steps.{after_case, if_case}
use afk_composable_pipeline.Candidate.Merge.Mergeable.{IsMergeable, mergeable}

module _ (rules : TextRules) (world : MergeWorld) (identity projection : Json) where
  -- The pull request was mergeable, and both effects had been prepared.
  pub record IsAuthorized (files : MergeFiles) (run : MergeRun) : Type 0 where
    pub subject : Subject
    pub found : subject_of projection ≡ ok subject
    pub is_mergeable : IsMergeable world identity subject
    pub merge_prepared : EffectFile × Json
    pub merge_is_prepared :
        prepare_effect rules "pr-squash-merge" "pr-squash-merge"
          (merge_intended identity subject)
          files.merge_file
        ≡ ok merge_prepared
    pub delete_prepared : EffectFile × Json
    pub delete_is_prepared :
        prepare_effect rules "remote-branch-delete" "remote-branch-delete"
          (delete_intended identity subject)
          files.delete_file
        ≡ ok delete_prepared
    pub deletion_waits : run.files.delete_file ≡ delete_prepared.0

  unfoldable Commands : MergeFiles → MergeRun → Type 0
  Commands files run = run.commanded ≡ true → IsAuthorized files run

  unfoldable KeepsDelete : MergeFiles → MergeRun → Type 0
  KeepsDelete files run = run.files.delete_file ≡ files.delete_file

  stopped-KeepsDelete :
      (files : MergeFiles) (commanded : Bool) (failure : Failure)
      → KeepsDelete files (stopped files commanded failure)
  unfolding KeepsDelete
  stopped-KeepsDelete files commanded failure = refl

  kept_delete :
      (files : MergeFiles) (commanded : Bool) (file : EffectFile) (observed : Fields)
      → KeepsDelete files (record {
        files = record files { merge_file = file };
        commanded = commanded;
        returned = ok observed;
      })
  unfolding KeepsDelete
  kept_delete files commanded file observed = refl

  reconciled-KeepsDelete :
      (commanded : Bool) (subject : Subject) (pr merge_effect : Json) (files : MergeFiles)
      → KeepsDelete files
          (reconciled rules world identity projection commanded subject pr merge_effect files)
  unfolding reconciled
  reconciled-KeepsDelete commanded subject pr merge_effect files =
      after_case (KeepsDelete files) files commanded _ _ (stopped-KeepsDelete files commanded)
        (λ done h. kept_delete files commanded done.0 done.1)

  command_merge-KeepsDelete :
      (subject : Subject) (files : MergeFiles)
      → KeepsDelete files (command_merge rules world identity projection subject files)
  unfolding command_merge
  command_merge-KeepsDelete subject files =
      after_case (KeepsDelete files) files true _ _ (stopped-KeepsDelete files true) (λ pr h.
        after_case (KeepsDelete files) files true _ _ (stopped-KeepsDelete files true)
          (λ merge_effect k. reconciled-KeepsDelete true subject pr merge_effect files))

  unfoldable IsSilent : MergeRun → Type 0
  IsSilent run = run.commanded ≡ false

  stopped-IsSilent :
      (files : MergeFiles) (failure : Failure) → IsSilent (stopped files false failure)
  unfolding IsSilent
  stopped-IsSilent files failure = refl

  finished-IsSilent :
      (files : MergeFiles) (observed : Fields)
      → IsSilent (record { files = files; commanded = false; returned = ok observed })
  unfolding IsSilent
  finished-IsSilent files observed = refl

  reconciled-IsSilent :
      (subject : Subject) (pr merge_effect : Json) (files : MergeFiles)
      → IsSilent (reconciled rules world identity projection false subject pr merge_effect files)
  unfolding reconciled
  reconciled-IsSilent subject pr merge_effect files =
      after_case IsSilent files false _ _ (stopped-IsSilent files)
        (λ done k. finished-IsSilent (record files { merge_file = done.0 }) done.1)

  reconcile_merged-IsSilent :
      (subject : Subject) (pr : Json) (m d : Option Json) (files : MergeFiles)
      → IsSilent (reconcile_merged rules world identity projection subject pr m d files)
  unfolding reconcile_merged
  reconcile_merged-IsSilent subject pr m d files =
      after_case IsSilent files false _ _ (stopped-IsSilent files)
        (λ u h. reconciled-IsSilent subject pr (or_null m) files)

  silent-Commands : (files : MergeFiles) (run : MergeRun) → IsSilent run → Commands files run
  unfolding IsSilent Commands
  silent-Commands files run h c = ground (arith, h, c)

  stopped-Commands :
      (files before : MergeFiles) (failure : Failure)
      → Commands files (stopped before false failure)
  stopped-Commands files before failure = silent-Commands files _ (stopped-IsSilent before failure)

  prepared-Commands :
      (subject : Subject) (files before : MergeFiles) (m d : EffectFile × Json)
      → subject_of projection ≡ ok subject
      → prepare_effect rules "pr-squash-merge" "pr-squash-merge"
          (merge_intended identity subject)
          files.merge_file
        ≡ ok m
      → prepare_effect rules "remote-branch-delete" "remote-branch-delete"
          (delete_intended identity subject)
          files.delete_file
        ≡ ok d
      → before.delete_file ≡ d.0
      → may_merge rules world identity projection subject ≡ ok tt
      → Commands files (command_merge rules world identity projection subject before)
  unfolding Commands KeepsDelete
  prepared-Commands subject files before m d found p q same h c = record {
    subject = subject;
    found = found;
    is_mergeable = mergeable rules world identity projection subject h;
    merge_prepared = m;
    merge_is_prepared = p;
    delete_prepared = d;
    delete_is_prepared = q;
    deletion_waits = command_merge-KeepsDelete subject before ∙ same;
  }

  prepare_merge-Commands :
      (subject : Subject) (files : MergeFiles)
      → subject_of projection ≡ ok subject
      → Commands files (prepare_merge rules world identity projection subject files)
  unfolding prepare_merge merge_prepared
  prepare_merge-Commands subject files found =
      after_case (Commands files) files false _ _ (stopped-Commands files _) (λ m p.
        after_case (Commands files) _ false _ _ (stopped-Commands files _) (λ d q.
          after_case (Commands files) _ false _ _ (stopped-Commands files _)
            (λ u h. prepared-Commands subject files _ m d found p q refl h)))

  merge_open-Commands :
      (subject : Subject) (pr : Json) (m d : Option Json) (files : MergeFiles)
      → subject_of projection ≡ ok subject
      → Commands files (merge_open rules world identity projection subject pr m d files)
  unfolding merge_open
  merge_open-Commands subject pr m d files found =
      after_case (Commands files) files false _ _ (stopped-Commands files _)
        (λ u h. prepare_merge-Commands subject files found)

  merge_viewed-Commands :
      (subject : Subject) (pr : Json) (m d : Option Json) (files : MergeFiles)
      → subject_of projection ≡ ok subject
      → Commands files (merge_viewed rules world identity projection subject pr m d files)
  unfolding merge_viewed
  merge_viewed-Commands subject pr m d files found =
      if_case (Commands files) (eq (get pr "state") (str "MERGED"))
        (reconcile_merged rules world identity projection subject pr m d files)
        (merge_open rules world identity projection subject pr m d files)
        (λ merged. silent-Commands files _ (reconcile_merged-IsSilent subject pr m d files))
        (λ open_now. merge_open-Commands subject pr m d files found)

  -- Where the handler of the merge sends the merge command, the last observations before it showed
  -- the Candidate as the clean head of the worktree, of its remote branch and of its open pull
  -- request, which is no draft and was the same in two views, no merge queue and no automatic
  -- merge, and twice the pinned base as the head of the base branch; both effects had been prepared
  -- for that Candidate, and the effect of the branch's deletion is left as it was prepared.
  pub merge_candidate_pr-commanded :
      (files : MergeFiles)
      → (merge_candidate_pr rules world identity projection files).commanded ≡ true
      → IsAuthorized files (merge_candidate_pr rules world identity projection files)
  unfolding merge_candidate_pr Commands
  merge_candidate_pr-commanded files =
      let stops = stopped-Commands files files in
      after_case (Commands files) files false _ _ stops (λ subject found.
        after_case (Commands files) files false _ _ stops (λ pr seen.
          after_case (Commands files) files false _ _ stops (λ m p.
            after_case (Commands files) files false _ _ stops
              (λ d q. merge_viewed-Commands subject pr m d files found))))

-- ===== src/Candidate/Merge/Squash.antt =====
-- What stands when `merge_candidate_pr` of src/afk/candidate.py returns.
use afk_composable_pipeline.Common.{String, Option, Bool, true, false, ◌&&◌, ◌≡◌, refl, arith}
use afk_composable_pipeline.Json.{
  Json, Fields, null, bool, int, str, arr, obj, nil, cons, get, eq, is_list, or_null,
}
use afk_composable_pipeline.Json.Laws.{eq-str}
use afk_composable_pipeline.Redaction.{TextRules}
use afk_composable_pipeline.Resume.Retry.{items}
use afk_composable_pipeline.Errors.{Failure, Result, ok, succeeded, passed_check}
use afk_composable_pipeline.Effects.{EffectFile, confirm_effect}
use afk_composable_pipeline.Candidate.{Subject, subject_of}
use afk_composable_pipeline.Candidate.Merge.{
  MergeFiles, only_parent, squash_agrees, verify_squash_commit, merge_commit_of, merged_facts_agree,
  merge_observation, reconcile_candidate_merge, require_effect_observation,
}
use afk_composable_pipeline.Candidate.Merge.Command.{
  MergeWorld, MergeRun, stopped, reconciled, reconcile_merged, command_merge, merge_prepared,
  prepare_merge, merge_open, merge_viewed, merge_candidate_pr,
}
use afk_composable_pipeline.Candidate.Merge.Steps.{after_case, if_case}
use afk_composable_pipeline.Candidate.Merge.Mergeable.{passed}

-- The merge commit has the tree of the Candidate's commit, and one parent, which is the base.
pub record IsSquashCommit (commits : String → Result Json) (base_sha : Json)
    (candidate_sha merge_commit : String) : Type 0 where
  pub candidate : Json
  pub candidate_seen : commits candidate_sha ≡ ok candidate
  pub merged : Json
  pub merged_seen : commits merge_commit ≡ ok merged
  pub is_merged : get merged "sha" ≡ str merge_commit
  pub same_tree : eq (get (get merged "tree") "sha") (get (get candidate "tree") "sha") ≡ true
  pub parent : Json
  pub one_parent : get merged "parents" ≡ arr (cons parent nil)
  pub parent_is_base : eq (get parent "sha") base_sha ≡ true

parent_of :
    (base_sha parents : Json)
    → (is_list parents && only_parent base_sha (items parents)) ≡ true
    → (parent : Json) × (parents ≡ arr (cons parent nil)) × (eq (get parent "sha") base_sha ≡ true)
unfolding only_parent
parent_of base_sha (arr nil) h = ground arith
parent_of base_sha (arr (cons x nil)) h = (x, refl, ground arith)
parent_of base_sha (arr (cons x (cons y ys))) h = ground arith
parent_of base_sha null h = ground arith
parent_of base_sha (bool b) h = ground arith
parent_of base_sha (int z) h = ground arith
parent_of base_sha (str s) h = ground arith
parent_of base_sha (obj fs) h = ground arith

squash_facts :
    (base_sha : Json) (candidate_sha merge_commit : String) (candidate merged : Json)
    → squash_agrees base_sha candidate_sha merge_commit candidate merged ≡ true
    → (get merged "sha" ≡ str merge_commit)
      × (eq (get (get merged "tree") "sha") (get (get candidate "tree") "sha") ≡ true)
      × ((is_list (get merged "parents") && only_parent base_sha (items (get merged "parents")))
          ≡ true)
unfolding squash_agrees
squash_facts base_sha candidate_sha merge_commit candidate merged h =
    (eq-str (get merged "sha") merge_commit (ground arith), ground arith, ground arith)

squash_commit :
    (commits : String → Result Json) (base_sha : Json) (candidate_sha merge_commit : String)
    {u : Unit {0}}
    → verify_squash_commit commits base_sha candidate_sha merge_commit ≡ ok u
    → IsSquashCommit commits base_sha candidate_sha merge_commit
unfolding verify_squash_commit
squash_commit commits base_sha candidate_sha merge_commit h =
    let shown = succeeded (commits candidate_sha) h in
    let found = succeeded (commits merge_commit) shown.1 in
    let facts =
      squash_facts base_sha candidate_sha merge_commit shown.0 found.0
        (passed (squash_agrees base_sha candidate_sha merge_commit shown.0 found.0) _ found.1) in
    let parent = parent_of base_sha (get found.0 "parents") facts.2 in
    record {
      candidate = shown.0;
      candidate_seen = shown.2;
      merged = found.0;
      merged_seen = found.2;
      is_merged = facts.0;
      same_tree = facts.1;
      parent = parent.0;
      one_parent = parent.1;
      parent_is_base = parent.2;
    }

module _ (rules : TextRules) (world : MergeWorld) (identity projection : Json) where
  -- The merge was observed and verified, and its effect is confirmed with that observation.
  pub record IsMerged (observed : Fields) (run : MergeRun) : Type 0 where
    pub subject : Subject
    pub found : subject_of projection ≡ ok subject
    pub pr : Json
    pub facts : merged_facts_agree identity projection pr ≡ true
    pub is_observed : observed ≡ merge_observation pr
    pub is_squash :
        IsSquashCommit world.commits
          (get identity "base_sha")
          subject.candidate_sha
          (merge_commit_of pr)
    pub before : EffectFile
    pub confirmed_effect : Json
    pub is_confirmed :
        confirm_effect rules "pr-squash-merge" (merge_observation pr) before
        ≡ ok (run.files.merge_file, confirmed_effect)

  unfoldable Merges : Fields → MergeRun → Type 0
  Merges observed run = run.returned ≡ ok observed → IsMerged observed run

  stopped-Merges :
      (observed : Fields) (files : MergeFiles) (commanded : Bool) (failure : Failure)
      → Merges observed (stopped files commanded failure)
  unfolding Merges
  stopped-Merges observed files commanded failure h = ground arith

  Merges-reconciled :
      (observed : Fields) (commanded : Bool) (subject : Subject) (pr merge_effect : Json)
      (files : MergeFiles) (done : EffectFile × Fields)
      → subject_of projection ≡ ok subject
      → reconcile_candidate_merge rules world.commits identity projection subject pr merge_effect
          files.merge_file
        ≡ ok done
      → Merges observed (record {
        files = record files { merge_file = done.0 };
        commanded = commanded;
        returned = ok done.1;
      })
  unfolding Merges reconcile_candidate_merge
  Merges-reconciled observed commanded subject pr merge_effect files done found h q =
      let facts = passed_check (merged_facts_agree identity projection pr) _ _ h in
      let squash =
        succeeded
          (verify_squash_commit world.commits (get identity "base_sha") subject.candidate_sha
            (merge_commit_of pr))
          facts.1 in
      let seen =
        succeeded (require_effect_observation merge_effect (merge_observation pr)) squash.1 in
      let confirmed =
        succeeded (confirm_effect rules "pr-squash-merge" (merge_observation pr) files.merge_file)
          seen.1 in
      record {
        subject = subject;
        found = found;
        pr = pr;
        facts = facts.0;
        is_observed = ground (arith, confirmed.1, q);
        is_squash =
            squash_commit world.commits (get identity "base_sha") subject.candidate_sha
              (merge_commit_of pr) squash.2;
        before = files.merge_file;
        confirmed_effect = confirmed.0.1;
        is_confirmed = ground (arith, confirmed.1, confirmed.2);
      }

  reconciled-Merges :
      (observed : Fields) (commanded : Bool) (subject : Subject) (pr merge_effect : Json)
      (files : MergeFiles)
      → subject_of projection ≡ ok subject
      → Merges observed
          (reconciled rules world identity projection commanded subject pr merge_effect files)
  unfolding reconciled
  reconciled-Merges observed commanded subject pr merge_effect files found =
      after_case (Merges observed) files commanded _ _ (stopped-Merges observed files commanded)
        (λ done h. Merges-reconciled observed commanded subject pr merge_effect files done found h)

  command_merge-Merges :
      (observed : Fields) (subject : Subject) (files : MergeFiles)
      → subject_of projection ≡ ok subject
      → Merges observed (command_merge rules world identity projection subject files)
  unfolding command_merge
  command_merge-Merges observed subject files found =
      after_case (Merges observed) files true _ _ (stopped-Merges observed files true) (λ pr h.
        after_case (Merges observed) files true _ _ (stopped-Merges observed files true)
          (λ merge_effect k. reconciled-Merges observed true subject pr merge_effect files found))

  prepare_merge-Merges :
      (observed : Fields) (subject : Subject) (files : MergeFiles)
      → subject_of projection ≡ ok subject
      → Merges observed (prepare_merge rules world identity projection subject files)
  unfolding prepare_merge merge_prepared
  prepare_merge-Merges observed subject files found =
      after_case (Merges observed) files false _ _ (stopped-Merges observed files false) (λ m p.
        after_case (Merges observed) _ false _ _ (stopped-Merges observed _ false) (λ d q.
          after_case (Merges observed) _ false _ _ (stopped-Merges observed _ false)
            (λ u h. command_merge-Merges observed subject _ found)))

  reconcile_merged-Merges :
      (observed : Fields) (subject : Subject) (pr : Json) (m d : Option Json) (files : MergeFiles)
      → subject_of projection ≡ ok subject
      → Merges observed (reconcile_merged rules world identity projection subject pr m d files)
  unfolding reconcile_merged
  reconcile_merged-Merges observed subject pr m d files found =
      after_case (Merges observed) files false _ _ (stopped-Merges observed files false)
        (λ u h. reconciled-Merges observed false subject pr (or_null m) files found)

  merge_open-Merges :
      (observed : Fields) (subject : Subject) (pr : Json) (m d : Option Json) (files : MergeFiles)
      → subject_of projection ≡ ok subject
      → Merges observed (merge_open rules world identity projection subject pr m d files)
  unfolding merge_open
  merge_open-Merges observed subject pr m d files found =
      after_case (Merges observed) files false _ _ (stopped-Merges observed files false)
        (λ u h. prepare_merge-Merges observed subject files found)

  merge_viewed-Merges :
      (observed : Fields) (subject : Subject) (pr : Json) (m d : Option Json) (files : MergeFiles)
      → subject_of projection ≡ ok subject
      → Merges observed (merge_viewed rules world identity projection subject pr m d files)
  unfolding merge_viewed
  merge_viewed-Merges observed subject pr m d files found =
      if_case (Merges observed) (eq (get pr "state") (str "MERGED"))
        (reconcile_merged rules world identity projection subject pr m d files)
        (merge_open rules world identity projection subject pr m d files)
        (λ merged. reconcile_merged-Merges observed subject pr m d files found)
        (λ open_now. merge_open-Merges observed subject pr m d files found)

  -- Where the handler of the merge returns an observation, with a merge command or for a pull
  -- request that was merged already, it is the one of a merged pull request that fits the Run, the
  -- merge commit has the tree of the Candidate's commit and the pinned base as its only parent, and
  -- the effect of the merge is confirmed with that observation.
  pub merge_candidate_pr-returned :
      (files : MergeFiles) (observed : Fields)
      → (merge_candidate_pr rules world identity projection files).returned ≡ ok observed
      → IsMerged observed (merge_candidate_pr rules world identity projection files)
  unfolding merge_candidate_pr Merges
  merge_candidate_pr-returned files observed =
      let stops = stopped-Merges observed files false in
      after_case (Merges observed) files false _ _ stops (λ subject found.
        after_case (Merges observed) files false _ _ stops (λ pr seen.
          after_case (Merges observed) files false _ _ stops (λ m p.
            after_case (Merges observed) files false _ _ stops
              (λ d q. merge_viewed-Merges observed subject pr m d files found))))

-- ===== src/Candidate/Merge/Command.antt =====
-- `merge_candidate_pr` of src/afk/candidate.py. What git and GitHub show is an argument, one
-- observation for each call, and so is whether the merge command succeeded.
use afk_composable_pipeline.Common.{
  String, List, [], ◌∷◌, Option, some, Bool, true, false, not, ◌&&◌, ◌||◌, if◌then◌else◌, all,
}
use afk_composable_pipeline.Json.{
  Json, Items, Fields, str, nil, cons, get, has, eq, null, or_null, is_dict, is_str, truthy,
}
use afk_composable_pipeline.Redaction.{TextRules}
use afk_composable_pipeline.Errors.{Failure, Result, ok, err, ◌>>=◌, ◌>>◌, guard}
use afk_composable_pipeline.Effects.{effect, effect_if_present, prepare_effect}
use afk_composable_pipeline.Candidate.{
  Subject, Heads, conflict, subject_of, verify_published, ready_pr_observation,
}
use afk_composable_pipeline.Candidate.Merge.{
  MergeFiles, inconclusive, merge_intended, delete_intended, require_effect_identity,
  require_open_effect, reconcile_candidate_merge,
}

-- What the calls of one run of the handler return, in their order. Heads stand for `_pinned_origin`
-- and the four calls of git that follow it. The merge command raises, or exits with 0 or not.
pub record MergeWorld : Type 0 where
  pub viewed : Result Json
  pub heads : Result Heads
  pub viewed_prepared : Result Json
  pub heads_prepared : Result Heads
  pub viewed_again : Result Json
  pub branch_rules : Result Items
  pub automation : Result Json
  pub target_sha : Result String
  pub merge_command : Result Bool
  pub viewed_merged : Result Json
  pub commits : String → Result Json

unfoldable pub rules_readable : Items → Bool
rules_readable nil = true
rules_readable (cons r rs) = is_dict r && is_str (get r "type") && rules_readable rs

unfoldable pub needs_merge_queue : Items → Bool
needs_merge_queue nil = false
needs_merge_queue (cons r rs) = eq (get r "type") (str "merge_queue") || needs_merge_queue rs

abbrev pub none_or_dict : Json → Bool
none_or_dict v = is_dict v || eq v null

-- `value["data"]["repository"]["pullRequest"]`; where a key or a dict is missing this is no dict, and
-- the answer is malformed both ways.
abbrev pub automated_pr : Json → Json
automated_pr value = get (get (get value "data") "repository") "pullRequest"

unfoldable pub automation_readable : Json → Bool
automation_readable value =
    is_dict value
    && not (truthy (get value "errors"))
    && is_dict (automated_pr value)
    && has (automated_pr value) "autoMergeRequest"
    && has (automated_pr value) "mergeQueueEntry"
    && none_or_dict (get (automated_pr value) "autoMergeRequest")
    && none_or_dict (get (automated_pr value) "mergeQueueEntry")

abbrev pub compared_fields : List String
compared_fields =
    "number" ∷ "url" ∷ "state" ∷ "isDraft" ∷ "headRefOid" ∷ "headRefName" ∷ "baseRefName" ∷ []

unfoldable pub is_automated : Json → Bool
is_automated pr =
    not (eq (get pr "autoMergeRequest") null) || not (eq (get pr "mergeQueueEntry") null)

-- The second half of `_require_direct_merge_topology`
unfoldable pub require_no_automation : Json → Json → Result (Unit {0})
require_no_automation pr value =
    guard (automation_readable value)
      (inconclusive "Candidate PR automation observation was malformed")
    >> (guard (all (λ k. eq (get (automated_pr value) k) (get pr k)) compared_fields)
          (conflict "Candidate PR changed during automation checks")
        >> guard (not (is_automated (automated_pr value)))
            (conflict "Candidate PR has an auto-merge or merge queue request"))

unfoldable pub require_no_queue : Items → Result (Unit {0})
require_no_queue rules =
    guard (rules_readable rules) (inconclusive "base branch merge rules observation was malformed")
    >> guard (not (needs_merge_queue rules)) (conflict "base branch requires a merge queue")

-- `_require_direct_merge_topology`, for the rules and the answer that GitHub returned
unfoldable pub require_direct_merge_topology : Result Items → Result Json → Json → Result (Unit {0})
require_direct_merge_topology branch_rules automation pr =
    branch_rules >>= require_no_queue >> (automation >>= require_no_automation pr)

-- What a run of the handler leaves: the files of the effects, whether it sent the merge command,
-- and what it returns.
pub record MergeRun : Type 0 where
  pub files : MergeFiles
  pub commanded : Bool
  pub returned : Result Fields

abbrev pub stopped : MergeFiles → Bool → Failure → MergeRun
stopped files commanded failure = record {
  files = files;
  commanded = commanded;
  returned = err failure;
}

-- A call of the handler and what follows it; a failure leaves the files as they are.
unfoldable pub after {ℓ} : {A : Type ℓ} → MergeFiles → Bool → Result A → (A → MergeRun) → MergeRun
after files commanded (err failure) next = stopped files commanded failure
after files commanded (ok value) next = next value

-- `completed.returncode != 0`, for whether it is 0
abbrev pub merge_exited : Bool → Result (Unit {0})
merge_exited zero_code = guard zero_code (inconclusive "Candidate PR squash merge failed")

module _ (rules : TextRules) (world : MergeWorld) (identity projection : Json) where
  unfoldable pub matches_ready : Subject → Json → Bool
  matches_ready subject pr =
      eq (get projection "pr_ready") (ready_pr_observation pr subject.candidate_sha)

  -- The checks of an OPEN pull request before the effects are prepared.
  unfoldable pub may_prepare : Subject → Json → Option Json → Option Json → Result (Unit {0})
  may_prepare subject pr merge_effect delete_effect =
      require_open_effect merge_effect "pr-squash-merge" (merge_intended identity subject)
      >> (require_open_effect delete_effect "remote-branch-delete"
            (delete_intended identity subject)
          >> (world.heads >>= (λ heads.
              verify_published identity subject heads pr (some false)
              >> guard (matches_ready subject pr)
                  (conflict "ready PR facts contradict the reviewed Run"))))

  unfoldable pub still_based : String → Result (Unit {0})
  still_based target_sha =
      guard (eq (str target_sha) (get identity "base_sha"))
        (conflict "target branch no longer equals the pinned base")

  unfoldable pub still_direct : Json → Json → Result (Unit {0})
  still_direct pr again =
      guard (eq again pr) (conflict "ready PR changed during final merge checks")
      >> (require_direct_merge_topology world.branch_rules world.automation pr
          >> (world.target_sha >>= still_based))

  unfoldable pub still_ready : Subject → Json → Heads → Result (Unit {0})
  still_ready subject pr heads =
      verify_published identity subject heads pr (some false)
      >> (guard (matches_ready subject pr) (conflict "ready PR changed during final merge checks")
          >> (world.viewed_again >>= still_direct pr))

  -- The checks between the preparation of the effects and the merge command.
  unfoldable pub may_merge : Subject → Result (Unit {0})
  may_merge subject =
      world.viewed_prepared >>= (λ pr. world.heads_prepared >>= still_ready subject pr)

  -- What follows the merge command, or the view of a pull request that is merged already.
  unfoldable pub reconciled : Bool → Subject → Json → Json → MergeFiles → MergeRun
  reconciled commanded subject pr merge_effect files =
      after files commanded
        (reconcile_candidate_merge rules world.commits identity projection subject pr merge_effect
          files.merge_file)
        (λ done. record {
          files = record files { merge_file = done.0 };
          commanded = commanded;
          returned = ok done.1;
        })

  unfoldable pub reconcile_merged :
      Subject → Json → Option Json → Option Json → MergeFiles → MergeRun
  reconcile_merged subject pr merge_effect delete_effect files =
      after files false
        (require_effect_identity merge_effect "pr-squash-merge" (merge_intended identity subject)
          >> require_effect_identity delete_effect "remote-branch-delete"
              (delete_intended identity subject))
        (λ _. reconciled false subject pr (or_null merge_effect) files)

  unfoldable pub command_merge : Subject → MergeFiles → MergeRun
  command_merge subject files =
      after files true (world.merge_command >>= merge_exited >> world.viewed_merged) (λ pr.
        after files true (effect "pr-squash-merge" files.merge_file)
          (λ merge_effect. reconciled true subject pr merge_effect files))

  unfoldable pub merge_prepared : Subject → MergeFiles → MergeRun
  merge_prepared subject files =
      after files false (may_merge subject) (λ _. command_merge subject files)

  unfoldable pub prepare_merge : Subject → MergeFiles → MergeRun
  prepare_merge subject files =
      after files false
        (prepare_effect rules "pr-squash-merge" "pr-squash-merge" (merge_intended identity subject)
          files.merge_file)
        (λ merge_prepared_file.
          let files = record files { merge_file = merge_prepared_file.0 } in
          after files false
            (prepare_effect rules "remote-branch-delete" "remote-branch-delete"
              (delete_intended identity subject) files.delete_file)
            (λ delete_prepared_file.
              merge_prepared subject (record files { delete_file = delete_prepared_file.0 })))

  unfoldable pub merge_open : Subject → Json → Option Json → Option Json → MergeFiles → MergeRun
  merge_open subject pr merge_effect delete_effect files =
      after files false (may_prepare subject pr merge_effect delete_effect)
        (λ _. prepare_merge subject files)

  unfoldable pub merge_viewed : Subject → Json → Option Json → Option Json → MergeFiles → MergeRun
  merge_viewed subject pr merge_effect delete_effect files =
      if eq (get pr "state") (str "MERGED")
      then reconcile_merged subject pr merge_effect delete_effect files
      else merge_open subject pr merge_effect delete_effect files

  -- `merge_candidate_pr`
  unfoldable pub merge_candidate_pr : MergeFiles → MergeRun
  merge_candidate_pr files = after files false (subject_of projection) (λ subject.
      after files false world.viewed (λ pr.
        after files false (effect_if_present "pr-squash-merge" files.merge_file) (λ merge_effect.
          after files false (effect_if_present "remote-branch-delete" files.delete_file)
            (λ delete_effect. merge_viewed subject pr merge_effect delete_effect files))))

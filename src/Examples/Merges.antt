-- ===== src/Examples/Merges.antt =====
-- A squash merge of a reviewed Candidate.
use afk_composable_pipeline.Common.{String, List, [], ◌∷◌, Bool, true, false, ◌≡◌, refl}
use afk_composable_pipeline.Json.{
  Json, Items, Fields, null, bool, str, arr, obj, nil, cons, end, nat, dict, get, eq, lookup,
}
use afk_composable_pipeline.Errors.{ok}
use afk_composable_pipeline.Redaction.{redact}
use afk_composable_pipeline.Examples.Histories.{toy_rules}
use afk_composable_pipeline.Effects.{EffectFile, absent, holding, new_record}
use afk_composable_pipeline.Candidate.{Heads, Subject, candidate_subject, ready_pr_observation}
use afk_composable_pipeline.Candidate.Deletion.{
  IsReconciled, reconcile_candidate_branch_deletion,
  reconcile_candidate_branch_deletion-IsReconciled,
}
use afk_composable_pipeline.Candidate.Merge.{MergeFiles, merge_observation}
use afk_composable_pipeline.Candidate.Merge.Command.{MergeWorld, merge_candidate_pr}
use afk_composable_pipeline.Candidate.Merge.Authorized.{IsAuthorized, merge_candidate_pr-commanded}
use afk_composable_pipeline.Candidate.Merge.Squash.{IsMerged, merge_candidate_pr-returned}

abbrev sha_a : String
sha_a = "aaaaaaaaaaaaaaaaaaaaaaaaaaaaaaaaaaaaaaaa"

abbrev sha_b : String
sha_b = "bbbbbbbbbbbbbbbbbbbbbbbbbbbbbbbbbbbbbbbb"

abbrev sha_c : String
sha_c = "cccccccccccccccccccccccccccccccccccccccc"

abbrev tree_sha : String
tree_sha = "dddddddddddddddddddddddddddddddddddddddd"

abbrev identity : Json
identity = obj (
    dict (
      ("repository", str "owner/name")
      ∷ ("base_branch", str "main")
      ∷ ("base_sha", str sha_b)
      ∷ []))

abbrev projection : Json
projection = obj (
    dict (
      ("worktree_path", str "/w")
      ∷ ("branch", str "afk/1")
      ∷ ("candidate_sha", str sha_a)
      ∷ ("pr_number", nat 7)
      ∷ ("pr_url", str "https://pr/7")
      ∷ (
        "pr_ready",
        obj (
            dict (
              ("number", nat 7)
              ∷ ("url", str "https://pr/7")
              ∷ ("candidate_sha", str sha_a)
              ∷ ("head", str "afk/1")
              ∷ ("base", str "main")
              ∷ ("draft", bool false)
              ∷ [])),
      )
      ∷ []))

abbrev pr_in : String → Json → Json
pr_in state merge_commit = obj (
    dict (
      ("number", nat 7)
      ∷ ("url", str "https://pr/7")
      ∷ ("state", str state)
      ∷ ("isDraft", bool false)
      ∷ ("headRefOid", str sha_a)
      ∷ ("headRefName", str "afk/1")
      ∷ ("baseRefName", str "main")
      ∷ ("mergeCommit", merge_commit)
      ∷ ("autoMergeRequest", null)
      ∷ ("mergeQueueEntry", null)
      ∷ []))

abbrev merged_pr : Json
merged_pr = pr_in "MERGED" (obj (dict (("oid", str sha_c) ∷ [])))

abbrev toy_heads : Heads
toy_heads = record { local_sha = sha_a; dirty = ""; remote_sha = sha_a; target_sha = sha_b }

-- The Candidate's commit, or the merge commit.
abbrev commit : String → Json
commit sha = obj (
    dict (
      ("sha", str sha)
      ∷ ("tree", obj (dict (("sha", str tree_sha) ∷ [])))
      ∷ ("parents", arr (cons (obj (dict (("sha", str sha_b) ∷ []))) nil))
      ∷ []))

abbrev world : MergeWorld
world = record {
  viewed = ok (pr_in "OPEN" null);
  heads = ok toy_heads;
  viewed_prepared = ok (pr_in "OPEN" null);
  heads_prepared = ok toy_heads;
  viewed_again = ok (pr_in "OPEN" null);
  branch_rules = ok (cons (obj (dict (("type", str "deletion") ∷ []))) nil);
  automation = ok (
      obj (
        dict (
          (
            "data",
            obj (dict (("repository", obj (dict (("pullRequest", pr_in "OPEN" null) ∷ []))) ∷ [])),
          )
          ∷ [])));
  target_sha = ok sha_b;
  merge_command = ok true;
  viewed_merged = ok merged_pr;
  commits = λ sha. ok (commit sha);
}

abbrev no_files : MergeFiles
no_files = record { merge_file = absent; delete_file = absent }

it_commands : (merge_candidate_pr toy_rules world identity projection no_files).commanded ≡ true
unfolding merge_candidate_pr afk_composable_pipeline.Candidate.Merge.Command.after
    afk_composable_pipeline.Candidate.subject_of afk_composable_pipeline.Candidate.candidate_subject
    afk_composable_pipeline.Candidate.field_of get afk_composable_pipeline.Effects.effect_if_present
    afk_composable_pipeline.Text.is_durable_id
    afk_composable_pipeline.Candidate.Merge.Command.merge_viewed eq
    afk_composable_pipeline.Candidate.Merge.Command.merge_open
    afk_composable_pipeline.Candidate.Merge.Command.may_prepare
    afk_composable_pipeline.Candidate.Merge.require_open_effect
    afk_composable_pipeline.Candidate.verify_published afk_composable_pipeline.Candidate.heads_agree
    afk_composable_pipeline.Candidate.pr_facts_agree
    afk_composable_pipeline.Candidate.Merge.Command.matches_ready ready_pr_observation
    afk_composable_pipeline.Candidate.Merge.Command.prepare_merge
    afk_composable_pipeline.Candidate.Merge.Command.automation_readable
    afk_composable_pipeline.Candidate.Merge.Command.command_merge
    afk_composable_pipeline.Candidate.Merge.Command.is_automated
    afk_composable_pipeline.Candidate.Merge.Command.may_merge
    afk_composable_pipeline.Candidate.Merge.Command.merge_prepared
    afk_composable_pipeline.Candidate.Merge.Command.needs_merge_queue
    afk_composable_pipeline.Candidate.Merge.Command.reconcile_merged
    afk_composable_pipeline.Candidate.Merge.Command.reconciled
    afk_composable_pipeline.Candidate.Merge.Command.require_direct_merge_topology
    afk_composable_pipeline.Candidate.Merge.Command.require_no_automation
    afk_composable_pipeline.Candidate.Merge.Command.require_no_queue
    afk_composable_pipeline.Candidate.Merge.Command.rules_readable
    afk_composable_pipeline.Candidate.Merge.Command.still_based
    afk_composable_pipeline.Candidate.Merge.Command.still_direct
    afk_composable_pipeline.Candidate.Merge.Command.still_ready
    afk_composable_pipeline.Candidate.Merge.delete_intended
    afk_composable_pipeline.Candidate.Merge.merge_intended merge_observation
    afk_composable_pipeline.Candidate.Merge.merged_facts_agree
    afk_composable_pipeline.Candidate.Merge.only_parent
    afk_composable_pipeline.Candidate.Merge.reconcile_candidate_merge
    afk_composable_pipeline.Candidate.Merge.require_effect_identity
    afk_composable_pipeline.Candidate.Merge.require_effect_observation
    afk_composable_pipeline.Candidate.Merge.squash_agrees
    afk_composable_pipeline.Candidate.Merge.verify_squash_commit
    afk_composable_pipeline.Common.all_chars afk_composable_pipeline.Common.cat
    afk_composable_pipeline.Common.characters afk_composable_pipeline.Common.is_blank
    afk_composable_pipeline.Common.is_space afk_composable_pipeline.Common.lstrip
    afk_composable_pipeline.Common.rstrip afk_composable_pipeline.Common.strip
    afk_composable_pipeline.Effects.confirm_effect afk_composable_pipeline.Effects.confirm_record
    afk_composable_pipeline.Effects.confirmed_record afk_composable_pipeline.Effects.effect
    afk_composable_pipeline.Effects.effect_keys afk_composable_pipeline.Effects.effect_record
    afk_composable_pipeline.Effects.prepare_effect afk_composable_pipeline.Effects.prepare_existing
    afk_composable_pipeline.Effects.status_keys afk_composable_pipeline.Effects.valid_effect
    afk_composable_pipeline.Json.has afk_composable_pipeline.Json.keys_are lookup
    afk_composable_pipeline.Json.merge afk_composable_pipeline.Json.put
    afk_composable_pipeline.Json.size afk_composable_pipeline.Json.truthy
    afk_composable_pipeline.Redaction.announces afk_composable_pipeline.Redaction.before_equals
    afk_composable_pipeline.Redaction.has_equals redact
    afk_composable_pipeline.Redaction.redact_argument afk_composable_pipeline.Text.is_alnum
    afk_composable_pipeline.Text.is_hex afk_composable_pipeline.Text.is_id_char
    afk_composable_pipeline.Text.is_sha
it_commands = refl

it_returns :
    (merge_candidate_pr toy_rules world identity projection no_files).returned
    ≡ ok (merge_observation merged_pr)
unfolding merge_candidate_pr afk_composable_pipeline.Candidate.Merge.Command.after
    afk_composable_pipeline.Candidate.subject_of afk_composable_pipeline.Candidate.candidate_subject
    afk_composable_pipeline.Candidate.field_of get afk_composable_pipeline.Effects.effect_if_present
    afk_composable_pipeline.Text.is_durable_id
    afk_composable_pipeline.Candidate.Merge.Command.merge_viewed eq
    afk_composable_pipeline.Candidate.Merge.Command.merge_open
    afk_composable_pipeline.Candidate.Merge.Command.may_prepare
    afk_composable_pipeline.Candidate.Merge.require_open_effect
    afk_composable_pipeline.Candidate.verify_published afk_composable_pipeline.Candidate.heads_agree
    afk_composable_pipeline.Candidate.pr_facts_agree
    afk_composable_pipeline.Candidate.Merge.Command.matches_ready ready_pr_observation
    afk_composable_pipeline.Candidate.Merge.Command.prepare_merge
    afk_composable_pipeline.Candidate.Merge.Command.automation_readable
    afk_composable_pipeline.Candidate.Merge.Command.command_merge
    afk_composable_pipeline.Candidate.Merge.Command.is_automated
    afk_composable_pipeline.Candidate.Merge.Command.may_merge
    afk_composable_pipeline.Candidate.Merge.Command.merge_prepared
    afk_composable_pipeline.Candidate.Merge.Command.needs_merge_queue
    afk_composable_pipeline.Candidate.Merge.Command.reconcile_merged
    afk_composable_pipeline.Candidate.Merge.Command.reconciled
    afk_composable_pipeline.Candidate.Merge.Command.require_direct_merge_topology
    afk_composable_pipeline.Candidate.Merge.Command.require_no_automation
    afk_composable_pipeline.Candidate.Merge.Command.require_no_queue
    afk_composable_pipeline.Candidate.Merge.Command.rules_readable
    afk_composable_pipeline.Candidate.Merge.Command.still_based
    afk_composable_pipeline.Candidate.Merge.Command.still_direct
    afk_composable_pipeline.Candidate.Merge.Command.still_ready
    afk_composable_pipeline.Candidate.Merge.delete_intended
    afk_composable_pipeline.Candidate.Merge.merge_intended merge_observation
    afk_composable_pipeline.Candidate.Merge.merged_facts_agree
    afk_composable_pipeline.Candidate.Merge.only_parent
    afk_composable_pipeline.Candidate.Merge.reconcile_candidate_merge
    afk_composable_pipeline.Candidate.Merge.require_effect_identity
    afk_composable_pipeline.Candidate.Merge.require_effect_observation
    afk_composable_pipeline.Candidate.Merge.squash_agrees
    afk_composable_pipeline.Candidate.Merge.verify_squash_commit
    afk_composable_pipeline.Common.all_chars afk_composable_pipeline.Common.cat
    afk_composable_pipeline.Common.characters afk_composable_pipeline.Common.is_blank
    afk_composable_pipeline.Common.is_space afk_composable_pipeline.Common.lstrip
    afk_composable_pipeline.Common.rstrip afk_composable_pipeline.Common.strip
    afk_composable_pipeline.Effects.confirm_effect afk_composable_pipeline.Effects.confirm_record
    afk_composable_pipeline.Effects.confirmed_record afk_composable_pipeline.Effects.effect
    afk_composable_pipeline.Effects.effect_keys afk_composable_pipeline.Effects.effect_record
    afk_composable_pipeline.Effects.prepare_effect afk_composable_pipeline.Effects.prepare_existing
    afk_composable_pipeline.Effects.status_keys afk_composable_pipeline.Effects.valid_effect
    afk_composable_pipeline.Json.has afk_composable_pipeline.Json.keys_are lookup
    afk_composable_pipeline.Json.merge afk_composable_pipeline.Json.put
    afk_composable_pipeline.Json.size afk_composable_pipeline.Json.truthy
    afk_composable_pipeline.Redaction.announces afk_composable_pipeline.Redaction.before_equals
    afk_composable_pipeline.Redaction.has_equals redact
    afk_composable_pipeline.Redaction.redact_argument afk_composable_pipeline.Text.is_alnum
    afk_composable_pipeline.Text.is_hex afk_composable_pipeline.Text.is_id_char
    afk_composable_pipeline.Text.is_sha
it_returns = refl

merge_candidate_pr-commanded_example :
    IsAuthorized toy_rules world identity projection no_files
      (merge_candidate_pr toy_rules world identity projection no_files)
merge_candidate_pr-commanded_example =
    merge_candidate_pr-commanded toy_rules world identity projection no_files it_commands

merge_candidate_pr-returned_example :
    IsMerged toy_rules world identity projection
      (merge_observation merged_pr)
      (merge_candidate_pr toy_rules world identity projection no_files)
merge_candidate_pr-returned_example =
    merge_candidate_pr-returned toy_rules world identity projection no_files
      (merge_observation merged_pr) it_returns

abbrev checkout_identity : Json
checkout_identity = obj (
    dict (
      ("repository", str "owner/name")
      ∷ ("base_branch", str "main")
      ∷ ("base_sha", str sha_b)
      ∷ ("start_request", obj (dict (("repository_root", str "/r") ∷ [])))
      ∷ []))

abbrev deletion_prepared : EffectFile
deletion_prepared = holding (
    new_record "remote-branch-delete" "remote-branch-delete" (
      dict (
        ("repository", str "owner/name")
        ∷ ("branch", str "afk/1")
        ∷ ("candidate_sha", str sha_a)
        ∷ [])))

it_waits :
    reconcile_candidate_branch_deletion toy_rules checkout_identity
      (λ root. true)
      projection
      (ok sha_a)
      deletion_prepared
    ≡ ok (deletion_prepared, false)
unfolding reconcile_candidate_branch_deletion
    afk_composable_pipeline.Candidate.Deletion.pinned_repository_checkout get candidate_subject
    afk_composable_pipeline.Candidate.field_of
    afk_composable_pipeline.Candidate.Deletion.reconcile_subject_deletion
    afk_composable_pipeline.Effects.effect_if_present afk_composable_pipeline.Text.is_durable_id
    afk_composable_pipeline.Effects.valid_effect afk_composable_pipeline.Json.keys_are
    afk_composable_pipeline.Effects.status_keys eq afk_composable_pipeline.Effects.effect_record
    afk_composable_pipeline.Effects.effect_keys afk_composable_pipeline.Common.is_blank
    afk_composable_pipeline.Candidate.Merge.require_effect_identity
    afk_composable_pipeline.Candidate.Merge.delete_intended
    afk_composable_pipeline.Candidate.Deletion.reconcile_deleted
    afk_composable_pipeline.Candidate.Deletion.delete_observed
    afk_composable_pipeline.Candidate.Merge.require_effect_observation
    afk_composable_pipeline.Common.all_chars afk_composable_pipeline.Common.cat
    afk_composable_pipeline.Common.characters afk_composable_pipeline.Common.is_space
    afk_composable_pipeline.Common.lstrip afk_composable_pipeline.Common.rstrip
    afk_composable_pipeline.Common.strip afk_composable_pipeline.Effects.confirm_effect
    afk_composable_pipeline.Effects.confirm_record afk_composable_pipeline.Effects.confirmed_record
    afk_composable_pipeline.Effects.effect lookup afk_composable_pipeline.Json.merge
    afk_composable_pipeline.Json.put afk_composable_pipeline.Json.size
    afk_composable_pipeline.Redaction.announces afk_composable_pipeline.Redaction.before_equals
    afk_composable_pipeline.Redaction.has_equals redact
    afk_composable_pipeline.Redaction.redact_argument afk_composable_pipeline.Text.is_alnum
    afk_composable_pipeline.Text.is_id_char
it_waits = refl

reconcile_candidate_branch_deletion-IsReconciled_example :
    (subject : Subject) × (remote_sha : String) × (candidate_subject projection ≡ ok subject)
    × (ok sha_a ≡ ok remote_sha)
    × IsReconciled toy_rules checkout_identity subject deletion_prepared remote_sha
        (deletion_prepared, false)
reconcile_candidate_branch_deletion-IsReconciled_example =
    reconcile_candidate_branch_deletion-IsReconciled toy_rules checkout_identity (λ root. true)
      projection (ok sha_a) deletion_prepared (deletion_prepared, false) it_waits

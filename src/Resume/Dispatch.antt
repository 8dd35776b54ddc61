-- ===== src/Resume/Dispatch.antt =====
-- The order in which `resume_run` of src/afk/start.py tries what a Run may need next, from its
-- projection after `resume_status` succeeded. Each early return is one rule, in the order of the
-- code; the calls that it makes are the action.
pub mod Safety
pub mod Recovery
use afk_composable_pipeline.Common.{
  String, List, [], ◌∷◌, Option, none, some, Bool, true, false, not, ◌&&◌, ◌||◌, if◌then◌else◌,
}
use afk_composable_pipeline.Json.{Json, Fields, null, str, get, has, eq, is_dict, one_of, is_some}
use afk_composable_pipeline.Resume.Ready.{
  at_checkpoint, last_event_is, attention_scope, candidate_resume_ready,
  implementation_attempt_resume_ready, validation_resume_ready, bootstrap_approval_missing,
  repair_resume_ready, validation_attempt_open, validation_outcome_pending,
  validation_interruption_attention_pending,
}
use afk_composable_pipeline.Resume.Retry.{gate_retry_authorization, pending_gate_retry}
use afk_composable_pipeline.Resume.Repair.{
  repair_interruption_pending, interrupted_repair_resume_ready, interrupted_repair_terminal,
}

-- What a return of `resume_run` calls.
pub data Action : Type 0 where
  -- `_attention` of the lifecycle, or of an approved bootstrap
  attention_lifecycle attention_bootstrap : Action
  -- a completed Run, with a retrospective to reconcile or without
  reconcile_completed already_completed : Action
  advance_start_bead_spec : Action
  -- `_advance_bead_claim`, then `_advance_worktree`
  advance_bead_claim : Action
  -- `_advance_worktree`, then `_advance_candidate`
  advance_worktree_then_candidate : Action
  advance_worktree advance_candidate : Action
  recover_validation_attempt attention_validation_interrupted : Action
  recover_interrupted_repair advance_interrupted_repair : Action
  advance_completed_gate : Action
  -- `_advance_gate` with the pending retry, or after the event of a new one
  retry_gate authorize_gate_retry : Action
  advance_gate advance_pr_ready advance_merge advance_bead_close advance_terminal_cleanup : Action
  advance_repaired_candidate advance_validation_then_gate advance_validation : Action
  -- `return run_id, 2`, and `return run_id, projection["worker_exit_code"]`
  stay worker_exit_code : Action
  -- the observation of the worker unit
  observe_worker : Action

-- What the decision reads beside the projection.
pub record Facts : Type 0 where
  pub projection : Json
  pub note : Option String
  -- of the repair attempt's `manifest.json` and `interruption.json`
  pub manifest_is_file : Bool
  pub interruption_is_file : Bool
  -- `_gate_attention_resume_ready`, which reads the sealed outcome of the Gate Cycle
  pub gate_outcome_ready : Bool

abbrev pub Rule : Type 0
Rule = Bool × Action

-- The first rule whose test passes.
unfoldable pub first_rule : List Rule → Action → Action
first_rule [] otherwise = otherwise
first_rule ((test, action) ∷ rules) otherwise = if test then action else first_rule rules otherwise

-- `projection.get(key) is not None`
abbrev pub present : Json → String → Bool
present p key = not (eq (get p key) null)

unfoldable pub early_rules : Facts → List Rule
early_rules f =
    let p = f.projection in
    (last_event_is p "lifecycle.signal_interrupted", attention_lifecycle)
    ∷ (last_event_is p "validation.bootstrap_approved", attention_bootstrap)
    ∷ (
      eq (get p "state") (str "completed"),
      (if present p "completion_episode" then reconcile_completed else already_completed),
    )
    ∷ (
      last_event_is p "run.created"
          || attention_scope p "bead_preflight" && not (has p "bead_spec"),
      advance_start_bead_spec,
    )
    ∷ (
      last_event_is p "bead.claimed"
          || last_event_is p "bead.claim_reconciled"
          || attention_scope p "bead_claim",
      advance_bead_claim,
    )
    ∷ (
      last_event_is p "worktree.ready" || last_event_is p "worktree.reconciled",
      advance_worktree_then_candidate,
    )
    ∷ (attention_scope p "worktree", advance_worktree)
    ∷ (implementation_attempt_resume_ready p, advance_candidate)
    ∷ []

unfoldable pub attempt_rules : Facts → List Rule
attempt_rules f =
    let p = f.projection in
    (validation_attempt_open p || validation_outcome_pending p, recover_validation_attempt)
    ∷ (validation_interruption_attention_pending p, attention_validation_interrupted)
    ∷ (
      repair_interruption_pending f.manifest_is_file f.interruption_is_file p,
      recover_interrupted_repair,
    )
    ∷ (interrupted_repair_terminal p, stay)
    ∷ (
      interrupted_repair_resume_ready p || last_event_is p "repair.interrupted",
      advance_interrupted_repair,
    )
    ∷ (repair_resume_ready p, advance_completed_gate)
    ∷ (pending_gate_retry p, retry_gate)
    ∷ (
      attention_scope p "gate",
      (if is_some (gate_retry_authorization p f.note)
          then authorize_gate_retry
          else if f.gate_outcome_ready
          then advance_gate
          else stay),
    )
    ∷ []

unfoldable pub checkpoint_rules : Facts → List Rule
checkpoint_rules f =
    let p = f.projection in
    (
      last_event_is p "gate.cycle_completed",
      (if at_checkpoint p "reviewed" then advance_pr_ready else advance_completed_gate),
    )
    ∷ (
      at_checkpoint p "reviewed",
      (if present p "pr_ready" then advance_merge else advance_pr_ready),
    )
    ∷ (at_checkpoint p "merged", advance_bead_close)
    ∷ (at_checkpoint p "bead_closed", advance_terminal_cleanup)
    ∷ (at_checkpoint p "validated" || last_event_is p "validation.rejected", advance_gate)
    ∷ (last_event_is p "candidate.repaired", advance_repaired_candidate)
    ∷ (
      last_event_is p "candidate.ready"
          || at_checkpoint p "candidate_ready" && attention_scope p "candidate",
      advance_validation_then_gate,
    )
    ∷ (
      validation_resume_ready p,
      (if bootstrap_approval_missing p then stay else advance_validation),
    )
    ∷ (
      has p "worker_exit_code",
      (if candidate_resume_ready p
          then advance_candidate
          else if bootstrap_approval_missing p
          then stay
          else worker_exit_code),
    )
    ∷ []

-- The decision of `resume_run`.
unfoldable pub decide : Facts → Action
decide f =
    first_rule (early_rules f)
      (first_rule (attempt_rules f) (first_rule (checkpoint_rules f) observe_worker))

-- The `scope` of the attention for an invalid preflight, by the checkpoint.
unfoldable pub preflight_scope : Json → String
preflight_scope p =
    if at_checkpoint p "worktree_ready"
    then "candidate"
    else if at_checkpoint p "candidate_ready"
    then "validation"
    else if at_checkpoint p "validated"
    then "gate"
    else if at_checkpoint p "reviewed"
    then "publication"
    else if at_checkpoint p "merged"
    then "bead_close"
    else if at_checkpoint p "bead_closed"
    then "terminal_cleanup"
    else "worker"

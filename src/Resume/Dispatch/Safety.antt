-- ===== src/Resume/Dispatch/Safety.antt =====
-- Under what a resume takes the steps that publish a Candidate and cannot be taken back
-- (src/afk/start.py).
use afk_composable_pipeline.Common.{
  String, List, [], ◌∷◌, Bool, true, false, not, ◌&&◌, ◌||◌, ◌≡◌, refl, arith,
}
use afk_composable_pipeline.Json.{Json, null, bool, int, str, arr, obj, get, eq, is_dict, one_of}
use afk_composable_pipeline.Resume.Ready.{
  at_checkpoint, last_event_is, attention_scope, validation_attempt_open,
}
use afk_composable_pipeline.Resume.Retry.{pending_gate_retry}
use afk_composable_pipeline.Resume.Repair.{
  repair_interruption_pending, interrupted_repair_resume_ready, interrupted_repair_terminal,
}
use afk_composable_pipeline.Resume.Dispatch.{
  Action, Facts, Rule, first_rule, early_rules, attempt_rules, checkpoint_rules, decide, present,
  observe_worker,
}

-- The pull request leaves its draft, is merged, the bead is closed, or what is left is cleaned up.
abbrev pub is_publication : Action → Bool
is_publication Action.advance_pr_ready = true
is_publication Action.advance_merge = true
is_publication Action.advance_bead_close = true
is_publication Action.advance_terminal_cleanup = true
is_publication _ = false

abbrev pub is_merge : Action → Bool
is_merge Action.advance_merge = true
is_merge _ = false

-- The checkpoint that each of these steps starts from.
abbrev pub publication_checkpoint : Action → String
publication_checkpoint Action.advance_bead_close = "merged"
publication_checkpoint Action.advance_terminal_cleanup = "bead_closed"
publication_checkpoint _ = "reviewed"

-- No rule of the list makes the decision.
abbrev pub AllFail : List Rule → Type 0
AllFail [] = Unit {0}
AllFail ((test, action) ∷ rules) = (test ≡ false) × AllFail rules

-- No rule of the list has the action.
abbrev pub Never : (Action → Bool) → List Rule → Type 0
Never p [] = Unit {0}
Never p ((test, action) ∷ rules) = (test ≡ true → p action ≡ false) × Never p rules

-- An action that no rule has is decided behind them all, and they all failed.
first_rule-passed :
    (p : Action → Bool) (rules : List Rule) (otherwise : Action)
    → Never p rules
    → p (first_rule rules otherwise) ≡ true
    → AllFail rules × (first_rule rules otherwise ≡ otherwise)
unfolding first_rule
first_rule-passed p [] otherwise n h = (tt, refl)
first_rule-passed p ((true, action) ∷ rules) otherwise n h = ground (arith, n.0 refl)
first_rule-passed p ((false, action) ∷ rules) otherwise n h =
    let rest = first_rule-passed p rules otherwise n.1 h in ((refl, rest.0), rest.1)

early_rules-Never : (f : Facts) → Never is_publication (early_rules f)
unfolding early_rules
early_rules-Never f = ground arith

attempt_rules-Never : (f : Facts) → Never is_publication (attempt_rules f)
unfolding attempt_rules
attempt_rules-Never f = ground arith

-- The Run is neither completed nor just interrupted, and nothing of an earlier stage is left open: no
-- validation attempt is started, no repair is interrupted, no retry of the gate is authorized, and
-- the gate does not ask for attention.
pub record IsSettled (f : Facts) : Type 0 where
  pub not_completed : eq (get f.projection "state") (str "completed") ≡ false
  pub no_signal : last_event_is f.projection "lifecycle.signal_interrupted" ≡ false
  pub no_bootstrap : last_event_is f.projection "validation.bootstrap_approved" ≡ false
  pub no_open_validation :
      eq (get (get f.projection "validation_attempt") "status") (str "started") ≡ false
  pub no_repair_left :
      repair_interruption_pending f.manifest_is_file f.interruption_is_file f.projection ≡ false
  pub no_interrupted_repair : interrupted_repair_resume_ready f.projection ≡ false
  pub no_repair_event : last_event_is f.projection "repair.interrupted" ≡ false
  pub not_exhausted : interrupted_repair_terminal f.projection ≡ false
  pub no_pending_retry : pending_gate_retry f.projection ≡ false
  pub no_gate_attention : attention_scope f.projection "gate" ≡ false

-- Only a dict has a status.
status_of_dict :
    (v : Json)
    → (is_dict v && one_of ("started" ∷ []) (get v "status")) ≡ false
    → eq (get v "status") (str "started") ≡ false
unfolding get
status_of_dict (obj fs) h = ground arith
status_of_dict null h = unfold eq in refl
status_of_dict (bool b) h = unfold eq in refl
status_of_dict (int z) h = unfold eq in refl
status_of_dict (str s) h = unfold eq in refl
status_of_dict (arr xs) h = unfold eq in refl

open_validation :
    (p : Json)
    → validation_attempt_open p ≡ false
    → eq (get (get p "validation_attempt") "status") (str "started") ≡ false
unfolding validation_attempt_open
open_validation p h = status_of_dict (get p "validation_attempt") h

failed-IsSettled : (f : Facts) → AllFail (early_rules f) → AllFail (attempt_rules f) → IsSettled f
unfolding early_rules attempt_rules
failed-IsSettled f early attempt = record {
  not_completed = ground arith;
  no_signal = ground arith;
  no_bootstrap = ground arith;
  no_open_validation = open_validation f.projection (ground arith);
  no_repair_left = ground arith;
  no_interrupted_repair = ground arith;
  no_repair_event = ground arith;
  not_exhausted = ground arith;
  no_pending_retry = ground arith;
  no_gate_attention = ground arith;
}

-- The publishing steps among the rules of the checkpoints.
abbrev AtCheckpoint : Json → Action → Type 0
AtCheckpoint p action =
    (at_checkpoint p (publication_checkpoint action) ≡ true)
    × ((not (is_merge action) || present p "pr_ready") ≡ true)

checkpoint_rule :
    (f : Facts)
    → is_publication (first_rule (checkpoint_rules f) observe_worker) ≡ true
    → AtCheckpoint f.projection (first_rule (checkpoint_rules f) observe_worker)
unfolding checkpoint_rules first_rule
checkpoint_rule f h = ground arith

-- Where a resume decides to release the pull request from draft, to merge it, to close the bead or
-- to clean up, the Run is at the checkpoint that the step starts from, with a value for "pr_ready"
-- for a merge; it is not completed, its last event is no signal, no bootstrap approval and no
-- interrupted repair, no validation attempt is started, no repair is interrupted, to be taken up or
-- exhausted, no retry of the gate is pending, and the gate does not ask for attention.
pub decide-publication :
    (f : Facts)
    → is_publication (decide f) ≡ true
    → IsSettled f
      × (at_checkpoint f.projection (publication_checkpoint (decide f)) ≡ true)
      × ((not (is_merge (decide f)) || present f.projection "pr_ready") ≡ true)
unfolding decide
decide-publication f h =
    let last = first_rule (checkpoint_rules f) observe_worker in
    let early =
      first_rule-passed is_publication (early_rules f) (first_rule (attempt_rules f) last)
        (early_rules-Never f) h in
    let behind = rw early.1 at h in
    let attempt =
      first_rule-passed is_publication (attempt_rules f) last (attempt_rules-Never f) behind in
    let rule = checkpoint_rule f (rw attempt.1 at behind) in
    (
      failed-IsSettled f early.0 attempt.0,
      rw (early.1, attempt.1) rule.0,
      rw (early.1, attempt.1) rule.1,
    )

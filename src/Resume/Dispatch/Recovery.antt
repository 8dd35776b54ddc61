-- ===== src/Resume/Dispatch/Recovery.antt =====
-- What a resume does with the validation attempt that src/afk/start.py recorded last.
use afk_composable_pipeline.Common.{String, false, ◌≡◌, arith}
use afk_composable_pipeline.Json.{Json, Fields, str, obj, end, get, has, eq, put, lookup}
use afk_composable_pipeline.Resume.Ready.{
  implementation_attempt_resume_ready, validation_attempt_open, validation_outcome_pending,
  validation_interruption_attention_pending,
}
use afk_composable_pipeline.Resume.Validation.{started_validation, finished_validation}
use afk_composable_pipeline.Resume.Dispatch.{
  Action, Facts, first_rule, early_rules, attempt_rules, decide, recover_validation_attempt,
  attention_validation_interrupted,
}

-- Where a validation attempt stands.
pub data ValidationStage : Type 0 where
  running passed rejected inconclusive interrupted : ValidationStage

abbrev pub status_text : ValidationStage → String
status_text running = "started"
status_text passed = "passed"
status_text rejected = "rejected"
status_text inconclusive = "inconclusive"
status_text interrupted = "interrupted"

-- The event that records it.
abbrev pub stage_event : ValidationStage → String
stage_event running = "validation.attempt_started"
stage_event _ = "validation.attempt_finished"

-- An interruption is turned into attention; any other attempt is taken up again, to be closed or to
-- have its outcome recorded.
abbrev pub stage_action : ValidationStage → Action
stage_action interrupted = attention_validation_interrupted
stage_action _ = recover_validation_attempt

-- The attempt as it was started, with the status of its stage.
abbrev pub staged : ValidationStage → String → String → Fields
staged stage attempt_id candidate_sha =
    finished_validation (started_validation attempt_id candidate_sha) (status_text stage)

-- The projection behind the event: its data, an attention that is resolved, and no validation yet.
pub record IsStaged (p : Json) (stage : ValidationStage) (attempt_id candidate_sha : String)
    : Type 0 where
  pub last_event : get p "last_event" ≡ str (stage_event stage)
  pub checkpoint : get p "checkpoint" ≡ str "candidate_ready"
  pub attempt : get p "validation_attempt" ≡ obj (staged stage attempt_id candidate_sha)
  pub state : eq (get p "state") (str "completed") ≡ false
  pub attention : get p "attention" ≡ obj end
  pub no_outcome : has p "validation" ≡ false

-- Where the last event is the start or the finish of a validation attempt at the checkpoint
-- "candidate_ready", the projection shows that attempt as it was recorded, with a resolved
-- attention and no validation, and the Run is not completed, a resume decides to recover the
-- attempt if it is started, passed, rejected or inconclusive, and to ask for attention if it was
-- interrupted.
pub decide-staged :
    (f : Facts) (stage : ValidationStage) (attempt_id candidate_sha : String)
    → IsStaged f.projection stage attempt_id candidate_sha
    → decide f ≡ stage_action stage
unfolding decide first_rule early_rules attempt_rules implementation_attempt_resume_ready
    validation_attempt_open validation_outcome_pending validation_interruption_attention_pending
    started_validation finished_validation put get lookup eq
decide-staged f running a c s =
    rw (s.last_event, s.checkpoint, s.attempt, s.state, s.attention) (ground arith)
decide-staged f passed a c s =
    rw (s.last_event, s.checkpoint, s.attempt, s.state, s.attention, s.no_outcome) (ground arith)
decide-staged f rejected a c s =
    rw (s.last_event, s.checkpoint, s.attempt, s.state, s.attention, s.no_outcome) (ground arith)
decide-staged f inconclusive a c s =
    rw (s.last_event, s.checkpoint, s.attempt, s.state, s.attention, s.no_outcome) (ground arith)
decide-staged f interrupted a c s =
    rw (s.last_event, s.checkpoint, s.attempt, s.state, s.attention, s.no_outcome) (ground arith)

-- ===== src/Examples/Retries.antt =====
-- A Gate retry, an interrupted repair, and a Run that is ready to merge.
use afk_composable_pipeline.Common.{
  ℕ, String, List, [], ◌∷◌, ◌++◌, Option, none, some, Bool, true, false, not, ◌||◌, ap, ◌≡◌, refl,
  arith, inl, inr,
}
use afk_composable_pipeline.Json.{
  Json, ℤ, Items, Fields, null, str, arr, obj, nil, cons, end, nat, pos, get, eq, dict,
}
use afk_composable_pipeline.Preflight.Repair.{
  valid_repair_brief, valid_repair_interrupted_closure, open_repair_attempt, no_repair, RepairLoop,
}
use afk_composable_pipeline.Resume.Ready.{at_checkpoint, last_event_is}
use afk_composable_pipeline.Resume.Retry.{
  gate_retry_authorization, authorization, pending_gate_retry, items, counts_as_retry, retry_of,
  int_of, may_authorize,
}
use afk_composable_pipeline.Resume.Retry.Order.{
  ◌<ℤ◌, latest_cycle, CountsNatural, gate_retry_authorization_fresh,
  pending_gate_retry-authorization,
}
use afk_composable_pipeline.Resume.Repair.{
  interruption_of, next_brief, interrupted_repair_resume_ready, interrupted_repair_terminal,
}
use afk_composable_pipeline.Resume.Repair.Recovery.{
  recovery_data, Recovered, recovery_resumes, is_repair_checkpoint,
}
use afk_composable_pipeline.History.Record.{Event}
use afk_composable_pipeline.Preflight.Scan.{Scanned}
use afk_composable_pipeline.Resume.Repair.Closing.{LeftOpen, open_repair_attempt-append}
use afk_composable_pipeline.Resume.Dispatch.{
  Facts, decide, present, early_rules, attempt_rules, advance_merge, recover_validation_attempt,
}
use afk_composable_pipeline.Resume.Dispatch.Safety.{
  IsSettled, is_publication, is_merge, publication_checkpoint, decide-publication,
}
use afk_composable_pipeline.Resume.Dispatch.Recovery.{IsStaged, running, staged, decide-staged}

abbrev candidate_sha : Json
candidate_sha = str "abcdefabcdabcdefabcdabcdefabcdabcdefabcd"

abbrev cycle : Json
cycle = obj (
    dict (
      ("cycle", nat 2)
      ∷ ("retry", nat 1)
      ∷ ("candidate_sha", candidate_sha)
      ∷ ("next_action", str "attention")
      ∷ ("reviews", arr (cons (obj (dict (("status", str "inconclusive") ∷ []))) nil))
      ∷ []))

abbrev waiting : Json
waiting = obj (
    dict (
      ("attention", obj (dict (("scope", str "gate") ∷ ("kind", str "inconclusive") ∷ [])))
      ∷ ("candidate_sha", candidate_sha)
      ∷ ("gate_cycles", arr (cons cycle nil))
      ∷ (
        "validation",
        obj (dict (("candidate_sha", candidate_sha) ∷ ("status", str "passed") ∷ [])),
      )
      ∷ []))

waiting_authorized :
    gate_retry_authorization waiting (some "network outage")
    ≡ some (authorization waiting "network outage")
unfolding gate_retry_authorization afk_composable_pipeline.Common.is_blank may_authorize get eq
    afk_composable_pipeline.Resume.Retry.last_item afk_composable_pipeline.Json.truthy
    afk_composable_pipeline.Resume.Retry.any_inconclusive
waiting_authorized = refl

cycle_counts : counts_as_retry (latest_cycle waiting) (get waiting "candidate_sha") cycle ≡ true
unfolding counts_as_retry eq get afk_composable_pipeline.Resume.Retry.last_item
    afk_composable_pipeline.Json.has
cycle_counts = refl

gate_retry_authorization_fresh_example :
    ◌<ℤ◌
      (int_of (retry_of cycle))
      (int_of (get (obj (authorization waiting "network outage")) "retry"))
unfolding get
gate_retry_authorization_fresh_example =
    gate_retry_authorization_fresh waiting cycle "network outage"
      (authorization waiting "network outage") waiting_authorized (inl refl) cycle_counts

natural_counts : CountsNatural waiting
unfolding get afk_composable_pipeline.Json.has
natural_counts item (inl e) c = rw e refl
natural_counts item (inr w) c = absurd w

abbrev retried : Json
retried = obj (
    dict (
      ("candidate_sha", candidate_sha)
      ∷ ("gate_retry", obj (authorization waiting "network outage"))
      ∷ []))

pending_gate_retry-authorization_example : pending_gate_retry retried ≡ true
unfolding get
pending_gate_retry-authorization_example =
    pending_gate_retry-authorization waiting retried "network outage"
      (authorization waiting "network outage") waiting_authorized natural_counts tt refl refl

abbrev brief : Fields
brief = dict (
    ("schema_version", nat 1)
    ∷ ("candidate_sha", candidate_sha)
    ∷ ("repair_attempt", nat 2)
    ∷ ("blocking_findings", arr nil)
    ∷ [])

brief_valid : valid_repair_brief (obj brief) ≡ true
unfolding valid_repair_brief afk_composable_pipeline.Json.keys_are get
    afk_composable_pipeline.Text.is_sha
brief_valid = refl

brief_attempt_2 : get (obj brief) "repair_attempt" ≡ nat 2
unfolding get
brief_attempt_2 = refl

abbrev recovered : Json
recovered = obj (
    dict (
      ("interrupted_repair", obj (interruption_of candidate_sha (nat 2)))
      ∷ ("repair_brief", next_brief (obj brief) 2)
      ∷ ("repair_attempts_used", nat 2)
      ∷ ("candidate_sha", candidate_sha)
      ∷ []))

recovered-Recovered : Recovered recovered brief 2
unfolding get
recovered-Recovered = record { interruption = refl; brief = refl; used = refl; candidate = refl }

recovery_resumes_example :
    (interrupted_repair_resume_ready recovered ≡ true)
    × (interrupted_repair_terminal recovered ≡ false)
recovery_resumes_example =
    recovery_resumes recovered brief 2 brief_valid brief_attempt_2 recovered-Recovered

abbrev at_rest : Json → Facts
at_rest p = record {
  projection = p;
  note = none;
  manifest_is_file = false;
  interruption_is_file = false;
  gate_outcome_ready = false;
}

abbrev ready_to_merge : Facts
ready_to_merge = at_rest (
    obj (
      dict (
        ("state", str "pr_ready")
        ∷ ("checkpoint", str "reviewed")
        ∷ ("last_event", str "pr.ready")
        ∷ ("pr_ready", obj (dict (("head_sha", candidate_sha) ∷ [])))
        ∷ [])))

merge_decided : decide ready_to_merge ≡ advance_merge
unfolding decide afk_composable_pipeline.Resume.Dispatch.first_rule early_rules eq get
    afk_composable_pipeline.Resume.Ready.implementation_attempt_resume_ready attempt_rules
    afk_composable_pipeline.Resume.Ready.validation_attempt_open
    afk_composable_pipeline.Resume.Ready.validation_outcome_pending
    afk_composable_pipeline.Resume.Ready.validation_interruption_attention_pending
    afk_composable_pipeline.Resume.Repair.repair_interruption_pending interrupted_repair_terminal
    interrupted_repair_resume_ready afk_composable_pipeline.Resume.Ready.repair_resume_ready
    pending_gate_retry afk_composable_pipeline.Resume.Dispatch.checkpoint_rules
merge_decided = refl

decide-publication_example :
    IsSettled ready_to_merge
    × (at_checkpoint ready_to_merge.projection (publication_checkpoint (decide ready_to_merge))
        ≡ true)
    × ((not (is_merge (decide ready_to_merge)) || present ready_to_merge.projection "pr_ready")
        ≡ true)
decide-publication_example = decide-publication ready_to_merge (ap is_publication merge_decided)

abbrev validating : Facts
validating = at_rest (
    obj (
      dict (
        ("state", str "candidate_ready")
        ∷ ("checkpoint", str "candidate_ready")
        ∷ ("last_event", str "validation.attempt_started")
        ∷ ("attention", obj end)
        ∷ ("validation_attempt", obj (staged running "validation-1" "abc"))
        ∷ [])))

validating-IsStaged : IsStaged validating.projection running "validation-1" "abc"
unfolding get eq afk_composable_pipeline.Json.has
validating-IsStaged = record {
  last_event = refl;
  checkpoint = refl;
  attempt = refl;
  state = refl;
  attention = refl;
  no_outcome = refl;
}

decide-staged_example : decide validating ≡ recover_validation_attempt
decide-staged_example = decide-staged validating running "validation-1" "abc" validating-IsStaged

abbrev repair_event : ℕ → String → Fields → Event
repair_event n name data_fields = record {
  sequence = n;
  recorded_at = "2026-01-01T00:00:00Z";
  event = name;
  state = none;
  data_fields = data_fields;
}

abbrev repairing : List Event
repairing =
    repair_event 1 "repair.started"
      (dict (("repair_brief", obj brief) ∷ ("repair_attempts_used", nat 2) ∷ []))
    ∷ []

abbrev interrupted : Event
interrupted = repair_event 2 "repair.interrupted" (recovery_data (str "validated") brief 2)

repairing-LeftOpen : LeftOpen repairing brief 2
unfolding open_repair_attempt afk_composable_pipeline.Preflight.Scan.scan
    afk_composable_pipeline.Preflight.Repair.repair_step valid_repair_brief
    afk_composable_pipeline.Json.keys_are get afk_composable_pipeline.Text.is_sha
repairing-LeftOpen = record { accepted = refl; brief = refl; slot = refl }

validated_is_checkpoint : is_repair_checkpoint (str "validated") ≡ true
unfolding eq
validated_is_checkpoint = refl

open_repair_attempt-append_example :
    ((open_repair_attempt (repairing ++ interrupted ∷ [])).invalid ≡ false)
    × ((open_repair_attempt (repairing ++ interrupted ∷ [])).state ≡ no_repair)
open_repair_attempt-append_example =
    open_repair_attempt-append repairing interrupted (str "validated") brief 2 repairing-LeftOpen
      brief_valid brief_attempt_2 validated_is_checkpoint refl refl

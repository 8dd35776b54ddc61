-- ===== src/Examples/Episodes.antt =====
-- A Run that asks for attention twice for the same reason, and a summary of its retrospectives.
use afk_composable_pipeline.Common.{
  ℕ, suc, ◌+◌, ◌≤◌, String, List, [], ◌∷◌, ◌++◌, Option, none, some, Bool, true, false, length, ◌≡◌,
  refl, arith,
}
use afk_composable_pipeline.Json.{
  Json, Fields, bool, str, obj, end, field, nat, get, dict, put, lookup,
}
use afk_composable_pipeline.Errors.{Result, err, ok, run_not_found}
use afk_composable_pipeline.History.Record.{Event}
use afk_composable_pipeline.History.{inventory_key}
use afk_composable_pipeline.Episodes.{
  validated_attention_episode, attention_to_append, with_episode,
}
use afk_composable_pipeline.Episodes.Attention.{
  attention_marker, Recorded, attention_validated, attention_is_repeated,
}
use afk_composable_pipeline.Examples.Histories.{created, toy_rules}
use afk_composable_pipeline.Episodes.Supersession.{
  supersession_of, superseded_data, Superseded, valid_reason, validated_supersession,
  supersession_validated,
}
use afk_composable_pipeline.Episodes.ActiveRun.{
  StoreView, IsSuperseded, supersede_active_run, supersede_twice,
}
use afk_composable_pipeline.Preflight.{validate_open_attempts}
use afk_composable_pipeline.Retrospective.Outcome.{
  normalize_outcome, normalize_outcome-warning, count_of, valid_warning_summary,
}
use afk_composable_pipeline.Retrospective.Status.{
  RetrospectiveStatus, build_retrospective_status, no_episode, status_of,
}
use afk_composable_pipeline.Retrospective.Status.Counts.{
  CountsAgree, episode_events, build_retrospective_status-CountsAgree,
}

abbrev payload : Fields
payload = dict (
    ("checkpoint", str "worktree_ready")
    ∷ ("attention", obj (dict (("scope", str "candidate") ∷ ("kind", str "unavailable") ∷ [])))
    ∷ [])

abbrev attention : Event
attention = record {
  sequence = 2;
  recorded_at = "2026-01-01T00:00:02Z";
  event = "run.attention_required";
  state = some "attention_required";
  data_fields = put inventory_key (obj end) (with_episode payload (attention_marker 2));
}

abbrev waiting : Json
waiting = obj (
    dict (
      ("state", str "attention_required")
      ∷ ("last_sequence", nat 2)
      ∷ ("attention_episode", attention_marker 2)
      ∷ []))

attention-Recorded : Recorded waiting attention 2
unfolding get put afk_composable_pipeline.Json.merge afk_composable_pipeline.Json.has
attention-Recorded = record {
  name = refl;
  state = refl;
  marker = refl;
  has_marker = refl;
  shown = refl;
  has_shown = refl;
  last = refl;
}

attention_validated_example :
    validated_attention_episode (created ∷ attention ∷ []) waiting ≡ ok (some (attention_marker 2))
attention_validated_example =
    attention_validated (created ∷ []) attention waiting attention-Recorded

attention_is_repeated_example :
    attention_to_append (created ∷ attention ∷ []) waiting payload ≡ ok none
unfolding get afk_composable_pipeline.Json.merge afk_composable_pipeline.Episodes.marker_of
attention_is_repeated_example =
    attention_is_repeated (created ∷ []) attention waiting payload (obj end) attention-Recorded refl
      (refl, tt) refl refl refl
      (
        refl,
        tt,
        (
          refl,
          (refl, tt, (refl, tt, tt)),
          (refl, (refl, tt, (refl, tt, (refl, tt, (refl, tt, tt)))), tt),
        ),
      )

abbrev outcome : Json
outcome = obj (
    dict (
      ("schema_version", nat 1)
      ∷ ("run_id", str "run-1")
      ∷ ("episode_sequence", nat 2)
      ∷ ("status", str "unavailable")
      ∷ ("warning", bool true)
      ∷ ("process_findings_count", nat 0)
      ∷ ("improvement_proposals_count", nat 0)
      ∷ ("warning_summary", str "the analyst was not reached")
      ∷ []))

outcome_normalized : normalize_outcome "run-1" 2 outcome ≡ ok outcome
unfolding normalize_outcome afk_composable_pipeline.Retrospective.Outcome.valid_outcome
    afk_composable_pipeline.Json.keys_are
    afk_composable_pipeline.Retrospective.Outcome.expected_outcome_keys
    afk_composable_pipeline.Retrospective.Outcome.is_warning_status afk_composable_pipeline.Json.eq
    get afk_composable_pipeline.Retrospective.Outcome.outcome_keys
    afk_composable_pipeline.Text.is_durable_id
    afk_composable_pipeline.Retrospective.Outcome.counts_agree valid_warning_summary
    afk_composable_pipeline.Common.is_blank
outcome_normalized = refl

abbrev observe : String → Result (Option Json)
observe evidence = ok (some outcome)

abbrev summary : RetrospectiveStatus
summary = record {
  status = str "unavailable";
  total = 1;
  sealed = 1;
  warning = 1;
  absent = 0;
  process_findings_count = 0;
  improvement_proposals_count = 0;
  evidence_paths = "retrospective/attention-2" ∷ [];
  latest = some (record {
    episode_sequence = 2;
    event = "run.attention_required";
    state = "attention_required";
    status = str "unavailable";
    warning = bool true;
    process_findings_count = nat 0;
    improvement_proposals_count = nat 0;
    evidence_path = some "retrospective/attention-2";
  });
}

summary_built : build_retrospective_status "run-1" observe (created ∷ attention ∷ []) ≡ ok summary
unfolding build_retrospective_status afk_composable_pipeline.Retrospective.Status.summarize
    afk_composable_pipeline.Retrospective.Status.expected_episode_state normalize_outcome
    afk_composable_pipeline.Retrospective.Outcome.valid_outcome
    afk_composable_pipeline.Json.keys_are
    afk_composable_pipeline.Retrospective.Outcome.expected_outcome_keys
    afk_composable_pipeline.Retrospective.Outcome.is_warning_status afk_composable_pipeline.Json.eq
    get afk_composable_pipeline.Retrospective.Outcome.outcome_keys
    afk_composable_pipeline.Text.is_durable_id
    afk_composable_pipeline.Retrospective.Outcome.counts_agree valid_warning_summary
    afk_composable_pipeline.Common.is_blank status_of
    afk_composable_pipeline.Retrospective.Status.add_sealed afk_composable_pipeline.Common.all_chars
    afk_composable_pipeline.Common.cat afk_composable_pipeline.Common.characters
    afk_composable_pipeline.Common.decimal afk_composable_pipeline.Common.decimal_onto
    afk_composable_pipeline.Common.digit afk_composable_pipeline.Common.is_space
    afk_composable_pipeline.Common.lstrip afk_composable_pipeline.Common.rstrip
    afk_composable_pipeline.Common.strip lookup afk_composable_pipeline.Json.size
    afk_composable_pipeline.Retrospective.Status.absent_episode
    afk_composable_pipeline.Retrospective.Status.add_absent
    afk_composable_pipeline.Retrospective.Status.evidence_unit
    afk_composable_pipeline.Retrospective.Status.sealed_episode
    afk_composable_pipeline.Text.is_alnum afk_composable_pipeline.Text.is_id_char
summary_built = refl

build_retrospective_status-CountsAgree_example :
    CountsAgree (episode_events (created ∷ attention ∷ [])) summary
build_retrospective_status-CountsAgree_example =
    build_retrospective_status-CountsAgree "run-1" observe (created ∷ attention ∷ []) summary
      summary_built

abbrev superseded : Event
superseded = record {
  sequence = 3;
  recorded_at = "2026-01-01T00:00:03Z";
  event = "run.superseded";
  state = some "superseded";
  data_fields = superseded_data (supersession_of (str "wrong bead") (nat 2));
}

abbrev replaced : Json
replaced = obj (
    dict (
      ("run_id", str "run-1")
      ∷ ("state", str "superseded")
      ∷ ("last_sequence", nat 3)
      ∷ ("attention_episode", attention_marker 2)
      ∷ ("checkpoint", str "superseded")
      ∷ ("supersession", supersession_of (str "wrong bead") (nat 2))
      ∷ []))

attended :
    validated_attention_episode (created ∷ attention ∷ superseded ∷ []) replaced
    ≡ ok (some (attention_marker 2))
unfolding validated_attention_episode afk_composable_pipeline.Episodes.episode_marker
    afk_composable_pipeline.Json.has afk_composable_pipeline.Episodes.valid_marker get
    afk_composable_pipeline.Episodes.marker_of afk_composable_pipeline.Json.eq
    afk_composable_pipeline.Common.cat afk_composable_pipeline.Common.decimal
    afk_composable_pipeline.Episodes.event_at afk_composable_pipeline.Episodes.same_episode put
    afk_composable_pipeline.Json.merge afk_composable_pipeline.Episodes.latest_attention
attended = refl

marker_number : get (attention_marker 2) "episode_sequence" ≡ nat 2
unfolding get afk_composable_pipeline.Episodes.marker_of
marker_number = refl

replaced-Superseded : Superseded replaced superseded 3 (supersession_of (str "wrong bead") (nat 2))
unfolding get
replaced-Superseded = record {
  name = refl;
  state = refl;
  kept = refl;
  shown_state = refl;
  shown = refl;
  checkpoint = refl;
  last = refl;
}

reason_valid : valid_reason toy_rules (str "wrong bead") ≡ true
unfolding valid_reason afk_composable_pipeline.Common.is_blank
reason_valid = refl

supersession_validated_example :
    validated_supersession toy_rules (created ∷ attention ∷ superseded ∷ []) replaced
    ≡ ok (some (supersession_of (str "wrong bead") (nat 2)))
supersession_validated_example =
    supersession_validated toy_rules (created ∷ attention ∷ []) superseded replaced
      (attention_marker 2) "wrong bead" 2 attended marker_number replaced-Superseded reason_valid

-- The store after a crash between the record of the supersession and the pointer's removal.
abbrev left_behind : StoreView
left_behind = record {
  scanned = ok none;
  pointer = ok (some "run-1");
  run = λ run_id. ok (created ∷ attention ∷ superseded ∷ [], replaced);
  resume_projection = λ p. ok tt;
}

left_behind-IsSuperseded :
    IsSuperseded toy_rules left_behind "run-1"
      (created ∷ attention ∷ [])
      superseded
      replaced
      (attention_marker 2)
      "wrong bead"
      2
unfolding get validate_open_attempts afk_composable_pipeline.Preflight.implementation_invalid
    afk_composable_pipeline.Preflight.Implementation.open_implementation_attempt
    afk_composable_pipeline.Preflight.Scan.scan
    afk_composable_pipeline.Preflight.Implementation.implementation_step
    afk_composable_pipeline.Json.eq afk_composable_pipeline.Json.has
    afk_composable_pipeline.Preflight.Publication.candidate_publication_invalid
    afk_composable_pipeline.Preflight.Publication.publication_step
    afk_composable_pipeline.Preflight.Publication.candidate_pr_publication_invalid
    afk_composable_pipeline.Preflight.Publication.pr_publication_step
    afk_composable_pipeline.Preflight.validation_lifecycle_invalid
    afk_composable_pipeline.Preflight.Validation.open_validation_attempt
    afk_composable_pipeline.Preflight.Validation.validation_step
    afk_composable_pipeline.Preflight.open_validation_invalid
    afk_composable_pipeline.Preflight.repair_lifecycle_invalid
    afk_composable_pipeline.Preflight.Repair.open_repair_attempt
    afk_composable_pipeline.Preflight.Repair.repair_step
    afk_composable_pipeline.Attempts.binding_fields afk_composable_pipeline.Attempts.common_keys
    afk_composable_pipeline.Attempts.completed_part afk_composable_pipeline.Attempts.extra_keys
    afk_composable_pipeline.Attempts.interrupted_part
    afk_composable_pipeline.Attempts.interruption_is_retryable
    afk_composable_pipeline.Attempts.next_attempt_id afk_composable_pipeline.Attempts.valid_attempt
    afk_composable_pipeline.Attempts.valid_filesystem_identity
    afk_composable_pipeline.Common.all_chars afk_composable_pipeline.Common.cat
    afk_composable_pipeline.Common.characters afk_composable_pipeline.Json.keys_are lookup
    afk_composable_pipeline.Json.size afk_composable_pipeline.Json.truthy
    afk_composable_pipeline.Preflight.Implementation.closes
    afk_composable_pipeline.Preflight.Implementation.finish_step
    afk_composable_pipeline.Preflight.Implementation.same_field
    afk_composable_pipeline.Preflight.Implementation.start_step
    afk_composable_pipeline.Preflight.Publication.pr_keys
    afk_composable_pipeline.Preflight.Publication.pr_marker
    afk_composable_pipeline.Preflight.Publication.valid_pr_event
    afk_composable_pipeline.Preflight.Publication.valid_publication_event
    afk_composable_pipeline.Preflight.Repair.repaired_keys
    afk_composable_pipeline.Preflight.Repair.valid_candidate_repaired_closure
    afk_composable_pipeline.Preflight.Repair.valid_interruption
    afk_composable_pipeline.Preflight.Repair.valid_next_brief
    afk_composable_pipeline.Preflight.Repair.valid_repair_brief
    afk_composable_pipeline.Preflight.Repair.valid_repair_interrupted_closure
    afk_composable_pipeline.Preflight.Validation.finishes
    afk_composable_pipeline.Preflight.Validation.valid_validation_attempt
    afk_composable_pipeline.Preflight.open_repair_invalid
    afk_composable_pipeline.Preflight.projected_repair_is_open afk_composable_pipeline.Text.is_alnum
    afk_composable_pipeline.Text.is_durable_id afk_composable_pipeline.Text.is_hex
    afk_composable_pipeline.Text.is_id_char afk_composable_pipeline.Text.is_sha
left_behind-IsSuperseded = record {
  none_active = refl;
  held = refl;
  named = refl;
  resumable = refl;
  accepts = refl;
  attended = attended;
  at = marker_number;
  recorded = replaced-Superseded;
}

supersede_twice_example :
    (supersede_active_run toy_rules
        (record left_behind { pointer = ok (some "run-1") })
        "wrong bead"
      ≡ ok (none, none))
    × (supersede_active_run toy_rules (record left_behind { pointer = ok none }) "wrong bead"
        ≡ err run_not_found)
supersede_twice_example =
    supersede_twice toy_rules left_behind "run-1" (created ∷ attention ∷ []) superseded replaced
      (attention_marker 2) "wrong bead" 2 left_behind-IsSuperseded reason_valid

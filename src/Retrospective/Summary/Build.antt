-- ===== src/Retrospective/Summary/Build.antt =====
-- `build_run_summary` of src/afk/run_summary.py: the bounded facts of a snapshot of the Run. The
-- snapshot, the digest and the bytes of a canonical text are arguments.
use afk_composable_pipeline.Common.{
  ℕ, zero, suc, ◌+◌, ◌-◌, String, List, [], ◌∷◌, Option, none, some, Bool, false, leb, str_eq, cat,
  decimal, ltb, length, take, map, characters, if◌then◌else◌,
}
use afk_composable_pipeline.Common.Order.{sorted_by}
use afk_composable_pipeline.Json.{
  Json, Fields, null, str, arr, obj, end, field, get, has, put, dict,
}
use afk_composable_pipeline.Json.Lists.{array, elements, to_list}
use afk_composable_pipeline.Redaction.{TextRules, redact, redact_fields}
use afk_composable_pipeline.Retrospective.Inventory.{
  text_limit, inventory_limit, bounded_text, text_at,
}
use afk_composable_pipeline.Retrospective.Summary.{
  Reference, Summary, summary_json, citation_manifest, fit_summary, max_summary_bytes,
}
use afk_composable_pipeline.Retrospective.Summary.Steps.{weight}
use afk_composable_pipeline.Retrospective.Status.{expected_episode_state}
use afk_composable_pipeline.Errors.{Result, Failure, ok, err, store_error, guard, ◌>>◌}

-- The sequence of the episode, and what `event` and `read_run_snapshot` of the store give for it.
pub record Snapshot : Type 0 where
  pub sequence : ℕ
  pub identity : Json
  pub event : Json
  pub events : List Json
  pub projection : Json
  pub effects : List Json
  pub evidence : List Json
  pub omitted_effects : ℕ
  pub omitted_units : ℕ

-- `MAX_EVENTS`
abbrev pub max_events : ℕ
max_events = 64

-- `MAX_EVIDENCE_FILES`
abbrev pub max_evidence_files : ℕ
max_evidence_files = 32

-- `MAX_NESTED_ITEMS`
abbrev pub max_nested_items : ℕ
max_nested_items = 16

-- `MAX_BOUNDED_VALUE_BYTES`
abbrev pub max_bounded_bytes : ℕ
max_bounded_bytes = 16384

abbrev pub truncated : String
truncated = "[TRUNCATED]"

-- `PROJECTION_FIELDS`
abbrev pub projection_fields : List String
projection_fields =
    "state" ∷ "checkpoint" ∷ "unit" ∷ "branch" ∷ "candidate_sha" ∷ "pr_number" ∷ "pr_url"
    ∷ "pr_head_sha" ∷ "pr_ready" ∷ "worker_exit_code" ∷ "previous_candidate_sha"
    ∷ "repair_attempts_used" ∷ "merge" ∷ "remote_branch_deleted" ∷ "bead_closure" ∷ "validation"
    ∷ "validation_attempt" ∷ "gate_retry" ∷ "completion" ∷ "attention" ∷ "lingering"
    ∷ "lifecycle_interruption" ∷ "interrupted_repair" ∷ []

abbrev pub drop {ℓ} : {A : Type ℓ} → ℕ → List A → List A
drop zero xs = xs
drop (suc n) [] = []
drop (suc n) (x ∷ xs) = drop n xs

-- `xs[-n:]`
abbrev pub take_last {ℓ} : {A : Type ℓ} → ℕ → List A → List A
take_last n xs = drop (length xs - n) xs

abbrev pub keys : Fields → List String
keys end = []
keys (field k v fs) = k ∷ keys fs

-- `manifest["files"]`
abbrev pub files_of : Json → List Json
files_of v = elements (get (get v "manifest") "files")

-- `omitted["evidence_files"]`
unfoldable pub omitted_files : List Json → ℕ
omitted_files [] = 0
omitted_files (v ∷ vs) =
    length (files_of v) - length (take max_evidence_files (files_of v)) + omitted_files vs

module _ (rules : TextRules) where
  open rules use {redact_text}

  -- `_bounded_text`
  abbrev pub bounded : String → String
  bounded value = bounded_text (redact_text value)

  -- `_bounded_key`
  unfoldable pub bounded_key : String → String
  bounded_key value = if ltb text_limit (characters value) then truncated else bounded value

  -- The loop over the selected keys of a dict.
  unfoldable pub bounded_dict : (Json → Json) → Json → Fields → List String → Json
  bounded_dict inner v done [] = obj done
  bounded_dict inner v done (k ∷ ks) =
      let rest = bounded_dict inner v (put (bounded_key k) (inner (get v k)) done) ks in
      if has (obj done) (bounded_key k) then str truncated else rest

  -- A value above the deepest level.
  abbrev pub bounded_here : (Json → Json) → Json → Json
  bounded_here inner (str s) = str (bounded s)
  bounded_here inner (obj fs) =
      bounded_dict inner (obj fs) end (take max_nested_items (sorted_by (λ k. k) (keys fs)))
  bounded_here inner (arr xs) = array (map inner (take max_nested_items (to_list xs)))
  bounded_here inner v = v

  abbrev pub bounded_deepest : Json → Json
  bounded_deepest (str s) = str (bounded s)
  bounded_deepest _ = str truncated

  -- `_bounded_value` with so many levels left below it, but for the size of the whole.
  unfoldable pub bounded_level : ℕ → Json → Json
  bounded_level zero v = bounded_deepest (redact rules none v)
  bounded_level (suc left) v = bounded_here (bounded_level left) (redact rules none v)

  unfoldable pub bounded_value : (Json → ℕ) → Json → Json
  bounded_value bytes v =
      let kept = bounded_level 4 v in
      if ltb max_bounded_bytes (bytes kept) then str truncated else kept

  abbrev pub bounded_at : String → Json → Json
  bounded_at key v = str (bounded (text_at key v))

  abbrev pub bounded_state : Json → Fields
  bounded_state v = if has v "state" then field "state" (bounded_at "state" v) end else end

  unfoldable pub event_summary : Json → Json
  event_summary v = obj (
      field "sequence" (get v "sequence") (
        field "event" (bounded_at "event" v)
          (field "recorded_at" (bounded_at "recorded_at" v) (bounded_state v))))

  unfoldable pub effect_summary : Json → Json
  effect_summary v = obj (
      dict (
        ("effect_id", bounded_at "effect_id" v)
        ∷ ("kind", bounded_at "kind" v)
        ∷ ("status", get v "status")
        ∷ []))

  unfoldable pub reference_of : (Json → String) → Json → Reference
  reference_of digest v = record {
    unit = bounded (text_at "unit" v);
    manifest_sha256 = digest (get v "manifest");
    total_bytes = get (get v "manifest") "total_bytes";
    files = take max_evidence_files (files_of v);
  }

  unfoldable pub bounded_projection : (Json → ℕ) → Json → List String → Fields
  bounded_projection bytes p [] = end
  bounded_projection bytes p (k ∷ ks) =
      let rest = bounded_projection bytes p ks in
      if has p k then field k (bounded_value bytes (get p k)) rest else rest

  unfoldable pub run_part : Json → Json
  run_part identity = obj (
      dict (
        ("run_id", bounded_at "run_id" identity)
        ∷ ("bead_id", bounded_at "bead_id" identity)
        ∷ ("repository", bounded_at "repository" identity)
        ∷ ("base_branch", bounded_at "base_branch" identity)
        ∷ ("base_sha", get identity "base_sha")
        ∷ ("created_at", bounded_at "created_at" identity)
        ∷ []))

  unfoldable pub episode_part : (Json → ℕ) → Json → Json → Json
  episode_part bytes event p = obj (
      dict (
        ("sequence", get event "sequence")
        ∷ ("event", bounded_at "event" event)
        ∷ ("recorded_at", bounded_at "recorded_at" event)
        ∷ ("state", bounded_at "state" event)
        ∷ ("checkpoint", bounded_value bytes (get p "checkpoint"))
        ∷ []))

  -- The summary's facts before they are redacted as a whole.
  unfoldable pub summary_facts : (Json → String) → (Json → ℕ) → Snapshot → Summary
  summary_facts digest bytes snapshot =
      let events = take_last max_events snapshot.events in
      let effects = take inventory_limit snapshot.effects in
      let evidence = take inventory_limit snapshot.evidence in
      record {
        run = run_part snapshot.identity;
        episode = episode_part bytes snapshot.event snapshot.projection;
        projection = bounded_projection bytes snapshot.projection projection_fields;
        events = map event_summary events;
        effects = map effect_summary effects;
        evidence = map (reference_of digest) evidence;
        omitted = record {
          events = length snapshot.events - length events;
          effects = snapshot.omitted_effects + length snapshot.effects - length effects;
          evidence_units = snapshot.omitted_units + length snapshot.evidence - length evidence;
          evidence_files = omitted_files evidence;
        };
        citation_manifest = null;
      }

  unfoldable pub redact_reference : Reference → Reference
  redact_reference r = record {
    unit = redact_text r.unit;
    manifest_sha256 = redact_text r.manifest_sha256;
    total_bytes = redact rules (some "total_bytes") r.total_bytes;
    files = map (redact rules (some "files")) r.files;
  }

  -- `redact_artifact_value` of the facts, where no key of the summary is a secret one.
  unfoldable pub redact_summary : Summary → Summary
  redact_summary s = record s {
    run = redact rules (some "run") s.run;
    episode = redact rules (some "episode") s.episode;
    projection = redact_fields rules s.projection;
    events = map (redact rules (some "events")) s.events;
    effects = map (redact rules (some "effects")) s.effects;
    evidence = map redact_reference s.evidence;
  }

-- `summary["citation_manifest"] = citation_manifest(summary)`
unfoldable pub with_citations : Summary → Summary
with_citations s = record s { citation_manifest = citation_manifest (summary_json s) }

-- The summary before it is fitted.
abbrev pub whole_summary : TextRules → (Json → String) → (Json → ℕ) → Snapshot → Summary
whole_summary rules digest bytes snapshot =
    with_citations (redact_summary rules (summary_facts rules digest bytes snapshot))

-- The summary that is fitted, with the fuel that its parts ask for.
unfoldable pub fitted_summary : TextRules → (Json → String) → (Json → ℕ) → Snapshot → Option Summary
fitted_summary rules digest bytes snapshot =
    let s = whole_summary rules digest bytes snapshot in fit_summary bytes (suc (weight s)) s

abbrev pub same_state : Option String → String → Bool
same_state none state = false
same_state (some expected) state = str_eq state expected

-- `_validate_episode`
unfoldable pub validate_episode : String → String → ℕ → Result (Unit {0})
validate_episode event state sequence =
    guard (same_state (expected_episode_state event) state)
      (store_error (cat "sequence " (cat (decimal sequence) " is not a retrospective episode")))

abbrev pub over_limit : Failure
over_limit = store_error "Run Summary identity exceeds its byte limit"

-- `if len(rendered.encode("utf-8")) > MAX_RUN_SUMMARY_BYTES: raise`
unfoldable pub within_limit : (Json → ℕ) → Summary → Result Summary
within_limit bytes s = guard (leb (bytes (summary_json s)) max_summary_bytes) over_limit >> ok s

-- The first check of `build_run_summary`
abbrev pub checked_episode : Snapshot → Result (Unit {0})
checked_episode snapshot =
    validate_episode (text_at "event" snapshot.event) (text_at "state" snapshot.event)
      snapshot.sequence

abbrev pub all_within : (Json → ℕ) → Option Summary → Option (Result Summary)
all_within bytes none = none
all_within bytes (some s) = some (within_limit bytes s)

abbrev pub build_checked :
    TextRules
    → (Json → String)
    → (Json → ℕ)
    → Snapshot
    → Result (Unit {0})
    → Option (Result Summary)
build_checked rules digest bytes snapshot (err failure) = some (err failure)
build_checked rules digest bytes snapshot (ok u) =
    all_within bytes (fitted_summary rules digest bytes snapshot)

-- The summary that is rendered and sealed; `none` where the loop that fits it runs out of fuel.
unfoldable pub build_run_summary :
    TextRules → (Json → String) → (Json → ℕ) → Snapshot → Option (Result Summary)
build_run_summary rules digest bytes snapshot =
    build_checked rules digest bytes snapshot (checked_episode snapshot)

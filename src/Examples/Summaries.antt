-- ===== src/Examples/Summaries.antt =====
-- A Run Summary that is too long for its limit, and a pointer into one.
use afk_composable_pipeline.Common.{
  ℕ, ◌+◌, ◌*◌, ◌<◌, ◌≤◌, String, List, [], ◌∷◌, Option, none, some, str_eq, if◌then◌else◌, false,
  true, length, ◌≡◌, refl, arith, characters,
}
use afk_composable_pipeline.Json.{
  Json, Fields, null, str, arr, obj, nil, cons, end, field, nat, dict, truthy,
}
use afk_composable_pipeline.Json.Lists.{elements}
use afk_composable_pipeline.Json.{get}
use afk_composable_pipeline.Retrospective.Inventory.{text_limit}
use afk_composable_pipeline.Retrospective.Summary.{Summary, fit_summary, summary_json}
use afk_composable_pipeline.Retrospective.Summary.Steps.{weight, Trimmed}
use afk_composable_pipeline.Retrospective.Summary.Fit.{IsDone, fit_summary_total}
use afk_composable_pipeline.Retrospective.Pointer.{resolve_pointer}
use afk_composable_pipeline.Errors.{Result}
use afk_composable_pipeline.Redaction.{TextRules}
use afk_composable_pipeline.Retrospective.Summary.Build.{Snapshot, build_run_summary}
use afk_composable_pipeline.Retrospective.Summary.Built.{Plain, IsBuilt, build_run_summary_total}
use afk_composable_pipeline.Retrospective.Result.{JsonText, byte_count}
use afk_composable_pipeline.Retrospective.Cached.{
  sealed_record, validate_cached_summary, KeepsIdentity, Answers, validate-sealed_record,
}
use afk_composable_pipeline.Retrospective.Summary.{max_summary_bytes}
use afk_composable_pipeline.Retrospective.Pointer.Escape.{
  value_at, pointer_of, resolve_pointer-pointer_of,
}

abbrev long : Summary
long = record {
  run = obj (field "run_id" (str "run-1") end);
  episode = obj (field "state" (str "completed") end);
  projection = dict (("state", str "completed") ∷ ("unit", str "afk-1") ∷ []);
  events = nat 1 ∷ nat 2 ∷ [];
  effects = [];
  evidence =
      record {
        unit = "attempts/validation-1";
        manifest_sha256 = "0";
        total_bytes = nat 3;
        files = str "a" ∷ str "b" ∷ [];
      }
      ∷ [];
  omitted = record { events = 0; effects = 0; evidence_units = 0; evidence_files = 0 };
  citation_manifest = null;
}

-- Each event and each file counts for 20000 bytes.
abbrev toy_bytes : Json → ℕ
toy_bytes v =
    20000 * length (elements (get v "events")) + 40000 * length (elements (get v "evidence"))

long-weight : weight long < 9
unfolding weight afk_composable_pipeline.Retrospective.Summary.Steps.file_count
    afk_composable_pipeline.Json.size
long-weight = omega arith

fit_summary_total_example :
    (t : Summary) × (fit_summary toy_bytes 9 long ≡ some t) × Trimmed long t × IsDone toy_bytes t
fit_summary_total_example = fit_summary_total toy_bytes 9 long long-weight

abbrev document : Json
document = obj (field "a/b~" (arr (cons null (cons (nat 7) nil))) end)

short : characters (pointer_of "a/b~" ("1" ∷ [])) ≤ text_limit
unfolding characters afk_composable_pipeline.Common.cat
    afk_composable_pipeline.Text.FilePath.join_slash
    afk_composable_pipeline.Retrospective.Pointer.Escape.escape
short = omega arith

resolve_pointer-pointer_of_example :
    resolve_pointer document (pointer_of "a/b~" ("1" ∷ [])) ≡ value_at document ("a/b~" ∷ "1" ∷ [])
resolve_pointer-pointer_of_example = resolve_pointer-pointer_of document "a/b~" ("1" ∷ []) short

resolves : value_at document ("a/b~" ∷ "1" ∷ []) ≡ some (nat 7)
unfolding value_at afk_composable_pipeline.Retrospective.Pointer.child
    afk_composable_pipeline.Json.lookup afk_composable_pipeline.Retrospective.Pointer.is_index
    afk_composable_pipeline.Common.all_chars characters
    afk_composable_pipeline.Retrospective.Pointer.item_at
    afk_composable_pipeline.Retrospective.Pointer.number_from
resolves = refl

abbrev toy_rules : TextRules
toy_rules = record { redact_text = λ s. s; is_secret_key = λ s. false; is_secret_flag = λ s. false }

toy_rules-Plain : Plain toy_rules
toy_rules-Plain = record {
  run = refl;
  episode = refl;
  state = refl;
  attention = refl;
  completed = refl;
}

abbrev snapshot : Snapshot
snapshot = record {
  sequence = 2;
  identity = obj (field "run_id" (str "run-1") end);
  event = obj (dict (("event", str "run.completed") ∷ ("state", str "completed") ∷ []));
  events = nat 1 ∷ nat 2 ∷ [];
  projection = obj (field "state" (str "completed") end);
  effects = null ∷ [];
  evidence = [];
  omitted_effects = 2;
  omitted_units = 0;
}

build_run_summary_total_example :
    (r : Result Summary) × (build_run_summary toy_rules (λ v. "0") toy_bytes snapshot ≡ some r)
    × IsBuilt toy_bytes snapshot r
build_run_summary_total_example =
    build_run_summary_total toy_rules (λ v. "0") toy_bytes snapshot toy_rules-Plain

-- The one text that this codec reads is that of the dict without keys.
abbrev toy_json : JsonText
toy_json = record {
  loads = λ s. if str_eq s "{}" then some (obj end) else none;
  dumps = λ v. if truthy v then "[]" else "{}";
  reload = λ v. v;
}

empty_short : byte_count (toy_json.dumps (obj end)) ≤ max_summary_bytes
unfolding byte_count truthy
empty_short = omega arith

empty_loaded : toy_json.loads (toy_json.dumps (obj end)) ≡ some (obj end)
unfolding truthy
empty_loaded = refl

toy_rules-KeepsIdentity : KeepsIdentity toy_rules "run-1" "run.completed" "completed"
toy_rules-KeepsIdentity = record {
  schema_version = refl;
  run_id_key = refl;
  episode_sequence = refl;
  episode_event = refl;
  episode_state = refl;
  summary = refl;
  run_id_kept = refl;
  event_kept = refl;
  state_kept = refl;
}

validate-sealed_record_example :
    Answers toy_rules toy_json "run-1" "run.completed" "completed" 7 (toy_json.dumps (obj end)) (
      validate_cached_summary toy_json "run-1" 7 "run.completed" "completed"
        (toy_json.dumps (obj end))
        (sealed_record toy_rules "run-1" 7 "run.completed" "completed" (toy_json.dumps (obj end))))
validate-sealed_record_example =
    validate-sealed_record toy_rules toy_json "run-1" "run.completed" "completed" 7 (obj end)
      toy_rules-KeepsIdentity empty_short empty_loaded

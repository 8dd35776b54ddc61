-- ===== src/Retrospective/Summary.antt =====
-- The Run Summary of src/afk/run_summary.py: its citation manifest and `_fit_summary`, which drops
-- parts until the summary has its size. The bytes of the canonical JSON are a parameter.
pub mod Steps
pub mod Fit
pub mod Build
pub mod Redacted
pub mod Counts
pub mod Built
use afk_composable_pipeline.Common.{
  ℕ, zero, suc, ◌+◌, String, List, [], ◌∷◌, Option, none, some, Bool, true, false, not, ◌&&◌, leb,
  length, map, str_eq, get_last?, if◌then◌else◌,
}
use afk_composable_pipeline.Common.Order.{sorted_by}
use afk_composable_pipeline.Json.{Json, Fields, str, obj, end, field, nat, get, dict, size, is_str}
use afk_composable_pipeline.Json.Lists.{array}

-- `MAX_RUN_SUMMARY_BYTES`
abbrev pub max_summary_bytes : ℕ
max_summary_bytes = 65536

-- A reference to a sealed evidence unit.
pub record Reference : Type 0 where
  pub unit : String
  pub manifest_sha256 : String
  pub total_bytes : Json
  pub files : List Json

pub record Omitted : Type 0 where
  pub events : ℕ
  pub effects : ℕ
  pub evidence_units : ℕ
  pub evidence_files : ℕ

pub record Summary : Type 0 where
  pub run : Json
  pub episode : Json
  pub projection : Fields
  pub events : List Json
  pub effects : List Json
  pub evidence : List Reference
  pub omitted : Omitted
  pub citation_manifest : Json

unfoldable pub reference_json : Reference → Json
reference_json r = obj (
    dict (
      ("unit", str r.unit)
      ∷ ("manifest_sha256", str r.manifest_sha256)
      ∷ ("total_bytes", r.total_bytes)
      ∷ ("files", array r.files)
      ∷ []))

unfoldable pub omitted_json : Omitted → Json
omitted_json o = obj (
    dict (
      ("events", nat o.events)
      ∷ ("effects", nat o.effects)
      ∷ ("evidence_units", nat o.evidence_units)
      ∷ ("evidence_files", nat o.evidence_files)
      ∷ []))

unfoldable pub summary_json : Summary → Json
summary_json s = obj (
    dict (
      ("schema_version", nat 2)
      ∷ ("run", s.run)
      ∷ ("episode", s.episode)
      ∷ ("projection", obj s.projection)
      ∷ ("events", array s.events)
      ∷ ("effects", array s.effects)
      ∷ ("evidence", array (map reference_json s.evidence))
      ∷ ("omitted", omitted_json s.omitted)
      ∷ ("citation_manifest", s.citation_manifest)
      ∷ []))

abbrev pub citation : String → String → Json
citation kind pointer = obj (dict (("kind", str kind) ∷ ("summary_pointer", str pointer) ∷ []))

unfoldable pub json_citations : Fields → Fields
json_citations rest = field "effects.json" (citation "json" "/effects") (
    field "episode.json" (citation "json" "/episode") (
      field "events.jsonl" (citation "event" "/events") (
        field "evidence.json" (citation "json" "/evidence") (
          field "omitted.json" (citation "json" "/omitted") (
            field "projection.json" (citation "json" "/projection")
              (field "run.json" (citation "json" "/run") rest))))))

-- `citation_manifest`, of a summary's value
unfoldable pub citation_manifest : Json → Json
unfolding json_citations
citation_manifest summary = obj (
    json_citations (
      if is_str (get (get summary "episode") "checkpoint")
      then field "episode-checkpoint.txt" (citation "text" "/episode/checkpoint") end
      else end))

-- `xs.pop()`
abbrev pub drop_last {ℓ} : {A : Type ℓ} → List A → List A
drop_last [] = []
drop_last (x ∷ []) = []
drop_last (x ∷ y ∷ ys) = x ∷ drop_last (y ∷ ys)

abbrev pub drop_first {ℓ} : {A : Type ℓ} → List A → List A
drop_first [] = []
drop_first (x ∷ xs) = xs

abbrev pub is_nil {ℓ} : {A : Type ℓ} → List A → Bool
is_nil [] = true
is_nil (x ∷ xs) = false

abbrev pub keep_before : Reference → Option (List Reference) → Option (List Reference)
keep_before r (some rs) = some (r ∷ rs)
keep_before r none = none

abbrev pub or_else {ℓ} : {A : Type ℓ} → Option A → Option A → Option A
or_else (some x) other = some x
or_else none other = other

abbrev pub pop_file : Reference → List Reference → Option (List Reference)
pop_file r rs = if is_nil r.files then none else some (record r { files = drop_last r.files } ∷ rs)

-- The last reference that has a file loses its last one.
unfoldable pub drop_last_file : List Reference → Option (List Reference)
drop_last_file [] = none
drop_last_file (r ∷ rs) = or_else (keep_before r (drop_last_file rs)) (pop_file r rs)

abbrev pub removable_key : String → Bool
removable_key k = not (str_eq k "state") && not (str_eq k "checkpoint")

unfoldable pub removable_keys : Fields → List String
removable_keys end = []
removable_keys (field k v fs) =
    let rest = removable_keys fs in if removable_key k then k ∷ rest else rest

-- `del d[k]`
unfoldable pub delete : String → Fields → Fields
delete k end = end
delete k (field j v fs) = let rest = field j v (delete k fs) in if str_eq j k then fs else rest

abbrev pub count_file : Summary → Option (List Reference) → Option Summary
count_file s none = none
count_file s (some rs) = some (record s {
  evidence = rs;
  omitted = record s.omitted { evidence_files = suc s.omitted.evidence_files };
})

abbrev pub drop_file : Summary → Option Summary
drop_file s = count_file s (drop_last_file s.evidence)

abbrev pub drop_event : Summary → Option Summary
drop_event s =
    if leb 2 (length s.events)
    then some (record s {
      events = drop_first s.events;
      omitted = record s.omitted { events = suc s.omitted.events };
    })
    else none

abbrev pub drop_effect : Summary → Option Summary
drop_effect s =
    if is_nil s.effects
    then none
    else some (record s {
      effects = drop_last s.effects;
      omitted = record s.omitted { effects = suc s.omitted.effects };
    })

abbrev pub drop_unit : Summary → Option Summary
drop_unit s =
    if is_nil s.evidence
    then none
    else some (record s {
      evidence = drop_last s.evidence;
      omitted = record s.omitted { evidence_units = suc s.omitted.evidence_units };
    })

abbrev pub delete_key : Summary → Option String → Option Summary
delete_key s none = none
delete_key s (some k) = some (record s { projection = delete k s.projection })

-- `removable[0]` is deleted, the greatest of the keys.
abbrev pub drop_key : Summary → Option Summary
drop_key s = delete_key s (get_last? (sorted_by (λ k. k) (removable_keys s.projection)))

-- The body of the loop; `none` is its return.
unfoldable pub fit_step : Summary → Option Summary
fit_step s =
    or_else (drop_file s)
      (or_else (drop_event s) (or_else (drop_effect s) (or_else (drop_unit s) (drop_key s))))

abbrev continue_fit : (Summary → Option Summary) → Summary → Option Summary → Option Summary
continue_fit loop s none = some s
continue_fit loop s (some t) = loop t

-- `_fit_summary`, with fuel; `none` means that the fuel ran out.
unfoldable pub fit_summary : (Json → ℕ) → ℕ → Summary → Option Summary
fit_summary bytes zero s = none
fit_summary bytes (suc fuel) s =
    let rest = continue_fit (fit_summary bytes fuel) s (fit_step s) in
    if leb (bytes (summary_json s)) max_summary_bytes then some s else rest

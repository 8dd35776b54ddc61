-- ===== src/Retrospective/Summary/Redacted.antt =====
-- The redaction of the facts in src/afk/run_summary.py, part by part and as one value.
use afk_composable_pipeline.Common.{
  String, List, [], ◌∷◌, Option, some, none, true, false, map, ◌≡◌, refl,
}
use afk_composable_pipeline.Common.Order.{is_in}
use afk_composable_pipeline.Json.{Json, obj, nat, dict}
use afk_composable_pipeline.Json.Lists.{array, of_list}
use afk_composable_pipeline.Redaction.{TextRules, redact, redact_items}
use afk_composable_pipeline.Retrospective.Summary.{Reference, Summary, reference_json, omitted_json}
use afk_composable_pipeline.Retrospective.Summary.Build.{redact_summary, redact_reference}

-- The dict of `build_run_summary`, which has no citations yet.
unfoldable pub facts_json : Summary → Json
facts_json s = obj (
    dict (
      ("schema_version", nat 2)
      ∷ ("run", s.run)
      ∷ ("episode", s.episode)
      ∷ ("projection", obj s.projection)
      ∷ ("events", array s.events)
      ∷ ("effects", array s.effects)
      ∷ ("evidence", array (map reference_json s.evidence))
      ∷ ("omitted", omitted_json s.omitted)
      ∷ []))

abbrev pub summary_keys : List String
summary_keys =
    "schema_version" ∷ "run" ∷ "episode" ∷ "projection" ∷ "events" ∷ "effects" ∷ "evidence"
    ∷ "omitted" ∷ "unit" ∷ "manifest_sha256" ∷ "files" ∷ "evidence_units" ∷ "evidence_files" ∷ []

module _ (rules : TextRules) where
  -- The rules call none of the summary's own keys secret.
  abbrev pub PlainKeys : Type 0
  PlainKeys = (k : String) → is_in k summary_keys ≡ true → rules.is_secret_key k ≡ false

  redact_items-of_list :
      (key : Option String) (xs : List Json)
      → redact_items rules key (of_list xs) ≡ of_list (map (redact rules key) xs)
  unfolding redact
  redact_items-of_list key [] = refl
  redact_items-of_list key (x ∷ xs) = rw (redact_items-of_list key xs) refl

  redact-reference_json :
      (r : Reference)
      → PlainKeys
      → redact rules (some "evidence") (reference_json r)
        ≡ reference_json (redact_reference rules r)
  unfolding redact reference_json redact_reference is_in
  redact-reference_json r p =
      rw
        (
          p "evidence" refl,
          p "unit" refl,
          p "manifest_sha256" refl,
          p "files" refl,
          redact_items-of_list (some "files") r.files,
        )
        refl

  references_redacted :
      (rs : List Reference)
      → PlainKeys
      → redact_items rules (some "evidence") (of_list (map reference_json rs))
        ≡ of_list (map reference_json (map (redact_reference rules) rs))
  unfolding redact
  references_redacted [] p = refl
  references_redacted (r ∷ rs) p = rw (redact-reference_json r p, references_redacted rs p) refl

  pub redact-facts_json :
      (s : Summary)
      → PlainKeys
      → redact rules none (facts_json s) ≡ facts_json (redact_summary rules s)
  unfolding redact facts_json redact_summary omitted_json is_in
  redact-facts_json s p =
      rw
        (
          p "schema_version" refl,
          p "projection" refl,
          p "events" refl,
          p "effects" refl,
          p "evidence" refl,
          p "omitted" refl,
          p "evidence_units" refl,
          p "evidence_files" refl,
          redact_items-of_list (some "events") s.events,
          redact_items-of_list (some "effects") s.effects,
          references_redacted s.evidence p,
        )
        refl

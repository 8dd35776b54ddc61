-- ===== src/Retrospective/Summary/Counts.antt =====
-- What the summary of src/afk/run_summary.py shows and what it counts as omitted.
use afk_composable_pipeline.Common.{
  ℕ, zero, suc, ◌+◌, ◌-◌, String, List, [], ◌∷◌, some, length, take, map, ◌≡◌, refl, ◌∙◌, arith,
}
use afk_composable_pipeline.Common.Order.{length-map}
use afk_composable_pipeline.Json.{Json}
use afk_composable_pipeline.Redaction.{TextRules, redact}
use afk_composable_pipeline.Retrospective.Inventory.{inventory_limit}
use afk_composable_pipeline.Retrospective.Summary.{Summary}
use afk_composable_pipeline.Retrospective.Summary.Steps.{file_count, Trimmed}
use afk_composable_pipeline.Retrospective.Summary.Build.{
  Snapshot, drop, take_last, max_events, summary_facts, redact_summary, with_citations,
  whole_summary, event_summary, effect_summary, reference_of, redact_reference, omitted_files,
  files_of, max_evidence_files,
}

length-take_omitted {ℓ} :
    {A : Type ℓ} (n : ℕ) (xs : List A)
    → length xs - length (take n xs) + length (take n xs) ≡ length xs
length-take_omitted zero xs = omega arith
length-take_omitted (suc n) [] = omega arith
length-take_omitted (suc n) (x ∷ xs) = omega (arith, length-take_omitted n xs)

length-drop {ℓ} : {A : Type ℓ} (n : ℕ) (xs : List A) → length (drop n xs) ≡ length xs - n
length-drop zero xs = omega arith
length-drop (suc n) [] = omega arith
length-drop (suc n) (x ∷ xs) = omega (arith, length-drop n xs)

-- The files of the units.
unfoldable pub all_files : List Json → ℕ
all_files [] = 0
all_files (v ∷ vs) = length (files_of v) + all_files vs

files_counted :
    (rules : TextRules) (digest : Json → String) (vs : List Json)
    → omitted_files vs
        + file_count (map (redact_reference rules) (map (reference_of rules digest) vs))
      ≡ all_files vs
unfolding omitted_files file_count redact_reference reference_of all_files
files_counted rules digest [] = refl
files_counted rules digest (v ∷ vs) = omega (
  arith,
  files_counted rules digest vs,
  length-take_omitted max_evidence_files (files_of v),
  length-map (redact rules (some "files")) (take max_evidence_files (files_of v)),
)

twice_mapped {ℓ κ μ} :
    {A : Type ℓ} {B : Type κ} {C : Type μ} (g : B → C) (f : A → B) (xs : List A)
    → length (map g (map f xs)) ≡ length xs
twice_mapped g f xs = length-map g (map f xs) ∙ length-map f xs

-- Every fact of the snapshot is in the summary, or counted as omitted.
pub record IsCounted (snapshot : Snapshot) (t : Summary) : Type 0 where
  pub events : t.omitted.events + length t.events ≡ length snapshot.events
  pub effects :
      t.omitted.effects + length t.effects ≡ snapshot.omitted_effects + length snapshot.effects
  pub units :
      t.omitted.evidence_units + length t.evidence
      ≡ snapshot.omitted_units + length snapshot.evidence
  pub files :
      t.omitted.evidence_files + file_count t.evidence
      ≡ all_files (take inventory_limit snapshot.evidence)

module _ (rules : TextRules) (digest : Json → String) (bytes : Json → ℕ) (snapshot : Snapshot) where
  abbrev whole : Summary
  whole = whole_summary rules digest bytes snapshot

  pub whole-IsCounted : IsCounted snapshot whole
  unfolding with_citations redact_summary summary_facts
  whole-IsCounted = record {
    events = omega (
      arith,
      twice_mapped (redact rules (some "events")) (event_summary rules)
          (take_last max_events snapshot.events),
      length-drop (length snapshot.events - max_events) snapshot.events,
    );
    effects = omega (
      arith,
      twice_mapped (redact rules (some "effects")) (effect_summary rules)
          (take inventory_limit snapshot.effects),
      length-take_omitted inventory_limit snapshot.effects,
    );
    units = omega (
      arith,
      twice_mapped (redact_reference rules) (reference_of rules digest)
          (take inventory_limit snapshot.evidence),
      length-take_omitted inventory_limit snapshot.evidence,
    );
    files = files_counted rules digest (take inventory_limit snapshot.evidence);
  }

  pub Trimmed-IsCounted : (t : Summary) → Trimmed whole t → IsCounted snapshot t
  Trimmed-IsCounted t k = record {
    events = k.events ∙ whole-IsCounted.events;
    effects = k.effects ∙ whole-IsCounted.effects;
    units = k.units ∙ whole-IsCounted.units;
    files = k.files ∙ whole-IsCounted.files;
  }

-- ===== src/Retrospective/Summary/Fit.antt =====
-- The loop of `_fit_summary` of src/afk/run_summary.py: it ends, and what it ends with.
use afk_composable_pipeline.Common.{
  ℕ, zero, suc, ◌≤◌, ◌<◌, String, List, Option, none, some, Bool, true, false, leb, get_last?, ◌≡◌,
  refl, ◌∙◌, arith, eq_iff, ◌⊎◌, inl, inr,
}
use afk_composable_pipeline.Common.Order.{sorted_by, all-sorted_by}
use afk_composable_pipeline.Json.{Json}
use afk_composable_pipeline.Retrospective.Summary.{
  Reference, Summary, or_else, drop_last_file, removable_keys, count_file, delete_key, drop_file,
  drop_event, drop_effect, drop_unit, drop_key, fit_step, fit_summary, summary_json,
  max_summary_bytes,
}
use afk_composable_pipeline.Retrospective.Summary.Steps.{
  file_count, weight, Trimmed, Trimmed-refl, Trimmed-trans, RoundOf, FileLess, LastOf, in_fields,
  drop_last_file-FileLess, count_file-RoundOf, drop_event-RoundOf, drop_effect-RoundOf,
  drop_unit-RoundOf, removable_keys_in, get_last?-all, size-delete, lookup-delete,
}

delete_key-RoundOf :
    (s : Summary) (key : Option String)
    → LastOf (in_fields s.projection) key
    → RoundOf s (delete_key s key)
unfolding weight
delete_key-RoundOf s none h = tt
delete_key-RoundOf s (some k) h = ground (
  arith,
  eq_iff k "state",
  eq_iff "state" k,
  eq_iff k "checkpoint",
  eq_iff "checkpoint" k,
  size-delete k s.projection,
  lookup-delete "state" k s.projection,
  lookup-delete "checkpoint" k s.projection,
)

drop_key-RoundOf : (s : Summary) → RoundOf s (drop_key s)
drop_key-RoundOf s =
    let ks = removable_keys s.projection in
    let inside = in_fields s.projection in
    delete_key-RoundOf s (get_last? (sorted_by (λ k. k) ks)) (
      get_last?-all inside (sorted_by (λ k. k) ks)
        (all-sorted_by inside (λ k. k) ks ∙ removable_keys_in s.projection))

or_else-RoundOf :
    (s : Summary) (a b : Option Summary)
    → RoundOf s a
    → (a ≡ none → RoundOf s b)
    → RoundOf s (or_else a b)
or_else-RoundOf s (some t) b h rest = h
or_else-RoundOf s none b h rest = rest refl

no_file :
    (s : Summary) (found : Option (List Reference))
    → FileLess s.evidence found
    → count_file s found ≡ none
    → file_count s.evidence ≡ 0
no_file s none h e = h
no_file s (some rs) h e = ground arith

-- Every round drops something, and counts it.
pub fit_step-RoundOf : (s : Summary) → RoundOf s (fit_step s)
unfolding fit_step
fit_step-RoundOf s =
    let found = drop_last_file s.evidence in
    let less = drop_last_file-FileLess s.evidence in
    or_else-RoundOf s (drop_file s) _ (count_file-RoundOf s found less) (λ e.
      or_else-RoundOf s (drop_event s) _ (drop_event-RoundOf s) (λ _.
        or_else-RoundOf s (drop_effect s) _ (drop_effect-RoundOf s) (λ _.
          or_else-RoundOf s (drop_unit s) _ (drop_unit-RoundOf s (no_file s found less e))
            (λ _. drop_key-RoundOf s))))

-- The loop's result is within its bytes, or nothing more can be dropped.
abbrev pub IsDone : (Json → ℕ) → Summary → Type 0
IsDone bytes t = (bytes (summary_json t) ≤ max_summary_bytes) ⊎ (fit_step t ≡ none)

-- With more fuel than the summary has parts, the loop that fits it ends, with a summary that is
-- within its bytes or from which nothing more can be dropped; it counts what it dropped, and keeps
-- the run, the episode, the citation manifest, the state and the checkpoint.
pub fit_summary_total :
    (bytes : Json → ℕ) (fuel : ℕ) (s : Summary)
    → weight s < fuel
    → (t : Summary) × (fit_summary bytes fuel s ≡ some t) × Trimmed s t × IsDone bytes t
unfolding fit_summary
fit_summary_total bytes zero s h = absurd (omega arith)
fit_summary_total bytes (suc fuel) s h =
    go (fit_step s) refl (fit_step-RoundOf s) (leb (bytes (summary_json s)) max_summary_bytes) refl
      (fit_summary_total bytes fuel)
  where
    go :
        (next : Option Summary)
        → fit_step s ≡ next
        → RoundOf s next
        → (fits : Bool) → leb (bytes (summary_json s)) max_summary_bytes ≡ fits
        → ((t : Summary)
            → weight t < fuel
            → (u : Summary) × (fit_summary bytes fuel t ≡ some u) × Trimmed t u × IsDone bytes u)
        → (t : Summary) × (fit_summary bytes (suc fuel) s ≡ some t) × Trimmed s t × IsDone bytes t
    go next e round true fits ih = (s, rw fits refl, Trimmed-refl s, inl (ground arith))
    go none e round false fits ih = (s, rw (fits, e) refl, Trimmed-refl s, inr e)
    go (some t) e round false fits ih =
        let found = ih t (ground (arith, round.smaller)) in
        (found.0, rw (fits, e) found.1, Trimmed-trans s t found.0 round.trimmed found.2, found.3)

-- ===== src/Retrospective/Summary/Built.antt =====
-- The summary that src/afk/run_summary.py builds, and what src/afk/retrospective_result.py reads.
use afk_composable_pipeline.Common.{
  ℕ, suc, String, List, [], ◌∷◌, none, some, ◌≤◌, ◌<◌, leb, str_eq, Bool, true, false,
  if◌then◌else◌, ◌≡◌, refl, arith, characters, ◌⊎◌, inl, inr,
}
use afk_composable_pipeline.Json.{
  Json, str, obj, end, field, get, eq, is_dict, is_str, one_of, lookup,
}
use afk_composable_pipeline.Json.Laws.{str_eq_lem}
use afk_composable_pipeline.Redaction.{TextRules, redact}
use afk_composable_pipeline.Errors.{Result, Failure, ok, err, guard, ◌>>◌}
use afk_composable_pipeline.Retrospective.Status.{expected_episode_state}
use afk_composable_pipeline.Retrospective.Inventory.{bounded_text, text_at}
use afk_composable_pipeline.Retrospective.Summary.{
  Summary, summary_json, max_summary_bytes, fit_step, citation, citation_manifest, json_citations,
}
use afk_composable_pipeline.Retrospective.Summary.Steps.{weight, Trimmed}
use afk_composable_pipeline.Retrospective.Summary.Fit.{IsDone, fit_summary_total}
use afk_composable_pipeline.Retrospective.Summary.Build.{
  Snapshot, summary_facts, redact_summary, with_citations, whole_summary, build_run_summary,
  run_part, episode_part, fitted_summary, within_limit, over_limit, same_state, validate_episode,
  build_checked,
}
use afk_composable_pipeline.Retrospective.Result.{valid_summary}
use afk_composable_pipeline.Retrospective.Summary.Counts.{IsCounted, Trimmed-IsCounted}

-- The rules leave the keys and the states alone that a summary is read by.
pub record Plain (rules : TextRules) : Type 0 where
  pub run : rules.is_secret_key "run" ≡ false
  pub episode : rules.is_secret_key "episode" ≡ false
  pub state : rules.is_secret_key "state" ≡ false
  pub attention : rules.redact_text "attention_required" ≡ "attention_required"
  pub completed : rules.redact_text "completed" ≡ "completed"

citations_eq :
    (b : Bool)
    → let v : Json = obj (
        json_citations (
          if b
          then field "episode-checkpoint.txt" (citation "text" "/episode/checkpoint") end
          else end)) in
      eq v v ≡ true
unfolding json_citations eq lookup
citations_eq true = refl
citations_eq false = refl

citation_manifest_eq : (v : Json) → eq (citation_manifest v) (citation_manifest v) ≡ true
unfolding citation_manifest
citation_manifest_eq v = citations_eq (is_str (get (get v "episode") "checkpoint"))

citations_same :
    (s t : Json) → get s "episode" ≡ get t "episode" → citation_manifest s ≡ citation_manifest t
unfolding citation_manifest
citations_same s t h = rw h refl

-- The episode ended the Run's work in one of the two states.
abbrev pub EpisodeState : String → Type 0
EpisodeState state = (state ≡ "attention_required") ⊎ (state ≡ "completed")

is_str_if : (b : Bool) (x y : String) → is_str (if b then str x else str y) ≡ true
is_str_if true x y = refl
is_str_if false x y = refl

run_dict :
    (rules : TextRules) (identity : Json)
    → Plain rules
    → let v = redact rules (some "run") (run_part rules identity) in
      (is_dict v ≡ true) × (is_str (get v "run_id") ≡ true)
unfolding redact run_part get lookup
run_dict rules identity p = rw p.run (refl, is_str_if (rules.is_secret_key "run_id") _ _)

-- A word of a state passes the bound and the redaction.
abbrev Kept : TextRules → String → Type 0
Kept rules word = bounded_text (rules.redact_text word) ≡ word

attention-Kept : (rules : TextRules) → Plain rules → Kept rules "attention_required"
unfolding bounded_text characters
attention-Kept rules p = rw p.attention refl

completed-Kept : (rules : TextRules) → Plain rules → Kept rules "completed"
unfolding bounded_text characters
completed-Kept rules p = rw p.completed refl

abbrev states : List String
states = "attention_required" ∷ "completed" ∷ []

state_read :
    (rules : TextRules) (state : String)
    → Plain rules
    → EpisodeState state
    → one_of states (str (rules.redact_text (bounded_text (rules.redact_text state)))) ≡ true
unfolding eq
state_read rules state p (inl a) = rw (a, attention-Kept rules p, p.attention) refl
state_read rules state p (inr c) = rw (c, completed-Kept rules p, p.completed) refl

episode_dict :
    (rules : TextRules) (bytes : Json → ℕ) (event projection : Json)
    → Plain rules
    → EpisodeState (text_at "state" event)
    → let v = redact rules (some "episode") (episode_part rules bytes event projection) in
      (is_dict v ≡ true) × (one_of states (get v "state") ≡ true)
unfolding redact episode_part get lookup
episode_dict rules bytes event projection p at =
    rw p.episode (refl, rw p.state (state_read rules (text_at "state" event) p at))

summary_valid :
    (s t : Summary)
    → t.run ≡ s.run
    → t.episode ≡ s.episode
    → t.citation_manifest ≡ citation_manifest (summary_json s)
    → is_dict s.run ≡ true
    → is_str (get s.run "run_id") ≡ true
    → is_dict s.episode ≡ true
    → one_of states (get s.episode "state") ≡ true
    → valid_summary (summary_json t) ≡ true
unfolding valid_summary summary_json get lookup citation_manifest
summary_valid s t run episode cited d i e o =
    rw (cited, run, episode) (rw (d, i, e, o) (citations_eq (is_str (get s.episode "checkpoint"))))

built_valid :
    (rules : TextRules) (digest : Json → String) (bytes : Json → ℕ) (snapshot : Snapshot)
    (t : Summary)
    → let facts = redact_summary rules (summary_facts rules digest bytes snapshot) in
      Trimmed (with_citations facts) t
      → Plain rules
      → EpisodeState (text_at "state" snapshot.event)
      → valid_summary (summary_json t) ≡ true
unfolding with_citations redact_summary summary_facts
built_valid rules digest bytes snapshot t k p at =
    let run = run_dict rules snapshot.identity p in
    let episode = episode_dict rules bytes snapshot.event snapshot.projection p at in
    summary_valid (redact_summary rules (summary_facts rules digest bytes snapshot)) t k.run
      k.episode k.citations run.0 run.1 episode.0 episode.1

attention_or_completed :
    (state : String) (is_attention is_completed : Bool)
    → same_state
        (if is_attention
          then some "attention_required"
          else if is_completed
          then some "completed"
          else none)
        state
      ≡ true
    → EpisodeState state
attention_or_completed state true is_completed h = inl (str_eq_lem state "attention_required" h)
attention_or_completed state false true h = inr (str_eq_lem state "completed" h)
attention_or_completed state false false h = ground arith

episode_state :
    (event state : String)
    → same_state (expected_episode_state event) state ≡ true
    → EpisodeState state
unfolding expected_episode_state
episode_state event state h =
    attention_or_completed state (str_eq event "run.attention_required")
      (str_eq event "run.completed") h

abbrev pub is_episode : Snapshot → Bool
is_episode snapshot =
    same_state (expected_episode_state (text_at "event" snapshot.event))
      (text_at "state" snapshot.event)

-- What a build returns. A failure: the event is no retrospective episode, or the summary is over its
-- bytes and nothing more can be dropped. A summary: it is within its bytes, what it shows and what it
-- omits add up to the snapshot, and it is valid.
abbrev pub IsBuilt : (Json → ℕ) → Snapshot → Result Summary → Type 0
IsBuilt bytes snapshot (err failure) =
    (is_episode snapshot ≡ false)
    ⊎ ((failure ≡ over_limit)
        × ((t : Summary) × (max_summary_bytes < bytes (summary_json t))
            × (fit_step t ≡ none)
            × IsCounted snapshot t))
IsBuilt bytes snapshot (ok t) =
    (is_episode snapshot ≡ true)
    × (bytes (summary_json t) ≤ max_summary_bytes)
    × IsCounted snapshot t
    × (valid_summary (summary_json t) ≡ true)

within_limit-IsBuilt :
    (bytes : Json → ℕ) (snapshot : Snapshot) (t : Summary) (fits : Bool)
    → leb (bytes (summary_json t)) max_summary_bytes ≡ fits
    → is_episode snapshot ≡ true
    → IsDone bytes t
    → IsCounted snapshot t
    → valid_summary (summary_json t) ≡ true
    → IsBuilt bytes snapshot (guard fits over_limit >> ok t)
within_limit-IsBuilt bytes snapshot t true short at done counted valid =
    (at, ground arith, counted, valid)
within_limit-IsBuilt bytes snapshot t false long at (inl fits) counted valid = absurd (ground arith)
within_limit-IsBuilt bytes snapshot t false long at (inr last) counted valid =
    inr (refl, (t, ground arith, last, counted))

-- The answer of the build, by whether the event is a retrospective episode.
abbrev Answers : TextRules → (Json → String) → (Json → ℕ) → Snapshot → Result (Unit {0}) → Type 0
Answers rules digest bytes snapshot check =
    (r : Result Summary) × (build_checked rules digest bytes snapshot check ≡ some r)
    × IsBuilt bytes snapshot r

checked-Answers :
    (rules : TextRules) (digest : Json → String) (bytes : Json → ℕ) (snapshot : Snapshot)
    (failure : Failure) (b : Bool)
    → Plain rules
    → is_episode snapshot ≡ b
    → Answers rules digest bytes snapshot (guard b failure)
unfolding fitted_summary within_limit
checked-Answers rules digest bytes snapshot failure false p at = (err failure, refl, inl at)
checked-Answers rules digest bytes snapshot failure true p at =
    let s = whole_summary rules digest bytes snapshot in
    let f = fit_summary_total bytes (suc (weight s)) s (omega arith) in
    let state =
      episode_state (text_at "event" snapshot.event) (text_at "state" snapshot.event) at in
    (
      (guard (leb (bytes (summary_json f.0)) max_summary_bytes) over_limit >> ok f.0),
      rw f.1 refl,
      within_limit-IsBuilt bytes snapshot f.0 (leb (bytes (summary_json f.0)) max_summary_bytes)
          refl at f.3 (Trimmed-IsCounted rules digest bytes snapshot f.0 f.2)
          (built_valid rules digest bytes snapshot f.0 f.2 p state),
    )

-- For rules that leave the keys "run", "episode" and "state" and the two states alone, the build of
-- a Run Summary returns: it fails where the event is no retrospective episode, or at its byte limit
-- with a summary from which nothing more can be dropped; else it gives a summary of an episode that
-- is within the limit and has the shape that the normalizer of a retrospective report asks for. In
-- both summaries each count of omitted events, effects, evidence units and files accounts for what
-- the snapshot has beside the ones it shows, of the files those of the selected units.
pub build_run_summary_total :
    (rules : TextRules) (digest : Json → String) (bytes : Json → ℕ) (snapshot : Snapshot)
    → Plain rules
    → (r : Result Summary) × (build_run_summary rules digest bytes snapshot ≡ some r)
      × IsBuilt bytes snapshot r
unfolding build_run_summary validate_episode
build_run_summary_total rules digest bytes snapshot p =
    checked-Answers rules digest bytes snapshot _ (is_episode snapshot) p refl

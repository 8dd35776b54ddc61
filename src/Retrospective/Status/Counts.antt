-- ===== src/Retrospective/Status/Counts.antt =====
-- How the counts of src/afk/retrospective_status.py belong together.
use afk_composable_pipeline.Common.{
  ℕ, suc, ◌+◌, ◌≤◌, String, List, [], ◌∷◌, Option, none, some, true, false, length, length-append,
  subst, ◌≡◌, refl, arith, if◌then◌else◌,
}
use afk_composable_pipeline.Json.{Json, bool, int, str, arr, obj, null, get, is_some}
use afk_composable_pipeline.Errors.{Result, ok, succeeded, passed_check, same_value}
use afk_composable_pipeline.History.{is_episode_event}
use afk_composable_pipeline.History.Record.{Event}
use afk_composable_pipeline.Retrospective.Outcome.{normalize_outcome}
use afk_composable_pipeline.Retrospective.Status.{
  Totals, no_episode, summarize, add_event, add_observed, add_absent, add_sealed, warning_count,
  Episode, absent_episode, expected_episode_state, evidence_unit, status_of,
  build_retrospective_status, RetrospectiveStatus,
}

-- How many events begin an episode.
unfoldable pub episode_events : List Event → ℕ
episode_events [] = 0
episode_events (e ∷ es) =
    let rest = episode_events es in if is_episode_event e.event then suc rest else rest

warning_small : (v : Json) → warning_count v ≤ 1
warning_small (bool true) = omega arith
warning_small (bool false) = omega arith
warning_small null = omega arith
warning_small (int z) = omega arith
warning_small (str s) = omega arith
warning_small (arr xs) = omega arith
warning_small (obj fs) = omega arith

-- The totals after `n` episodes.
record Balanced (t : Totals) (n : ℕ) : Type 0 where
  episodes : length t.episodes ≡ n
  paths : length t.evidence_paths ≡ t.sealed
  sealed : t.sealed ≤ n
  warnings : t.warnings ≤ t.sealed

absent-Balanced :
    (x : Episode) (t : Totals) (n : ℕ) → Balanced t n → Balanced (add_absent x t) (suc n)
unfolding add_absent
absent-Balanced x t n b = record {
  episodes = omega (arith, length-append t.episodes (x ∷ []), b.episodes);
  paths = b.paths;
  sealed = omega (arith, b.sealed);
  warnings = b.warnings;
}

sealed-Balanced :
    (p : String) (w : Json) (x : Episode) (t : Totals) (n : ℕ)
    → Balanced t n
    → Balanced (add_sealed p w x t) (suc n)
unfolding add_sealed
sealed-Balanced p w x t n b = record {
  episodes = omega (arith, length-append t.episodes (x ∷ []), b.episodes);
  paths = omega (arith, length-append t.evidence_paths (p ∷ []), b.paths);
  sealed = omega (arith, b.sealed);
  warnings = omega (arith, b.warnings, warning_small (get w "warning"));
}

-- The value of a call that raised nothing, and of what followed it.
zero_plus : (n : ℕ) → n ≡ 0 + n
zero_plus n = omega arith

-- How the counts of a status belong together, for `n` episodes.
abbrev pub CountsAgree : ℕ → RetrospectiveStatus → Type 0
CountsAgree n s =
    (s.total ≡ n)
    × (s.sealed + s.absent ≡ s.total)
    × (s.warning ≤ s.sealed)
    × (length s.evidence_paths ≡ s.sealed)

status_of-CountsAgree : (t : Totals) (n m : ℕ) → n ≡ m → Balanced t n → CountsAgree m (status_of t)
unfolding status_of
status_of-CountsAgree t n m same b =
    (omega (arith, same, b.episodes), omega (arith, b.sealed, b.episodes), b.warnings, b.paths)

none_yet : Balanced no_episode 0
none_yet = record { episodes = refl; paths = refl; sealed = omega arith; warnings = omega arith }

module _ (run_id : String) (observe : String → Result (Option Json)) where
  observed-Balanced :
      (e : Event) (state : String) (t u : Totals) (n : ℕ) (o : Option Json)
      → Balanced t n
      → add_observed run_id observe e state t o ≡ ok u
      → Balanced u (suc n)
  observed-Balanced e state t u n none b h =
      subst (λ x. Balanced x (suc n)) (same_value h)
        (absent-Balanced (absent_episode e state) t n b)
  observed-Balanced e state t u n (some outcome) b h =
      let (w, added, passed) = succeeded (normalize_outcome run_id e.sequence outcome) h in
      subst (λ x. Balanced x (suc n)) (same_value added) (sealed-Balanced _ w _ t n b)

  event-Balanced :
      (e : Event) (t u : Totals) (n : ℕ) (s : Option String)
      → Balanced t n
      → add_event run_id observe e t s ≡ ok u
      → Balanced u (if is_some s then suc n else n)
  event-Balanced e t u n none b h = subst (λ x. Balanced x n) (same_value h) b
  event-Balanced e t u n (some state) b h =
      let (o, added, seen) =
        succeeded (observe (evidence_unit state e.sequence)) (passed_check _ _ _ h).1 in
      observed-Balanced e state t u n o b added

  episode_counted :
      (e : Event) (n m : ℕ)
      → m + (if is_some (expected_episode_state e.event) then suc n else n)
        ≡ (if is_episode_event e.event then suc m else m) + n
  unfolding expected_episode_state is_episode_event
  episode_counted e n m = ground arith

  summarize-Balanced :
      (t u : Totals) (n : ℕ) (es : List Event)
      → Balanced t n
      → summarize run_id observe t es ≡ ok u
      → Balanced u (episode_events es + n)
  unfolding summarize episode_events
  summarize-Balanced t u n [] b h =
      subst (λ x. Balanced x (0 + n)) (same_value h) (subst (Balanced t) (zero_plus n) b)
  summarize-Balanced t u n (e ∷ es) b h =
      let s = expected_episode_state e.event in
      let (v, rest, added) = succeeded (add_event run_id observe e t s) h in
      subst (Balanced u) (episode_counted e n (episode_events es))
        (summarize-Balanced v u _ es (event-Balanced e t v n s b added) rest)

  -- In a summary of the retrospectives the total is the number of episode events, the sealed and
  -- the absent episodes add up to it, there are no more warnings than sealed episodes, and one
  -- evidence path for each sealed episode.
  pub build_retrospective_status-CountsAgree :
      (events : List Event) (s : RetrospectiveStatus)
      → build_retrospective_status run_id observe events ≡ ok s
      → CountsAgree (episode_events events) s
  unfolding build_retrospective_status
  build_retrospective_status-CountsAgree events s h =
      let (t, made, summed) = succeeded (summarize run_id observe no_episode events) h in
      subst (CountsAgree (episode_events events)) (same_value made) (
        status_of-CountsAgree t (episode_events events + 0) (episode_events events) (omega arith)
          (summarize-Balanced no_episode t 0 events none_yet summed))

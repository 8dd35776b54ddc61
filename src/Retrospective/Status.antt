-- ===== src/Retrospective/Status.antt =====
-- `build_retrospective_status` of src/afk/retrospective_status.py. What the store observes of a
-- sealed evidence unit is a parameter: nothing, its outcome, or an exception.
pub mod Counts
use afk_composable_pipeline.Common.{
  ℕ, suc, ◌+◌, ◌-◌, String, List, [], ◌∷◌, ◌++◌, Option, none, some, Bool, true, false, not, ◌&&◌,
  str_eq, cat, decimal, length, get_last?, if◌then◌else◌,
}
use afk_composable_pipeline.Json.{Json, bool, nat, str, get}
use afk_composable_pipeline.Attempts.{is_true}
use afk_composable_pipeline.Errors.{Result, ok, err, store_error, ◌>>=◌, ◌>>◌, guard}
use afk_composable_pipeline.History.Record.{Event}
use afk_composable_pipeline.Retrospective.Outcome.{normalize_outcome, count_of}

-- `expected_episode_state`
unfoldable pub expected_episode_state : String → Option String
expected_episode_state name =
    if str_eq name "run.attention_required"
    then some "attention_required"
    else if str_eq name "run.completed"
    then some "completed"
    else none

pub record Episode : Type 0 where
  pub episode_sequence : ℕ
  pub event : String
  pub state : String
  pub status : Json
  pub warning : Json
  pub process_findings_count : Json
  pub improvement_proposals_count : Json
  pub evidence_path : Option String

-- The variables of the loop.
pub record Totals : Type 0 where
  pub episodes : List Episode
  pub evidence_paths : List String
  pub findings : ℕ
  pub proposals : ℕ
  pub warnings : ℕ
  pub sealed : ℕ

abbrev pub no_episode : Totals
no_episode = record {
  episodes = [];
  evidence_paths = [];
  findings = 0;
  proposals = 0;
  warnings = 0;
  sealed = 0;
}

unfoldable pub evidence_unit : String → ℕ → String
evidence_unit state sequence =
    if str_eq state "completed"
    then cat "retrospective/completed-" (decimal sequence)
    else cat "retrospective/attention-" (decimal sequence)

-- `int(warning)`
abbrev pub warning_count : Json → ℕ
warning_count (bool true) = 1
warning_count _ = 0

unfoldable pub absent_episode : Event → String → Episode
absent_episode e state = record {
  episode_sequence = e.sequence;
  event = e.event;
  state = state;
  status = str "absent";
  warning = bool false;
  process_findings_count = nat 0;
  improvement_proposals_count = nat 0;
  evidence_path = none;
}

unfoldable pub sealed_episode : Event → String → String → Json → Episode
sealed_episode e state evidence outcome = record {
  episode_sequence = e.sequence;
  event = e.event;
  state = state;
  status = get outcome "status";
  warning = get outcome "warning";
  process_findings_count = get outcome "process_findings_count";
  improvement_proposals_count = get outcome "improvement_proposals_count";
  evidence_path = some evidence;
}

unfoldable pub add_absent : Episode → Totals → Totals
add_absent episode t = record {
  episodes = t.episodes ++ episode ∷ [];
  evidence_paths = t.evidence_paths;
  findings = t.findings;
  proposals = t.proposals;
  warnings = t.warnings;
  sealed = t.sealed;
}

unfoldable pub add_sealed : String → Json → Episode → Totals → Totals
add_sealed evidence outcome episode t = record {
  episodes = t.episodes ++ episode ∷ [];
  evidence_paths = t.evidence_paths ++ evidence ∷ [];
  findings = t.findings + count_of (get outcome "process_findings_count");
  proposals = t.proposals + count_of (get outcome "improvement_proposals_count");
  warnings = t.warnings + warning_count (get outcome "warning");
  sealed = t.sealed + 1;
}

abbrev pub state_is : Option String → String → Bool
state_is none s = false
state_is (some t) s = str_eq t s

module _ (run_id : String) (observe : String → Result (Option Json)) where
  abbrev pub add_observed : Event → String → Totals → Option Json → Result Totals
  add_observed e state t none = ok (add_absent (absent_episode e state) t)
  add_observed e state t (some outcome) =
      let evidence = evidence_unit state e.sequence in
      normalize_outcome run_id e.sequence outcome >>= λ w.
      ok (add_sealed evidence w (sealed_episode e state evidence w) t)

  abbrev pub add_event : Event → Totals → Option String → Result Totals
  add_event e t none = ok t
  add_event e t (some state) =
      guard (state_is e.state state)
        (store_error (cat "sequence " (cat (decimal e.sequence) " is not a retrospective episode")))
      >> (observe (evidence_unit state e.sequence) >>= add_observed e state t)

  -- The loop over the events.
  unfoldable pub summarize : Totals → List Event → Result Totals
  summarize t [] = ok t
  summarize t (e ∷ es) = add_event e t (expected_episode_state e.event) >>= λ u. summarize u es

pub record RetrospectiveStatus : Type 0 where
  pub status : Json
  pub total : ℕ
  pub sealed : ℕ
  pub warning : ℕ
  pub absent : ℕ
  pub process_findings_count : ℕ
  pub improvement_proposals_count : ℕ
  pub evidence_paths : List String
  pub latest : Option Episode

abbrev pub latest_status : Option Episode → Json
latest_status none = str "absent"
latest_status (some episode) = episode.status

unfoldable pub status_of : Totals → RetrospectiveStatus
status_of t = record {
  status = latest_status (get_last? t.episodes);
  total = length t.episodes;
  sealed = t.sealed;
  warning = t.warnings;
  absent = length t.episodes - t.sealed;
  process_findings_count = t.findings;
  improvement_proposals_count = t.proposals;
  evidence_paths = t.evidence_paths;
  latest = get_last? t.episodes;
}

unfoldable pub build_retrospective_status :
    String → (String → Result (Option Json)) → List Event → Result RetrospectiveStatus
build_retrospective_status run_id observe events =
    summarize run_id observe no_episode events >>= λ t. ok (status_of t)

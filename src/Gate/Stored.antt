-- ===== src/Gate/Stored.antt =====
-- `_gate_attention_resume_ready` of src/afk/start.py: whether the sealed outcome of a Gate Cycle
-- that is not recorded yet can be taken over.
use afk_composable_pipeline.Common.{
  ℕ, suc, String, [], ◌∷◌, Option, none, some, Bool, false, not, ◌&&◌, ◌||◌, cat, prefix, decimal,
}
use afk_composable_pipeline.Text.{is_sha}
use afk_composable_pipeline.Json.{
  Json, Items, str, arr, nat, nil, cons, get, eq, one_of, is_dict, is_list, str_and,
}
use afk_composable_pipeline.Episodes.{number_of}
use afk_composable_pipeline.History.Record.{text_of}
use afk_composable_pipeline.Resume.Retry.{items}
use afk_composable_pipeline.Gate.Brief.{get_or}
use afk_composable_pipeline.Gate.Cycle.{number_from_0_to_4}
use afk_composable_pipeline.Gate.Advance.{gate_cycles}

-- The name of the evidence of a cycle.
abbrev pub gate_evidence : ℕ → String → String
gate_evidence cycle candidate_sha =
    cat "gates/gate-cycle-" (cat (decimal cycle) (cat "-" (prefix 12 candidate_sha)))

-- The cycle is recorded for the Candidate.
unfoldable pub cycle_present : Json → String → Items → Bool
cycle_present cycle candidate_sha nil = false
cycle_present cycle candidate_sha (cons x xs) =
    is_dict x && eq (get x "cycle") cycle && eq (get x "candidate_sha") (str candidate_sha)
    || cycle_present cycle candidate_sha xs

abbrev pub same_validation : Json → Json → String → Bool
same_validation validation current candidate_sha =
    is_dict validation
    && is_dict current
    && eq (get validation "candidate_sha") (str candidate_sha)
    && eq (get validation "status") (get current "status")
    && eq (get validation "evidence") (get current "evidence")

abbrev pub brief_fits : Json → Json → String → Bool
brief_fits outcome cycle candidate_sha =
    not (eq (get outcome "next_action") (str "repair"))
    || is_dict (get outcome "repair_brief")
      && eq (get (get outcome "repair_brief") "candidate_sha") (str candidate_sha)
      && eq (get (get outcome "repair_brief") "repair_attempt") cycle

-- The tests on the outcome, for the cycle and the name of its evidence.
unfoldable pub outcome_fits : Json → Json → String → String → Json → Bool
outcome_fits p cycle candidate_sha evidence outcome =
    is_dict outcome
    && eq (get outcome "schema_version") (nat 1)
    && eq (get outcome "cycle") cycle
    && eq (get outcome "candidate_sha") (str candidate_sha)
    && eq (get outcome "evidence") (str evidence)
    && same_validation (get outcome "validation") (get p "validation") candidate_sha
    && is_list (get outcome "reviews")
    && eq (get outcome "prior_dispositions") (get_or p "repair_dispositions" (arr nil))
    && one_of ("complete" ∷ "attention" ∷ "repair" ∷ []) (get outcome "next_action")
    && is_list (gate_cycles p)
    && not (cycle_present cycle candidate_sha (items (gate_cycles p)))
    && brief_fits outcome cycle candidate_sha

abbrev pub fits_if_read : Json → Json → String → String → Option Json → Bool
fits_if_read p cycle candidate_sha evidence none = false
fits_if_read p cycle candidate_sha evidence (some outcome) =
    outcome_fits p cycle candidate_sha evidence outcome

-- `sealed` is the outcome that is read from verified evidence of a name, if it is.
unfoldable pub gate_attention_resume_ready : Json → (String → Option Json) → Bool
gate_attention_resume_ready p sealed =
    let candidate_sha = text_of (get p "candidate_sha") in
    let used = get_or p "repair_attempts_used" (nat 0) in
    let cycle = suc (number_of used) in
    let evidence = gate_evidence cycle candidate_sha in
    str_and is_sha (get p "candidate_sha")
    && number_from_0_to_4 used
    && fits_if_read p (nat cycle) candidate_sha evidence (sealed evidence)

-- ===== src/Preflight/Repair.antt =====
-- `_open_repair_attempt` and the checks of its records in src/afk/resume_preflight.py.
use afk_composable_pipeline.Common.{
  zero, suc, String, List, [], ◌∷◌, Option, none, some, Bool, true, false, not, ◌&&◌, ◌||◌, str_eq,
  if◌then◌else◌,
}
use afk_composable_pipeline.Text.{is_sha}
use afk_composable_pipeline.Json.{
  Json, ℤ, null, int, str, obj, end, pos, negsuc, get, has, eq, is_int, is_list, is_dict, str_and,
  int_and, int_eq, at_least, at_most, keys_are, one_of,
}
use afk_composable_pipeline.Attempts.{filled_text}
use afk_composable_pipeline.History.Record.{Event, data_of}
use afk_composable_pipeline.Preflight.Scan.{Scanned, scan}

abbrev pub between_1_and_4 : ℤ → Bool
between_1_and_4 z = at_least 1 z && at_most 4 z

unfoldable pub valid_repair_brief : Json → Bool
valid_repair_brief v =
    keys_are ("schema_version" ∷ "candidate_sha" ∷ "repair_attempt" ∷ "blocking_findings" ∷ []) v
    && int_and (int_eq (pos 1)) (get v "schema_version")
    && str_and is_sha (get v "candidate_sha")
    && int_and between_1_and_4 (get v "repair_attempt")
    && is_list (get v "blocking_findings")

-- `slot + 1` for a slot that is an integer
abbrev pub next_slot : Json → Json
next_slot (int (pos n)) = int (pos (suc n))
next_slot (int (negsuc zero)) = int (pos 0)
next_slot (int (negsuc (suc n))) = int (negsuc n)
next_slot _ = null

unfoldable pub repaired_keys : List String
repaired_keys =
    "checkpoint" ∷ "previous_candidate_sha" ∷ "candidate_sha" ∷ "pr_number" ∷ "pr_url"
    ∷ "pr_head_sha" ∷ "repair_attempts_used" ∷ "repair_dispositions" ∷ "attention" ∷ []

unfoldable pub valid_candidate_repaired_closure : Json → Json → Json → Bool
valid_candidate_repaired_closure d brief slot =
    is_dict brief
    && keys_are repaired_keys d
    && eq (get d "checkpoint") (str "candidate_ready")
    && is_int slot
    && is_int (get d "repair_attempts_used")
    && eq (get d "repair_attempts_used") slot
    && eq (get d "previous_candidate_sha") (get brief "candidate_sha")
    && str_and is_sha (get d "candidate_sha")
    && not (eq (get d "candidate_sha") (get brief "candidate_sha"))
    && int_and (at_least 1) (get d "pr_number")
    && str_and filled_text (get d "pr_url")
    && eq (get d "pr_head_sha") (get d "candidate_sha")
    && is_list (get d "repair_dispositions")
    && eq (get d "attention") (obj end)

-- The record of the interruption in the event's data.
unfoldable pub valid_interruption : Json → Json → Json → Bool
valid_interruption interruption brief slot =
    keys_are ("schema_version" ∷ "candidate_sha" ∷ "repair_attempt" ∷ "status" ∷ "summary" ∷ [])
      interruption
    && int_and (int_eq (pos 1)) (get interruption "schema_version")
    && eq (get interruption "status") (str "interrupted")
    && eq (get interruption "candidate_sha") (get brief "candidate_sha")
    && eq (get interruption "repair_attempt") slot
    && str_and filled_text (get interruption "summary")

-- The brief for the attempt after the interrupted one; there is none after the fourth.
unfoldable pub valid_next_brief : Json → Json → Json → Bool
valid_next_brief next brief slot =
    if eq slot (int (pos 4))
    then eq next (obj end)
    else valid_repair_brief next
      && eq (get next "candidate_sha") (get brief "candidate_sha")
      && eq (get next "repair_attempt") (next_slot slot)

unfoldable pub valid_repair_interrupted_closure : Json → Json → Json → Bool
valid_repair_interrupted_closure d brief slot =
    is_dict brief
    && keys_are ("checkpoint" ∷ "repair_attempts_used" ∷ "repair_brief" ∷ "interrupted_repair" ∷ [])
        d
    && one_of ("validated" ∷ "candidate_ready" ∷ []) (get d "checkpoint")
    && is_int slot
    && is_int (get d "repair_attempts_used")
    && eq (get d "repair_attempts_used") slot
    && valid_interruption (get d "interrupted_repair") brief slot
    && valid_next_brief (get d "repair_brief") brief slot

-- The loop's variables.
pub record RepairLoop : Type 0 where
  pub is_open : Bool
  pub brief : Json
  pub consumed_slot : Json

abbrev pub no_repair : RepairLoop
no_repair = record { is_open = false; brief = null; consumed_slot = null }

unfoldable pub repair_step : Event → RepairLoop → Option RepairLoop
repair_step e s =
    let d = data_of e in
    if str_eq e.event "repair.started"
    then if s.is_open || not (valid_repair_brief (get d "repair_brief"))
      then none
      else some (record {
        is_open = true;
        brief = get d "repair_brief";
        consumed_slot = get d "repair_attempts_used";
      })
    else if str_eq e.event "candidate.repaired" && has d "repair_attempts_used"
    then if not (valid_candidate_repaired_closure d s.brief s.consumed_slot)
      then none
      else some no_repair
    else if str_eq e.event "repair.interrupted"
    then if not (valid_repair_interrupted_closure d s.brief s.consumed_slot)
      then none
      else some no_repair
    else some s

unfoldable pub open_repair_attempt : List Event → Scanned RepairLoop
open_repair_attempt events = scan repair_step no_repair events

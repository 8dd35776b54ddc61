-- ===== src/Resume/Repair.antt =====
-- An interrupted repair attempt, in src/afk/start.py and src/afk/candidate.py.
pub mod Recovery
pub mod Closing
use afk_composable_pipeline.Common.{
  ℕ, suc, ◌+◌, String, List, [], ◌∷◌, Option, none, some, Bool, true, false, not, ◌&&◌, ◌||◌,
  if◌then◌else◌, ◌==◌, ltb,
}
use afk_composable_pipeline.Json.{
  Json, Fields, int, str, obj, end, nat, pos, get, has, eq, put, fields, is_dict, is_int, int_and,
  dict,
}
use afk_composable_pipeline.Preflight.Repair.{between_1_and_4, next_slot}

-- What `seal_interrupted_repair_attempt` of src/afk/candidate.py returns.
unfoldable pub interruption_of : Json → Json → Fields
interruption_of candidate_sha attempt_number = dict (
    ("schema_version", nat 1)
    ∷ ("candidate_sha", candidate_sha)
    ∷ ("repair_attempt", attempt_number)
    ∷ ("status", str "interrupted")
    ∷ ("summary", str "repair execution ended before evidence was sealed")
    ∷ [])

-- `next_brief` of `_recover_interrupted_repair`, for the attempt `n`
unfoldable pub next_brief : Json → ℕ → Json
next_brief brief n =
    if ltb n 4 then obj (put "repair_attempt" (nat (suc n)) (fields brief)) else obj end

-- The data of the event `repair.interrupted`.
unfoldable pub interrupted_data : Json → ℕ → Json → Json → Fields
interrupted_data checkpoint n brief interruption = dict (
    ("checkpoint", checkpoint)
    ∷ ("repair_attempts_used", nat n)
    ∷ ("repair_brief", next_brief brief n)
    ∷ ("interrupted_repair", interruption)
    ∷ [])

-- `_repair_interruption_pending`, with what the file system says of `manifest.json` and
-- `interruption.json` of the attempt.
unfoldable pub repair_interruption_pending : Bool → Bool → Json → Bool
repair_interruption_pending manifest_is_file interruption_is_file p =
    let brief = get p "repair_brief" in
    let used = get p "repair_attempts_used" in
    is_dict brief
    && is_int used
    && eq (get brief "repair_attempt") used
    && eq (get brief "candidate_sha") (get p "candidate_sha")
    && (not manifest_is_file || interruption_is_file)

-- `_interrupted_repair_resume_ready`
unfoldable pub interrupted_repair_resume_ready : Json → Bool
interrupted_repair_resume_ready p =
    let interruption = get p "interrupted_repair" in
    let brief = get p "repair_brief" in
    let used = get p "repair_attempts_used" in
    is_dict interruption
    && eq (get interruption "schema_version") (nat 1)
    && eq (get interruption "status") (str "interrupted")
    && eq (get interruption "candidate_sha") (get p "candidate_sha")
    && eq (get interruption "repair_attempt") used
    && int_and between_1_and_4 used
    && is_dict brief
    && (if eq used (nat 4)
        then eq brief (obj end)
        else eq (get brief "candidate_sha") (get p "candidate_sha")
          && eq (get brief "repair_attempt") (next_slot used))

-- `_interrupted_repair_terminal`
unfoldable pub interrupted_repair_terminal : Json → Bool
interrupted_repair_terminal p =
    let interruption = get p "interrupted_repair" in
    is_dict interruption
    && eq (get interruption "schema_version") (nat 1)
    && eq (get interruption "status") (str "exhausted")
    && eq (get interruption "candidate_sha") (get p "candidate_sha")
    && eq (get interruption "repair_attempt") (nat 4)
    && eq (get p "repair_attempts_used") (nat 4)
    && eq (get p "repair_brief") (obj end)

-- ===== src/Resume/Repair/Closing.antt =====
-- The history of a Run whose interrupted repair was recovered, as src/afk/resume_preflight.py reads
-- it.
use afk_composable_pipeline.Common.{ℕ, List, [], ◌∷◌, ◌++◌, some, true, false, ◌≡◌, refl}
use afk_composable_pipeline.Json.{Json, Fields, obj, nat, get}
use afk_composable_pipeline.History.Record.{Event, data_of}
use afk_composable_pipeline.Preflight.Scan.{scan-append}
use afk_composable_pipeline.Preflight.Repair.{
  RepairLoop, no_repair, repair_step, open_repair_attempt, valid_repair_brief,
  valid_repair_interrupted_closure,
}
use afk_composable_pipeline.Resume.Repair.Recovery.{
  recovery_data, recovery_data_closes, is_repair_checkpoint,
}

-- The history is accepted and left the attempt `n` of the brief open.
pub record LeftOpen (events : List Event) (fs : Fields) (n : ℕ) : Type 0 where
  pub accepted : (open_repair_attempt events).invalid ≡ false
  pub brief : (open_repair_attempt events).state.brief ≡ obj fs
  pub slot : (open_repair_attempt events).state.consumed_slot ≡ nat n

interrupted_step :
    (e : Event) (s : RepairLoop)
    → e.event ≡ "repair.interrupted"
    → valid_repair_interrupted_closure (data_of e) s.brief s.consumed_slot ≡ true
    → repair_step e s ≡ some no_repair
unfolding repair_step
interrupted_step e s name closes = rw (name, closes) refl

-- Where the preflight accepts a history and finds the repair attempt n of a valid brief open in it,
-- it accepts the history with the event that the recovery of the interruption records behind it,
-- for a repair checkpoint, and finds no open repair there.
pub open_repair_attempt-append :
    (events : List Event) (e : Event) (checkpoint : Json) (fs : Fields) (n : ℕ)
    → LeftOpen events fs n
    → valid_repair_brief (obj fs) ≡ true
    → get (obj fs) "repair_attempt" ≡ nat n
    → is_repair_checkpoint checkpoint ≡ true
    → e.event ≡ "repair.interrupted"
    → data_of e ≡ obj (recovery_data checkpoint fs n)
    → ((open_repair_attempt (events ++ e ∷ [])).invalid ≡ false)
      × ((open_repair_attempt (events ++ e ∷ [])).state ≡ no_repair)
unfolding open_repair_attempt
open_repair_attempt-append events e checkpoint fs n left v at c name kept =
    let s = (open_repair_attempt events).state in
    let closed : valid_repair_interrupted_closure (data_of e) s.brief s.consumed_slot ≡ true =
      rw (kept, left.brief, left.slot) (recovery_data_closes checkpoint fs n v at c) in
    rw (scan-append repair_step no_repair events e left.accepted, interrupted_step e s name closed)
      (refl, refl)

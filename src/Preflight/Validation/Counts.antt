-- ===== src/Preflight/Validation/Counts.antt =====
-- An accepted history of validation attempts.
use afk_composable_pipeline.Common.{ℕ, ◌+◌, List, ◌∷◌, some, Bool, true, false, ◌≡◌, refl, arith}
use afk_composable_pipeline.Json.Laws.{other_text}
use afk_composable_pipeline.History.Record.{Event}
use afk_composable_pipeline.Preflight.Scan.{count_named, scan_induction}
use afk_composable_pipeline.Preflight.Validation.{
  OpenAttempt, no_attempt, validation_step, open_validation_attempt,
}

abbrev pub open_count : Bool → ℕ
open_count true = 1
open_count false = 0

abbrev pub starts : List Event → ℕ
starts = count_named "validation.attempt_started"

abbrev pub finishings : List Event → ℕ
finishings = count_named "validation.attempt_finished"

balance_step :
    (s t u : OpenAttempt) (e : Event) (es : List Event)
    → validation_step e s ≡ some t
    → open_count t.is_open + starts es ≡ finishings es + open_count u.is_open
    → open_count s.is_open + starts (e ∷ es) ≡ finishings (e ∷ es) + open_count u.is_open
unfolding validation_step count_named
balance_step s t u e es p h =
    ground
      (arith, other_text e.event "validation.attempt_started" "validation.attempt_finished" refl)

-- In a history that the loop over validation attempts accepts there are as many starts as finishes,
-- and one more exactly if the loop ends with an open attempt.
pub open_validation_attempt_balance :
    (events : List Event)
    → (open_validation_attempt events).invalid ≡ false
    → starts events ≡ finishings events + open_count (open_validation_attempt events).state.is_open
unfolding open_validation_attempt
open_validation_attempt_balance events h = omega (
  arith,
  scan_induction validation_step
      (λ s u es. open_count s.is_open + starts es ≡ finishings es + open_count u.is_open)
      (λ s. unfold count_named in ground arith) balance_step no_attempt events h,
)

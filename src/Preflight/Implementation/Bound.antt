-- ===== src/Preflight/Implementation/Bound.antt =====
-- How many implementation attempts an accepted history has.
use afk_composable_pipeline.Common.{
  ℕ, suc, ◌+◌, ◌≤◌, String, List, [], ◌∷◌, Option, none, some, Bool, true, false, ◌&&◌, str_eq,
  if◌then◌else◌, ◌≡◌, refl, arith,
}
use afk_composable_pipeline.Json.{Json, null, bool, int, str, arr, obj, get, eq, one_of}
use afk_composable_pipeline.Json.Laws.{eq-str, str_eq-str}
use afk_composable_pipeline.Attempts.{
  first_attempt_id, second_attempt_id, next_attempt_id, interruption_is_retryable, is_true,
  valid_attempt,
}
use afk_composable_pipeline.History.Record.{Event, data_of}
use afk_composable_pipeline.Preflight.Scan.{count_named, scan_induction}
use afk_composable_pipeline.Preflight.Implementation.{
  ImplementationLoop, no_implementation, implementation_step, start_step, finish_step, closes,
  same_field, implementation_started, open_implementation_attempt,
}

abbrev pub implementation_starts : List Event → ℕ
implementation_starts = count_named implementation_started

is_first : Json → Bool
is_first attempt = eq (get attempt "attempt_id") (str first_attempt_id)

-- How many attempts may still be started.
abbrev budget_at : Option String → Bool → Bool → ℕ
budget_at none is_open first = if is_open && first then 1 else 0
budget_at (some s) is_open first = if str_eq s first_attempt_id then 2 else 1

abbrev budget : ImplementationLoop → ℕ
budget s = budget_at s.expected_attempt_id s.is_open (is_first s.attempt)

first_of_expected :
    (attempt : Json) (s : String)
    → eq (get attempt "attempt_id") (str s) ≡ true
    → is_first attempt ≡ str_eq s first_attempt_id
unfolding is_first
first_of_expected attempt s h = rw (eq-str (get attempt "attempt_id") s h) (unfold eq in refl)

one_of-ne-null :
    (v : Json) → one_of (first_attempt_id ∷ second_attempt_id ∷ []) v ≡ true → eq v null ≡ false
unfolding eq
one_of-ne-null null h = ground arith
one_of-ne-null (bool b) h = refl
one_of-ne-null (int z) h = refl
one_of-ne-null (str s) h = refl
one_of-ne-null (arr xs) h = refl
one_of-ne-null (obj fs) h = refl

started_not_none :
    (v : Json) → valid_attempt ("started" ∷ []) v ≡ true → eq (get v "attempt_id") null ≡ false
unfolding valid_attempt
started_not_none v h = one_of-ne-null (get v "attempt_id") (ground arith)

start_budget_at :
    (started attempt terminal : Json) (is_open : Bool) (expected : Option String)
    (t : ImplementationLoop)
    → start_step started (record {
      is_open = is_open;
      attempt = attempt;
      terminal = terminal;
      expected_attempt_id = expected;
    })
      ≡ some t
    → suc (budget t) ≤ budget_at expected is_open (is_first attempt)
unfolding start_step
start_budget_at started attempt terminal is_open none t h = ground (arith, started_not_none started)
start_budget_at started attempt terminal is_open (some s) t h =
    ground (arith, first_of_expected started s)

start_step-budget :
    (started : Json) (s t : ImplementationLoop)
    → start_step started s ≡ some t
    → suc (budget t) ≤ budget s
start_step-budget started s t h =
    start_budget_at started s.attempt s.terminal s.is_open s.expected_attempt_id t h

first_of_same :
    (finished attempt : Json)
    → same_field finished attempt "attempt_id" ≡ true
    → interruption_is_retryable finished ≡ true
    → is_first attempt ≡ true
unfolding same_field interruption_is_retryable is_first
first_of_same finished attempt h r =
    rw (str_eq-str (get attempt "attempt_id") first_attempt_id (rw (eq-str _ _ r) at h))
      (unfold eq in refl)

next_budget :
    (retryable : Bool) (first : Bool)
    → budget_at (if retryable then some second_attempt_id else none) false first
      ≤ (if retryable then 1 else 0)
next_budget true first = omega arith
next_budget false first = omega arith

-- What a finish leaves is at most what was left.
finished_budget :
    (finished attempt : Json) (expected : Option String)
    → same_field finished attempt "attempt_id" ≡ true
    → budget_at (next_attempt_id finished) false (is_first null)
      ≤ budget_at expected true (is_first attempt)
unfolding next_attempt_id
finished_budget finished attempt none h = ground (
  arith,
  next_budget
      (eq (get finished "status") (str "interrupted")
        && is_true (get finished "retryable")
        && interruption_is_retryable finished)
      (is_first null),
  first_of_same finished attempt,
)
finished_budget finished attempt (some s) h = ground (
  arith,
  next_budget
      (eq (get finished "status") (str "interrupted")
        && is_true (get finished "retryable")
        && interruption_is_retryable finished)
      (is_first null),
)

finish_step-some :
    (statuses : List String) (finished : Json) (s t : ImplementationLoop)
    → finish_step statuses finished s ≡ some t
    → (s.is_open ≡ true)
      × (same_field finished s.attempt "attempt_id" ≡ true)
      × (t ≡ record {
        is_open = false;
        attempt = null;
        terminal = finished;
        expected_attempt_id = next_attempt_id finished;
      })
unfolding finish_step closes
finish_step-some statuses finished s t h = ground arith

finish_step-budget :
    (statuses : List String) (finished : Json) (s t : ImplementationLoop)
    → finish_step statuses finished s ≡ some t
    → budget t ≤ budget s
finish_step-budget statuses finished s t h =
    let (is_open, same, next) = finish_step-some statuses finished s t h in
    rw (next, is_open) (finished_budget finished s.attempt s.expected_attempt_id same)

budget_step :
    (s t u : ImplementationLoop) (e : Event) (es : List Event)
    → implementation_step e s ≡ some t
    → implementation_starts es + budget u ≤ budget t
    → implementation_starts (e ∷ es) + budget u ≤ budget s
unfolding implementation_step count_named
budget_step s t u e es p h = ground (
  arith,
  start_step-budget (get (data_of e) "implementation_attempt") s t,
  finish_step-budget ("completed" ∷ []) (get (data_of e) "implementation_attempt") s t,
  finish_step-budget ("interrupted" ∷ []) (get (data_of e) "implementation_attempt") s t,
)

-- A history that the loop over implementation attempts accepts starts two of them at most.
pub open_implementation_attempt_bound :
    (events : List Event)
    → (open_implementation_attempt events).invalid ≡ false
    → implementation_starts events ≤ 2
unfolding open_implementation_attempt
open_implementation_attempt_bound events h = omega (
  arith,
  scan_induction implementation_step (λ s u es. implementation_starts es + budget u ≤ budget s)
      (λ s. unfold count_named in ground arith) budget_step no_implementation events h,
)

-- ===== src/Gate/Cycle/Bounds.antt =====
-- The bounds on Gate Cycles and repair attempts in src/afk/candidate_gate.py.
use afk_composable_pipeline.Common.{ℕ, suc, ◌≤◌, String, true, ltb, ◌≡◌, refl, arith}
use afk_composable_pipeline.Json.{
  Json, Items, null, bool, int, str, arr, obj, nil, cons, nat, pos, negsuc,
}
use afk_composable_pipeline.Errors.{ok}
use afk_composable_pipeline.Episodes.{number_of}
use afk_composable_pipeline.Resume.Retry.{items}
use afk_composable_pipeline.Gate.Brief.{get_or}
use afk_composable_pipeline.Gate.Cycle.{
  item_count, append_item, number_from_0_to_4, gate_ready, cycles_after, max_gate_comments,
}

count-append_item : (xs : Items) (v : Json) → item_count (append_item xs v) ≡ suc (item_count xs)
unfolding append_item
count-append_item nil v = refl
count-append_item (cons x xs) v = omega (arith, count-append_item xs v)

small_number : (v : Json) → number_from_0_to_4 v ≡ true → number_of v ≤ 4
small_number (int (pos n)) h = ground arith
small_number (int (negsuc n)) h = omega arith
small_number null h = omega arith
small_number (bool b) h = omega arith
small_number (str s) h = omega arith
small_number (arr xs) h = omega arith
small_number (obj fs) h = omega arith

ready_parts :
    (p : Json) (used : ℕ)
    → gate_ready p ≡ ok used
    → (ltb (item_count (items (get_or p "gate_cycles" (arr nil)))) 5 ≡ true)
      × (number_from_0_to_4 (get_or p "repair_attempts_used" (nat 0)) ≡ true)
      × (number_of (get_or p "repair_attempts_used" (nat 0)) ≡ used)
unfolding gate_ready
ready_parts p used h = ground arith

-- Where the checks before a Gate Cycle pass, the cycle has a number of at most five, and there are
-- at most five Gate Cycles behind it, whether it was recorded before or not.
pub gate_ready_bounds :
    (p outcome : Json) (used retry : ℕ) (candidate_sha : String)
    → gate_ready p ≡ ok used
    → (suc used ≤ max_gate_comments)
      × (item_count (
            cycles_after
              (suc used)
              candidate_sha
              retry
              (items (get_or p "gate_cycles" (arr nil)))
              outcome)
          ≤ max_gate_comments)
unfolding cycles_after
gate_ready_bounds p outcome used retry candidate_sha h =
    let (few, small, same) = ready_parts p used h in
    let cycles = items (get_or p "gate_cycles" (arr nil)) in
    (
      ground (arith, small_number (get_or p "repair_attempts_used" (nat 0)) small, same),
      ground (arith, few, count-append_item cycles outcome),
    )

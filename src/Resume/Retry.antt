-- ===== src/Resume/Retry.antt =====
-- `_gate_retry_authorization` and `_pending_gate_retry` of src/afk/start.py.

pub mod Order
use afk_composable_pipeline.Common.{
  ℕ, zero, suc, ◌+◌, String, List, [], ◌∷◌, Option, none, some, Bool, true, false, not, ◌&&◌, ◌||◌,
  is_empty, is_blank, strip, if◌then◌else◌, leb,
}
use afk_composable_pipeline.Json.{
  Json, ℤ, Items, Fields, null, int, str, arr, obj, nil, cons, end, nat, pos, negsuc, get, has, eq,
  is_dict, is_list, is_int, truthy, int_and, at_least, str_and, dict,
}
use afk_composable_pipeline.Attempts.{filled_text}
use afk_composable_pipeline.Resume.Ready.{attention_scope, attention_kind}

abbrev pub items : Json → Items
items (arr xs) = xs
items _ = nil

-- `xs[-1]`, `None` of an empty list
unfoldable pub last_item : Items → Json
last_item nil = null
last_item (cons x nil) = x
last_item (cons x (cons y xs)) = last_item (cons y xs)

-- `any(isinstance(review, dict) and review.get("status") == "inconclusive" for review in reviews)`
unfoldable pub any_inconclusive : Items → Bool
any_inconclusive nil = false
any_inconclusive (cons x xs) =
    is_dict x && eq (get x "status") (str "inconclusive") || any_inconclusive xs

-- `item.get("retry", 0)`
abbrev pub retry_of : Json → Json
retry_of item = if has item "retry" then get item "retry" else nat 0

-- The item is a retry of this cycle and Candidate.
unfoldable pub counts_as_retry : Json → Json → Json → Bool
counts_as_retry cycle candidate_sha item =
    is_dict item
    && eq (get item "cycle") cycle
    && eq (get item "candidate_sha") candidate_sha
    && is_int (retry_of item)

abbrev pub ℤ_max : ℤ → ℤ → ℤ
ℤ_max (pos m) (pos n) = if leb m n then pos n else pos m
ℤ_max (pos m) (negsuc n) = pos m
ℤ_max (negsuc m) (pos n) = pos n
ℤ_max (negsuc m) (negsuc n) = if leb m n then negsuc m else negsuc n

abbrev pub ℤ_suc : ℤ → ℤ
ℤ_suc (pos n) = pos (suc n)
ℤ_suc (negsuc zero) = pos 0
ℤ_suc (negsuc (suc n)) = negsuc n

abbrev pub int_of : Json → ℤ
int_of (int z) = z
int_of _ = pos 0

abbrev pub max_some : ℤ → Option ℤ → Option ℤ
max_some z none = some z
max_some z (some w) = some (ℤ_max z w)

-- The greatest of `prior_retries`.
unfoldable pub max_retry : Json → Json → Items → Option ℤ
max_retry cycle candidate_sha nil = none
max_retry cycle candidate_sha (cons x xs) =
    let rest = max_retry cycle candidate_sha xs in
    if counts_as_retry cycle candidate_sha x then max_some (int_of (retry_of x)) rest else rest

abbrev pub or_zero : Option ℤ → ℤ
or_zero none = pos 0
or_zero (some z) = z

-- The conditions of `_gate_retry_authorization`.
unfoldable pub may_authorize : Json → Bool
may_authorize p =
    let cycles = get p "gate_cycles" in
    let latest = last_item (items cycles) in
    let validation = get p "validation" in
    attention_scope p "gate"
    && attention_kind p ("inconclusive" ∷ [])
    && is_list cycles
    && is_dict latest
    && eq (get latest "next_action") (str "attention")
    && not (truthy (get latest "stop_reason"))
    && eq (get latest "candidate_sha") (get p "candidate_sha")
    && is_dict validation
    && eq (get validation "candidate_sha") (get p "candidate_sha")
    && eq (get validation "status") (str "passed")
    && int_and (at_least 1) (get latest "cycle")
    && is_list (get latest "reviews")
    && any_inconclusive (items (get latest "reviews"))

-- The record of an authorized retry.
unfoldable pub authorization : Json → String → Fields
authorization p note =
    let cycles = items (get p "gate_cycles") in
    let cycle = get (last_item cycles) "cycle" in
    dict (
      ("schema_version", nat 1)
      ∷ ("candidate_sha", get p "candidate_sha")
      ∷ ("cycle", cycle)
      ∷ ("retry", int (ℤ_suc (or_zero (max_retry cycle (get p "candidate_sha") cycles))))
      ∷ ("note", str (strip note))
      ∷ [])

-- `_gate_retry_authorization`
unfoldable pub gate_retry_authorization : Json → Option String → Option Fields
gate_retry_authorization p none = none
gate_retry_authorization p (some note) =
    if not (is_blank note) && may_authorize p then some (authorization p note) else none

-- `_pending_gate_retry`
unfoldable pub pending_gate_retry : Json → Bool
pending_gate_retry p =
    let retry = get p "gate_retry" in
    is_dict retry
    && eq (get retry "schema_version") (nat 1)
    && eq (get retry "candidate_sha") (get p "candidate_sha")
    && int_and (at_least 1) (get retry "cycle")
    && int_and (at_least 1) (get retry "retry")
    && str_and filled_text (get retry "note")

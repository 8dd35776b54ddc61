-- ===== src/Resume/Retry/Order.antt =====
-- The number of an authorized Gate retry.
use afk_composable_pipeline.Common.{
  zero, suc, ◌≤◌, String, Option, none, some, Bool, true, false, is_empty, is_blank, strip,
  if◌then◌else◌, ◌≡◌, refl, ap, ◌∙◌, arith, ◌⊎◌, inl, inr,
}
use afk_composable_pipeline.Json.{
  Json, ℤ, Items, Fields, int, str, obj, nil, cons, end, field, pos, negsuc, get, eq, int_and,
  at_least, lookup, nat,
}
use afk_composable_pipeline.Json.Laws.{IsWf, eq_wf}
use afk_composable_pipeline.Resume.Retry.{
  items, last_item, retry_of, counts_as_retry, ℤ_max, ℤ_suc, int_of, max_some, max_retry, or_zero,
  may_authorize, authorization, gate_retry_authorization, pending_gate_retry,
}

abbrev pub ◌≤ℤ◌ : ℤ → ℤ → Type 0
◌≤ℤ◌ (pos m) (pos n) = m ≤ n
◌≤ℤ◌ (pos m) (negsuc n) = ⊥
◌≤ℤ◌ (negsuc m) (pos n) = Unit {0}
◌≤ℤ◌ (negsuc m) (negsuc n) = n ≤ m

abbrev pub ◌<ℤ◌ : ℤ → ℤ → Type 0
◌<ℤ◌ a b = ◌≤ℤ◌ (ℤ_suc a) b

-- The item is one of the list.
abbrev pub Within : Json → Items → Type 0
Within v nil = ⊥
Within v (cons x xs) = (v ≡ x) ⊎ Within v xs

max_left : (a b : ℤ) → ◌≤ℤ◌ a (ℤ_max a b)
max_left (pos m) (pos n) = ground arith
max_left (pos m) (negsuc n) = omega arith
max_left (negsuc m) (pos n) = tt
max_left (negsuc m) (negsuc n) = ground arith

max_right : (a b c : ℤ) → ◌≤ℤ◌ c b → ◌≤ℤ◌ c (ℤ_max a b)
max_right (pos m) (pos n) (pos k) h = ground arith
max_right (pos m) (pos n) (negsuc k) h = ground arith
max_right (pos m) (negsuc n) (pos k) h = ground arith
max_right (pos m) (negsuc n) (negsuc k) h = ground arith
max_right (negsuc m) (pos n) (pos k) h = ground arith
max_right (negsuc m) (pos n) (negsuc k) h = ground arith
max_right (negsuc m) (negsuc n) (pos k) h = ground arith
max_right (negsuc m) (negsuc n) (negsuc k) h = ground arith

suc_mono : (a b : ℤ) → ◌≤ℤ◌ a b → ◌≤ℤ◌ (ℤ_suc a) (ℤ_suc b)
suc_mono (pos m) (pos n) h = omega arith
suc_mono (pos m) (negsuc n) h = ground arith
suc_mono (negsuc zero) (pos n) h = omega arith
suc_mono (negsuc (suc m)) (pos n) h = tt
suc_mono (negsuc zero) (negsuc zero) h = omega arith
suc_mono (negsuc zero) (negsuc (suc n)) h = ground arith
suc_mono (negsuc (suc m)) (negsuc zero) h = tt
suc_mono (negsuc (suc m)) (negsuc (suc n)) h = omega arith

-- The greatest retry of an option is at least `z`.
abbrev pub Reaches : ℤ → Option ℤ → Type 0
Reaches z none = ⊥
Reaches z (some m) = ◌≤ℤ◌ z m

reach_max : (z w : ℤ) (o : Option ℤ) → Reaches z o → Reaches z (max_some w o)
reach_max z w none h = absurd h
reach_max z w (some m) h = max_right w m z h

reach_head : (z : ℤ) (o : Option ℤ) → Reaches z (max_some z o)
reach_head (pos n) none = omega arith
reach_head (negsuc n) none = omega arith
reach_head z (some m) = max_left z m

reach_if :
    (b : Bool) (z w : ℤ) (o : Option ℤ) → Reaches z o → Reaches z (if b then max_some w o else o)
reach_if true z w o h = reach_max z w o h
reach_if false z w o h = h

max_retry-Reaches :
    (cycle candidate_sha item : Json) (xs : Items)
    → Within item xs
    → counts_as_retry cycle candidate_sha item ≡ true
    → Reaches (int_of (retry_of item)) (max_retry cycle candidate_sha xs)
unfolding max_retry
max_retry-Reaches cycle candidate_sha item nil w c = absurd w
max_retry-Reaches cycle candidate_sha item (cons x xs) (inl e) c =
    rw (← e, c) (reach_head (int_of (retry_of item)) (max_retry cycle candidate_sha xs))
max_retry-Reaches cycle candidate_sha item (cons x xs) (inr w) c =
    reach_if (counts_as_retry cycle candidate_sha x) (int_of (retry_of item)) (int_of (retry_of x))
      (max_retry cycle candidate_sha xs) (max_retry-Reaches cycle candidate_sha item xs w c)

below_next : (z : ℤ) (o : Option ℤ) → Reaches z o → ◌<ℤ◌ z (ℤ_suc (or_zero o))
below_next z none h = absurd h
below_next z (some m) h = suc_mono z m h

-- `p["gate_cycles"][-1]["cycle"]`
abbrev pub latest_cycle : Json → Json
latest_cycle p = get (last_item (items (get p "gate_cycles"))) "cycle"

authorized :
    (p : Json) (note : String) (a : Fields)
    → gate_retry_authorization p (some note) ≡ some a
    → (may_authorize p ≡ true) × (is_blank note ≡ false) × (a ≡ authorization p note)
unfolding gate_retry_authorization
authorized p note a h = ground arith

-- An authorized Gate retry has a greater number than every retry in the projection's gate cycles
-- that counts for the latest cycle and the Candidate.
pub gate_retry_authorization_fresh :
    (p item : Json) (note : String) (a : Fields)
    → gate_retry_authorization p (some note) ≡ some a
    → Within item (items (get p "gate_cycles"))
    → counts_as_retry (latest_cycle p) (get p "candidate_sha") item ≡ true
    → ◌<ℤ◌ (int_of (retry_of item)) (int_of (get (obj a) "retry"))
unfolding authorization get
gate_retry_authorization_fresh p item note a h w c =
    let (may, filled, built) = authorized p note a h in
    rw built (
      below_next (int_of (retry_of item)) _ (
        max_retry-Reaches (latest_cycle p) (get p "candidate_sha") item
          (items (get p "gate_cycles")) w c))

-- The retries that are counted are not negative.
abbrev pub CountsNatural : Json → Type 0
CountsNatural p =
    (item : Json)
    → Within item (items (get p "gate_cycles"))
    → counts_as_retry (latest_cycle p) (get p "candidate_sha") item ≡ true
    → at_least 0 (int_of (retry_of item)) ≡ true

abbrev NaturalMax : Option ℤ → Type 0
NaturalMax none = Unit {0}
NaturalMax (some z) = at_least 0 z ≡ true

max_natural :
    (z : ℤ) (o : Option ℤ) → at_least 0 z ≡ true → NaturalMax o → NaturalMax (max_some z o)
max_natural z none h k = h
max_natural (pos m) (some (pos n)) h k = ground arith
max_natural (pos m) (some (negsuc n)) h k = ground arith
max_natural (negsuc m) (some z) h k = ground arith

max_if_natural :
    (b : Bool) (z : ℤ) (o : Option ℤ)
    → (b ≡ true → at_least 0 z ≡ true)
    → NaturalMax o
    → NaturalMax (if b then max_some z o else o)
max_if_natural true z o h k = max_natural z o (h refl) k
max_if_natural false z o h k = k

max_retry-natural :
    (cycle candidate_sha : Json) (xs : Items)
    → ((item : Json)
        → Within item xs
        → counts_as_retry cycle candidate_sha item ≡ true
        → at_least 0 (int_of (retry_of item)) ≡ true)
    → NaturalMax (max_retry cycle candidate_sha xs)
unfolding max_retry
max_retry-natural cycle candidate_sha nil h = tt
max_retry-natural cycle candidate_sha (cons x xs) h =
    max_if_natural (counts_as_retry cycle candidate_sha x) (int_of (retry_of x))
      (max_retry cycle candidate_sha xs) (h x (inl refl))
      (max_retry-natural cycle candidate_sha xs (λ item w. h item (inr w)))

next_positive : (o : Option ℤ) → NaturalMax o → at_least 1 (ℤ_suc (or_zero o)) ≡ true
next_positive none h = refl
next_positive (some (pos n)) h = ground arith
next_positive (some (negsuc n)) h = ground arith

cycle_positive : (p : Json) → may_authorize p ≡ true → int_and (at_least 1) (latest_cycle p) ≡ true
unfolding may_authorize
cycle_positive p h = ground arith

one_eq : eq (nat 1) (nat 1) ≡ true
unfolding eq
one_eq = refl

-- The number that an authorization gives.
abbrev next_retry : Json → ℤ
next_retry p =
    ℤ_suc
      (or_zero (max_retry (latest_cycle p) (get p "candidate_sha") (items (get p "gate_cycles"))))

pending_fields :
    (q : Json) (candidate cycle : Json) (retry : ℤ) (note : String)
    → get q "gate_retry"
      ≡ obj (
          field "schema_version" (nat 1) (
            field "candidate_sha" candidate
              (field "cycle" cycle (field "retry" (int retry) (field "note" (str note) end)))))
    → eq candidate (get q "candidate_sha") ≡ true
    → int_and (at_least 1) cycle ≡ true
    → at_least 1 retry ≡ true
    → is_empty note ≡ false
    → pending_gate_retry q ≡ true
unfolding pending_gate_retry
pending_fields q candidate cycle retry note h c d e f =
    rw h (unfold get lookup in rw (one_eq, c, d, e, f) refl)

-- An authorized Gate retry that is written into a projection with the same Candidate is pending
-- there, if the counted retries are not negative and the Candidate's value repeats no key.
pub pending_gate_retry-authorization :
    (p q : Json) (note : String) (a : Fields)
    → gate_retry_authorization p (some note) ≡ some a
    → CountsNatural p
    → IsWf (get p "candidate_sha")
    → get q "gate_retry" ≡ obj a
    → get q "candidate_sha" ≡ get p "candidate_sha"
    → pending_gate_retry q ≡ true
pending_gate_retry-authorization p q note a h natural wf recorded same =
    let (may, filled, built) = authorized p note a h in
    pending_fields q (get p "candidate_sha") (latest_cycle p) (next_retry p) (strip note)
      (recorded ∙ ap obj built ∙ (unfold authorization in refl))
      (rw same (eq_wf (get p "candidate_sha") wf)) (cycle_positive p may)
      (next_positive _ (
        max_retry-natural (latest_cycle p) (get p "candidate_sha") (items (get p "gate_cycles"))
          natural))
      (unfold is_blank in filled)

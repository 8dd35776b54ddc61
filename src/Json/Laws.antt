-- ===== src/Json/Laws.antt =====
-- Laws of the tests, the lookups and the updates of JSON values.
use afk_composable_pipeline.Common.{
  String, ◌≡◌, refl, sym, ap, ◌∙◌, true, false, Option, none, some, str_eq, if◌then◌else◌, arith,
  eq_iff, eq_refl, ==_refl,
}
use afk_composable_pipeline.Json.{
  Json, Items, Fields, null, bool, int, str, arr, obj, nil, cons, end, field, lookup, put, merge,
  size, eq, eq_items, eq_fields, holds,
}

-- The key is not there.
abbrev pub Fresh : String → Fields → Type 0
Fresh k fs = lookup k fs ≡ none

-- No key is there twice, as in every Python dict.
abbrev pub Distinct : Fields → Type 0
Distinct end = Unit {0}
Distinct (field k v fs) = Fresh k fs × Distinct fs

pub str_eq_lem : (s t : String) → str_eq s t ≡ true → s ≡ t
str_eq_lem s t h = (eq_iff s t).0 h

-- A text is one of two different texts only.
pub other_text : (s a b : String) → str_eq a b ≡ false → str_eq s a ≡ true → str_eq s b ≡ false
other_text s a b h p = rw (str_eq_lem s a p) h

pub eq-str : (v : Json) (s : String) → eq v (str s) ≡ true → v ≡ str s
unfolding eq
eq-str (str t) s h = ap str (str_eq_lem t s h)
eq-str null s h = ground arith
eq-str (bool b) s h = ground arith
eq-str (int z) s h = ground arith
eq-str (arr xs) s h = ground arith
eq-str (obj fs) s h = ground arith

pub str-eq : (s t : String) → eq (str s) (str t) ≡ str_eq s t
unfolding eq
str-eq s t = refl

-- The other way round.
pub str_eq-str : (v : Json) (s : String) → eq (str s) v ≡ true → v ≡ str s
unfolding eq
str_eq-str (str t) s h = ap str (sym (str_eq_lem s t h))
str_eq-str null s h = ground arith
str_eq-str (bool b) s h = ground arith
str_eq-str (int z) s h = ground arith
str_eq-str (arr xs) s h = ground arith
str_eq-str (obj fs) s h = ground arith

pub eq_str_refl : (s : String) → eq (str s) (str s) ≡ true
unfolding eq
eq_str_refl s = eq_refl s

pub lookup-put :
    (k j : String) (v : Json) (fs : Fields)
    → lookup j (put k v fs) ≡ (if str_eq k j then some v else lookup j fs)
unfolding lookup put
lookup-put k j v end = refl
lookup-put k j v (field i w fs) =
    ground (arith, eq_iff k j, eq_iff i k, eq_iff i j, lookup-put k j v fs)

abbrev pub or_else {ℓ} : {A : Type ℓ} → Option A → Option A → Option A
or_else none b = b
or_else (some a) b = some a

merge_step :
    (j k : String) (v : Json) (fs gs : Fields)
    → lookup k gs ≡ none
    → or_else (lookup j gs) (lookup j (put k v fs))
      ≡ or_else (lookup j (field k v gs)) (lookup j fs)
unfolding lookup
merge_step j k v fs gs h = ground (arith, eq_iff k j, lookup-put k j v fs)

-- After an update a key has the new value where the update has one, and its own elsewhere.
pub lookup-merge :
    (j : String) (fs gs : Fields)
    → Distinct gs
    → lookup j (merge fs gs) ≡ or_else (lookup j gs) (lookup j fs)
unfolding merge
lookup-merge j fs end d = unfold lookup in refl
lookup-merge j fs (field k v gs) d = lookup-merge j (put k v fs) gs d.1 ∙ merge_step j k v fs gs d.0

-- Values of a run: no dict repeats a key, at any depth.
abbrev mutual
  pub IsWf : Json → Type 0
  IsWf (arr xs) = IsWfItems xs
  IsWf (obj fs) = IsWfFields fs
  IsWf _ = Unit {0}

  pub IsWfItems : Items → Type 0
  IsWfItems nil = Unit {0}
  IsWfItems (cons x xs) = IsWf x × IsWfItems xs

  pub IsWfFields : Fields → Type 0
  IsWfFields end = Unit {0}
  IsWfFields (field k v fs) = Fresh k fs × IsWf v × IsWfFields fs

abbrev Extends : Fields → Fields → Type 0
Extends fs gs = (k : String) (v : Json) → lookup k fs ≡ some v → lookup k gs ≡ some v

Extends-tail :
    (j : String) (w : Json) (fs gs : Fields)
    → Fresh j fs
    → Extends (field j w fs) gs
    → Extends fs gs
unfolding lookup
Extends-tail j w fs gs fresh h k v p = h k v (ground (arith, eq_iff j k))

lookup_head : (j : String) (w : Json) (fs : Fields) → lookup j (field j w fs) ≡ some w
unfolding lookup
lookup_head j w fs = rw (eq_refl j)

mutual
  unfolding eq

  eq_self : (v : Json) → IsWf v → eq v v ≡ true
  eq_self null h = refl
  eq_self (bool b) h = ground arith
  eq_self (int z) h = ground arith
  eq_self (str s) h = eq_refl s
  eq_self (arr xs) h = eq_items_self xs h
  eq_self (obj fs) h = rw (==_refl (size fs)) (eq_fields_self fs fs h (λ k v p. p))

  eq_items_self : (xs : Items) → IsWfItems xs → eq_items xs xs ≡ true
  eq_items_self nil h = refl
  eq_items_self (cons x xs) h = rw (eq_self x h.0) (eq_items_self xs h.1)

  eq_fields_self : (fs gs : Fields) → IsWfFields fs → Extends fs gs → eq_fields fs gs ≡ true
  eq_fields_self end gs h e = refl
  eq_fields_self (field k v fs) gs h e =
      rw (e k v (lookup_head k v fs), holds, eq_self v h.1)
        (eq_fields_self fs gs h.2 (Extends-tail k v fs gs h.0 e))

-- Every value of a run is equal to itself by Python's `==`.
pub eq_wf : (v : Json) → IsWf v → eq v v ≡ true
eq_wf v h = eq_self v h

-- ===== src/Common/Order.antt =====
-- Python's order on texts, by code points, and `sorted`, which is stable.
use Prim.Native.Nat.{ℕ, zero, suc, ◌≤◌, Ordering, compare as compare_ℕ}
use Prim.Native.Char.{Char, code}
use Prim.Native.String.compare.{nil-cons, cons-cons}
use Prim.Native.String.{String, compare, then as and_then}
use mathlib.Core.Path.{◌≡◌, refl, sym, ap, ◌∙◌}
use mathlib.Core.Bool.{Bool, true, false, not, ◌&&◌, ◌||◌}
use mathlib.Core.List.{List, [], ◌∷◌, map}
use native.Mathlib.Omega.{arith}
use afk_composable_pipeline.Common.Tests.{if◌then◌else◌, str_eq}
use afk_composable_pipeline.Common.Lists.{length, take, all}
use text.Mathlib.TextEquality.{eq_iff}
use text.Mathlib.TextPositions.{eq_refl}

-- `s <= t`
unfoldable pub text_le : String → String → Bool
text_le s t = elim (compare s t) [ Ordering.gt ↦ false | _ ↦ true ]

empty_first : (d : Char) (t : String) → text_le "" (String.◌∷◌ d t) ≡ true
unfolding text_le
empty_first d t =
    let e : compare "" (String.◌∷◌ d t) ≡ Ordering.lt = λ i. nil-cons d t i in rw (e, text_le) refl

heads_first :
    (c d : Char) (s t : String)
    → compare (String.◌∷◌ c s) (String.◌∷◌ d t)
      ≡ and_then (compare_ℕ (code c) (code d)) (compare s t)
heads_first c d s t = λ i. cons-cons c d s t i

pub text_le_total : (s t : String) → text_le s t ≡ false → text_le t s ≡ true
unfolding text_le
text_le_total String.[] String.[] h = ground arith
text_le_total String.[] (String.◌∷◌ d t) h =
    let apart : true ≡ false = sym (empty_first d t) ∙ h in cc apart
text_le_total (String.◌∷◌ c s) String.[] h = empty_first c s
text_le_total (String.◌∷◌ c s) (String.◌∷◌ d t) h =
    ground (arith, text_le_total s t, heads_first c d s t, heads_first d c t s)

module _ {ℓ} {A : Type ℓ} (key : A → String) where
  unfoldable pub insert_by : A → List A → List A
  insert_by x [] = x ∷ []
  insert_by x (y ∷ ys) =
      let rest = y ∷ insert_by x ys in if text_le (key x) (key y) then x ∷ y ∷ ys else rest

  -- `sorted(xs, key=key)`
  unfoldable pub sorted_by : List A → List A
  unfolding insert_by
  sorted_by [] = []
  sorted_by (x ∷ xs) = insert_by x (sorted_by xs)

  -- The keys do not fall.
  abbrev pub IsSorted : List A → Type 0
  IsSorted [] = Unit
  IsSorted (x ∷ []) = Unit
  IsSorted (x ∷ y ∷ ys) = (text_le (key x) (key y) ≡ true) × IsSorted (y ∷ ys)

  insert_by-IsSorted : (x : A) (ys : List A) → IsSorted ys → IsSorted (insert_by x ys)
  unfolding insert_by
  insert_by-IsSorted x [] h = tt
  insert_by-IsSorted x (y ∷ []) h = ground (arith, text_le_total (key x) (key y))
  insert_by-IsSorted x (y ∷ z ∷ zs) h = ground (
    arith,
    insert_by-IsSorted x (z ∷ zs) h.1,
    text_le_total (key x) (key y),
    text_le_total (key x) (key z),
  )

  pub sorted_by-IsSorted : (xs : List A) → IsSorted (sorted_by xs)
  unfolding sorted_by
  sorted_by-IsSorted [] = tt
  sorted_by-IsSorted (x ∷ xs) = insert_by-IsSorted x (sorted_by xs) (sorted_by-IsSorted xs)

  pub take-IsSorted : (n : ℕ) (xs : List A) → IsSorted xs → IsSorted (take n xs)
  take-IsSorted zero xs h = tt
  take-IsSorted (suc n) [] h = tt
  take-IsSorted (suc zero) (x ∷ []) h = tt
  take-IsSorted (suc (suc n)) (x ∷ []) h = tt
  take-IsSorted (suc zero) (x ∷ y ∷ ys) h = tt
  take-IsSorted (suc (suc n)) (x ∷ y ∷ ys) h = (h.0, take-IsSorted (suc n) (y ∷ ys) h.1)

  -- A sorted list is sorted already.
  pub sorted_by_again : (xs : List A) → IsSorted xs → sorted_by xs ≡ xs
  unfolding sorted_by
  sorted_by_again [] h = refl
  sorted_by_again (x ∷ []) h = refl
  sorted_by_again (x ∷ y ∷ ys) h = rw (sorted_by_again (y ∷ ys) h.1) (rw h.0 refl)

-- `s in xs`
unfoldable pub is_in : String → List String → Bool
is_in s [] = false
is_in s (t ∷ ts) = str_eq s t || is_in s ts

-- `set(xs)`, in some order
unfoldable pub distinct : List String → List String
unfolding is_in
distinct [] = []
distinct (s ∷ ss) = let rest = s ∷ distinct ss in if is_in s ss then distinct ss else rest

-- `len(set(xs)) == len(xs)`
unfoldable pub all_distinct : List String → Bool
unfolding is_in
all_distinct [] = true
all_distinct (s ∷ ss) = not (is_in s ss) && all_distinct ss

-- `xs == ys` on lists of texts
unfoldable pub texts_eq : List String → List String → Bool
texts_eq [] [] = true
texts_eq (s ∷ ss) (t ∷ ts) = str_eq s t && texts_eq ss ts
texts_eq _ _ = false

pub texts_eq_refl : (ss : List String) → texts_eq ss ss ≡ true
unfolding texts_eq
texts_eq_refl [] = refl
texts_eq_refl (s ∷ ss) = ground (arith, eq_refl s, texts_eq_refl ss)

pub distinct_again : (ss : List String) → all_distinct ss ≡ true → distinct ss ≡ ss
unfolding distinct all_distinct
distinct_again [] h = refl
distinct_again (s ∷ ss) h = ground (arith, distinct_again ss)

module _ {ℓ} {A : Type ℓ} (key : A → String) where
  is_in-insert_by :
      (s : String) (x : A) (ys : List A)
      → is_in s (map key (insert_by key x ys)) ≡ (str_eq s (key x) || is_in s (map key ys))
  unfolding is_in insert_by
  is_in-insert_by s x [] = refl
  is_in-insert_by s x (y ∷ ys) = ground (arith, is_in-insert_by s x ys)

  all_distinct-insert_by :
      (x : A) (ys : List A)
      → all_distinct (map key (insert_by key x ys))
        ≡ (not (is_in (key x) (map key ys)) && all_distinct (map key ys))
  unfolding all_distinct insert_by
  all_distinct-insert_by x [] = ground arith
  all_distinct-insert_by x (y ∷ ys) = ground (
    arith,
    all_distinct-insert_by x ys,
    is_in-insert_by (key y) x ys,
    eq_iff (key x) (key y),
    eq_iff (key y) (key x),
  )

  is_in-sorted_by :
      (s : String) (xs : List A) → is_in s (map key (sorted_by key xs)) ≡ is_in s (map key xs)
  unfolding is_in sorted_by
  is_in-sorted_by s [] = refl
  is_in-sorted_by s (x ∷ xs) =
      is_in-insert_by s x (sorted_by key xs)
      ∙ ap (λ b. str_eq s (key x) || b) (is_in-sorted_by s xs)

  pub all_distinct-sorted_by :
      (xs : List A) → all_distinct (map key (sorted_by key xs)) ≡ all_distinct (map key xs)
  unfolding all_distinct sorted_by
  all_distinct-sorted_by [] = refl
  all_distinct-sorted_by (x ∷ xs) =
      all_distinct-insert_by x (sorted_by key xs)
      ∙ rw (is_in-sorted_by (key x) xs, all_distinct-sorted_by xs) refl

  is_in-take :
      (s : String) (n : ℕ) (xs : List A)
      → is_in s (map key xs) ≡ false
      → is_in s (map key (take n xs)) ≡ false
  unfolding is_in
  is_in-take s zero xs h = refl
  is_in-take s (suc n) [] h = refl
  is_in-take s (suc n) (x ∷ xs) h = ground (arith, is_in-take s n xs)

  pub all_distinct-take :
      (n : ℕ) (xs : List A)
      → all_distinct (map key xs) ≡ true
      → all_distinct (map key (take n xs)) ≡ true
  unfolding all_distinct
  all_distinct-take zero xs h = refl
  all_distinct-take (suc n) [] h = refl
  all_distinct-take (suc n) (x ∷ xs) h =
      ground (arith, all_distinct-take n xs, is_in-take (key x) n xs)

  pub map-IsSorted : (xs : List A) → IsSorted key xs → IsSorted (λ s. s) (map key xs)
  map-IsSorted [] h = tt
  map-IsSorted (x ∷ []) h = tt
  map-IsSorted (x ∷ y ∷ ys) h = (h.0, map-IsSorted (y ∷ ys) h.1)

module _ {ℓ} {A : Type ℓ} where
  pub length-take : (n : ℕ) (xs : List A) → length (take n xs) ≤ n
  length-take zero xs = omega arith
  length-take (suc n) [] = omega arith
  length-take (suc n) (x ∷ xs) = omega (arith, length-take n xs)

  pub length-map {κ} : {B : Type κ} (f : A → B) (xs : List A) → length (map f xs) ≡ length xs
  length-map f [] = refl
  length-map f (x ∷ xs) = ap suc (length-map f xs)

  pub all-take : (p : A → Bool) (n : ℕ) (xs : List A) → all p xs ≡ true → all p (take n xs) ≡ true
  all-take p zero xs h = refl
  all-take p (suc n) [] h = refl
  all-take p (suc n) (x ∷ xs) h = ground (arith, all-take p n xs)

  all-insert_by :
      (p : A → Bool) (key : A → String) (x : A) (ys : List A)
      → all p (insert_by key x ys) ≡ (p x && all p ys)
  unfolding insert_by
  all-insert_by p key x [] = refl
  all-insert_by p key x (y ∷ ys) = ground (arith, all-insert_by p key x ys)

  pub all-sorted_by :
      (p : A → Bool) (key : A → String) (xs : List A) → all p (sorted_by key xs) ≡ all p xs
  unfolding sorted_by
  all-sorted_by p key [] = refl
  all-sorted_by p key (x ∷ xs) =
      all-insert_by p key x (sorted_by key xs) ∙ ap (λ b. p x && b) (all-sorted_by p key xs)

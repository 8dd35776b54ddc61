-- ===== src/Redaction/Walk.antt =====
-- What the walk of src/afk/redaction.py leaves in a value.
use afk_composable_pipeline.Common.{
  String, ◌⊎◌, ◌≡◌, refl, Bool, true, false, Option, none, some, str_eq, inl, inr, Bool-cases, not,
  ◌&&◌, if◌then◌else◌,
}
use afk_composable_pipeline.Json.{
  Json, Items, Fields, null, bool, int, str, arr, obj, nil, cons, end, field, lookup,
}
use afk_composable_pipeline.Json.Laws.{str_eq_lem}
use afk_composable_pipeline.Redaction.{
  TextRules, marker, secret, redact, redact_items, redact_fields, redact_command, announces,
  is_command,
}

module _ (rules : TextRules) where
  open rules use {is_secret_key}

  -- The value under a secret key is the marker, at every depth.
  abbrev mutual
    pub IsClean : Json → Type 0
    IsClean (arr xs) = IsCleanItems xs
    IsClean (obj fs) = IsCleanFields fs
    IsClean _ = Unit {0}

    pub IsCleanItems : Items → Type 0
    IsCleanItems nil = Unit {0}
    IsCleanItems (cons x xs) = IsClean x × IsCleanItems xs

    pub IsCleanFields : Fields → Type 0
    IsCleanFields end = Unit {0}
    IsCleanFields (field k v fs) =
        ((is_secret_key k ≡ false) ⊎ (v ≡ str marker)) × IsClean v × IsCleanFields fs

  redact-secret :
      (key : Option String) (v : Json) → secret rules key ≡ true → redact rules key v ≡ str marker
  unfolding redact
  redact-secret key null h = rw h
  redact-secret key (bool b) h = rw h
  redact-secret key (int z) h = rw h
  redact-secret key (str s) h = rw h
  redact-secret key (arr xs) h = rw h
  redact-secret key (obj fs) h = rw h

  marked :
      (k : String) (v : Json) → (is_secret_key k ≡ false) ⊎ (redact rules (some k) v ≡ str marker)
  marked k v = elim (Bool-cases (is_secret_key k)) [
    | inl h ↦ inr (redact-secret (some k) v h)
    | inr h ↦ inl h
  ]

  if_IsClean : (b : Bool) (x y : Json) → IsClean x → IsClean y → IsClean (if b then x else y)
  if_IsClean true x y h k = h
  if_IsClean false x y h k = k

  if_IsCleanItems :
      (b : Bool) (xs ys : Items)
      → IsCleanItems xs
      → IsCleanItems ys
      → IsCleanItems (if b then xs else ys)
  if_IsCleanItems true x y h k = h
  if_IsCleanItems false x y h k = k

  mutual
    unfolding redact

    walk-IsClean : (key : Option String) (v : Json) → IsClean (redact rules key v)
    walk-IsClean key null = if_IsClean (secret rules key) _ _ tt tt
    walk-IsClean key (bool b) = if_IsClean (secret rules key) _ _ tt tt
    walk-IsClean key (int z) = if_IsClean (secret rules key) _ _ tt tt
    walk-IsClean key (str s) = if_IsClean (secret rules key) _ _ tt tt
    walk-IsClean key (arr xs) = if_IsClean (secret rules key) _ _ tt (
        if_IsCleanItems (is_command key) _ _ (walk_command-IsCleanItems false xs)
          (walk-IsCleanItems key xs))
    walk-IsClean key (obj fs) = if_IsClean (secret rules key) _ _ tt (walk-IsCleanFields fs)

    walk-IsCleanItems :
        (key : Option String) (xs : Items) → IsCleanItems (redact_items rules key xs)
    walk-IsCleanItems key nil = tt
    walk-IsCleanItems key (cons x xs) = (walk-IsClean key x, walk-IsCleanItems key xs)

    walk-IsCleanFields : (fs : Fields) → IsCleanFields (redact_fields rules fs)
    walk-IsCleanFields end = tt
    walk-IsCleanFields (field k v fs) = (marked k v, walk-IsClean (some k) v, walk-IsCleanFields fs)

    walk_command-IsCleanItems :
        (next : Bool) (xs : Items) → IsCleanItems (redact_command rules next xs)
    walk_command-IsCleanItems next nil = tt
    walk_command-IsCleanItems next (cons (str s) xs) =
        (tt, walk_command-IsCleanItems (not next && announces rules s) xs)
    walk_command-IsCleanItems next (cons null xs) =
        (walk-IsClean none null, walk_command-IsCleanItems false xs)
    walk_command-IsCleanItems next (cons (bool b) xs) =
        (walk-IsClean none (bool b), walk_command-IsCleanItems false xs)
    walk_command-IsCleanItems next (cons (int z) xs) =
        (walk-IsClean none (int z), walk_command-IsCleanItems false xs)
    walk_command-IsCleanItems next (cons (arr ys) xs) =
        (walk-IsClean none (arr ys), walk_command-IsCleanItems false xs)
    walk_command-IsCleanItems next (cons (obj fs) xs) =
        (walk-IsClean none (obj fs), walk_command-IsCleanItems false xs)

  -- The keys stay, and each value is redacted for its own key.
  pub lookup-redact_fields :
      (k : String) (fs : Fields)
      → lookup k (redact_fields rules fs)
        ≡ (elim (lookup k fs) [ none ↦ none | some v ↦ some (redact rules (some k) v) ])
  unfolding lookup redact
  lookup-redact_fields k end = refl
  lookup-redact_fields k (field j v fs) = elim (Bool-cases (str_eq j k)) [
    | inl same ↦ rw (same, str_eq_lem j k same)
    | inr other ↦ rw (other, lookup-redact_fields k fs)
  ]

  -- In a redacted value, at every depth, the value under a secret key is the marker.
  pub redact-IsClean : (key : Option String) (v : Json) → IsClean (redact rules key v)
  redact-IsClean key v = walk-IsClean key v

-- ===== src/Retrospective/Inventory/Entries.antt =====
-- The entries of an inventory of src/afk/retrospective_contract.py, as they are captured and as they
-- are read.
use afk_composable_pipeline.Common.{
  String, List, [], ◌∷◌, Bool, true, false, leb, characters, prefix, map, all, ◌≡◌, refl, ◌∙◌,
  arith, is_blank, characters-cat, Bool-cases, inl, inr,
}
use afk_composable_pipeline.Common.Order.{
  sorted_by, all_distinct, texts_eq_refl, distinct_again, sorted_by_again, IsSorted,
  sorted_by-IsSorted, take-IsSorted, map-IsSorted, all_distinct-sorted_by, all_distinct-take,
  all-take, all-sorted_by,
}
use afk_composable_pipeline.Common.Blank.{ends_with-cat, is_blank-cat, characters-prefix}
use afk_composable_pipeline.Text.{is_durable_id, is_sha256}
use afk_composable_pipeline.Json.{Json, get, keys_are, str_and, one_of}
use afk_composable_pipeline.History.Record.{not_blank, str_and_text}
use afk_composable_pipeline.Retrospective.Inventory.{
  inventory_limit, text_limit, truncation_suffix, bounded_text, valid_bounded_text, selected_items,
  text_at, captured_effect, captured_unit, valid_effect_entry, valid_unit, valid_evidence_entry,
  rising,
}

pub bounded_text_valid : (s : String) → valid_bounded_text (bounded_text s) ≡ true
unfolding valid_bounded_text bounded_text
bounded_text_valid s = elim (Bool-cases (leb (characters s) text_limit)) [
  | inl short ↦ rw short (rw short refl)
  | inr long ↦ rw long (
      ground (
        arith,
        characters-cat (prefix text_limit s) truncation_suffix,
        characters-prefix text_limit s (ground arith),
        ends_with-cat (prefix text_limit s) truncation_suffix,
      ))
]

suffix_not_blank : is_blank truncation_suffix ≡ false
unfolding is_blank
suffix_not_blank = refl

pub bounded_text-not_blank : (s : String) → not_blank s ≡ true → not_blank (bounded_text s) ≡ true
unfolding bounded_text
bounded_text-not_blank s h =
    ground (arith, is_blank-cat (prefix text_limit s) truncation_suffix suffix_not_blank)

-- A list in the order of its distinct keys is read as rising.
rising_of :
    (texts : List String)
    → IsSorted (λ s. s) texts
    → all_distinct texts ≡ true
    → rising texts ≡ true
rising_of texts sorted once =
    rw (distinct_again texts once, sorted_by_again (λ s. s) texts sorted) (texts_eq_refl texts)

pub rising-selected :
    (identity : Json → String) (xs : List Json)
    → all_distinct (map identity xs) ≡ true
    → rising (map identity (selected_items identity xs)) ≡ true
rising-selected identity xs once =
    rising_of (map identity (selected_items identity xs))
      (map-IsSorted identity _
        (take-IsSorted identity inventory_limit _ (sorted_by-IsSorted identity xs)))
      (all_distinct-take identity inventory_limit (sorted_by identity xs)
        (all_distinct-sorted_by identity xs ∙ once))

pub all-selected :
    (p : Json → Bool) (identity : Json → String) (xs : List Json)
    → all p xs ≡ true
    → all p (selected_items identity xs) ≡ true
all-selected p identity xs h =
    all-take p inventory_limit (sorted_by identity xs) (all-sorted_by p identity xs ∙ h)

pub all-map :
    (p q : Json → Bool) (f : Json → Json)
    → ((x : Json) → p x ≡ true → q (f x) ≡ true)
    → (xs : List Json) → all p xs ≡ true
    → all q (map f xs) ≡ true
all-map p q f step [] h = refl
all-map p q f step (x ∷ xs) h = ground (arith, step x, all-map p q f step xs)

abbrev pub status_known : Json → Bool
status_known v = one_of ("prepared" ∷ "confirmed" ∷ []) (get v "status")

-- What `effect` of the store checked of a record before.
pub record IsEffect (v : Json) : Type 0 where
  pub id : str_and is_durable_id (get v "effect_id") ≡ true
  pub kind : str_and not_blank (get v "kind") ≡ true
  pub status : status_known v ≡ true

pub captured_effect_valid : (v : Json) → IsEffect v → valid_effect_entry (captured_effect v) ≡ true
unfolding valid_effect_entry captured_effect keys_are get
captured_effect_valid v h =
    rw
      (
        str_and_text is_durable_id (get v "effect_id") h.id,
        bounded_text-not_blank (text_at "kind" v) (str_and_text not_blank (get v "kind") h.kind),
        bounded_text_valid (text_at "kind" v),
        h.status,
      )
      refl

pub captured_unit_valid :
    (digest : Json → String) (roots : List String) (v : Json)
    → is_sha256 (digest (get v "manifest")) ≡ true
    → str_and (valid_unit roots) (get v "unit") ≡ true
    → valid_evidence_entry roots (captured_unit digest v) ≡ true
unfolding valid_evidence_entry captured_unit keys_are get
captured_unit_valid digest roots v hash h =
    rw (str_and_text (valid_unit roots) (get v "unit") h, hash) refl

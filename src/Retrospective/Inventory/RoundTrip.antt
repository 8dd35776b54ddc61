-- ===== src/Retrospective/Inventory/RoundTrip.antt =====
-- What src/afk/retrospective_contract.py captures, it reads back.
use afk_composable_pipeline.Common.{
  ℕ, String, List, Bool, true, ◌&&◌, leb, length, map, all, ◌≡◌, refl, arith, ==_refl,
}
use afk_composable_pipeline.Common.Order.{sorted_by, all_distinct, length-take, length-map}
use afk_composable_pipeline.Text.{is_durable_id, is_sha256}
use afk_composable_pipeline.Json.{Json, get, keys_are, str_and}
use afk_composable_pipeline.Json.Lists.{elements, of_list, to_list, to_list-of_list, map-map}
use afk_composable_pipeline.Errors.{ok}
use afk_composable_pipeline.History.Record.{not_blank}
use afk_composable_pipeline.Retrospective.Inventory.{
  inventory_limit, selected_items, text_at, captured_effect, captured_unit, capture_inventory,
  valid_shape, valid_effect_entry, valid_unit, valid_evidence_entry, valid_omitted, rising,
  valid_inventory, decode_inventory,
}
use afk_composable_pipeline.Retrospective.Inventory.Entries.{
  status_known, IsEffect, captured_effect_valid, captured_unit_valid, all-selected, all-map,
  rising-selected,
}

-- A record that the store's `effect` accepted.
abbrev pub sound_effect : Json → Bool
sound_effect v =
    str_and is_durable_id (get v "effect_id") && str_and not_blank (get v "kind") && status_known v

-- A unit below one of the roots.
abbrev pub sound_unit : List String → Json → Bool
sound_unit roots v = str_and (valid_unit roots) (get v "unit")

IsEffect-parts : (v : Json) → sound_effect v ≡ true → IsEffect v
IsEffect-parts v h = ground arith

-- What a capture is made of.
pub record Captured (digest : Json → String) (roots : List String) (effects evidence : List Json)
    : Type 0 where
  pub hash : (v : Json) → is_sha256 (digest v) ≡ true
  pub effects_sound : all sound_effect effects ≡ true
  pub effects_distinct : all_distinct (map (text_at "effect_id") effects) ≡ true
  pub units_sound : all (sound_unit roots) evidence ≡ true
  pub units_distinct : all_distinct (map (text_at "unit") evidence) ≡ true

length-selected :
    (f : Json → Json) (identity : Json → String) (xs : List Json)
    → leb (length (to_list (of_list (map f (selected_items identity xs))))) inventory_limit ≡ true
length-selected f identity xs = rw (to_list-of_list (map f (selected_items identity xs))) (
    ground (
      arith,
      length-map f (selected_items identity xs),
      length-take inventory_limit (sorted_by identity xs),
    ))

module _ (digest : Json → String) (roots : List String) (effects evidence : List Json) (n o u : ℕ)
    (c : Captured digest roots effects evidence) where
  abbrev inventory : Json
  inventory = capture_inventory digest n effects evidence o u

  shape_valid : valid_shape n inventory ≡ true
  unfolding valid_shape capture_inventory keys_are get valid_omitted
  shape_valid =
      rw
        (
          ==_refl n,
          length-selected captured_effect (text_at "effect_id") effects,
          length-selected (captured_unit digest) (text_at "unit") evidence,
        )
        (ground arith)

  effects_valid : all valid_effect_entry (elements (get inventory "effects")) ≡ true
  unfolding capture_inventory get
  effects_valid =
      rw (to_list-of_list (map captured_effect (selected_items (text_at "effect_id") effects))) (
        all-map sound_effect valid_effect_entry captured_effect
          (λ v h. captured_effect_valid v (IsEffect-parts v h)) _
          (all-selected sound_effect (text_at "effect_id") effects c.effects_sound))

  evidence_valid : all (valid_evidence_entry roots) (elements (get inventory "evidence")) ≡ true
  unfolding capture_inventory get
  evidence_valid =
      rw (to_list-of_list (map (captured_unit digest) (selected_items (text_at "unit") evidence))) (
        all-map (sound_unit roots) (valid_evidence_entry roots) (captured_unit digest)
          (λ v h. captured_unit_valid digest roots v (c.hash (get v "manifest")) h) _
          (all-selected (sound_unit roots) (text_at "unit") evidence c.units_sound))

  effects_rising : rising (map (text_at "effect_id") (elements (get inventory "effects"))) ≡ true
  unfolding capture_inventory get captured_effect
  effects_rising =
      rw
        (
          to_list-of_list (map captured_effect (selected_items (text_at "effect_id") effects)),
          map-map (text_at "effect_id") captured_effect
              (selected_items (text_at "effect_id") effects),
        )
        (rising-selected (text_at "effect_id") effects c.effects_distinct)

  evidence_rising : rising (map (text_at "unit") (elements (get inventory "evidence"))) ≡ true
  unfolding capture_inventory get captured_unit
  evidence_rising =
      rw
        (
          to_list-of_list (map (captured_unit digest) (selected_items (text_at "unit") evidence)),
          map-map (text_at "unit") (captured_unit digest)
              (selected_items (text_at "unit") evidence),
        )
        (rising-selected (text_at "unit") evidence c.units_distinct)

  inventory_valid : valid_inventory n roots inventory ≡ true
  unfolding valid_inventory
  inventory_valid =
      rw (shape_valid, effects_valid, evidence_valid, effects_rising, evidence_rising) refl

-- The inventory that is captured of effects and evidence units is read back as it is: for effects
-- with distinct durable ids, a kind that is not blank and a known status, in any number and order,
-- for distinct units below the roots, and for digests in hexadecimal.
pub decode-capture_inventory :
    (digest : Json → String) (roots : List String) (effects evidence : List Json) (n o u : ℕ)
    → Captured digest roots effects evidence
    → let inventory = capture_inventory digest n effects evidence o u in
      decode_inventory n roots inventory ≡ ok inventory
unfolding decode_inventory
decode-capture_inventory digest roots effects evidence n o u c =
    let v = capture_inventory digest n effects evidence o u in
    let valid = inventory_valid digest roots effects evidence n o u c in ground (arith, valid)

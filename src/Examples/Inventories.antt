-- ===== src/Examples/Inventories.antt =====
-- The inventory of an episode with one effect and one sealed validation attempt.
use afk_composable_pipeline.Common.{ℕ, String, List, [], ◌∷◌, true, ◌≡◌, refl}
use afk_composable_pipeline.Text.{is_sha256}
use afk_composable_pipeline.Json.{Json, null, str, obj, dict}
use afk_composable_pipeline.Errors.{ok}
use afk_composable_pipeline.Retrospective.Inventory.{capture_inventory, decode_inventory}
use afk_composable_pipeline.Retrospective.Inventory.RoundTrip.{Captured, decode-capture_inventory}

abbrev toy_digest : Json → String
toy_digest v = "0123456789abcdef0123456789abcdef0123456789abcdef0123456789abcdef"

abbrev toy_digest_hash : (v : Json) → is_sha256 (toy_digest v) ≡ true
unfolding is_sha256
toy_digest_hash v = refl

abbrev roots : List String
roots = "attempts" ∷ "gates" ∷ "retrospective" ∷ []

abbrev effects : List Json
effects =
    obj (
      dict (
        ("effect_id", str "pr-2") ∷ ("kind", str "pull_request") ∷ ("status", str "prepared") ∷ []))
    ∷ obj (
        dict (
          ("effect_id", str "branch-1")
          ∷ ("kind", str "branch")
          ∷ ("status", str "confirmed")
          ∷ []))
    ∷ []

abbrev evidence : List Json
evidence = obj (dict (("unit", str "attempts/validation-1") ∷ ("manifest", null) ∷ [])) ∷ []

captured : Captured toy_digest roots effects evidence
unfolding afk_composable_pipeline.Json.get afk_composable_pipeline.Text.is_durable_id
    afk_composable_pipeline.Common.is_blank afk_composable_pipeline.Json.eq
    afk_composable_pipeline.Common.Order.all_distinct
    afk_composable_pipeline.Retrospective.Inventory.valid_unit
    afk_composable_pipeline.Text.FilePath.path_parts
captured = record {
  hash = toy_digest_hash;
  effects_sound = refl;
  effects_distinct = refl;
  units_sound = refl;
  units_distinct = refl;
}

decode-capture_inventory_example :
    let inventory = capture_inventory toy_digest 4 effects evidence 0 0 in
    decode_inventory 4 roots inventory ≡ ok inventory
decode-capture_inventory_example =
    decode-capture_inventory toy_digest roots effects evidence 4 0 0 captured

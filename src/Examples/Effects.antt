-- ===== src/Examples/Effects.antt =====
-- An effect of a Run that is prepared and confirmed.
use afk_composable_pipeline.Common.{
  String, List, [], ◌∷◌, Option, none, some, Bool, true, false, ◌≡◌, refl,
}
use afk_composable_pipeline.Json.{Json, Fields, str, obj, end, field, nat, get, eq}
use afk_composable_pipeline.Errors.{ok}
use afk_composable_pipeline.Redaction.{redact}
use afk_composable_pipeline.Examples.Histories.{toy_rules}
use afk_composable_pipeline.Effects.{
  EffectFile, absent, holding, effect, prepare_effect, confirm_effect, new_record,
}
use afk_composable_pipeline.Effects.Stable.{
  confirmed_of, prepare_effect_twice, confirmed_is_final, Unchanged,
}

abbrev intended : Fields
intended = field "branch" (str "afk/run-1") end

abbrev observed : Fields
observed = field "sha" (str "abcdef") end

abbrev record_of_push : Json
record_of_push = new_record "push-1" "git.push" intended

abbrev confirmed_push : Json
confirmed_push = confirmed_of "push-1" "git.push" intended observed

prepare_effect_twice_example :
    (prepare_effect toy_rules "push-1" "git.push" intended absent
      ≡ ok (holding record_of_push, record_of_push))
    × (prepare_effect toy_rules "push-1" "git.push" intended (holding record_of_push)
        ≡ ok (holding record_of_push, record_of_push))
unfolding afk_composable_pipeline.Text.is_durable_id afk_composable_pipeline.Common.is_blank redact
    afk_composable_pipeline.Effects.effect_record afk_composable_pipeline.Json.lookup
prepare_effect_twice_example =
    prepare_effect_twice toy_rules "push-1" "git.push" intended refl refl refl (refl, tt, tt)

confirmed_found : effect "push-1" (holding confirmed_push) ≡ ok confirmed_push
unfolding effect afk_composable_pipeline.Text.is_durable_id
    afk_composable_pipeline.Effects.valid_effect afk_composable_pipeline.Json.keys_are
    afk_composable_pipeline.Effects.status_keys eq get afk_composable_pipeline.Effects.effect_keys
    afk_composable_pipeline.Common.is_blank
confirmed_found = refl

reads_confirmed : eq (get confirmed_push "status") (str "confirmed") ≡ true
unfolding eq get
reads_confirmed = refl

confirmed_is_final_example :
    Unchanged confirmed_push
      (prepare_effect toy_rules "push-1" "git.push" intended (holding confirmed_push))
    × Unchanged confirmed_push (confirm_effect toy_rules "push-1" observed (holding confirmed_push))
confirmed_is_final_example =
    confirmed_is_final toy_rules "push-1" "git.push" intended observed confirmed_push
      confirmed_found reads_confirmed

-- ===== src/Effects/Stable.antt =====
-- What a prepared and a confirmed effect of src/afk/run_store.py keep.
use afk_composable_pipeline.Common.{String, [], ◌∷◌, Bool, true, false, ◌≡◌, refl, arith, eq_refl}
use afk_composable_pipeline.Text.{is_durable_id}
use afk_composable_pipeline.Json.{
  Json, Fields, obj, str, nat, get, lookup, put, size, eq, merge, dict, keys_are,
}
use afk_composable_pipeline.Json.Laws.{IsWfFields, eq_wf, eq_str_refl}
use afk_composable_pipeline.Redaction.{TextRules}
use afk_composable_pipeline.Errors.{Result, ok, err, Failure, guard, ◌>>◌}
use afk_composable_pipeline.History.Record.{not_blank}
use afk_composable_pipeline.Effects.{
  EffectFile, absent, holding, effect, valid_effect, effect_record, prepare_effect,
  prepare_existing, confirm_effect, confirm_record, confirmed_record, effect_keys, status_keys,
  redacted, new_record, durable,
}

new_is_valid :
    (effect_id kind : String) (intended : Fields)
    → not_blank kind ≡ true
    → valid_effect effect_id (obj (effect_record effect_id kind intended)) ≡ true
unfolding valid_effect effect_record
new_is_valid effect_id kind intended h =
    unfold keys_are get eq status_keys effect_keys in ground (arith, h, eq_refl effect_id)

existing_is_same :
    (effect_id kind : String) (intended : Fields) (file : EffectFile)
    → IsWfFields intended
    → prepare_existing effect_id kind
        (get (new_record effect_id kind intended) "intended")
        file
        (new_record effect_id kind intended)
      ≡ ok (file, new_record effect_id kind intended)
unfolding prepare_existing effect_record get lookup
existing_is_same effect_id kind intended file wf =
    rw (eq_str_refl kind, eq_wf (obj intended) wf) refl

-- A call that succeeds leaves the file as it is and returns the record that it holds; a call that
-- raises writes nothing.
abbrev pub Unchanged : Json → Result (EffectFile × Json) → Type 0
Unchanged r (err failure) = Unit {0}
Unchanged r (ok (file, returned)) = (file ≡ holding r) × (returned ≡ r)

guard-Unchanged :
    (r : Json) (b : Bool) (failure : Failure) → Unchanged r (guard b failure >> ok (holding r, r))
guard-Unchanged r true failure = (refl, refl)
guard-Unchanged r false failure = tt

unit-Unchanged :
    (r : Json) (check : Result (Unit {0})) (next : Result (EffectFile × Json))
    → Unchanged r next
    → Unchanged r (check >> next)
unit-Unchanged r (err failure) next h = tt
unit-Unchanged r (ok u) next h = h

confirm_record-Unchanged :
    (rules : TextRules) (effect_id : String) (observed : Fields) (r : Json)
    → eq (get r "status") (str "confirmed") ≡ true
    → Unchanged r (confirm_record rules effect_id observed (holding r) r)
unfolding confirm_record
confirm_record-Unchanged rules effect_id observed r done =
    rw done (guard-Unchanged r (eq (get r "observed") (redacted rules (obj observed))) _)

new_effect :
    (effect_id kind : String) (intended : Fields)
    → is_durable_id effect_id ≡ true
    → not_blank kind ≡ true
    → effect effect_id (holding (new_record effect_id kind intended))
      ≡ ok (new_record effect_id kind intended)
unfolding effect
new_effect effect_id kind intended d k = rw (d, new_is_valid effect_id kind intended k) refl

still_prepared :
    (effect_id kind : String) (intended : Fields)
    → eq (get (new_record effect_id kind intended) "status") (str "confirmed") ≡ false
unfolding effect_record get lookup eq
still_prepared effect_id kind intended = refl

-- The record of an effect after its confirmation.
abbrev pub confirmed_of : String → String → Fields → Fields → Json
confirmed_of effect_id kind intended observed = obj (
    dict (
      ("schema_version", nat 1)
      ∷ ("effect_id", str effect_id)
      ∷ ("kind", str kind)
      ∷ ("status", str "confirmed")
      ∷ ("intended", obj intended)
      ∷ ("observed", obj observed)
      ∷ []))

confirmed_is_valid :
    (effect_id kind : String) (intended observed : Fields)
    → not_blank kind ≡ true
    → valid_effect effect_id (confirmed_of effect_id kind intended observed) ≡ true
unfolding valid_effect keys_are get lookup size eq status_keys effect_keys
confirmed_is_valid effect_id kind intended observed k = ground (arith, k, eq_refl effect_id)

confirmed_effect :
    (effect_id kind : String) (intended observed : Fields)
    → is_durable_id effect_id ≡ true
    → not_blank kind ≡ true
    → effect effect_id (holding (confirmed_of effect_id kind intended observed))
      ≡ ok (confirmed_of effect_id kind intended observed)
unfolding effect
confirmed_effect effect_id kind intended observed d k =
    rw (d, confirmed_is_valid effect_id kind intended observed k) refl

module _ (rules : TextRules) where
  merged :
      (effect_id kind : String) (intended observed : Fields)
      → redacted rules (obj observed) ≡ obj observed
      → confirmed_record rules (new_record effect_id kind intended) observed
        ≡ confirmed_of effect_id kind intended observed
  unfolding confirmed_record effect_record merge put
  merged effect_id kind intended observed clean = rw clean refl

  confirm_again :
      (effect_id kind : String) (intended observed : Fields)
      → redacted rules (obj observed) ≡ obj observed
      → IsWfFields observed
      → confirm_record rules effect_id observed
          (holding (confirmed_of effect_id kind intended observed))
          (confirmed_of effect_id kind intended observed)
        ≡ ok (
          holding (confirmed_of effect_id kind intended observed),
          confirmed_of effect_id kind intended observed,
        )
  unfolding confirm_record get lookup
  confirm_again effect_id kind intended observed clean wf =
      rw (eq_str_refl "confirmed", clean, eq_wf (obj observed) wf) refl

  -- For a durable id and a kind that is not blank, with nothing to redact and an intention that
  -- repeats no key, a preparation without a file writes and returns the prepared record, and a
  -- second one returns it and leaves the file.
  pub prepare_effect_twice :
      (effect_id kind : String) (intended : Fields)
      → is_durable_id effect_id ≡ true
      → not_blank kind ≡ true
      → redacted rules (new_record effect_id kind intended) ≡ new_record effect_id kind intended
      → IsWfFields intended
      → (prepare_effect rules effect_id kind intended absent
          ≡ ok (holding (new_record effect_id kind intended), new_record effect_id kind intended))
        × (prepare_effect rules effect_id kind intended
              (holding (new_record effect_id kind intended))
            ≡ ok (holding (new_record effect_id kind intended), new_record effect_id kind intended))
  unfolding prepare_effect effect
  prepare_effect_twice effect_id kind intended d k same wf = (
    rw (d, same, same) refl,
    rw (d, same, new_is_valid effect_id kind intended k)
        (existing_is_same effect_id kind intended (holding (new_record effect_id kind intended))
          wf),
  )

  -- Where the file of an effect holds a valid confirmed record, a preparation leaves the file as it
  -- is and returns that record or raises, and so does a confirmation, whatever they ask for.
  pub confirmed_is_final :
      (effect_id kind : String) (intended observed : Fields) (r : Json)
      → effect effect_id (holding r) ≡ ok r
      → eq (get r "status") (str "confirmed") ≡ true
      → Unchanged r (prepare_effect rules effect_id kind intended (holding r))
        × Unchanged r (confirm_effect rules effect_id observed (holding r))
  unfolding prepare_effect confirm_effect prepare_existing
  confirmed_is_final effect_id kind intended observed r found done = (
    unit-Unchanged r (durable effect_id) _ (rw found (guard-Unchanged r _ _)),
    rw found (confirm_record-Unchanged rules effect_id observed r done),
  )

  -- Under the same conditions on the confirmed record, the confirmation of a prepared effect writes
  -- a valid effect with the same kind and intention that reads "confirmed", and a second one with
  -- the same observation changes nothing.
  confirm_effect_keeps :
      (effect_id kind : String) (intended observed : Fields)
      → is_durable_id effect_id ≡ true
      → not_blank kind ≡ true
      → redacted rules (confirmed_of effect_id kind intended observed)
        ≡ confirmed_of effect_id kind intended observed
      → IsWfFields observed
      → redacted rules (obj observed) ≡ obj observed
      → (confirm_effect rules effect_id observed (holding (new_record effect_id kind intended))
          ≡ ok (
            holding (confirmed_of effect_id kind intended observed),
            confirmed_of effect_id kind intended observed,
          ))
        × (effect effect_id (holding (confirmed_of effect_id kind intended observed))
            ≡ ok (confirmed_of effect_id kind intended observed))
        × (confirm_effect rules effect_id observed
              (holding (confirmed_of effect_id kind intended observed))
            ≡ ok (
              holding (confirmed_of effect_id kind intended observed),
              confirmed_of effect_id kind intended observed,
            ))
  unfolding confirm_effect confirm_record
  confirm_effect_keeps effect_id kind intended observed d k same wf clean =
      let prepared = new_effect effect_id kind intended d k in
      let confirmed = confirmed_effect effect_id kind intended observed d k in
      (
        rw (prepared, confirm_record, still_prepared effect_id kind intended)
            (rw (merged effect_id kind intended observed clean) (rw same refl)),
        confirmed,
        rw confirmed (confirm_again effect_id kind intended observed clean wf),
      )

-- ===== src/Episodes/ActiveRun.antt =====
-- `supersede_active_run` of src/afk/run_store.py with the Active Run that it asks for. What the store
-- holds is an argument.
use afk_composable_pipeline.Common.{
  ℕ, suc, String, List, [], ◌∷◌, ◌++◌, Option, none, some, Bool, true, false, not, strip, is_empty,
  length, ◌≡◌, refl,
}
use afk_composable_pipeline.Json.{Json, str, nat, get, eq}
use afk_composable_pipeline.Json.Laws.{eq_str_refl}
use afk_composable_pipeline.Redaction.{TextRules}
use afk_composable_pipeline.Errors.{
  Result, ok, err, store_error, history_corrupt, run_not_found, preflight_invalid, ◌>>=◌, ◌>>◌,
  guard,
}
use afk_composable_pipeline.History.Record.{Event}
use afk_composable_pipeline.Preflight.{validate_open_attempts}
use afk_composable_pipeline.Episodes.{validated_attention_episode}
use afk_composable_pipeline.Episodes.Supersession.{
  validated_supersession, supersede_projection, Superseded, supersession_of, valid_reason,
  reason_parts, supersession_validated, supersede_projection_again,
}

-- What the store answers: the one Run that is not done, of all that it holds (`_active_run_id`); the
-- Active Run pointer (`_active_pointer_run_id`); the history and the projection of a Run; and the
-- check of `_validate_resume_projection`.
pub record StoreView : Type 0 where
  pub scanned : Result (Option String)
  pub pointer : Result (Option String)
  pub run : String → Result (List Event × Json)
  pub resume_projection : Json → Result (Unit {0})

abbrev pub or_no_run : Option String → Result String
or_no_run none = err run_not_found
or_no_run (some run_id) = ok run_id

abbrev pub or_pointer : StoreView → Option String → Result String
or_pointer view none = view.pointer >>= or_no_run
or_pointer view (some run_id) = ok run_id

abbrev pub with_supersession : TextRules → List Event × Json → Result (List Event × Json)
with_supersession rules (events, projection) =
    validated_supersession rules events projection >>= (λ _. ok (events, projection))

-- `status` without a Run's id; it returns the history beside the projection.
unfoldable pub active_status : TextRules → StoreView → Result (List Event × Json)
active_status rules view = view.scanned >>= or_pointer view >>= view.run >>= with_supersession rules

abbrev pub accepted : Option String → Result (Unit {0})
accepted none = ok tt
accepted (some invalid) = err (preflight_invalid invalid)

unfoldable pub resume_checks : StoreView → List Event × Json → Result (List Event × Json)
resume_checks view (events, projection) = validated_attention_episode events projection >>= (λ _.
    view.resume_projection projection
    >> (accepted (validate_open_attempts projection events) >> ok (events, projection)))

-- `pointer == projection["run_id"]`
abbrev pub points_to : Option String → Json → Bool
points_to none projection = false
points_to (some run_id) projection = eq (str run_id) (get projection "run_id")

-- What the call appends, if anything; the pointer that it leaves is cleared.
abbrev pub supersede_checked :
    TextRules → String → Option String → List Event × Json → Result (Option Json × Option String)
supersede_checked rules reason active (events, projection) =
    guard (points_to active projection)
      (history_corrupt "Active Run pointer does not match superseded Run")
    >> (supersede_projection rules events projection reason >>= (λ appended. ok (appended, none)))

-- `supersede_active_run`
unfoldable pub supersede_active_run :
    TextRules → StoreView → String → Result (Option Json × Option String)
supersede_active_run rules view raw =
    let reason = rules.redact_text (strip raw) in
    guard (not (is_empty reason)) (store_error "supersession reason must not be empty")
    >> (view.pointer >>= (λ active.
        active_status rules view >>= resume_checks view >>= supersede_checked rules reason active))

-- A Run of the store whose last event supersedes it for the reason, where no other Run is active.
pub record IsSuperseded (rules : TextRules) (view : StoreView) (run_id : String) (es : List Event)
    (e : Event) (q episode : Json) (reason : String) (k : ℕ) : Type 0 where
  pub none_active : view.scanned ≡ ok none
  pub held : view.run run_id ≡ ok (es ++ e ∷ [], q)
  pub named : get q "run_id" ≡ str run_id
  pub resumable : view.resume_projection q ≡ ok tt
  pub accepts : validate_open_attempts q (es ++ e ∷ []) ≡ none
  pub attended : validated_attention_episode (es ++ e ∷ []) q ≡ ok (some episode)
  pub at : get episode "episode_sequence" ≡ nat k
  pub recorded : Superseded q e (suc (length es)) (supersession_of (str reason) (nat k))

-- Where the last event of a Run supersedes it for a valid reason and its validated attention
-- episode, the projection shows it, the checks of the resume context pass and no other Run is
-- active, superseding for the same reason again records nothing and clears the pointer if the
-- Active Run pointer still names the Run, and fails for want of an Active Run if the pointer is
-- cleared.
pub supersede_twice :
    (rules : TextRules) (view : StoreView) (run_id : String) (es : List Event) (e : Event)
    (q episode : Json) (reason : String) (k : ℕ)
    → IsSuperseded rules view run_id es e q episode reason k
    → valid_reason rules (str reason) ≡ true
    → (supersede_active_run rules (record view { pointer = ok (some run_id) }) reason
        ≡ ok (none, none))
      × (supersede_active_run rules (record view { pointer = ok none }) reason ≡ err run_not_found)
unfolding supersede_active_run active_status resume_checks
supersede_twice rules view run_id es e q episode reason k s v =
    let (stripped, clean, filled) = reason_parts rules reason v in
    let validated =
      supersession_validated rules es e q episode reason k s.attended s.at s.recorded v in
    let again =
      supersede_projection_again rules es e q episode reason k s.attended s.at s.recorded v in
    (
      rw
          (
            stripped,
            clean,
            filled,
            s.none_active,
            s.held,
            validated,
            s.attended,
            s.resumable,
            s.accepts,
            s.named,
            eq_str_refl run_id,
            again,
          )
          refl,
      rw (stripped, clean, filled, s.none_active) refl,
    )

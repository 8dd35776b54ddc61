-- ===== src/Episodes/Supersession.antt =====
-- `_validated_supersession` and the record of `supersede_active_run` in src/afk/run_store.py.
use afk_composable_pipeline.Common.{
  ℕ, suc, String, List, [], ◌∷◌, ◌++◌, Option, none, some, Bool, true, false, not, ◌&&◌, str_eq,
  strip, is_empty, is_blank, length, if◌then◌else◌, ◌≡◌, refl, arith, eq_refl,
}
use afk_composable_pipeline.Json.{Json, Fields, null, str, obj, nat, get, eq, dict, lookup, str_and}
use afk_composable_pipeline.Json.Laws.{eq_str_refl, eq_wf, str_eq_lem}
use afk_composable_pipeline.Redaction.{TextRules}
use afk_composable_pipeline.Errors.{
  Result, ok, err, store_error, history_corrupt, ◌>>=◌, ◌>>◌, guard,
}
use afk_composable_pipeline.History.Record.{Event, data_of, not_blank}
use afk_composable_pipeline.Episodes.{event_at, validated_attention_episode, number_of, state_is}
use afk_composable_pipeline.Episodes.Attention.{event_at-last}

-- The value under "supersession".
unfoldable pub supersession_of : Json → Json → Json
supersession_of reason sequence =
    obj (dict (("reason", reason) ∷ ("attention_episode_sequence", sequence) ∷ []))

-- The data of the event `run.superseded`.
unfoldable pub superseded_data : Json → Fields
superseded_data supersession =
    dict (("checkpoint", str "superseded") ∷ ("supersession", supersession) ∷ [])

unfoldable pub valid_reason : TextRules → Json → Bool
valid_reason rules reason =
    str_and (λ s. not_blank s && str_eq (strip s) s && str_eq (rules.redact_text s) s) reason

-- `expected`, for an episode that is there
abbrev pub expected_supersession : Json → Json → Json
expected_supersession projection episode =
    supersession_of (get (get projection "supersession") "reason") (get episode "episode_sequence")

unfoldable pub valid_supersession : TextRules → Json → Json → Event → Bool
valid_supersession rules projection episode e =
    valid_reason rules (get (get projection "supersession") "reason")
    && eq (get projection "supersession") (expected_supersession projection episode)
    && str_eq e.event "run.superseded"
    && state_is e.state "superseded"
    && eq (data_of e) (obj (superseded_data (expected_supersession projection episode)))
    && eq (get projection "checkpoint") (str "superseded")

abbrev pub check_supersession : TextRules → List Event → Json → Option Json → Result (Option Json)
check_supersession rules events projection none =
    event_at events (number_of (get projection "last_sequence")) >>= λ e.
    err (history_corrupt "supersession event is invalid")
check_supersession rules events projection (some episode) = do
  e ← event_at events (number_of (get projection "last_sequence"))
  guard (valid_supersession rules projection episode e)
      (history_corrupt "supersession event is invalid")
  ok (some (get projection "supersession"))

-- `_validated_supersession`
unfoldable pub validated_supersession : TextRules → List Event → Json → Result (Option Json)
validated_supersession rules events projection =
    if eq (get projection "state") (str "superseded")
    then (validated_attention_episode events projection
        >>= check_supersession rules events projection)
    else (guard (eq (get projection "supersession") null)
          (history_corrupt "supersession event is invalid")
        >> ok none)

abbrev pub supersede_attention : Json → String → Option Json → Result (Option Json)
supersede_attention projection reason none =
    err (store_error "only an attention_required Active Run can be superseded")
supersede_attention projection reason (some episode) =
    guard (eq (get projection "state") (str "attention_required"))
      (store_error "only an attention_required Active Run can be superseded")
    >> ok (some (supersession_of (str reason) (get episode "episode_sequence")))

abbrev pub sequence_or_none : Option Json → Json
sequence_or_none none = null
sequence_or_none (some episode) = get episode "episode_sequence"

abbrev pub supersede_again :
    TextRules → List Event → Json → String → Option Json → Result (Option Json)
supersede_again rules events projection reason episode =
    validated_supersession rules events projection >>= λ recorded.
    guard (same recorded) (history_corrupt "supersession event is invalid") >> ok none
  where
    same : Option Json → Bool
    same none = false
    same (some s) = eq s (supersession_of (str reason) (sequence_or_none episode))

abbrev pub decide_supersession :
    TextRules → List Event → Json → String → Option Json → Result (Option Json)
decide_supersession rules events projection reason episode =
    if eq (get projection "state") (str "superseded")
    then supersede_again rules events projection reason episode
    else supersede_attention projection reason episode

-- `supersede_active_run` behind the check of the pointer, for the redacted reason: what the appended
-- event says, or nothing where the Run is superseded for the same reason.
unfoldable pub supersede_projection : TextRules → List Event → Json → String → Result (Option Json)
supersede_projection rules events projection reason =
    validated_attention_episode events projection
    >>= decide_supersession rules events projection reason

-- The last event supersedes the Run for the reason, and the projection shows it.
pub record Superseded (q : Json) (e : Event) (n : ℕ) (supersession : Json) : Type 0 where
  pub name : e.event ≡ "run.superseded"
  pub state : e.state ≡ some "superseded"
  pub kept : data_of e ≡ obj (superseded_data supersession)
  pub shown_state : get q "state" ≡ str "superseded"
  pub shown : get q "supersession" ≡ supersession
  pub checkpoint : get q "checkpoint" ≡ str "superseded"
  pub last : get q "last_sequence" ≡ nat n

supersession_reason :
    (reason sequence : Json) → get (supersession_of reason sequence) "reason" ≡ reason
unfolding supersession_of get lookup
supersession_reason reason sequence = refl

supersession_self :
    (reason : String) (k : ℕ)
    → eq (supersession_of (str reason) (nat k)) (supersession_of (str reason) (nat k)) ≡ true
unfolding supersession_of lookup
supersession_self reason k = eq_wf (obj _) (refl, tt, (refl, tt, tt))

data_self :
    (reason : String) (k : ℕ)
    → eq
        (obj (superseded_data (supersession_of (str reason) (nat k))))
        (obj (superseded_data (supersession_of (str reason) (nat k))))
      ≡ true
unfolding superseded_data supersession_of lookup
data_self reason k = eq_wf (obj _) (refl, tt, (refl, (refl, tt, (refl, tt, tt)), tt))

recorded_is_valid :
    (rules : TextRules) (e : Event) (q episode : Json) (reason : String) (k n : ℕ)
    → Superseded q e n (supersession_of (str reason) (nat k))
    → valid_reason rules (str reason) ≡ true
    → get episode "episode_sequence" ≡ nat k
    → valid_supersession rules q episode e ≡ true
unfolding valid_supersession
recorded_is_valid rules e q episode reason k n r v at =
    rw
      (
        r.shown,
        supersession_reason (str reason) (nat k),
        at,
        v,
        supersession_self reason k,
        r.name,
        r.state,
        r.kept,
        data_self reason k,
        r.checkpoint,
        eq_refl "run.superseded",
        eq_refl "superseded",
        eq_str_refl "superseded",
      )
      refl

-- Where the last event supersedes the Run for a valid reason and its validated attention episode,
-- and the projection shows it, the validation of the supersession accepts it and returns it.
pub supersession_validated :
    (rules : TextRules) (es : List Event) (e : Event) (q episode : Json) (reason : String) (k : ℕ)
    → validated_attention_episode (es ++ e ∷ []) q ≡ ok (some episode)
    → get episode "episode_sequence" ≡ nat k
    → Superseded q e (suc (length es)) (supersession_of (str reason) (nat k))
    → valid_reason rules (str reason) ≡ true
    → validated_supersession rules (es ++ e ∷ []) q
      ≡ ok (some (supersession_of (str reason) (nat k)))
unfolding validated_supersession
supersession_validated rules es e q episode reason k attended at r v =
    rw
      (
        r.shown_state,
        eq_str_refl "superseded",
        attended,
        r.last,
        event_at-last es e,
        recorded_is_valid rules e q episode reason k (suc (length es)) r v at,
        r.shown,
      )
      refl

all_three : (a b c : Bool) → (a && b && c) ≡ true → (a ≡ true) × (b ≡ true) × (c ≡ true)
all_three a b c h = ground arith

not_empty : (s t : String) → s ≡ t → not (is_empty s) ≡ true → is_empty t ≡ false
not_empty s t same h = ground (arith, rw same at h)

pub reason_parts :
    (rules : TextRules) (reason : String)
    → valid_reason rules (str reason) ≡ true
    → (strip reason ≡ reason) × (rules.redact_text reason ≡ reason) × (is_empty reason ≡ false)
unfolding valid_reason is_blank
reason_parts rules reason h =
    let parts =
      all_three (not_blank reason) (str_eq (strip reason) reason)
        (str_eq (rules.redact_text reason) reason) h in
    let same = str_eq_lem (strip reason) reason parts.1 in
    (
      same,
      str_eq_lem (rules.redact_text reason) reason parts.2,
      not_empty (strip reason) reason same parts.0,
    )

pub supersede_projection_again :
    (rules : TextRules) (es : List Event) (e : Event) (q episode : Json) (reason : String) (k : ℕ)
    → validated_attention_episode (es ++ e ∷ []) q ≡ ok (some episode)
    → get episode "episode_sequence" ≡ nat k
    → Superseded q e (suc (length es)) (supersession_of (str reason) (nat k))
    → valid_reason rules (str reason) ≡ true
    → supersede_projection rules (es ++ e ∷ []) q reason ≡ ok none
unfolding supersede_projection
supersede_projection_again rules es e q episode reason k attended at r v =
    rw
      (
        attended,
        r.shown_state,
        eq_str_refl "superseded",
        supersession_validated rules es e q episode reason k attended at r v,
        at,
        supersession_self reason k,
      )
      refl

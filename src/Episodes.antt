-- ===== src/Episodes.antt =====
-- The attention and completion episodes of src/afk/run_store.py: `_episode_marker`,
-- `_validated_episode` and its two uses, and what
-- `record_attention_episode` appends.
pub mod Attention
pub mod Supersession
pub mod ActiveRun
use afk_composable_pipeline.Common.{
  ℕ, suc, ◌+◌, ◌-◌, String, List, [], ◌∷◌, Option, none, some, Bool, true, false, not, ◌&&◌, ◌||◌,
  ◌==◌, ltb, leb, str_eq, strip, cat, decimal, length, get_elem?, all, if◌then◌else◌,
}
use afk_composable_pipeline.Json.{
  Json, Fields, null, str, int, pos, obj, end, field, nat, get, has, eq, put, merge, fields, dict,
  lookup, is_some, int_and, at_least, str_and, is_int,
}
use afk_composable_pipeline.Redaction.{TextRules, redact}
use afk_composable_pipeline.Errors.{
  Result, ok, err, Failure, store_error, history_corrupt, ◌>>=◌, ◌>>◌, guard,
}
use afk_composable_pipeline.History.{inventory_key}
use afk_composable_pipeline.History.Record.{Event, data_of, not_blank}

-- A sequence that was checked to be a positive integer.
abbrev pub number_of : Json → ℕ
number_of (int (pos n)) = n
number_of _ = 0

-- The marker that an episode of a sequence has.
unfoldable pub marker_of : String → ℕ → Fields
marker_of evidence_name sequence = dict (
    ("schema_version", nat 1)
    ∷ ("episode_sequence", nat sequence)
    ∷ ("evidence", str (cat "retrospective/" (cat evidence_name (cat "-" (decimal sequence)))))
    ∷ ("effect_id", str (cat "retrospective-analysis-" (decimal sequence)))
    ∷ [])

abbrev pub state_passes : Option String → Json → Bool
state_passes none projection = true
state_passes (some state) projection = eq (get projection "state") (str state)

-- The condition of `_episode_marker`.
unfoldable pub valid_marker : String → Option String → Json → Json → Bool
valid_marker evidence_name projection_state projection episode =
    let sequence = get episode "episode_sequence" in
    int_and (at_least 1) sequence
    && eq episode (obj (marker_of evidence_name (number_of sequence)))
    && state_passes projection_state projection
    && int_and (at_least (number_of sequence)) (get projection "last_sequence")

abbrev pub marker_invalid : String → Failure
marker_invalid name = history_corrupt (cat name " episode marker is invalid")

-- `_episode_marker`, where `marker_name` is the name with "_episode" behind it.
unfoldable pub episode_marker :
    String → String → String → Option String → Json → Result (Option Json)
episode_marker name marker_name evidence_name projection_state projection =
    if has projection marker_name
    then guard (valid_marker evidence_name projection_state projection (get projection marker_name))
        (marker_invalid name)
      >> ok (some (get projection marker_name))
    else ok none

abbrev pub found : ℕ → Option Event → Result Event
found sequence none = err (store_error (cat "Event History has no sequence " (decimal sequence)))
found sequence (some e) = ok e

-- `event`, on the records of the Run; the message of the code ends with the Run's id.
unfoldable pub event_at : List Event → ℕ → Result Event
event_at events sequence =
    guard (leb 1 sequence) (store_error "sequence must be a positive integer")
    >> found sequence (get_elem? events (sequence - 1))

abbrev pub state_is : Option String → String → Bool
state_is none s = false
state_is (some t) s = str_eq t s

unfoldable pub same_episode : String → String → String → Json → Event → Bool
same_episode marker_name event_name event_state episode e =
    str_eq e.event event_name
    && state_is e.state event_state
    && eq (get (data_of e) marker_name) episode

abbrev pub check_episode :
    List Event → String → String → String → String → Option Json → Result (Option Json)
check_episode events name marker_name event_name event_state none = ok none
check_episode events name marker_name event_name event_state (some episode) = do
  e ← event_at events (number_of (get episode "episode_sequence"))
  guard (same_episode marker_name event_name event_state episode e) (marker_invalid name)
  ok (some episode)

-- The data of the latest attention that has a marker.
unfoldable pub latest_attention : Option Json → List Event → Option Json
latest_attention before [] = before
latest_attention before (e ∷ es) =
    latest_attention
      (if str_eq e.event "run.attention_required" && has (data_of e) "attention_episode"
        then some (get (data_of e) "attention_episode")
        else before)
      es

abbrev pub is_latest : Option Json → Json → Bool
is_latest none episode = false
is_latest (some latest) episode = eq latest episode

abbrev pub check_latest : List Event → Json → Option Json → Result (Option Json)
check_latest events projection none =
    guard (not (eq (get projection "state") (str "attention_required")))
      (marker_invalid "attention")
    >> ok none
check_latest events projection (some episode) =
    guard (is_latest (latest_attention none events) episode) (marker_invalid "attention")
    >> ok (some episode)

-- `_validated_attention_episode`
unfoldable pub validated_attention_episode : List Event → Json → Result (Option Json)
validated_attention_episode events projection =
    episode_marker "attention" "attention_episode" "attention" none projection
    >>= check_episode events "attention" "attention_episode" "run.attention_required"
        "attention_required"
    >>= check_latest events projection

abbrev pub check_completed : Json → Option Json → Result (Option Json)
check_completed projection none =
    guard (not (eq (get projection "state") (str "completed"))) (marker_invalid "completion")
    >> ok none
check_completed projection (some episode) = ok (some episode)

-- `_validated_completion_episode`
unfoldable pub validated_completion_episode : List Event → Json → Result (Option Json)
validated_completion_episode events projection =
    episode_marker "completion" "completion_episode" "completed" (some "completed") projection
    >>= check_episode events "completion" "completion_episode" "run.completed" "completed"
    >>= check_completed projection

-- `{key: value for ... if key != k}`, after `pop`
unfoldable pub pop : String → Fields → Fields
pop k end = end
pop k (field j v fs) = let rest = pop k fs in if str_eq j k then rest else field j v rest

-- The data of a new attention, without its episode: `payload`.
unfoldable pub attention_payload : TextRules → String → Fields → Fields → Fields
attention_payload rules checkpoint attention details = fields (
    redact rules none (
      obj (
        merge (dict (("checkpoint", str checkpoint) ∷ ("attention", obj attention) ∷ [])) details)))

abbrev pub with_episode : Fields → Json → Fields
with_episode payload episode = merge payload (field "attention_episode" episode end)

-- `key not in event["data"] or event["data"][key] == value`, for all of the payload
unfoldable pub agrees_with : Event → Fields → Bool
agrees_with e end = true
agrees_with e (field k v fs) =
    (not (has (data_of e) k) || eq (get (data_of e) k) v) && agrees_with e fs

-- `continuous` and `uncontradicted`: what holds of the events behind the sequence.
unfoldable pub still_holds : ℕ → Fields → List Event → Bool
still_holds sequence payload [] = true
still_holds sequence payload (e ∷ es) =
    (not (ltb sequence e.sequence) || not (is_some e.state) && agrees_with e payload)
    && still_holds sequence payload es

unfoldable pub already_recorded : List Event → Fields → Json → Event → Bool
already_recorded events payload episode e =
    still_holds (number_of (get episode "episode_sequence")) payload events
    && eq (obj (pop inventory_key e.data_fields)) (obj (with_episode payload episode))

abbrev pub new_attention : Json → Fields → Fields
new_attention projection payload =
    with_episode payload
      (obj (marker_of "attention" (suc (number_of (get projection "last_sequence")))))

abbrev pub attention_after : List Event → Json → Fields → Option Json → Result (Option Fields)
attention_after events projection payload none = ok (some (new_attention projection payload))
attention_after events projection payload (some episode) =
    if eq (get projection "state") (str "attention_required")
    then (event_at events (number_of (get episode "episode_sequence")) >>= λ e. ok (
        if already_recorded events payload episode e
        then none
        else some (new_attention projection payload)))
    else ok (some (new_attention projection payload))

-- `record_attention_episode`: the data that it appends, or nothing where the attention is recorded.
unfoldable pub attention_to_append : List Event → Json → Fields → Result (Option Fields)
attention_to_append events projection payload =
    validated_attention_episode events projection >>= attention_after events projection payload

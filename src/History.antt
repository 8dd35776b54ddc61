-- ===== src/History.antt =====
-- The Event History of a Run: `events.jsonl` as bytes, its records, the reader
-- `_parse_event_history` and the file part of `_append_event_unlocked` (src/afk/run_store.py).
-- `json.loads` and `json.dumps` are parameters: they are Python's.
pub mod Record
pub mod Lines
pub mod RoundTrip
pub mod Append
use afk_composable_pipeline.Common.{
  ℕ, suc, ◌+◌, ◌-◌, List, [], ◌∷◌, ◌++◌, Option, none, some, Bool, true, false, not, ◌&&◌, ◌==◌,
  length, take, if◌then◌else◌, String, decimal, cat, str_eq, ◌||◌,
}
use afk_composable_pipeline.Json.{Json, Fields, obj, end, field, has, merge}
use afk_composable_pipeline.Redaction.{TextRules, redact_fields}
use afk_composable_pipeline.Errors.{
  Result, ok, err, Failure, history_corrupt, store_error, ◌>>=◌, ◌>>◌, guard,
}
use Record.{Event, read_record, to_json, not_blank}
use Lines.{complete_bytes, split_lines}

abbrev pub Bytes : Type 0
Bytes = List ℕ

-- What a failed `json.loads` raises becomes this.
abbrev pub decoded : ℕ → Option Json → Result Json
decoded offset none = err (history_corrupt (cat "invalid Event History at byte " (decimal offset)))
decoded offset (some v) = ok v

module _ (loads : Bytes → Option Json) where
  -- The loop over the lines: `n` records are read, `offset` bytes are behind them.
  unfoldable pub read_lines : ℕ → ℕ → List Bytes → Result (List Event)
  read_lines n offset [] = ok []
  read_lines n offset (line ∷ lines) =
      let rest = read_lines (suc n) (offset + length line) lines in
      decoded offset (loads line) >>= λ v. read_record (suc n) v >>= λ e. rest >>= λ es. ok (e ∷ es)

  -- `_parse_event_history`: the records, and how many bytes they take.
  unfoldable pub parse_event_history : Bool → Bytes → Result (List Event × ℕ)
  parse_event_history require_complete payload =
      let valid = complete_bytes payload in
      guard (not (require_complete && not (valid == length payload)))
        (history_corrupt "Event History has an incomplete trailing record")
      >> (read_lines 0 0 (split_lines (take valid payload)) >>= λ es. ok (es, valid))

module _ (dumps : Json → Bytes) where
  -- `canonical_json(record)` and a line feed
  unfoldable pub encoded : Event → Bytes
  encoded e = dumps (to_json e) ++ 10 ∷ []

  -- `os.ftruncate(descriptor, valid_bytes)` and then `os.write`, of which `n` bytes reach the file.
  unfoldable pub write_record : ℕ → ℕ → Event → Bytes → Bytes
  write_record n valid e payload = take valid payload ++ take n (encoded e)

  -- The whole write; a shorter one raises before the projection is written.
  unfoldable pub append_record : ℕ → Event → Bytes → Bytes
  append_record valid e payload = take valid payload ++ encoded e

-- `is_episode_event` of src/afk/retrospective_contract.py
unfoldable pub is_episode_event : String → Bool
is_episode_event name = str_eq name "run.attention_required" || str_eq name "run.completed"

abbrev pub inventory_key : String
inventory_key = "_retrospective_inventory"

-- `attach_inventory`, for an episode event; `inventory` is what was captured for its sequence.
unfoldable pub attach_inventory : String → Json → Fields → Result Fields
attach_inventory name inventory data_fields =
    if is_episode_event name
    then guard (not (has (obj data_fields) inventory_key))
        (store_error "retrospective inventory is reserved")
      >> ok (merge data_fields (field inventory_key inventory end))
    else ok data_fields

abbrev pub redact_state : (String → String) → Option String → Option String
redact_state f none = none
redact_state f (some s) = some (f s)

-- `redact_artifact_value` on the record: none of the keys of the record itself is secret.
unfoldable pub redact_event : TextRules → Event → Event
redact_event rules e = record {
  sequence = e.sequence;
  recorded_at = rules.redact_text e.recorded_at;
  event = rules.redact_text e.event;
  state = redact_state rules.redact_text e.state;
  data_fields = redact_fields rules e.data_fields;
}

-- The arguments of an append, with the time and the captured inventory.
pub record Addition : Type 0 where
  pub name : String
  pub state : Option String
  pub data_fields : Fields
  pub recorded_at : String
  pub inventory : ℕ → Json

-- The record of an append: its number, and its data with the inventory of an episode.
abbrev pub new_event : TextRules → Addition → ℕ → Fields → Event
new_event rules a sequence kept = redact_event rules (record {
  sequence = sequence;
  recorded_at = a.recorded_at;
  event = a.name;
  state = a.state;
  data_fields = kept;
})

module _ (dumps : Json → Bytes) (loads : Bytes → Option Json) (rules : TextRules) where
  -- `_append_event_unlocked` up to its write: the bytes of the file and the record.
  unfoldable pub append_event : Addition → Bytes → Result (Bytes × Event)
  append_event a payload = do
    guard (not_blank a.name) (store_error "event must not be empty")
    (es, valid) ← parse_event_history loads false payload
    let sequence = suc (length es)
    kept ← attach_inventory a.name (a.inventory sequence) a.data_fields
    let e = new_event rules a sequence kept
    ok (append_record dumps valid e payload, e)

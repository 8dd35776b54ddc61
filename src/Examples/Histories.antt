-- ===== src/Examples/Histories.antt =====
-- An Event History of two records, with an encoder for the two, and the projection of it.
use afk_composable_pipeline.Common.{
  is_blank, List, [], ◌∷◌, ◌++◌, Option, none, some, true, false, ◌==◌, length, if◌then◌else◌,
  str_eq, ◌≡◌, refl, arith, ◌≤◌, All,
}
use afk_composable_pipeline.Json.{Json, Fields, null, str, obj, end, field, nat, get, eq, lookup}
use afk_composable_pipeline.Errors.{ok, err, history_corrupt}
use afk_composable_pipeline.Redaction.{TextRules, redact}
use afk_composable_pipeline.Redaction.Walk.{redact-IsClean, IsClean}
use afk_composable_pipeline.History.Record.{Event, to_json}
use afk_composable_pipeline.History.RoundTrip.{
  Encodes, IsSound, encode_all, parse-encode_all, parse-encode_all_complete,
}
use afk_composable_pipeline.History.Append.{append_event-encode_all, append_event-write_record}
use afk_composable_pipeline.History.{
  Bytes, Addition, parse_event_history, append_event, write_record, new_event, attach_inventory,
  is_episode_event,
}
use afk_composable_pipeline.Projection.{Identity, project, projection_of, last_state, detail_keys}
use afk_composable_pipeline.Projection.Latest.{latest_value, project-latest_value}
use afk_composable_pipeline.Projection.Update.{project-append}
use afk_composable_pipeline.Json.Laws.{or_else}

abbrev pub toy_rules : TextRules
toy_rules = record {
  redact_text = λ s. s;
  is_secret_key = λ k. str_eq k "token";
  is_secret_flag = λ s. str_eq s "--token";
}

abbrev pub created : Event
created = record {
  sequence = 1;
  recorded_at = "2026-01-01T00:00:00Z";
  event = "run.created";
  state = some "created";
  data_fields = field "bead_id" (str "afk-1") end;
}

abbrev pub claimed : Event
claimed = record {
  sequence = 2;
  recorded_at = "2026-01-01T00:00:01Z";
  event = "bead.claimed";
  state = some "claiming";
  data_fields = field "unit" (str "afk-run-1") end;
}

-- One byte for each of the two records.
abbrev toy_dumps : Json → Bytes
toy_dumps v = if eq (get v "sequence") (nat 1) then 49 ∷ [] else 50 ∷ []

abbrev toy_loads : Bytes → Option Json
toy_loads [] = none
toy_loads (b ∷ bs) = some (if b == 49 then to_json created else to_json claimed)

created-Encodes : Encodes toy_dumps toy_loads created
unfolding to_json get lookup eq
created-Encodes = record { plain = ((refl, refl), tt); back = refl }

claimed-Encodes : Encodes toy_dumps toy_loads claimed
unfolding to_json get lookup eq
claimed-Encodes = record { plain = ((refl, refl), tt); back = refl }

abbrev history : List Event
history = created ∷ []

history-IsSound : All (IsSound toy_dumps toy_loads) history
unfolding is_blank
history-IsSound = (record { filled = (refl, refl, refl); encodes = created-Encodes }, tt)

abbrev before : Bytes
before = encode_all toy_dumps toy_loads history

abbrev claim : Addition
claim = record {
  name = "bead.claimed";
  state = some "claiming";
  data_fields = field "unit" (str "afk-run-1") end;
  recorded_at = "2026-01-01T00:00:01Z";
  inventory = λ n. null;
}

abbrev crashed : Bytes
crashed = write_record toy_dumps 1 (length before) claimed before

append_event-write_record_example :
    (parse_event_history toy_loads false crashed ≡ ok (history, length before))
    × (append_event toy_dumps toy_loads toy_rules claim crashed
        ≡ append_event toy_dumps toy_loads toy_rules claim before)
unfolding eq get to_json
append_event-write_record_example =
    append_event-write_record toy_dumps toy_loads toy_rules history claimed 1 claim (refl, tt)
      history-IsSound claimed-Encodes one_byte
  where
    one_byte : 1 ≤ length (toy_dumps (to_json claimed))
    one_byte = omega arith

append_event-encode_all_example :
    append_event toy_dumps toy_loads toy_rules claim (before ++ 50 ∷ [])
    ≡ ok (
      encode_all toy_dumps toy_loads
          (history ++ new_event toy_rules claim 2 claim.data_fields ∷ []),
      new_event toy_rules claim 2 claim.data_fields,
    )
unfolding is_blank
append_event-encode_all_example =
    append_event-encode_all toy_dumps toy_loads toy_rules history (50 ∷ []) claim claim.data_fields
      (refl, tt) history-IsSound (refl, tt) refl (unfold attach_inventory is_episode_event in refl)

parse-encode_all_example :
    parse_event_history toy_loads false (before ++ 50 ∷ []) ≡ ok (history, length before)
parse-encode_all_example =
    parse-encode_all toy_dumps toy_loads history (50 ∷ []) (refl, tt) history-IsSound (refl, tt)

parse-encode_all_complete_example :
    parse_event_history toy_loads true (before ++ 50 ∷ [])
    ≡ err (history_corrupt "Event History has an incomplete trailing record")
parse-encode_all_complete_example =
    parse-encode_all_complete toy_dumps toy_loads history 50 [] (refl, tt)

abbrev secrets : Json
secrets = obj (field "token" (str "hunter2") (field "unit" (str "afk-run-1") end))

redact-IsClean_example : IsClean toy_rules (redact toy_rules none secrets)
redact-IsClean_example = redact-IsClean toy_rules none secrets

abbrev identity : Identity
identity = record {
  run_id = "run-1";
  bead_id = "afk-1";
  repository = "/srv/afk";
  base_branch = "main";
  base_sha = "0123456789012345678901234567890123456789";
  created_at = "2026-01-01T00:00:00Z";
  start_request = end;
}

created_projection :
    project identity history ≡ ok (projection_of identity history created "created")
unfolding project last_state
created_projection = refl

project-append_example :
    (q : Fields) × (project identity (history ++ claimed ∷ []) ≡ ok q)
    × (lookup "unit" q
        ≡ or_else
            (lookup "unit" claimed.data_fields)
            (lookup "unit" (projection_of identity history created "created")))
    × (lookup "last_sequence" q ≡ some (nat 2))
    × (lookup "last_event" q ≡ some (str "bead.claimed"))
unfolding lookup detail_keys
project-append_example =
    project-append identity history claimed (projection_of identity history created "created")
      "unit" created_projection refl (refl, tt) refl

project-latest_value_example :
    lookup "unit" (projection_of identity history created "created")
    ≡ latest_value "unit" none history
unfolding lookup detail_keys
project-latest_value_example =
    project-latest_value identity history (projection_of identity history created "created") "unit"
      created_projection ((refl, tt), tt) refl

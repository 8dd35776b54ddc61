-- ===== src/Retrospective/Cached.antt =====
-- The sealed Run Summary of src/afk/run_summary.py: the record that `build_run_summary` seals, and
-- `_validate_cached_summary`, which reads it.
use afk_composable_pipeline.Common.{
  ℕ, ◌≤◌, String, List, [], ◌∷◌, Option, none, some, Bool, true, false, ◌&&◌, leb, str_eq, ◌≡◌,
  refl, arith, eq_refl, ==_refl,
}
use afk_composable_pipeline.Json.{
  Json, str, obj, nat, pos, get, eq, dict, keys_are, int_and, int_eq, is_str,
}
use afk_composable_pipeline.Json.Laws.{str_eq_lem}
use afk_composable_pipeline.Redaction.{TextRules, redact}
use afk_composable_pipeline.Errors.{Result, ok, err, store_error, ◌>>◌, guard}
use afk_composable_pipeline.History.Record.{text_of}
use afk_composable_pipeline.Retrospective.Summary.{max_summary_bytes}
use afk_composable_pipeline.Retrospective.Result.{JsonText, byte_count}

abbrev pub cached_keys : List String
cached_keys =
    "schema_version" ∷ "run_id" ∷ "episode_sequence" ∷ "episode_event" ∷ "episode_state" ∷ "summary"
    ∷ []

-- The result that is handed to `reconcile_evidence_result`.
unfoldable pub cached_record : String → ℕ → String → String → String → Json
cached_record run_id sequence event state rendered = obj (
    dict (
      ("schema_version", nat 1)
      ∷ ("run_id", str run_id)
      ∷ ("episode_sequence", nat sequence)
      ∷ ("episode_event", str event)
      ∷ ("episode_state", str state)
      ∷ ("summary", str rendered)
      ∷ []))

unfoldable pub cached_identity : String → ℕ → String → String → Json → Bool
cached_identity run_id sequence event state v =
    keys_are cached_keys v
    && int_and (int_eq (pos 1)) (get v "schema_version")
    && eq (get v "run_id") (str run_id)
    && int_and (int_eq (pos sequence)) (get v "episode_sequence")
    && eq (get v "episode_event") (str event)
    && eq (get v "episode_state") (str state)
    && is_str (get v "summary")

-- What `reconcile_evidence_result` seals and returns: the redacted result.
unfoldable pub sealed_record : TextRules → String → ℕ → String → String → String → Json
sealed_record rules run_id sequence event state rendered =
    redact rules none (cached_record run_id sequence event state rendered)

abbrev pub is_canonical : JsonText → String → Option Json → Result (Unit {0})
is_canonical json rendered none = guard false (store_error "sealed Run Summary is invalid")
is_canonical json rendered (some summary) =
    guard (str_eq (json.dumps summary) rendered) (store_error "sealed Run Summary is not canonical")

abbrev pub fits_limit : String → Result (Unit {0})
fits_limit rendered =
    guard (leb (byte_count rendered) max_summary_bytes)
      (store_error "sealed Run Summary exceeds its byte limit")

abbrev pub matches_facts : String → String → Result String
matches_facts expected rendered =
    guard (str_eq rendered expected) (store_error "Run Summary does not match durable facts")
    >> ok rendered

abbrev pub read_cached : JsonText → String → String → Result String
read_cached json expected rendered =
    fits_limit rendered
    >> (is_canonical json rendered (json.loads rendered) >> matches_facts expected rendered)

-- `_validate_cached_summary`
unfoldable pub validate_cached_summary :
    JsonText → String → ℕ → String → String → String → Json → Result String
validate_cached_summary json run_id sequence event state expected v =
    guard (cached_identity run_id sequence event state v)
      (store_error "sealed Run Summary identity is invalid")
    >> read_cached json expected (text_of (get v "summary"))

-- The rules leave the keys of the record and its texts alone, but for the summary's text.
pub record KeepsIdentity (rules : TextRules) (run_id event state : String) : Type 0 where
  pub schema_version : rules.is_secret_key "schema_version" ≡ false
  pub run_id_key : rules.is_secret_key "run_id" ≡ false
  pub episode_sequence : rules.is_secret_key "episode_sequence" ≡ false
  pub episode_event : rules.is_secret_key "episode_event" ≡ false
  pub episode_state : rules.is_secret_key "episode_state" ≡ false
  pub summary : rules.is_secret_key "summary" ≡ false
  pub run_id_kept : rules.redact_text run_id ≡ run_id
  pub event_kept : rules.redact_text event ≡ event
  pub state_kept : rules.redact_text state ≡ state

module _ (rules : TextRules) (json : JsonText) (run_id event state : String) (sequence : ℕ) where
  sealed_is_redacted :
      (rendered : String)
      → KeepsIdentity rules run_id event state
      → sealed_record rules run_id sequence event state rendered
        ≡ cached_record run_id sequence event state (rules.redact_text rendered)
  unfolding sealed_record cached_record redact
  sealed_is_redacted rendered k =
      rw
        (
          k.schema_version, k.run_id_key, k.episode_sequence, k.episode_event, k.episode_state,
          k.summary, k.run_id_kept, k.event_kept, k.state_kept,
        )
        refl

  record_identity :
      (rendered : String)
      → cached_identity run_id sequence event state
          (cached_record run_id sequence event state rendered)
        ≡ true
  unfolding cached_identity cached_record keys_are get eq
  record_identity rendered =
      rw (eq_refl run_id, ==_refl sequence, eq_refl event, eq_refl state) refl

  record_text :
      (rendered : String)
      → text_of (get (cached_record run_id sequence event state rendered) "summary") ≡ rendered
  unfolding cached_record get
  record_text rendered = refl

  -- The text is returned if the redaction left it as it was rendered, and refused if not.
  abbrev pub Answers : String → Result String → Type 0
  Answers rendered (err failure) = str_eq (rules.redact_text rendered) rendered ≡ false
  Answers rendered (ok text) = (text ≡ rendered) × (rules.redact_text rendered ≡ rendered)

  check-Answers :
      (rendered : String) (check : Result (Unit {0})) (rest : Result String)
      → str_eq (rules.redact_text rendered) rendered ≡ false
      → Answers rendered rest
      → Answers rendered (check >> rest)
  check-Answers rendered (err failure) rest changed h = changed
  check-Answers rendered (ok u) rest changed h = h

  refused-Answers :
      (rendered : String)
      → str_eq (rules.redact_text rendered) rendered ≡ false
      → Answers rendered (read_cached json rendered (rules.redact_text rendered))
  refused-Answers rendered changed =
      let text = rules.redact_text rendered in
      let last : Answers rendered (matches_facts rendered text) = rw changed changed in
      check-Answers rendered (fits_limit text)
        (is_canonical json text (json.loads text) >> matches_facts rendered text) changed
        (check-Answers rendered (is_canonical json text (json.loads text))
          (matches_facts rendered text) changed last)

  kept-Answers :
      (summary : Json)
      → let rendered = json.dumps summary in
        byte_count rendered ≤ max_summary_bytes
        → json.loads rendered ≡ some summary
        → rules.redact_text rendered ≡ rendered
        → Answers rendered (read_cached json rendered (rules.redact_text rendered))
  kept-Answers summary short loaded kept =
      let rendered = json.dumps summary in
      let fits : leb (byte_count rendered) max_summary_bytes ≡ true = ground arith in
      rw (kept, fits, loaded, eq_refl rendered) (refl, kept)

  read-Answers :
      (summary : Json) (same : Bool)
      → let rendered = json.dumps summary in
        byte_count rendered ≤ max_summary_bytes
        → json.loads rendered ≡ some summary
        → str_eq (rules.redact_text rendered) rendered ≡ same
        → Answers rendered (read_cached json rendered (rules.redact_text rendered))
  read-Answers summary true short loaded e = kept-Answers summary short loaded (str_eq_lem _ _ e)
  read-Answers summary false short loaded e = refused-Answers (json.dumps summary) e

  -- For rules that leave the record's keys and the Run's identity in it alone, and a text within
  -- its bytes that is loaded as the summary it was rendered from, the redacted record that is
  -- sealed is accepted when it is read for the same episode, and gives that text, if the redaction
  -- left the text as it was, and is refused if it did not.
  pub validate-sealed_record :
      (summary : Json)
      → let rendered = json.dumps summary in
        KeepsIdentity rules run_id event state
        → byte_count rendered ≤ max_summary_bytes
        → json.loads rendered ≡ some summary
        → Answers rendered (
            validate_cached_summary json run_id sequence event state rendered
              (sealed_record rules run_id sequence event state rendered))
  unfolding validate_cached_summary
  validate-sealed_record summary k short loaded =
      let rendered = json.dumps summary in
      rw
        (
          sealed_is_redacted rendered k,
          record_identity (rules.redact_text rendered),
          record_text (rules.redact_text rendered),
        )
        (read-Answers summary (str_eq (rules.redact_text rendered) rendered) short loaded refl)

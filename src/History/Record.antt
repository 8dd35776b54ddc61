-- ===== src/History/Record.antt =====
-- One record of the Event History: the checks of `_parse_event_history` on a decoded line, and the
-- record that `_append_event_unlocked` writes (src/afk/run_store.py).
use afk_composable_pipeline.Common.{
  ℕ, String, Option, none, some, Bool, true, false, not, ◌&&◌, ◌||◌, List, [], ◌∷◌, is_blank, cat,
  decimal, if◌then◌else◌, ◌≡◌, refl, subst, arith,
}
use afk_composable_pipeline.Json.{
  Json, Fields, null, bool, int, str, arr, obj, end, field, nat, pos, get, has, fields, is_dict,
  str_and, int_and, int_eq, keys_are,
}
use afk_composable_pipeline.Errors.{Failure, Result, ok, history_corrupt, ◌>>◌, guard}

-- A record that passed the checks: `schema_version` is 1 in all of them.
pub record Event : Type 0 where
  pub sequence : ℕ
  pub recorded_at : String
  pub event : String
  pub state : Option String
  pub data_fields : Fields

-- `event["data"]`
abbrev pub data_of : Event → Json
data_of e = obj e.data_fields

abbrev pub text_of : Json → String
text_of (str s) = s
text_of _ = ""

abbrev pub state_of : Json → Option String
state_of v = if has v "state" then some (text_of (get v "state")) else none

abbrev pub not_blank : String → Bool
not_blank s = not (is_blank s)

has_sequence : ℕ → Json → Bool
unfolding get
has_sequence expected v = is_dict v && int_and (int_eq (pos expected)) (get v "sequence")

base_keys : List String
base_keys = "schema_version" ∷ "sequence" ∷ "recorded_at" ∷ "event" ∷ "data" ∷ []

expected_keys : Json → List String
unfolding base_keys has
expected_keys v = if has v "state" then "state" ∷ base_keys else base_keys

is_record : Json → Bool
unfolding expected_keys keys_are has get
is_record v =
    keys_are (expected_keys v) v
    && int_and (int_eq (pos 1)) (get v "schema_version")
    && str_and not_blank (get v "recorded_at")
    && str_and not_blank (get v "event")
    && is_dict (get v "data")
    && (not (has v "state") || str_and not_blank (get v "state"))

abbrev record_at : ℕ → Json → Event
record_at n v = record {
  sequence = n;
  recorded_at = text_of (get v "recorded_at");
  event = text_of (get v "event");
  state = state_of v;
  data_fields = fields (get v "data");
}

unfoldable pub read_record : ℕ → Json → Result Event
unfolding has_sequence is_record
read_record expected v = do
  guard (has_sequence expected v)
      (history_corrupt (cat "Event History sequence must be " (decimal expected)))
  guard (is_record v)
      (history_corrupt (cat "Event History record " (cat (decimal expected) " is invalid")))
  ok (record_at expected v)

-- `**({"state": state} if state is not None else {})`, before the `data`
abbrev with_state : Option String → Fields → Fields
with_state none fs = fs
with_state (some s) fs = field "state" (str s) fs

unfoldable pub to_json : Event → Json
to_json e = obj (
    field "schema_version" (nat 1) (
      field "sequence" (nat e.sequence) (
        field "recorded_at" (str e.recorded_at) (
          field "event" (str e.event)
            (with_state e.state (field "data" (obj e.data_fields) end))))))

abbrev state_not_blank : Option String → Bool
state_not_blank none = true
state_not_blank (some s) = not_blank s

-- The texts of the record are not blank.
abbrev pub IsFilled : Event → Type 0
IsFilled e =
    (not_blank e.recorded_at ≡ true) × (not_blank e.event ≡ true) × (state_not_blank e.state ≡ true)

read-to_json_at :
    (n : ℕ) (at name : String) (s : Option String) (d : Fields)
    → not_blank at ≡ true
    → not_blank name ≡ true
    → state_not_blank s ≡ true
    → let e : Event = record {
      sequence = n;
      recorded_at = at;
      event = name;
      state = s;
      data_fields = d;
    } in
      read_record n (to_json e) ≡ ok e
unfolding read_record to_json
read-to_json_at n at name none d p q r = ground arith
read-to_json_at n at name (some s) d p q r = ground arith

-- A record whose texts are not blank is read back from the JSON value that an append makes of it.
pub read_record-to_json : (e : Event) → IsFilled e → read_record e.sequence (to_json e) ≡ ok e
read_record-to_json e h =
    read-to_json_at e.sequence e.recorded_at e.event e.state e.data_fields h.0 h.1 h.2

pub str_and_text : (p : String → Bool) (w : Json) → str_and p w ≡ true → p (text_of w) ≡ true
str_and_text p (str s) h = h
str_and_text p null h = ground arith
str_and_text p (bool b) h = ground arith
str_and_text p (int z) h = ground arith
str_and_text p (arr xs) h = ground arith
str_and_text p (obj fs) h = ground arith

is_record_texts :
    (v : Json)
    → is_record v ≡ true
    → (not_blank (text_of (get v "recorded_at")) ≡ true)
      × (not_blank (text_of (get v "event")) ≡ true)
      × (state_not_blank (state_of v) ≡ true)
is_record_texts v h = (
  str_and_text not_blank (get v "recorded_at") (unfold is_record in ground arith),
  str_and_text not_blank (get v "event") (unfold is_record in ground arith),
  state_part (has v "state") (unfold is_record in ground arith),
)
  where
    state_part :
        (b : Bool)
        → (not b || str_and not_blank (get v "state")) ≡ true
        → state_not_blank (if b then some (text_of (get v "state")) else none) ≡ true
    state_part true q = str_and_text not_blank (get v "state") q
    state_part false q = refl

passed {ℓ} :
    {A : Type ℓ} (b c : Bool) (x y : Failure) (a : A) {r : A}
    → (guard b x >> (guard c y >> ok a)) ≡ ok r
    → (c ≡ true) × (a ≡ r)
passed true true x y a h = (refl, ground arith)
passed true false x y a h = ground arith
passed false c x y a h = ground arith

-- What the reader accepts has the expected number and no blank text.
pub read_record_sound :
    (n : ℕ) (v : Json) (e : Event) → read_record n v ≡ ok e → (e.sequence ≡ n) × IsFilled e
unfolding read_record
read_record_sound n v e h =
    let (checked, built) = passed (has_sequence n v) (is_record v) _ _ (record_at n v) h in
    subst (λ x. (x.sequence ≡ n) × IsFilled x) built (refl, is_record_texts v checked)

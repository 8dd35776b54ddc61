-- ===== src/History/Append.antt =====
-- The append of src/afk/run_store.py on a file that earlier appends wrote, the last one perhaps cut
-- short.
use mathlib.Core.List.{append-nil}
use afk_composable_pipeline.Common.{
  ℕ, zero, suc, ◌≤◌, List, [], ◌∷◌, ◌++◌, Option, true, false, length, take, take-append, take_all,
  ◌≡◌, All, arith,
}
use afk_composable_pipeline.Json.{Json, Fields}
use afk_composable_pipeline.Errors.{ok}
use afk_composable_pipeline.Redaction.{TextRules}
use afk_composable_pipeline.History.Record.{Event, to_json, not_blank}
use afk_composable_pipeline.History.Lines.{IsPlain, IsFeedless}
use afk_composable_pipeline.History.{
  Bytes, parse_event_history, encoded, write_record, append_record, append_event, Addition,
  attach_inventory, new_event,
}
use afk_composable_pipeline.History.RoundTrip.{
  IsNumbered, Encodes, IsSound, encode_all, encode_all-append, parse-encode_all,
}

-- A part of a record that stops before its line feed has no line feed.
take-IsFeedless :
    (n : ℕ) (l : Bytes) → IsPlain l → n ≤ length l → IsFeedless (take n (l ++ 10 ∷ []))
take-IsFeedless zero l p h = tt
take-IsFeedless (suc n) [] p h = elim h [ ]
take-IsFeedless (suc n) (b ∷ l) p h = (p.0.0, take-IsFeedless n l p.1 (omega arith))

module _ (dumps : Json → Bytes) (loads : Bytes → Option Json) (rules : TextRules) where
  same_append :
      (before part : Bytes) (a : Addition) {es : List Event}
      → parse_event_history loads false (before ++ part) ≡ ok (es, length before)
      → parse_event_history loads false before ≡ ok (es, length before)
      → append_event dumps loads rules a (before ++ part) ≡ append_event dumps loads rules a before
  unfolding append_event append_record
  same_append before part a p q = rw (p, q, take-append, take_all)

  -- An append to a file of sound, consecutively numbered records, with bytes without a line feed
  -- behind them or not, removes those bytes and adds one record with the next number, for a name
  -- that is not blank and data that take the inventory.
  pub append_event-encode_all :
      (es : List Event) (tail : Bytes) (a : Addition) (kept : Fields)
      → IsNumbered 0 es
      → All (IsSound dumps loads) es
      → IsFeedless tail
      → not_blank a.name ≡ true
      → attach_inventory a.name (a.inventory (suc (length es))) a.data_fields ≡ ok kept
      → let e = new_event rules a (suc (length es)) kept in
        append_event dumps loads rules a (encode_all dumps loads es ++ tail)
        ≡ ok (encode_all dumps loads (es ++ e ∷ []), e)
  unfolding append_event append_record
  append_event-encode_all es tail a kept n s f filled attached =
      rw (
        filled,
        parse-encode_all dumps loads es tail n s f,
        attached,
        take-append,
        encode_all-append,
      )

  -- A crash that leaves a part of one record without its line feed behind sound records loses that
  -- record only: the tolerant reader gives the records before it, and the next append returns and
  -- writes what it would have without the crash.
  pub append_event-write_record :
      (es : List Event) (torn : Event) (n : ℕ) (a : Addition)
      → IsNumbered 0 es
      → All (IsSound dumps loads) es
      → Encodes dumps loads torn
      → n ≤ length (dumps (to_json torn))
      → let before = encode_all dumps loads es in
        let crashed = write_record dumps n (length before) torn before in
        (parse_event_history loads false crashed ≡ ok (es, length before))
        × (append_event dumps loads rules a crashed ≡ append_event dumps loads rules a before)
  unfolding write_record encoded
  append_event-write_record es torn n a num s enc le =
      let before = encode_all dumps loads es in
      let part = take n (dumps (to_json torn) ++ 10 ∷ []) in
      let feedless : IsFeedless part = take-IsFeedless n (dumps (to_json torn)) enc.plain le in
      let read = parse-encode_all dumps loads es part num s feedless in
      (rw take_all read, rw take_all (same_append before part a read whole))
    where
      whole :
          parse_event_history loads false (encode_all dumps loads es)
          ≡ ok (es, length (encode_all dumps loads es))
      whole = rw append-nil at (parse-encode_all dumps loads es [] num s tt)

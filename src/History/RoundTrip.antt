-- ===== src/History/RoundTrip.antt =====
-- Reading a file of the Event History that was written record by record.
use mathlib.Core.List.{append_assoc, append-nil}
use afk_composable_pipeline.Common.{
  ℕ, suc, ◌+◌, List, [], ◌∷◌, ◌++◌, Option, some, true, false, ◌==◌, length, take-append,
  length-append, ◌≡◌, refl, sym, All, arith, subst,
}
use afk_composable_pipeline.Json.{Json}
use afk_composable_pipeline.Errors.{ok, err, history_corrupt}
use afk_composable_pipeline.History.Record.{
  Event, read_record, to_json, IsFilled, read_record-to_json,
}
use afk_composable_pipeline.History.Lines.{
  complete_bytes, split_lines, IsPlain, split_lines-line, complete_bytes_behind,
  complete_bytes_feedless, IsFeedless,
}
use afk_composable_pipeline.History.{Bytes, decoded, read_lines, parse_event_history, encoded}

-- The records have the numbers from `n` + 1 on.
abbrev pub IsNumbered : ℕ → List Event → Type 0
IsNumbered n [] = Unit {0}
IsNumbered n (e ∷ es) = (e.sequence ≡ suc n) × IsNumbered (suc n) es

shorter : (l : Bytes) (b : ℕ) (r : Bytes) → (length l == length (l ++ b ∷ r)) ≡ false
shorter l b r = ground (arith, length-append l (b ∷ r))

module _ (dumps : Json → Bytes) (loads : Bytes → Option Json) where
  -- What the program relies on in `json` for one record: the text has no line end of its own, and
  -- it is read back, the line feed behind it included.
  pub record Encodes (e : Event) : Type 0 where
    pub plain : IsPlain (dumps (to_json e))
    pub back : loads (dumps (to_json e) ++ 10 ∷ []) ≡ some (to_json e)

  pub record IsSound (e : Event) : Type 0 where
    pub filled : IsFilled e
    pub encodes : Encodes e

  -- The file after the records were appended.
  unfoldable pub encode_all : List Event → Bytes
  encode_all [] = []
  encode_all (e ∷ es) = encoded dumps e ++ encode_all es

  encode_all_line :
      (e : Event) (es : List Event) → encode_all (e ∷ es) ≡ dumps (to_json e) ++ 10 ∷ encode_all es
  unfolding encode_all encoded
  encode_all_line e es = append_assoc (dumps (to_json e)) (10 ∷ []) (encode_all es)

  encode_all_tail :
      (e : Event) (es : List Event) (tail : Bytes)
      → encode_all (e ∷ es) ++ tail ≡ dumps (to_json e) ++ 10 ∷ (encode_all es ++ tail)
  encode_all_tail e es tail =
      rw encode_all_line (append_assoc (dumps (to_json e)) (10 ∷ encode_all es) tail)

  complete_bytes-encode_all :
      (es : List Event) (tail : Bytes)
      → IsFeedless tail
      → complete_bytes (encode_all es ++ tail) ≡ length (encode_all es)
  complete_bytes-encode_all [] tail h = unfold encode_all in complete_bytes_feedless tail h
  complete_bytes-encode_all (e ∷ es) tail h =
      let j = dumps (to_json e) in
      rw (encode_all_tail, encode_all_line)
        (omega (
          arith,
          complete_bytes_behind j (encode_all es ++ tail),
          complete_bytes-encode_all es tail h,
          length-append j (10 ∷ encode_all es),
        ))

  read_record_self :
      (n : ℕ) (e : Event) → e.sequence ≡ n → IsFilled e → read_record n (to_json e) ≡ ok e
  read_record_self n e h f =
      subst (λ m. read_record m (to_json e) ≡ ok e) h (read_record-to_json e f)

  read_lines-encode_all :
      (n offset : ℕ) (es : List Event)
      → IsNumbered n es
      → All IsSound es
      → read_lines loads n offset (split_lines (encode_all es)) ≡ ok es
  unfolding read_lines
  read_lines-encode_all n offset [] h s = unfold encode_all split_lines in refl
  read_lines-encode_all n offset (e ∷ es) h s =
      rw (encode_all_line, split_lines-line (dumps (to_json e)) (encode_all es) s.0.encodes.plain)
        (rw (
          s.0.encodes.back,
          decoded,
          read_record_self (suc n) e h.0 s.0.filled,
          read_lines-encode_all (suc n) (offset + length (dumps (to_json e) ++ 10 ∷ [])) es h.1 s.1,
        ))

  -- The tolerant reader of the Event History gives back the sound, consecutively numbered records
  -- that were written, and the length of their bytes, whatever bytes without a line feed follow.
  pub parse-encode_all :
      (es : List Event) (tail : Bytes)
      → IsNumbered 0 es
      → All IsSound es
      → IsFeedless tail
      → parse_event_history loads false (encode_all es ++ tail) ≡ ok (es, length (encode_all es))
  unfolding parse_event_history
  parse-encode_all es tail h s f =
      rw (complete_bytes-encode_all es tail f, take-append, read_lines-encode_all 0 0 es h s)

  -- A reader that insists on complete records refuses a file with one or more bytes without a line
  -- feed behind the written records.
  pub parse-encode_all_complete :
      (es : List Event) (b : ℕ) (tail : Bytes)
      → IsFeedless (b ∷ tail)
      → parse_event_history loads true (encode_all es ++ b ∷ tail)
        ≡ err (history_corrupt "Event History has an incomplete trailing record")
  unfolding parse_event_history
  parse-encode_all_complete es b tail f =
      rw (complete_bytes-encode_all es (b ∷ tail) f, shorter (encode_all es) b tail)

  pub encode_all-append :
      (es : List Event) (e : Event) → encode_all (es ++ e ∷ []) ≡ encode_all es ++ encoded dumps e
  unfolding encode_all
  encode_all-append [] e = append-nil (encoded dumps e)
  encode_all-append (d ∷ es) e =
      rw (encode_all-append es e)
        (sym (append_assoc (encoded dumps d) (encode_all es) (encoded dumps e)))

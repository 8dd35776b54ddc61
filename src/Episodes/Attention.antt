-- ===== src/Episodes/Attention.antt =====
-- A recorded attention, as src/afk/run_store.py reads it afterwards.
use afk_composable_pipeline.Common.{
  ℕ, suc, ◌+◌, ◌-◌, ◌≤◌, String, List, [], ◌∷◌, ◌++◌, Option, none, some, true, length, get_elem?,
  ◌≡◌, refl, arith, str_eq, eq_refl,
}
use afk_composable_pipeline.Json.{
  Json, Fields, str, obj, end, field, nat, get, has, eq, lookup, put,
}
use afk_composable_pipeline.Json.Laws.{IsWfFields, eq_wf, eq_str_refl}
use afk_composable_pipeline.Errors.{ok}
use afk_composable_pipeline.History.{inventory_key}
use afk_composable_pipeline.History.Record.{Event, data_of}
use afk_composable_pipeline.History.RoundTrip.{IsNumbered}
use afk_composable_pipeline.Episodes.{
  marker_of, valid_marker, episode_marker, event_at, same_episode, latest_attention,
  validated_attention_episode, pop, with_episode, still_holds, already_recorded,
  attention_to_append,
}

abbrev pub attention_marker : ℕ → Json
attention_marker n = obj (marker_of "attention" n)

-- The event is an attention with the marker of its sequence, and the projection shows it.
pub record Recorded (q : Json) (e : Event) (n : ℕ) : Type 0 where
  pub name : e.event ≡ "run.attention_required"
  pub state : e.state ≡ some "attention_required"
  pub marker : get (data_of e) "attention_episode" ≡ attention_marker n
  pub has_marker : has (data_of e) "attention_episode" ≡ true
  pub shown : get q "attention_episode" ≡ attention_marker n
  pub has_shown : has q "attention_episode" ≡ true
  pub last : get q "last_sequence" ≡ nat n

get_elem-last : (es : List Event) (e : Event) → get_elem? (es ++ e ∷ []) (length es) ≡ some e
get_elem-last [] e = refl
get_elem-last (d ∷ es) e = get_elem-last es e

latest-append :
    (es : List Event) (e : Event) (before : Option Json)
    → str_eq e.event "run.attention_required" ≡ true
    → has (data_of e) "attention_episode" ≡ true
    → latest_attention before (es ++ e ∷ []) ≡ some (get (data_of e) "attention_episode")
unfolding latest_attention
latest-append [] e before p q = rw (p, q) refl
latest-append (d ∷ es) e before p q = latest-append es e _ p q

marker_self : (n : ℕ) → eq (attention_marker n) (attention_marker n) ≡ true
unfolding marker_of lookup
marker_self n = eq_wf (obj _) (refl, tt, (refl, tt, (refl, tt, (refl, tt, tt))))

marker_sequence : (n : ℕ) → get (attention_marker n) "episode_sequence" ≡ nat n
unfolding marker_of get lookup
marker_sequence n = refl

marker_valid :
    (q : Json) (n : ℕ)
    → get q "last_sequence" ≡ nat (suc n)
    → valid_marker "attention" none q (attention_marker (suc n)) ≡ true
unfolding valid_marker
marker_valid q n last = rw (marker_sequence (suc n), last, marker_self (suc n)) (ground arith)

marker_shown :
    (q : Json) (e : Event) (n : ℕ)
    → Recorded q e (suc n)
    → episode_marker "attention" "attention_episode" "attention" none q
      ≡ ok (some (attention_marker (suc n)))
unfolding episode_marker
marker_shown q e n r = rw (r.has_shown, r.shown, marker_valid q n r.last) refl

one_less : (n : ℕ) → suc n - 1 ≡ n
one_less n = omega arith

pub event_at-last : (es : List Event) (e : Event) → event_at (es ++ e ∷ []) (suc (length es)) ≡ ok e
unfolding event_at
event_at-last es e = rw (one_less (length es), get_elem-last es e) (ground arith)

same_episode_lem :
    (q : Json) (e : Event) (n : ℕ)
    → Recorded q e n
    → same_episode "attention_episode" "run.attention_required" "attention_required"
        (attention_marker n)
        e
      ≡ true
unfolding same_episode
same_episode_lem q e n r =
    rw
      (
        r.name,
        r.state,
        r.marker,
        marker_self n,
        eq_refl "run.attention_required",
        eq_refl "attention_required",
      )
      refl

-- An attention that is recorded as the last event with the marker of its own sequence, and that the
-- projection shows with that last sequence, passes the validation of the attention episode and is
-- the one returned.
pub attention_validated :
    (es : List Event) (e : Event) (q : Json)
    → Recorded q e (suc (length es))
    → validated_attention_episode (es ++ e ∷ []) q ≡ ok (some (attention_marker (suc (length es))))
unfolding validated_attention_episode
attention_validated es e q r =
    rw
      (
        marker_shown q e (length es) r,
        marker_sequence (suc (length es)),
        event_at-last es e,
        same_episode_lem q e (suc (length es)) r,
        latest-append es e none (rw r.name (eq_refl "run.attention_required")) r.has_marker,
        r.marker,
        marker_self (suc (length es)),
      )
      refl

numbered_before :
    (payload : Fields) (k n : ℕ) (es : List Event) (e : Event)
    → IsNumbered k es
    → k + length es ≤ n
    → e.sequence ≤ n
    → still_holds n payload (es ++ e ∷ []) ≡ true
unfolding still_holds
numbered_before payload k n [] e num le last = ground arith
numbered_before payload k n (d ∷ es) e num le last =
    ground (arith, num.0, numbered_before payload (suc k) n es e num.1 (omega arith) last)

pop-fresh : (k : String) (fs : Fields) → lookup k fs ≡ none → pop k fs ≡ fs
unfolding pop lookup
pop-fresh k end h = refl
pop-fresh k (field j v fs) h = ground (arith, pop-fresh k fs)

pop-put : (k : String) (v : Json) (fs : Fields) → lookup k fs ≡ none → pop k (put k v fs) ≡ fs
unfolding pop put lookup
pop-put k v end h = ground (arith, eq_refl k)
pop-put k v (field j w fs) h = ground (arith, pop-put k v fs)

recorded_already :
    (es : List Event) (e : Event) (payload : Fields) (inventory : Json)
    → IsNumbered 0 es
    → e.sequence ≡ suc (length es)
    → e.data_fields
      ≡ put inventory_key inventory (with_episode payload (attention_marker (suc (length es))))
    → lookup inventory_key (with_episode payload (attention_marker (suc (length es)))) ≡ none
    → IsWfFields (with_episode payload (attention_marker (suc (length es))))
    → already_recorded (es ++ e ∷ []) payload (attention_marker (suc (length es))) e ≡ true
unfolding already_recorded
recorded_already es e payload inventory num at kept fresh wf =
    rw
      (
        marker_sequence (suc (length es)),
        numbered_before payload 0 (suc (length es)) es e num (omega arith) (omega (arith, at)),
        kept,
        pop-put inventory_key inventory (with_episode payload (attention_marker (suc (length es))))
            fresh,
      )
      (eq_wf (obj _) wf)

-- Where the last record is the attention of its own sequence with the same payload and an
-- inventory, behind consecutively numbered records, and the projection is in attention_required and
-- shows it, recording the same attention again appends nothing.
pub attention_is_repeated :
    (es : List Event) (e : Event) (q : Json) (payload : Fields) (inventory : Json)
    → Recorded q e (suc (length es))
    → get q "state" ≡ str "attention_required"
    → IsNumbered 0 es
    → e.sequence ≡ suc (length es)
    → e.data_fields
      ≡ put inventory_key inventory (with_episode payload (attention_marker (suc (length es))))
    → lookup inventory_key (with_episode payload (attention_marker (suc (length es)))) ≡ none
    → IsWfFields (with_episode payload (attention_marker (suc (length es))))
    → attention_to_append (es ++ e ∷ []) q payload ≡ ok none
unfolding attention_to_append
attention_is_repeated es e q payload inventory r state num at kept fresh wf =
    rw
      (
        attention_validated es e q r,
        state,
        eq_str_refl "attention_required",
        marker_sequence (suc (length es)),
        event_at-last es e,
        recorded_already es e payload inventory num at kept fresh wf,
      )
      refl

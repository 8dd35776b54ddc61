-- ===== src/Projection/Update.antt =====
-- What an append changes in the projection of a Run.
use afk_composable_pipeline.Common.{
  String, List, [], ◌∷◌, ◌++◌, Option, none, some, Bool, true, false, not, ◌||◌, is_empty, str_eq,
  if◌then◌else◌, get_last?, get_last?-append, ◌≡◌, refl, arith, eq_iff, ◌∙◌, sym, ap, all,
}
use afk_composable_pipeline.Json.{Json, Fields, str, end, nat, lookup, merge, is_some}
use afk_composable_pipeline.Json.Laws.{Distinct, lookup-put, lookup-merge, or_else}
use afk_composable_pipeline.Errors.{ok, ◌>>=◌}
use afk_composable_pipeline.History.Record.{Event}
use afk_composable_pipeline.Projection.{
  Identity, last_state, details_from, checkpoint_from, checkpoint_step, detail_keys, copy_keys,
  base_fields, projection_of, project, or_before, put_some, or_text, required_state, required_last,
}

abbrev pub contains : String → List String → Bool
contains k [] = false
contains k (j ∷ js) = str_eq j k || contains k js

pub last_state-append :
    (s : Option String) (es : List Event) (e : Event)
    → last_state s (es ++ e ∷ []) ≡ or_before e.state (last_state s es)
unfolding last_state
last_state-append s [] e = refl
last_state-append s (d ∷ es) e = last_state-append (or_before d.state s) es e

pub details_from-append :
    (fs : Fields) (es : List Event) (e : Event)
    → details_from fs (es ++ e ∷ []) ≡ merge (details_from fs es) e.data_fields
unfolding details_from
details_from-append fs [] e = refl
details_from-append fs (d ∷ es) e = details_from-append (merge fs d.data_fields) es e

pub checkpoint_from-append :
    (c : String) (es : List Event) (e : Event)
    → checkpoint_from c (es ++ e ∷ []) ≡ checkpoint_step e.state (checkpoint_from c es)
unfolding checkpoint_from
checkpoint_from-append c [] e = refl
checkpoint_from-append c (d ∷ es) e = checkpoint_from-append (checkpoint_step d.state c) es e

lookup-put_some :
    (k j : String) (o : Option Json) (fs : Fields)
    → lookup j (put_some k o fs) ≡ (if str_eq k j then or_else o (lookup j fs) else lookup j fs)
lookup-put_some k j none fs = ground arith
lookup-put_some k j (some v) fs = lookup-put k j v fs

lookup-copy_keys :
    (k : String) (ks : List String) (details fs : Fields)
    → lookup k (copy_keys ks details fs)
      ≡ (if contains k ks then or_else (lookup k details) (lookup k fs) else lookup k fs)
unfolding copy_keys
lookup-copy_keys k [] details fs = refl
lookup-copy_keys k (j ∷ ks) details fs = ground (
  arith,
  lookup-copy_keys k ks details (put_some j (lookup j details) fs),
  lookup-put_some j k (lookup j details) fs,
  eq_iff j k,
)

-- A key of the list is none of the dict's, if that holds of each key of the list.
absent :
    (k : String) (ks : List String) (fs : Fields)
    → contains k ks ≡ true
    → all (λ j. not (is_some (lookup j fs))) ks ≡ true
    → lookup k fs ≡ none
absent k [] fs h a = ground arith
absent k (j ∷ ks) fs h a = ground (arith, absent k ks fs, eq_iff j k)

module _ (identity : Identity) (events : List Event) where
  base_absent :
      (k : String) (last : Event) (state : String) (checkpoint : Json)
      → contains k detail_keys ≡ true
      → lookup k (base_fields identity last state checkpoint) ≡ none
  base_absent k last state checkpoint h =
      absent k detail_keys (base_fields identity last state checkpoint) h
        (unfold detail_keys base_fields lookup in refl)

  or_else-none : (o : Option Json) → or_else o none ≡ o
  or_else-none none = refl
  or_else-none (some v) = refl

  lookup-projection_of :
      (k : String) (last : Event) (state : String)
      → contains k detail_keys ≡ true
      → lookup k (projection_of identity events last state) ≡ lookup k (details_from end events)
  unfolding projection_of
  lookup-projection_of k last state h =
      lookup-copy_keys k detail_keys _ _
      ∙ rw (h, base_absent k last state _ h) (or_else-none (lookup k (details_from end events)))

  -- A base key keeps its value in the last loop.
  lookup-projection_of_base :
      (k : String) (last : Event) (state : String)
      → contains k detail_keys ≡ false
      → lookup k (projection_of identity events last state)
        ≡ lookup k (
            base_fields identity last state (
              or_text
                (lookup "checkpoint" (details_from end events))
                (checkpoint_from "created" events)))
  unfolding projection_of
  lookup-projection_of_base k last state h = lookup-copy_keys k detail_keys _ _ ∙ rw h refl

  projected :
      (last : Option Event) (state : Option String) (p : Fields)
      → (required_last last >>= λ l.
          required_state state >>= λ s. ok (projection_of identity events l s))
        ≡ ok p
      → (l : Event) × (s : String) × (last ≡ some l)
        × (state ≡ some s)
        × (is_empty s ≡ false)
        × (projection_of identity events l s ≡ p)
  projected none state p h = ground arith
  projected (some l) none p h = ground arith
  projected (some l) (some s) p h = (l, s, refl, refl, ground arith, ground arith)

  -- What a projection that exists holds: the last record, the last state, and the details.
  pub project-ok :
      (p : Fields)
      → project identity events ≡ ok p
      → (l : Event) × (s : String) × (get_last? events ≡ some l)
        × (last_state none events ≡ some s)
        × (is_empty s ≡ false)
        × (projection_of identity events l s ≡ p)
  unfolding project
  project-ok p h = projected (get_last? events) (last_state none events) p h

  -- A detail of the projection is that of the merged data.
  pub lookup-project :
      (p : Fields) (k : String)
      → project identity events ≡ ok p
      → contains k detail_keys ≡ true
      → lookup k p ≡ lookup k (details_from end events)
  lookup-project p k h c =
      let (l, s, last, state, filled, built) = project-ok p h in
      rw (← built) (lookup-projection_of k l s c)

-- The state of the record, if it has one, is not the empty text.
abbrev pub state_filled : Option String → Bool
state_filled none = true
state_filled (some s) = not (is_empty s)

project-append_ok :
    (identity : Identity) (events : List Event) (e : Event) (s : String)
    → or_before e.state (last_state none events) ≡ some s
    → is_empty s ≡ false
    → project identity (events ++ e ∷ []) ≡ ok (projection_of identity (events ++ e ∷ []) e s)
unfolding project
project-append_ok identity events e s h f =
    rw (get_last?-append, last_state-append, h, required_state, f)

next_state :
    (o : Option String) (before : String)
    → is_empty before ≡ false
    → state_filled o ≡ true
    → (s : String) × (or_before o (some before) ≡ some s) × (is_empty s ≡ false)
next_state none before f g = (before, refl, f)
next_state (some s) before f g = (s, refl, ground arith)

-- If a history has a projection, so has the history with one record more whose state is not the
-- empty text; for data that repeat no key, a detail key has the value of the record's data where
-- that has the key, and its old value elsewhere; the last sequence and event are the record's.
pub project-append :
    (identity : Identity) (events : List Event) (e : Event) (p : Fields) (k : String)
    → project identity events ≡ ok p
    → state_filled e.state ≡ true
    → Distinct e.data_fields
    → contains k detail_keys ≡ true
    → (q : Fields) × (project identity (events ++ e ∷ []) ≡ ok q)
      × (lookup k q ≡ or_else (lookup k e.data_fields) (lookup k p))
      × (lookup "last_sequence" q ≡ some (nat e.sequence))
      × (lookup "last_event" q ≡ some (str e.event))
project-append identity events e p k h filled distinct c =
    let (l, before, last, state, f, built) = project-ok identity events p h in
    let (s, now, g) = next_state e.state before f filled in
    let made = project-append_ok identity events e s (rw state now) g in
    (
      projection_of identity (events ++ e ∷ []) e s,
      made,
      lookup-project identity (events ++ e ∷ []) _ k made c
          ∙ rw details_from-append (
              lookup-merge k (details_from end events) e.data_fields distinct
              ∙ ap (λ o. or_else (lookup k e.data_fields) o)
                  (sym (lookup-project identity events p k h c))),
      lookup-projection_of_base identity (events ++ e ∷ []) "last_sequence" e s
            (unfold detail_keys in refl)
          ∙ (unfold base_fields lookup in refl),
      lookup-projection_of_base identity (events ++ e ∷ []) "last_event" e s
            (unfold detail_keys in refl)
          ∙ (unfold base_fields lookup in refl),
    )

-- ===== src/Preflight/Scan.antt =====
-- The loops of src/afk/resume_preflight.py over the events: a step refuses an event or gives the
-- next state. A refusal ends the loop at the state before it.
use afk_composable_pipeline.Common.{
  ℕ, suc, List, [], ◌∷◌, ◌++◌, Option, none, some, Bool, true, false, ◌≡◌, refl, arith, String,
  str_eq, if◌then◌else◌, subst, sym,
}
use afk_composable_pipeline.History.Record.{Event}

-- Whether the loop refused an event, and its state.
pub record Scanned (S : Type 0) : Type 0 where
  pub invalid : Bool
  pub state : S

module _ {S : Type 0} where
  -- After one step.
  abbrev pub continue : Option S → S → (S → Scanned S) → Scanned S
  continue none s k = record { invalid = true; state = s }
  continue (some t) s k = k t

  unfoldable pub scan : (Event → S → Option S) → S → List Event → Scanned S
  scan step s [] = record { invalid = false; state = s }
  scan step s (e ∷ es) = continue (step e s) s (λ t. scan step t es)

  continued :
      (o : Option S) (s : S) (k : S → Scanned S)
      → (continue o s k).invalid ≡ false
      → (t : S) × (o ≡ some t) × (continue o s k ≡ k t)
  continued none s k h = ground arith
  continued (some t) s k h = (t, refl, refl)

  -- A rule for what holds of the start, the end and the events of an accepted run.
  pub scan_induction :
      (step : Event → S → Option S) (P : S → S → List Event → Type 0)
      → ((s : S) → P s s [])
      → ((s t u : S) (e : Event) (es : List Event) → step e s ≡ some t → P t u es → P s u (e ∷ es))
      → (s : S) (es : List Event) → (scan step s es).invalid ≡ false
      → P s (scan step s es).state es
  unfolding scan
  scan_induction step P base next s [] h = base s
  scan_induction step P base next s (e ∷ es) h =
      let (t, stepped, same) = continued (step e s) s (λ t. scan step t es) h in
      let rest =
        scan_induction step P base next t es
          (subst (λ (r : Scanned S). r.invalid ≡ false) same h) in
      subst (λ (r : Scanned S). P s r.state (e ∷ es)) (sym same) (next s t _ e es stepped rest)

  -- The events in two parts.
  pub scan-append :
      (step : Event → S → Option S) (s : S) (es : List Event) (e : Event)
      → (scan step s es).invalid ≡ false
      → scan step s (es ++ e ∷ [])
        ≡ continue
            (step e (scan step s es).state)
            (scan step s es).state
            (λ t. record { invalid = false; state = t })
  unfolding scan
  scan-append step s [] e h = refl
  scan-append step s (d ∷ es) e h =
      let (t, stepped, same) = continued (step d s) s (λ t. scan step t es) h in
      rw (stepped, continue)
        (scan-append step t es e (subst (λ (r : Scanned S). r.invalid ≡ false) same h))

-- How many events have the name.
unfoldable pub count_named : String → List Event → ℕ
count_named name [] = 0
count_named name (e ∷ es) =
    let rest = count_named name es in if str_eq e.event name then suc rest else rest

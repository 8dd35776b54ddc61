-- ===== src/Retrospective/Summary/Steps.antt =====
-- One round of `_fit_summary` of src/afk/run_summary.py: what it keeps, and that it drops something.
use afk_composable_pipeline.Common.{
  ℕ, suc, ◌+◌, ◌≤◌, String, List, [], ◌∷◌, Option, none, some, Bool, true, false, ◌&&◌, eq_refl,
  leb, length, all, get_last?, str_eq, ◌≡◌, refl, ap, ◌∙◌, arith, eq_iff,
}
use afk_composable_pipeline.Json.{Json, Fields, end, field, lookup, size, is_some}
use afk_composable_pipeline.Retrospective.Summary.{
  Reference, Summary, drop_last, drop_first, is_nil, keep_before, or_else, pop_file, drop_last_file,
  removable_key, removable_keys, delete, count_file, drop_event, drop_effect, drop_unit,
}

unfoldable pub file_count : List Reference → ℕ
file_count [] = 0
file_count (r ∷ rs) = length r.files + file_count rs

-- What the summary still holds.
unfoldable pub weight : Summary → ℕ
weight s =
    file_count s.evidence
    + length s.events
    + length s.effects
    + length s.evidence
    + size s.projection

-- What is dropped from `s` is counted in `t`; the run, the episode, the citation manifest, the state
-- and the checkpoint are the same.
pub record Trimmed (s t : Summary) : Type 0 where
  pub run : t.run ≡ s.run
  pub episode : t.episode ≡ s.episode
  pub citations : t.citation_manifest ≡ s.citation_manifest
  pub state : lookup "state" t.projection ≡ lookup "state" s.projection
  pub checkpoint : lookup "checkpoint" t.projection ≡ lookup "checkpoint" s.projection
  pub events : t.omitted.events + length t.events ≡ s.omitted.events + length s.events
  pub effects : t.omitted.effects + length t.effects ≡ s.omitted.effects + length s.effects
  pub units :
      t.omitted.evidence_units + length t.evidence ≡ s.omitted.evidence_units + length s.evidence
  pub files :
      t.omitted.evidence_files + file_count t.evidence
      ≡ s.omitted.evidence_files + file_count s.evidence

pub Trimmed-refl : (s : Summary) → Trimmed s s
Trimmed-refl s = record {
  run = refl;
  episode = refl;
  citations = refl;
  state = refl;
  checkpoint = refl;
  events = refl;
  effects = refl;
  units = refl;
  files = refl;
}

pub Trimmed-trans : (s t u : Summary) → Trimmed s t → Trimmed t u → Trimmed s u
Trimmed-trans s t u p q = record {
  run = q.run ∙ p.run;
  episode = q.episode ∙ p.episode;
  citations = q.citations ∙ p.citations;
  state = q.state ∙ p.state;
  checkpoint = q.checkpoint ∙ p.checkpoint;
  events = q.events ∙ p.events;
  effects = q.effects ∙ p.effects;
  units = q.units ∙ p.units;
  files = q.files ∙ p.files;
}

-- A round: it keeps what it must, and the summary is smaller.
pub record Round (s t : Summary) : Type 0 where
  pub trimmed : Trimmed s t
  pub smaller : suc (weight t) ≤ weight s

length-drop_last {ℓ} :
    {A : Type ℓ} (xs : List A) → is_nil xs ≡ false → suc (length (drop_last xs)) ≡ length xs
length-drop_last [] h = ground arith
length-drop_last (x ∷ []) h = refl
length-drop_last (x ∷ y ∷ ys) h = ap suc (length-drop_last (y ∷ ys) refl)

-- A file less, and as many references.
abbrev pub FileLess : List Reference → Option (List Reference) → Type 0
FileLess rs none = file_count rs ≡ 0
FileLess rs (some rs') = (suc (file_count rs') ≡ file_count rs) × (length rs' ≡ length rs)

pub drop_last_file-FileLess : (rs : List Reference) → FileLess rs (drop_last_file rs)
unfolding drop_last_file file_count
drop_last_file-FileLess [] = refl
drop_last_file-FileLess (r ∷ rs) = go (drop_last_file rs) (drop_last_file-FileLess rs) r.files refl
  where
    go :
        (found : Option (List Reference))
        → FileLess rs found
        → (files : List Json) → files ≡ r.files
        → FileLess (r ∷ rs) (or_else (keep_before r found) (pop_file r rs))
    go (some rs') h files e = (omega (arith, h.0), ap suc h.1)
    go none h [] e = rw (← e) (omega (arith, h))
    go none h (x ∷ xs) e = rw (← e) (omega (arith, length-drop_last (x ∷ xs) refl), refl)

-- A round that happened is one.
abbrev pub RoundOf : Summary → Option Summary → Type 0
RoundOf s none = Unit
RoundOf s (some t) = Round s t

pub count_file-RoundOf :
    (s : Summary) (found : Option (List Reference))
    → FileLess s.evidence found
    → RoundOf s (count_file s found)
unfolding weight
count_file-RoundOf s none h = tt
count_file-RoundOf s (some rs) h = ground arith

length-drop_first {ℓ} :
    {A : Type ℓ} (xs : List A) → leb 2 (length xs) ≡ true → suc (length (drop_first xs)) ≡ length xs
length-drop_first [] h = ground arith
length-drop_first (x ∷ xs) h = refl

pub drop_event-RoundOf : (s : Summary) → RoundOf s (drop_event s)
unfolding weight
drop_event-RoundOf s = ground (arith, length-drop_first s.events)

pub drop_effect-RoundOf : (s : Summary) → RoundOf s (drop_effect s)
unfolding weight
drop_effect-RoundOf s = ground (arith, length-drop_last s.effects)

file_count-drop_last : (rs : List Reference) → file_count rs ≡ 0 → file_count (drop_last rs) ≡ 0
unfolding file_count
file_count-drop_last [] h = refl
file_count-drop_last (r ∷ []) h = refl
file_count-drop_last (r ∷ q ∷ rs) h = omega (arith, file_count-drop_last (q ∷ rs) (omega arith))

pub drop_unit-RoundOf : (s : Summary) → file_count s.evidence ≡ 0 → RoundOf s (drop_unit s)
unfolding weight
drop_unit-RoundOf s h = ground (arith, length-drop_last s.evidence, file_count-drop_last s.evidence)

-- A key that can be removed, and is there.
abbrev pub in_fields : Fields → String → Bool
in_fields fs k = is_some (lookup k fs) && removable_key k

pub all-imp :
    (p q : String → Bool) (ks : List String)
    → ((k : String) → p k ≡ true → q k ≡ true)
    → all p ks ≡ true
    → all q ks ≡ true
all-imp p q [] f h = refl
all-imp p q (k ∷ ks) f h = ground (arith, f k, all-imp p q ks f)

in_fields_tail :
    (j : String) (v : Json) (fs : Fields) (k : String)
    → in_fields fs k ≡ true
    → in_fields (field j v fs) k ≡ true
unfolding lookup
in_fields_tail j v fs k h = ground arith

pub removable_keys_in : (fs : Fields) → all (in_fields fs) (removable_keys fs) ≡ true
unfolding removable_keys lookup
removable_keys_in end = refl
removable_keys_in (field j v fs) = ground (
  arith,
  eq_refl j,
  all-imp (in_fields fs) (in_fields (field j v fs)) (removable_keys fs) (in_fields_tail j v fs)
      (removable_keys_in fs),
)

-- What the last element is, every element is.
abbrev pub LastOf : (String → Bool) → Option String → Type 0
LastOf p none = Unit
LastOf p (some k) = p k ≡ true

pub get_last?-all :
    (p : String → Bool) (ks : List String) → all p ks ≡ true → LastOf p (get_last? ks)
get_last?-all p [] h = tt
get_last?-all p (k ∷ []) h = ground arith
get_last?-all p (k ∷ j ∷ ks) h = get_last?-all p (j ∷ ks) (ground arith)

pub size-delete :
    (k : String) (fs : Fields) → is_some (lookup k fs) ≡ true → suc (size (delete k fs)) ≡ size fs
unfolding size delete lookup
size-delete k end h = ground arith
size-delete k (field j v fs) h = ground (arith, size-delete k fs)

pub lookup-delete :
    (i k : String) (fs : Fields) → str_eq i k ≡ false → lookup i (delete k fs) ≡ lookup i fs
unfolding delete lookup
lookup-delete i k end h = refl
lookup-delete i k (field j v fs) h =
    ground (arith, lookup-delete i k fs, eq_iff j k, eq_iff j i, eq_iff i k)

-- ===== src/Projection/Latest.antt =====
-- The projection of src/afk/run_store.py against the plain description of a detail: the value that
-- the last record with the key gave it.
use afk_composable_pipeline.Common.{String, List, [], ◌∷◌, Option, none, true, ◌≡◌, refl, ◌∙◌, All}
use afk_composable_pipeline.Json.{Json, Fields, end, lookup, merge}
use afk_composable_pipeline.Json.Laws.{or_else, Distinct, lookup-merge}
use afk_composable_pipeline.Errors.{ok}
use afk_composable_pipeline.History.Record.{Event}
use afk_composable_pipeline.Projection.{Identity, project, details_from, detail_keys}
use afk_composable_pipeline.Projection.Update.{contains, lookup-project}

-- The value of the last record that has the key, and `before` where none has.
abbrev pub latest_value : String → Option Json → List Event → Option Json
latest_value k before [] = before
latest_value k before (e ∷ es) = latest_value k (or_else (lookup k e.data_fields) before) es

lookup-details_from :
    (k : String) (fs : Fields) (es : List Event)
    → All (λ e. Distinct e.data_fields) es
    → lookup k (details_from fs es) ≡ latest_value k (lookup k fs) es
unfolding details_from
lookup-details_from k fs [] d = refl
lookup-details_from k fs (e ∷ es) d =
    rw (lookup-details_from k (merge fs e.data_fields) es d.1, lookup-merge k fs e.data_fields d.0)
      refl

-- In a projection of records whose data repeat no key, a detail key has the value that the last
-- record with the key gave it, and none where no record has it.
pub project-latest_value :
    (identity : Identity) (events : List Event) (p : Fields) (k : String)
    → project identity events ≡ ok p
    → All (λ e. Distinct e.data_fields) events
    → contains k detail_keys ≡ true
    → lookup k p ≡ latest_value k none events
project-latest_value identity events p k h d c =
    lookup-project identity events p k h c
    ∙ lookup-details_from k end events d
    ∙ (unfold lookup in refl)

-- ===== src/Retrospective/Result.antt =====
-- `normalize_retrospective_result` of src/afk/retrospective_result.py: the checks on the report of a
-- retrospective. What json makes of the texts is a parameter. A text here has no lone surrogate.
pub mod Citation
pub mod Sound
use afk_composable_pipeline.Common.{
  ℕ, suc, ◌+◌, String, List, [], ◌∷◌, Option, none, some, Bool, true, false, not, ◌&&◌, ◌||◌, ◌==◌,
  leb, ltb, cat, code, characters, prefix, decimal, length, map, all, str_eq, if◌then◌else◌,
}
use afk_composable_pipeline.Common.Order.{is_in, all_distinct}
use afk_composable_pipeline.Text.{is_durable_id}
use afk_composable_pipeline.Json.{
  Json, bool, str, get, eq, keys_are, str_and, int_and, int_eq, pos, one_of, is_dict, is_list,
  is_str,
}
use afk_composable_pipeline.Json.Lists.{elements}
use afk_composable_pipeline.Attempts.{is_true}
use afk_composable_pipeline.Errors.{Failure, Result, ok, result_error, ◌>>=◌, ◌>>◌, guard}
use afk_composable_pipeline.History.Record.{text_of, not_blank}
use afk_composable_pipeline.Retrospective.Inventory.{text_limit}
use afk_composable_pipeline.Retrospective.Summary.{citation_manifest, max_summary_bytes}
use afk_composable_pipeline.Retrospective.Result.Citation.{is_citation}

-- `COLLECTION_LIMIT`
abbrev pub collection_limit : ℕ
collection_limit = 32

abbrev pub categories : List String
categories =
    "orchestration" ∷ "implementation" ∷ "validation" ∷ "review" ∷ "repair" ∷ "publication"
    ∷ "tracker" ∷ "environment" ∷ "operator_process" ∷ "evidence" ∷ []

abbrev pub confidence : List String
confidence = "high" ∷ "medium" ∷ "low" ∷ []

abbrev pub scopes : List String
scopes = "afk" ∷ "target_repository" ∷ "environment" ∷ "operator_process" ∷ []

abbrev pub priorities : List String
priorities = "P0" ∷ "P1" ∷ "P2" ∷ "P3" ∷ []

abbrev pub result_keys : List String
result_keys =
    "schema_version" ∷ "run_id" ∷ "terminal_outcome" ∷ "summary" ∷ "process_findings"
    ∷ "improvement_proposals" ∷ []

abbrev pub finding_keys : List String
finding_keys = "id" ∷ "category" ∷ "title" ∷ "evidence" ∷ "impact" ∷ "confidence" ∷ []

abbrev pub proposal_keys : List String
proposal_keys =
    "id" ∷ "addresses" ∷ "scope" ∷ "priority" ∷ "title" ∷ "rationale" ∷ "suggested_change"
    ∷ "requires_human_decision" ∷ []

-- `RetrospectiveResultError(error)`
abbrev pub refused : String → Failure
refused error = result_error (prefix text_limit error)

-- `_text`
unfoldable pub is_text : Json → Bool
is_text v = str_and (λ s. not_blank s && leb (characters s) text_limit) v

-- A list with at least one element and at most as many as a collection may have.
abbrev pub is_collection : Json → Bool
is_collection v =
    is_list v && ltb 0 (length (elements v)) && leb (length (elements v)) collection_limit

abbrev pub finding_name : ℕ → String → String
finding_name index rest = cat "process_findings[" (cat (decimal index) (cat "]" rest))

abbrev pub proposal_name : ℕ → String → String
proposal_name index rest = cat "improvement_proposals[" (cat (decimal index) (cat "]" rest))

-- The loop over the citations of a finding.
unfoldable pub check_citations : Json → ℕ → ℕ → List Json → Result (Unit {0})
check_citations summary index n [] = ok tt
check_citations summary index n (v ∷ vs) =
    guard (is_citation summary v)
      (refused (finding_name index (cat ".evidence[" (cat (decimal n) "] is unresolved"))))
    >> check_citations summary index (suc n) vs

unfoldable pub finding_complete : Json → Bool
finding_complete v =
    keys_are finding_keys v
    && str_and is_durable_id (get v "id")
    && is_text (get v "title")
    && is_text (get v "impact")

-- `_validate_finding`
unfoldable pub validate_finding : Json → ℕ → Json → Result (Unit {0})
validate_finding summary index v = do
  guard (not (is_dict v) || one_of categories (get v "category"))
      (refused (finding_name index ".category is invalid"))
  guard (not (is_dict v) || one_of confidence (get v "confidence"))
      (refused (finding_name index ".confidence is invalid"))
  guard (is_collection (get v "evidence")) (refused (finding_name index " is invalid"))
  check_citations summary index 0 (elements (get v "evidence"))
  guard (finding_complete v) (refused (finding_name index " is invalid"))

abbrev pub id_of : Json → String
id_of v = text_of (get v "id")

-- The loop over the findings; it gives the set of their ids.
unfoldable pub validate_findings : Json → ℕ → List String → List Json → Result (List String)
validate_findings summary index seen [] = ok seen
validate_findings summary index seen (v ∷ vs) =
    validate_finding summary index v
    >> (guard (not (is_in (id_of v) seen))
          (refused (finding_name index ".id duplicates an existing identity"))
        >> validate_findings summary (suc index) (id_of v ∷ seen) vs)

-- The loop over the addresses of a proposal.
unfoldable pub check_addresses : List String → ℕ → ℕ → List String → Result (Unit {0})
check_addresses finding_ids index n [] = ok tt
check_addresses finding_ids index n (a ∷ as') =
    guard (is_in a finding_ids)
      (refused (proposal_name index (cat ".addresses[" (cat (decimal n) "] is unresolved"))))
    >> check_addresses finding_ids index (suc n) as'

unfoldable pub proposal_complete : Json → Bool
proposal_complete v =
    keys_are proposal_keys v
    && str_and is_durable_id (get v "id")
    && is_text (get v "title")
    && is_text (get v "rationale")
    && is_text (get v "suggested_change")
    && is_true (get v "requires_human_decision")

abbrev pub addresses_of : Json → List String
addresses_of v = map text_of (elements (get v "addresses"))

-- `_validate_proposal`
unfoldable pub validate_proposal : List String → ℕ → Json → Result (Unit {0})
validate_proposal finding_ids index v = do
  guard (not (is_dict v) || one_of scopes (get v "scope"))
      (refused (proposal_name index ".scope is invalid"))
  guard (not (is_dict v) || one_of priorities (get v "priority"))
      (refused (proposal_name index ".priority is invalid"))
  guard (is_collection (get v "addresses")) (refused (proposal_name index " is invalid"))
  guard (all is_str (elements (get v "addresses"))) (refused (proposal_name index " is invalid"))
  guard (all_distinct (addresses_of v))
      (refused (proposal_name index ".addresses contains a duplicate"))
  check_addresses finding_ids index 0 (addresses_of v)
  guard (proposal_complete v) (refused (proposal_name index " is invalid"))

-- The loop over the proposals; it gives the set of their ids.
unfoldable pub validate_proposals : List String → ℕ → List String → List Json → Result (List String)
validate_proposals finding_ids index seen [] = ok seen
validate_proposals finding_ids index seen (v ∷ vs) =
    validate_proposal finding_ids index v
    >> (guard (not (is_in (id_of v) finding_ids || is_in (id_of v) seen))
          (refused (proposal_name index ".id duplicates an existing identity"))
        >> validate_proposals finding_ids (suc index) (id_of v ∷ seen) vs)

-- The tests on the loaded summary.
unfoldable pub valid_summary : Json → Bool
valid_summary summary =
    is_dict summary
    && int_and (int_eq (pos 2)) (get summary "schema_version")
    && is_dict (get summary "run")
    && is_dict (get summary "episode")
    && is_str (get (get summary "run") "run_id")
    && one_of ("attention_required" ∷ "completed" ∷ []) (get (get summary "episode") "state")
    && is_dict (get summary "citation_manifest")
    && eq (get summary "citation_manifest") (citation_manifest summary)

unfoldable pub valid_result : Json → Json → Bool
valid_result summary v =
    keys_are result_keys v
    && int_and (int_eq (pos 1)) (get v "schema_version")
    && eq (get v "run_id") (get (get summary "run") "run_id")
    && eq (get v "terminal_outcome") (get (get summary "episode") "state")
    && is_text (get v "summary")
    && is_list (get v "process_findings")
    && is_list (get v "improvement_proposals")
    && leb (length (elements (get v "process_findings"))) collection_limit
    && leb (length (elements (get v "improvement_proposals"))) collection_limit

-- The length of a text in UTF-8.
abbrev pub char_bytes : ℕ → ℕ
char_bytes c = if ltb c 128 then 1 else if ltb c 2048 then 2 else if ltb c 65536 then 3 else 4

unfoldable pub byte_count : String → ℕ
byte_count String.[] = 0
byte_count (String.◌∷◌ c s) = char_bytes (code c) + byte_count s

-- `json.loads`, `canonical_json`, and the one after the other on a value
pub record JsonText : Type 0 where
  pub loads : String → Option Json
  pub dumps : Json → String
  pub reload : Json → Json

abbrev pub loaded_summary : JsonText → String → Option Json → Result Json
loaded_summary json run_summary none =
    guard false (refused "Run Summary is invalid") >> ok (bool false)
loaded_summary json run_summary (some summary) =
    guard (str_eq (json.dumps summary) run_summary && valid_summary summary)
      (refused "Run Summary is invalid")
    >> ok summary

-- The summary, from its text.
unfoldable pub read_summary : JsonText → String → Result Json
read_summary json run_summary =
    guard (leb (byte_count run_summary) max_summary_bytes) (refused "Run Summary is invalid")
    >> loaded_summary json run_summary (json.loads run_summary)

-- The checks of a report, for a summary.
unfoldable pub check_result : Json → Json → Result (List String)
check_result summary v = do
  guard (valid_result summary v) (refused "retrospective result is invalid")
  finding_ids ← validate_findings summary 0 [] (elements (get v "process_findings"))
  validate_proposals finding_ids 0 [] (elements (get v "improvement_proposals"))

unfoldable pub normalize_retrospective_result : JsonText → String → Json → Result Json
normalize_retrospective_result json run_summary v = do
  summary ← read_summary json run_summary
  proposal_ids ← check_result summary v
  ok (json.reload v)

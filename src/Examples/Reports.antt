-- ===== src/Examples/Reports.antt =====
-- A report with one finding, which cites the episode, and one proposal.
use afk_composable_pipeline.Common.{String, List, [], ◌∷◌, Option, some, true, ◌≡◌, refl}
use afk_composable_pipeline.Json.{Json, bool, str, arr, obj, nil, cons, nat, dict}
use afk_composable_pipeline.Errors.{ok}
use afk_composable_pipeline.Retrospective.Summary.{citation_manifest}
use afk_composable_pipeline.Retrospective.Result.{
  JsonText, valid_summary, normalize_retrospective_result,
}
use afk_composable_pipeline.Retrospective.Result.Sound.{
  IsSound, normalize_retrospective_result-IsSound,
}

abbrev facts : List (String × Json)
facts =
    ("schema_version", nat 2)
    ∷ ("run", obj (dict (("run_id", str "run-1") ∷ [])))
    ∷ ("episode", obj (dict (("state", str "completed") ∷ ("checkpoint", str "merged") ∷ [])))
    ∷ []

abbrev summary : Json
summary = obj (dict (("citation_manifest", citation_manifest (obj (dict facts))) ∷ facts))

-- It knows one summary.
abbrev toy_json : JsonText
toy_json = record { loads = λ s. some summary; dumps = λ v. "{}"; reload = λ v. v }

abbrev finding : Json
finding = obj (
    dict (
      ("id", str "finding-1")
      ∷ ("category", str "review")
      ∷ ("title", str "a late review")
      ∷ (
        "evidence",
        arr (
            cons
              (obj (dict (("artifact", str "episode.json") ∷ ("json_pointer", str "/state") ∷ [])))
              (cons
                (obj
                  (dict (("artifact", str "episode-checkpoint.txt") ∷ ("line_start", nat 1) ∷ [])))
                nil)),
      )
      ∷ ("impact", str "a day")
      ∷ ("confidence", str "high")
      ∷ []))

abbrev proposal : Json
proposal = obj (
    dict (
      ("id", str "proposal-1")
      ∷ ("addresses", arr (cons (str "finding-1") nil))
      ∷ ("scope", str "afk")
      ∷ ("priority", str "P1")
      ∷ ("title", str "review earlier")
      ∷ ("rationale", str "less waiting")
      ∷ ("suggested_change", str "start it with the validation")
      ∷ ("requires_human_decision", bool true)
      ∷ []))

abbrev report : Json
report = obj (
    dict (
      ("schema_version", nat 1)
      ∷ ("run_id", str "run-1")
      ∷ ("terminal_outcome", str "completed")
      ∷ ("summary", str "one delay")
      ∷ ("process_findings", arr (cons finding nil))
      ∷ ("improvement_proposals", arr (cons proposal nil))
      ∷ []))

accepted : normalize_retrospective_result toy_json "{}" report ≡ ok report
unfolding normalize_retrospective_result afk_composable_pipeline.Retrospective.Result.read_summary
    afk_composable_pipeline.Retrospective.Result.byte_count valid_summary
    afk_composable_pipeline.Json.get afk_composable_pipeline.Json.eq citation_manifest
    afk_composable_pipeline.Retrospective.Result.check_result
    afk_composable_pipeline.Retrospective.Result.valid_result afk_composable_pipeline.Json.keys_are
    afk_composable_pipeline.Retrospective.Result.is_text afk_composable_pipeline.Common.is_blank
    afk_composable_pipeline.Common.characters
    afk_composable_pipeline.Retrospective.Result.validate_findings
    afk_composable_pipeline.Retrospective.Result.validate_finding
    afk_composable_pipeline.Retrospective.Result.check_citations
    afk_composable_pipeline.Retrospective.Result.Citation.is_citation
    afk_composable_pipeline.Common.Order.all_distinct afk_composable_pipeline.Common.Order.is_in
    afk_composable_pipeline.Common.all_chars afk_composable_pipeline.Common.cat
    afk_composable_pipeline.Common.decimal afk_composable_pipeline.Common.decimal_onto
    afk_composable_pipeline.Common.digit afk_composable_pipeline.Common.is_space
    afk_composable_pipeline.Common.lstrip afk_composable_pipeline.Common.prefix
    afk_composable_pipeline.Common.rstrip afk_composable_pipeline.Common.strip
    afk_composable_pipeline.Json.has afk_composable_pipeline.Json.lookup
    afk_composable_pipeline.Json.size afk_composable_pipeline.Retrospective.Pointer.child
    afk_composable_pipeline.Retrospective.Pointer.is_index
    afk_composable_pipeline.Retrospective.Pointer.item_at
    afk_composable_pipeline.Retrospective.Pointer.number_from
    afk_composable_pipeline.Retrospective.Pointer.pointer_token
    afk_composable_pipeline.Retrospective.Pointer.resolve_pointer
    afk_composable_pipeline.Retrospective.Pointer.resolve_tokens
    afk_composable_pipeline.Retrospective.Result.Citation.any_sequence
    afk_composable_pipeline.Retrospective.Result.Citation.event_citation
    afk_composable_pipeline.Retrospective.Result.Citation.is_artifact
    afk_composable_pipeline.Retrospective.Result.Citation.json_citation
    afk_composable_pipeline.Retrospective.Result.Citation.line_count
    afk_composable_pipeline.Retrospective.Result.Citation.lines_from
    afk_composable_pipeline.Retrospective.Result.Citation.text_citation
    afk_composable_pipeline.Retrospective.Result.Citation.valid_target
    afk_composable_pipeline.Retrospective.Result.check_addresses
    afk_composable_pipeline.Retrospective.Result.finding_complete
    afk_composable_pipeline.Retrospective.Result.proposal_complete
    afk_composable_pipeline.Retrospective.Result.validate_proposal
    afk_composable_pipeline.Retrospective.Result.validate_proposals
    afk_composable_pipeline.Retrospective.Summary.json_citations
    afk_composable_pipeline.Text.FilePath.as_posix afk_composable_pipeline.Text.FilePath.is_absolute
    afk_composable_pipeline.Text.FilePath.join_slash
    afk_composable_pipeline.Text.FilePath.kept_parts
    afk_composable_pipeline.Text.FilePath.path_parts afk_composable_pipeline.Text.FilePath.root_of
    afk_composable_pipeline.Text.FilePath.split_slash afk_composable_pipeline.Text.is_alnum
    afk_composable_pipeline.Text.is_durable_id afk_composable_pipeline.Text.is_id_char
accepted = refl

normalize_retrospective_result-IsSound_example :
    (found : Json) × (some summary ≡ some found)
    × (valid_summary found ≡ true)
    × IsSound found report
normalize_retrospective_result-IsSound_example =
    normalize_retrospective_result-IsSound toy_json "{}" report report accepted

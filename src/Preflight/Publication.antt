-- ===== src/Preflight/Publication.antt =====
-- The publication records of a Candidate: src/afk/candidate_publication.py,
-- src/afk/candidate_pr_publication.py, and the loops over them in src/afk/resume_preflight.py.
use afk_composable_pipeline.Common.{
  String, List, [], ◌∷◌, Option, none, some, Bool, false, not, ◌&&◌, ◌||◌, str_eq, cat,
  if◌then◌else◌,
}
use afk_composable_pipeline.Text.{is_sha}
use afk_composable_pipeline.Json.{
  Json, Fields, null, str, obj, end, get, has, eq, str_and, int_and, at_least, keys_are, dict,
  is_some,
}
use afk_composable_pipeline.Attempts.{filled_text, is_true}
use afk_composable_pipeline.History.Record.{Event, data_of}
use afk_composable_pipeline.Preflight.Scan.{scan}

abbrev pub branch_published : String
branch_published = "candidate.branch_published"

abbrev pub pr_published : String
pr_published = "candidate.pr_published"

-- `publication` of src/afk/candidate_publication.py
unfoldable pub publication : String → String → String → Fields
publication repository branch candidate_sha = dict (
    ("repository", str repository)
    ∷ ("branch", str branch)
    ∷ ("candidate_sha", str candidate_sha)
    ∷ ("remote", str "origin")
    ∷ [])

-- The data of `event` of src/afk/candidate_publication.py; its state is the checkpoint.
unfoldable pub publication_data : String → Fields → Fields
publication_data checkpoint value = dict (
    ("checkpoint", str checkpoint)
    ∷ ("candidate_publication", obj value)
    ∷ ("attention", obj end)
    ∷ [])

abbrev pub text_state : Option String → Json
text_state none = null
text_state (some s) = str s

unfoldable pub valid_publication_event : Event → Json → String → Bool
valid_publication_event e projection checkpoint =
    let d = data_of e in
    let published = get d "candidate_publication" in
    str_eq e.event branch_published
    && keys_are ("checkpoint" ∷ "candidate_publication" ∷ "attention" ∷ []) d
    && eq (get d "checkpoint") (str checkpoint)
    && eq (text_state e.state) (str checkpoint)
    && eq (get d "attention") (obj end)
    && keys_are ("repository" ∷ "branch" ∷ "candidate_sha" ∷ "remote" ∷ []) published
    && eq (get published "repository") (get projection "repository")
    && eq (get published "branch") (get projection "branch")
    && eq (get published "remote") (str "origin")
    && str_and is_sha (get published "candidate_sha")

-- `marker` of src/afk/candidate_pr_publication.py
unfoldable pub pr_marker : String → String → String
pr_marker run_id candidate_sha =
    cat "<!-- afk-candidate:" (cat run_id (cat ":" (cat candidate_sha " -->")))

-- `projection.get("run_id", "")`, which is a text in every projection
abbrev pub text_in : Json → String
text_in (str s) = s
text_in _ = ""

unfoldable pub pr_keys : List String
pr_keys =
    "repository" ∷ "number" ∷ "url" ∷ "head_sha" ∷ "head" ∷ "base" ∷ "state" ∷ "draft" ∷ "marker"
    ∷ []

-- `valid_event` of src/afk/candidate_pr_publication.py, with the Candidate of the events before.
unfoldable pub valid_pr_event : Event → Json → Json → String → Bool
valid_pr_event e projection candidate_sha checkpoint =
    let d = data_of e in
    let published = get d "candidate_pr" in
    str_eq e.event pr_published
    && keys_are ("checkpoint" ∷ "candidate_pr" ∷ "attention" ∷ []) d
    && eq (get d "checkpoint") (str checkpoint)
    && eq (text_state e.state) (str checkpoint)
    && eq (get d "attention") (obj end)
    && keys_are pr_keys published
    && eq (get published "repository") (get projection "repository")
    && int_and (at_least 1) (get published "number")
    && str_and filled_text (get published "url")
    && str_and is_sha candidate_sha
    && eq (get published "head_sha") candidate_sha
    && eq (get published "head") (get projection "branch")
    && eq (get published "base") (get projection "base_branch")
    && eq (get published "state") (str "OPEN")
    && is_true (get published "draft")
    && eq (get published "marker")
        (str (pr_marker (text_in (get projection "run_id")) (text_in candidate_sha)))

-- The variables of both loops: the last publication if there is one, the checkpoint, and the
-- Candidate, which the second loop alone reads.
pub record Published : Type 0 where
  pub latest : Option Json
  pub checkpoint : String
  pub candidate_sha : Json

abbrev pub unpublished : Published
unpublished = record { latest = none; checkpoint = "created"; candidate_sha = null }

abbrev pub text_or : Json → String → String
text_or (str s) before = s
text_or _ before = before

-- The end of a round: the event's checkpoint, if it has one.
abbrev pub note_checkpoint : Event → Published → Published
note_checkpoint e s = record s { checkpoint = text_or (get (data_of e) "checkpoint") s.checkpoint }

-- `publications and publications[-1] == publication`
abbrev pub repeats : Option Json → Json → Bool
repeats none v = false
repeats (some w) v = eq w v

unfoldable pub publication_step : Json → Event → Published → Option Published
publication_step projection e s =
    let published = get (data_of e) "candidate_publication" in
    if str_eq e.event branch_published
    then if not (valid_publication_event e projection s.checkpoint) || repeats s.latest published
      then none
      else some (note_checkpoint e (record s { latest = some published }))
    else some (note_checkpoint e s)

abbrev pub note_candidate : Event → Published → Published
note_candidate e s = record s {
  candidate_sha =
      if has (data_of e) "candidate_sha" then get (data_of e) "candidate_sha" else s.candidate_sha;
}

unfoldable pub pr_publication_step : Json → Event → Published → Option Published
pr_publication_step projection e s =
    let published = get (data_of e) "candidate_pr" in
    if str_eq e.event pr_published
    then if not (valid_pr_event e projection s.candidate_sha s.checkpoint) || is_some s.latest
      then none
      else some (note_checkpoint e (note_candidate e (record s { latest = some published })))
    else some (note_checkpoint e (note_candidate e s))

-- The comparison with the projection at the end of each loop.
abbrev pub agrees : Option Json → Bool → Json → Bool
agrees none present projected = not present
agrees (some v) present projected = present && eq projected v

unfoldable pub candidate_publication_invalid : Json → List Event → Bool
candidate_publication_invalid projection events =
    let r = scan (publication_step projection) unpublished events in
    r.invalid
    || not (
        agrees r.state.latest (has projection "candidate_publication")
          (get projection "candidate_publication"))

unfoldable pub candidate_pr_publication_invalid : Json → List Event → Bool
candidate_pr_publication_invalid projection events =
    let r = scan (pr_publication_step projection) unpublished events in
    r.invalid
    || not (agrees r.state.latest (has projection "candidate_pr") (get projection "candidate_pr"))

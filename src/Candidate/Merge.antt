-- ===== src/Candidate/Merge.antt =====
-- The squash merge of a Candidate's pull request in src/afk/candidate.py.
pub mod Command
pub mod Steps
pub mod Mergeable
pub mod Authorized
pub mod Squash
use afk_composable_pipeline.Common.{
  String, List, [], ◌∷◌, Option, none, some, Bool, true, false, not, ◌&&◌, ◌||◌, if◌then◌else◌,
}
use afk_composable_pipeline.Text.{is_sha}
use afk_composable_pipeline.Json.{
  Json, Items, Fields, null, bool, str, obj, nil, cons, get, has, eq, is_dict, is_list, is_str,
  truthy, str_and, dict,
}
use afk_composable_pipeline.Resume.Retry.{items}
use afk_composable_pipeline.Redaction.{TextRules}
use afk_composable_pipeline.Errors.{Failure, Result, ok, err, candidate_error, ◌>>=◌, ◌>>◌, guard}
use afk_composable_pipeline.Effects.{
  EffectFile, effect, effect_if_present, prepare_effect, confirm_effect,
}
use afk_composable_pipeline.Attempts.{is_false}
use afk_composable_pipeline.History.Record.{text_of}
use afk_composable_pipeline.Candidate.{
  Subject, Heads, conflict, subject_of, verify_published, ready_pr_observation,
}

-- The default kind of a CandidateError
abbrev pub inconclusive : String → Failure
inconclusive summary = candidate_error "inconclusive" summary

-- `_candidate_merge_intended`, its first part
unfoldable pub merge_intended : Json → Subject → Fields
merge_intended identity subject = dict (
    ("repository", get identity "repository")
    ∷ ("number", subject.pr_number)
    ∷ ("url", str subject.pr_url)
    ∷ ("candidate_sha", str subject.candidate_sha)
    ∷ ("head", str subject.branch)
    ∷ ("base", get identity "base_branch")
    ∷ ("base_sha", get identity "base_sha")
    ∷ ("strategy", str "squash")
    ∷ [])

-- Its second part
unfoldable pub delete_intended : Json → Subject → Fields
delete_intended identity subject = dict (
    ("repository", get identity "repository")
    ∷ ("branch", str subject.branch)
    ∷ ("candidate_sha", str subject.candidate_sha)
    ∷ [])

-- `_require_effect_identity`
unfoldable pub require_effect_identity : Option Json → String → Fields → Result (Unit {0})
require_effect_identity none kind intended =
    err (conflict "Candidate PR merge Effect authorization disagrees with the Run")
require_effect_identity (some r) kind intended =
    guard (eq (get r "kind") (str kind) && eq (get r "intended") (obj intended))
      (conflict "Candidate PR merge Effect authorization disagrees with the Run")

-- `_require_open_effect`
unfoldable pub require_open_effect : Option Json → String → Fields → Result (Unit {0})
require_open_effect none kind intended = ok tt
require_open_effect (some r) kind intended =
    require_effect_identity (some r) kind intended
    >> guard (eq (get r "status") (str "prepared") && not (has r "observed"))
        (conflict "OPEN Candidate PR contradicts its merge Effect authorization")

-- `_require_effect_observation`
unfoldable pub require_effect_observation : Json → Fields → Result (Unit {0})
require_effect_observation r observed =
    guard (not (eq (get r "status") (str "confirmed")) || eq (get r "observed") (obj observed))
      (conflict "confirmed merge Effect observation disagrees with GitHub")

-- `len(parents) == 1 and isinstance(parents[0], dict) and parents[0].get("sha") == base_sha`
unfoldable pub only_parent : Json → Items → Bool
only_parent base_sha (cons x nil) = is_dict x && eq (get x "sha") base_sha
only_parent base_sha _ = false

-- The test of `_verify_squash_commit`, for the two commits that GitHub shows.
unfoldable pub squash_agrees : Json → String → String → Json → Json → Bool
squash_agrees base_sha candidate_sha merge_commit candidate merged =
    eq (get candidate "sha") (str candidate_sha)
    && is_dict (get candidate "tree")
    && str_and is_sha (get (get candidate "tree") "sha")
    && eq (get merged "sha") (str merge_commit)
    && is_dict (get merged "tree")
    && eq (get (get merged "tree") "sha") (get (get candidate "tree") "sha")
    && is_list (get merged "parents")
    && only_parent base_sha (items (get merged "parents"))

-- `_verify_squash_commit`; `commits` is what `_github_git_commit` returns for a SHA.
unfoldable pub verify_squash_commit :
    (String → Result Json) → Json → String → String → Result (Unit {0})
verify_squash_commit commits base_sha candidate_sha merge_commit =
    commits candidate_sha >>= (λ candidate. commits merge_commit >>= (λ merged.
      guard (squash_agrees base_sha candidate_sha merge_commit candidate merged)
        (conflict "GitHub squash commit disagrees with the reviewed Candidate")))

-- The merge commit's SHA is a text where this is "" for another value.
abbrev pub merge_commit_of : Json → String
merge_commit_of pr = text_of (get (get pr "mergeCommit") "oid")

-- The facts of `_reconcile_candidate_merge`.
unfoldable pub merged_facts_agree : Json → Json → Json → Bool
merged_facts_agree identity projection pr =
    eq (get pr "number") (get projection "pr_number")
    && eq (get pr "url") (get projection "pr_url")
    && eq (get pr "state") (str "MERGED")
    && is_false (get pr "isDraft")
    && eq (get pr "headRefOid") (get projection "candidate_sha")
    && eq (get pr "headRefName") (get projection "branch")
    && eq (get pr "baseRefName") (get identity "base_branch")
    && str_and is_sha (get (get pr "mergeCommit") "oid")

unfoldable pub merge_observation : Json → Fields
merge_observation pr = dict (
    ("number", get pr "number")
    ∷ ("url", get pr "url")
    ∷ ("candidate_sha", get pr "headRefOid")
    ∷ ("head", get pr "headRefName")
    ∷ ("base", get pr "baseRefName")
    ∷ ("merge_commit", str (merge_commit_of pr))
    ∷ [])

-- The two effects of the merge.
pub record MergeFiles : Type 0 where
  pub merge_file : EffectFile
  pub delete_file : EffectFile

-- `_reconcile_candidate_merge`. A failure writes nothing.
unfoldable pub reconcile_candidate_merge :
    TextRules
    → (String → Result Json)
    → Json
    → Json
    → Subject
    → Json
    → Json
    → EffectFile
    → Result (EffectFile × Fields)
reconcile_candidate_merge rules commits identity projection subject pr merge_effect file =
    guard (merged_facts_agree identity projection pr)
      (conflict "merged PR facts disagree with the reviewed Candidate")
    >> (verify_squash_commit commits (get identity "base_sha") subject.candidate_sha
          (merge_commit_of pr)
        >> (require_effect_observation merge_effect (merge_observation pr)
            >> (confirm_effect rules "pr-squash-merge" (merge_observation pr) file
                >>= (λ confirmed. ok (confirmed.0, merge_observation pr)))))

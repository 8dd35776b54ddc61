-- ===== src/Candidate.antt =====
-- What src/afk/candidate.py asks of a published Candidate: the facts of the Run, the heads that git
-- shows and the pull request that GitHub shows.
pub mod Merge
pub mod Deletion
use afk_composable_pipeline.Common.{
  String, [], ◌∷◌, Option, none, some, Bool, true, false, not, ◌&&◌, is_empty, if◌then◌else◌, cat,
  str_eq,
}
use afk_composable_pipeline.Json.{
  Json, str, obj, bool, get, eq, is_bool, is_int, is_str, int_and, at_least, dict,
}
use afk_composable_pipeline.Errors.{
  Result, ok, err, Failure, store_error, candidate_error, ◌>>=◌, ◌>>◌, guard,
}

abbrev pub conflict : String → Failure
conflict summary = candidate_error "conflict" summary

abbrev pub field_text : Failure → Json → Result String
field_text failure (str s) = if is_empty s then err failure else ok s
field_text failure _ = err failure

-- `_field`
unfoldable pub field_of : Json → String → Result String
field_of value key =
    field_text (store_error (cat "required Candidate field is missing: " key)) (get value key)

-- What the projection of a Run says of its Candidate.
pub record Subject : Type 0 where
  pub branch : String
  pub candidate_sha : String
  pub pr_number : Json
  pub pr_url : String

unfoldable pub candidate_subject : Json → Result Subject
candidate_subject projection = field_of projection "branch" >>= (λ branch.
    field_of projection "candidate_sha" >>= (λ candidate_sha.
      field_of projection "pr_url" >>= (λ pr_url.
        guard (int_and (at_least 1) (get projection "pr_number"))
          (conflict "stable Candidate PR number is invalid")
        >> ok (record {
          branch = branch;
          candidate_sha = candidate_sha;
          pr_number = get projection "pr_number";
          pr_url = pr_url;
        }))))

-- The first lines of `merge_candidate_pr`.
unfoldable pub subject_of : Json → Result Subject
subject_of projection = field_of projection "worktree_path" >>= (λ _. candidate_subject projection)

-- What git shows: `rev-parse HEAD`, `status --porcelain`, and `ls-remote` of the Candidate's branch
-- and of the base branch.
pub record Heads : Type 0 where
  pub local_sha : String
  pub dirty : String
  pub remote_sha : String
  pub target_sha : String

unfoldable pub heads_agree : String → Heads → Json → Bool
heads_agree candidate_sha heads pr =
    str_eq heads.local_sha candidate_sha
    && is_empty heads.dirty
    && str_eq heads.remote_sha candidate_sha
    && eq (get pr "headRefOid") (str candidate_sha)

-- `expected_draft is not None and pr.get("isDraft") is not expected_draft` does not hold.
abbrev pub draft_agrees : Option Bool → Json → Bool
draft_agrees none v = true
draft_agrees (some b) v = is_bool v && eq v (bool b)

unfoldable pub pr_facts_agree : Json → Subject → Option Bool → Json → Bool
pr_facts_agree identity subject draft pr =
    eq (get pr "number") subject.pr_number
    && eq (get pr "url") (str subject.pr_url)
    && eq (get pr "headRefName") (str subject.branch)
    && eq (get pr "baseRefName") (get identity "base_branch")
    && eq (get pr "state") (str "OPEN")
    && is_bool (get pr "isDraft")
    && draft_agrees draft (get pr "isDraft")
    && is_int (get pr "number")
    && is_str (get pr "url")

-- `_verify_published` for the heads that git showed, with the number and the URL of the Run's pull
-- request and without a marker, as the merge calls it.
unfoldable pub verify_published : Json → Subject → Heads → Json → Option Bool → Result (Unit {0})
verify_published identity subject heads pr draft =
    guard (eq (str heads.target_sha) (get identity "base_sha"))
      (conflict "target branch no longer equals the pinned base")
    >> (guard (heads_agree subject.candidate_sha heads pr) (
          candidate_error "head_mismatch" "local, remote, and PR heads disagree with the Candidate")
        >> guard (pr_facts_agree identity subject draft pr)
            (conflict "PR Candidate facts disagree"))

-- `_ready_pr_observation`
unfoldable pub ready_pr_observation : Json → String → Json
ready_pr_observation pr candidate_sha = obj (
    dict (
      ("number", get pr "number")
      ∷ ("url", get pr "url")
      ∷ ("candidate_sha", str candidate_sha)
      ∷ ("head", get pr "headRefName")
      ∷ ("base", get pr "baseRefName")
      ∷ ("draft", get pr "isDraft")
      ∷ []))

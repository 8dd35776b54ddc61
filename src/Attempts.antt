-- ===== src/Attempts.antt =====
-- src/afk/implementation_attempt.py: the records of an implementation attempt.

use afk_composable_pipeline.Common.{
  String, List, [], ◌∷◌, ◌++◌, Option, none, some, Bool, false, not, ◌&&◌, ◌||◌, is_empty, cat,
  if◌then◌else◌, all,
}
use afk_composable_pipeline.Text.{is_sha}
use afk_composable_pipeline.Json.{
  Json, Fields, bool, str, obj, get, eq, merge, is_bool, str_and, int_and, at_least, keys_are,
  one_of, dict,
}

abbrev pub first_attempt_id : String
first_attempt_id = "implementation-1"

abbrev pub second_attempt_id : String
second_attempt_id = "implementation-2"

unfoldable pub binding_fields : List String
binding_fields =
    "repository" ∷ "repository_common_dir" ∷ "repository_common_dir_identity" ∷ "origin" ∷ "branch"
    ∷ "worktree_path" ∷ []

-- What binds an attempt to its checkout.
pub record Binding : Type 0 where
  pub repository : String
  pub repository_common_dir : String
  pub device : Json
  pub inode : Json
  pub origin : String
  pub branch : String
  pub worktree_path : String

unfoldable pub binding_dict : Binding → Fields
binding_dict b = dict (
    ("repository", str b.repository)
    ∷ ("repository_common_dir", str b.repository_common_dir)
    ∷ (
      "repository_common_dir_identity",
      obj (dict (("device", b.device) ∷ ("inode", b.inode) ∷ [])),
    )
    ∷ ("origin", str b.origin)
    ∷ ("branch", str b.branch)
    ∷ ("worktree_path", str b.worktree_path)
    ∷ [])

unfoldable pub started_attempt : String → String → Fields → Fields
started_attempt attempt_id starting_sha binding =
    merge
      (dict (
        ("attempt_id", str attempt_id)
        ∷ ("starting_sha", str starting_sha)
        ∷ ("status", str "started")
        ∷ ("evidence", str (cat "attempts/" attempt_id))
        ∷ []))
      binding

unfoldable pub completed_attempt : Fields → String → Fields
completed_attempt attempt ending_sha =
    merge attempt (dict (("status", str "completed") ∷ ("ending_sha", str ending_sha) ∷ []))

unfoldable pub interrupted_attempt : Fields → String → Bool → Fields
interrupted_attempt attempt summary retryable = merge attempt (
    dict (
      ("status", str "interrupted")
      ∷ ("summary", str summary)
      ∷ ("retryable", bool retryable)
      ∷ []))

-- `value is True`
abbrev pub is_true : Json → Bool
is_true (bool b) = b
is_true _ = false

-- `value is False`
abbrev pub is_false : Json → Bool
is_false (bool b) = not b
is_false _ = false

unfoldable pub interruption_is_retryable : Json → Bool
interruption_is_retryable attempt = eq (get attempt "attempt_id") (str first_attempt_id)

unfoldable pub next_attempt_id : Json → Option String
next_attempt_id attempt =
    if eq (get attempt "status") (str "interrupted")
      && is_true (get attempt "retryable")
      && interruption_is_retryable attempt
    then some second_attempt_id
    else none

unfoldable pub valid_filesystem_identity : Json → Bool
valid_filesystem_identity v =
    keys_are ("device" ∷ "inode" ∷ []) v
    && int_and (at_least 0) (get v "device")
    && int_and (at_least 1) (get v "inode")

unfoldable pub common_keys : List String
common_keys = "attempt_id" ∷ "starting_sha" ∷ "status" ∷ "evidence" ∷ binding_fields

-- The keys that a status adds.
unfoldable pub extra_keys : Json → List String
extra_keys v =
    if eq (get v "status") (str "completed")
    then "ending_sha" ∷ []
    else if eq (get v "status") (str "interrupted")
    then "summary" ∷ "retryable" ∷ []
    else []

abbrev pub filled_text : String → Bool
filled_text s = not (is_empty s)

abbrev pub evidence_of : Json → String
evidence_of (str attempt_id) = cat "attempts/" attempt_id
evidence_of _ = ""

unfoldable pub completed_part : Json → Bool
completed_part v =
    not (eq (get v "status") (str "completed"))
    || str_and is_sha (get v "ending_sha") && not (eq (get v "ending_sha") (get v "starting_sha"))

unfoldable pub interrupted_part : Json → Bool
interrupted_part v =
    not (eq (get v "status") (str "interrupted"))
    || str_and filled_text (get v "summary")
      && is_bool (get v "retryable")
      && (is_false (get v "retryable") || interruption_is_retryable v)

unfoldable pub valid_attempt : List String → Json → Bool
valid_attempt statuses v =
    keys_are (extra_keys v ++ common_keys) v
    && one_of (first_attempt_id ∷ second_attempt_id ∷ []) (get v "attempt_id")
    && str_and is_sha (get v "starting_sha")
    && one_of statuses (get v "status")
    && eq (get v "evidence") (str (evidence_of (get v "attempt_id")))
    && all (λ k. str_and filled_text (get v k))
        ("repository" ∷ "repository_common_dir" ∷ "origin" ∷ "branch" ∷ "worktree_path" ∷ [])
    && valid_filesystem_identity (get v "repository_common_dir_identity")
    && completed_part v
    && interrupted_part v

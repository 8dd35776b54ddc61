-- ===== src/Resume/Ready.antt =====
-- The tests of src/afk/start.py on a projection.
use afk_composable_pipeline.Common.{String, List, [], ◌∷◌, Bool, not, ◌&&◌, ◌||◌}
use afk_composable_pipeline.Json.{
  Json, str, obj, end, get, has, eq, is_dict, keys_are, one_of, is_some,
}
use afk_composable_pipeline.Attempts.{next_attempt_id}

abbrev pub bootstrap_validation_adapter : String
bootstrap_validation_adapter = "afk.builtin.bootstrap-validation/v1"

-- `projection["checkpoint"] == name`
abbrev pub at_checkpoint : Json → String → Bool
at_checkpoint p name = eq (get p "checkpoint") (str name)

abbrev pub last_event_is : Json → String → Bool
last_event_is p name = eq (get p "last_event") (str name)

-- `isinstance(attention, dict) and attention.get("scope") == scope`
abbrev pub attention_scope : Json → String → Bool
attention_scope p scope =
    is_dict (get p "attention") && eq (get (get p "attention") "scope") (str scope)

abbrev pub attention_kind : Json → List String → Bool
attention_kind p kinds = one_of kinds (get (get p "attention") "kind")

abbrev pub attempt_status : Json → String → List String → Bool
attempt_status p key statuses = one_of statuses (get (get p key) "status")

-- `_candidate_resume_ready`; a projection without attention has the scope of an empty dict.
unfoldable pub candidate_resume_ready : Json → Bool
candidate_resume_ready p =
    (at_checkpoint p "worktree_ready" || at_checkpoint p "change_committed")
    && (attention_scope p "candidate"
        || at_checkpoint p "worktree_ready"
          && attention_scope p "implementation"
          && attention_kind p ("unavailable" ∷ []))

-- `_implementation_attempt_resume_ready`
unfoldable pub implementation_attempt_resume_ready : Json → Bool
implementation_attempt_resume_ready p =
    let attempt = get p "implementation_attempt" in
    is_dict attempt
    && (at_checkpoint p "change_committed"
          && attempt_status p "implementation_attempt" ("completed" ∷ [])
        || at_checkpoint p "worktree_ready"
          && attempt_status p "implementation_attempt" ("started" ∷ "completed" ∷ [])
        || at_checkpoint p "worktree_ready"
          && attempt_status p "implementation_attempt" ("interrupted" ∷ [])
          && is_some (next_attempt_id attempt))

-- `_validation_resume_ready`
unfoldable pub validation_resume_ready : Json → Bool
validation_resume_ready p =
    at_checkpoint p "candidate_ready"
    && attention_scope p "validation"
    && attention_kind p ("unavailable" ∷ "inconclusive" ∷ "interrupted" ∷ "head_mismatch" ∷ [])

-- `_bootstrap_approval_missing`
unfoldable pub bootstrap_approval_missing : Json → Bool
bootstrap_approval_missing p =
    let contract = get p "validation_contract" in
    keys_are ("source" ∷ "base_sha" ∷ "adapter_id" ∷ []) contract
    && eq (get contract "source") (str "approved_bootstrap")
    && eq (get contract "adapter_id") (str bootstrap_validation_adapter)

-- `_repair_resume_ready`
unfoldable pub repair_resume_ready : Json → Bool
repair_resume_ready p =
    let brief = get p "repair_brief" in
    (at_checkpoint p "candidate_ready" || at_checkpoint p "validated")
    && is_dict brief
    && eq (get brief "candidate_sha") (get p "candidate_sha")
    && eq (get brief "repair_attempt") (get p "repair_attempts_used")

-- `_validation_attempt_open`
unfoldable pub validation_attempt_open : Json → Bool
validation_attempt_open p =
    is_dict (get p "validation_attempt") && attempt_status p "validation_attempt" ("started" ∷ [])

-- `_validation_outcome_pending`
unfoldable pub validation_outcome_pending : Json → Bool
validation_outcome_pending p =
    at_checkpoint p "candidate_ready"
    && not (has p "validation")
    && is_dict (get p "validation_attempt")
    && attempt_status p "validation_attempt" ("passed" ∷ "rejected" ∷ "inconclusive" ∷ [])

-- `_validation_interruption_attention_pending`
unfoldable pub validation_interruption_attention_pending : Json → Bool
validation_interruption_attention_pending p =
    at_checkpoint p "candidate_ready"
    && eq (get p "attention") (obj end)
    && is_dict (get p "validation_attempt")
    && attempt_status p "validation_attempt" ("interrupted" ∷ [])

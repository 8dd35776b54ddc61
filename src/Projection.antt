-- ===== src/Projection.antt =====
-- `_project` of src/afk/run_store.py: the dict that a Run's identity and Event History determine.
pub mod Update
pub mod Latest
use afk_composable_pipeline.Common.{
  ℕ, String, List, [], ◌∷◌, ◌++◌, Option, none, some, Bool, true, false, not, ◌&&◌, is_empty,
  str_eq, if◌then◌else◌, get_last?, ◌≡◌, refl,
}
use afk_composable_pipeline.Json.{Json, Fields, str, obj, end, field, nat, lookup, put, merge}
use afk_composable_pipeline.Errors.{Result, ok, err, history_corrupt, ◌>>=◌, ◌>>◌, guard}
use afk_composable_pipeline.History.Record.{Event}

-- `run.json`
pub record Identity : Type 0 where
  pub run_id : String
  pub bead_id : String
  pub repository : String
  pub base_branch : String
  pub base_sha : String
  pub created_at : String
  pub start_request : Fields

abbrev pub or_before : Option String → Option String → Option String
or_before none before = before
or_before (some s) before = some s

-- The loop that finds the last state.
unfoldable pub last_state : Option String → List Event → Option String
last_state state [] = state
last_state state (e ∷ es) = last_state (or_before e.state state) es

-- `details`, after the second loop
unfoldable pub details_from : Fields → List Event → Fields
details_from details [] = details
details_from details (e ∷ es) = details_from (merge details e.data_fields) es

abbrev pub checkpoint_step : Option String → String → String
checkpoint_step none before = before
checkpoint_step (some s) before = if str_eq s "attention_required" then before else s

-- `checkpoint`, after the second loop
unfoldable pub checkpoint_from : String → List Event → String
checkpoint_from checkpoint [] = checkpoint
checkpoint_from checkpoint (e ∷ es) = checkpoint_from (checkpoint_step e.state checkpoint) es

unfoldable pub detail_keys : List String
detail_keys =
    "unit" ∷ "worktree_path" ∷ "branch" ∷ "attention" ∷ "lingering" ∷ "validation_contract"
    ∷ "worker_exit_code" ∷ "worker_result" ∷ "implementation_attempt" ∷ "candidate_sha"
    ∷ "candidate_publication" ∷ "candidate_pr" ∷ "pr_number" ∷ "pr_url" ∷ "pr_head_sha" ∷ "pr_ready"
    ∷ "merge" ∷ "remote_branch_deleted" ∷ "bead_closure" ∷ "bead_claim" ∷ "validation"
    ∷ "validation_attempt" ∷ "previous_candidate_sha" ∷ "repair_attempts_used" ∷ "repair_brief"
    ∷ "repair_dispositions" ∷ "gate_cycles" ∷ "gate_retry" ∷ "completion" ∷ "completion_episode"
    ∷ "attention_episode" ∷ "bead_spec" ∷ "interrupted_repair" ∷ "lifecycle_interruption"
    ∷ "supersession" ∷ []

abbrev pub put_some : String → Option Json → Fields → Fields
put_some k none fs = fs
put_some k (some v) fs = put k v fs

-- The loop `if key in details: projection[key] = details[key]`.
unfoldable pub copy_keys : List String → Fields → Fields → Fields
copy_keys [] details projection = projection
copy_keys (k ∷ ks) details projection =
    copy_keys ks details (put_some k (lookup k details) projection)

abbrev pub or_text : Option Json → String → Json
or_text none s = str s
or_text (some v) s = v

-- The dict before the last loop.
unfoldable pub base_fields : Identity → Event → String → Json → Fields
base_fields identity last state checkpoint = field "schema_version" (nat 1) (
    field "run_id" (str identity.run_id) (
      field "bead_id" (str identity.bead_id) (
        field "repository" (str identity.repository) (
          field "base_branch" (str identity.base_branch) (
            field "base_sha" (str identity.base_sha) (
              field "created_at" (str identity.created_at) (
                field "state" (str state) (
                  field "last_sequence" (nat last.sequence) (
                    field "last_event" (str last.event) (
                      field "updated_at" (str last.recorded_at)
                        (field "checkpoint" checkpoint end)))))))))))

unfoldable pub projection_of : Identity → List Event → Event → String → Fields
projection_of identity events last state =
    let details = details_from end events in
    copy_keys detail_keys details (
      base_fields identity last state
        (or_text (lookup "checkpoint" details) (checkpoint_from "created" events)))

-- `not isinstance(state, str) or not state`
abbrev pub required_state : Option String → Result String
required_state none = err (history_corrupt "Event History has no Run State")
required_state (some s) =
    guard (not (is_empty s)) (history_corrupt "Event History has no Run State") >> ok s

abbrev pub required_last : Option Event → Result Event
required_last none = err (history_corrupt "Event History has no durable facts")
required_last (some e) = ok e

-- `_project`
unfoldable pub project : Identity → List Event → Result Fields
project identity events = do
  last ← required_last (get_last? events)
  state ← required_state (last_state none events)
  ok (projection_of identity events last state)

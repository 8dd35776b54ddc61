-- ===== src/Lib.antt =====
-- Verification of the durable core of AFK (src/afk): the Run Store, which is the one record of what
-- an unattended Run did, and the resume, which decides from it alone what the Run needs next.
--
-- A Run is a directory. Its facts are the lines of `events.jsonl`, the Event History; the dict
-- `state.json` is a projection of them. Every step of the program appends a record under the
-- store's lock; an external change is framed by an effect, which is prepared before the change and
-- confirmed after it. A resume reads the history, checks that the attempts that the projection
-- shows are those of the history (the preflight), and tries its rules in the order of the code.
--
--   Common: lists, texts, Python's `sorted`, and Boolean tests on native numbers; Errors: the exceptions
--     of the modelled files, with a function that may raise one as a `Result`.
--   Json: the values that `json` reads and writes, with `get`, `in`, `==`, `{**a, **b}` and the tests
--     of types that the program makes on them; Json/Laws: their laws. A number is an integer.
--   Text: src/afk/durable_id.py, the patterns of SHAs, and `PurePosixPath` (Text/FilePath).
--   Redaction: the walk of src/afk/redaction.py; the regular expressions on one text are a parameter
--     (`TextRules`), as Python's `re` runs them.
--   Attempts: src/afk/implementation_attempt.py.
--   History: `_parse_event_history` and `_append_event_unlocked` of src/afk/run_store.py on the bytes
--     of the file. `json.loads` and `json.dumps` are parameters; the record `Encodes` names what is
--     relied on: for the records at hand the text has no line end, and it is read back. The clock and
--     the captured inventory are arguments of an append. A crash is a write of a part of a record.
--   Projection: `_project` of src/afk/run_store.py.
--   Effects: `prepare_effect`, `effect`, `effect_if_present` and `confirm_effect` of
--     src/afk/run_store.py, as functions of the effect's file.
--   Preflight: src/afk/resume_preflight.py with src/afk/candidate_publication.py and
--     src/afk/candidate_pr_publication.py. A loop over the events is `scan` of a step that may refuse.
--   Resume: from src/afk/start.py the predicates (Ready), the Gate retry (Retry), the interrupted
--     repair (Repair, with a record of src/afk/candidate.py), the records of a validation attempt
--     (Validation) and the decision of `resume_run` (Dispatch): one rule for each of its early returns,
--     in their order.
--   Candidate: `merge_candidate_pr` of src/afk/candidate.py with the functions that it calls (Merge,
--     Merge/Command), and `reconcile_candidate_branch_deletion` (Deletion). What each call of git and
--     of GitHub shows is an argument (`MergeWorld`), and a run of the merge leaves the files of the two
--     effects, whether it sent the merge command, and its result.
--   Episodes: `_episode_marker`, `_validated_attention_episode`, `_validated_completion_episode`,
--     `record_attention_episode`, `_validated_supersession` and `supersede_active_run` of
--     src/afk/run_store.py, on the history and the projection of the Run. ActiveRun takes what the store
--     holds as an argument (`StoreView`): the scan for the Active Run, the pointer, the Runs.
--   Gate: src/afk/candidate_gate.py without its processes and comments: the normalization of a review
--     (Review), the repair brief (Brief) and the decision of a cycle (Cycle), with what
--     `_advance_completed_gate` of src/afk/start.py does with its outcome (Advance) and
--     `_gate_attention_resume_ready` with a sealed one (Stored). `str.lower` and `str` are
--     a parameter (`PythonText`).
--   Retrospective: src/afk/retrospective_outcome.py (Outcome) and src/afk/retrospective_status.py
--     (Status), where what the store observes of a sealed evidence unit is a parameter; the inventory
--     of src/afk/retrospective_contract.py (Inventory); the summary of src/afk/run_summary.py (Summary,
--     and Cached for the sealed one), whose loop takes as fuel one more than the number of parts it
--     can drop; and src/afk/retrospective_result.py (Pointer, Result). What json makes of a text and
--     the digest of a manifest are parameters.
--   Examples: concrete Runs, with the theorems applied to them.
--
-- Every loop but that of `_fit_summary` is a structural recursion on the events, the lines or the
-- value, so that no bound on its length and no fuel is needed. The numbers of Python are unbounded, as
-- those of the model are.
--
-- Not modelled: processes, git, GitHub, containers, sockets, file descriptors, permissions and
-- locks, which are the operating system's and other programs' (src/afk/process_*.py,
-- src/afk/worktree.py, src/afk/candidate*.py but what is named above), the other steps that a resume
-- calls, sealed evidence, and the command line. What a file holds or whether it exists is an
-- argument. Where Python raises TypeError, for a list or a dict that is asked to be a member of a
-- set of texts, the model answers that it is none.
pub mod Common
pub mod Text
pub mod Json
pub mod Errors
pub mod Redaction
pub mod Attempts
pub mod History
pub mod Projection
pub mod Preflight
pub mod Resume
pub mod Effects
pub mod Episodes
pub mod Retrospective
pub mod Gate
pub mod Candidate
pub mod Examples

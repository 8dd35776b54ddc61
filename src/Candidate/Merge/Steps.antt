-- ===== src/Candidate/Merge/Steps.antt =====
-- Predicates on what the steps of `merge_candidate_pr` of src/afk/candidate.py leave.
use afk_composable_pipeline.Common.{Bool, true, false, if◌then◌else◌, ◌≡◌, refl}
use afk_composable_pipeline.Errors.{Failure, Result, ok, err}
use afk_composable_pipeline.Candidate.Merge.{MergeFiles}
use afk_composable_pipeline.Candidate.Merge.Command.{MergeRun, stopped, after}

-- A predicate on what a call and its continuation leave: it holds where the call fails, and of the
-- continuation where the call succeeds.
pub after_case {ℓ} :
    {A : Type ℓ} (P : MergeRun → Type 0) (files : MergeFiles) (commanded : Bool) (call : Result A)
    (next : A → MergeRun)
    → ((failure : Failure) → P (stopped files commanded failure))
    → ((value : A) → call ≡ ok value → P (next value))
    → P (after files commanded call next)
unfolding after
after_case P files commanded (err failure) next stops goes = stops failure
after_case P files commanded (ok value) next stops goes = goes value refl

pub if_case :
    (P : MergeRun → Type 0) (b : Bool) (r s : MergeRun)
    → (b ≡ true → P r)
    → (b ≡ false → P s)
    → P (if b then r else s)
if_case P true r s holds fails = holds refl
if_case P false r s holds fails = fails refl

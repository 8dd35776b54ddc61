-- ===== src/Errors.antt =====
-- The exceptions of src/afk, each with its message, and functions that may raise one.
use afk_composable_pipeline.Common.{Bool, true, false, String, if◌then◌else◌, ◌≡◌, refl, arith}

pub data Failure : Type 0 where
  -- RunStoreError
  store_error : String → Failure
  -- EventHistoryCorrupt
  history_corrupt : String → Failure
  -- RunNotFound
  run_not_found : Failure
  -- ActiveRunExists
  active_run_exists : String → Failure
  -- ResumePreflightInvalid
  preflight_invalid : String → Failure
  -- RetrospectiveContractError of src/afk/retrospective_contract.py
  contract_error : String → Failure
  -- RetrospectiveResultError of src/afk/retrospective_result.py
  result_error : String → Failure
  -- GateError of src/afk/candidate_gate.py, its kind and its summary
  gate_error : String → String → Failure
  -- CandidateError of src/afk/candidate.py, its kind and its summary
  candidate_error : String → String → Failure

pub data Result {ℓ} (A : Type ℓ) : Type ℓ where
  err : Failure → Result A
  ok : A → Result A

-- `if not passes: raise failure`
abbrev pub guard : Bool → Failure → Result (Unit {0})
guard passes failure = if passes then ok tt else err failure

-- What follows runs on the value of a call that raised nothing.
abbrev pub then_run {ℓ κ} : {A : Type ℓ} {B : Type κ} → (A → Result B) → Result A → Result B
then_run next (err failure) = err failure
then_run next (ok value) = next value

infixl 10 ◌>>=◌ ◌>>◌
abbrev pub ◌>>=◌ {ℓ κ} : {A : Type ℓ} {B : Type κ} → Result A → (A → Result B) → Result B
call >>= next = then_run next call

abbrev pub ◌>>◌ {ℓ} : {B : Type ℓ} → Result (Unit {0}) → Result B → Result B
check >> rest = then_run (λ _. rest) check

-- A call that succeeded together with what followed it.
pub succeeded {ℓ κ} :
    {A : Type ℓ} {B : Type κ} {next : A → Result B} {b : B} (call : Result A)
    → then_run next call ≡ ok b
    → (value : A) × (next value ≡ ok b) × (call ≡ ok value)
succeeded (err failure) q = ground arith
succeeded (ok value) q = (value, q, refl)

-- What stands behind a check that passed.
pub passed_check {ℓ} :
    {A : Type ℓ} {a : A} (b : Bool) (failure : Failure) (rest : Result A)
    → (guard b failure >> rest) ≡ ok a
    → (b ≡ true) × (rest ≡ ok a)
passed_check true failure rest q = (refl, q)
passed_check false failure rest q = ground arith

pub same_value {ℓ} : {A : Type ℓ} {a b : A} → ok a ≡ ok b → a ≡ b
same_value q = ground arith

-- ===== src/Verification/Sealed.antt =====
-- `SealedTestBaselineService.verify` and `BaselineVerificationService.verify` of
-- src/repopilot/services/verification_service.py.
use acoding_agent.Prelude.{
  ℕ, Bool, ◌&&◌, ◌||◌, ◌==◌, Option, none, some, List, [], ◌∷◌, ◌++◌, is_empty, Text, codes,
  text_eq, starts_with, if◌then◌else◌,
}
use acoding_agent.Prelude.Checked.{Checked, accepted, ◌>>=◌}
use acoding_agent.Verification.Reports.{
  Expectation, Outcome, same_outcome, TestCaseSpec, BaselineReport, Mismatch,
  SealedTestBaselineReport,
}
use acoding_agent.Verification.Commands.{
  Error, Executable, RunCommandRequest, inspect_source_archive, discover_test_command,
}
use acoding_agent.Verification.Summaries.{
  CommandResult, Reading, combined_output, summarize, is_runnable,
}
use acoding_agent.Verification.Candidate.{Sandbox}

-- `test_id.rsplit("::", 1)[-1]`: the part behind the last two colons; `best` is it so far. Of three
-- colons the last two separate.
abbrev pub leaf_from : Text → Text → Text
leaf_from best [] = best
leaf_from best (c ∷ []) = best
leaf_from best (c ∷ d ∷ cs) = leaf_from (if c == b':' && d == b':' then cs else best) (d ∷ cs)

abbrev pub leaf_of : Text → Text
leaf_of test_id = leaf_from test_id test_id

-- Whether an observed test id belongs to the case.
abbrev pub is_case : Text → Text → Bool
is_case case_name test_id =
    let leaf = leaf_of test_id in
    text_eq test_id case_name || text_eq leaf case_name || starts_with (case_name ++ codes "[") leaf

-- `_find_case_outcome`
unfoldable pub find_case_outcome : Text → List (Text × Outcome) → Outcome
find_case_outcome case_name [] = Outcome.missing
find_case_outcome case_name ((test_id, outcome) ∷ rest) =
    if is_case case_name test_id then outcome else find_case_outcome case_name rest

-- A dictionary keeps the place of the first value under a key, and the last value.
unfoldable pub put : Text → Outcome → List (Text × Outcome) → List (Text × Outcome)
put key value [] = (key, value) ∷ []
put key value ((k, v) ∷ rest) =
    if text_eq key k then (k, value) ∷ rest else (k, v) ∷ put key value rest

unfoldable pub to_dict : List (Text × Outcome) → List (Text × Outcome) → List (Text × Outcome)
unfolding put
to_dict d [] = d
to_dict d ((key, value) ∷ rest) = to_dict (put key value d) rest

-- `_EXPECTED_BASE_OUTCOME`
abbrev pub expected_base_outcome : Expectation → Option Outcome
expected_base_outcome Expectation.pass = some Outcome.passed
expected_base_outcome Expectation.fail = some Outcome.failed
expected_base_outcome Expectation.skip = some Outcome.skipped
expected_base_outcome Expectation.not_applicable = none

abbrev pub mismatch_of : TestCaseSpec → Outcome → List Mismatch
mismatch_of case observed = elim (expected_base_outcome case.expected_on_base) [
  | none ↦ []
  | some expected ↦
      if same_outcome observed expected
      then []
      else Mismatch.unexpected case.name expected observed ∷ []
]

unfoldable pub case_mismatches : List (Text × Outcome) → List TestCaseSpec → List Mismatch
unfolding find_case_outcome same_outcome
case_mismatches observed [] = []
case_mismatches observed (case ∷ cases) =
    mismatch_of case (find_case_outcome case.name observed) ++ case_mismatches observed cases

unfoldable pub case_outcomes_of :
    List (Text × Outcome) → List TestCaseSpec → List (Text × Outcome) → List (Text × Outcome)
unfolding find_case_outcome put
case_outcomes_of observed [] d = d
case_outcomes_of observed (case ∷ cases) d =
    case_outcomes_of observed cases (put case.name (find_case_outcome case.name observed) d)

-- The command of the sealed tests on the base.
abbrev pub verbose_command : ℕ → RunCommandRequest
verbose_command timeout_seconds = record {
  executable = Executable.python;
  args = codes "-m" ∷ codes "pytest" ∷ codes "-vv" ∷ codes ".repopilot/sealed_tests" ∷ [];
  cwd = codes "/workspace";
  timeout_seconds = timeout_seconds;
}

abbrev pub command_line : RunCommandRequest → List Text
command_line request =
    elim request.executable [
      | Executable.python ↦ codes "python"
      | Executable.pytest ↦ codes "pytest"
      | Executable.ruff ↦ codes "ruff"
      | Executable.mypy ↦ codes "mypy"
    ]
    ∷ request.args

-- The report from the result of the command.
unfoldable pub sealed_report :
    Reading
    → (base_revision : Text) → (cases : List TestCaseSpec) → RunCommandRequest
    → CommandResult
    → SealedTestBaselineReport
unfolding to_dict case_mismatches case_outcomes_of summarize
sealed_report r base_revision cases command result =
    let observed = to_dict [] (r.find_outcomes (combined_output r result)) in
    let found = case_mismatches observed cases in
    let runnable = is_runnable result in
    let mismatches =
      if runnable then found else found ++ (Mismatch.not_runnable result.exit_code ∷ []) in
    record {
      base_revision = base_revision;
      valid = runnable && is_empty mismatches;
      runnable = runnable;
      command = command_line command;
      summary = summarize r result;
      case_outcomes = case_outcomes_of observed cases [];
      mismatches = mismatches;
      details_ref = result.stdout_ref;
    }

-- `SealedTestBaselineService.verify`, behind the check of the scope of its inputs.
abbrev pub verify_sealed :
    (RunCommandRequest → CommandResult)
    → Reading
    → Text
    → List TestCaseSpec
    → ℕ
    → SealedTestBaselineReport
verify_sealed execute r base_revision cases timeout_seconds =
    let command = verbose_command timeout_seconds in
    sealed_report r base_revision cases command (execute command)

-- `BaselineVerificationService.verify`
unfoldable pub verify_baseline :
    Sandbox
    → Reading
    → (base_revision : Text) → (test_config_paths : List Text) → ℕ
    → Checked Error BaselineReport
verify_baseline s r base_revision test_config_paths timeout_seconds = do
  inventory ← inspect_source_archive s.members
  command ← discover_test_command s.loads test_config_paths inventory timeout_seconds
  let result = s.execute 0 command
  accepted (record {
    base_revision = base_revision;
    runnable = is_runnable result;
    command = command_line command;
    summary = summarize r result;
    details_ref = result.stdout_ref;
  })

-- ===== src/Verification/Candidate.antt =====
-- `CandidateVerificationService.verify` of src/repopilot/services/verification_service.py: the commands of
-- a candidate, its findings and its verdict.
use acoding_agent.Prelude.{
  ℕ, suc, Bool, true, false, ◌&&◌, ◌||◌, not, ◌==◌, Option, none, some, List, [], ◌∷◌, ◌++◌, all,
  is_empty, length, map, Text, codes, mem_text, if◌then◌else◌,
}
use acoding_agent.Prelude.Checked.{Checked, accepted, ◌>>=◌}
use acoding_agent.Run.World.{ArtifactRef}
use acoding_agent.Verification.Reports.{
  TestSummary, BaselineReport, Severity, Category, Message, VerificationFinding, VerificationReport,
}
use acoding_agent.Verification.Commands.{
  Error, Entries, Member, Executable, RunCommandRequest, inspect_source_archive,
  discover_test_command,
}
use acoding_agent.Verification.Summaries.{CommandResult, Reading, summarize, merge_summaries}

-- `test_id.split("::", 1)[0]`
abbrev pub before_colons : Text → Text
before_colons [] = []
before_colons (c ∷ []) = c ∷ []
before_colons (c ∷ d ∷ cs) =
    let rest = before_colons (d ∷ cs) in if c == b':' && d == b':' then [] else c ∷ rest

abbrev pub blocking : Message → VerificationFinding
blocking message = record {
  file_path = none;
  severity = Severity.blocker;
  category = Category.test;
  message = message;
}

-- The finding of a failing test.
abbrev pub finding_of : List Text → Text → VerificationFinding
finding_of baseline_failures test_id =
    if mem_text test_id baseline_failures
    then record {
      file_path = some (before_colons test_id);
      severity = Severity.minor;
      category = Category.test;
      message = Message.old_failure test_id;
    }
    else record {
      file_path = some (before_colons test_id);
      severity = Severity.blocker;
      category = Category.regression;
      message = Message.new_failure test_id;
    }

abbrev pub append_if : Bool → Message → List VerificationFinding → List VerificationFinding
append_if true message findings = findings ++ (blocking message ∷ [])
append_if false message findings = findings

-- The last finding, for an exit code that nothing explains.
abbrev pub explain_exit : Option ℕ → List VerificationFinding → List VerificationFinding
explain_exit none findings = findings
explain_exit (some code) findings =
    append_if (not (code == 0) && is_empty findings) (Message.unexplained_exit code) findings

-- `_build_findings`
unfoldable pub build_findings : CommandResult → TestSummary → List Text → List VerificationFinding
build_findings result summary baseline_failures =
    let early =
      append_if result.oom_killed Message.oom_killed
        (append_if result.timed_out Message.timed_out []) in
    explain_exit result.exit_code
      (early ++ map (finding_of baseline_failures) summary.failed_test_ids)

-- The test ids that are not in the baseline.
unfoldable pub regressions_of : List Text → List Text → List Text
regressions_of baseline_failures [] = []
regressions_of baseline_failures (t ∷ ts) =
    let rest = regressions_of baseline_failures ts in
    if mem_text t baseline_failures then rest else t ∷ rest

-- The condition on each result of `passed`.
abbrev pub exit_allows : Option ℕ → TestSummary → List Text → Bool
exit_allows none summary baseline_failures = false
exit_allows (some code) summary baseline_failures =
    code == 0
    || (code == 1
        && not (is_empty summary.failed_test_ids)
        && length summary.failed_test_ids == summary.failed
        && all (λ t. mem_text t baseline_failures) summary.failed_test_ids)

abbrev pub is_acceptable : List Text → CommandResult × TestSummary → Bool
is_acceptable baseline_failures (result, summary) =
    not result.timed_out
    && not result.oom_killed
    && exit_allows result.exit_code summary baseline_failures

unfoldable pub all_findings :
    List Text → List (CommandResult × TestSummary) → List VerificationFinding
all_findings baseline_failures [] = []
all_findings baseline_failures ((result, summary) ∷ rest) =
    build_findings result summary baseline_failures ++ all_findings baseline_failures rest

-- The report from the results of the commands.
unfoldable pub report_of :
    Text
    → ArtifactRef
    → BaselineReport
    → ArtifactRef
    → List (CommandResult × TestSummary)
    → VerificationReport
unfolding build_findings regressions_of all_findings
report_of candidate_revision baseline_report_ref baseline combined_log_ref results =
    let candidate_summary = merge_summaries (map (λ (result, summary). summary) results) in
    let baseline_failures = baseline.summary.failed_test_ids in
    let regressions = regressions_of baseline_failures candidate_summary.failed_test_ids in
    record {
      candidate_revision = candidate_revision;
      baseline_report_ref = baseline_report_ref;
      passed = is_empty regressions && all (is_acceptable baseline_failures) results;
      findings = all_findings baseline_failures results;
      baseline_summary = baseline.summary;
      candidate_summary = candidate_summary;
      regression_test_ids = regressions;
      regression_count = length regressions;
      stdout_ref = some combined_log_ref;
    }

-- What a verification uses from outside: the members of the archive, `tomllib`, the answers of the
-- sandbox to its commands, which are numbered from 0, and the reference of the combined log.
pub record Sandbox : Type 0 where
  pub members : Option (List Member)
  pub loads : Text → Option Entries
  pub execute : ℕ → RunCommandRequest → CommandResult
  pub combine_logs : List CommandResult → ArtifactRef

-- The command for the sealed tests.
abbrev pub sealed_command : ℕ → RunCommandRequest
sealed_command timeout_seconds = record {
  executable = Executable.python;
  args = codes "-m" ∷ codes "pytest" ∷ codes "-q" ∷ codes ".repopilot/sealed_tests" ∷ [];
  cwd = codes "/workspace";
  timeout_seconds = timeout_seconds;
}

abbrev pub commands_of : RunCommandRequest → Option ArtifactRef → ℕ → List RunCommandRequest
commands_of command none timeout_seconds = command ∷ []
commands_of command (some bundle) timeout_seconds = command ∷ sealed_command timeout_seconds ∷ []

unfoldable pub execute_all :
    (ℕ → RunCommandRequest → CommandResult) → ℕ → List RunCommandRequest → List CommandResult
execute_all execute n [] = []
execute_all execute n (request ∷ rest) = execute n request ∷ execute_all execute (suc n) rest

-- `verify`: the report that is stored.
unfoldable pub verify :
    Sandbox
    → Reading
    → (test_config_paths : List Text) → BaselineReport
    → (baseline_report_ref : ArtifactRef) → (candidate_revision : Text)
    → (test_bundle_ref : Option ArtifactRef) → (timeout_seconds : ℕ)
    → Checked Error VerificationReport
unfolding report_of execute_all
verify s r test_config_paths baseline baseline_report_ref candidate_revision test_bundle_ref
      timeout_seconds =
    do
      inventory ← inspect_source_archive s.members
      command ← discover_test_command s.loads test_config_paths inventory timeout_seconds
      let results = execute_all s.execute 0 (commands_of command test_bundle_ref timeout_seconds)
      accepted (
          report_of candidate_revision baseline_report_ref baseline (s.combine_logs results)
            (map (λ result. (result, summarize r result)) results))

-- ===== src/Verification/Tests.antt =====
-- A candidate that breaks one test and keeps another broken, sealed tests and a review.
use acoding_agent.Prelude.{
  ℕ, ◌≡◌, refl, true, false, ◌&&◌, not, Option, none, some, List, [], ◌∷◌, all, any, Text, codes,
  mem_text, if◌then◌else◌, from_keys, sorted_texts, without,
}
use acoding_agent.Prelude.Tables.{sum}
use acoding_agent.Prelude.Checked.{accepted, ◌>>=◌, ◌>>◌, refuse_if, found_or}
use acoding_agent.Run.World.{ArtifactRef}
use acoding_agent.Verification.Reports.{
  Expectation, Outcome, same_outcome, Purpose, TestCaseSpec, TestSummary, BaselineReport,
  VerificationReport,
}
use acoding_agent.Verification.Reviews.{
  QaCheck, QaOutcome, QaCheckResult, QaReport, all_standard_checks_are_reported, mem_check,
  repeats_check, ReviewCategory, is_block_category, Disposition, ReviewDecision, Decision,
  is_approve, is_valid_decision,
}
use acoding_agent.Verification.Commands.{
  inventory_of, inspect_source_archive, lookup, discover_test_command,
}
use acoding_agent.Verification.Summaries.{
  CommandResult, Reading, max_count, summarize, merge_summaries, all_failed_ids, combined_output,
}
use acoding_agent.Verification.Candidate.{
  build_findings, finding_of, regressions_of, all_findings, report_of, Sandbox, execute_all, verify,
}
use acoding_agent.Verification.Sealed.{
  find_case_outcome, to_dict, sealed_report, case_mismatches, verbose_command, put,
}
use acoding_agent.Verification.Verdicts.{is_new_failure, not_blocking}
use acoding_agent.Verification.Promises.{verify-passed, verify-regression, verify-regressions}
use acoding_agent.Verification.Contracts.{
  ran_to_the_end, is_as_declared, sealed_report-valid, is_reported, QaReport-passed, is_serious,
  is_valid_decision-approve,
}

abbrev out : ArtifactRef
out = record { artifact_id = 1; run_id = 1 }

abbrev err : ArtifactRef
err = record { artifact_id = 2; run_id = 1 }

abbrev old_id : Text
old_id = codes "tests/a.py::old"

abbrev new_id : Text
new_id = codes "tests/a.py::new"

abbrev reading_with : List Text → Reading
reading_with ids = record {
  read = λ ref. [];
  find_counts = λ text. (3, Outcome.passed) ∷ (1, Outcome.failed) ∷ [];
  find_failed_ids = λ text. ids;
  find_outcomes = λ text. (codes "t.py::test_x[1]", Outcome.failed) ∷ [];
}

abbrev result_with : Option ℕ → CommandResult
result_with code = record {
  exit_code = code;
  timed_out = false;
  oom_killed = false;
  duration_ms = 5;
  stdout_ref = out;
  stderr_ref = err;
}

abbrev sandbox_with : Option ℕ → Sandbox
sandbox_with code = record {
  members = some (record { name = codes "tests/a.py"; is_file = true; content = [] } ∷ []);
  loads = λ text. none;
  execute = λ n request. result_with code;
  combine_logs = λ results. out;
}

abbrev baseline : BaselineReport
baseline = record {
  base_revision = [];
  runnable = true;
  command = [];
  summary = record { passed = 3; failed = 1; skipped = 0; failed_test_ids = old_id ∷ [] };
  details_ref = out;
}

abbrev candidate_summary : List Text → TestSummary
candidate_summary ids = record { passed = 3; failed = 1; skipped = 0; failed_test_ids = ids }

abbrev kept_report : VerificationReport
kept_report = record {
  candidate_revision = [];
  baseline_report_ref = err;
  passed = true;
  findings = finding_of (old_id ∷ []) old_id ∷ [];
  baseline_summary = baseline.summary;
  candidate_summary = candidate_summary (old_id ∷ []);
  regression_test_ids = [];
  regression_count = 0;
  stdout_ref = some out;
}

abbrev broken_report : VerificationReport
broken_report = record {
  candidate_revision = [];
  baseline_report_ref = err;
  passed = false;
  findings = finding_of (old_id ∷ []) new_id ∷ [];
  baseline_summary = baseline.summary;
  candidate_summary = candidate_summary (new_id ∷ []);
  regression_test_ids = new_id ∷ [];
  regression_count = 1;
  stdout_ref = some out;
}

kept :
    verify (sandbox_with (some 1)) (reading_with (old_id ∷ [])) [] baseline err [] none 600
    ≡ accepted kept_report
unfolding verify ◌>>=◌ ◌>>◌ refuse_if found_or inspect_source_archive inventory_of
    discover_test_command lookup report_of build_findings regressions_of all_findings
    merge_summaries execute_all summarize max_count from_keys without sorted_texts sum
    all_failed_ids same_outcome
kept = refl

broken :
    verify (sandbox_with (some 1)) (reading_with (new_id ∷ [])) [] baseline err [] none 600
    ≡ accepted broken_report
unfolding verify ◌>>=◌ ◌>>◌ refuse_if found_or inspect_source_archive inventory_of
    discover_test_command lookup report_of build_findings regressions_of all_findings
    merge_summaries execute_all summarize max_count from_keys without sorted_texts sum
    all_failed_ids same_outcome
broken = refl

verify-passed_example :
    (all (λ t. mem_text t (old_id ∷ [])) kept_report.candidate_summary.failed_test_ids ≡ true)
    × (all not_blocking kept_report.findings ≡ true)
verify-passed_example =
    verify-passed (sandbox_with (some 1)) (reading_with (old_id ∷ [])) [] baseline err [] none 600
      kept_report kept refl

verify-regression_example :
    (mem_text new_id (old_id ∷ []) ≡ false)
    × (broken_report.passed ≡ false)
    × (any (is_new_failure new_id) broken_report.findings ≡ true)
verify-regression_example =
    verify-regression (sandbox_with (some 1)) (reading_with (new_id ∷ [])) [] baseline err [] none
      600 broken_report new_id broken refl

verify-regressions_example : mem_text new_id broken_report.regression_test_ids ≡ (
    mem_text new_id broken_report.candidate_summary.failed_test_ids
    && not (mem_text new_id baseline.summary.failed_test_ids))
verify-regressions_example =
    verify-regressions (sandbox_with (some 1)) (reading_with (new_id ∷ [])) [] baseline err [] none
      600 broken_report new_id broken

-- An exit code that is not of the tests, with failures that the base has: not passed, and no blocker.
not_passed_without_blocker :
    (report_of [] err baseline out
      ((result_with (some 2), candidate_summary (old_id ∷ [])) ∷ [])).passed
    ≡ false
unfolding report_of merge_summaries regressions_of from_keys all_failed_ids without
not_passed_without_blocker = refl

no_blocker :
    all not_blocking
      (build_findings (result_with (some 2)) (candidate_summary (old_id ∷ [])) (old_id ∷ []))
    ≡ true
unfolding build_findings
no_blocker = refl

abbrev cases : List TestCaseSpec
cases =
    record {
      name = codes "test_x";
      purpose = Purpose.bug_reproduction;
      expected_on_base = Expectation.fail;
    }
    ∷ []

sealed_report-valid_example :
    (sealed_report (reading_with []) [] cases (verbose_command 600) (result_with (some 1))).valid
    ≡ (ran_to_the_end (result_with (some 1))
        && all
            (is_as_declared (
              to_dict [] (
                (reading_with []).find_outcomes
                  (combined_output (reading_with []) (result_with (some 1))))))
            cases)
sealed_report-valid_example =
    sealed_report-valid (reading_with []) [] cases (verbose_command 600) (result_with (some 1))

sealed_valid :
    (sealed_report (reading_with []) [] cases (verbose_command 600) (result_with (some 1))).valid
    ≡ true
unfolding sealed_report case_mismatches to_dict find_case_outcome same_outcome put
sealed_valid = refl

abbrev passing : QaCheck → QaCheckResult
passing check = record { check = check; outcome = QaOutcome.passed; details = [] }

abbrev qa_report : QaReport
qa_report = record {
  checks =
      passing QaCheck.scope_check
      ∷ passing QaCheck.acceptance_tests
      ∷ passing QaCheck.targeted_tests
      ∷ [];
  passed = true;
}

qa_valid : all_standard_checks_are_reported qa_report ≡ true
unfolding all_standard_checks_are_reported mem_check repeats_check
qa_valid = refl

QaReport-passed_example : is_reported QaCheck.targeted_tests qa_report.checks ≡ true
QaReport-passed_example = QaReport-passed qa_report QaCheck.targeted_tests qa_valid refl

abbrev decision : ReviewDecision
decision = record {
  decision = Decision.request_changes;
  findings =
      record {
        file_path = none;
        category = ReviewCategory.scope;
        disposition = Disposition.block;
        message = [];
      }
      ∷ [];
  rationale = [];
}

decision_valid : is_valid_decision decision ≡ true
unfolding is_valid_decision
decision_valid = refl

is_valid_decision-approve_example :
    (if is_approve decision.decision
      then not (any is_serious decision.findings)
      else any (λ finding. is_block_category finding.category) decision.findings)
    ≡ true
is_valid_decision-approve_example = is_valid_decision-approve decision decision_valid

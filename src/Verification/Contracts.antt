-- ===== src/Verification/Contracts.antt =====
-- What the reports of the sealed tests, of QA and of the review mean.
use acoding_agent.Prelude.{
  ◌≡◌, refl, ◌∙◌, Bool, true, false, leb, ◌&&◌, ◌||◌, not, subst, ap, none, codes, text_eq,
  starts_with, some, List, [], ◌∷◌, ◌++◌, all, any, is_empty, map, Text, if◌then◌else◌, arith,
  Bool-cases, inl, inr, is_yes,
}
use acoding_agent.Verification.Reports.{Expectation, Outcome, same_outcome, TestCaseSpec}
use acoding_agent.Verification.Reviews.{
  QaCheck, QaCheck-discrete, mem_check, QaCheckResult, QaReport, is_passed,
  all_standard_checks_are_reported, is_block_category, is_error_handling, is_block, ReviewFinding,
  ReviewDecision, is_approve, disposition_matches_category, is_valid_decision,
}
use acoding_agent.Verification.Commands.{RunCommandRequest}
use acoding_agent.Verification.Summaries.{CommandResult, Reading, combined_output, is_runnable}
use acoding_agent.Verification.Sealed.{
  leaf_of, find_case_outcome, expected_base_outcome, to_dict, mismatch_of, case_mismatches,
  sealed_report,
}

-- Whether a command ended by itself with the exit code 0 or 1: it did not run out of time or of memory.
abbrev pub ran_to_the_end : CommandResult → Bool
ran_to_the_end result =
    not (result.timed_out || result.oom_killed)
    && elim result.exit_code [ none ↦ false | some n ↦ leb n 1 ]

-- Whether a test id is that of a case or of one of its parameters: it is the name of the case, or what
-- stands behind its last two colons is the name, or the name with an opening bracket.
abbrev pub is_test_of : Text → Text → Bool
is_test_of name test_id =
    text_eq test_id name
    || text_eq (leaf_of test_id) name
    || starts_with (name ++ codes "[") (leaf_of test_id)

-- The outcomes of all tests of a case, in their order.
unfoldable pub outcomes_of : Text → List (Text × Outcome) → List Outcome
outcomes_of name [] = []
outcomes_of name ((test_id, outcome) ∷ rest) =
    (if is_test_of name test_id then outcome ∷ [] else []) ++ outcomes_of name rest

-- The first of some outcomes.
abbrev pub first_of : List Outcome → Outcome
first_of [] = Outcome.missing
first_of (outcome ∷ others) = outcome

-- Whether an outcome is what a plan declares.
abbrev pub is_as_expected : Expectation → Outcome → Bool
is_as_expected Expectation.pass Outcome.passed = true
is_as_expected Expectation.fail Outcome.failed = true
is_as_expected Expectation.skip Outcome.skipped = true
is_as_expected Expectation.not_applicable _ = true
is_as_expected _ _ = false

is_empty-append : {A : Type 0} (xs ys : List A) → is_empty (xs ++ ys) ≡ (is_empty xs && is_empty ys)
is_empty-append [] ys = refl
is_empty-append (x ∷ xs) ys = refl

-- Whether a case did on the base what its plan declares.
abbrev pub is_as_declared : List (Text × Outcome) → TestCaseSpec → Bool
is_as_declared observed case =
    is_as_expected case.expected_on_base (first_of (outcomes_of case.name observed))

find_case_outcome-first_of :
    (name : Text) (observed : List (Text × Outcome))
    → find_case_outcome name observed ≡ first_of (outcomes_of name observed)
unfolding find_case_outcome outcomes_of
find_case_outcome-first_of name [] = refl
find_case_outcome-first_of name ((test_id, outcome) ∷ rest) =
    elim (Bool-cases (is_test_of name test_id)) [
      | inl same ↦ rw (same) refl
      | inr other ↦ rw (other) (find_case_outcome-first_of name rest)
    ]

compared-is_as_expected :
    (e : Expectation) (o : Outcome)
    → (elim (expected_base_outcome e) [ none ↦ true | some expected ↦ same_outcome o expected ])
      ≡ is_as_expected e o
unfolding same_outcome
compared-is_as_expected Expectation.pass Outcome.passed = refl
compared-is_as_expected Expectation.pass Outcome.failed = refl
compared-is_as_expected Expectation.pass Outcome.skipped = refl
compared-is_as_expected Expectation.pass Outcome.missing = refl
compared-is_as_expected Expectation.fail Outcome.passed = refl
compared-is_as_expected Expectation.fail Outcome.failed = refl
compared-is_as_expected Expectation.fail Outcome.skipped = refl
compared-is_as_expected Expectation.fail Outcome.missing = refl
compared-is_as_expected Expectation.skip Outcome.passed = refl
compared-is_as_expected Expectation.skip Outcome.failed = refl
compared-is_as_expected Expectation.skip Outcome.skipped = refl
compared-is_as_expected Expectation.skip Outcome.missing = refl
compared-is_as_expected Expectation.not_applicable o = refl

mismatch_of-is_as_expected :
    (case : TestCaseSpec) (o : Outcome)
    → is_empty (mismatch_of case o) ≡ is_as_expected case.expected_on_base o
mismatch_of-is_as_expected case o = ground (arith, compared-is_as_expected case.expected_on_base o)

is_runnable-ran_to_the_end : (result : CommandResult) → is_runnable result ≡ ran_to_the_end result
is_runnable-ran_to_the_end result = ground arith

no_mismatch :
    (observed : List (Text × Outcome)) (case : TestCaseSpec)
    → is_empty (mismatch_of case (find_case_outcome case.name observed))
      ≡ is_as_declared observed case
no_mismatch observed case =
    mismatch_of-is_as_expected case (find_case_outcome case.name observed)
    ∙ ap (is_as_expected case.expected_on_base) (find_case_outcome-first_of case.name observed)

no_mismatches :
    (observed : List (Text × Outcome)) (cases : List TestCaseSpec)
    → is_empty (case_mismatches observed cases) ≡ all (is_as_declared observed) cases
unfolding case_mismatches
no_mismatches observed [] = refl
no_mismatches observed (case ∷ cases) =
    is_empty-append (mismatch_of case (find_case_outcome case.name observed))
      (case_mismatches observed cases)
    ∙ ground (arith, no_mismatch observed case, no_mismatches observed cases)

-- The report of the sealed tests on the base is valid exactly if the command ended by itself with the exit
-- code 0 or 1, neither out of time nor out of memory, and every case did what the plan declares for the
-- base: the first of the case's tests in the output passed, failed or was skipped, or nothing is declared.
pub sealed_report-valid :
    (r : Reading) (base_revision : Text) (cases : List TestCaseSpec) (command : RunCommandRequest)
    (result : CommandResult)
    → (sealed_report r base_revision cases command result).valid ≡ (
        ran_to_the_end result
        && all (is_as_declared (to_dict [] (r.find_outcomes (combined_output r result)))) cases)
unfolding sealed_report
sealed_report-valid r base_revision cases command result =
    let observed = to_dict [] (r.find_outcomes (combined_output r result)) in
    subst
      (λ ran.
        (sealed_report r base_revision cases command result).valid
        ≡ (ran && all (is_as_declared observed) cases))
      (is_runnable-ran_to_the_end result)
      (elim (Bool-cases (is_runnable result)) [
        | inl ran ↦ rw ran (no_mismatches observed cases)
        | inr not_ran ↦ rw not_ran refl
      ])

-- Whether a report has a passing result of the check.
abbrev pub is_reported : QaCheck → List QaCheckResult → Bool
is_reported check results =
    any (λ result. is_yes (QaCheck-discrete check result.check) && is_passed result.outcome) results

reported_passing :
    (check : QaCheck) (results : List QaCheckResult)
    → mem_check check (map QaCheckResult.check results) ≡ true
    → all (λ result. is_passed result.outcome) results ≡ true
    → is_reported check results ≡ true
unfolding mem_check
reported_passing check [] m h = cc
reported_passing check (result ∷ results) m h = ground (arith, reported_passing check results)

-- A QA report that its validator accepts and that passes has a passing result of every standard check.
pub QaReport-passed :
    (report : QaReport) (check : QaCheck)
    → all_standard_checks_are_reported report ≡ true
    → report.passed ≡ true
    → is_reported check report.checks ≡ true
unfolding all_standard_checks_are_reported
QaReport-passed report QaCheck.acceptance_tests h p =
    reported_passing QaCheck.acceptance_tests report.checks (ground arith) (ground arith)
QaReport-passed report QaCheck.targeted_tests h p =
    reported_passing QaCheck.targeted_tests report.checks (ground arith) (ground arith)
QaReport-passed report QaCheck.scope_check h p =
    reported_passing QaCheck.scope_check report.checks (ground arith) (ground arith)

-- A finding that the decision may not approve.
abbrev pub is_serious : ReviewFinding → Bool
is_serious finding = is_block_category finding.category && not (is_error_handling finding.category)

serious_blocks :
    (findings : List ReviewFinding)
    → all disposition_matches_category findings ≡ true
    → any is_serious findings ≡ true
    → any (λ finding. is_block finding.disposition) findings ≡ true
serious_blocks [] h k = cc
serious_blocks (f ∷ findings) h k = ground (arith, serious_blocks findings)

block_is_serious :
    (findings : List ReviewFinding)
    → all disposition_matches_category findings ≡ true
    → any (λ finding. is_block finding.disposition) findings ≡ true
    → any (λ finding. is_block_category finding.category) findings ≡ true
block_is_serious [] h k = cc
block_is_serious (f ∷ findings) h k = ground (arith, block_is_serious findings)

-- A review decision that its validators accept approves only if no finding is in a blocking category
-- other than the handling of errors, and does not approve only if some finding is in a blocking category.
pub is_valid_decision-approve :
    (d : ReviewDecision)
    → is_valid_decision d ≡ true
    → (if is_approve d.decision
        then not (any is_serious d.findings)
        else any (λ finding. is_block_category finding.category) d.findings)
      ≡ true
unfolding is_valid_decision
is_valid_decision-approve d h =
    ground (arith, serious_blocks d.findings, block_is_serious d.findings)

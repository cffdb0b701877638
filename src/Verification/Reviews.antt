-- ===== src/Verification/Reviews.antt =====
-- The validators of src/repopilot/domain/verification.py for the reports of QA and review.
use acoding_agent.Prelude.{
  Bool, true, false, ◌&&◌, ◌||◌, not, is_yes, Option, List, [], ◌∷◌, all, any, map, Text,
}

pub data QaCheck : Type 0 where
  acceptance_tests targeted_tests scope_check : QaCheck

pub QaCheck-discrete : Discrete QaCheck
QaCheck-discrete = hlevel

unfoldable pub mem_check : QaCheck → List QaCheck → Bool
unfolding QaCheck-discrete
mem_check check checks = any (λ c. is_yes (QaCheck-discrete check c)) checks

abbrev pub standard_qa_checks : List QaCheck
standard_qa_checks = QaCheck.acceptance_tests ∷ QaCheck.targeted_tests ∷ QaCheck.scope_check ∷ []

pub data QaOutcome : Type 0 where
  passed failed : QaOutcome

abbrev pub is_passed : QaOutcome → Bool
is_passed QaOutcome.passed = true
is_passed QaOutcome.failed = false

pub record QaCheckResult : Type 0 where
  pub check : QaCheck
  pub outcome : QaOutcome
  pub details : Text

pub record QaReport : Type 0 where
  pub checks : List QaCheckResult
  pub passed : Bool

unfoldable pub repeats_check : List QaCheck → Bool
unfolding mem_check
repeats_check [] = false
repeats_check (c ∷ cs) = mem_check c cs || repeats_check cs

abbrev pub same_bool : Bool → Bool → Bool
same_bool true b = b
same_bool false b = not b

-- `_all_standard_checks_are_reported`: whether the report is accepted.
unfoldable pub all_standard_checks_are_reported : QaReport → Bool
unfolding mem_check repeats_check
all_standard_checks_are_reported report =
    let names = map QaCheckResult.check report.checks in
    not (repeats_check names)
    && all (λ c. mem_check c names) standard_qa_checks
    && same_bool report.passed (all (λ result. is_passed result.outcome) report.checks)

pub data ReviewCategory : Type 0 where
  acceptance_criteria scope regression security error_handling api_contract : ReviewCategory
  unnecessary_dependency test_bypass test_change_hides_bug : ReviewCategory
  naming refactoring documentation style : ReviewCategory

abbrev pub is_block_category : ReviewCategory → Bool
is_block_category ReviewCategory.naming = false
is_block_category ReviewCategory.refactoring = false
is_block_category ReviewCategory.documentation = false
is_block_category ReviewCategory.style = false
is_block_category _ = true

pub data Disposition : Type 0 where
  block comment : Disposition

abbrev pub is_block : Disposition → Bool
is_block Disposition.block = true
is_block Disposition.comment = false

pub record ReviewFinding : Type 0 where
  pub file_path : Option Text
  pub category : ReviewCategory
  pub disposition : Disposition
  pub message : Text

abbrev pub is_error_handling : ReviewCategory → Bool
is_error_handling ReviewCategory.error_handling = true
is_error_handling _ = false

-- `_disposition_matches_category`
abbrev pub disposition_matches_category : ReviewFinding → Bool
disposition_matches_category finding =
    is_error_handling finding.category
    || same_bool (is_block finding.disposition) (is_block_category finding.category)

pub data Decision : Type 0 where
  approve request_changes reject : Decision

abbrev pub is_approve : Decision → Bool
is_approve Decision.approve = true
is_approve _ = false

pub record ReviewDecision : Type 0 where
  pub decision : Decision
  pub findings : List ReviewFinding
  pub rationale : Text

-- `_decision_matches_blockers`
abbrev pub decision_matches_blockers : ReviewDecision → Bool
decision_matches_blockers d =
    let has_blocker = any (λ finding. is_block finding.disposition) d.findings in
    not (has_blocker && is_approve d.decision)
    && not (not has_blocker && not (is_approve d.decision))

-- A decision is built of findings, so both validators have accepted it.
unfoldable pub is_valid_decision : ReviewDecision → Bool
is_valid_decision d = all disposition_matches_category d.findings && decision_matches_blockers d

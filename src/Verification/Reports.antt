-- ===== src/Verification/Reports.antt =====
-- src/repopilot/domain/verification.py: what the verification, the QA and the review report, and the
-- validators of these reports. Fresh identifiers of findings are left out.
use acoding_agent.Prelude.{ℕ, Bool, is_yes, Option, List, Text}
use acoding_agent.Run.World.{ArtifactRef}

pub data Expectation : Type 0 where
  pass fail skip not_applicable : Expectation

pub data Outcome : Type 0 where
  passed failed skipped missing : Outcome

pub Outcome-discrete : Discrete Outcome
Outcome-discrete = hlevel

unfoldable pub same_outcome : Outcome → Outcome → Bool
unfolding Outcome-discrete
same_outcome a b = is_yes (Outcome-discrete a b)

pub data Purpose : Type 0 where
  bug_reproduction acceptance regression : Purpose

pub record TestCaseSpec : Type 0 where
  pub name : Text
  pub purpose : Purpose
  pub expected_on_base : Expectation

pub record TestSummary : Type 0 where
  pub passed : ℕ
  pub failed : ℕ
  pub skipped : ℕ
  pub failed_test_ids : List Text

pub record BaselineReport : Type 0 where
  pub base_revision : Text
  pub runnable : Bool
  pub command : List Text
  pub summary : TestSummary
  pub details_ref : ArtifactRef

-- A mismatch of a case, or that the command did not run; the source keeps them as texts.
pub data Mismatch : Type 0 where
  unexpected : (name : Text) (expected observed : Outcome) → Mismatch
  not_runnable : (exit_code : Option ℕ) → Mismatch

pub record SealedTestBaselineReport : Type 0 where
  pub base_revision : Text
  pub valid : Bool
  pub runnable : Bool
  pub command : List Text
  pub summary : TestSummary
  pub case_outcomes : List (Text × Outcome)
  pub mismatches : List Mismatch
  pub details_ref : ArtifactRef

pub data Severity : Type 0 where
  blocker major minor : Severity

pub data Category : Type 0 where
  syntax test regression type_check lint security compatibility correctness : Category

-- The messages of the findings.
pub data Message : Type 0 where
  timed_out oom_killed : Message
  new_failure old_failure : (test_id : Text) → Message
  unexplained_exit : (exit_code : ℕ) → Message

pub record VerificationFinding : Type 0 where
  pub file_path : Option Text
  pub severity : Severity
  pub category : Category
  pub message : Message

pub record VerificationReport : Type 0 where
  pub candidate_revision : Text
  pub baseline_report_ref : ArtifactRef
  pub passed : Bool
  pub findings : List VerificationFinding
  pub baseline_summary : TestSummary
  pub candidate_summary : TestSummary
  pub regression_test_ids : List Text
  pub regression_count : ℕ
  pub stdout_ref : Option ArtifactRef

-- ===== src/Domain/Enums.antt =====
-- src/repopilot/domain/enums.py and errors.py: the enumerations that the components share.
use mathlib.Core.Bool.{Bool, true, false}
use acoding_agent.Prelude.{◌≡◌, is_yes, arith}

pub data RunStatus : Type 0 where
  queued ingesting waiting_requirements_approval baselining planning : RunStatus
  waiting_plan_approval designing_tests waiting_execution_approval : RunStatus
  waiting_test_approval executing verifying reviewing replanning : RunStatus
  waiting_delivery_approval finalizing succeeded rejected failed cancelled : RunStatus

pub RunStatus-discrete : Discrete RunStatus
RunStatus-discrete = hlevel

-- Members of the enumerations are compared by `is`.
unfoldable pub same_status : RunStatus → RunStatus → Bool
unfolding RunStatus-discrete
same_status a b = is_yes (RunStatus-discrete a b)

pub same_status-eq : (a b : RunStatus) → same_status a b ≡ true → a ≡ b
unfolding same_status
same_status-eq a b h = ground arith

-- `TERMINAL_RUN_STATUSES`
abbrev pub is_terminal : RunStatus → Bool
is_terminal RunStatus.succeeded = true
is_terminal RunStatus.rejected = true
is_terminal RunStatus.failed = true
is_terminal RunStatus.cancelled = true
is_terminal _ = false

pub data AgentRole : Type 0 where
  planner investigator qa developer reviewer : AgentRole

pub data ArtifactKind : Type 0 where
  create_run_request task_spec repository_snapshot symbol_index change_plan : ArtifactKind
  investigation blackboard source_archive developer_context patch integrated_patch : ArtifactKind
  exported_interface test_plan test_bundle baseline_report : ArtifactKind
  sealed_test_baseline_report verification_report review_decision final_report : ArtifactKind
  cleanup_report trajectory model_response log : ArtifactKind

unfoldable pub ArtifactKind-discrete : Discrete ArtifactKind
ArtifactKind-discrete = hlevel

unfoldable pub same_kind : ArtifactKind → ArtifactKind → Bool
unfolding ArtifactKind-discrete
same_kind a b = is_yes (ArtifactKind-discrete a b)

pub same_kind-eq : (a b : ArtifactKind) → same_kind a b ≡ true → a ≡ b
unfolding same_kind
same_kind-eq a b h = ground arith

pub same_kind_refl : (a : ArtifactKind) → same_kind a a ≡ true
unfolding same_kind
same_kind_refl a = ground arith

pub data RiskFlag : Type 0 where
  dependency_change auth_change migration ci_config large_scope : RiskFlag
  unclear_acceptance_criteria prompt_injection_suspected : RiskFlag

pub data RiskLevel : Type 0 where
  low medium high : RiskLevel

pub data ApprovalMode : Type 0 where
  automatic manual : ApprovalMode

-- The codes that the workflow and the agents report.
pub data ErrorCode : Type 0 where
  platform_error policy_denied model_rate_limited model_output_invalid : ErrorCode
  model_completion_unknown : ErrorCode
  budget_exceeded verification_failed review_rejected approval_rejected : ErrorCode
  workflow_cancelled : ErrorCode

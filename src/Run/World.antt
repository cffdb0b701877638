-- ===== src/Run/World.antt =====
-- What src/repopilot/workflows/code_repair.py exchanges with its surroundings: the inputs and results
-- of the activities, the updates that arrive, and the run's own input and output.
use acoding_agent.Prelude.{ℕ, String, Bool, Option, List}
use acoding_agent.Domain.Enums.{RunStatus, RiskLevel, ErrorCode}
use acoding_agent.Domain.Plans.{PlannedFileChange, WorkItem}
use acoding_agent.Domain.Policies.{ApprovalPolicy}
use acoding_agent.Run.Approvals.{ApprovalRequest}

pub record ArtifactRef : Type 0 where
  pub artifact_id : ℕ
  pub run_id : ℕ

pub record WorkflowInput : Type 0 where
  pub run_id : ℕ
  pub tenant_id : ℕ
  pub create_request_ref : ArtifactRef
  pub risk_level : RiskLevel
  pub approval_policy : ApprovalPolicy
  pub developer_agent_mode : Bool
  pub planner_agent_mode : Bool
  pub investigator_agent_mode : Bool
  pub shared_blackboard_enabled : Bool
  pub reviewer_agent_mode : Bool
  pub scope_expansion_enabled : Bool
  pub auto_approve_low_risk : Option Bool

pub record ErrorInfo : Type 0 where
  pub code : ErrorCode
  pub details_ref : Option ArtifactRef

pub record WorkflowOutput : Type 0 where
  pub run_id : ℕ
  pub status : RunStatus
  pub final_report_ref : Option ArtifactRef
  pub failure : Option ErrorInfo

-- The type of an `ApplicationError` behind a failed activity; `other` stands for every other cause.
pub data FailureType : Type 0 where
  budget_exceeded model_completion_unknown policy_denied developer_output_invalid : FailureType
  other : FailureType

-- How an awaited activity ends, its retries included.
pub data Answer (A : Type 0) : Type 0 where
  done : A → Answer A
  failed : FailureType → Answer A
  cancelled : Answer A

pub record ProjectionEvent : Type 0 where
  pub run_id : ℕ
  pub tenant_id : ℕ
  pub workflow_id : String
  pub status : RunStatus
  pub base_revision : Option String
  pub plan_version : ℕ
  pub model_calls : ℕ
  pub sequence : ℕ
  pub occurred_at : ℕ

pub record IngestResult : Type 0 where
  pub repository_url : String
  pub base_revision : String
  pub requires_requirements_approval : Bool
  pub task_spec_ref : Option ArtifactRef

pub record PlanChangeInput : Type 0 where
  pub task_spec_ref : ArtifactRef
  pub repository_snapshot_ref : ArtifactRef
  pub attempt : ℕ
  pub repair_feedback_ref : Option ArtifactRef
  pub allowed_repair_paths : List (List ℕ)
  pub allow_scope_expansion : Bool
  pub investigation_ref : Option ArtifactRef
  pub blackboard_ref : Option ArtifactRef

pub record PlanChangeResult : Type 0 where
  pub plan_ref : ArtifactRef
  pub risk_level : RiskLevel
  pub planned_files : List PlannedFileChange
  pub work_items : List WorkItem
  pub waves : List (List ℕ)
  pub scope_expansion_paths : List (List ℕ)

pub record DesignSealedTestsInput : Type 0 where
  pub task_spec_ref : ArtifactRef
  pub repository_snapshot_ref : ArtifactRef
  pub baseline_report_ref : Option ArtifactRef
  pub previous_test_plan_ref : Option ArtifactRef
  pub sealed_baseline_report_ref : Option ArtifactRef
  pub attempt : ℕ

pub record SealedTestResult : Type 0 where
  pub valid : Bool
  pub runnable : Bool
  pub mismatch_count : ℕ
  pub report_ref : ArtifactRef

pub record InvestigateInput : Type 0 where
  pub task_spec_ref : ArtifactRef
  pub repository_snapshot_ref : ArtifactRef
  pub repair_feedback_ref : ArtifactRef
  pub attempt : ℕ
  pub blackboard_ref : Option ArtifactRef

pub record DevelopInput : Type 0 where
  pub developer_context_ref : ArtifactRef
  pub task_spec_ref : ArtifactRef
  pub planned_files : List PlannedFileChange
  pub repair_feedback_ref : Option ArtifactRef
  pub investigation_ref : Option ArtifactRef
  pub blackboard_ref : Option ArtifactRef
  pub dependency_layer_key : Option String

pub record CandidateSource : Type 0 where
  pub source_archive_ref : ArtifactRef
  pub revision : String

pub record VerifyCandidateInput : Type 0 where
  pub snapshot_ref : ArtifactRef
  pub baseline_report_ref : ArtifactRef
  pub test_plan_ref : ArtifactRef
  pub candidate_source_ref : ArtifactRef
  pub candidate_revision : String
  pub dependency_layer_key : String

pub record VerificationResult : Type 0 where
  pub passed : Bool
  pub report_ref : ArtifactRef

pub data Verdict : Type 0 where
  approved changes_requested rejected_candidate : Verdict

pub record ReviewCandidateInput : Type 0 where
  pub task_spec_ref : ArtifactRef
  pub diff_ref : ArtifactRef
  pub verification_ref : ArtifactRef
  pub attempt : ℕ
  pub candidate_source_ref : ArtifactRef
  pub blackboard_ref : Option ArtifactRef

pub record ReviewResult : Type 0 where
  pub decision : Verdict
  pub review_ref : ArtifactRef

pub record BuildFinalReportInput : Type 0 where
  pub run_id : ℕ
  pub tenant_id : ℕ
  pub status : RunStatus
  pub repository_url : String
  pub base_revision : String
  pub final_revision : Option String
  pub patch_ref : Option ArtifactRef
  pub verification_ref : Option ArtifactRef
  pub review_ref : Option ArtifactRef
  pub repository_cleanup_ref : Option ArtifactRef
  pub sandbox_cleanup_ref : Option ArtifactRef
  pub warnings : List String
  pub started_at : ℕ
  pub finished_at : ℕ
  pub repair_rounds : ℕ
  pub error : Option ErrorInfo

-- The surroundings. The first number of each field counts the awaits before this one, so that no two
-- answers need agree; `inbox` holds the updates that are handled during an await, and `wakeups` the
-- activations of a `wait_condition`, each with the updates that it handles.
pub record World : Type 0 where
  pub now : ℕ → ℕ
  pub workflow_id : String
  pub patched : String → Bool
  pub cancellation_requested : ℕ → Bool
  pub inbox : ℕ → List ApprovalRequest
  pub wakeups : ℕ → List (List ApprovalRequest)
  pub update_projection : ℕ → ProjectionEvent → Answer (Unit {0})
  pub ingest_task : ℕ → ArtifactRef → Answer IngestResult
  pub finalize_task_spec : ℕ → ArtifactRef → String → List String → Answer ArtifactRef
  pub scan_repository : ℕ → ArtifactRef → Answer ArtifactRef
  pub prepare_dependencies : ℕ → ArtifactRef → ArtifactRef → Answer String
  pub verify_baseline : ℕ → ArtifactRef → String → Answer ArtifactRef
  pub plan_change : ℕ → Bool → PlanChangeInput → Answer PlanChangeResult
  pub publish_blackboard : ℕ → ArtifactRef → Option ArtifactRef → Answer ArtifactRef
  pub design_sealed_tests : ℕ → DesignSealedTestsInput → Answer ArtifactRef
  pub verify_sealed_tests : ℕ → ArtifactRef → ArtifactRef → String → Answer SealedTestResult
  pub investigate_failure : ℕ → InvestigateInput → Answer ArtifactRef
  pub build_developer_context : ℕ → WorkItem → ArtifactRef → List ArtifactRef → Answer ArtifactRef
  pub develop_patch : ℕ → Bool → DevelopInput → Answer ArtifactRef
  pub integrate_patch : ℕ → ArtifactRef → WorkItem → ArtifactRef → Answer ArtifactRef
  pub export_candidate : ℕ → ℕ → Answer CandidateSource
  pub build_final_diff : ℕ → ℕ → Answer ArtifactRef
  pub verify_candidate : ℕ → VerifyCandidateInput → Answer VerificationResult
  pub review_candidate : ℕ → Bool → ReviewCandidateInput → Answer ReviewResult
  pub cleanup_sandboxes : ℕ → ℕ → Answer ArtifactRef
  pub cleanup_repository : ℕ → ℕ → Answer ArtifactRef
  pub build_final_report : ℕ → BuildFinalReportInput → Answer ArtifactRef

-- ===== src/Run/Stages.antt =====
-- The parts of the repair loop of `run` in src/repopilot/workflows/code_repair.py: the approvals that
-- may end a run, the assessment of an attempt, the investigation and the new plan.
use acoding_agent.Prelude.{
  ℕ, ◌+◌, String, Bool, true, false, ◌&&◌, ltb, Option, none, some, List, ◌++◌, is_empty,
  if◌then◌else◌, sorted_set, Text,
}
use acoding_agent.Domain.Enums.{RunStatus, RiskLevel, ApprovalMode, automatic, manual, ErrorCode}
use acoding_agent.Domain.Policies.{ApprovalStagePolicy}
use acoding_agent.Domain.Risk.{risk_order}
use acoding_agent.Run.Approvals.{ApprovalKind, delivery, is_reject}
use acoding_agent.Run.World.{
  ArtifactRef, WorkflowInput, WorkflowOutput, PlanChangeInput, PlanChangeResult, Verdict, approved,
  rejected_candidate,
}
use acoding_agent.Run.Monad.{M, ◌>>=◌, ◌>>◌, pure, get, modify, patched, activity}
use acoding_agent.Run.Workflow.{transition, wait_for_approval, finalize, error_info}
use acoding_agent.Run.Attempt.{publish_blackboard, AttemptInput}

abbrev pub is_manual : ApprovalMode → Bool
is_manual automatic = false
is_manual manual = true

-- What stays fixed from the baseline on.
pub record Base : Type 0 where
  pub task_spec_ref : ArtifactRef
  pub snapshot_ref : ArtifactRef
  pub dependency_layer_key : String
  pub baseline_report_ref : ArtifactRef
  pub planner_agent_mode : Bool
  pub blackboard_enabled : Bool

-- The variables of the repair loop.
pub record Repair : Type 0 where
  pub planning_result : PlanChangeResult
  pub original_allowed_paths : List Text
  pub highest_planned_risk : RiskLevel
  pub repair_feedback_ref : Option ArtifactRef
  pub investigation_ref : Option ArtifactRef
  pub blackboard_ref : Option ArtifactRef

abbrev pub is_rejection : Option Verdict → Bool
is_rejection (some rejected_candidate) = true
is_rejection _ = false

abbrev pub is_approval : Option Verdict → Bool
is_approval (some approved) = true
is_approval _ = false

module _ (input : WorkflowInput) where
  -- Waits for an approval; a rejection ends the run.
  unfoldable pub approve_or_reject : ApprovalKind → RunStatus → M WorkflowOutput → M WorkflowOutput
  approve_or_reject kind status continue = do
    approval ← wait_for_approval input kind status
    if is_reject approval.decision
        then finalize input RunStatus.rejected (error_info ErrorCode.approval_rejected none)
        else continue

  abbrev pub approve_if : Bool → ApprovalKind → RunStatus → M WorkflowOutput → M WorkflowOutput
  approve_if needed kind status continue =
      if needed then approve_or_reject kind status continue else continue

  -- `_publish_blackboard`, if the blackboard is enabled.
  abbrev pub publish_if : Bool → ArtifactRef → Option ArtifactRef → M (Option ArtifactRef)
  publish_if enabled source previous =
      if enabled
      then (publish_blackboard source previous >>= λ ref. pure (some ref))
      else pure previous

  -- The end of `run` behind the repair loop.
  unfoldable pub deliver_candidate : ApprovalStagePolicy → M WorkflowOutput
  deliver_candidate stages =
      approve_if (is_manual stages.delivery) delivery RunStatus.waiting_delivery_approval
        (finalize input RunStatus.succeeded none)

  -- The planning of a repair, after the snapshot and the investigation.
  abbrev pub repair_plan_input : Base → Repair → ArtifactRef → ℕ → PlanChangeInput
  repair_plan_input base v snapshot rounds = record {
    task_spec_ref = base.task_spec_ref;
    repository_snapshot_ref = snapshot;
    attempt = rounds + 1;
    repair_feedback_ref = v.repair_feedback_ref;
    allowed_repair_paths = v.original_allowed_paths;
    allow_scope_expansion = input.scope_expansion_enabled;
    investigation_ref = v.investigation_ref;
    blackboard_ref = v.blackboard_ref;
  }

  -- The investigation of a failed attempt, if that agent is enabled.
  unfoldable pub investigate : Base → Repair → ArtifactRef → ArtifactRef → M Repair
  investigate base v feedback snapshot = do
    agent_patch ← patched "investigator-agent-v1"
    s ← get
    if input.investigator_agent_mode && agent_patch
        then (do
          investigation ← activity (λ w n. w.investigate_failure n (record {
            task_spec_ref = base.task_spec_ref;
            repository_snapshot_ref = snapshot;
            repair_feedback_ref = feedback;
            attempt = s.repair_rounds + 1;
            blackboard_ref = v.blackboard_ref;
          }))
          blackboard ← publish_if base.blackboard_enabled investigation v.blackboard_ref
          pure (record v { investigation_ref = some investigation; blackboard_ref = blackboard }))
        else pure v

  -- From the rejected candidate to the plan of its repair.
  unfoldable pub replan : Base → Repair → ArtifactRef → M Repair
  replan base v feedback = do
    modify (λ s. record s { repair_rounds = s.repair_rounds + 1 })
    blackboard ← publish_if base.blackboard_enabled feedback v.blackboard_ref
    transition input RunStatus.replanning
    snapshot ← activity (λ w n. w.scan_repository n base.task_spec_ref)
    v ←
        investigate base
          (record v { repair_feedback_ref = some feedback; blackboard_ref = blackboard }) feedback
          snapshot
    transition input RunStatus.planning
    s ← get
    result ← activity (λ w n.
        w.plan_change n base.planner_agent_mode (repair_plan_input base v snapshot s.repair_rounds))
    blackboard ← publish_if base.blackboard_enabled result.plan_ref v.blackboard_ref
    pure (record v {
      planning_result = result;
      blackboard_ref = blackboard;
      highest_planned_risk =
          if ltb (risk_order v.highest_planned_risk) (risk_order result.risk_level)
          then result.risk_level
          else v.highest_planned_risk;
    })

  -- A repaired plan may have widened the scope.
  abbrev pub widen : Repair → Repair
  widen v = if is_empty v.planning_result.scope_expansion_paths then v else record v {
    original_allowed_paths =
        sorted_set (v.original_allowed_paths ++ v.planning_result.scope_expansion_paths);
  }

  abbrev pub attempt_input : Base → ArtifactRef → Repair → AttemptInput
  attempt_input base test_plan v = record {
    task_spec_ref = base.task_spec_ref;
    snapshot_ref = base.snapshot_ref;
    baseline_report_ref = base.baseline_report_ref;
    test_plan_ref = test_plan;
    dependency_layer_key = base.dependency_layer_key;
    plan = v.planning_result;
    repair_feedback_ref = v.repair_feedback_ref;
    investigation_ref = v.investigation_ref;
    blackboard_ref = v.blackboard_ref;
  }

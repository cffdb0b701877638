-- ===== src/Run/Main.antt =====
-- `run` of src/repopilot/workflows/code_repair.py. Each function is a stage, and ends in a call of the
-- next one; a `return` inside of the source is a branch that does not call it.
use acoding_agent.Prelude.{
  ℕ, zero, suc, ◌+◌, Bool, false, ◌&&◌, ltb, leb, Option, none, some, [], map, if◌then◌else◌,
}
use acoding_agent.Domain.Enums.{RunStatus, same_status, ErrorCode}
use acoding_agent.Domain.Policies.{ApprovalStagePolicy}
use acoding_agent.Run.Approvals.{requirements, plan, execution, test, is_reject}
use acoding_agent.Run.World.{
  ArtifactRef, WorkflowInput, WorkflowOutput, IngestResult, PlanChangeResult, SealedTestResult,
}
use acoding_agent.Run.Monad.{
  Exception, cancelled_error, assertion_error, runtime_error, out_of_rounds, return, raise, M,
  ◌>>=◌, ◌>>◌, pure, throw, get, modify, patched, require, activity,
}
use acoding_agent.Run.Workflow.{
  record_projection, transition, wait_for_approval, finalize, resolve_approval_stages, stage_error,
  error_info,
}
use acoding_agent.Run.Attempt.{run_candidate_attempt}
use acoding_agent.Run.Stages.{
  is_manual, is_approval, is_rejection, Base, Repair, approve_or_reject, approve_if, publish_if,
  deliver_candidate, replan, widen, attempt_input,
}

-- `_QA_MAX_REVISIONS`
abbrev pub qa_max_revisions : ℕ
qa_max_revisions = 2

module _ (input : WorkflowInput) where
  -- The body of `while True`, by recursion on a bound for its rounds.
  unfoldable pub repair_loop :
      Base → ApprovalStagePolicy → ArtifactRef → ℕ → Repair → M WorkflowOutput
  repair_loop base stages test_plan zero v = throw out_of_rounds
  repair_loop base stages test_plan (suc bound) v =
      let again = λ (v : Repair). repair_loop base stages test_plan bound v in
      (do
        attempt ← run_candidate_attempt input (attempt_input input base test_plan v)
        s ← get
        if attempt.verification_passed && is_approval attempt.review_decision
            then deliver_candidate input stages
            else if is_rejection attempt.review_decision
            then finalize input RunStatus.rejected
                (error_info ErrorCode.review_rejected (some attempt.feedback_ref))
            else if leb 2 s.repair_rounds
            then finalize input RunStatus.failed (
                error_info
                  (if attempt.verification_passed
                    then ErrorCode.review_rejected
                    else ErrorCode.verification_failed)
                  (some attempt.feedback_ref))
            else (do
              v ← replan input base v attempt.feedback_ref
              repair_stages ←
                  require (resolve_approval_stages input (some v.highest_planned_risk))
                    assertion_error
              approve_if input (is_manual repair_stages.plan) plan RunStatus.waiting_plan_approval (
                  approve_if input (is_manual repair_stages.execution) execution
                    RunStatus.waiting_execution_approval
                    (transition input RunStatus.executing >> again (widen input v)))))

  -- From the sealed tests to the repair loop.
  unfoldable pub execute :
      Base
      → ApprovalStagePolicy
      → PlanChangeResult
      → Option ArtifactRef
      → ArtifactRef
      → M WorkflowOutput
  execute base stages planning_result blackboard test_plan =
      approve_if input (is_manual stages.execution) execution RunStatus.waiting_execution_approval
        (do
          transition input RunStatus.executing
          repair_loop base stages test_plan 3 (record {
            planning_result = planning_result;
            original_allowed_paths = map (λ f. f.path) planning_result.planned_files;
            highest_planned_risk = planning_result.risk_level;
            repair_feedback_ref = none;
            investigation_ref = none;
            blackboard_ref = blackboard;
          }))

  -- One round of the sealed tests: their design and their run on the base.
  unfoldable pub sealed_round :
      Base
      → Bool
      → (number : ℕ) → (previous_plan previous_report : Option ArtifactRef)
      → M (ArtifactRef × SealedTestResult)
  sealed_round base feedback number previous_plan previous_report = do
    test_plan ← activity (λ w n. w.design_sealed_tests n (record {
      task_spec_ref = base.task_spec_ref;
      repository_snapshot_ref = base.snapshot_ref;
      baseline_report_ref = if feedback then some base.baseline_report_ref else none;
      previous_test_plan_ref = previous_plan;
      sealed_baseline_report_ref = previous_report;
      attempt = number;
    }))
    result ←
        activity
          (λ w n. w.verify_sealed_tests n base.snapshot_ref test_plan base.dependency_layer_key)
    pure (test_plan, result)

  -- `for qa_attempt in range(1, max_qa_attempts + 1)`, by recursion on the attempts behind this one.
  unfoldable pub design_tests :
      Base
      → Bool
      → (ArtifactRef → M WorkflowOutput)
      → (number left : ℕ) → (previous_plan previous_report : Option ArtifactRef) → M WorkflowOutput
  design_tests base feedback continue number zero previous_plan previous_report = do
    (test_plan, result) ← sealed_round base feedback number previous_plan previous_report
    if result.valid
        then continue test_plan
        else approve_or_reject input test RunStatus.waiting_test_approval (continue test_plan)
  design_tests base feedback continue number (suc left) previous_plan previous_report =
      let again = λ (test_plan report : ArtifactRef).
        design_tests base feedback continue (number + 1) left (some test_plan) (some report) in
      (do
        (test_plan, result) ← sealed_round base feedback number previous_plan previous_report
        if result.valid
            then continue test_plan
            else if feedback && result.runnable && ltb 0 result.mismatch_count
            then again test_plan result.report_ref
            else approve_or_reject input test RunStatus.waiting_test_approval (continue test_plan))

  -- From the plan to the sealed tests.
  unfoldable pub run_planned : Base → PlanChangeResult → Option ArtifactRef → M WorkflowOutput
  run_planned base planning_result blackboard = do
    stages ←
        require (resolve_approval_stages input (some planning_result.risk_level)) assertion_error
    approve_if input (is_manual stages.plan) plan RunStatus.waiting_plan_approval (do
      transition input RunStatus.designing_tests
      feedback ← patched "qa-baseline-feedback-v1"
      design_tests base feedback (execute base stages planning_result blackboard) 1
          (if feedback then qa_max_revisions else 0) none none)

  -- From the task specification to the plan.
  unfoldable pub run_specified : ArtifactRef → M WorkflowOutput
  run_specified task_spec = do
    snapshot ← activity (λ w n. w.scan_repository n task_spec)
    key ← activity (λ w n. w.prepare_dependencies n snapshot task_spec)
    transition input RunStatus.baselining
    baseline ← activity (λ w n. w.verify_baseline n snapshot key)
    transition input RunStatus.planning
    agent_patch ← patched "planner-agent-loop-v1"
    let agent = input.planner_agent_mode && agent_patch
    planning_result ← activity (λ w n. w.plan_change n agent (record {
      task_spec_ref = task_spec;
      repository_snapshot_ref = snapshot;
      attempt = 1;
      repair_feedback_ref = none;
      allowed_repair_paths = [];
      allow_scope_expansion = false;
      investigation_ref = none;
      blackboard_ref = none;
    }))
    board_patch ← patched "shared-blackboard-v1"
    let board = input.shared_blackboard_enabled && board_patch
    blackboard ← publish_if input board planning_result.plan_ref none
    run_planned
        (record {
          task_spec_ref = task_spec;
          snapshot_ref = snapshot;
          dependency_layer_key = key;
          baseline_report_ref = baseline;
          planner_agent_mode = agent;
          blackboard_enabled = board;
        })
        planning_result blackboard

  -- The approval of the requirements, which replaces the acceptance criteria.
  unfoldable pub approve_requirements : IngestResult → M WorkflowOutput
  approve_requirements ingest = do
    approval ← wait_for_approval input requirements RunStatus.waiting_requirements_approval
    if is_reject approval.decision
        then finalize input RunStatus.rejected (error_info ErrorCode.approval_rejected none)
        else do
          criteria ← require approval.replacement_acceptance_criteria assertion_error
          task_spec ←
              activity (λ w n.
                w.finalize_task_spec n input.create_request_ref ingest.base_revision criteria)
          run_specified task_spec

  -- The `try` block of `run`.
  unfoldable pub body : M WorkflowOutput
  body = do
    transition input RunStatus.ingesting
    ingest ← activity (λ w n. w.ingest_task n input.create_request_ref)
    modify (λ s. record s {
      base_revision = some ingest.base_revision;
      repository_url = ingest.repository_url;
    })
    if ingest.requires_requirements_approval
        then approve_requirements ingest
        else (require ingest.task_spec_ref runtime_error >>= run_specified)

  -- The `except` clauses of `run`.
  unfoldable pub recover : Exception → M WorkflowOutput
  recover cancelled_error w s =
      finalize input RunStatus.cancelled (error_info ErrorCode.workflow_cancelled none) w s
  recover e w s =
      if same_status s.status RunStatus.finalizing
      then (raise e, s)
      else if w.cancellation_requested s.awaits
      then finalize input RunStatus.cancelled (error_info ErrorCode.workflow_cancelled none) w s
      else finalize input RunStatus.failed (some (stage_error e)) w s

  -- `run`
  unfoldable pub run : M WorkflowOutput
  run = do
    (λ w s. (return tt, record s { started_at = some (w.now s.awaits) }))
    record_projection input
    (λ w s.
        let r = body w s in elim r.0 [ return out ↦ (return out, r.1) | raise e ↦ recover e w r.1 ])

-- ===== src/Run/Workflow.antt =====
-- The methods of `CodeRepairWorkflow` in src/repopilot/workflows/code_repair.py that the stages of a
-- run share: projections, transitions, approvals and the end of a run.
use acoding_agent.Prelude.{
  ◌+◌, String, ◌++◌, Option, none, some, List, [], ◌∷◌, ltb, is_empty, codes, if◌then◌else◌,
}
use acoding_agent.Domain.Enums.{RunStatus, same_status, RiskLevel, automatic, manual, ErrorCode}
use acoding_agent.Domain.Policies.{ApprovalStagePolicy, resolve_approval_policy}
use acoding_agent.Domain.Risk.{risk_order}
use acoding_agent.Run.Transitions.{validate_transition}
use acoding_agent.Run.Approvals.{ApprovalKind, ApprovalRequest}
use acoding_agent.Run.World.{
  ArtifactRef, WorkflowInput, WorkflowOutput, ErrorInfo, budget_exceeded, model_completion_unknown,
  policy_denied, developer_output_invalid, ProjectionEvent, World,
}
use acoding_agent.Run.Monad.{
  State, projected, decided, Exception, cancelled_error, activity_error, invalid_transition, Result,
  return, raise, M, ◌>>=◌, ◌>>◌, pure, get, modify, emit, lookup_approval, remove_approval, deliver,
  activity,
}

-- `workflow.wait_condition(lambda: kind in self._approvals)`, activation by activation. It has no
-- timeout: when the last activation has not fulfilled it, the wait ends by a cancellation.
unfoldable pub wait_condition :
    ApprovalKind → List (List ApprovalRequest) → State → Result ApprovalRequest × State
wait_condition kind [] s = elim (lookup_approval kind s.approvals) [
  | none ↦ (raise cancelled_error, s)
  | some a ↦ (return a, record s { approvals = remove_approval kind s.approvals })
]
wait_condition kind (us ∷ rest) s =
    let later = wait_condition kind rest (deliver us s) in
    elim (lookup_approval kind s.approvals) [
      | none ↦ later
      | some a ↦ (return a, record s { approvals = remove_approval kind s.approvals })
    ]

unfoldable pub await_approval : ApprovalKind → M ApprovalRequest
await_approval kind w s =
    wait_condition kind (w.wakeups s.awaits) (record s { awaits = s.awaits + 1 })

-- One of the two cleanups of `_finalize`: its failure is only a warning, but a cancellation passes.
unfoldable pub note_failure :
    Result ArtifactRef → String → State → Result (Option ArtifactRef × List String) × State
note_failure (return ref) warning s = (return (some ref, []), s)
note_failure (raise cancelled_error) warning s = (raise cancelled_error, s)
note_failure (raise _) warning s = (return (none, warning ∷ []), s)

unfoldable pub guarded : M ArtifactRef → String → M (Option ArtifactRef × List String)
guarded m warning w s = let r = m w s in note_failure r.0 warning r.1

-- `self._base_revision or "0" * 40`: an empty revision is replaced too.
abbrev pub revision_or_zeros : Option String → String
revision_or_zeros none = "0000000000000000000000000000000000000000"
revision_or_zeros (some revision) =
    if is_empty (codes revision) then "0000000000000000000000000000000000000000" else revision

abbrev pub missing_metadata : Option String → List String
missing_metadata none = "ingest did not establish repository metadata" ∷ []
missing_metadata (some revision) = []

module _ (input : WorkflowInput) where
  abbrev pub projection_event : World → State → ProjectionEvent
  projection_event w s = record {
    run_id = input.run_id;
    tenant_id = input.tenant_id;
    workflow_id = w.workflow_id;
    status = s.status;
    base_revision = s.base_revision;
    plan_version = 0;
    model_calls = 0;
    sequence = s.projection_sequence;
    occurred_at = w.now s.awaits;
  }

  -- `_record_projection`, behind the event. It is sent before its activity ends.
  unfoldable pub send_projection : ProjectionEvent → M (Unit {0})
  send_projection event = do
    emit (projected event)
    activity (λ w n. w.update_projection n event)
    modify (λ s. record s { projection_sequence = s.projection_sequence + 1 })

  -- `_record_projection`
  unfoldable pub record_projection : M (Unit {0})
  record_projection w s = send_projection (projection_event w s) w s

  -- `_transition`
  unfoldable pub transition : RunStatus → M (Unit {0})
  transition new w s =
      if validate_transition s.status new
      then record_projection w (record s { status = new })
      else (raise (invalid_transition s.status new), s)

  -- `_wait_for_approval`
  unfoldable pub wait_for_approval : ApprovalKind → RunStatus → M ApprovalRequest
  wait_for_approval kind status = do
    transition status
    approval ← await_approval kind
    emit (decided kind approval)
    pure approval

  -- The first statement of `_finalize`.
  unfoldable pub enter_finalizing : M (Unit {0})
  enter_finalizing w s =
      if same_status s.status RunStatus.finalizing
      then (return tt, s)
      else transition RunStatus.finalizing w s

  -- `_finalize`
  unfoldable pub finalize : RunStatus → Option ErrorInfo → M WorkflowOutput
  finalize outcome error = do
    enter_finalizing
    (sandbox, warnings) ←
        guarded (activity (λ w n. w.cleanup_sandboxes n input.run_id)) "sandbox cleanup failed"
    (repository, more) ←
        guarded (activity (λ w n. w.cleanup_repository n input.run_id)) "repository cleanup failed"
    s ← get
    report ← activity (λ w n. w.build_final_report n (record {
      run_id = input.run_id;
      tenant_id = input.tenant_id;
      status = outcome;
      repository_url = s.repository_url;
      base_revision = revision_or_zeros s.base_revision;
      final_revision = s.final_revision;
      patch_ref = s.patch_ref;
      verification_ref = s.verification_ref;
      review_ref = s.review_ref;
      repository_cleanup_ref = repository;
      sandbox_cleanup_ref = sandbox;
      warnings = (warnings ++ more) ++ missing_metadata s.base_revision;
      started_at = elim s.started_at [ none ↦ w.now n | some t ↦ t ];
      finished_at = w.now n;
      repair_rounds = s.repair_rounds;
      error = error;
    }))
    transition outcome
    pure (record {
      run_id = input.run_id;
      status = outcome;
      final_report_ref = some report;
      failure = error;
    })

  -- `_resolve_approval_stages`; `none` is a failed `assert`.
  unfoldable pub resolve_approval_stages : Option RiskLevel → Option ApprovalStagePolicy
  resolve_approval_stages planned_risk =
      let effective : RiskLevel = elim planned_risk [
        | none ↦ input.risk_level
        | some risk ↦
            if ltb (risk_order input.risk_level) (risk_order risk) then risk else input.risk_level
      ] in
      elim (resolve_approval_policy effective input.approval_policy) [
        | none ↦ none
        | some resolved ↦ elim input.auto_approve_low_risk [
          | none ↦ some resolved.stages
          | some auto ↦
              some (record resolved.stages { delivery = if auto then automatic else manual })
        ]
      ]

-- `_stage_error`
unfoldable pub stage_error : Exception → ErrorInfo
stage_error (activity_error budget_exceeded) = record {
  code = ErrorCode.budget_exceeded;
  details_ref = none;
}
stage_error (activity_error model_completion_unknown) = record {
  code = ErrorCode.model_completion_unknown;
  details_ref = none;
}
stage_error (activity_error policy_denied) = record {
  code = ErrorCode.policy_denied;
  details_ref = none;
}
stage_error (activity_error developer_output_invalid) = record {
  code = ErrorCode.model_output_invalid;
  details_ref = none;
}
stage_error _ = record { code = ErrorCode.platform_error; details_ref = none }

-- `_error`
abbrev pub error_info : ErrorCode → Option ArtifactRef → Option ErrorInfo
error_info code details = some (record { code = code; details_ref = details })

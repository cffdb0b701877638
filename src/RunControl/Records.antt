-- ===== src/RunControl/Records.antt =====
-- The row `IdempotencyKey` of src/repopilot/infrastructure/db/models.py, the views and errors of
-- services/run_control.py, and the workflow service as infrastructure/temporal/client.py calls it.
use acoding_agent.Prelude.{
  ℕ, ◌≡◌, ◌≢◌, ◌⊎◌, String, Bool, true, false, Option, List, ◌∷◌, ◌++◌, Text, codes, mem_text,
}
use acoding_agent.Domain.Enums.{RunStatus, ArtifactKind}
use acoding_agent.Run.World.{WorkflowInput}
use acoding_agent.Run.Approvals.{ApprovalRequest}
use acoding_agent.Artifacts.Store as Artifacts

-- `PENDING`, `STARTED` and `FAILED`
pub data KeyStatus : Type 0 where
  pending started failed : KeyStatus

abbrev pub is_started : KeyStatus → Bool
is_started started = true
is_started _ = false

pub record IdempotencyKey : Type 0 where
  pub tenant_id : ℕ
  pub key : Text
  pub request_sha256 : Text
  pub run_id : ℕ
  pub request_artifact_id : Option ℕ
  pub status : KeyStatus
  pub expires_at : ℕ

-- `RunNotFoundError`, `IdempotencyConflictError`, `RunUnavailableError`, a violated unique column, and
-- what the artifact store raises.
pub data Error : Type 0 where
  run_not_found idempotency_conflict run_unavailable integrity_error : Error
  artifact_error : Artifacts.Error → Error

pub record RunView : Type 0 where
  pub run_id : ℕ
  pub workflow_id : Text
  pub status : RunStatus
  pub base_revision : Option String
  pub plan_version : ℕ
  pub model_calls : ℕ

-- The type and the actor of an event are constants, and its payload has the status and the sequence.
pub record RunEventView : Type 0 where
  pub event_id : ℕ
  pub status : RunStatus
  pub sequence : ℕ
  pub created_at : ℕ

pub record ArtifactView : Type 0 where
  pub artifact_id : ℕ
  pub run_id : ℕ
  pub kind : ArtifactKind
  pub schema_version : String
  pub sha256 : Text
  pub size_bytes : ℕ
  pub base_revision : Option Text
  pub created_at : ℕ

pub record ArtifactDownload : Type 0 where
  pub artifact : ArtifactView
  pub content : Text

-- `WorkflowAlreadyStartedError`, or any other exception.
pub data StartAnswer : Type 0 where
  begun already_started start_failed : StartAnswer

-- The workflow service. Its state is a parameter, with the identifiers of the executions that there
-- have ever been. It rejects duplicates; a start that has failed for the caller can have gone through.
pub record WorkflowService (W : Type 0) : Type 0 where
  pub executions : W → List Text
  pub start_workflow : (id : Text) → WorkflowInput → W → W × StartAnswer
  pub execute_update : (id : Text) → ApprovalRequest → W → W × Bool
  pub cancel_workflow : (id : Text) → W → W × Bool
  pub start-adds :
      (id : Text) (input : WorkflowInput) (w w' : W) (answer : StartAnswer)
      → start_workflow id input w ≡ (w', answer)
      → (executions w' ≡ executions w)
        ⊎ ((mem_text id (executions w) ≡ false) × (executions w' ≡ id ∷ executions w))
  pub start-known :
      (id : Text) (input : WorkflowInput) (w w' : W) (answer : StartAnswer)
      → start_workflow id input w ≡ (w', answer)
      → answer ≢ start_failed
      → mem_text id (executions w') ≡ true
  pub update-executions :
      (id : Text) (approval : ApprovalRequest) (w : W)
      → executions ((execute_update id approval w).0) ≡ executions w
  pub cancel-executions : (id : Text) (w : W) → executions ((cancel_workflow id w).0) ≡ executions w

-- `workflow_id_for`; `str` of an identifier is a parameter.
abbrev pub workflow_id_for : (uuid_text : ℕ → Text) (tenant_id run_id : ℕ) → Text
workflow_id_for uuid_text tenant_id run_id =
    codes "repopilot/" ++ uuid_text tenant_id ++ codes "/" ++ uuid_text run_id

-- ===== src/Agents/Records.antt =====
-- The records of src/repopilot/domain/agents.py, the limits of agents/loop.py and the surroundings of the
-- loop.
use acoding_agent.Prelude.{ℕ, String, Bool, true, false, ◌&&◌, not, Option, none, some, List, Text}
use acoding_agent.Domain.Enums.{AgentRole, ErrorCode}
use acoding_agent.Run.World.{ArtifactRef}
use acoding_agent.Budget.Store.{Store, ModelCallContext}
use acoding_agent.Budget.Gateway.{ProviderAnswer}
use acoding_agent.Agents.Registry.{Tool, ToolError}

-- `_ROLE_MODEL_CALL_LIMIT`
abbrev pub role_model_call_limit : AgentRole → ℕ
role_model_call_limit AgentRole.planner = 8
role_model_call_limit AgentRole.investigator = 8
role_model_call_limit AgentRole.qa = 5
role_model_call_limit AgentRole.developer = 10
role_model_call_limit AgentRole.reviewer = 8

-- An input artifact, with its tenant.
pub record InputRef : Type 0 where
  pub ref : ArtifactRef
  pub tenant_id : ℕ

pub record AgentExecutionRequest : Type 0 where
  pub role : AgentRole
  pub work_item_id : ℕ
  pub input_refs : List InputRef
  pub allowed_tools : List Text
  pub max_steps : ℕ
  pub remaining_model_calls : ℕ
  pub attempt : ℕ
  pub prompt_version : Text
  pub tool_schema_version : String
  pub policy_version : String

pub record ToolContext : Type 0 where
  pub tenant_id : ℕ
  pub run_id : ℕ
  pub work_item_id : ℕ

pub data Status : Type 0 where
  succeeded failed : Status

abbrev pub is_succeeded : Status → Bool
is_succeeded Status.succeeded = true
is_succeeded Status.failed = false

pub record AgentError : Type 0 where
  pub code : ErrorCode
  pub retryable : Bool

pub record AgentExecutionResult : Type 0 where
  pub work_item_id : ℕ
  pub status : Status
  pub output_refs : List ArtifactRef
  pub model_call_ids : List ℕ
  pub error : Option AgentError
  pub trajectory_ref : Option ArtifactRef

pub record AgentTurn (Args : Type 0) : Type 0 where
  pub tool : Text
  pub arguments : Args

pub record FinishRequest : Type 0 where
  pub status : Status
  pub output_refs : List ArtifactRef
  pub error : Option AgentError

abbrev pub is_none : {A : Type 0} → Option A → Bool
is_none none = true
is_none (some a) = false

-- `_status_and_error_must_agree`
abbrev pub status_and_error_agree : FinishRequest → Bool
status_and_error_agree finished =
    not (is_succeeded finished.status && not (is_none finished.error))
    && not (not (is_succeeded finished.status) && is_none finished.error)

-- What is added to the messages of a step.
pub data Message (Args Obs : Type 0) : Type 0 where
  invalid_output : Message Args Obs
  assistant : AgentTurn Args → Message Args Obs
  tool_error : Message Args Obs
  tool_result : Obs → Message Args Obs

-- What leaves `execute` by an exception.
pub data Exception : Type 0 where
  value_error cancelled budget_state_error provider_exception : Exception
  tool_failure : ToolError → Exception

-- How `execute` ends.
pub data Ending : Type 0 where
  result : AgentExecutionResult → Ending
  exception : Exception → Ending

-- The provider, what a step uses for its call, the fields of a finished request that an observation
-- has, and the storage of the trajectory.
pub record Surroundings (Args Obs : Type 0) : Type 0 where
  pub tools : List (Tool Args Obs)
  pub answer : (step : ℕ) → List (Message Args Obs) → ProviderAnswer (AgentTurn Args)
  pub call_context : (step : ℕ) → ModelCallContext
  pub logical_key : (step : ℕ) → List (Message Args Obs) → String
  pub provider : String
  pub model : String
  pub now : (step : ℕ) → ℕ
  pub finish_fields : Obs → Option FinishRequest
  pub save_trajectory : List (Message Args Obs) → ArtifactRef

-- The variables of the loop, and the tables.
pub record Loop (Args Obs : Type 0) : Type 0 where
  pub step : ℕ
  pub messages : List (Message Args Obs)
  pub call_ids : List ℕ
  pub consecutive_format_errors : ℕ
  pub store : Store

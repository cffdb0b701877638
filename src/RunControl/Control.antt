-- ===== src/RunControl/Control.antt =====
-- `PostgresTemporalRunControl` of src/repopilot/infrastructure/run_control.py for one tenant of many,
-- over the tables, the artifact store, the budgets and the workflow service that they share.
use acoding_agent.Prelude.{ℕ, Bool, true, Option, none, some, List, [], Text, codes, if◌then◌else◌}
use acoding_agent.Prelude.Checked.{Checked, accepted, refused, ◌>>◌}
use acoding_agent.Domain.Enums.{queued, create_run_request}
use acoding_agent.Domain.Tasks.{CreateRunRequest}
use acoding_agent.Run.World.{WorkflowInput, ProjectionEvent}
use acoding_agent.Budget.Store.{create_budget, Result, ok, err, budget_state_error}
use acoding_agent.Budget.Store as Budget
use acoding_agent.Projection.Store.{RunProjection, AuditEvent, get}
use acoding_agent.Projection.Store as Projection
use acoding_agent.Artifacts.Refs.{ArtifactRef}
use acoding_agent.Artifacts.Objects.{ObjectStore}
use acoding_agent.Artifacts.Store.{put_bytes, get_bytes}
use acoding_agent.Artifacts.Store as Artifacts
use acoding_agent.RunControl.Records.{
  KeyStatus, started, failed, is_started, IdempotencyKey, Error, run_unavailable, artifact_error,
  RunView, StartAnswer, start_failed, WorkflowService, workflow_id_for,
}
use acoding_agent.RunControl.Keys.{
  find_key, new_key, insert_key, check_record, set_idempotency_status, require_owned_run,
}

pub record State (O W : Type 0) : Type 0 where
  pub keys : List IdempotencyKey
  pub artifacts : Artifacts.State O
  pub budgets : Budget.Store
  pub projections : Projection.Tables
  pub workflows : W

-- What one call of `create` draws: the identifier and the time of the artifact, the expiry of the
-- key, and whether the budget store can be reached.
pub record Draws : Type 0 where
  pub artifact_id : ℕ
  pub created_at : ℕ
  pub expires_at : ℕ
  pub reaches_budgets : Bool

abbrev pub view_of : ProjectionEvent → RunView
view_of projection = record {
  run_id = projection.run_id;
  workflow_id = codes projection.workflow_id;
  status = projection.status;
  base_revision = projection.base_revision;
  plan_version = projection.plan_version;
  model_calls = projection.model_calls;
}

-- `uuid5`, the digest of `hashlib`, `model_dump_json` and `str` of an identifier, and the two services.
pub record Services (O W : Type 0) : Type 0 where
  pub uuid5 : ℕ → Text → ℕ
  pub sha256 : Text → Text
  pub model_dump_json : CreateRunRequest → Text
  pub uuid_text : ℕ → Text
  pub storage : ObjectStore O
  pub service : WorkflowService W

module _ {O W : Type 0} (env : Services O W) where
  abbrev pub request_hash : CreateRunRequest → Text
  request_hash request = env.sha256 (env.model_dump_json request)

  -- The view of a run without a projection.
  abbrev pub queued_view : (tenant_id run_id : ℕ) → RunView
  queued_view tenant_id run_id = record {
    run_id = run_id;
    workflow_id = workflow_id_for env.uuid_text tenant_id run_id;
    status = queued;
    base_revision = none;
    plan_version = 0;
    model_calls = 0;
  }

  -- `get` for a run that is owned.
  abbrev pub projected : (tenant_id run_id : ℕ) → Option ProjectionEvent → RunView
  projected tenant_id run_id none = queued_view tenant_id run_id
  projected tenant_id run_id (some projection) = view_of projection

  -- `get`
  unfoldable pub get_run : (tenant_id run_id : ℕ) → State O W → Checked Error RunView
  unfolding require_owned_run get
  get_run tenant_id run_id s = do
    require_owned_run tenant_id run_id s.keys
    accepted (projected tenant_id run_id (get run_id s.projections))

  abbrev pub workflow_input :
      (tenant_id run_id : ℕ) → CreateRunRequest → ArtifactRef → WorkflowInput
  workflow_input tenant_id run_id request request_ref = record {
    run_id = run_id;
    tenant_id = tenant_id;
    create_request_ref = record {
      artifact_id = request_ref.artifact_id;
      run_id = request_ref.run_id;
    };
    risk_level = request.risk_level;
    approval_policy = request.approval_policy;
    developer_agent_mode = true;
    planner_agent_mode = true;
    investigator_agent_mode = true;
    shared_blackboard_enabled = true;
    reviewer_agent_mode = true;
    scope_expansion_enabled = true;
    auto_approve_low_risk = none;
  }

  abbrev pub mark : (tenant_id : ℕ) (key : Text) → KeyStatus → ArtifactRef → State O W → State O W
  mark tenant_id key status request_ref s = record s {
    keys = set_idempotency_status tenant_id key status request_ref.artifact_id s.keys;
  }

  -- The end of `create`, behind `start_code_repair_workflow`.
  unfoldable pub conclude :
      (tenant_id : ℕ) (key : Text)
      → ArtifactRef
      → State O W
      → StartAnswer
      → State O W × Checked Error RunView
  unfolding set_idempotency_status
  conclude tenant_id key request_ref s start_failed =
      (mark tenant_id key failed request_ref s, refused run_unavailable)
  conclude tenant_id key request_ref s _ = (
    mark tenant_id key started request_ref s,
    accepted (queued_view tenant_id (env.uuid5 tenant_id key)),
  )

  -- Its part behind `create_budget`.
  unfoldable pub launch :
      (tenant_id : ℕ)
      → CreateRunRequest
      → (key : Text) → ArtifactRef
      → State O W
      → Result Budget.Store
      → State O W × Checked Error RunView
  unfolding conclude
  launch tenant_id request key request_ref s (err reason) =
      (mark tenant_id key failed request_ref s, refused run_unavailable)
  launch tenant_id request key request_ref s (ok budgets) =
      let run_id = env.uuid5 tenant_id key in
      let answer =
        env.service.start_workflow (workflow_id_for env.uuid_text tenant_id run_id)
          (workflow_input tenant_id run_id request request_ref) s.workflows in
      conclude tenant_id key request_ref (record s { budgets = budgets; workflows = answer.0 })
        (answer.1)

  -- `create_budget` of the store, if it can be reached.
  abbrev pub reserve_budget :
      Draws → (tenant_id run_id : ℕ) → CreateRunRequest → Budget.Store → Result Budget.Store
  reserve_budget draws tenant_id run_id request budgets =
      if draws.reaches_budgets
      then create_budget run_id tenant_id request.budget.max_cost_usd request.budget.max_model_calls
          budgets
      else err budget_state_error

  -- Its part behind `put_bytes`.
  unfoldable pub provide :
      Draws
      → (tenant_id : ℕ) → CreateRunRequest
      → (key : Text) → State O W
      → Checked Artifacts.Error ArtifactRef
      → State O W × Checked Error RunView
  unfolding launch create_budget
  provide draws tenant_id request key s (refused reason) = (s, refused (artifact_error reason))
  provide draws tenant_id request key s (accepted request_ref) =
      launch tenant_id request key request_ref s
        (reserve_budget draws tenant_id (env.uuid5 tenant_id key) request s.budgets)

  -- The call of `put_bytes`.
  abbrev pub store_request :
      Draws
      → (tenant_id : ℕ) → CreateRunRequest
      → (key : Text) → Artifacts.State O
      → Artifacts.State O × Checked Artifacts.Error ArtifactRef
  store_request draws tenant_id request key =
      put_bytes env.sha256 env.uuid_text env.storage draws.artifact_id draws.created_at
        create_run_request (env.model_dump_json request)
        (record {
          tenant_id = tenant_id;
          run_id = env.uuid5 tenant_id key;
          base_revision = none;
          schema_version = "1";
          input_artifact_ids = [];
        })

  -- The part of `create` for a key whose run is not started.
  unfoldable pub submit :
      Draws
      → (tenant_id : ℕ) → CreateRunRequest
      → (key : Text) → State O W
      → State O W × Checked Error RunView
  unfolding provide put_bytes
  submit draws tenant_id request key s =
      let stored = store_request draws tenant_id request key s.artifacts in
      provide draws tenant_id request key (record s { artifacts = stored.0 }) (stored.1)

  -- Its part behind `_reserve_idempotency_key`.
  unfoldable pub proceed :
      Draws
      → (tenant_id : ℕ) → CreateRunRequest
      → (key : Text) → State O W
      → Checked Error IdempotencyKey
      → State O W × Checked Error RunView
  unfolding submit get_run
  proceed draws tenant_id request key s (refused reason) = (s, refused reason)
  proceed draws tenant_id request key s (accepted row) =
      let fresh = submit draws tenant_id request key s in
      if is_started row.status then (s, get_run tenant_id row.run_id s) else fresh

  -- `create` behind the insertion of the key.
  unfoldable pub reserved :
      Draws
      → (tenant_id : ℕ) → CreateRunRequest
      → (key : Text) → State O W
      → Checked Error (List IdempotencyKey)
      → State O W × Checked Error RunView
  unfolding proceed check_record find_key
  reserved draws tenant_id request key s (refused reason) = (s, refused reason)
  reserved draws tenant_id request key s (accepted rows) =
      proceed draws tenant_id request key (record s { keys = rows })
        (check_record (request_hash request) (find_key tenant_id key rows))

  -- `create`
  unfoldable pub create :
      Draws
      → (tenant_id : ℕ) → CreateRunRequest
      → (key : Text) → State O W
      → State O W × Checked Error RunView
  unfolding reserved insert_key
  create draws tenant_id request key s = reserved draws tenant_id request key s (
      insert_key
        (new_key tenant_id key (request_hash request) (env.uuid5 tenant_id key) draws.expires_at)
        s.keys)

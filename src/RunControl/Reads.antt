-- ===== src/RunControl/Reads.antt =====
-- The other operations of `PostgresTemporalRunControl` in src/repopilot/infrastructure/run_control.py: the
-- messages to a run, and the reads.
use acoding_agent.Prelude.{
  ℕ, ◌==◌, leb, Bool, true, false, ◌&&◌, Option, none, some, List, [], ◌∷◌, map, take, codes,
  if◌then◌else◌,
}
use acoding_agent.Prelude.Checked.{Checked, accepted, refused, ◌>>=◌, ◌>>◌, found_or}
use acoding_agent.Run.Approvals.{ApprovalRequest}
use acoding_agent.Projection.Store.{RunProjection, AuditEvent}
use acoding_agent.Artifacts.Refs.{Artifact, row_to_ref}
use acoding_agent.Artifacts.Store.{get_bytes, checked_ref}
use acoding_agent.Artifacts.Store as Artifacts
use acoding_agent.RunControl.Records.{
  Error, run_not_found, run_unavailable, artifact_error, RunView, RunEventView, ArtifactView,
  ArtifactDownload, workflow_id_for,
}
use acoding_agent.RunControl.Keys.{require_owned_run}
use acoding_agent.RunControl.Control.{Services, State}

abbrev pub on_artifact : {A : Type 0} → Checked Artifacts.Error A → Checked Error A
on_artifact (accepted value) = accepted value
on_artifact (refused reason) = refused (artifact_error reason)

abbrev pub row_view : RunProjection → RunView
row_view row = record {
  run_id = row.run_id;
  workflow_id = codes row.workflow_id;
  status = row.status;
  base_revision = row.base_revision;
  plan_version = row.plan_version;
  model_calls = row.model_calls;
}

abbrev pub event_view : AuditEvent → RunEventView
event_view row = record {
  event_id = row.event_id;
  status = row.status;
  sequence = row.sequence;
  created_at = row.created_at;
}

-- `_artifact_view`
abbrev pub artifact_view : Artifact → ArtifactView
artifact_view row = record {
  artifact_id = row.artifact_id;
  run_id = row.run_id;
  kind = row.kind;
  schema_version = row.schema_version;
  sha256 = row.sha256;
  size_bytes = row.size_bytes;
  base_revision = row.base_revision;
  created_at = row.created_at;
}

-- The rows that a query selects.
unfoldable pub select_rows : {A : Type 0} → (A → Bool) → List A → List A
select_rows p [] = []
select_rows p (x ∷ xs) = let rest = select_rows p xs in if p x then x ∷ rest else rest

-- `order_by`: a row stands behind those that come before it.
unfoldable pub insert_by : {A : Type 0} → (before : A → A → Bool) → A → List A → List A
insert_by before x [] = x ∷ []
insert_by before x (y ∷ ys) =
    let rest = insert_by before x ys in if before y x then y ∷ rest else x ∷ y ∷ ys

unfoldable pub order_by : {A : Type 0} → (before : A → A → Bool) → List A → List A
unfolding insert_by
order_by before [] = []
order_by before (x ∷ xs) = insert_by before x (order_by before xs)

-- Two columns, the second of which decides between equals.
abbrev pub first_by : (time time' id id' : ℕ) → Bool
first_by time time' id id' = if time == time' then leb id id' else leb time time'

unfoldable pub find_artifact : (tenant_id artifact_id : ℕ) → List Artifact → Option Artifact
find_artifact tenant_id artifact_id [] = none
find_artifact tenant_id artifact_id (row ∷ rows) =
    if row.tenant_id == tenant_id && row.artifact_id == artifact_id
    then some row
    else find_artifact tenant_id artifact_id rows

module _ {O W : Type 0} (env : Services O W) where
  -- `list_runs`: the newest first.
  unfoldable pub list_runs : (tenant_id limit : ℕ) → State O W → List RunView
  unfolding select_rows order_by
  list_runs tenant_id limit s = map row_view (
      take limit (
        order_by (λ a b. first_by b.created_at a.created_at b.run_id a.run_id)
          (select_rows (λ row. row.tenant_id == tenant_id) s.projections.projections)))

  abbrev pub sent : W × Bool → State O W → State O W × Checked Error (Unit {0})
  sent (w, true) s = (record s { workflows = w }, accepted tt)
  sent (w, false) s = (record s { workflows = w }, refused run_unavailable)

  abbrev pub if_owned :
      Checked Error (Unit {0})
      → (State O W → State O W × Checked Error (Unit {0}))
      → State O W
      → State O W × Checked Error (Unit {0})
  if_owned (refused reason) next s = (s, refused reason)
  if_owned (accepted _) next s = next s

  -- `approve`
  unfoldable pub approve :
      (tenant_id run_id : ℕ) → ApprovalRequest → State O W → State O W × Checked Error (Unit {0})
  unfolding require_owned_run
  approve tenant_id run_id approval s =
      if_owned (require_owned_run tenant_id run_id s.keys)
        (λ s.
          sent
            (env.service.execute_update (workflow_id_for env.uuid_text tenant_id run_id) approval
              s.workflows)
            s)
        s

  -- `cancel`
  unfoldable pub cancel : (tenant_id run_id : ℕ) → State O W → State O W × Checked Error (Unit {0})
  unfolding require_owned_run
  cancel tenant_id run_id s =
      if_owned (require_owned_run tenant_id run_id s.keys)
        (λ s.
          sent
            (env.service.cancel_workflow (workflow_id_for env.uuid_text tenant_id run_id)
              s.workflows)
            s)
        s

  -- `list_events`
  unfoldable pub list_events :
      (tenant_id run_id : ℕ) → State O W → Checked Error (List RunEventView)
  unfolding require_owned_run select_rows order_by
  list_events tenant_id run_id s = do
    require_owned_run tenant_id run_id s.keys
    accepted (
        map event_view (
          order_by (λ a b. first_by a.created_at b.created_at a.event_id b.event_id)
            (select_rows (λ row. row.tenant_id == tenant_id && row.run_id == run_id)
              s.projections.audit_events)))

  -- `list_artifacts`
  unfoldable pub list_artifacts :
      (tenant_id run_id : ℕ) → State O W → Checked Error (List ArtifactView)
  unfolding require_owned_run select_rows order_by
  list_artifacts tenant_id run_id s = do
    require_owned_run tenant_id run_id s.keys
    accepted (
        map artifact_view (
          order_by (λ a b. first_by a.created_at b.created_at a.artifact_id b.artifact_id)
            (select_rows (λ row. row.tenant_id == tenant_id && row.run_id == run_id)
              s.artifacts.artifacts)))

  -- `download_artifact`
  unfoldable pub download_artifact :
      (tenant_id artifact_id : ℕ) → State O W → Checked Error ArtifactDownload
  unfolding require_owned_run find_artifact get_bytes checked_ref
  download_artifact tenant_id artifact_id s = do
    row ← found_or run_not_found (find_artifact tenant_id artifact_id s.artifacts.artifacts)
    require_owned_run tenant_id row.run_id s.keys
    ref ← on_artifact (checked_ref (row_to_ref row []))
    content ← on_artifact (
        get_bytes env.sha256 env.uuid_text env.storage ref
          (record { tenant_id = tenant_id; run_id = row.run_id; role = none; service = "api" })
          s.artifacts)
    accepted (record { artifact = artifact_view row; content = content })

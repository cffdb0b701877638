-- ===== src/Projection/Store.antt =====
-- The tables `run_projections` and `audit_events`, with `apply` and `get` of
-- src/repopilot/infrastructure/db/run_projection.py and the unique columns of infrastructure/db/models.py.
-- An event is applied in one transaction: an error leaves the tables as they were.
use acoding_agent.Prelude.{
  ℕ, String, Bool, Option, none, some, List, [], ◌∷◌, ◌==◌, any, if◌then◌else◌,
}
use acoding_agent.Prelude.Checked.{Checked, accepted, refused, ◌>>=◌}
use text.Mathlib.Text.{◌==◌ as str_eq}
use acoding_agent.Domain.Enums.{RunStatus, is_terminal}
use acoding_agent.Run.World.{ProjectionEvent}

pub record RunProjection : Type 0 where
  pub run_id : ℕ
  pub tenant_id : ℕ
  pub workflow_id : String
  pub status : RunStatus
  pub base_revision : Option String
  pub plan_version : ℕ
  pub model_calls : ℕ
  pub created_at : ℕ
  pub updated_at : ℕ
  pub terminal_at : Option ℕ

-- The type and the actor of the events are constants of the source.
pub record AuditEvent : Type 0 where
  pub event_id : ℕ
  pub tenant_id : ℕ
  pub run_id : ℕ
  pub status : RunStatus
  pub sequence : ℕ
  pub created_at : ℕ

pub record Tables : Type 0 where
  pub projections : List RunProjection
  pub audit_events : List AuditEvent

abbrev pub projection_of : ProjectionEvent → RunProjection
projection_of e = record {
  run_id = e.run_id;
  tenant_id = e.tenant_id;
  workflow_id = e.workflow_id;
  status = e.status;
  base_revision = e.base_revision;
  plan_version = e.plan_version;
  model_calls = e.model_calls;
  created_at = e.occurred_at;
  updated_at = e.occurred_at;
  terminal_at = if is_terminal e.status then some e.occurred_at else none;
}

-- The `set_` of `on_conflict_do_update`.
abbrev pub overwrite : RunProjection → RunProjection → RunProjection
overwrite excluded row = record row {
  status = excluded.status;
  base_revision = excluded.base_revision;
  plan_version = excluded.plan_version;
  model_calls = excluded.model_calls;
  updated_at = excluded.updated_at;
  terminal_at = excluded.terminal_at;
}

pub data Error : Type 0 where
  integrity_error : Error

-- `unique=True` of the column `workflow_id`.
abbrev pub is_taken : String → List RunProjection → Bool
is_taken workflow_id rows = any (λ row. str_eq row.workflow_id workflow_id) rows

abbrev pub has_run : ℕ → List RunProjection → Bool
has_run run_id rows = any (λ row. row.run_id == run_id) rows

-- `on_conflict_do_update` at the row of the run.
unfoldable pub update_row : RunProjection → List RunProjection → List RunProjection
update_row new [] = []
update_row new (row ∷ rows) =
    if row.run_id == new.run_id then overwrite new row ∷ rows else row ∷ update_row new rows

-- The statement: a run with a row keeps its workflow id, and a new row needs a free one.
unfoldable pub upsert : RunProjection → List RunProjection → Checked Error (List RunProjection)
unfolding update_row
upsert new rows =
    if has_run new.run_id rows
    then accepted (update_row new rows)
    else if is_taken new.workflow_id rows
    then refused Error.integrity_error
    else accepted (new ∷ rows)

unfoldable pub find_projection : ℕ → List RunProjection → Option RunProjection
find_projection run_id [] = none
find_projection run_id (row ∷ rows) =
    if row.run_id == run_id then some row else find_projection run_id rows

-- `on_conflict_do_nothing`
abbrev pub add_audit : AuditEvent → List AuditEvent → List AuditEvent
add_audit new events = if any (λ e. e.event_id == new.event_id) events then events else new ∷ events

-- `uuid5` of the run with the text of sequence and status.
module _ (event_id : (run_id sequence : ℕ) → RunStatus → ℕ) where
  abbrev pub audit_of : ProjectionEvent → AuditEvent
  audit_of e = record {
    event_id = event_id e.run_id e.sequence e.status;
    tenant_id = e.tenant_id;
    run_id = e.run_id;
    status = e.status;
    sequence = e.sequence;
    created_at = e.occurred_at;
  }

  unfoldable pub apply : ProjectionEvent → Tables → Checked Error Tables
  unfolding upsert
  apply e t = do
    projections ← upsert (projection_of e) t.projections
    accepted
        (record { projections = projections; audit_events = add_audit (audit_of e) t.audit_events })

-- The sequence is not stored.
abbrev pub event_of : RunProjection → ProjectionEvent
event_of row = record {
  run_id = row.run_id;
  tenant_id = row.tenant_id;
  workflow_id = row.workflow_id;
  status = row.status;
  base_revision = row.base_revision;
  plan_version = row.plan_version;
  model_calls = row.model_calls;
  sequence = 0;
  occurred_at = row.updated_at;
}

unfoldable pub get : ℕ → Tables → Option ProjectionEvent
get run_id t = elim (find_projection run_id t.projections) [
  | none ↦ none
  | some row ↦ some (event_of row)
]

-- ===== src/Projection/Tests.antt =====
-- The theorems on projections at one event and tables with another run.
use acoding_agent.Prelude.{ℕ, ◌+◌, ◌≡◌, ◌⊎◌, refl, true, false, some, [], ◌∷◌}
use acoding_agent.Prelude.Checked.{accepted, refused, ◌>>=◌}
use acoding_agent.Domain.Enums.{RunStatus}
use acoding_agent.Run.World.{ProjectionEvent}
use acoding_agent.Projection.Store.{Error, Tables, projection_of, audit_of, apply, get}
use acoding_agent.Projection.Reads.{conflicts, apply-apply, get-apply}

abbrev event : ProjectionEvent
event = record {
  run_id = 7;
  tenant_id = 8;
  workflow_id = "w";
  status = RunStatus.planning;
  base_revision = some "base";
  plan_version = 0;
  model_calls = 0;
  sequence = 3;
  occurred_at = 50;
}

abbrev tables : Tables
tables = record {
  projections = projection_of (record event { run_id = 6; workflow_id = "v" }) ∷ [];
  audit_events = [];
}

abbrev numbered : ℕ → ℕ → RunStatus → ℕ
numbered run_id sequence status = run_id + sequence

abbrev applied : Tables
applied = record {
  projections =
      projection_of event ∷ projection_of (record event { run_id = 6; workflow_id = "v" }) ∷ [];
  audit_events = audit_of numbered event ∷ [];
}

applies : apply numbered event tables ≡ accepted applied
unfolding apply ◌>>=◌
applies = refl

-- The workflow id of run 7 under another run.
conflict : apply numbered (record event { run_id = 9 }) applied ≡ refused Error.integrity_error
unfolding apply ◌>>=◌
conflict = refl

-- The row of a run keeps its workflow id.
keeps_workflow_id : apply numbered (record event { workflow_id = "v" }) applied ≡ accepted applied
unfolding apply ◌>>=◌
keeps_workflow_id = refl

apply-apply_example : apply numbered event applied ≡ accepted applied
apply-apply_example = apply-apply numbered event tables applied applies

get-apply_example :
    ((conflicts event tables ≡ true)
      × (apply numbered event tables ≡ refused Error.integrity_error))
    ⊎ ((conflicts event tables ≡ false)
        × ((t' : Tables) × (apply numbered event tables ≡ accepted t')
            × ((x : ProjectionEvent) × (get 7 t' ≡ some x)
                × (x.status ≡ RunStatus.planning)
                × (x.base_revision ≡ some "base")
                × (x.occurred_at ≡ 50))
            × (get 6 t' ≡ get 6 tables)))
get-apply_example = get-apply numbered event tables 6 (λ h. cc)

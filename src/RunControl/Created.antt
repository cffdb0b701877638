-- ===== src/RunControl/Created.antt =====
-- What `create` leaves in the table `idempotency_keys`, by its branches.
use acoding_agent.Prelude.{
  ℕ, ◌≡◌, refl, sym, ap, ◌∙◌, true, false, Option, none, some, List, [], ◌∷◌, Text, text_eq, arith,
}
use acoding_agent.Prelude.Checked.{
  Checked, accepted, refused, ◌>>◌, >>-eq-accepted, accepted-injective,
}
use acoding_agent.Domain.Tasks.{CreateRunRequest}
use acoding_agent.Budget.Store.{Result, ok, err}
use acoding_agent.Budget.Store as Budget
use acoding_agent.Projection.Store.{RunProjection, find_projection, event_of, get}
use acoding_agent.Projection.Store as Projection
use acoding_agent.Artifacts.Refs.{ArtifactRef}
use acoding_agent.Artifacts.Store as Artifacts
use acoding_agent.RunControl.Records.{
  started, failed, is_started, IdempotencyKey, Error, idempotency_conflict, RunView, StartAnswer,
  begun, already_started, start_failed,
}
use acoding_agent.RunControl.Keys.{find_key, new_key, check_record, set_idempotency_status}
use acoding_agent.RunControl.Rows.{
  find_key-any, find_key-owns, insert_key-present, check_record-same, check_record-other,
  require_owned_run-owned,
}
use acoding_agent.RunControl.Control.{
  Services, State, Draws, request_hash, projected, get_run, conclude, launch, provide, submit,
  proceed, reserved, create,
}

find_projection-run_id :
    (run_id : ℕ) (rows : List RunProjection) (row : RunProjection)
    → find_projection run_id rows ≡ some row
    → row.run_id ≡ run_id
unfolding find_projection
find_projection-run_id run_id [] row h = cc
find_projection-run_id run_id (r ∷ rows) row h =
    ground (arith, h, find_projection-run_id run_id rows row)

module _ {O W : Type 0} (env : Services O W) where
  abbrev pub Outcome : Type 0
  Outcome = State O W × Checked Error RunView

  abbrev pub create' : Draws → ℕ → CreateRunRequest → Text → State O W → Outcome
  create' = create env

  abbrev pub submit' : Draws → ℕ → CreateRunRequest → Text → State O W → Outcome
  submit' = submit env

  abbrev pub get' : ℕ → ℕ → State O W → Checked Error RunView
  get' = get_run env

  abbrev pub hash : CreateRunRequest → Text
  hash = request_hash env

  -- An answer with what it does to the row of the key.
  pub data Effect (tenant_id : ℕ) (key : Text) (rows : List IdempotencyKey) (out : Outcome)
      : Type 0 where
    unchanged :
        (reason : Error)
        → out.1 ≡ refused reason
        → out.0.keys ≡ rows
        → Effect tenant_id key rows out
    marked_failed :
        (reason : Error) (artifact : ℕ)
        → out.1 ≡ refused reason
        → out.0.keys ≡ set_idempotency_status tenant_id key failed artifact rows
        → Effect tenant_id key rows out
    marked_started :
        (view : RunView) (artifact : ℕ)
        → out.1 ≡ accepted view
        → view.run_id ≡ env.uuid5 tenant_id key
        → out.0.keys ≡ set_idempotency_status tenant_id key started artifact rows
        → Effect tenant_id key rows out

  conclude-Effect :
      (tenant_id : ℕ) (key : Text) (ref : ArtifactRef) (s : State O W) (answer : StartAnswer)
      → Effect tenant_id key s.keys (conclude env tenant_id key ref s answer)
  unfolding conclude
  conclude-Effect tenant_id key ref s begun = marked_started _ _ refl refl refl
  conclude-Effect tenant_id key ref s already_started = marked_started _ _ refl refl refl
  conclude-Effect tenant_id key ref s start_failed = marked_failed _ _ refl refl

  launch-Effect :
      (tenant_id : ℕ) (request : CreateRunRequest) (key : Text) (ref : ArtifactRef) (s : State O W)
      (r : Result Budget.Store)
      → Effect tenant_id key s.keys (launch env tenant_id request key ref s r)
  unfolding launch
  launch-Effect tenant_id request key ref s (err reason) = marked_failed _ _ refl refl
  launch-Effect tenant_id request key ref s (ok budgets) = conclude-Effect tenant_id key ref _ _

  provide-Effect :
      (draws : Draws) (tenant_id : ℕ) (request : CreateRunRequest) (key : Text) (s : State O W)
      (r : Checked Artifacts.Error ArtifactRef)
      → Effect tenant_id key s.keys (provide env draws tenant_id request key s r)
  unfolding provide
  provide-Effect draws tenant_id request key s (refused reason) = unchanged _ refl refl
  provide-Effect draws tenant_id request key s (accepted ref) =
      launch-Effect tenant_id request key ref s _

  pub submit-Effect :
      (draws : Draws) (tenant_id : ℕ) (request : CreateRunRequest) (key : Text) (s : State O W)
      → Effect tenant_id key s.keys (submit' draws tenant_id request key s)
  unfolding submit
  submit-Effect draws tenant_id request key s = provide-Effect draws tenant_id request key _ _

  -- A key that is there is not inserted again.
  create-known :
      (draws : Draws) (tenant_id : ℕ) (request : CreateRunRequest) (key : Text) (s : State O W)
      (row : IdempotencyKey)
      → find_key tenant_id key s.keys ≡ some row
      → create' draws tenant_id request key s
        ≡ proceed env draws tenant_id request key s (check_record (hash request) (some row))
  unfolding create reserved
  create-known draws tenant_id request key s row f =
      let new = new_key tenant_id key (hash request) (env.uuid5 tenant_id key) draws.expires_at in
      rw (insert_key-present new s.keys (find_key-any tenant_id key s.keys row f), f) refl

  projected_run_id :
      (tenant_id run_id : ℕ) (found : Option RunProjection)
      → ((row : RunProjection) → found ≡ some row → row.run_id ≡ run_id)
      → (projected env tenant_id run_id
          (elim found [ none ↦ none | some row ↦ some (event_of row) ])).run_id
        ≡ run_id
  projected_run_id tenant_id run_id none h = refl
  projected_run_id tenant_id run_id (some row) h = h row refl

  -- The view of a run has the run's identifier.
  pub projected-run_id :
      (tenant_id run_id : ℕ) (t : Projection.Tables)
      → (projected env tenant_id run_id (get run_id t)).run_id ≡ run_id
  unfolding get
  projected-run_id tenant_id run_id t =
      projected_run_id tenant_id run_id (find_projection run_id t.projections)
        (λ row h. find_projection-run_id run_id t.projections row h)

  pub get_run-run_id :
      (tenant_id run_id : ℕ) (s : State O W) (view : RunView)
      → get' tenant_id run_id s ≡ accepted view
      → view.run_id ≡ run_id
  unfolding get_run
  get_run-run_id tenant_id run_id s view h =
      let (owned, e) = >>-eq-accepted h in
      ap (λ x. x.run_id) (accepted-injective (sym e))
      ∙ projected-run_id tenant_id run_id s.projections

  -- The run of a row is there for its tenant.
  pub get_run-owned :
      (tenant_id : ℕ) (key : Text) (s : State O W) (row : IdempotencyKey)
      → find_key tenant_id key s.keys ≡ some row
      → get' tenant_id row.run_id s
        ≡ accepted (projected env tenant_id row.run_id (get row.run_id s.projections))
  unfolding get_run ◌>>◌
  get_run-owned tenant_id key s row f =
      rw
        (require_owned_run-owned tenant_id row.run_id s.keys
          (find_key-owns tenant_id key s.keys row f))
        refl

  -- The same request for a key whose run is started.
  pub create-started :
      (draws : Draws) (tenant_id : ℕ) (request : CreateRunRequest) (key : Text) (s : State O W)
      (row : IdempotencyKey)
      → find_key tenant_id key s.keys ≡ some row
      → row.request_sha256 ≡ hash request
      → is_started row.status ≡ true
      → create' draws tenant_id request key s
        ≡ (s, accepted (projected env tenant_id row.run_id (get row.run_id s.projections)))
  unfolding proceed
  create-started draws tenant_id request key s row f same st =
      create-known draws tenant_id request key s row f
      ∙ rw (check_record-same (hash request) row same, st, get_run-owned tenant_id key s row f) refl

  -- Another request for a key that is there.
  pub create-conflict :
      (draws : Draws) (tenant_id : ℕ) (request : CreateRunRequest) (key : Text) (s : State O W)
      (row : IdempotencyKey)
      → find_key tenant_id key s.keys ≡ some row
      → text_eq row.request_sha256 (hash request) ≡ false
      → create' draws tenant_id request key s ≡ (s, refused idempotency_conflict)
  unfolding proceed
  create-conflict draws tenant_id request key s row f differ =
      create-known draws tenant_id request key s row f
      ∙ rw (check_record-other (hash request) row differ) refl

  -- The same request for a key whose run is not started.
  pub create-unstarted :
      (draws : Draws) (tenant_id : ℕ) (request : CreateRunRequest) (key : Text) (s : State O W)
      (row : IdempotencyKey)
      → find_key tenant_id key s.keys ≡ some row
      → row.request_sha256 ≡ hash request
      → is_started row.status ≡ false
      → create' draws tenant_id request key s ≡ submit' draws tenant_id request key s
  unfolding proceed
  create-unstarted draws tenant_id request key s row f same st =
      create-known draws tenant_id request key s row f
      ∙ rw (check_record-same (hash request) row same, st) refl

-- ===== src/RunControl/Started.antt =====
-- The executions behind any sequence of requests.
use acoding_agent.Prelude.{
  ℕ, ◌≡◌, refl, sym, subst, Bool, true, false, List, [], ◌∷◌, All, Text, Bool-cases, inl, inr,
  arith,
}
use acoding_agent.Prelude.Checked.{Checked, accepted, refused}
use acoding_agent.Domain.Tasks.{CreateRunRequest}
use acoding_agent.Run.World.{WorkflowInput}
use acoding_agent.Budget.Store.{create_budget, Result, ok, err}
use acoding_agent.Budget.Store as Budget
use acoding_agent.Artifacts.Refs.{ArtifactRef}
use acoding_agent.Artifacts.Store as Artifacts
use acoding_agent.RunControl.Records.{
  KeyStatus, failed, started, is_started, IdempotencyKey, Error, StartAnswer, begun,
  already_started, start_failed, workflow_id_for,
}
use acoding_agent.RunControl.Keys.{new_key, insert_key, require_owned_run}
use acoding_agent.RunControl.Rows.{insert_key-find, insert_key-found}
use acoding_agent.RunControl.Control.{
  Services, State, Draws, mark, workflow_input, reserve_budget, conclude, launch, provide, submit,
  proceed, reserved, create,
}
use acoding_agent.RunControl.Reads.{sent, if_owned, approve, cancel}
use acoding_agent.RunControl.Created.{Outcome, hash}
use acoding_agent.RunControl.Keyed.{Request, creates, approves, cancels, projects, serve, serve_all}
use acoding_agent.RunControl.Backed.{
  HasRow, HasBudget, KeepsRows, set-KeepsRows, create_budget-keeps, IsBacked, IsBacked-keeps,
  IsDistinct,
}

module _ {O W : Type 0} (env : Services O W) where
  abbrev Out : Type 0
  Out = Outcome env

  -- No execution was started twice, and each has its key and its budget.
  abbrev pub IsSound : State O W → Type 0
  IsSound s =
      IsDistinct (env.service.executions s.workflows)
      × All (IsBacked env.uuid5 env.uuid_text s.keys s.budgets) (env.service.executions s.workflows)

  -- New tables that keep the rows of the old ones.
  IsSound-keeps :
      (s s' : State O W)
      → s'.workflows ≡ s.workflows
      → KeepsRows s.keys s'.keys
      → ((run_id : ℕ) → HasBudget run_id s.budgets → HasBudget run_id s'.budgets)
      → IsSound s
      → IsSound s'
  IsSound-keeps s s' same rows budgets (distinct, backed) = (
    subst (λ w. IsDistinct (env.service.executions w)) (sym same) distinct,
    subst
        (λ w. All (IsBacked env.uuid5 env.uuid_text s'.keys s'.budgets) (env.service.executions w))
        (sym same)
        (IsBacked-keeps env.uuid5 env.uuid_text s.keys s'.keys s.budgets s'.budgets
          (env.service.executions s.workflows) rows budgets backed),
  )

  mark-IsSound :
      (tenant_id : ℕ) (key : Text) (status : KeyStatus) (ref : ArtifactRef) (s : State O W)
      → IsSound s
      → IsSound (mark env tenant_id key status ref s)
  mark-IsSound tenant_id key status ref s =
      IsSound-keeps s (mark env tenant_id key status ref s) refl
        (set-KeepsRows tenant_id key status ref.artifact_id s.keys) (λ run_id there. there)

  conclude-IsSound :
      (tenant_id : ℕ) (key : Text) (ref : ArtifactRef) (s : State O W) (answer : StartAnswer)
      → IsSound s
      → IsSound (conclude env tenant_id key ref s answer).0
  unfolding conclude
  conclude-IsSound tenant_id key ref s begun = mark-IsSound tenant_id key started ref s
  conclude-IsSound tenant_id key ref s already_started = mark-IsSound tenant_id key started ref s
  conclude-IsSound tenant_id key ref s start_failed = mark-IsSound tenant_id key failed ref s

  -- A start under a key with a budget.
  start-IsSound :
      (tenant_id : ℕ) (key : Text) (input : WorkflowInput) (s : State O W)
      → HasRow tenant_id key s.keys
      → HasBudget (env.uuid5 tenant_id key) s.budgets
      → IsSound s
      → IsSound (record s {
        workflows =
            (env.service.start_workflow
              (workflow_id_for env.uuid_text tenant_id (env.uuid5 tenant_id key))
              input
              s.workflows).0;
      })
  start-IsSound tenant_id key input s row budget (distinct, backed) =
      let id = workflow_id_for env.uuid_text tenant_id (env.uuid5 tenant_id key) in
      let answer = env.service.start_workflow id input s.workflows in
      elim (env.service.start-adds id input s.workflows (answer.0) (answer.1) refl) [
        | inl same ↦ (
          subst IsDistinct (sym same) distinct,
          subst (All (IsBacked env.uuid5 env.uuid_text s.keys s.budgets)) (sym same) backed,
        )
        | inr (new, added) ↦ (
          subst IsDistinct (sym added) (new, distinct),
          subst (All (IsBacked env.uuid5 env.uuid_text s.keys s.budgets)) (sym added) (
            record {
              tenant_id = tenant_id;
              key = key;
              its_id = refl;
              its_row = row;
              its_budget = budget;
            },
            backed,
          ),
        )
      ]

  launch-IsSound :
      (draws : Draws) (tenant_id : ℕ) (request : CreateRunRequest) (key : Text) (ref : ArtifactRef)
      (s : State O W) (r : Result Budget.Store)
      → reserve_budget env draws tenant_id (env.uuid5 tenant_id key) request s.budgets ≡ r
      → HasRow tenant_id key s.keys
      → IsSound s
      → IsSound (launch env tenant_id request key ref s r).0
  unfolding launch
  launch-IsSound draws tenant_id request key ref s (err reason) h row sound =
      mark-IsSound tenant_id key failed ref s sound
  launch-IsSound draws tenant_id request key ref s (ok budgets) h row sound =
      let made : create_budget (env.uuid5 tenant_id key) tenant_id request.budget.max_cost_usd
            request.budget.max_model_calls s.budgets
          ≡ ok budgets =
        elim (Bool-cases draws.reaches_budgets) [
          | inl there ↦ ground (arith, h, there)
          | inr away ↦ absurd (ground (arith, h, away))
        ] in
      let (its, keeps) = create_budget-keeps _ tenant_id _ _ s.budgets budgets made in
      conclude-IsSound tenant_id key ref _ _ (
        start-IsSound tenant_id key
          (workflow_input env tenant_id (env.uuid5 tenant_id key) request ref)
          (record s { budgets = budgets }) row its
          (IsSound-keeps s (record s { budgets = budgets }) refl (λ t k there. there) keeps sound))

  provide-IsSound :
      (draws : Draws) (tenant_id : ℕ) (request : CreateRunRequest) (key : Text) (s : State O W)
      (r : Checked Artifacts.Error ArtifactRef)
      → HasRow tenant_id key s.keys
      → IsSound s
      → IsSound (provide env draws tenant_id request key s r).0
  unfolding provide
  provide-IsSound draws tenant_id request key s (refused reason) row sound = sound
  provide-IsSound draws tenant_id request key s (accepted ref) row sound =
      launch-IsSound draws tenant_id request key ref s _ refl row sound

  proceed-IsSound :
      (draws : Draws) (tenant_id : ℕ) (request : CreateRunRequest) (key : Text) (s : State O W)
      (r : Checked Error IdempotencyKey)
      → HasRow tenant_id key s.keys
      → IsSound s
      → IsSound (proceed env draws tenant_id request key s r).0
  unfolding proceed submit
  proceed-IsSound draws tenant_id request key s (refused reason) row sound = sound
  proceed-IsSound draws tenant_id request key s (accepted found) row sound =
      elim (Bool-cases (is_started found.status)) [
        | inl st ↦ rw st sound
        | inr not_yet ↦ rw not_yet (provide-IsSound draws tenant_id request key _ _ row sound)
      ]

  reserved-IsSound :
      (draws : Draws) (tenant_id : ℕ) (request : CreateRunRequest) (key : Text) (s : State O W)
      (r : Checked Error (List IdempotencyKey))
      → insert_key
          (new_key tenant_id key (hash env request) (env.uuid5 tenant_id key) draws.expires_at)
          s.keys
        ≡ r
      → IsSound s
      → IsSound (reserved env draws tenant_id request key s r).0
  unfolding reserved
  reserved-IsSound draws tenant_id request key s (refused reason) h sound = sound
  reserved-IsSound draws tenant_id request key s (accepted rows) h sound =
      proceed-IsSound draws tenant_id request key (record s { keys = rows }) _
        (insert_key-found _ s.keys rows h)
        (IsSound-keeps s (record s { keys = rows }) refl
          (λ t k (row, f). (row, insert_key-find _ s.keys rows t k row h f)) (λ run_id there. there)
          sound)

  create-IsSound :
      (draws : Draws) (tenant_id : ℕ) (request : CreateRunRequest) (key : Text) (s : State O W)
      → IsSound s
      → IsSound (create env draws tenant_id request key s).0
  unfolding create
  create-IsSound draws tenant_id request key s =
      reserved-IsSound draws tenant_id request key s _ refl

  -- A message that changes no executions.
  sent-IsSound :
      (answer : W × Bool) (s : State O W)
      → env.service.executions (answer.0) ≡ env.service.executions s.workflows
      → IsSound s
      → IsSound (sent env answer s).0
  sent-IsSound (w, true) s same (distinct, backed) = (
    subst IsDistinct (sym same) distinct,
    subst (All (IsBacked env.uuid5 env.uuid_text s.keys s.budgets)) (sym same) backed,
  )
  sent-IsSound (w, false) s same (distinct, backed) = (
    subst IsDistinct (sym same) distinct,
    subst (All (IsBacked env.uuid5 env.uuid_text s.keys s.budgets)) (sym same) backed,
  )

  if_owned-IsSound :
      (r : Checked Error (Unit {0})) (next : State O W → State O W × Checked Error (Unit {0}))
      (s : State O W)
      → IsSound (next s).0
      → IsSound s
      → IsSound (if_owned env r next s).0
  if_owned-IsSound (refused reason) next s h sound = sound
  if_owned-IsSound (accepted _) next s h sound = h

  serve-IsSound : (r : Request) (s : State O W) → IsSound s → IsSound (serve env r s)
  unfolding serve approve cancel
  serve-IsSound (creates draws tenant_id request key) s sound =
      create-IsSound draws tenant_id request key s sound
  serve-IsSound (approves tenant_id run_id approval) s sound =
      if_owned-IsSound (require_owned_run tenant_id run_id s.keys) _ s
        (sent-IsSound _ s (env.service.update-executions _ approval s.workflows) sound) sound
  serve-IsSound (cancels tenant_id run_id) s sound =
      if_owned-IsSound (require_owned_run tenant_id run_id s.keys) _ s
        (sent-IsSound _ s (env.service.cancel-executions _ s.workflows) sound) sound
  serve-IsSound (projects tables) s sound = sound

  -- Whatever is requested, of whatever tenants and however the services answer: no execution is started
  -- twice, and each that there is has the identifier of the run that some key derives, with the row of
  -- the key and the budget of the run in the tables. This holds of the tables to begin with.
  pub serve_all-IsSound :
      (requests : List Request) (s : State O W) → IsSound s → IsSound (serve_all env requests s)
  unfolding serve_all
  serve_all-IsSound [] s sound = sound
  serve_all-IsSound (r ∷ requests) s sound = serve_all-IsSound requests _ (serve-IsSound r s sound)

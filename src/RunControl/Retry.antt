-- ===== src/RunControl/Retry.antt =====
-- A request that was refused because a service was not available, repeated.
use acoding_agent.Prelude.{
  ℕ, ◌≡◌, ◌≢◌, ◌<◌, refl, sym, ap, ◌∙◌, subst, ◌==◌, true, false, ◌||◌, ◌∷◌, Text, mem_text,
  Option-cases, inl, inr, arith,
}
use acoding_agent.Prelude.Checked.{accepted, refused}
use acoding_agent.Domain.Tasks.{CreateRunRequest}
use acoding_agent.Run.World.{WorkflowInput}
use acoding_agent.Budget.Store.{find_budget, new_budget, create_budget, Result, ok, err}
use acoding_agent.Budget.Store as Budget
use acoding_agent.Artifacts.Refs.{ArtifactRef}
use acoding_agent.RunControl.Records.{
  run_unavailable, StartAnswer, begun, already_started, start_failed, workflow_id_for,
}
use acoding_agent.RunControl.Keys.{find_key}
use acoding_agent.RunControl.Control.{
  Services, State, Draws, queued_view, workflow_input, store_request, conclude, launch, provide,
  submit, create,
}
use acoding_agent.RunControl.Created.{Outcome, create-unstarted}
use acoding_agent.RunControl.Kept.{not_reserved, conflicting, leaves, create-Ending}

create_budget-works :
    (run_id tenant_id cost calls : ℕ) (b : Budget.Store)
    → 0 < cost
    → 0 < calls
    → (b' : Budget.Store) × (create_budget run_id tenant_id cost calls b ≡ ok b')
unfolding create_budget
create_budget-works run_id tenant_id cost calls b some_cost some_calls =
    let fine : (cost == 0 || calls == 0) ≡ false = ground arith in
    elim (Option-cases (find_budget run_id b)) [
      | inr (x, e) ↦ (b, rw (fine, e) refl)
      | inl e ↦ (
        record b { budgets = new_budget run_id tenant_id cost calls ∷ b.budgets },
        rw (fine, e) refl,
      )
    ]

module _ {O W : Type 0} (env : Services O W) where
  abbrev Out : Type 0
  Out = Outcome env

  abbrev execution : (tenant_id : ℕ) (key : Text) → Text
  execution tenant_id key = workflow_id_for env.uuid_text tenant_id (env.uuid5 tenant_id key)

  -- The run is queued, and its execution known.
  abbrev pub IsQueued : (tenant_id : ℕ) (key : Text) → Out → Type 0
  IsQueued tenant_id key out =
      (out.1 ≡ accepted (queued_view env tenant_id (env.uuid5 tenant_id key)))
      × (mem_text (execution tenant_id key) (env.service.executions out.0.workflows) ≡ true)

  conclude-IsQueued :
      (tenant_id : ℕ) (key : Text) (ref : ArtifactRef) (s : State O W) (answer : StartAnswer)
      → answer ≢ start_failed
      → mem_text (execution tenant_id key) (env.service.executions s.workflows) ≡ true
      → IsQueued tenant_id key (conclude env tenant_id key ref s answer)
  unfolding conclude
  conclude-IsQueued tenant_id key ref s begun works known = (refl, known)
  conclude-IsQueued tenant_id key ref s already_started works known = (refl, known)
  conclude-IsQueued tenant_id key ref s start_failed works known = absurd (works refl)

  launch-IsQueued :
      (tenant_id : ℕ) (request : CreateRunRequest) (key : Text) (ref : ArtifactRef) (s : State O W)
      (budgets : Budget.Store)
      → ((input : WorkflowInput)
          → (env.service.start_workflow (execution tenant_id key) input s.workflows).1
            ≢ start_failed)
      → IsQueued tenant_id key (launch env tenant_id request key ref s (ok budgets))
  unfolding launch
  launch-IsQueued tenant_id request key ref s budgets works =
      let input = workflow_input env tenant_id (env.uuid5 tenant_id key) request ref in
      conclude-IsQueued tenant_id key ref _ _ (works input)
        (env.service.start-known (execution tenant_id key) input s.workflows _ _ refl (works input))

  submit-IsQueued :
      (draws : Draws) (tenant_id : ℕ) (request : CreateRunRequest) (key : Text) (ref : ArtifactRef)
      (s : State O W)
      → (store_request env draws tenant_id request key s.artifacts).1 ≡ accepted ref
      → draws.reaches_budgets ≡ true
      → 0 < request.budget.max_cost_usd
      → 0 < request.budget.max_model_calls
      → ((input : WorkflowInput)
          → (env.service.start_workflow (execution tenant_id key) input s.workflows).1
            ≢ start_failed)
      → IsQueued tenant_id key (submit env draws tenant_id request key s)
  unfolding submit provide
  submit-IsQueued draws tenant_id request key ref s stored there cost calls works =
      let (b, e) =
        create_budget-works (env.uuid5 tenant_id key) tenant_id _ _ s.budgets cost calls in
      let kept = (store_request env draws tenant_id request key s.artifacts).0 in
      rw (stored, there, e)
        (launch-IsQueued tenant_id request key ref (record s { artifacts = kept }) b works)

  -- A request that was refused because the budgets or the workflow env.service were not available is not
  -- lost. When it is repeated with its key, and this time the artifact store accepts the request, the
  -- budgets can be reached and the start does not fail, then it answers with the queued run, whose
  -- execution the workflow env.service knows from then on. The request asks for a positive budget.
  pub create-retried :
      (draws again : Draws) (tenant_id : ℕ) (request : CreateRunRequest) (key : Text)
      (ref : ArtifactRef) (s s' : State O W)
      → create env draws tenant_id request key s ≡ (s', refused run_unavailable)
      → (store_request env again tenant_id request key s'.artifacts).1 ≡ accepted ref
      → again.reaches_budgets ≡ true
      → 0 < request.budget.max_cost_usd
      → 0 < request.budget.max_model_calls
      → ((input : WorkflowInput)
          → (env.service.start_workflow (execution tenant_id key) input s'.workflows).1
            ≢ start_failed)
      → IsQueued tenant_id key (create env again tenant_id request key s')
  create-retried draws again tenant_id request key ref s s' h stored there cost calls works =
      let answer = ap (λ x. x.1) h in
      elim (create-Ending env draws tenant_id request key s) [
        | not_reserved e ↦ absurd cc
        | conflicting e ↦ absurd cc
        | leaves left ↦
            subst (IsQueued tenant_id key)
              (sym (
                create-unstarted env again tenant_id request key s' left.row
                  (ap (λ x. find_key tenant_id key x.0.keys) (sym h) ∙ left.found) left.same
                  (left.waiting answer)))
              (submit-IsQueued again tenant_id request key ref s' stored there cost calls works)
      ]

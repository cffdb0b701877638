-- ===== src/Agents/Promises.antt =====
-- What the loop of an agent and its registry of tools promise.
use acoding_agent.Prelude.{ℕ, ◌*◌, ◌≡◌, ◌≤◌, refl, sym, ap, subst, List, length, arith}
use acoding_agent.Domain.Enums.{AgentRole}
use acoding_agent.Budget.Store.{Store}
use acoding_agent.Budget.History.{Transaction, run, run-IsBalanced}
use acoding_agent.Budget.Ledger.{IsBalanced}
use acoding_agent.Agents.Records.{
  AgentExecutionRequest, AgentExecutionResult, ToolContext, is_succeeded, is_none, Ending,
  Surroundings, role_model_call_limit,
}
use acoding_agent.Agents.Loop.{call_limit, execute_agent}
use acoding_agent.Agents.Course.{IsSound, execute_agent-IsCourse}

-- The most model calls of a role: 8 of the planner, the investigator and the reviewer, 5 of QA, and 10 of
-- the developer.
abbrev pub most_calls : AgentRole → ℕ
most_calls AgentRole.planner = 8
most_calls AgentRole.investigator = 8
most_calls AgentRole.reviewer = 8
most_calls AgentRole.qa = 5
most_calls AgentRole.developer = 10

role_model_call_limit-most_calls : (role : AgentRole) → role_model_call_limit role ≡ most_calls role
role_model_call_limit-most_calls AgentRole.planner = refl
role_model_call_limit-most_calls AgentRole.investigator = refl
role_model_call_limit-most_calls AgentRole.reviewer = refl
role_model_call_limit-most_calls AgentRole.qa = refl
role_model_call_limit-most_calls AgentRole.developer = refl

module _ {Args Obs : Type 0} (sur : Surroundings Args Obs) (request : AgentExecutionRequest)
    (context : ToolContext) (s : Store) where
  -- A result of an agent lists no more model calls than the request leaves and than it has steps, and no
  -- more than 8 for the planner, the investigator and the reviewer, 5 for QA and 10 for the developer. It
  -- has an error exactly if its status is a failure.
  pub execute_agent-result :
      (r : AgentExecutionResult) (s' : Store)
      → execute_agent sur request context s ≡ (Ending.result r, s')
      → (length r.model_call_ids ≤ request.remaining_model_calls)
        × (length r.model_call_ids ≤ most_calls request.role)
        × (length r.model_call_ids ≤ request.max_steps)
        × (is_succeeded r.status ≡ is_none r.error)
  execute_agent-result r s' h =
      let (ids, few, sound, reached) = execute_agent-IsCourse sur request context s in
      let (listed, agree) : IsSound ids (Ending.result r) =
        subst (λ e. IsSound ids e) (ap (λ e. e.0) h) sound in
      let short : length r.model_call_ids ≤ call_limit sur request =
        subst (λ x. length x ≤ call_limit sur request) (sym listed) few in
      let role = role_model_call_limit-most_calls request.role in
      (ground arith, ground arith, ground arith, agree)

  -- Whatever the model, the provider and the tools answer, an agent changes the tables of the budget by
  -- transactions of the store only, at most three for each call that it may make.
  pub execute_agent-transactions :
      (ts : List Transaction) × (length ts ≤ 3 * call_limit sur request)
      × ((execute_agent sur request context s).1 ≡ run ts s)
  execute_agent-transactions = (execute_agent-IsCourse sur request context s).3

  -- An agent keeps a balanced ledger balanced, however it ends.
  pub execute_agent-IsBalanced : IsBalanced s → IsBalanced (execute_agent sur request context s).1
  execute_agent-IsBalanced balanced =
      let (ts, few, e) = execute_agent-transactions in
      subst IsBalanced (sym e) (run-IsBalanced ts s balanced)

-- ===== src/Budget/Closing.antt =====
-- On a balanced ledger `settle` and `release` of src/repopilot/infrastructure/db/model_budget.py
-- always commit: `_check_non_negative` never fails.
use acoding_agent.Prelude.{ℕ, ◌≤◌, ◌≡◌, some, arith, true, subst}
use acoding_agent.Prelude.Tables
use acoding_agent.Budget.Store.{
  released, RunBudget, ModelCall, Store, find_budget, find_call, ok, ModelCallContext, ModelUsage,
  settle, release, save, settled_call, settled_budget, released_budget, is_reserved,
}
use acoding_agent.Budget.Ledger.{held_usd, held_count, Reconciles, IsBalanced}

module _ (s : Store) (c : ModelCall) (b : RunBudget) (bal : IsBalanced s)
    (call_found : find_call c.model_call_id s ≡ some c)
    (budget_found : find_budget c.run_id s ≡ some b) (open_call : is_reserved c.status ≡ true) where
  covered : (c.reserved_usd ≤ b.reserved_usd) × (1 ≤ b.reserved_calls)
  covered =
      let agrees = subst (λ o. Reconciles c.run_id o s.calls) budget_found (bal c.run_id) in
      let at = λ (g : ModelCall → ℕ).
        Tables.le-sum_of_find (λ c. c.model_call_id) g c.model_call_id s.calls c call_found in
      ground (arith, agrees, at (held_usd c.run_id), at (held_count c.run_id))

  -- In a balanced ledger, an open call whose budget exists is settled at any cost up to its
  -- reservation: the check for negative counters never refuses it.
  pub settle-commits :
      (context : ModelCallContext) (usage : ModelUsage) (response now : ℕ)
      → context.model_call_id ≡ c.model_call_id
      → usage.cost_usd ≤ c.reserved_usd
      → settle context usage response now s
        ≡ ok (save (settled_call usage response now c) (settled_budget usage c b) s)
  unfolding settle
  settle-commits context usage response now e le =
      rw (e, call_found, budget_found) (ground (arith, covered))

  -- In a balanced ledger, an open call whose budget exists can be released.
  pub release-commits :
      (now : ℕ)
      → release c.model_call_id now s
        ≡ ok (save (record c { status = released; updated_at = now }) (released_budget c b) s)
  unfolding release
  release-commits now = rw (call_found, budget_found) (ground (arith, covered))

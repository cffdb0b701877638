-- ===== src/Budget/Grants.antt =====
-- `create_budget` and `reserve` of src/repopilot/infrastructure/db/model_budget.py keep the ledger
-- balanced, and `reserve` never passes a limit.
use acoding_agent.Prelude.{
  ℕ, ◌+◌, ◌≤◌, ◌<◌, ◌≡◌, true, false, Option, none, some, ◌∷◌, ◌==◌, ==_iff, String, arith, ◌⊎◌,
  inl, inr, Bool-cases, subst, sym,
}
use acoding_agent.Prelude.Tables
use acoding_agent.Prelude.Tables.{sum}
use acoding_agent.Budget.Store.{
  RunBudget, Store, find_budget, find_call, find_logical, ok, create_budget, ModelCallContext,
  ModelCallReservation, reserve, hold, new_call,
}
use acoding_agent.Budget.Ledger.{Reconciles, IsBalanced}

-- `create_budget` keeps the ledger balanced.
pub create_budget-IsBalanced :
    (run tenant max_cost max_calls : ℕ) (s : Store) {s' : Store}
    → create_budget run tenant max_cost max_calls s ≡ ok s'
    → IsBalanced s
    → IsBalanced s'
unfolding create_budget Tables.find
create_budget-IsBalanced run tenant max_cost max_calls s h bal r = ground (arith, bal r, bal run)

-- `create_budget` leaves the calls alone.
pub create_budget-calls :
    (run tenant max_cost max_calls : ℕ) (s : Store) {s' : Store}
    → create_budget run tenant max_cost max_calls s ≡ ok s'
    → s'.calls ≡ s.calls
unfolding create_budget
create_budget-calls run tenant max_cost max_calls s h = ground arith

module _ (context : ModelCallContext) (key provider model : String) (now : ℕ) (s : Store) where
  -- What holds when `reserve` commits: a row with the key was there and nothing changes, or there is
  -- room within both limits and the reservation is made.
  pub reserve-eq-ok :
      {s' : Store} {r : ModelCallReservation}
      → reserve context key provider model now s ≡ ok (s', r)
      → (r.created ≡ false) × (s' ≡ s)
        ⊎ ((b : RunBudget) × (r.created ≡ true)
            × (find_budget context.run_id s ≡ some b)
            × (find_logical key s.calls ≡ none)
            × (find_call context.model_call_id s ≡ none)
            × (b.spent_usd + b.reserved_usd + context.reservation_usd ≤ b.max_cost_usd)
            × (b.settled_calls + b.reserved_calls < b.max_model_calls)
            × (s' ≡ record {
              budgets = Tables.replace (λ b. b.run_id) (hold context b) s.budgets;
              calls = new_call context key provider model now ∷ s.calls;
            }))
  unfolding reserve
  reserve-eq-ok h = ground arith

  reserved-Agrees :
      (run : ℕ) (o : Option RunBudget)
      → (context.run_id == run) ≡ false
      → Reconciles run o s.calls
      → Reconciles run o (new_call context key provider model now ∷ s.calls)
  unfolding sum
  reserved-Agrees run none other r = ground arith
  reserved-Agrees run (some b) other r = ground arith

  -- `reserve` keeps the ledger balanced.
  pub reserve-IsBalanced :
      {s' : Store} {r : ModelCallReservation}
      → reserve context key provider model now s ≡ ok (s', r)
      → IsBalanced s
      → IsBalanced s'
  unfolding sum
  reserve-IsBalanced h bal = elim (reserve-eq-ok h) [
    | inl (_, e) ↦ rw e bal
    | inr (b, _, fb, _, _, cost, calls, e) ↦
        let eb = Tables.find-key (λ b. b.run_id) context.run_id s.budgets b fb in
        let fb' = subst (λ k. find_budget k s ≡ some b) (sym eb) fb in
        rw e (λ run.
          rw (Tables.find-replace (λ b. b.run_id) run s.budgets b (hold context b) fb')
            (elim (Bool-cases (b.run_id == run)) [
              | inl same ↦
                  let er = (==_iff b.run_id run).0 same in
                  let held =
                    subst (λ o. Reconciles run o s.calls)
                      (subst (λ k. find_budget k s ≡ some b) er fb') (bal run) in
                  rw same (ground (arith, held))
              | inr other ↦
                  rw other (reserved-Agrees run (find_budget run s) (ground arith) (bal run))
            ]))
  ]

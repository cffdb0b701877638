-- ===== src/Budget/History.antt =====
-- Sequences of transactions on the two tables of src/repopilot/infrastructure/db/model_budget.py, in
-- the order in which the row locks let them through. A failed one leaves the tables as they were.
use acoding_agent.Prelude.{ℕ, ◌≡◌, refl, some, List, [], ◌∷◌, String, arith, subst}
use acoding_agent.Budget.Store.{
  RunBudget, ModelCall, Store, find_budget, find_call, Result, ok, err, ModelCallContext,
  ModelUsage, ModelCallReservation, is_reserved,
}
use acoding_agent.Budget.Store as Tx
use acoding_agent.Budget.Ledger.{Agrees, Reconciles, IsBalanced, empty, empty-IsBalanced}
use acoding_agent.Budget.Keeps
use acoding_agent.Budget.Grants

pub data Transaction : Type 0 where
  create_budget : (run tenant max_cost max_calls : ℕ) → Transaction
  reserve : ModelCallContext → (key provider model : String) → (now : ℕ) → Transaction
  settle : ModelCallContext → ModelUsage → (response now : ℕ) → Transaction
  release : (call_id now : ℕ) → Transaction
  mark_unknown : (call_id now : ℕ) → Transaction

abbrev pub committed : Store → Result Store → Store
committed s (ok s') = s'
committed s (err e) = s

abbrev pub stored : Result (Store × ModelCallReservation) → Result Store
stored (ok (s', r)) = ok s'
stored (err e) = err e

pub stored-eq-ok :
    (r : Result (Store × ModelCallReservation)) {s : Store}
    → stored r ≡ ok s
    → (v : ModelCallReservation) × (r ≡ ok (s, v))
stored-eq-ok (ok (s', v)) h = (v, ground arith)
stored-eq-ok (err e) h = cc

unfoldable pub attempt : Transaction → Store → Result Store
attempt (create_budget run_id tenant cost calls) s = Tx.create_budget run_id tenant cost calls s
attempt (reserve context key provider model now) s =
    stored (Tx.reserve context key provider model now s)
attempt (settle context usage response now) s = Tx.settle context usage response now s
attempt (release call_id now) s = Tx.release call_id now s
attempt (mark_unknown call_id now) s = Tx.mark_unknown call_id now s

unfoldable pub run : List Transaction → Store → Store
unfolding attempt
run [] s = s
run (t ∷ ts) s = run ts (committed s (attempt t s))

commits :
    (s : Store) {s' : Store} (t : Transaction) → attempt t s ≡ ok s' → IsBalanced s → IsBalanced s'
unfolding attempt
commits s (create_budget run_id tenant cost calls) h =
    Grants.create_budget-IsBalanced run_id tenant cost calls s h
commits s (reserve context key provider model now) h =
    let (r, e) = stored-eq-ok (Tx.reserve context key provider model now s) h in
    Grants.reserve-IsBalanced context key provider model now s e
commits s (settle context usage response now) h =
    Keeps.settle-IsBalanced context usage response now s h
commits s (release call_id now) h = Keeps.release-IsBalanced call_id now s h
commits s (mark_unknown call_id now) h = Keeps.mark_unknown-IsBalanced call_id now s h

attempt-IsBalanced :
    (t : Transaction) (s : Store) → IsBalanced s → IsBalanced (committed s (attempt t s))
attempt-IsBalanced t s bal = go (attempt t s) refl
  where
    go : (r : Result Store) → attempt t s ≡ r → IsBalanced (committed s r)
    go (err e) h = bal
    go (ok s') h = commits s t h bal

-- Any sequence of transactions keeps the ledger balanced.
pub run-IsBalanced : (ts : List Transaction) (s : Store) → IsBalanced s → IsBalanced (run ts s)
unfolding run
run-IsBalanced [] s bal = bal
run-IsBalanced (t ∷ ts) s bal =
    run-IsBalanced ts (committed s (attempt t s)) (attempt-IsBalanced t s bal)

-- From empty tables, whatever the transactions and their order: no budget is ever exceeded, counting
-- what is held for calls that are open or UNKNOWN, and the counters are the totals over the calls.
pub run-Agrees :
    (ts : List Transaction) (run_id : ℕ) (b : RunBudget)
    → find_budget run_id (run ts empty) ≡ some b
    → Agrees run_id b (run ts empty).calls
run-Agrees ts run_id b h =
    subst (λ o. Reconciles run_id o (run ts empty).calls) h
      (run-IsBalanced ts empty empty-IsBalanced run_id)

-- ===== src/Budget/Tests.antt =====
-- Runs of the budget's transactions on small tables, and the theorems at these inputs.
use acoding_agent.Prelude.{ℕ, ◌≡◌, refl, none, some, List, [], ◌∷◌, true, arith}
use acoding_agent.Prelude.Tables
use acoding_agent.Prelude.Tables.{sum}
use acoding_agent.Budget.Store.{
  reserved, RunBudget, Store, ok, err, budget_exceeded, ModelCallContext, ModelUsage,
  ModelCallReservation, find_budget, find_logical, reserve, settle, release, mark_unknown,
  create_budget, new_call, save, settled_call, settled_budget,
}
use acoding_agent.Budget.Ledger.{Agrees, IsBalanced, empty, empty-IsBalanced}
use acoding_agent.Budget.History.{Transaction, attempt, run, run-Agrees}
use acoding_agent.Budget.Grants.{reserve-IsBalanced, create_budget-IsBalanced}
use acoding_agent.Budget.Closing.{settle-commits}
use acoding_agent.Budget.Gateway.{ProviderAnswer, response, generate}
use acoding_agent.Budget.Calls.{EndsAs, generate-EndsAs}
use acoding_agent.Budget.Replay.{Refuses, generate_once}

program : Unit {0}
unfolding create_budget reserve settle release mark_unknown Tables.find Tables.replace find_logical
    run attempt sum generate
program = tt

abbrev context : ModelCallContext
context = record {
  model_call_id = 1;
  tenant_id = 8;
  run_id = 7;
  work_item_id = none;
  reservation_usd = 30;
}

abbrev second : ModelCallContext
second = record context { model_call_id = 2 }

abbrev usage : ModelUsage
usage = record { input_tokens = 500; output_tokens = 20; cost_usd = 12 }

abbrev answer : ProviderAnswer ℕ
answer = response 0 usage 55

abbrev opened : Store
opened = record {
  budgets =
      record {
        run_id = 7;
        tenant_id = 8;
        max_cost_usd = 50;
        max_model_calls = 3;
        spent_usd = 0;
        reserved_usd = 0;
        settled_calls = 0;
        reserved_calls = 0;
        version = 1;
      }
      ∷ [];
  calls = [];
}

abbrev reserved_once : Store
reserved_once = record {
  budgets =
      record {
        run_id = 7;
        tenant_id = 8;
        max_cost_usd = 50;
        max_model_calls = 3;
        spent_usd = 0;
        reserved_usd = 30;
        settled_calls = 0;
        reserved_calls = 1;
        version = 2;
      }
      ∷ [];
  calls = new_call context "k" "p" "m" 100 ∷ [];
}

abbrev granted : ModelCallReservation
granted = record { model_call_id = 1; logical_call_key = "k"; status = reserved; created = true }

opens : create_budget 7 8 50 3 empty ≡ ok opened
unfolding program
opens = refl

reserves : reserve context "k" "p" "m" 100 opened ≡ ok (reserved_once, granted)
unfolding program
reserves = refl

-- A second reservation of 30 would pass the limit of 50.
refuses_more : reserve second "k2" "p" "m" 101 reserved_once ≡ err budget_exceeded
unfolding program
refuses_more = refl

opened-IsBalanced : IsBalanced opened
opened-IsBalanced = create_budget-IsBalanced 7 8 50 3 empty opens empty-IsBalanced

reserved_once-IsBalanced : IsBalanced reserved_once
reserved_once-IsBalanced =
    reserve-IsBalanced context "k" "p" "m" 100 opened reserves opened-IsBalanced

abbrev history : List Transaction
history =
    Transaction.create_budget 7 8 50 3
    ∷ Transaction.reserve context "k" "p" "m" 100
    ∷ Transaction.settle context usage 55 102
    ∷ Transaction.release 1 103
    ∷ []

abbrev closed_budget : RunBudget
closed_budget = record {
  run_id = 7;
  tenant_id = 8;
  max_cost_usd = 50;
  max_model_calls = 3;
  spent_usd = 12;
  reserved_usd = 0;
  settled_calls = 1;
  reserved_calls = 0;
  version = 3;
}

run-history : find_budget 7 (run history empty) ≡ some closed_budget
unfolding program
run-history = refl

run-Agrees_example : Agrees 7 closed_budget (run history empty).calls
run-Agrees_example = run-Agrees history 7 closed_budget run-history

settle-commits_example :
    settle context usage 55 102 reserved_once
    ≡ ok (
        save
          (settled_call usage 55 102 (new_call context "k" "p" "m" 100))
          (settled_budget usage (new_call context "k" "p" "m" 100) (record closed_budget {
            spent_usd = 0;
            reserved_usd = 30;
            settled_calls = 0;
            reserved_calls = 1;
            version = 2;
          }))
          reserved_once)
unfolding program
settle-commits_example =
    settle-commits reserved_once (new_call context "k" "p" "m" 100)
      (record closed_budget {
        spent_usd = 0;
        reserved_usd = 30;
        settled_calls = 0;
        reserved_calls = 1;
        version = 2;
      })
      reserved_once-IsBalanced refl refl refl context usage 55 102 refl (omega arith)

generate-EndsAs_example : EndsAs 1 30 answer (generate context 100 "k" "p" "m" answer opened)
generate-EndsAs_example =
    generate-EndsAs context 100 "k" "p" "m" answer opened reserved_once granted opened-IsBalanced
      reserves refl

abbrev later : List Transaction
later = Transaction.settle context usage 55 102 ∷ []

generate_once_example :
    Refuses
      (generate second 110 "k" "q" "n" answer (run later reserved_once))
      (run later reserved_once)
generate_once_example =
    generate_once context second 100 110 "k" "p" "m" "q" "n" answer opened later reserves

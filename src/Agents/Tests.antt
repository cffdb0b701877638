-- ===== src/Agents/Tests.antt =====
-- A reviewer that reads a file and finishes, on a budget of three calls.
use acoding_agent.Prelude.{
  ℕ, ◌+◌, ◌*◌, ◌==◌, ◌≡◌, ◌≤◌, refl, true, none, some, List, [], ◌∷◌, length, Text, codes,
  if◌then◌else◌,
}
use acoding_agent.Prelude.Checked.{◌>>=◌, ◌>>◌, refuse_if, found_or}
use acoding_agent.Prelude.Tables
use acoding_agent.Domain.Enums.{AgentRole}
use acoding_agent.Run.World.{ArtifactRef}
use acoding_agent.Budget.Store.{ModelUsage, reserve, settle, find_logical, create_budget}
use acoding_agent.Budget.Gateway.{response, generate}
use acoding_agent.Budget.History.{Transaction, run, attempt, run-IsBalanced}
use acoding_agent.Budget.Ledger.{IsBalanced, empty, empty-IsBalanced}
use acoding_agent.Agents.Registry.{Tool, ToolAnswer, find_tool, execute}
use acoding_agent.Agents.Records.{
  AgentExecutionRequest, AgentExecutionResult, ToolContext, Status, is_succeeded, is_none, Ending,
  Surroundings,
}
use acoding_agent.Agents.Loop.{call_limit, execute_agent}
use acoding_agent.Agents.Promises.{
  execute_agent-result, execute_agent-transactions, execute_agent-IsBalanced,
}

abbrev tool_named : Text → Tool ℕ ℕ
tool_named name = record {
  name = name;
  accepts = λ n. true;
  answer = λ step n. ToolAnswer.observed (n + step);
}

abbrev tools : List (Tool ℕ ℕ)
tools = tool_named (codes "read_file") ∷ tool_named (codes "finish") ∷ []

abbrev usage : ModelUsage
usage = record { input_tokens = 5; output_tokens = 2; cost_usd = 10 }

abbrev report : ArtifactRef
report = record { artifact_id = 9; run_id = 7 }

abbrev sur : Surroundings ℕ ℕ
sur = record {
  tools = tools;
  answer = λ step messages.
      response
        (record { tool = if step == 0 then codes "read_file" else codes "finish"; arguments = 4 })
        usage 55;
  call_context = λ step. record {
    model_call_id = step + 1;
    tenant_id = 8;
    run_id = 7;
    work_item_id = none;
    reservation_usd = 20;
  };
  logical_key = λ step messages. if step == 0 then "a" else "b";
  provider = "p";
  model = "m";
  now = λ step. step;
  finish_fields =
      λ observation. some (record { status = Status.succeeded; output_refs = []; error = none });
  save_trajectory = λ messages. report;
}

abbrev request : AgentExecutionRequest
request = record {
  role = AgentRole.reviewer;
  work_item_id = 3;
  input_refs = record { ref = report; tenant_id = 8 } ∷ [];
  allowed_tools = codes "read_file" ∷ codes "finish" ∷ [];
  max_steps = 20;
  remaining_model_calls = 3;
  attempt = 1;
  prompt_version = codes "3";
  tool_schema_version = "1";
  policy_version = "1";
}

abbrev context : ToolContext
context = record { tenant_id = 8; run_id = 7; work_item_id = 3 }

abbrev setup : List Transaction
setup = Transaction.create_budget 7 8 50 3 ∷ []

abbrev expected : AgentExecutionResult
expected = record {
  work_item_id = 3;
  status = Status.succeeded;
  output_refs = [];
  model_call_ids = 1 ∷ 2 ∷ [];
  error = none;
  trajectory_ref = some report;
}

finishes : (execute_agent sur request context (run setup empty)).0 ≡ Ending.result expected
unfolding execute_agent generate run attempt execute create_budget reserve settle find_logical
    Tables.find Tables.replace ◌>>=◌ ◌>>◌ refuse_if found_or find_tool
finishes = refl

execute_agent-result_example :
    (length expected.model_call_ids ≤ 3)
    × (length expected.model_call_ids ≤ 8)
    × (length expected.model_call_ids ≤ 20)
    × (is_succeeded expected.status ≡ is_none expected.error)
execute_agent-result_example =
    execute_agent-result sur request context (run setup empty) expected
      (execute_agent sur request context (run setup empty)).1
      (λ i. (finishes i, (execute_agent sur request context (run setup empty)).1))

execute_agent-transactions_example :
    (ts : List Transaction) × (length ts ≤ 3 * call_limit sur request)
    × ((execute_agent sur request context (run setup empty)).1 ≡ run ts (run setup empty))
execute_agent-transactions_example =
    execute_agent-transactions sur request context (run setup empty)

execute_agent-IsBalanced_example :
    IsBalanced (execute_agent sur request context (run setup empty)).1
execute_agent-IsBalanced_example =
    execute_agent-IsBalanced sur request context (run setup empty)
      (run-IsBalanced setup empty empty-IsBalanced)

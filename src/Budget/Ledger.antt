-- ===== src/Budget/Ledger.antt =====
-- What the rows of src/repopilot/infrastructure/db/model_budget.py promise together: the counters of
-- a run's budget are the totals over the run's calls, and no limit is passed.
use acoding_agent.Prelude.{
  ℕ, ◌+◌, ◌≤◌, ◌≡◌, Bool, true, false, ◌&&◌, Option, none, some, List, [], ◌==◌, if◌then◌else◌,
  arith,
}
use acoding_agent.Prelude.Tables
use acoding_agent.Prelude.Tables.{sum}
use acoding_agent.Budget.Store.{
  CallStatus, reserved, settled, released, unknown, RunBudget, ModelCall, Store, find_budget,
}

-- A reservation is held until it is settled or released: an UNKNOWN call keeps it.
abbrev pub is_held : CallStatus → Bool
is_held reserved = true
is_held settled = false
is_held released = false
is_held unknown = true

abbrev pub is_settled : CallStatus → Bool
is_settled settled = true
is_settled _ = false

abbrev pub amount : Option ℕ → ℕ
amount none = 0
amount (some n) = n

-- What one call adds to the four counters of the budget of `run`.
abbrev pub held_usd : ℕ → ModelCall → ℕ
held_usd run c = if c.run_id == run && is_held c.status then c.reserved_usd else 0

abbrev pub held_count : ℕ → ModelCall → ℕ
held_count run c = if c.run_id == run && is_held c.status then 1 else 0

abbrev pub spent_usd : ℕ → ModelCall → ℕ
spent_usd run c = if c.run_id == run && is_settled c.status then amount c.actual_usd else 0

abbrev pub settled_count : ℕ → ModelCall → ℕ
settled_count run c = if c.run_id == run && is_settled c.status then 1 else 0

pub record Agrees (run : ℕ) (b : RunBudget) (calls : List ModelCall) : Type 0 where
  pub holds_usd : b.reserved_usd ≡ sum (held_usd run) calls
  pub holds_calls : b.reserved_calls ≡ sum (held_count run) calls
  pub spends_usd : b.spent_usd ≡ sum (spent_usd run) calls
  pub settles_calls : b.settled_calls ≡ sum (settled_count run) calls
  pub within_cost : b.spent_usd + b.reserved_usd ≤ b.max_cost_usd
  pub within_calls : b.settled_calls + b.reserved_calls ≤ b.max_model_calls

-- A run without a budget has no calls that count.
pub record IsUnused (run : ℕ) (calls : List ModelCall) : Type 0 where
  pub no_usd : sum (held_usd run) calls ≡ 0
  pub no_calls : sum (held_count run) calls ≡ 0
  pub no_spending : sum (spent_usd run) calls ≡ 0
  pub no_settled : sum (settled_count run) calls ≡ 0

abbrev pub Reconciles : ℕ → Option RunBudget → List ModelCall → Type 0
Reconciles run none calls = IsUnused run calls
Reconciles run (some b) calls = Agrees run b calls

-- The ledger balances for every run.
abbrev pub IsBalanced : Store → Type 0
IsBalanced s = (run : ℕ) → Reconciles run (find_budget run s) s.calls

abbrev pub empty : Store
empty = record { budgets = []; calls = [] }

pub empty-IsBalanced : IsBalanced empty
unfolding Tables.find sum
empty-IsBalanced run = omega arith

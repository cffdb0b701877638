-- ===== src/Budget/Store.antt =====
-- src/repopilot/infrastructure/db/model_budget.py, with the rows of infrastructure/db/models.py.
-- A method runs in one transaction, which locks the rows that it reads: an error leaves the tables
-- as they were. Money is counted in the smallest unit of the Decimal columns.
use acoding_agent.Prelude.{
  ℕ, ◌+◌, ◌-◌, String, Bool, true, false, ◌||◌, Option, none, some, List, [], ◌∷◌, ltb, leb, ◌==◌,
  if◌then◌else◌,
}
use acoding_agent.Prelude.Tables.{find, replace}
use text.Mathlib.Text.{◌==◌ as str_eq}

pub data CallStatus : Type 0 where
  reserved settled released unknown : CallStatus

abbrev pub is_reserved : CallStatus → Bool
is_reserved reserved = true
is_reserved _ = false

pub record RunBudget : Type 0 where
  pub run_id : ℕ
  pub tenant_id : ℕ
  pub max_cost_usd : ℕ
  pub max_model_calls : ℕ
  pub spent_usd : ℕ
  pub reserved_usd : ℕ
  pub settled_calls : ℕ
  pub reserved_calls : ℕ
  pub version : ℕ

pub record ModelCall : Type 0 where
  pub model_call_id : ℕ
  pub logical_call_key : String
  pub tenant_id : ℕ
  pub run_id : ℕ
  pub work_item_id : Option ℕ
  pub provider : String
  pub model : String
  pub status : CallStatus
  pub reserved_usd : ℕ
  pub actual_usd : Option ℕ
  pub input_tokens : Option ℕ
  pub output_tokens : Option ℕ
  pub response_artifact_id : Option ℕ
  pub created_at : ℕ
  pub updated_at : ℕ

pub record Store : Type 0 where
  pub budgets : List RunBudget
  pub calls : List ModelCall

pub data Error : Type 0 where
  value_error budget_state_error budget_exceeded integrity_error : Error

-- How a transaction ends: it is rolled back by an error, or commits.
pub data Result (A : Type 0) : Type 0 where
  err : (reason : Error) → Result A
  ok : (value : A) → Result A

abbrev pub on_ok : {A B : Type 0} → (A → Result B) → Result A → Result B
on_ok next (err reason) = err reason
on_ok next (ok value) = next value

infixl 4 ◌>>=◌ ◌>>◌
abbrev pub ◌>>=◌ : {A B : Type 0} → Result A → (A → Result B) → Result B
first >>= next = on_ok next first

abbrev pub ◌>>◌ : {B : Type 0} → Result (Unit {0}) → Result B → Result B
first >> second = on_ok (λ x. second) first

abbrev pub reject_if : Bool → Error → Result (Unit {0})
reject_if true e = err e
reject_if false e = ok tt

abbrev pub require : {A : Type 0} → Option A → Error → Result A
require none e = err e
require (some a) e = ok a

abbrev pub find_budget : ℕ → Store → Option RunBudget
find_budget run s = find (λ b. b.run_id) run s.budgets

abbrev pub find_call : ℕ → Store → Option ModelCall
find_call call_id s = find (λ c. c.model_call_id) call_id s.calls

-- The row under the unique column `logical_call_key`.
unfoldable pub find_logical : String → List ModelCall → Option ModelCall
find_logical key [] = none
find_logical key (c ∷ calls) =
    if str_eq c.logical_call_key key then some c else find_logical key calls

-- What the code assigns to a call and to its budget.
abbrev pub save : ModelCall → RunBudget → Store → Store
save c b s = record {
  budgets = replace (λ b. b.run_id) b s.budgets;
  calls = replace (λ c. c.model_call_id) c s.calls;
}

abbrev pub new_budget : (run tenant max_cost max_calls : ℕ) → RunBudget
new_budget run tenant max_cost max_calls = record {
  run_id = run;
  tenant_id = tenant;
  max_cost_usd = max_cost;
  max_model_calls = max_calls;
  spent_usd = 0;
  reserved_usd = 0;
  settled_calls = 0;
  reserved_calls = 0;
  version = 1;
}

unfoldable pub create_budget : (run tenant max_cost max_calls : ℕ) → Store → Result Store
create_budget run tenant max_cost max_calls s = do
  reject_if (max_cost == 0 || max_calls == 0) value_error
  elim (find_budget run s) [
    | some b ↦ ok s
    | none ↦ ok (record s { budgets = new_budget run tenant max_cost max_calls ∷ s.budgets })
  ]

pub record ModelCallContext : Type 0 where
  pub model_call_id : ℕ
  pub tenant_id : ℕ
  pub run_id : ℕ
  pub work_item_id : Option ℕ
  pub reservation_usd : ℕ

pub record ModelUsage : Type 0 where
  pub input_tokens : ℕ
  pub output_tokens : ℕ
  pub cost_usd : ℕ

pub record ModelCallReservation : Type 0 where
  pub model_call_id : ℕ
  pub logical_call_key : String
  pub status : CallStatus
  pub created : Bool

abbrev pub new_call : ModelCallContext → (key provider model : String) → (now : ℕ) → ModelCall
new_call context key provider model now = record {
  model_call_id = context.model_call_id;
  logical_call_key = key;
  tenant_id = context.tenant_id;
  run_id = context.run_id;
  work_item_id = context.work_item_id;
  provider = provider;
  model = model;
  status = reserved;
  reserved_usd = context.reservation_usd;
  actual_usd = none;
  input_tokens = none;
  output_tokens = none;
  response_artifact_id = none;
  created_at = now;
  updated_at = now;
}

abbrev pub hold : ModelCallContext → RunBudget → RunBudget
hold context b = record b {
  reserved_usd = b.reserved_usd + context.reservation_usd;
  reserved_calls = b.reserved_calls + 1;
  version = b.version + 1;
}

-- The row of `context.run_id` that also has its tenant.
abbrev pub tenant_budget : ModelCallContext → Store → Result RunBudget
tenant_budget context s = do
  b ← require (find_budget context.run_id s) budget_state_error
  if b.tenant_id == context.tenant_id then ok b else err budget_state_error

abbrev pub replayed : ModelCall → ModelCallReservation
replayed c = record {
  model_call_id = c.model_call_id;
  logical_call_key = c.logical_call_key;
  status = c.status;
  created = false;
}

-- The part of `reserve` behind the search for an existing row. The primary key of the new row is
-- checked by the table.
unfoldable pub admit :
    ModelCallContext
    → (key provider model : String) → (now : ℕ) → RunBudget
    → Store
    → Result (Store × ModelCallReservation)
admit context key provider model now b s = do
  reject_if (ltb b.max_cost_usd (b.spent_usd + b.reserved_usd + context.reservation_usd))
      budget_exceeded
  reject_if (leb b.max_model_calls (b.settled_calls + b.reserved_calls)) budget_exceeded
  elim (find_call context.model_call_id s) [
    | some c ↦ err integrity_error
    | none ↦ ok (
      record {
        budgets = replace (λ b. b.run_id) (hold context b) s.budgets;
        calls = new_call context key provider model now ∷ s.calls;
      },
      record {
        model_call_id = context.model_call_id;
        logical_call_key = key;
        status = reserved;
        created = true;
      },
    )
  ]

unfoldable pub reserve :
    ModelCallContext
    → (key provider model : String) → (now : ℕ) → Store
    → Result (Store × ModelCallReservation)
unfolding admit
reserve context key provider model now s = do
  b ← tenant_budget context s
  elim (find_logical key s.calls) [
    | some c ↦ ok (s, replayed c)
    | none ↦ admit context key provider model now b s
  ]

unfoldable pub lock_call_and_budget : ℕ → Store → Result (ModelCall × RunBudget)
lock_call_and_budget call_id s = do
  c ← require (find_call call_id s) budget_state_error
  b ← require (find_budget c.run_id s) budget_state_error
  ok (c, b)

-- `_check_non_negative` behind the two subtractions of `settle` and `release`.
abbrev pub below_zero : ModelCall → RunBudget → Bool
below_zero c b = ltb b.reserved_usd c.reserved_usd || b.reserved_calls == 0

abbrev pub settled_call : ModelUsage → (response now : ℕ) → ModelCall → ModelCall
settled_call usage response now c = record c {
  status = settled;
  actual_usd = some usage.cost_usd;
  input_tokens = some usage.input_tokens;
  output_tokens = some usage.output_tokens;
  response_artifact_id = some response;
  updated_at = now;
}

abbrev pub settled_budget : ModelUsage → ModelCall → RunBudget → RunBudget
settled_budget usage c b = record b {
  reserved_usd = b.reserved_usd - c.reserved_usd;
  reserved_calls = b.reserved_calls - 1;
  spent_usd = b.spent_usd + usage.cost_usd;
  settled_calls = b.settled_calls + 1;
  version = b.version + 1;
}

unfoldable pub settle : ModelCallContext → ModelUsage → (response now : ℕ) → Store → Result Store
unfolding lock_call_and_budget
settle context usage response now s = do
  (c, b) ← lock_call_and_budget context.model_call_id s
  if is_reserved c.status then ok tt else err budget_state_error
  reject_if (ltb c.reserved_usd usage.cost_usd) budget_state_error
  reject_if (below_zero c b) budget_state_error
  ok (save (settled_call usage response now c) (settled_budget usage c b) s)

abbrev pub released_budget : ModelCall → RunBudget → RunBudget
released_budget c b = record b {
  reserved_usd = b.reserved_usd - c.reserved_usd;
  reserved_calls = b.reserved_calls - 1;
  version = b.version + 1;
}

unfoldable pub release : (call_id now : ℕ) → Store → Result Store
unfolding lock_call_and_budget
release call_id now s = do
  (c, b) ← lock_call_and_budget call_id s
  if is_reserved c.status
      then (reject_if (below_zero c b) budget_state_error
          >> ok (save (record c { status = released; updated_at = now }) (released_budget c b) s))
      else ok s

unfoldable pub mark_unknown : (call_id now : ℕ) → Store → Result Store
mark_unknown call_id now s = do
  c ← require (find_call call_id s) budget_state_error
  if is_reserved c.status
      then ok (record s {
        calls =
            replace (λ c. c.model_call_id) (record c { status = unknown; updated_at = now })
              s.calls;
      })
      else ok s

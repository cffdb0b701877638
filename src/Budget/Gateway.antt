-- ===== src/Budget/Gateway.antt =====
-- `BudgetedModelGateway` of src/repopilot/services/model_gateway.py: the budget's transactions round
-- one call of the provider. The provider is a parameter, by what it answers to this call.
use acoding_agent.Prelude.{ℕ, String, if◌then◌else◌}
use acoding_agent.Budget.Store.{
  Store, Error, Result, ok, err, ModelCallContext, ModelUsage, reserve, settle, release,
  mark_unknown,
}

-- `failed` is a `ModelProviderError`, and `crashed` every other exception.
pub data ProviderAnswer (T : Type 0) : Type 0 where
  response : T → ModelUsage → (raw_response : ℕ) → ProviderAnswer T
  cancelled : ProviderAnswer T
  completion_unknown : ProviderAnswer T
  output_invalid : ModelUsage → (raw_response : ℕ) → ProviderAnswer T
  failed : ProviderAnswer T
  crashed : ProviderAnswer T

pub data Raised : Type 0 where
  call_replay call_cancelled call_completion_unknown call_output_invalid call_failed call_crashed :
      Raised
  store_error : Error → Raised

pub data Outcome (A : Type 0) : Type 0 where
  returned : A → Outcome A
  raised : Raised → Outcome A

-- A method ends with an outcome and the tables as the committed transactions left them.
abbrev pub then_raise : {A : Type 0} → Store → Result Store → Raised → Outcome A × Store
then_raise s (ok s') e = (raised e, s')
then_raise s (err x) e = (raised (store_error x), s)

module _ (context : ModelCallContext) (now : ℕ) where
  -- `_settle_or_mark_unknown`, and what its caller does when it returns.
  unfoldable pub settle_or_mark_unknown :
      {A : Type 0} → ModelUsage → (raw : ℕ) → Store → Outcome A → Outcome A × Store
  settle_or_mark_unknown usage raw s continue = elim (settle context usage raw now s) [
    | ok s' ↦ (continue, s')
    | err e ↦ then_raise s (mark_unknown context.model_call_id now s) call_completion_unknown
  ]

  -- What `generate` does with the provider's answer.
  unfoldable pub conclude : {T : Type 0} → ProviderAnswer T → Store → Outcome T × Store
  unfolding settle_or_mark_unknown
  conclude cancelled s = then_raise s (mark_unknown context.model_call_id now s) call_cancelled
  conclude completion_unknown s =
      then_raise s (mark_unknown context.model_call_id now s) call_completion_unknown
  conclude (output_invalid usage raw) s =
      settle_or_mark_unknown usage raw s (raised call_output_invalid)
  conclude failed s = then_raise s (release context.model_call_id now s) call_failed
  conclude crashed s = then_raise s (release context.model_call_id now s) call_crashed
  conclude (response output usage raw) s = settle_or_mark_unknown usage raw s (returned output)

  unfoldable pub generate :
      {T : Type 0} → (key provider model : String) → ProviderAnswer T → Store → Outcome T × Store
  unfolding conclude
  generate key provider model answer s = elim (reserve context key provider model now s) [
    | err e ↦ (raised (store_error e), s)
    | ok (s', r) ↦ if r.created then conclude answer s' else (raised call_replay, s')
  ]

-- ===== src/Budget/Steps.antt =====
-- A call of the gateway of src/repopilot/services/model_gateway.py is a short sequence of transactions of
-- the budget.
use acoding_agent.Prelude.{
  ℕ, ◌≡◌, ◌≤◌, refl, sym, ◌∙◌, ap, String, List, [], ◌∷◌, ◌++◌, length, arith, Bool-cases, inl, inr,
  ◌⊎◌,
}
use acoding_agent.Budget.Store.{
  Store, Error, Result, ok, err, ModelCallContext, ModelUsage, reserve, settle,
}
use acoding_agent.Budget.Gateway.{
  ProviderAnswer, Raised, Outcome, returned, raised, cancelled, completion_unknown, output_invalid,
  failed, crashed, response, then_raise, settle_or_mark_unknown, conclude, generate,
}
use acoding_agent.Budget.History.{Transaction, stored, committed, attempt, run}

pub run-append : (ts us : List Transaction) (s : Store) → run us (run ts s) ≡ run (ts ++ us) s
unfolding run
run-append [] us s = refl
run-append (t ∷ ts) us s = run-append ts us (committed s (attempt t s))

-- The tables are those behind at most `n` transactions.
abbrev pub IsReached : ℕ → Store → Store → Type 0
IsReached n s s' = (ts : List Transaction) × (length ts ≤ n) × (s' ≡ run ts s)

then_raise-reached :
    (A : Type 0) (s : Store) (r : Result Store) (e : Raised)
    → (then_raise {A = A} s r e).1 ≡ committed s r
then_raise-reached A s (ok s') e = refl
then_raise-reached A s (err x) e = refl

Result-cases : {A : Type 0} (r : Result A) → ((a : A) × (r ≡ ok a)) ⊎ ((e : Error) × (r ≡ err e))
Result-cases (ok a) = inl (a, refl)
Result-cases (err e) = inr (e, refl)

module _ (context : ModelCallContext) (now : ℕ) where
  one :
      (A : Type 0) (t : Transaction) (s : Store) (e : Raised)
      → IsReached 2 s (then_raise {A = A} s (attempt t s) e).1
  unfolding run
  one A t s e = (t ∷ [], omega arith, then_raise-reached A s (attempt t s) e)

  settle_or-IsReached :
      {A : Type 0} (usage : ModelUsage) (raw : ℕ) (s : Store) (continue : Outcome A)
      → IsReached 2 s (settle_or_mark_unknown context now usage raw s continue).1
  unfolding settle_or_mark_unknown run attempt
  settle_or-IsReached usage raw s continue = elim (Result-cases (settle context usage raw now s)) [
    | inl (s', h) ↦
        rw (h, settle_or_mark_unknown)
          (Transaction.settle context usage raw now ∷ [], omega arith, sym (ap (committed s) h))
    | inr (e, h) ↦
        rw (h, settle_or_mark_unknown)
          (one _ (Transaction.mark_unknown context.model_call_id now) s
            Raised.call_completion_unknown)
  ]

  conclude-IsReached :
      {T : Type 0} (answer : ProviderAnswer T) (s : Store)
      → IsReached 2 s (conclude context now answer s).1
  unfolding conclude attempt
  conclude-IsReached cancelled s =
      one _ (Transaction.mark_unknown context.model_call_id now) s Raised.call_cancelled
  conclude-IsReached completion_unknown s =
      one _ (Transaction.mark_unknown context.model_call_id now) s Raised.call_completion_unknown
  conclude-IsReached (output_invalid usage raw) s =
      settle_or-IsReached usage raw s (raised Raised.call_output_invalid)
  conclude-IsReached failed s =
      one _ (Transaction.release context.model_call_id now) s Raised.call_failed
  conclude-IsReached crashed s =
      one _ (Transaction.release context.model_call_id now) s Raised.call_crashed
  conclude-IsReached (response output usage raw) s =
      settle_or-IsReached usage raw s (returned output)

  -- Whatever the provider answers, the call leaves the tables behind at most three transactions.
  pub generate-IsReached :
      {T : Type 0} (key provider model : String) (answer : ProviderAnswer T) (s : Store)
      → IsReached 3 s (generate context now key provider model answer s).1
  unfolding generate run attempt
  generate-IsReached key provider model answer s =
      elim (Result-cases (reserve context key provider model now s)) [
        | inl ((s', r), h) ↦
            let first = Transaction.reserve context key provider model now in
            let reserved : s' ≡ committed s (stored (reserve context key provider model now s)) =
              sym (ap (λ x. committed s (stored x)) h) in
            elim (Bool-cases r.created) [
              | inl new_ ↦
                  let (ts, few, e) = conclude-IsReached answer s' in
                  rw (h, new_, generate) (first ∷ ts, omega arith, e ∙ ap (λ x. run ts x) reserved)
              | inr old ↦ rw (h, old, generate) (first ∷ [], omega arith, reserved)
            ]
        | inr (e, h) ↦ rw (h, generate) ([], omega arith, refl)
      ]

-- ===== src/Budget/Replay.antt =====
-- A logical call is sent to the provider at most once: `BudgetedModelGateway.generate` of
-- src/repopilot/services/model_gateway.py refuses every later attempt under the same key.
use acoding_agent.Prelude.{
  ℕ, ◌≡◌, ◌≢◌, refl, sym, subst, none, some, String, List, [], ◌∷◌, arith, ◌⊎◌, inl, inr,
}
use acoding_agent.Prelude.Tables
use acoding_agent.Budget.Store.{
  released, unknown, Store, ModelCall, find_call, find_logical, Result, ok, err, ModelCallContext,
  ModelUsage, ModelCallReservation, tenant_budget, settled_call, budget_state_error, new_call,
}
use text.Mathlib.TextEquality.{eq_iff}
use acoding_agent.Budget.Keeps
use acoding_agent.Budget.Grants
use acoding_agent.Budget.History.{Transaction, attempt, committed, run, stored-eq-ok}
use acoding_agent.Budget.Store as Tx
use acoding_agent.Budget.Gateway.{
  ProviderAnswer, Outcome, raised, call_replay, store_error, generate,
}

-- A row under the logical key is there.
abbrev pub IsRecorded : String → List ModelCall → Type 0
IsRecorded key calls = find_logical key calls ≢ none

IsRecorded-replace :
    (key : String) (calls : List ModelCall) (c d : ModelCall)
    → Tables.find (λ c. c.model_call_id) d.model_call_id calls ≡ some c
    → d.logical_call_key ≡ c.logical_call_key
    → IsRecorded key calls
    → IsRecorded key (Tables.replace (λ c. c.model_call_id) d calls)
unfolding Tables.find Tables.replace find_logical
IsRecorded-replace key [] c d f e h = h
IsRecorded-replace key (x ∷ calls) c d f e h = ground (arith, IsRecorded-replace key calls c d)

IsRecorded-cons :
    (key : String) (c : ModelCall) (calls : List ModelCall)
    → IsRecorded key calls
    → IsRecorded key (c ∷ calls)
unfolding find_logical
IsRecorded-cons key c calls h = ground arith

commits :
    (key : String) (s : Store) {s' : Store} (t : Transaction)
    → attempt t s ≡ ok s'
    → IsRecorded key s.calls
    → IsRecorded key s'.calls
unfolding attempt
commits key s (Transaction.create_budget run_id tenant cost calls) h rec =
    subst (IsRecorded key) (sym (Grants.create_budget-calls run_id tenant cost calls s h)) rec
commits key s (Transaction.reserve context k provider model now) h rec =
    let (r, e) = stored-eq-ok (Tx.reserve context k provider model now s) h in
    elim (Grants.reserve-eq-ok context k provider model now s e) [
      | inl (_, same) ↦ rw same rec
      | inr (b, _, _, _, _, _, _, new) ↦
          rw new (IsRecorded-cons key (new_call context k provider model now) s.calls rec)
    ]
commits key s (Transaction.settle context usage raw now) h rec =
    let (c, b, l, _, _, e) = Keeps.settle-eq-ok context usage raw now s h in
    let fc = (Keeps.locked context.model_call_id s c b l).0 in
    rw e (IsRecorded-replace key s.calls c (settled_call usage raw now c) fc refl rec)
commits key s (Transaction.release call_id now) h rec =
    let (c, b, l, r) = Keeps.release-eq-ok call_id now s h in
    let fc = (Keeps.locked call_id s c b l).0 in
    elim r [
      | inl (_, e) ↦
          let d = record c { status = released; updated_at = now } in
          rw e (IsRecorded-replace key s.calls c d fc refl rec)
      | inr (_, e) ↦ rw e rec
    ]
commits key s (Transaction.mark_unknown call_id now) h rec =
    let (c, fc, r) = Keeps.mark_unknown-eq-ok call_id now s h in
    elim r [
      | inl (_, e) ↦
          let d = record c { status = unknown; updated_at = now } in
          rw e (IsRecorded-replace key s.calls c d (Keeps.found call_id s c fc) refl rec)
      | inr (_, e) ↦ rw e rec
    ]

attempt-IsRecorded :
    (key : String) (t : Transaction) (s : Store)
    → IsRecorded key s.calls
    → IsRecorded key (committed s (attempt t s)).calls
attempt-IsRecorded key t s rec = go (attempt t s) refl
  where
    go : (r : Result Store) → attempt t s ≡ r → IsRecorded key (committed s r).calls
    go (err e) h = rec
    go (ok s') h = commits key s t h rec

run-IsRecorded :
    (key : String) (ts : List Transaction) (s : Store)
    → IsRecorded key s.calls
    → IsRecorded key (run ts s).calls
unfolding run
run-IsRecorded key [] s rec = rec
run-IsRecorded key (t ∷ ts) s rec =
    run-IsRecorded key ts (committed s (attempt t s)) (attempt-IsRecorded key t s rec)

-- The provider is not asked: the outcome does not depend on what it would answer.
abbrev pub Refuses : {T : Type 0} → Outcome T × Store → Store → Type 0
Refuses result s =
    (result.1 ≡ s)
    × ((result.0 ≡ raised call_replay) ⊎ (result.0 ≡ raised (store_error budget_state_error)))

generate-Refuses :
    {T : Type 0} (context : ModelCallContext) (now : ℕ) (key provider model : String)
    (answer : ProviderAnswer T) (s : Store)
    → IsRecorded key s.calls
    → Refuses (generate context now key provider model answer s) s
unfolding generate Tx.reserve
generate-Refuses context now key provider model answer s rec = ground arith

reserve-IsRecorded :
    (context : ModelCallContext) (now : ℕ) (key provider model : String) (s : Store) {s' : Store}
    {r : ModelCallReservation}
    → Tx.reserve context key provider model now s ≡ ok (s', r)
    → IsRecorded key s'.calls
unfolding Tx.reserve find_logical
reserve-IsRecorded context now key provider model s h = ground (arith, eq_iff key key)

-- When `reserve` has accepted a key once, then after any later transactions every call of `generate`
-- under that key, by any context and whatever the provider would answer, raises and changes nothing.
pub generate_once :
    {T : Type 0} (first context : ModelCallContext) (now later : ℕ)
    (key provider model provider' model' : String) (answer : ProviderAnswer T) (s : Store)
    (ts : List Transaction) {s' : Store} {r : ModelCallReservation}
    → Tx.reserve first key provider model now s ≡ ok (s', r)
    → Refuses (generate context later key provider' model' answer (run ts s')) (run ts s')
generate_once first context now later key provider model provider' model' answer s ts {s'} h =
    generate-Refuses context later key provider' model' answer (run ts s')
      (run-IsRecorded key ts s' (reserve-IsRecorded first now key provider model s h))

-- ===== src/Budget/Calls.antt =====
-- What `BudgetedModelGateway.generate` of src/repopilot/services/model_gateway.py leaves behind,
-- whatever the provider answers.
use acoding_agent.Prelude.{
  ℕ, ◌≡◌, refl, sym, subst, true, false, some, String, List, ◌∷◌, if◌then◌else◌, leb, arith, inl,
  inr, Bool-cases,
}
use acoding_agent.Prelude.Tables
use acoding_agent.Budget.Store.{
  CallStatus, settled, released, unknown, Store, RunBudget, ModelCall, find_call, find_budget, ok,
  err, ModelCallContext, ModelUsage, ModelCallReservation, reserve, settle, release, mark_unknown,
  is_reserved, new_call, hold, budget_state_error, save, settled_call, released_budget,
}
use acoding_agent.Budget.Ledger.{IsBalanced}
use acoding_agent.Budget.Grants.{reserve-eq-ok, reserve-IsBalanced}
use acoding_agent.Budget.Closing.{settle-commits, release-commits}
use acoding_agent.Budget.Gateway.{
  ProviderAnswer, response, cancelled, completion_unknown, output_invalid, failed, crashed, Raised,
  call_cancelled, call_completion_unknown, call_output_invalid, call_failed, call_crashed, Outcome,
  returned, raised, then_raise, settle_or_mark_unknown, conclude, generate,
}

-- How a call ends: it is settled if its cost is covered by the reservation, and never stays open.
abbrev pub final_status : {T : Type 0} → ℕ → ProviderAnswer T → CallStatus
final_status limit (response output usage raw) =
    if leb usage.cost_usd limit then settled else unknown
final_status limit cancelled = unknown
final_status limit completion_unknown = unknown
final_status limit (output_invalid usage raw) =
    if leb usage.cost_usd limit then settled else unknown
final_status limit failed = released
final_status limit crashed = released

abbrev pub final_outcome : {T : Type 0} → ℕ → ProviderAnswer T → Outcome T
final_outcome limit (response output usage raw) =
    if leb usage.cost_usd limit then returned output else raised call_completion_unknown
final_outcome limit cancelled = raised call_cancelled
final_outcome limit completion_unknown = raised call_completion_unknown
final_outcome limit (output_invalid usage raw) =
    if leb usage.cost_usd limit then raised call_output_invalid else raised call_completion_unknown
final_outcome limit failed = raised call_failed
final_outcome limit crashed = raised call_crashed

abbrev pub EndsAs : {T : Type 0} → ℕ → ℕ → ProviderAnswer T → Outcome T × Store → Type 0
EndsAs call_id limit answer result =
    (c : ModelCall) × (find_call call_id result.1 ≡ some c)
    × (c.status ≡ final_status limit answer)
    × (result.0 ≡ final_outcome limit answer)

module _ (context : ModelCallContext) (now : ℕ) (s : Store) (c : ModelCall) (b : RunBudget)
    (bal : IsBalanced s) (same_id : context.model_call_id ≡ c.model_call_id)
    (call_found : find_call c.model_call_id s ≡ some c)
    (budget_found : find_budget c.run_id s ≡ some b) (open_call : is_reserved c.status ≡ true) where
  -- The row that a transaction has written is found.
  written :
      (d : ModelCall)
      → d.model_call_id ≡ c.model_call_id
      → Tables.find
          (λ c. c.model_call_id)
          context.model_call_id
          (Tables.replace (λ c. c.model_call_id) d s.calls)
        ≡ some d
  written d e =
      rw
        (Tables.find-replace (λ c. c.model_call_id) context.model_call_id s.calls c d
          (rw e call_found))
        (ground arith)

  marked :
      mark_unknown context.model_call_id now s
      ≡ ok (record s {
        calls =
            Tables.replace
              (λ c. c.model_call_id)
              (record c { status = unknown; updated_at = now })
              s.calls;
      })
  unfolding mark_unknown
  marked = rw (same_id, call_found) (ground arith)

  settle_fails :
      (usage : ModelUsage) (raw : ℕ)
      → leb usage.cost_usd c.reserved_usd ≡ false
      → settle context usage raw now s ≡ err budget_state_error
  unfolding settle
  settle_fails usage raw dear = rw (same_id, call_found, budget_found) (ground arith)

  settled-EndsAs :
      {T : Type 0} (usage : ModelUsage) (raw : ℕ) (continue : Outcome T)
      → let (outcome, s') = settle_or_mark_unknown context now usage raw s continue in
        let covered = leb usage.cost_usd c.reserved_usd in
        (d : ModelCall) × (find_call context.model_call_id s' ≡ some d)
        × (d.status ≡ (if covered then settled else unknown))
        × (outcome ≡ (if covered then continue else raised call_completion_unknown))
  unfolding settle_or_mark_unknown
  settled-EndsAs usage raw continue = elim (Bool-cases (leb usage.cost_usd c.reserved_usd)) [
    | inl covered ↦
        let e =
          settle-commits s c b bal call_found budget_found open_call context usage raw now same_id
            (ground arith) in
        (
          settled_call usage raw now c,
          rw (e, settle_or_mark_unknown) (written (settled_call usage raw now c) refl),
          rw covered,
          rw (e, settle_or_mark_unknown, covered),
        )
    | inr dear ↦ (
      record c { status = unknown; updated_at = now },
      rw (settle_fails usage raw dear, settle_or_mark_unknown, marked)
          (written (record c { status = unknown; updated_at = now }) refl),
      rw dear,
      rw (settle_fails usage raw dear, settle_or_mark_unknown, marked, dear),
    )
  ]

  marked-EndsAs :
      {T : Type 0} (e : Raised)
      → let (outcome, s') = then_raise {A = T} s (mark_unknown context.model_call_id now s) e in
        (d : ModelCall) × (find_call context.model_call_id s' ≡ some d)
        × (d.status ≡ unknown)
        × (outcome ≡ raised e)
  marked-EndsAs e = (
    record c { status = unknown; updated_at = now },
    rw marked (written (record c { status = unknown; updated_at = now }) refl),
    refl,
    rw marked,
  )

  released-EndsAs :
      {T : Type 0} (e : Raised)
      → let (outcome, s') = then_raise {A = T} s (release context.model_call_id now s) e in
        (d : ModelCall) × (find_call context.model_call_id s' ≡ some d)
        × (d.status ≡ released)
        × (outcome ≡ raised e)
  released-EndsAs e =
      let d = record c { status = released; updated_at = now } in
      let commits =
        subst (λ k. release k now s ≡ ok (save d (released_budget c b) s)) (sym same_id)
          (release-commits s c b bal call_found budget_found open_call now) in
      (d, rw commits (written d refl), refl, rw commits)

  conclude-EndsAs :
      {T : Type 0} (answer : ProviderAnswer T)
      → EndsAs context.model_call_id c.reserved_usd answer (conclude context now answer s)
  unfolding conclude
  conclude-EndsAs cancelled = marked-EndsAs call_cancelled
  conclude-EndsAs completion_unknown = marked-EndsAs call_completion_unknown
  conclude-EndsAs (output_invalid usage raw) = settled-EndsAs usage raw (raised call_output_invalid)
  conclude-EndsAs failed = released-EndsAs call_failed
  conclude-EndsAs crashed = released-EndsAs call_crashed
  conclude-EndsAs (response output usage raw) = settled-EndsAs usage raw (returned output)

find-cons :
    (c : ModelCall) (calls : List ModelCall)
    → Tables.find (λ c. c.model_call_id) c.model_call_id (c ∷ calls) ≡ some c
unfolding Tables.find
find-cons c calls = ground arith

-- From a balanced ledger, once `reserve` has made a new reservation, `generate` ends the call whatever the provider answers: the
-- row is found with its final status, and the outcome is the one of `final_outcome`.
pub generate-EndsAs :
    {T : Type 0} (context : ModelCallContext) (now : ℕ) (key provider model : String)
    (answer : ProviderAnswer T) (s s' : Store) (r : ModelCallReservation)
    → IsBalanced s
    → reserve context key provider model now s ≡ ok (s', r)
    → r.created ≡ true
    → EndsAs context.model_call_id context.reservation_usd answer
        (generate context now key provider model answer s)
unfolding generate
generate-EndsAs context now key provider model answer s s' r bal h made =
    elim (reserve-eq-ok context key provider model now s h) [
      | inl (replay, _) ↦ absurd (ground arith)
      | inr (b, _, fb, _, _, _, _, e) ↦
          let c = new_call context key provider model now in
          let calls =
            Tables.find-replace (λ b. b.run_id) context.run_id s.budgets b (hold context b)
              (subst (λ k. find_budget k s ≡ some b)
                (sym (Tables.find-key (λ b. b.run_id) context.run_id s.budgets b fb)) fb) in
          let eb = Tables.find-key (λ b. b.run_id) context.run_id s.budgets b fb in
          rw (h, generate, made)
            (conclude-EndsAs context now s' c (hold context b)
              (reserve-IsBalanced context key provider model now s h bal) refl
              (rw e (find-cons c s.calls)) (rw (e, calls) (ground (arith, eb))) refl answer)
    ]

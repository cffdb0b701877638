-- ===== src/Budget/Keeps.antt =====
-- Each transaction of src/repopilot/infrastructure/db/model_budget.py keeps the ledger balanced.
use acoding_agent.Prelude.{
  ℕ, ◌+◌, ◌≤◌, ◌≡◌, ◌≢◌, refl, true, false, Option, none, some, List, ◌==◌, ==_iff, arith, ◌⊎◌, inl,
  inr, Bool-cases, subst, sym, ◌∙◌,
}
use acoding_agent.Prelude.Tables
use acoding_agent.Prelude.Tables.{sum}
use acoding_agent.Budget.Store.{
  released, unknown, RunBudget, ModelCall, Store, find_budget, find_call, ok, ModelCallContext,
  ModelUsage, settle, release, mark_unknown, lock_call_and_budget, save, settled_call,
  settled_budget, released_budget, is_reserved,
}
use acoding_agent.Budget.Ledger.{
  held_usd, held_count, spent_usd, settled_count, Agrees, Reconciles, IsBalanced,
}

-- How the four totals of a run change when a call's row is written.
counters-replace :
    (run : ℕ) (calls : List ModelCall) (c d : ModelCall)
    → Tables.find (λ c. c.model_call_id) d.model_call_id calls ≡ some c
    → let calls' = Tables.replace (λ c. c.model_call_id) d calls in
      (sum (held_usd run) calls' + held_usd run c ≡ sum (held_usd run) calls + held_usd run d)
      × (sum (held_count run) calls' + held_count run c
          ≡ sum (held_count run) calls + held_count run d)
      × (sum (spent_usd run) calls' + spent_usd run c ≡ sum (spent_usd run) calls + spent_usd run d)
      × (sum (settled_count run) calls' + settled_count run c
          ≡ sum (settled_count run) calls + settled_count run d)
counters-replace run calls c d f =
    let at = λ (g : ModelCall → ℕ). Tables.sum-replace (λ c. c.model_call_id) g calls c d f in
    (at (held_usd run), at (held_count run), at (spent_usd run), at (settled_count run))

module _ (calls : List ModelCall) (c d : ModelCall) where
  -- Rows of one run leave the totals of another alone.
  other_run :
      (run : ℕ) (o : Option RunBudget)
      → Tables.find (λ c. c.model_call_id) d.model_call_id calls ≡ some c
      → c.run_id ≢ run
      → d.run_id ≡ c.run_id
      → Reconciles run o calls
      → Reconciles run o (Tables.replace (λ c. c.model_call_id) d calls)
  other_run run none f ne e r = ground (arith, counters-replace run calls c d f)
  other_run run (some b) f ne e r = ground (arith, counters-replace run calls c d f)

-- A call and its budget are saved together: it is enough that the two agree.
save-IsBalanced :
    (s : Store) (c d : ModelCall) (b b' : RunBudget)
    → IsBalanced s
    → find_call d.model_call_id s ≡ some c
    → find_budget b'.run_id s ≡ some b
    → d.run_id ≡ c.run_id
    → b'.run_id ≡ c.run_id
    → Agrees c.run_id b' (Tables.replace (λ c. c.model_call_id) d s.calls)
    → IsBalanced (save d b' s)
save-IsBalanced s c d b b' bal fc fb ed eb agrees run =
    rw (Tables.find-replace (λ b. b.run_id) run s.budgets b b' fb)
      (elim (Bool-cases (b'.run_id == run)) [
        | inl same ↦ rw same (
            subst (λ r. Agrees r b' (save d b' s).calls) (sym eb ∙ (==_iff b'.run_id run).0 same)
              agrees)
        | inr other ↦
            rw other (other_run s.calls c d run (find_budget run s) fc (ground arith) ed (bal run))
      ])

settled-Agrees :
    (calls : List ModelCall) (c : ModelCall) (b : RunBudget) (usage : ModelUsage) (response now : ℕ)
    → Tables.find (λ c. c.model_call_id) c.model_call_id calls ≡ some c
    → Agrees c.run_id b calls
    → is_reserved c.status ≡ true
    → usage.cost_usd ≤ c.reserved_usd
    → Agrees c.run_id
        (settled_budget usage c b)
        (Tables.replace (λ c. c.model_call_id) (settled_call usage response now c) calls)
settled-Agrees calls c b usage response now f a r le =
    let d = settled_call usage response now c in
    ground (arith, counters-replace c.run_id calls c d f)

released-Agrees :
    (calls : List ModelCall) (c : ModelCall) (b : RunBudget) (now : ℕ)
    → Tables.find (λ c. c.model_call_id) c.model_call_id calls ≡ some c
    → Agrees c.run_id b calls
    → is_reserved c.status ≡ true
    → Agrees c.run_id (released_budget c b) (
        Tables.replace
          (λ c. c.model_call_id)
          (record c { status = released; updated_at = now })
          calls)
released-Agrees calls c b now f a r =
    let d = record c { status = released; updated_at = now } in
    ground (arith, counters-replace c.run_id calls c d f)

-- An UNKNOWN call holds what it held.
unknown-Reconciles :
    (calls : List ModelCall) (c : ModelCall) (now run : ℕ) (o : Option RunBudget)
    → Tables.find (λ c. c.model_call_id) c.model_call_id calls ≡ some c
    → is_reserved c.status ≡ true
    → Reconciles run o calls
    → Reconciles run o (
        Tables.replace
          (λ c. c.model_call_id)
          (record c { status = unknown; updated_at = now })
          calls)
unknown-Reconciles calls c now run none f r a =
    let d = record c { status = unknown; updated_at = now } in
    ground (arith, counters-replace run calls c d f)
unknown-Reconciles calls c now run (some b) f r a =
    let d = record c { status = unknown; updated_at = now } in
    ground (arith, counters-replace run calls c d f)

-- A row that a search by its key finds is found by its own key.
pub found :
    (call_id : ℕ) (s : Store) (c : ModelCall)
    → find_call call_id s ≡ some c
    → find_call c.model_call_id s ≡ some c
found call_id s c h =
    subst (λ k. find_call k s ≡ some c)
      (sym (Tables.find-key (λ c. c.model_call_id) call_id s.calls c h)) h

-- The rows that a transaction locks.
pub locked :
    (call_id : ℕ) (s : Store) (c : ModelCall) (b : RunBudget)
    → lock_call_and_budget call_id s ≡ ok (c, b)
    → (find_call c.model_call_id s ≡ some c)
      × (find_budget b.run_id s ≡ some b)
      × (b.run_id ≡ c.run_id)
      × (IsBalanced s → Agrees c.run_id b s.calls)
unfolding lock_call_and_budget
locked call_id s c b h =
    let fc : find_call call_id s ≡ some c = ground arith in
    let fb : find_budget c.run_id s ≡ some b = ground arith in
    let eb = Tables.find-key (λ b. b.run_id) c.run_id s.budgets b fb in
    (
      found call_id s c fc,
      subst (λ r. find_budget r s ≡ some b) (sym eb) fb,
      eb,
      λ bal. subst (λ o. Reconciles c.run_id o s.calls) fb (bal c.run_id),
    )

module _ (context : ModelCallContext) (usage : ModelUsage) (response now : ℕ) (s : Store) where
  -- What holds when `settle` commits.
  pub settle-eq-ok :
      {s' : Store}
      → settle context usage response now s ≡ ok s'
      → (c : ModelCall) × (b : RunBudget) × (lock_call_and_budget context.model_call_id s
          ≡ ok (c, b))
        × (is_reserved c.status ≡ true)
        × (usage.cost_usd ≤ c.reserved_usd)
        × (s' ≡ save (settled_call usage response now c) (settled_budget usage c b) s)
  unfolding settle
  settle-eq-ok h = ground arith

  -- `settle` keeps the ledger balanced.
  pub settle-IsBalanced :
      {s' : Store} → settle context usage response now s ≡ ok s' → IsBalanced s → IsBalanced s'
  settle-IsBalanced h bal =
      let (c, b, l, r, le, e) = settle-eq-ok h in
      let (fc, fb, eb, agrees) = locked context.model_call_id s c b l in
      rw e (
        save-IsBalanced s c (settled_call usage response now c) b (settled_budget usage c b) bal fc
          fb refl eb (settled-Agrees s.calls c b usage response now fc (agrees bal) r le))

module _ (call_id now : ℕ) (s : Store) where
  -- What holds when `release` commits: it wrote the rows, or left an ended call alone.
  pub release-eq-ok :
      {s' : Store}
      → release call_id now s ≡ ok s'
      → (c : ModelCall) × (b : RunBudget) × (lock_call_and_budget call_id s ≡ ok (c, b))
        × ((is_reserved c.status ≡ true)
              × (s'
                  ≡ save (record c { status = released; updated_at = now }) (released_budget c b) s)
            ⊎ (is_reserved c.status ≡ false) × (s' ≡ s))
  unfolding release
  release-eq-ok h = ground arith

  -- `release` keeps the ledger balanced.
  pub release-IsBalanced :
      {s' : Store} → release call_id now s ≡ ok s' → IsBalanced s → IsBalanced s'
  release-IsBalanced h bal =
      let (c, b, l, r) = release-eq-ok h in
      let (fc, fb, eb, agrees) = locked call_id s c b l in
      elim r [
        | inl (open_call, e) ↦ rw e (
            save-IsBalanced s c (record c { status = released; updated_at = now }) b
              (released_budget c b) bal fc fb refl eb
              (released-Agrees s.calls c b now fc (agrees bal) open_call))
        | inr (ended, e) ↦ rw e bal
      ]

  -- What holds when `mark_unknown` commits.
  pub mark_unknown-eq-ok :
      {s' : Store}
      → mark_unknown call_id now s ≡ ok s'
      → (c : ModelCall) × (find_call call_id s ≡ some c)
        × ((is_reserved c.status ≡ true)
              × (s' ≡ record s {
                calls =
                    Tables.replace
                      (λ c. c.model_call_id)
                      (record c { status = unknown; updated_at = now })
                      s.calls;
              })
            ⊎ (is_reserved c.status ≡ false) × (s' ≡ s))
  unfolding mark_unknown
  mark_unknown-eq-ok h = ground arith

  -- `mark_unknown` keeps the ledger balanced: the reservation stays held.
  pub mark_unknown-IsBalanced :
      {s' : Store} → mark_unknown call_id now s ≡ ok s' → IsBalanced s → IsBalanced s'
  mark_unknown-IsBalanced h bal =
      let (c, fc, r) = mark_unknown-eq-ok h in
      elim r [
        | inl (open_call, e) ↦ rw e (λ run.
            unknown-Reconciles s.calls c now run (find_budget run s) (found call_id s c fc)
              open_call (bal run))
        | inr (ended, e) ↦ rw e bal
      ]

-- ===== src/RunControl/Backed.antt =====
-- What stands behind the executions that the control plane has started: a key, and a budget that was
-- there before.
use acoding_agent.Prelude.{
  ℕ, ◌≡◌, refl, sym, ◌∙◌, subst, ◌==◌, false, ◌&&◌, ◌||◌, some, List, [], ◌∷◌, All, Text, text_eq,
  text_eq_sound, mem_text, Bool-cases, Option-cases, inl, inr, arith,
}
use acoding_agent.Prelude.Tables.{find}
use acoding_agent.Budget.Store.{
  RunBudget, find_budget, new_budget, create_budget, Result, ok, err, value_error,
}
use acoding_agent.Budget.Store as Budget
use acoding_agent.RunControl.Records.{KeyStatus, IdempotencyKey, workflow_id_for}
use acoding_agent.RunControl.Keys.{find_key, set_idempotency_status}
use acoding_agent.RunControl.Rows.{marked, find_key-set, find_key-set_other}

abbrev pub HasRow : ℕ → Text → List IdempotencyKey → Type 0
HasRow tenant_id key rows = (row : IdempotencyKey) × (find_key tenant_id key rows ≡ some row)

abbrev pub HasBudget : ℕ → Budget.Store → Type 0
HasBudget run_id budgets = (b : RunBudget) × (find_budget run_id budgets ≡ some b)

-- What a table keeps of another: the rows that can be found.
abbrev pub KeepsRows : List IdempotencyKey → List IdempotencyKey → Type 0
KeepsRows rows rows' =
    (tenant_id : ℕ) (key : Text) → HasRow tenant_id key rows → HasRow tenant_id key rows'

pub set-KeepsRows :
    (tenant_id : ℕ) (key : Text) (status : KeyStatus) (artifact : ℕ) (rows : List IdempotencyKey)
    → KeepsRows rows (set_idempotency_status tenant_id key status artifact rows)
set-KeepsRows tenant_id key status artifact rows tenant_id' key' (row, f) =
    elim (Bool-cases (tenant_id' == tenant_id && text_eq key' key)) [
      | inr other ↦
          (row, find_key-set_other tenant_id' tenant_id key' key status artifact rows other ∙ f)
      | inl same ↦
          let tenants : tenant_id' ≡ tenant_id = ground (arith, same) in
          let keys = text_eq_sound key' key (ground (arith, same)) in
          let f' : find_key tenant_id key rows ≡ some row = rw (sym tenants, sym keys) f in
          (
            marked status artifact row,
            rw (tenants, keys) (find_key-set tenant_id key status artifact rows row f'),
          )
    ]

behind :
    (run_id : ℕ) (new : RunBudget) (rows : List RunBudget)
    → ((b : RunBudget) × (find (λ b. b.run_id) run_id rows ≡ some b))
    → (b : RunBudget) × (find (λ b. b.run_id) run_id (new ∷ rows) ≡ some b)
unfolding find
behind run_id new rows (b, f) = elim (Bool-cases (new.run_id == run_id)) [
  | inl here ↦ (new, rw here refl)
  | inr other ↦ (b, rw other f)
]

-- A budget that was created is there, and so are the others.
pub create_budget-keeps :
    (run_id tenant_id cost calls : ℕ) (b b' : Budget.Store)
    → create_budget run_id tenant_id cost calls b ≡ ok b'
    → HasBudget run_id b' × ((other : ℕ) → HasBudget other b → HasBudget other b')
unfolding create_budget find
create_budget-keeps run_id tenant_id cost calls b b' h =
    elim (Bool-cases (cost == 0 || calls == 0)) [
      | inl none_left ↦ absurd (
          let red : create_budget run_id tenant_id cost calls b ≡ err value_error =
            rw none_left refl in
          cc)
      | inr fine ↦ elim (Option-cases (find_budget run_id b)) [
        | inr (x, e) ↦
            let red : create_budget run_id tenant_id cost calls b ≡ ok b = rw (fine, e) refl in
            let same : b ≡ b' = cc in
            subst (λ y. HasBudget run_id y × ((other : ℕ) → HasBudget other b → HasBudget other y))
              same ((x, e), λ other there. there)
        | inl e ↦
            let new = new_budget run_id tenant_id cost calls in
            let after : Budget.Store = record b { budgets = new ∷ b.budgets } in
            let red : create_budget run_id tenant_id cost calls b ≡ ok after = rw (fine, e) refl in
            let same : after ≡ b' = cc in
            subst (λ y. HasBudget run_id y × ((other : ℕ) → HasBudget other b → HasBudget other y))
              same ((new, ground arith), λ other there. behind other new b.budgets there)
      ]
    ]

module _ (uuid5 : ℕ → Text → ℕ) (uuid_text : ℕ → Text) where
  -- An execution has a key and the budget of its run.
  pub record IsBacked (keys : List IdempotencyKey) (budgets : Budget.Store) (id : Text)
      : Type 0 where
    pub tenant_id : ℕ
    pub key : Text
    pub its_id : id ≡ workflow_id_for uuid_text tenant_id (uuid5 tenant_id key)
    pub its_row : HasRow tenant_id key keys
    pub its_budget : HasBudget (uuid5 tenant_id key) budgets

  pub IsBacked-keeps :
      (rows rows' : List IdempotencyKey) (b b' : Budget.Store) (ids : List Text)
      → KeepsRows rows rows'
      → ((run_id : ℕ) → HasBudget run_id b → HasBudget run_id b')
      → All (IsBacked rows b) ids
      → All (IsBacked rows' b') ids
  IsBacked-keeps rows rows' b b' [] keeps keeps_budgets all = tt
  IsBacked-keeps rows rows' b b' (id ∷ ids) keeps keeps_budgets (p, all) = (
    record {
      tenant_id = p.tenant_id;
      key = p.key;
      its_id = p.its_id;
      its_row = keeps p.tenant_id p.key p.its_row;
      its_budget = keeps_budgets (uuid5 p.tenant_id p.key) p.its_budget;
    },
    IsBacked-keeps rows rows' b b' ids keeps keeps_budgets all,
  )

abbrev pub IsDistinct : List Text → Type 0
IsDistinct [] = Unit
IsDistinct (id ∷ ids) = (mem_text id ids ≡ false) × IsDistinct ids

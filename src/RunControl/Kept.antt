-- ===== src/RunControl/Kept.antt =====
-- The row of a key behind a call of `create`, for this key and for others.
use acoding_agent.Prelude.{
  ℕ, ◌≡◌, refl, sym, ap, ◌∙◌, subst, ◌==◌, true, false, ◌&&◌, some, List, Text, text_eq,
  text_eq_sound, Bool-cases, inl, inr, arith, ◌⊎◌,
}
use acoding_agent.Prelude.Checked.{Checked, accepted, refused, accepted-injective}
use acoding_agent.Domain.Tasks.{CreateRunRequest}
use acoding_agent.RunControl.Records.{
  started, failed, is_started, IdempotencyKey, Error, run_unavailable, idempotency_conflict,
  integrity_error, RunView,
}
use acoding_agent.RunControl.Keys.{find_key, new_key, insert_key, check_record}
use acoding_agent.RunControl.Rows.{
  marked, find_key-set, find_key-set_other, insert_key-find, insert_key-found, insert_key-refused,
  check_record-same, check_record-other,
}
use acoding_agent.RunControl.Control.{Services, State, Draws, proceed, reserved, create}
use acoding_agent.RunControl.Created.{
  Outcome, create', hash, Effect, unchanged, marked_failed, marked_started, submit-Effect,
  create-started, create-conflict, get_run-run_id, get_run-owned,
}

module _ {O W : Type 0} (env : Services O W) where
  abbrev Out : Type 0
  Out = Outcome env

  abbrev Eff : ℕ → Text → List IdempotencyKey → Out → Type 0
  Eff = Effect env

  abbrev digest : CreateRunRequest → Text
  digest = hash env

  abbrev proceed' :
      Draws → ℕ → CreateRunRequest → Text → State O W → Checked Error IdempotencyKey → Out
  proceed' = proceed env

  abbrev call : Draws → ℕ → CreateRunRequest → Text → State O W → Out
  call = create' env

  -- The row of the key behind a call, which is started if the call has answered with a run.
  pub record Left (tenant_id : ℕ) (key request_hash : Text) (out : Out) : Type 0 where
    pub row : IdempotencyKey
    pub found : find_key tenant_id key out.0.keys ≡ some row
    pub same : row.request_sha256 ≡ request_hash
    pub answered :
        (view : RunView)
        → out.1 ≡ accepted view
        → (is_started row.status ≡ true)
          × ((view.run_id ≡ row.run_id) ⊎ (view.run_id ≡ env.uuid5 tenant_id key))
    pub waiting : out.1 ≡ refused run_unavailable → is_started row.status ≡ false

  Effect-Left :
      (tenant_id : ℕ) (key : Text) (rows : List IdempotencyKey) (row : IdempotencyKey) (out : Out)
      → find_key tenant_id key rows ≡ some row
      → is_started row.status ≡ false
      → Eff tenant_id key rows out
      → Left tenant_id key row.request_sha256 out
  Effect-Left tenant_id key rows row out f not_yet (unchanged reason e k) = record {
    row = row;
    found = ap (find_key tenant_id key) k ∙ f;
    same = refl;
    answered = λ view h. absurd cc;
    waiting = λ h. not_yet;
  }
  Effect-Left tenant_id key rows row out f not_yet (marked_failed reason artifact e k) = record {
    row = marked failed artifact row;
    found = ap (find_key tenant_id key) k ∙ find_key-set tenant_id key failed artifact rows row f;
    same = refl;
    answered = λ view h. absurd cc;
    waiting = λ h. refl;
  }
  Effect-Left tenant_id key rows row out f not_yet (marked_started view artifact e run k) = record {
    row = marked started artifact row;
    found = ap (find_key tenant_id key) k ∙ find_key-set tenant_id key started artifact rows row f;
    same = refl;
    answered = λ view' h. (refl, inr (ap (λ x. x.run_id) (accepted-injective (sym h ∙ e)) ∙ run));
    waiting = λ h. absurd cc;
  }

  -- How a call ends.
  pub data Ending (tenant_id : ℕ) (key request_hash : Text) (out : Out) : Type 0 where
    not_reserved : out.1 ≡ refused integrity_error → Ending tenant_id key request_hash out
    conflicting : out.1 ≡ refused idempotency_conflict → Ending tenant_id key request_hash out
    leaves : Left tenant_id key request_hash out → Ending tenant_id key request_hash out

  proceed-Left :
      (draws : Draws) (tenant_id : ℕ) (request : CreateRunRequest) (key : Text) (s : State O W)
      (row : IdempotencyKey)
      → find_key tenant_id key s.keys ≡ some row
      → Left tenant_id key row.request_sha256
          (proceed' draws tenant_id request key s (accepted row))
  unfolding proceed
  proceed-Left draws tenant_id request key s row f = elim (Bool-cases (is_started row.status)) [
    | inl st ↦ rw st (
        (record {
          row = row;
          found = f;
          same = refl;
          answered = λ view h. (st, inl (get_run-run_id env tenant_id row.run_id s view h));
          waiting = λ h. absurd (let owned = get_run-owned env tenant_id key s row f in cc);
        }))
    | inr not_yet ↦ rw not_yet (
        Effect-Left tenant_id key s.keys row _ f not_yet
          (submit-Effect env draws tenant_id request key s))
  ]

  proceed-Ending :
      (draws : Draws) (tenant_id : ℕ) (request : CreateRunRequest) (key : Text) (s : State O W)
      (row : IdempotencyKey)
      → find_key tenant_id key s.keys ≡ some row
      → Ending tenant_id key (digest request) (
          proceed' draws tenant_id request key s
            (check_record (digest request) (find_key tenant_id key s.keys)))
  unfolding proceed
  proceed-Ending draws tenant_id request key s row f =
      rw f (elim (Bool-cases (text_eq row.request_sha256 (digest request))) [
        | inl same_text ↦
            let same = text_eq_sound row.request_sha256 (digest request) same_text in
            rw (check_record-same (digest request) row same) (
              leaves (
                subst
                  (λ x.
                    Left tenant_id key x (proceed' draws tenant_id request key s (accepted row)))
                  same (proceed-Left draws tenant_id request key s row f)))
        | inr differ ↦ rw (check_record-other (digest request) row differ) (conflicting refl)
      ])

  reserved-Ending :
      (draws : Draws) (tenant_id : ℕ) (request : CreateRunRequest) (key : Text) (s : State O W)
      (r : Checked Error (List IdempotencyKey))
      → insert_key
          (new_key tenant_id key (digest request) (env.uuid5 tenant_id key) draws.expires_at)
          s.keys
        ≡ r
      → Ending tenant_id key (digest request) (reserved env draws tenant_id request key s r)
  unfolding reserved
  reserved-Ending draws tenant_id request key s (refused reason) h =
      not_reserved (ap refused (insert_key-refused _ s.keys reason h))
  reserved-Ending draws tenant_id request key s (accepted rows) h =
      let (row, f) = insert_key-found _ s.keys rows h in
      proceed-Ending draws tenant_id request key (record s { keys = rows }) row f

  pub create-Ending :
      (draws : Draws) (tenant_id : ℕ) (request : CreateRunRequest) (key : Text) (s : State O W)
      → Ending tenant_id key (digest request) (call draws tenant_id request key s)
  unfolding create
  create-Ending draws tenant_id request key s = reserved-Ending draws tenant_id request key s _ refl

  -- A call for another key leaves the row of this one.
  module _ (tenant_id other_tenant : ℕ) (key other_key : Text)
      (apart : (tenant_id == other_tenant && text_eq key other_key) ≡ false) where
    Effect-other :
        (rows : List IdempotencyKey) (out : Out)
        → Eff other_tenant other_key rows out
        → find_key tenant_id key out.0.keys ≡ find_key tenant_id key rows
    Effect-other rows out (unchanged reason e k) = ap (find_key tenant_id key) k
    Effect-other rows out (marked_failed reason artifact e k) =
        ap (find_key tenant_id key) k
        ∙ find_key-set_other tenant_id other_tenant key other_key failed artifact rows apart
    Effect-other rows out (marked_started view artifact e run k) =
        ap (find_key tenant_id key) k
        ∙ find_key-set_other tenant_id other_tenant key other_key started artifact rows apart

    proceed-other :
        (draws : Draws) (request : CreateRunRequest) (s : State O W)
        (r : Checked Error IdempotencyKey)
        → find_key tenant_id key (proceed' draws other_tenant request other_key s r).0.keys
          ≡ find_key tenant_id key s.keys
    unfolding proceed
    proceed-other draws request s (refused reason) = refl
    proceed-other draws request s (accepted row) = elim (Bool-cases (is_started row.status)) [
      | inl st ↦ rw st refl
      | inr not_yet ↦
          rw not_yet
            (Effect-other s.keys _ (submit-Effect env draws other_tenant request other_key s))
    ]

    reserved-other :
        (draws : Draws) (request : CreateRunRequest) (s : State O W) (row : IdempotencyKey)
        (r : Checked Error (List IdempotencyKey))
        → insert_key
            (new_key other_tenant other_key
              (digest request)
              (env.uuid5 other_tenant other_key)
              draws.expires_at)
            s.keys
          ≡ r
        → find_key tenant_id key s.keys ≡ some row
        → find_key tenant_id key (reserved env draws other_tenant request other_key s r).0.keys
          ≡ some row
    unfolding reserved
    reserved-other draws request s row (refused reason) h f = f
    reserved-other draws request s row (accepted rows) h f =
        proceed-other draws request (record s { keys = rows }) _
        ∙ insert_key-find _ s.keys rows tenant_id key row h f

    create-other :
        (draws : Draws) (request : CreateRunRequest) (s : State O W) (row : IdempotencyKey)
        → find_key tenant_id key s.keys ≡ some row
        → find_key tenant_id key (call draws other_tenant request other_key s).0.keys ≡ some row
    unfolding create
    create-other draws request s row f = reserved-other draws request s row _ refl f

  -- A call for the key of a started run changes nothing.
  create-same :
      (draws : Draws) (tenant_id : ℕ) (request : CreateRunRequest) (key : Text) (s : State O W)
      (row : IdempotencyKey)
      → find_key tenant_id key s.keys ≡ some row
      → is_started row.status ≡ true
      → (call draws tenant_id request key s).0 ≡ s
  create-same draws tenant_id request key s row f st =
      elim (Bool-cases (text_eq row.request_sha256 (digest request))) [
        | inl same ↦
            ap (λ x. x.0)
              (create-started env draws tenant_id request key s row f
                (text_eq_sound row.request_sha256 (digest request) same) st)
        | inr differ ↦
            ap (λ x. x.0) (create-conflict env draws tenant_id request key s row f differ)
      ]

  -- No call moves the row of a started run.
  pub create-keeps :
      (draws : Draws) (tenant_id other_tenant : ℕ) (request : CreateRunRequest)
      (key other_key : Text) (s : State O W) (row : IdempotencyKey)
      → find_key tenant_id key s.keys ≡ some row
      → is_started row.status ≡ true
      → find_key tenant_id key (call draws other_tenant request other_key s).0.keys ≡ some row
  create-keeps draws tenant_id other_tenant request key other_key s row f st =
      elim (Bool-cases (tenant_id == other_tenant && text_eq key other_key)) [
        | inr apart ↦ create-other tenant_id other_tenant key other_key apart draws request s row f
        | inl same ↦
            let tenants : tenant_id ≡ other_tenant = ground (arith, same) in
            let keys = text_eq_sound key other_key (ground (arith, same)) in
            rw (sym tenants, sym keys)
              (ap (λ x. find_key tenant_id key x.keys)
                  (create-same draws tenant_id request key s row f st)
                ∙ f)
      ]

-- ===== src/RunControl/Keyed.antt =====
-- Every row of `idempotency_keys` has the run that its key derives, whatever is requested.
use acoding_agent.Prelude.{
  ℕ, ◌≡◌, refl, sym, ap, ◌∙◌, subst, Bool, true, false, some, List, [], ◌∷◌, any, All, Text,
  text_eq_sound, Bool-cases, inl, inr, arith,
}
use acoding_agent.Prelude.Checked.{Checked, accepted, refused, accepted-injective}
use acoding_agent.Domain.Tasks.{CreateRunRequest}
use acoding_agent.Run.Approvals.{ApprovalRequest}
use acoding_agent.Projection.Store as Projection
use acoding_agent.RunControl.Records.{KeyStatus, is_started, IdempotencyKey, Error}
use acoding_agent.RunControl.Keys.{
  find_key, has_key, new_key, insert_key, set_idempotency_status, require_owned_run,
}
use acoding_agent.RunControl.Rows.{insert_key-present, insert_key-absent}
use acoding_agent.RunControl.Control.{Services, State, Draws, proceed, reserved, create}
use acoding_agent.RunControl.Reads.{sent, if_owned, approve, cancel}
use acoding_agent.RunControl.Created.{
  Outcome, hash, Effect, unchanged, marked_failed, marked_started, submit-Effect,
}

module _ (uuid5 : ℕ → Text → ℕ) where
  abbrev pub HasItsRun : IdempotencyKey → Type 0
  HasItsRun row = row.run_id ≡ uuid5 row.tenant_id row.key

  abbrev pub IsKeyed : List IdempotencyKey → Type 0
  IsKeyed = All HasItsRun

  set-IsKeyed :
      (tenant_id : ℕ) (key : Text) (status : KeyStatus) (artifact : ℕ) (rows : List IdempotencyKey)
      → IsKeyed rows
      → IsKeyed (set_idempotency_status tenant_id key status artifact rows)
  unfolding set_idempotency_status
  set-IsKeyed tenant_id key status artifact [] all = tt
  set-IsKeyed tenant_id key status artifact (r ∷ rows) (p, all) =
      elim (Bool-cases (has_key tenant_id key r)) [
        | inl here ↦ rw here (p, set-IsKeyed tenant_id key status artifact rows all)
        | inr other ↦ rw other (p, set-IsKeyed tenant_id key status artifact rows all)
      ]

  insert_key-IsKeyed :
      (new : IdempotencyKey) (rows rows' : List IdempotencyKey)
      → HasItsRun new
      → insert_key new rows ≡ accepted rows'
      → IsKeyed rows
      → IsKeyed rows'
  insert_key-IsKeyed new rows rows' p h all =
      elim (Bool-cases (any (has_key new.tenant_id new.key) rows)) [
        | inl present ↦
            subst IsKeyed (accepted-injective (sym (insert_key-present new rows present) ∙ h)) all
        | inr absent ↦ subst IsKeyed (insert_key-absent new rows rows' absent h) (p, all)
      ]

  -- The run of a row that is found by its key.
  pub find_key-IsKeyed :
      (tenant_id : ℕ) (key : Text) (rows : List IdempotencyKey) (row : IdempotencyKey)
      → IsKeyed rows
      → find_key tenant_id key rows ≡ some row
      → row.run_id ≡ uuid5 tenant_id key
  unfolding find_key
  find_key-IsKeyed tenant_id key [] row all h = cc
  find_key-IsKeyed tenant_id key (r ∷ rows) row (p, all) h =
      elim (Bool-cases (has_key tenant_id key r)) [
        | inr other ↦ find_key-IsKeyed tenant_id key rows row all (ground (arith, h, other))
        | inl here ↦
            let same : r ≡ row = ground (arith, h, here) in
            let tenants : r.tenant_id ≡ tenant_id = ground (arith, here) in
            let keys = text_eq_sound r.key key (ground (arith, here)) in
            ap (λ x. x.run_id) (sym same)
            ∙ p
            ∙ ap (λ x. uuid5 x r.key) tenants
            ∙ ap (uuid5 tenant_id) keys
      ]

-- What the API asks, of any tenant, and what the workflows write to the projection meanwhile.
pub data Request : Type 0 where
  creates : Draws → (tenant_id : ℕ) → CreateRunRequest → (key : Text) → Request
  approves : (tenant_id run_id : ℕ) → ApprovalRequest → Request
  cancels : (tenant_id run_id : ℕ) → Request
  projects : Projection.Tables → Request

module _ {O W : Type 0} (env : Services O W) where
  unfoldable pub serve : Request → State O W → State O W
  serve (creates draws tenant_id request key) s = (create env draws tenant_id request key s).0
  serve (approves tenant_id run_id approval) s = (approve env tenant_id run_id approval s).0
  serve (cancels tenant_id run_id) s = (cancel env tenant_id run_id s).0
  serve (projects tables) s = record s { projections = tables }

  unfoldable pub serve_all : List Request → State O W → State O W
  unfolding serve
  serve_all [] s = s
  serve_all (r ∷ rs) s = serve_all rs (serve r s)

  sent-keys : (answer : W × Bool) (s : State O W) → (sent env answer s).0.keys ≡ s.keys
  sent-keys (w, true) s = refl
  sent-keys (w, false) s = refl

  if_owned-keys :
      (r : Checked Error (Unit {0})) (next : State O W → State O W × Checked Error (Unit {0}))
      (s : State O W)
      → ((x : State O W) → (next x).0.keys ≡ x.keys)
      → (if_owned env r next s).0.keys ≡ s.keys
  if_owned-keys (refused reason) next s h = refl
  if_owned-keys (accepted _) next s h = h s

  pub approve-keys :
      (tenant_id run_id : ℕ) (approval : ApprovalRequest) (s : State O W)
      → (approve env tenant_id run_id approval s).0.keys ≡ s.keys
  unfolding approve
  approve-keys tenant_id run_id approval s =
      if_owned-keys (require_owned_run tenant_id run_id s.keys) _ s (λ x. sent-keys _ x)

  pub cancel-keys :
      (tenant_id run_id : ℕ) (s : State O W) → (cancel env tenant_id run_id s).0.keys ≡ s.keys
  unfolding cancel
  cancel-keys tenant_id run_id s =
      if_owned-keys (require_owned_run tenant_id run_id s.keys) _ s (λ x. sent-keys _ x)

  Effect-IsKeyed :
      (tenant_id : ℕ) (key : Text) (rows : List IdempotencyKey) (out : Outcome env)
      → IsKeyed env.uuid5 rows
      → Effect env tenant_id key rows out
      → IsKeyed env.uuid5 out.0.keys
  Effect-IsKeyed tenant_id key rows out all (unchanged reason e k) =
      subst (IsKeyed env.uuid5) (sym k) all
  Effect-IsKeyed tenant_id key rows out all (marked_failed reason artifact e k) =
      subst (IsKeyed env.uuid5) (sym k) (set-IsKeyed env.uuid5 tenant_id key _ artifact rows all)
  Effect-IsKeyed tenant_id key rows out all (marked_started view artifact e run k) =
      subst (IsKeyed env.uuid5) (sym k) (set-IsKeyed env.uuid5 tenant_id key _ artifact rows all)

  proceed-IsKeyed :
      (draws : Draws) (tenant_id : ℕ) (request : CreateRunRequest) (key : Text) (s : State O W)
      (r : Checked Error IdempotencyKey)
      → IsKeyed env.uuid5 s.keys
      → IsKeyed env.uuid5 (proceed env draws tenant_id request key s r).0.keys
  unfolding proceed
  proceed-IsKeyed draws tenant_id request key s (refused reason) all = all
  proceed-IsKeyed draws tenant_id request key s (accepted row) all =
      elim (Bool-cases (is_started row.status)) [
        | inl st ↦ rw st all
        | inr not_yet ↦ rw not_yet (
            Effect-IsKeyed tenant_id key s.keys _ all
              (submit-Effect env draws tenant_id request key s))
      ]

  reserved-IsKeyed :
      (draws : Draws) (tenant_id : ℕ) (request : CreateRunRequest) (key : Text) (s : State O W)
      (r : Checked Error (List IdempotencyKey))
      → insert_key
          (new_key tenant_id key (hash env request) (env.uuid5 tenant_id key) draws.expires_at)
          s.keys
        ≡ r
      → IsKeyed env.uuid5 s.keys
      → IsKeyed env.uuid5 (reserved env draws tenant_id request key s r).0.keys
  unfolding reserved
  reserved-IsKeyed draws tenant_id request key s (refused reason) h all = all
  reserved-IsKeyed draws tenant_id request key s (accepted rows) h all =
      proceed-IsKeyed draws tenant_id request key (record s { keys = rows }) _
        (insert_key-IsKeyed env.uuid5 _ s.keys rows refl h all)

  pub create-IsKeyed :
      (draws : Draws) (tenant_id : ℕ) (request : CreateRunRequest) (key : Text) (s : State O W)
      → IsKeyed env.uuid5 s.keys
      → IsKeyed env.uuid5 (create env draws tenant_id request key s).0.keys
  unfolding create
  create-IsKeyed draws tenant_id request key s all =
      reserved-IsKeyed draws tenant_id request key s _ refl all

  serve-IsKeyed :
      (r : Request) (s : State O W) → IsKeyed env.uuid5 s.keys → IsKeyed env.uuid5 (serve r s).keys
  unfolding serve
  serve-IsKeyed (creates draws tenant_id request key) s all =
      create-IsKeyed draws tenant_id request key s all
  serve-IsKeyed (approves tenant_id run_id approval) s all =
      subst (IsKeyed env.uuid5) (sym (approve-keys tenant_id run_id approval s)) all
  serve-IsKeyed (cancels tenant_id run_id) s all =
      subst (IsKeyed env.uuid5) (sym (cancel-keys tenant_id run_id s)) all
  serve-IsKeyed (projects tables) s all = all

  pub serve_all-IsKeyed :
      (rs : List Request) (s : State O W)
      → IsKeyed env.uuid5 s.keys
      → IsKeyed env.uuid5 (serve_all rs s).keys
  unfolding serve_all
  serve_all-IsKeyed [] s all = all
  serve_all-IsKeyed (r ∷ rs) s all = serve_all-IsKeyed rs (serve r s) (serve-IsKeyed r s all)

-- ===== src/RunControl/Replay.antt =====
-- A key that has been answered with a run, behind any further requests.
use acoding_agent.Prelude.{
  ℕ, ◌≡◌, sym, ap, ◌∙◌, true, false, some, List, [], ◌∷◌, Text, text_eq, inl, inr,
}
use acoding_agent.Prelude.Checked.{Checked, accepted, refused}
use acoding_agent.Domain.Tasks.{CreateRunRequest}
use acoding_agent.Projection.Store.{get}
use acoding_agent.RunControl.Records.{
  is_started, IdempotencyKey, Error, idempotency_conflict, RunView,
}
use acoding_agent.RunControl.Keys.{find_key}
use acoding_agent.RunControl.Control.{Services, State, Draws, request_hash, projected, create}
use acoding_agent.RunControl.Created.{create-started, create-conflict, projected-run_id}
use acoding_agent.RunControl.Kept.{not_reserved, conflicting, leaves, create-Ending, create-keeps}
use acoding_agent.RunControl.Keyed.{
  IsKeyed, find_key-IsKeyed, Request, creates, approves, cancels, projects, serve, serve_all,
  approve-keys, cancel-keys, create-IsKeyed,
}

module _ {O W : Type 0} (env : Services O W) where
  abbrev call : Draws → ℕ → CreateRunRequest → Text → State O W → State O W × Checked Error RunView
  call = create env

  abbrev digest : CreateRunRequest → Text
  digest = request_hash env

  abbrev serve' : Request → State O W → State O W
  serve' = serve env

  abbrev serve_all' : List Request → State O W → State O W
  serve_all' = serve_all env

  serve-keeps :
      (r : Request) (tenant_id : ℕ) (key : Text) (s : State O W) (row : IdempotencyKey)
      → find_key tenant_id key s.keys ≡ some row
      → is_started row.status ≡ true
      → find_key tenant_id key (serve' r s).keys ≡ some row
  unfolding serve
  serve-keeps (creates draws other_tenant request other_key) tenant_id key s row f st =
      create-keeps env draws tenant_id other_tenant request key other_key s row f st
  serve-keeps (approves other_tenant run_id approval) tenant_id key s row f st =
      ap (find_key tenant_id key) (approve-keys env other_tenant run_id approval s) ∙ f
  serve-keeps (cancels other_tenant run_id) tenant_id key s row f st =
      ap (find_key tenant_id key) (cancel-keys env other_tenant run_id s) ∙ f
  serve-keeps (projects tables) tenant_id key s row f st = f

  serve_all-keeps :
      (rs : List Request) (tenant_id : ℕ) (key : Text) (s : State O W) (row : IdempotencyKey)
      → find_key tenant_id key s.keys ≡ some row
      → is_started row.status ≡ true
      → find_key tenant_id key (serve_all' rs s).keys ≡ some row
  unfolding serve_all
  serve_all-keeps [] tenant_id key s row f st = f
  serve_all-keeps (r ∷ rs) tenant_id key s row f st =
      serve_all-keeps rs tenant_id key (serve' r s) row (serve-keeps r tenant_id key s row f st) st

  -- The row behind a call that has answered with a run.
  record Answered (tenant_id : ℕ) (key : Text) (request : CreateRunRequest) (view : RunView)
      (s' : State O W) : Type 0 where
    row : IdempotencyKey
    found : find_key tenant_id key s'.keys ≡ some row
    same : row.request_sha256 ≡ digest request
    started : is_started row.status ≡ true
    its_run : view.run_id ≡ row.run_id

  create-Answered :
      (draws : Draws) (tenant_id : ℕ) (request : CreateRunRequest) (key : Text) (s s' : State O W)
      (view : RunView)
      → IsKeyed env.uuid5 s.keys
      → call draws tenant_id request key s ≡ (s', accepted view)
      → Answered tenant_id key request view s'
  create-Answered draws tenant_id request key s s' view keyed h =
      let answer = ap (λ x. x.1) h in
      elim (create-Ending env draws tenant_id request key s) [
        | not_reserved e ↦ absurd cc
        | conflicting e ↦ absurd cc
        | leaves left ↦
            let (st, run) = left.answered view answer in
            let keyed' = create-IsKeyed env draws tenant_id request key s keyed in
            record {
              row = left.row;
              found = ap (λ x. find_key tenant_id key x.0.keys) (sym h) ∙ left.found;
              same = left.same;
              started = st;
              its_run = elim run [
                | inl same ↦ same
                | inr derived ↦
                    derived
                    ∙ sym (find_key-IsKeyed env.uuid5 tenant_id key _ left.row keyed' left.found)
              ];
            }
      ]

  -- When `create` has answered with a run, then whatever is requested afterwards, of whatever tenant, a
  -- repetition with the same key and the same request answers with the same run and changes nothing,
  -- and another request with this key, one with another digest, is refused as a conflict and changes
  -- nothing. To begin with, the rows have the runs that their keys derive.
  pub create-replayed :
      (draws again : Draws) (tenant_id : ℕ) (request other : CreateRunRequest) (key : Text)
      (between : List Request) (s s' : State O W) (view : RunView)
      → IsKeyed env.uuid5 s.keys
      → call draws tenant_id request key s ≡ (s', accepted view)
      → text_eq (digest request) (digest other) ≡ false
      → ((view' : RunView) × (call again tenant_id request key (serve_all' between s')
            ≡ (serve_all' between s', accepted view'))
          × (view'.run_id ≡ view.run_id))
        × (call again tenant_id other key (serve_all' between s')
            ≡ (serve_all' between s', refused idempotency_conflict))
  create-replayed draws again tenant_id request other key between s s' view keyed h differ =
      let a = create-Answered draws tenant_id request key s s' view keyed h in
      let later = serve_all' between s' in
      let f = serve_all-keeps between tenant_id key s' a.row a.found a.started in
      (
        (
          projected env tenant_id a.row.run_id (get a.row.run_id later.projections),
          create-started env again tenant_id request key later a.row f a.same a.started,
          projected-run_id env tenant_id a.row.run_id later.projections ∙ sym a.its_run,
        ),
        create-conflict env again tenant_id other key later a.row f
            (ap (λ x. text_eq x (digest other)) a.same ∙ differ),
      )

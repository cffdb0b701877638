-- ===== src/RunControl/Hidden.antt =====
-- A run of one tenant, as another tenant sees it.
use acoding_agent.Prelude.{
  ℕ, ◌≡◌, ◌≢◌, refl, sym, ap, ◌∙◌, false, any, List, [], ◌∷◌, Text, Bool-cases, inl, inr, arith,
}
use acoding_agent.Prelude.Checked.{refused, ◌>>◌, refuse_if}
use acoding_agent.Run.Approvals.{ApprovalRequest}
use acoding_agent.RunControl.Records.{IdempotencyKey, run_not_found}
use acoding_agent.RunControl.Keys.{owns, require_owned_run}
use acoding_agent.RunControl.Control.{Services, State, get_run}
use acoding_agent.RunControl.Reads.{approve, cancel, list_events, list_artifacts}
use acoding_agent.RunControl.Keyed.{IsKeyed, Request, serve_all, serve_all-IsKeyed}

not_owned :
    (uuid5 : ℕ → Text → ℕ) (tenant_id run_id : ℕ) (rows : List IdempotencyKey)
    → IsKeyed uuid5 rows
    → ((key : Text) → uuid5 tenant_id key ≢ run_id)
    → any (owns tenant_id run_id) rows ≡ false
not_owned uuid5 tenant_id run_id [] keyed apart = refl
not_owned uuid5 tenant_id run_id (row ∷ rows) (p, keyed) apart =
    elim (Bool-cases (owns tenant_id run_id row)) [
      | inr other ↦ ground (arith, other, not_owned uuid5 tenant_id run_id rows keyed apart)
      | inl own ↦
          let tenants : row.tenant_id ≡ tenant_id = ground (arith, own) in
          let runs : row.run_id ≡ run_id = ground (arith, own) in
          absurd (apart row.key (ap (λ x. uuid5 x row.key) (sym tenants) ∙ sym p ∙ runs))
    ]

require_owned_run-hidden :
    (tenant_id run_id : ℕ) (rows : List IdempotencyKey)
    → any (owns tenant_id run_id) rows ≡ false
    → require_owned_run tenant_id run_id rows ≡ refused run_not_found
unfolding require_owned_run refuse_if
require_owned_run-hidden tenant_id run_id rows h = rw h refl

module _ {O W : Type 0} (env : Services O W) where
  -- Whatever has been requested, from a table whose rows have the runs that their keys derive: a run
  -- that no key of a tenant derives does not exist for that tenant. Its state, events and artifacts are
  -- not found, and an approval or a cancellation is refused and sends nothing.
  pub serve_all-hidden :
      (requests : List Request) (tenant_id run_id : ℕ) (approval : ApprovalRequest) (s : State O W)
      → IsKeyed env.uuid5 s.keys
      → ((key : Text) → env.uuid5 tenant_id key ≢ run_id)
      → let later = serve_all env requests s in
        (get_run env tenant_id run_id later ≡ refused run_not_found)
        × (list_events env tenant_id run_id later ≡ refused run_not_found)
        × (list_artifacts env tenant_id run_id later ≡ refused run_not_found)
        × (approve env tenant_id run_id approval later ≡ (later, refused run_not_found))
        × (cancel env tenant_id run_id later ≡ (later, refused run_not_found))
  unfolding get_run list_events list_artifacts approve cancel ◌>>◌
  serve_all-hidden requests tenant_id run_id approval s keyed apart =
      let later = serve_all env requests s in
      let hidden = require_owned_run-hidden tenant_id run_id later.keys (
        not_owned env.uuid5 tenant_id run_id later.keys (serve_all-IsKeyed env requests s keyed)
          apart) in
      (rw hidden refl, rw hidden refl, rw hidden refl, rw hidden refl, rw hidden refl)

-- ===== src/Run/Promises.antt =====
-- What `run` of src/repopilot/workflows/code_repair.py promises to those who start a run.
use acoding_agent.Prelude.{
  ℕ, ◌≤◌, ◌≡◌, refl, sym, subst, ◌∙◌, true, false, ◌&&◌, not, List, [], ◌∷◌, All, none, some, arith,
  inl, inr, Bool-cases,
}
use acoding_agent.Domain.Enums.{RunStatus, is_terminal, ApprovalMode, automatic, manual}
use acoding_agent.Domain.Policies.{ApprovalStagePolicy, custom_settings_match_mode}
use acoding_agent.Run.Approvals.{ApprovalKind, same_kind, Decision, ApprovalRequest, is_reject}
use acoding_agent.Run.World.{WorkflowInput, WorkflowOutput, World, approved}
use acoding_agent.Run.Monad.{
  State, Event, decided, projected, verified, reviewed, initial, Exception, return, raise,
}
use acoding_agent.Run.Workflow.{resolve_approval_stages}
use acoding_agent.Run.Main.{body, run}
use acoding_agent.Run.Requests.{
  IsAmong, IsSent, IsReceived, AllApart, decisions, same_kind-eq, initial-Genuine,
}
use acoding_agent.Run.Logic.{core_of, returned, raised_by, is_external}
use acoding_agent.Run.Points.{has_approval, last_verified, last_reviewed, Raises}
use acoding_agent.Run.Safety.{Final}
use acoding_agent.Run.Delivery.{Delivered, manual_of}
use acoding_agent.Run.Course.{DeliveredBy}
use acoding_agent.Run.Outcome.{Anything, body-Final, Fresh-queued, run-Final}

-- The mode of the stage that an approval of this kind belongs to.
abbrev pub mode_of : ApprovalKind → ApprovalStagePolicy → ApprovalMode
mode_of ApprovalKind.plan stages = stages.plan
mode_of ApprovalKind.execution stages = stages.execution
mode_of ApprovalKind.delivery stages = stages.delivery
mode_of _ stages = automatic

stage_approved :
    (kind : ApprovalKind) (stages : ApprovalStagePolicy) (log : List Event)
    → DeliveredBy stages log
    → mode_of kind stages ≡ manual
    → has_approval kind log ≡ true
stage_approved ApprovalKind.plan stages log (acc, p, e, d) m = p (manual_of stages.plan m)
stage_approved ApprovalKind.execution stages log (acc, p, e, d) m = e (manual_of stages.execution m)
stage_approved ApprovalKind.delivery stages log (acc, p, e, d) m = d (manual_of stages.delivery m)
stage_approved _ stages log d m = cc

is_reject-approve : (d : Decision) → is_reject d ≡ false → d ≡ Decision.approve
is_reject-approve Decision.approve h = refl
is_reject-approve Decision.reject h = cc

-- The approval that a log shows is one of the requests that were used.
approval_in :
    (kind : ApprovalKind) (w : World) (processed : List ℕ) (log : List Event)
    → has_approval kind log ≡ true
    → All (IsReceived w processed) (decisions log)
    → (a : ApprovalRequest) × IsAmong (kind, a) (decisions log)
      × (a.kind ≡ kind)
      × (a.decision ≡ Decision.approve)
      × IsSent w a
approval_in kind w processed [] h r = cc
approval_in kind w processed (decided k a ∷ log) h (received, r) =
    elim (Bool-cases (same_kind k kind && not (is_reject a.decision))) [
      | inl this ↦
          let e = same_kind-eq k kind (ground (arith, this)) in
          (
            a,
            subst (λ j. IsAmong (j, a) ((k, a) ∷ decisions log)) e IsAmong.first,
            received.0 ∙ e,
            is_reject-approve a.decision (ground (arith, this)),
            received.1,
          )
      | inr other ↦
          let (b, among, of_kind, approves, sent) =
            approval_in kind w processed log (ground (arith, h, other)) r in
          (b, IsAmong.later among, of_kind, approves, sent)
    ]
approval_in kind w processed (projected e ∷ log) h r = approval_in kind w processed log h r
approval_in kind w processed (verified b ∷ log) h r = approval_in kind w processed log h r
approval_in kind w processed (reviewed v ∷ log) h r = approval_in kind w processed log h r

module _ (input : WorkflowInput)
    (valid : custom_settings_match_mode input.approval_policy.mode input.approval_policy.custom
      ≡ true)
    (w : World) where
  ended :
      (out : WorkflowOutput)
      → (run input w initial).0 ≡ return out
      → Final (Delivered input) out (core_of (run input w initial).1)
  ended out e =
      returned (Final (Delivered input)) Anything (run input w initial).0 out
        (core_of (run input w initial).1) e
        ((run-Final input valid).run w initial (Fresh-queued initial refl refl))

  -- Under a policy that passes its validator, every exception that leaves the `try` block of a run that
  -- is queued and has no repair round behind it comes from the surroundings: it is no transition that
  -- the table forbids, and the bound on the repair loop is not used up.
  pub body-is_external :
      (s : State) (e : Exception)
      → s.status ≡ RunStatus.queued
      → s.repair_rounds ≡ 0
      → (body input w s).0 ≡ raise e
      → is_external e ≡ true
  body-is_external s e q z h =
      (raised_by (Final (Delivered input)) Raises (body input w s).0 e (core_of (body input w s).1)
        h ((body-Final input valid).run w s (Fresh-queued s q z))).0

  -- Under a policy that passes its validator, a run that returns has ended: its last status is terminal
  -- and is the one it reports, after at most two repair rounds.
  pub run-is_terminal :
      (out : WorkflowOutput)
      → (run input w initial).0 ≡ return out
      → let s = (run input w initial).1 in
        (out.status ≡ s.status) × (is_terminal s.status ≡ true) × (s.repair_rounds ≤ 2)
  run-is_terminal out e = let f = ended out e in (f.0, f.1, f.2)

  -- Under a policy that passes its validator, the latest verification behind a run that returns and
  -- reports success passed, and the latest review approved the candidate.
  pub run-reviewed :
      (out : WorkflowOutput)
      → (run input w initial).0 ≡ return out
      → out.status ≡ RunStatus.succeeded
      → let log = (run input w initial).1.log in
        (last_verified log ≡ some true) × (last_reviewed log ≡ some approved)
  run-reviewed out e succeeded = let f = ended out e in (f.3 (sym f.0 ∙ succeeded)).2.0

  -- Under a policy that passes its validator, a run that returns and reports success has used, for each
  -- stage that the policy leaves to a person at the risk of the task, whatever the risk of its plans, a
  -- request of that stage's kind which approves it and which was sent to the run as an update. No two
  -- requests that the run has used have the same id.
  pub run-has_approval :
      (out : WorkflowOutput) (stages : ApprovalStagePolicy) (kind : ApprovalKind)
      → (run input w initial).0 ≡ return out
      → out.status ≡ RunStatus.succeeded
      → resolve_approval_stages input none ≡ some stages
      → mode_of kind stages ≡ manual
      → let used = decisions (run input w initial).1.log in
        ((a : ApprovalRequest) × IsAmong (kind, a) used
          × (a.kind ≡ kind)
          × (a.decision ≡ Decision.approve)
          × IsSent w a)
        × AllApart used
  run-has_approval out stages kind e succeeded h m =
      let f = ended out e in
      let (b, same, d) = f.3 (sym f.0 ∙ succeeded) in
      let log = (run input w initial).1.log in
      let g =
        (run-Final input valid).sound w initial (Fresh-queued initial refl refl)
          (initial-Genuine w) in
      (
        approval_in kind w (run input w initial).1.processed_approval_ids log
            (stage_approved kind stages log (subst (λ x. DeliveredBy x log) (cc (same, h)) d) m)
            g.used_received,
        g.used_apart,
      )

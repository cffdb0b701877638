-- ===== src/Run/Safety.antt =====
-- The stages of `run` of src/repopilot/workflows/code_repair.py as steps between points.
use acoding_agent.Prelude.{
  ℕ, ◌≤◌, ◌≡◌, refl, sym, subst, ◌∙◌, ◌≢◌, Bool, true, false, List, ◌∷◌, all, All, Option, none,
  arith, if◌then◌else◌, inr,
}
use acoding_agent.Domain.Enums.{RunStatus, is_terminal, ErrorCode}
use acoding_agent.Run.Transitions.{validate_transition}
use acoding_agent.Run.Approvals.{ApprovalKind, ApprovalRequest, is_reject}
use acoding_agent.Run.World.{WorkflowInput, WorkflowOutput, ErrorInfo}
use acoding_agent.Run.Monad.{Event, M}
use acoding_agent.Run.Workflow.{finalize, error_info}
use acoding_agent.Run.Stages.{approve_or_reject, approve_if}
use acoding_agent.Run.Logic.{Core, Triple, bind, strengthen, weaken}
use acoding_agent.Run.Points.{has_approval, IsStable, Point, Raises}
use acoding_agent.Run.Endings.{Closing, Decided, wait_for_approval-Point, finalize-Ended}
use acoding_agent.Run.Candidate.{IsPersistent}

-- The run has ended as its output says. If it succeeded, its log shows `D`.
abbrev pub Final : (List Event → Type 0) → WorkflowOutput → Core → Type 0
Final D out c =
    (out.status ≡ c.status)
    × (is_terminal c.status ≡ true)
    × (c.rounds ≤ 2)
    × (c.status ≡ RunStatus.succeeded → D c.log)

-- The approvals that are needed were given.
abbrev pub Approved : Bool → ApprovalKind → List Event → Type 0
Approved needed kind log = needed ≡ true → has_approval kind log ≡ true

pub Approved-IsPersistent :
    (needed : Bool) (kind : ApprovalKind) → IsPersistent (Approved needed kind)
Approved-IsPersistent needed kind = record {
  stable = record { on_projected = λ e log g. g; on_decided = λ k a log g n. ground (arith, g n) };
  on_verified = λ b log g. g;
  on_reviewed = λ v log g. g;
}

pub both :
    {G H : List Event → Type 0}
    → IsPersistent G
    → IsPersistent H
    → IsPersistent (λ log. G log × H log)
both s t = record {
  stable = record {
    on_projected = λ e log (g, h). (s.stable.on_projected e log g, t.stable.on_projected e log h);
    on_decided = λ k a log (g, h). (s.stable.on_decided k a log g, t.stable.on_decided k a log h);
  };
  on_verified = λ b log (g, h). (s.on_verified b log g, t.on_verified b log h);
  on_reviewed = λ v log (g, h). (s.on_reviewed v log g, t.on_reviewed v log h);
}

-- A run that may be finalized at a point.
abbrev pub CanFinalize : List RunStatus → Type 1
CanFinalize next = (X : RunStatus → Type 0) → All X next → X RunStatus.finalizing

module _ (input : WorkflowInput) (D : List Event → Type 0) where
  abbrev pub Ends : ℕ → List RunStatus → (List Event → Type 0) → M WorkflowOutput → Type 0
  Ends n next G m = Triple (Point n next G) m (Final D) Raises

  module _ {n : ℕ} {G : List Event → Type 0} (stable : IsStable G) where
    ended-Closing :
        {next : List RunStatus} → CanFinalize next → (c : Core) → Point n next G c → Closing G c
    ended-Closing f c p =
        (p.rounds_left, p.shows, inr (f (λ m. validate_transition c.status m ≡ true) p.open_to))

    -- An end without success.
    pub stop-Final :
        {next : List RunStatus} (outcome : RunStatus) (error : Option ErrorInfo)
        → CanFinalize next
        → is_terminal outcome ≡ true
        → (outcome ≢ RunStatus.succeeded)
        → Ends n next G (finalize input outcome error)
    stop-Final outcome error f t other = strengthen (ended-Closing f) (
        weaken
          (λ out c (o, s, r, g).
            (cc, subst (λ m. is_terminal m ≡ true) (sym s) t, r, λ e. absurd (other (sym s ∙ e))))
          (finalize-Ended input stable outcome error t))

    pub succeed-Final :
        {next : List RunStatus}
        → CanFinalize next
        → ((log : List Event) → G log → D log)
        → Ends n next G (finalize input RunStatus.succeeded none)
    succeed-Final f d = strengthen (ended-Closing f) (
        weaken
          (λ out c (o, s, r, g).
            (cc, subst (λ m. is_terminal m ≡ true) (sym s) refl, r, λ e. d c.log g))
          (finalize-Ended input stable RunStatus.succeeded none refl))

  pub Decided-IsStable :
      {G : List Event → Type 0}
      → IsStable G
      → (kind : ApprovalKind) (a : ApprovalRequest) → IsStable (Decided G kind a)
  Decided-IsStable stable kind a = record {
    on_projected = λ e log (g, h). (stable.on_projected e log g, h);
    on_decided = λ k b log (g, h). (stable.on_decided k b log g, λ r. ground (arith, h r));
  }

  module _ {n : ℕ} {G : List Event → Type 0} (stable : IsStable G) where
    Decided-Final :
        {next : List RunStatus} (kind : ApprovalKind) (a : ApprovalRequest)
        (continue : M WorkflowOutput) (b : Bool)
        → is_reject a.decision ≡ b
        → CanFinalize next
        → Ends n next (λ log. G log × (has_approval kind log ≡ true)) continue
        → Ends n next (Decided G kind a) (
            if b
            then finalize input RunStatus.rejected (error_info ErrorCode.approval_rejected none)
            else continue)
    Decided-Final kind a continue true e f t =
        stop-Final (Decided-IsStable stable kind a) RunStatus.rejected _ f refl (λ e. cc)
    Decided-Final kind a continue false e f t =
        strengthen
          (λ c p. record {
            open_to = p.open_to;
            in_round = p.in_round;
            rounds_left = p.rounds_left;
            shows = (p.shows.0, p.shows.1 e);
          })
          t

    pub approve_or_reject-Final :
        {next next' : List RunStatus} (kind : ApprovalKind) (status : RunStatus)
        (continue : M WorkflowOutput)
        → all (validate_transition status) next' ≡ true
        → CanFinalize next'
        → Ends n next' (λ log. G log × (has_approval kind log ≡ true)) continue
        → Ends n (status ∷ next) G (approve_or_reject input kind status continue)
    unfolding approve_or_reject
    approve_or_reject-Final {next} {next'} kind status continue opens f t =
        bind (wait_for_approval-Point input stable kind status next' opens (λ c p. p.open_to.0))
          (λ a. Decided-Final kind a continue (is_reject a.decision) refl f t)

    -- Behind an approval that may be needed the run goes on as it would without one.
    pub approve_if-Final :
        {next : List RunStatus} (needed : Bool) (kind : ApprovalKind) (status : RunStatus)
        (continue : M WorkflowOutput)
        → all (validate_transition status) next ≡ true
        → CanFinalize next
        → Ends n next (λ log. G log × Approved needed kind log) continue
        → Ends n (status ∷ next) G (approve_if input needed kind status continue)
    approve_if-Final {next} true kind status continue opens f t =
        approve_or_reject-Final {next = next} kind status continue opens f (
          strengthen
            (λ c p. record {
              open_to = p.open_to;
              in_round = p.in_round;
              rounds_left = p.rounds_left;
              shows = (p.shows.0, λ e. p.shows.1);
            })
            t)
    approve_if-Final false kind status continue opens f t =
        strengthen
          (λ c p. record {
            open_to = p.open_to.1;
            in_round = p.in_round;
            rounds_left = p.rounds_left;
            shows = (p.shows, λ e. cc);
          })
          t

-- ===== src/Run/Loop.antt =====
-- The repair loop of src/repopilot/workflows/code_repair.py and its delivery: how each round ends.
use acoding_agent.Prelude.{
  ℕ, suc, zero, ◌+◌, ◌≤◌, ◌≡◌, refl, ap, ◌∙◌, ◌&&◌, leb, List, [], ◌∷◌, some, arith, if◌then◌else◌,
}
use acoding_agent.Domain.Enums.{RunStatus, ErrorCode}
use acoding_agent.Domain.Policies.{ApprovalStagePolicy}
use acoding_agent.Run.Approvals.{ApprovalKind}
use acoding_agent.Run.World.{WorkflowInput, WorkflowOutput, ArtifactRef}
use acoding_agent.Run.Monad.{State, Event, out_of_rounds, assertion_error, M, ◌>>◌}
use acoding_agent.Run.Workflow.{resolve_approval_stages, finalize, transition, error_info}
use acoding_agent.Run.Attempt.{CandidateAttemptResult}
use acoding_agent.Run.Stages.{
  is_manual, is_approval, is_rejection, Base, Repair, approve_if, deliver_candidate, widen,
  attempt_input,
}
use acoding_agent.Run.Main.{repair_loop}
use acoding_agent.Run.Logic.{
  Core, core_of, Triple, bind, fail, read, need, knowing, strengthen, branch,
}
use acoding_agent.Run.Points.{Point, Raises, Point-Raises, transition-Point}
use acoding_agent.Run.Candidate.{IsPersistent, Accepted}
use acoding_agent.Run.Review.{Accepted-IsStable, run_candidate_attempt-AttemptDone}
use acoding_agent.Run.Safety.{
  Final, Approved, Approved-IsPersistent, both, Ends, stop-Final, succeed-Final, approve_if-Final,
}
use acoding_agent.Run.Rounds.{
  behind_planning, behind_executing, executing_opens, plan_opens, execution_opens, delivery_opens,
  replan-Point,
}

-- The state that was read, with what is known of it.
abbrev Seen : State → (Core → Type 0) → Core → Type 0
Seen s P c = (core_of s ≡ c) × P c

module _ (input : WorkflowInput) (D : List Event → Type 0) {G : List Event → Type 0}
    (lasting : IsPersistent G) (stages : ApprovalStagePolicy)
    (delivers : (log : List Event)
      → G log
      → Accepted log
      → Approved (is_manual stages.delivery) ApprovalKind.delivery log
      → D log) where
  abbrev OpenAgain : ℕ → Core → Type 0
  OpenAgain n = Point n (RunStatus.replanning ∷ RunStatus.finalizing ∷ []) G

  abbrev OpenDelivery : ℕ → Core → Type 0
  OpenDelivery n =
      Point n (RunStatus.waiting_delivery_approval ∷ RunStatus.finalizing ∷ [])
        (λ log. G log × Accepted log)

  deliver_candidate-Final :
      {n : ℕ}
      → Ends input D n
          (RunStatus.waiting_delivery_approval ∷ RunStatus.finalizing ∷ [])
          (λ log. G log × Accepted log)
          (deliver_candidate input stages)
  unfolding deliver_candidate
  deliver_candidate-Final =
      let stable_accepted = Accepted-IsStable lasting.stable in
      let approval = Approved-IsPersistent (is_manual stages.delivery) ApprovalKind.delivery in
      approve_if-Final input D (Accepted-IsStable lasting.stable) (is_manual stages.delivery) _ _ _
        delivery_opens (λ X xs. xs.0)
        (succeed-Final input D
          (record {
            on_projected = λ e log (g, a). (stable_accepted.on_projected e log g, a);
            on_decided = λ k b log (g, a).
                (stable_accepted.on_decided k b log g, approval.stable.on_decided k b log a);
          })
          (λ X xs. xs.0) (λ log (g, a). delivers log g.0 g.1 a))

  -- From the plan of a repair to its execution.
  resume-Final :
      {n : ℕ} (repair_stages : ApprovalStagePolicy) (again : M WorkflowOutput)
      → Ends input D n behind_executing G again
      → Ends input D n behind_planning G (
          approve_if input
            (is_manual repair_stages.plan)
            ApprovalKind.plan
            RunStatus.waiting_plan_approval
            (approve_if input
              (is_manual repair_stages.execution)
              ApprovalKind.execution
              RunStatus.waiting_execution_approval
              (transition input RunStatus.executing >> again)))
  resume-Final repair_stages again t =
      let p =
        (both lasting (Approved-IsPersistent (is_manual repair_stages.plan) ApprovalKind.plan)) in
      let e =
        (both p
          (Approved-IsPersistent (is_manual repair_stages.execution) ApprovalKind.execution)) in
      approve_if-Final input D lasting.stable _ _ _ _ plan_opens (λ X xs. xs.1.1.0)
        (approve_if-Final input D p.stable _ _ _ _ execution_opens (λ X xs. xs.1.0)
          (bind
            (transition-Point input e.stable RunStatus.executing behind_executing executing_opens
              (λ c q. q.open_to.0))
            (λ _.
              strengthen
                (λ c q. record {
                  open_to = q.open_to;
                  in_round = q.in_round;
                  rounds_left = q.rounds_left;
                  shows = q.shows.0.0;
                })
                t)))

  -- An attempt that was not accepted.
  turned_down-Final :
      {n : ℕ} (attempt : CandidateAttemptResult) (s : State) (again : M WorkflowOutput)
      → (n ≤ 1
          → Triple
              (Point n (RunStatus.replanning ∷ RunStatus.finalizing ∷ []) G)
              again
              (Final D)
              Raises)
      → Triple
          (Seen s (Point n (RunStatus.replanning ∷ RunStatus.finalizing ∷ []) G))
          (if is_rejection attempt.review_decision
            then finalize input RunStatus.rejected
                (error_info ErrorCode.review_rejected (some attempt.feedback_ref))
            else if leb 2 s.repair_rounds
            then finalize input RunStatus.failed (
                error_info
                  (if attempt.verification_passed
                    then ErrorCode.review_rejected
                    else ErrorCode.verification_failed)
                  (some attempt.feedback_ref))
            else again)
          (Final D)
          Raises
  turned_down-Final {n} attempt s again t =
      branch (is_rejection attempt.review_decision)
        (λ _.
          strengthen {P = OpenAgain n} (λ c p. p.1)
            (stop-Final input D lasting.stable RunStatus.rejected _ (λ X xs. xs.1.0) refl
              (λ e. cc)))
        (λ _.
          branch (leb 2 s.repair_rounds)
            (λ _.
              strengthen {P = OpenAgain n} (λ c p. p.1)
                (stop-Final input D lasting.stable RunStatus.failed _ (λ X xs. xs.1.0) refl
                  (λ e. cc)))
            (λ few.
              knowing (λ c p. ap (λ d. d.rounds) p.0 ∙ p.1.in_round)
                (λ same. strengthen {P = OpenAgain n} (λ c p. p.1) (t (ground arith)))))

  -- The loop never uses up its bound, since a repair begins in the first two rounds only.
  pub repair_loop-Final :
      (base : Base) (test_plan : ArtifactRef) (bound n : ℕ)
      → 3 ≤ bound + n
      → (v : Repair)
      → Ends input D n behind_executing G (repair_loop input base stages test_plan bound v)
  unfolding repair_loop
  repair_loop-Final base test_plan zero n enough v =
      fail out_of_rounds (λ c p. absurd (ground (arith, p.in_round, p.rounds_left)))
  repair_loop-Final base test_plan (suc bound) n enough v =
      bind (run_candidate_attempt-AttemptDone input lasting (attempt_input input base test_plan v))
        (λ (attempt : CandidateAttemptResult). bind read (λ (s : State).
          branch (attempt.verification_passed && is_approval attempt.review_decision)
            (λ accepted.
              strengthen {P = OpenDelivery n} (λ c p. p.1.1 accepted) deliver_candidate-Final)
            (λ _.
              strengthen {P = Seen s (OpenAgain n)} (λ c p. (p.0, p.1.0))
                (turned_down-Final attempt s _ (λ small.
                  bind (replan-Point input lasting small base v attempt.feedback_ref) (λ v'.
                    bind
                      (need Point-Raises
                        (resolve_approval_stages input (some v'.highest_planned_risk))
                        assertion_error refl)
                      (λ repair_stages. resume-Final repair_stages _ (
                        repair_loop-Final base test_plan bound (n + 1) (ground arith)
                          (widen input v')))))))))

-- ===== src/Run/Course.antt =====
-- The course of `run` of src/repopilot/workflows/code_repair.py up to the repair loop.
use acoding_agent.Prelude.{
  ℕ, suc, zero, ◌+◌, ◌≡◌, refl, Bool, true, false, ◌&&◌, ltb, List, [], ◌∷◌, all, Option, some,
  arith, if◌then◌else◌,
}
use acoding_agent.Domain.Enums.{RunStatus}
use acoding_agent.Domain.Policies.{ApprovalStagePolicy}
use acoding_agent.Run.Transitions.{validate_transition}
use acoding_agent.Run.Approvals.{ApprovalKind}
use acoding_agent.Run.World.{
  WorkflowInput, WorkflowOutput, ArtifactRef, PlanChangeResult, SealedTestResult,
}
use acoding_agent.Run.Monad.{Event, M}
use acoding_agent.Run.Stages.{is_manual, Base, approve_or_reject}
use acoding_agent.Run.Main.{execute, sealed_round, design_tests}
use acoding_agent.Run.Logic.{Triple, bind, give, act, strengthen, branch}
use acoding_agent.Run.Points.{IsStable, Point, Raises, Point-Raises, transition-Point}
use acoding_agent.Run.Candidate.{Accepted}
use acoding_agent.Run.Safety.{
  Approved, Approved-IsPersistent, both, Ends, approve_or_reject-Final, approve_if-Final,
}
use acoding_agent.Run.Rounds.{behind_executing, executing_opens, execution_opens}
use acoding_agent.Run.Loop.{repair_loop-Final}

-- The latest verification passed, the latest review approved the candidate, and every stage that
-- the policy leaves to a person was approved.
abbrev pub DeliveredBy : ApprovalStagePolicy → List Event → Type 0
DeliveredBy stages log =
    Accepted log
    × Approved (is_manual stages.plan) ApprovalKind.plan log
    × Approved (is_manual stages.execution) ApprovalKind.execution log
    × Approved (is_manual stages.delivery) ApprovalKind.delivery log

abbrev pub before_execution : List RunStatus
before_execution =
    RunStatus.waiting_execution_approval ∷ RunStatus.executing ∷ RunStatus.finalizing ∷ []

pub designing_opens :
    all
      (validate_transition RunStatus.designing_tests)
      (RunStatus.waiting_test_approval ∷ before_execution)
    ≡ true
unfolding validate_transition
designing_opens = refl

test_opens : all (validate_transition RunStatus.waiting_test_approval) before_execution ≡ true
unfolding validate_transition
test_opens = refl

module _ (input : WorkflowInput) (stages : ApprovalStagePolicy) where
  pub execute-Final :
      (base : Base) (result : PlanChangeResult) (blackboard : Option ArtifactRef)
      (test_plan : ArtifactRef)
      → Ends input
          (DeliveredBy stages)
          0
          before_execution
          (Approved (is_manual stages.plan) ApprovalKind.plan)
          (execute input base stages result blackboard test_plan)
  unfolding execute
  execute-Final base result blackboard test_plan =
      let p = Approved-IsPersistent (is_manual stages.plan) ApprovalKind.plan in
      let e = both p (Approved-IsPersistent (is_manual stages.execution) ApprovalKind.execution) in
      approve_if-Final input (DeliveredBy stages) p.stable _ _ _ _ execution_opens (λ X xs. xs.1.0)
        (bind
          (transition-Point input e.stable RunStatus.executing behind_executing executing_opens
            (λ c q. q.open_to.0))
          (λ _.
            repair_loop-Final input (DeliveredBy stages) e stages (λ log g a d. (a, g.0, g.1, d))
              base test_plan 3 0 (ground arith) _))

  module _ (D : List Event → Type 0) {G : List Event → Type 0} (stable : IsStable G) where
    sealed_round-keeps :
        {n : ℕ} {next : List RunStatus} (base : Base) (feedback : Bool) (number : ℕ)
        (previous_plan previous_report : Option ArtifactRef)
        → Triple
            (Point n next G)
            (sealed_round input base feedback number previous_plan previous_report)
            (λ _. Point n next G)
            Raises
    unfolding sealed_round
    sealed_round-keeps base feedback number previous_plan previous_report =
        bind (act Point-Raises _)
          (λ test_plan. bind (act Point-Raises _) (λ result. give _ (λ c p. p)))

    -- The end of the sealed tests: they are valid, or a person decides.
    designed_or_approved :
        (valid : Bool) (continue : M WorkflowOutput)
        → Ends input D 0 before_execution G continue
        → Ends input D 0 (RunStatus.waiting_test_approval ∷ before_execution) G (
            if valid
            then continue
            else approve_or_reject input ApprovalKind.test RunStatus.waiting_test_approval continue)
    designed_or_approved valid continue t =
        branch valid
          (λ _.
            strengthen
              (λ c p. record {
                open_to = p.open_to.1;
                in_round = p.in_round;
                rounds_left = p.rounds_left;
                shows = p.shows;
              })
              t)
          (λ _.
            approve_or_reject-Final input D stable {next = before_execution}
              {next' = before_execution} _ _ _ test_opens (λ X xs. xs.1.1.0)
              (strengthen
                (λ c p. record {
                  open_to = p.open_to;
                  in_round = p.in_round;
                  rounds_left = p.rounds_left;
                  shows = p.shows.0;
                })
                t))

    pub design_tests-Final :
        (base : Base) (feedback : Bool) (continue : ArtifactRef → M WorkflowOutput)
        → ((test_plan : ArtifactRef) → Ends input D 0 before_execution G (continue test_plan))
        → (number left : ℕ) (previous_plan previous_report : Option ArtifactRef)
        → Ends input D 0
            (RunStatus.waiting_test_approval ∷ before_execution)
            G
            (design_tests input base feedback continue number left previous_plan previous_report)
    unfolding design_tests
    design_tests-Final base feedback continue t number zero previous_plan previous_report =
        bind (sealed_round-keeps base feedback number previous_plan previous_report)
          (λ (x : ArtifactRef × SealedTestResult).
            designed_or_approved x.1.valid (continue x.0) (t x.0))
    design_tests-Final base feedback continue t number (suc left) previous_plan previous_report =
        bind (sealed_round-keeps base feedback number previous_plan previous_report)
          (λ (x : ArtifactRef × SealedTestResult).
            redesign x.1.valid (feedback && x.1.runnable && ltb 0 x.1.mismatch_count) _ _ (t x.0) (
              design_tests-Final base feedback continue t (number + 1) left (some x.0)
                (some x.1.report_ref)))
      where
        redesign :
            (valid again : Bool) (go_on retry : M WorkflowOutput)
            → Ends input D 0 before_execution G go_on
            → Ends input D 0 (RunStatus.waiting_test_approval ∷ before_execution) G retry
            → Ends input D 0 (RunStatus.waiting_test_approval ∷ before_execution) G (
                if valid
                then go_on
                else if again
                then retry
                else approve_or_reject input ApprovalKind.test RunStatus.waiting_test_approval
                    go_on)
        redesign true again go_on retry t r = designed_or_approved true go_on t
        redesign false true go_on retry t r = r
        redesign false false go_on retry t r = designed_or_approved false go_on t

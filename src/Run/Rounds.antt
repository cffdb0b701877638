-- ===== src/Run/Rounds.antt =====
-- The repair loop of src/repopilot/workflows/code_repair.py as a step between points.
use acoding_agent.Prelude.{
  ℕ, ◌+◌, ◌≤◌, ◌≡◌, refl, Bool, true, false, ◌&&◌, List, [], ◌∷◌, all, Option, some, arith,
}
use acoding_agent.Domain.Enums.{RunStatus}
use acoding_agent.Run.Transitions.{validate_transition}
use acoding_agent.Run.World.{WorkflowInput, ArtifactRef, PlanChangeResult}
use acoding_agent.Run.Monad.{Event}
use acoding_agent.Run.Stages.{Base, Repair, publish_if, investigate, replan}
use acoding_agent.Run.Logic.{Triple, bind, give, skim, note, change_to, act, branch}
use acoding_agent.Run.Points.{Point, Raises, Point-Raises, transition-Point}
use acoding_agent.Run.Candidate.{IsPersistent, publish_blackboard-keeps}

module _ {n : ℕ} {next : List RunStatus} {G : List Event → Type 0} (input : WorkflowInput) where
  pub publish_if-keeps :
      (enabled : Bool) (source : ArtifactRef) (previous : Option ArtifactRef)
      → Triple
          (Point n next G)
          (publish_if input enabled source previous)
          (λ _. Point n next G)
          Raises
  publish_if-keeps true source previous =
      bind (publish_blackboard-keeps source previous) (λ ref. give (some ref) (λ c p. p))
  publish_if-keeps false source previous = give previous (λ c p. p)

  investigate-keeps :
      (base : Base) (v : Repair) (feedback snapshot : ArtifactRef)
      → Triple
          (Point n next G)
          (investigate input base v feedback snapshot)
          (λ _. Point n next G)
          Raises
  unfolding investigate
  investigate-keeps base v feedback snapshot = bind (note _) (λ agent_patch. bind skim (λ s.
      branch (input.investigator_agent_mode && agent_patch)
        (λ _. bind (act Point-Raises _) (λ investigation.
          bind (publish_if-keeps base.blackboard_enabled investigation v.blackboard_ref)
            (λ blackboard. give _ (λ c p. p))))
        (λ _. give v (λ c p. p))))

abbrev behind_replanning : List RunStatus
behind_replanning = RunStatus.planning ∷ RunStatus.finalizing ∷ []

abbrev pub behind_planning : List RunStatus
behind_planning =
    RunStatus.waiting_plan_approval ∷ RunStatus.waiting_execution_approval ∷ RunStatus.executing
    ∷ RunStatus.finalizing ∷ []

abbrev pub behind_executing : List RunStatus
behind_executing = RunStatus.verifying ∷ []

replanning_opens : all (validate_transition RunStatus.replanning) behind_replanning ≡ true
unfolding validate_transition
replanning_opens = refl

planning_opens : all (validate_transition RunStatus.planning) behind_planning ≡ true
unfolding validate_transition
planning_opens = refl

pub executing_opens : all (validate_transition RunStatus.executing) behind_executing ≡ true
unfolding validate_transition
executing_opens = refl

pub plan_opens :
    all
      (validate_transition RunStatus.waiting_plan_approval)
      (RunStatus.waiting_execution_approval ∷ RunStatus.executing ∷ RunStatus.finalizing ∷ [])
    ≡ true
unfolding validate_transition
plan_opens = refl

pub execution_opens :
    all
      (validate_transition RunStatus.waiting_execution_approval)
      (RunStatus.executing ∷ RunStatus.finalizing ∷ [])
    ≡ true
unfolding validate_transition
execution_opens = refl

pub delivery_opens :
    all (validate_transition RunStatus.waiting_delivery_approval) (RunStatus.finalizing ∷ []) ≡ true
unfolding validate_transition
delivery_opens = refl

module _ (input : WorkflowInput) {G : List Event → Type 0} (lasting : IsPersistent G) where
  -- A new repair round begins, which is the second at most.
  pub replan-Point :
      {n : ℕ}
      → n ≤ 1
      → (base : Base) (v : Repair) (feedback : ArtifactRef)
      → Triple
          (Point n (RunStatus.replanning ∷ RunStatus.finalizing ∷ []) G)
          (replan input base v feedback)
          (λ _. Point (n + 1) behind_planning G)
          Raises
  unfolding replan
  replan-Point {n} small base v feedback =
      bind
        (change_to {Q = Point (n + 1) (RunStatus.replanning ∷ RunStatus.finalizing ∷ []) G} _
          (λ s p. record {
            open_to = p.open_to;
            in_round = ground (arith, p.in_round);
            rounds_left = ground (arith, p.in_round);
            shows = p.shows;
          })
          (λ w s g. g))
        (λ _.
          bind (publish_if-keeps input base.blackboard_enabled feedback v.blackboard_ref)
            (λ blackboard.
              bind
                (transition-Point input lasting.stable RunStatus.replanning behind_replanning
                  replanning_opens (λ c p. p.open_to.0))
                (λ _. bind (act Point-Raises _) (λ snapshot.
                  bind (investigate-keeps input base _ feedback snapshot) (λ v.
                    bind
                      (transition-Point input lasting.stable RunStatus.planning behind_planning
                        planning_opens (λ c p. p.open_to.0))
                      (λ _. bind skim (λ s.
                        bind (act Point-Raises _) (λ (result : PlanChangeResult).
                          bind
                            (publish_if-keeps input base.blackboard_enabled result.plan_ref
                              v.blackboard_ref)
                            (λ blackboard. give _ (λ c p. p))))))))))

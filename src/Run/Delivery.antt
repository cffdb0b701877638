-- ===== src/Run/Delivery.antt =====
-- What `run` of src/repopilot/workflows/code_repair.py delivers, and which exceptions it raises.
use acoding_agent.Prelude.{
  ◌≤◌, ◌≡◌, refl, subst, Bool, true, ltb, List, [], ◌∷◌, all, Option, none, some, arith,
  if◌then◌else◌,
}
use acoding_agent.Domain.Enums.{RunStatus, RiskLevel, ApprovalMode, automatic, manual}
use acoding_agent.Domain.Policies.{
  ApprovalStagePolicy, ResolvedApprovalPolicy, resolve_approval_policy, custom_settings_match_mode,
}
use acoding_agent.Domain.Risk.{risk_order, resolve_approval_policy_mono}
use acoding_agent.Run.Transitions.{validate_transition}
use acoding_agent.Run.Approvals.{ApprovalKind}
use acoding_agent.Run.World.{WorkflowInput, ArtifactRef, PlanChangeResult}
use acoding_agent.Run.Monad.{Event, assertion_error}
use acoding_agent.Run.Workflow.{resolve_approval_stages}
use acoding_agent.Run.Stages.{is_manual, Base}
use acoding_agent.Run.Main.{run_planned}
use acoding_agent.Run.Logic.{bind, note, need_eq, strengthen, weaken, knowing}
use acoding_agent.Run.Points.{IsStable, Point, Point-Raises, transition-Point}
use acoding_agent.Run.Safety.{Approved, Approved-IsPersistent, Ends, approve_if-Final}
use acoding_agent.Run.Course.{
  DeliveredBy, before_execution, designing_opens, execute-Final, design_tests-Final,
}

pub manual_of : (m : ApprovalMode) → m ≡ manual → is_manual m ≡ true
manual_of automatic e = cc
manual_of manual e = refl

is_manual-eq : (m : ApprovalMode) → is_manual m ≡ true → m ≡ manual
is_manual-eq automatic e = cc
is_manual-eq manual e = refl

-- Stages that leave at least as much to a person.
abbrev Stricter : ApprovalStagePolicy → ApprovalStagePolicy → Type 0
Stricter x y =
    (is_manual x.plan ≡ true → is_manual y.plan ≡ true)
    × (is_manual x.execution ≡ true → is_manual y.execution ≡ true)
    × (is_manual x.delivery ≡ true → is_manual y.delivery ≡ true)

raised : {x y : ApprovalMode} → (x ≡ manual → y ≡ manual) → is_manual x ≡ true → is_manual y ≡ true
raised {x} {y} f e = manual_of y (f (is_manual-eq x e))

module _ (input : WorkflowInput)
    (valid : custom_settings_match_mode input.approval_policy.mode input.approval_policy.custom
      ≡ true) where
  abbrev effective : RiskLevel → RiskLevel
  effective risk =
      if ltb (risk_order input.risk_level) (risk_order risk) then risk else input.risk_level

  effective_rises : (risk : RiskLevel) → risk_order input.risk_level ≤ risk_order (effective risk)
  effective_rises risk = ground arith

  -- A plan of higher risk than the task's never takes an approval away.
  stages-Stricter :
      (risk : RiskLevel)
      → (a : ApprovalStagePolicy) × (b : ApprovalStagePolicy) × (resolve_approval_stages input none
          ≡ some a)
        × (resolve_approval_stages input (some risk) ≡ some b)
        × Stricter a b
  unfolding resolve_approval_stages
  stages-Stricter risk =
      let (a, b, ea, eb, p, e, d) =
        resolve_approval_policy_mono input.risk_level (effective risk) input.approval_policy valid
          (effective_rises risk) in
      go input.auto_approve_low_risk refl a b ea eb p e d
    where
      go :
          (auto : Option Bool)
          → input.auto_approve_low_risk ≡ auto
          → (a b : ResolvedApprovalPolicy)
          → resolve_approval_policy input.risk_level input.approval_policy ≡ some a
          → resolve_approval_policy (effective risk) input.approval_policy ≡ some b
          → (a.stages.plan ≡ manual → b.stages.plan ≡ manual)
          → (a.stages.execution ≡ manual → b.stages.execution ≡ manual)
          → (a.stages.delivery ≡ manual → b.stages.delivery ≡ manual)
          → (x : ApprovalStagePolicy) × (y : ApprovalStagePolicy) × (resolve_approval_stages input
                none
              ≡ some x)
            × (resolve_approval_stages input (some risk) ≡ some y)
            × Stricter x y
      go none h a b ea eb p e d = (
        a.stages,
        b.stages,
        rw (ea, h, resolve_approval_stages) refl,
        rw (eb, h, resolve_approval_stages) refl,
        (raised p, raised e, raised d),
      )
      go (some auto) h a b ea eb p e d = (
        record a.stages { delivery = if auto then automatic else manual },
        record b.stages { delivery = if auto then automatic else manual },
        rw (ea, h, resolve_approval_stages) refl,
        rw (eb, h, resolve_approval_stages) refl,
        (raised p, raised e, λ m. m),
      )

-- What a successful run shows: the latest verification passed, the latest review approved the
-- candidate, and every stage that the policy leaves to a person at the task's risk was approved.
abbrev pub Delivered : WorkflowInput → List Event → Type 0
Delivered input log =
    (stages : ApprovalStagePolicy) × (resolve_approval_stages input none ≡ some stages)
    × DeliveredBy stages log

designing_from_approval :
    all
      (validate_transition RunStatus.waiting_plan_approval)
      (RunStatus.designing_tests ∷ RunStatus.finalizing ∷ [])
    ≡ true
unfolding validate_transition
designing_from_approval = refl

abbrev pub behind_planning : List RunStatus
behind_planning =
    RunStatus.waiting_plan_approval ∷ RunStatus.designing_tests ∷ RunStatus.finalizing ∷ []

pub planning_opens : all (validate_transition RunStatus.planning) behind_planning ≡ true
unfolding validate_transition
planning_opens = refl

pub baselining_opens :
    all (validate_transition RunStatus.baselining) (RunStatus.planning ∷ []) ≡ true
unfolding validate_transition
baselining_opens = refl

pub requirements_opens :
    all
      (validate_transition RunStatus.waiting_requirements_approval)
      (RunStatus.baselining ∷ RunStatus.finalizing ∷ [])
    ≡ true
unfolding validate_transition
requirements_opens = refl

pub ingesting_opens :
    all
      (validate_transition RunStatus.ingesting)
      (RunStatus.waiting_requirements_approval ∷ RunStatus.baselining ∷ [])
    ≡ true
unfolding validate_transition
ingesting_opens = refl

-- Nothing is known of the log.
abbrev pub Always : List Event → Type 0
Always log = Unit {0}

pub Always-IsStable : IsStable Always
Always-IsStable = record { on_projected = λ e log g. tt; on_decided = λ k a log g. tt }

module _ (input : WorkflowInput)
    (valid : custom_settings_match_mode input.approval_policy.mode input.approval_policy.custom
      ≡ true) where
  DeliveredBy-Delivered :
      (risk : RiskLevel) (b : ApprovalStagePolicy)
      → resolve_approval_stages input (some risk) ≡ some b
      → (log : List Event) → DeliveredBy b log
      → Delivered input log
  DeliveredBy-Delivered risk b e log (acc, p, x, d) =
      let (s, b', es, eb, (sp, sx, sd)) = stages-Stricter input valid risk in
      let same : b' ≡ b = cc (eb, e) in
      (
        s,
        es,
        (
          acc,
          λ h. p (subst (λ t. is_manual t.plan ≡ true) same (sp h)),
          λ h. x (subst (λ t. is_manual t.execution ≡ true) same (sx h)),
          λ h. d (subst (λ t. is_manual t.delivery ≡ true) same (sd h)),
        ),
      )

  pub run_planned-Final :
      (base : Base) (result : PlanChangeResult) (blackboard : Option ArtifactRef)
      → Ends input
          (Delivered input)
          0
          behind_planning
          Always
          (run_planned input base result blackboard)
  unfolding run_planned
  run_planned-Final base result blackboard =
      bind
        (need_eq Point-Raises (resolve_approval_stages input (some result.risk_level))
          assertion_error refl)
        (λ stages.
          knowing (λ c p. p.0)
            (λ same.
              let plan_given = Approved-IsPersistent (is_manual stages.plan) ApprovalKind.plan in
              strengthen {P = Point 0 behind_planning Always} (λ c p. p.1)
                (weaken
                  (λ out c f. (
                    f.0,
                    f.1,
                    f.2,
                    λ e. DeliveredBy-Delivered result.risk_level stages same c.log (f.3 e),
                  ))
                  (approve_if-Final input (DeliveredBy stages) Always-IsStable _ _ _ _
                    designing_from_approval (λ X xs. xs.1.0)
                    (strengthen
                      {P = Point 0 (RunStatus.designing_tests ∷ [])
                        (Approved (is_manual stages.plan) ApprovalKind.plan)}
                      (λ c p. record {
                        open_to = (p.open_to.0, tt);
                        in_round = p.in_round;
                        rounds_left = p.rounds_left;
                        shows = p.shows.1;
                      })
                      (bind
                        (transition-Point input plan_given.stable RunStatus.designing_tests
                          (RunStatus.waiting_test_approval ∷ before_execution) designing_opens
                          (λ c q. q.open_to.0))
                        (λ _. bind (note _) (λ feedback.
                          design_tests-Final input stages (DeliveredBy stages) plan_given.stable
                            base feedback _ (execute-Final input stages base result blackboard) 1 _
                            none none))))))))

-- ===== src/Run/Outcome.antt =====
-- `run` of src/repopilot/workflows/code_repair.py: how a run ends and which exceptions leave it.
use acoding_agent.Prelude.{
  ◌≤◌, ◌≡◌, refl, sym, subst, ◌∙◌, ◌≢◌, Bool, true, false, [], ◌∷◌, all, All, Option, none, arith,
  if◌then◌else◌, inl, inr, Bool-cases,
}
use acoding_agent.Domain.Enums.{RunStatus, same_status, is_terminal}
use acoding_agent.Domain.Policies.{custom_settings_match_mode}
use acoding_agent.Run.Transitions.{validate_transition}
use acoding_agent.Run.Approvals.{ApprovalKind, ApprovalRequest, is_reject}
use acoding_agent.Run.World.{
  WorkflowInput, WorkflowOutput, ArtifactRef, PlanChangeResult, IngestResult, World, ErrorInfo,
}
use acoding_agent.Run.Monad.{
  State, Exception, cancelled_error, assertion_error, runtime_error, Result, return, raise, ◌>>=◌,
}
use acoding_agent.Run.Workflow.{transition, finalize, enter_finalizing}
use acoding_agent.Run.Main.{run_specified, approve_requirements, body, recover, run}
use acoding_agent.Run.Requests.{Genuine}
use acoding_agent.Run.Logic.{
  Core, core_of, Post, Triple, bind, change, note, act, need, strengthen, weaken, forget, branch,
}
use acoding_agent.Run.Points.{
  Point, Raises, Point-Raises, transition-Point, open_at, record_projection-keeps,
}
use acoding_agent.Run.Endings.{Closing, Ended, wait_for_approval-Point, finalize-Ended}
use acoding_agent.Run.Safety.{Final, Ends, stop-Final, Decided-IsStable}
use acoding_agent.Run.Rounds.{publish_if-keeps}
use acoding_agent.Run.Delivery.{
  Delivered, Always, Always-IsStable, behind_planning, planning_opens, baselining_opens,
  requirements_opens, ingesting_opens, run_planned-Final,
}

module _ (input : WorkflowInput)
    (valid : custom_settings_match_mode input.approval_policy.mode input.approval_policy.custom
      ≡ true) where
  run_specified-Final :
      (task_spec : ArtifactRef)
      → Ends input
          (Delivered input)
          0
          (RunStatus.baselining ∷ [])
          Always
          (run_specified input task_spec)
  unfolding run_specified
  run_specified-Final task_spec = bind (act Point-Raises _) (λ snapshot.
      bind (act Point-Raises _) (λ key.
        bind
          (transition-Point input Always-IsStable RunStatus.baselining (RunStatus.planning ∷ [])
            baselining_opens (λ c q. q.open_to.0))
          (λ _. bind (act Point-Raises _) (λ baseline.
            bind
              (transition-Point input Always-IsStable RunStatus.planning behind_planning
                planning_opens (λ c q. q.open_to.0))
              (λ _. bind (note _) (λ agent_patch.
                bind (act Point-Raises _) (λ (result : PlanChangeResult).
                  bind (note _) (λ board_patch.
                    bind (publish_if-keeps input _ result.plan_ref none)
                      (λ blackboard. run_planned-Final input valid _ result blackboard)))))))))

  approve_requirements-Final :
      (ingest : IngestResult)
      → Ends input
          (Delivered input)
          0
          (RunStatus.waiting_requirements_approval ∷ RunStatus.baselining ∷ [])
          Always
          (approve_requirements input ingest)
  unfolding approve_requirements
  approve_requirements-Final ingest =
      bind
        (wait_for_approval-Point input Always-IsStable ApprovalKind.requirements
          RunStatus.waiting_requirements_approval (RunStatus.baselining ∷ RunStatus.finalizing ∷ [])
          requirements_opens (λ c q. q.open_to.0))
        (λ (a : ApprovalRequest).
          branch (is_reject a.decision)
            (λ _.
              stop-Final input (Delivered input)
                (Decided-IsStable input (Delivered input) Always-IsStable ApprovalKind.requirements
                  a)
                RunStatus.rejected _ (λ X xs. xs.1.0) refl (λ e. cc))
            (λ _.
              strengthen {P = Point 0 (RunStatus.baselining ∷ []) Always}
                (λ c p. record {
                  open_to = (p.open_to.0, tt);
                  in_round = p.in_round;
                  rounds_left = p.rounds_left;
                  shows = tt;
                })
                (bind (need Point-Raises a.replacement_acceptance_criteria assertion_error refl)
                  (λ criteria.
                    bind (act Point-Raises _) (λ task_spec. run_specified-Final task_spec)))))

  pub body-Final : Ends input (Delivered input) 0 (RunStatus.ingesting ∷ []) Always (body input)
  unfolding body
  body-Final =
      bind
        (transition-Point input Always-IsStable RunStatus.ingesting
          (RunStatus.waiting_requirements_approval ∷ RunStatus.baselining ∷ []) ingesting_opens
          (λ c q. q.open_to.0))
        (λ _. bind (act Point-Raises _) (λ (ingest : IngestResult).
          bind (change _ (λ s. refl) (λ w s g. g)) (λ _.
            branch ingest.requires_requirements_approval (λ _. approve_requirements-Final ingest)
              (λ _.
                strengthen {P = Point 0 (RunStatus.baselining ∷ []) Always}
                  (λ c p. record {
                    open_to = p.open_to.1;
                    in_round = p.in_round;
                    rounds_left = p.rounds_left;
                    shows = tt;
                  })
                  (bind (need Point-Raises ingest.task_spec_ref runtime_error refl)
                    (λ task_spec. run_specified-Final task_spec))))))

abbrev Bounded : Core → Type 0
Bounded c = c.rounds ≤ 2

abbrev pub Anything : Exception → Core → Type 0
Anything e c = Unit {0}

module _ (input : WorkflowInput) where
  -- `_finalize` from whatever state the run has come to: it ends the run or raises.
  finalize-Bounded :
      (outcome : RunStatus) (error : Option ErrorInfo)
      → is_terminal outcome ≡ true
      → Triple Bounded (finalize input outcome error) (Ended Always outcome) Anything
  unfolding finalize enter_finalizing transition ◌>>=◌
  finalize-Bounded outcome error t = record {
    run = λ w s p. elim (Bool-cases (same_status s.status RunStatus.finalizing)) [
      | inl same ↦ closing.run w s (p, tt, inl same)
      | inr other ↦ elim (Bool-cases (validate_transition s.status RunStatus.finalizing)) [
        | inl legal ↦ closing.run w s (p, tt, inr legal)
        | inr illegal ↦ rw (other, illegal) tt
      ]
    ];
    sound = λ w s p g. elim (Bool-cases (same_status s.status RunStatus.finalizing)) [
      | inl same ↦ closing.sound w s (p, tt, inl same) g
      | inr other ↦ elim (Bool-cases (validate_transition s.status RunStatus.finalizing)) [
        | inl legal ↦ closing.sound w s (p, tt, inr legal) g
        | inr illegal ↦ rw (other, illegal) g
      ]
    ];
  }
    where
      closing :
          Triple (Closing Always) (finalize input outcome error) (Ended Always outcome) Anything
      closing = forget (finalize-Ended input Always-IsStable outcome error t)

  unsuccessful-Final :
      (outcome : RunStatus) (error : Option ErrorInfo)
      → is_terminal outcome ≡ true
      → outcome ≢ RunStatus.succeeded
      → Triple Bounded (finalize input outcome error) (Final (Delivered input)) Anything
  unsuccessful-Final outcome error t other =
      weaken
        (λ out c (o, s, r, g).
          (cc, subst (λ m. is_terminal m ≡ true) (sym s) t, r, λ e. absurd (other (sym s ∙ e))))
        (finalize-Bounded outcome error t)

  recovering :
      (finalizing requested : Bool) (e : Exception) (error error' : Option ErrorInfo)
      → Triple Bounded
          (λ w s.
            if finalizing
            then (raise e, s)
            else if requested
            then finalize input RunStatus.cancelled error w s
            else finalize input RunStatus.failed error' w s)
          (Final (Delivered input))
          Anything
  recovering true requested e error error' = record { run = λ w s p. tt; sound = λ w s p g. g }
  recovering false true e error error' = unsuccessful-Final RunStatus.cancelled error refl (λ x. cc)
  recovering false false e error error' = unsuccessful-Final RunStatus.failed error' refl (λ x. cc)

  recover-Final :
      (e : Exception) → Triple Bounded (recover input e) (Final (Delivered input)) Anything
  unfolding recover
  recover-Final cancelled_error = unsuccessful-Final RunStatus.cancelled _ refl (λ x. cc)
  recover-Final e = record {
    run = λ w s p. (recovering _ _ e _ _).run w s p;
    sound = λ w s p. (recovering _ _ e _ _).sound w s p;
  }

queued_opens : all (validate_transition RunStatus.queued) (RunStatus.ingesting ∷ []) ≡ true
unfolding validate_transition
queued_opens = refl

-- A run that has not begun.
abbrev Fresh : Core → Type 0
Fresh = Point 0 (RunStatus.ingesting ∷ []) Always

pub Fresh-queued :
    (s : State) → s.status ≡ RunStatus.queued → s.repair_rounds ≡ 0 → Fresh (core_of s)
Fresh-queued s q z = record {
  open_to =
      subst (λ t. All (λ m. validate_transition t m ≡ true) (RunStatus.ingesting ∷ [])) (sym q)
        (open_at RunStatus.queued (RunStatus.ingesting ∷ []) queued_opens);
  in_round = z;
  rounds_left = ground arith;
  shows = tt;
}

module _ (input : WorkflowInput)
    (valid : custom_settings_match_mode input.approval_policy.mode input.approval_policy.custom
      ≡ true) where
  recovered :
      (w : World) (r : Result WorkflowOutput) (s : State)
      → Post (Final (Delivered input)) Raises r (core_of s)
      → let x : Result WorkflowOutput × State = elim r [
        | return out ↦ (return out, s)
        | raise e ↦ recover input e w s
      ] in
        Post (Final (Delivered input)) Anything x.0 (core_of x.1)
  recovered w (return out) s p = p
  recovered w (raise e) s p = (recover-Final input e).run w s p.1

  recovered-Genuine :
      (w : World) (r : Result WorkflowOutput) (s : State)
      → Post (Final (Delivered input)) Raises r (core_of s)
      → Genuine w s
      → let x : Result WorkflowOutput × State = elim r [
        | return out ↦ (return out, s)
        | raise e ↦ recover input e w s
      ] in
        Genuine w x.1
  recovered-Genuine w (return out) s p g = g
  recovered-Genuine w (raise e) s p g = (recover-Final input e).sound w s p.1 g

  pub run-Final : Triple Fresh (run input) (Final (Delivered input)) Anything
  unfolding run
  run-Final =
      bind {R = λ _. Fresh} (record { run = λ w s p. p; sound = λ w s p g. g })
        (λ _.
          bind
            (forget (
              record_projection-keeps input Fresh
                (λ e c p. record {
                  open_to = p.open_to;
                  in_round = p.in_round;
                  rounds_left = p.rounds_left;
                  shows = tt;
                })
                (λ c p. p.rounds_left)))
            (λ _. record {
              run = λ w s p.
                  let r = body input w s in
                  recovered w r.0 r.1 ((body-Final input valid).run w s p);
              sound = λ w s p g.
                  let r = body input w s in
                  recovered-Genuine w r.0 r.1 ((body-Final input valid).run w s p)
                    ((body-Final input valid).sound w s p g);
            }))

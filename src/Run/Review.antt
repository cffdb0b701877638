-- ===== src/Run/Review.antt =====
-- `_run_candidate_attempt` of src/repopilot/workflows/code_repair.py from the verification on, as a
-- step between points.
use acoding_agent.Prelude.{
  ℕ, ◌≡◌, refl, ap, Bool, true, false, ◌&&◌, List, [], ◌∷◌, all, none, some, if◌then◌else◌,
}
use acoding_agent.Domain.Enums.{RunStatus}
use acoding_agent.Run.Transitions.{validate_transition}
use acoding_agent.Run.World.{
  WorkflowInput, ArtifactRef, Verdict, approved, changes_requested, rejected_candidate,
  ReviewResult, VerificationResult, CandidateSource,
}
use acoding_agent.Run.Monad.{Event, verified, reviewed, pure}
use acoding_agent.Run.Attempt.{
  AttemptInput, CandidateAttemptResult, review_attempt, run_candidate_attempt,
}
use acoding_agent.Run.Stages.{is_approval}
use acoding_agent.Run.Logic.{Core, Triple, bind, give, skim, change, log_event, act, note}
use acoding_agent.Run.Points.{
  IsStable, Point, Raises, Point-Raises, transition-Point, last_verified,
}
use acoding_agent.Run.Candidate.{
  IsPersistent, Accepted, run_waves-keeps, candidate_dependencies-keeps,
}

-- Behind an attempt the run may be replanned, and it may be delivered if the candidate is accepted.
abbrev pub AttemptDone : ℕ → (List Event → Type 0) → CandidateAttemptResult → Core → Type 0
AttemptDone n G r c =
    Point n (RunStatus.replanning ∷ RunStatus.finalizing ∷ []) G c
    × ((r.verification_passed && is_approval r.review_decision) ≡ true
        → Point n (RunStatus.waiting_delivery_approval ∷ RunStatus.finalizing ∷ [])
            (λ log. G log × Accepted log) c)

abbrev Verified : (List Event → Type 0) → List Event → Type 0
Verified G log = G log × (last_verified log ≡ some true)

Verified-IsStable : {G : List Event → Type 0} → IsStable G → IsStable (Verified G)
Verified-IsStable s = record {
  on_projected = λ e log (g, v). (s.on_projected e log g, v);
  on_decided = λ k a log (g, v). (s.on_decided k a log g, v);
}

pub Accepted-IsStable :
    {G : List Event → Type 0} → IsStable G → IsStable (λ log. G log × Accepted log)
Accepted-IsStable s = record {
  on_projected = λ e log (g, v). (s.on_projected e log g, v);
  on_decided = λ k a log (g, v). (s.on_decided k a log g, v);
}

abbrev before_review : List RunStatus
before_review = RunStatus.reviewing ∷ RunStatus.replanning ∷ RunStatus.finalizing ∷ []

abbrev behind_review : List RunStatus
behind_review =
    RunStatus.replanning ∷ RunStatus.waiting_delivery_approval ∷ RunStatus.finalizing ∷ []

verifying_opens : all (validate_transition RunStatus.verifying) before_review ≡ true
unfolding validate_transition
verifying_opens = refl

reviewing_opens : all (validate_transition RunStatus.reviewing) behind_review ≡ true
unfolding validate_transition
reviewing_opens = refl

approving : (v : Verdict) → is_approval (some v) ≡ true → v ≡ approved
approving approved h = refl
approving changes_requested h = cc
approving rejected_candidate h = cc

module _ (input : WorkflowInput) {n : ℕ} {G : List Event → Type 0} (lasting : IsPersistent G) where
  reviewed-AttemptDone :
      (v : Verdict) (report : ArtifactRef) (c : Core)
      → Point n behind_review (Verified G) c
      → AttemptDone n G
          (record { verification_passed = true; review_decision = some v; feedback_ref = report })
          (record c { log = reviewed v ∷ c.log })
  reviewed-AttemptDone v report c p =
      let g = lasting.on_reviewed v c.log p.shows.0 in
      (
        record {
          open_to = (p.open_to.0, (p.open_to.1.1.0, tt));
          in_round = p.in_round;
          rounds_left = p.rounds_left;
          shows = g;
        },
        λ accepted. record {
          open_to = (p.open_to.1.0, (p.open_to.1.1.0, tt));
          in_round = p.in_round;
          rounds_left = p.rounds_left;
          shows = (g, (p.shows.1, ap some (approving v accepted)));
        },
      )

  review_attempt-AttemptDone :
      (a : AttemptInput) (diff report source : ArtifactRef)
      → Triple
          (Point n before_review (Verified G))
          (review_attempt input a diff report source)
          (AttemptDone n G)
          Raises
  unfolding review_attempt
  review_attempt-AttemptDone a diff report source =
      bind
        (transition-Point input (Verified-IsStable lasting.stable) RunStatus.reviewing behind_review
          reviewing_opens (λ c p. p.open_to.0))
        (λ _. bind (note _) (λ _. bind skim (λ _.
          bind (act Point-Raises _) (λ (review : ReviewResult).
            bind
              (log_event (reviewed review.decision)
                (reviewed-AttemptDone review.decision review.review_ref) (λ log. refl))
              (λ _. bind (change _ (λ s. refl) (λ w s g. g)) (λ _. give _ (λ c p. p)))))))

  verified-Point :
      (b : Bool) (c : Core)
      → Point n before_review G c
      → Point n before_review
          (λ log. G log × (last_verified log ≡ some b))
          (record c { log = verified b ∷ c.log })
  verified-Point b c p = record {
    open_to = p.open_to;
    in_round = p.in_round;
    rounds_left = p.rounds_left;
    shows = (lasting.on_verified b c.log p.shows, refl);
  }

  unverified-AttemptDone :
      (report : ArtifactRef) (c : Core)
      → Point n before_review (λ log. G log × (last_verified log ≡ some false)) c
      → AttemptDone n G
          (record { verification_passed = false; review_decision = none; feedback_ref = report })
          c
  unverified-AttemptDone report c p = (
    record {
      open_to = p.open_to.1;
      in_round = p.in_round;
      rounds_left = p.rounds_left;
      shows = p.shows.0;
    },
    λ h. cc,
  )

  judged-AttemptDone :
      (a : AttemptInput) (diff source : ArtifactRef) (result : VerificationResult) (b : Bool)
      → Triple
          (Point n before_review (λ log. G log × (last_verified log ≡ some b)))
          (if b
            then review_attempt input a diff result.report_ref source
            else pure (record {
              verification_passed = false;
              review_decision = none;
              feedback_ref = result.report_ref;
            }))
          (AttemptDone n G)
          Raises
  judged-AttemptDone a diff source result true =
      review_attempt-AttemptDone a diff result.report_ref source
  judged-AttemptDone a diff source result false = give _ (unverified-AttemptDone result.report_ref)

  pub run_candidate_attempt-AttemptDone :
      (a : AttemptInput)
      → Triple
          (Point n (RunStatus.verifying ∷ []) G)
          (run_candidate_attempt input a)
          (AttemptDone n G)
          Raises
  unfolding run_candidate_attempt
  run_candidate_attempt-AttemptDone a = bind (note _) (λ agent_patch.
      bind (run_waves-keeps input a _ a.plan.waves []) (λ _.
        bind
          (transition-Point input lasting.stable RunStatus.verifying before_review verifying_opens
            (λ c p. p.open_to.0))
          (λ _. bind (act Point-Raises _) (λ (candidate : CandidateSource).
            bind (change _ (λ s. refl) (λ w s g. g)) (λ _.
              bind (candidate_dependencies-keeps input a) (λ key. bind (act Point-Raises _) (λ diff.
                bind (change _ (λ s. refl) (λ w s g. g)) (λ _.
                  bind (act Point-Raises _) (λ (result : VerificationResult).
                    bind
                      (log_event (verified result.passed) (verified-Point result.passed)
                        (λ log. refl))
                      (λ _. bind (change _ (λ s. refl) (λ w s g. g)) (λ _.
                        judged-AttemptDone a diff candidate.source_archive_ref result
                          result.passed)))))))))))

-- ===== src/Run/Points.antt =====
-- The points of a run between its steps: which transitions are open there, and what the log shows.
use acoding_agent.Prelude.{
  ℕ, ◌+◌, ◌≤◌, ◌≡◌, refl, sym, subst, Bool, true, false, ◌&&◌, ◌||◌, not, List, [], ◌∷◌, All, all,
  Option, none, some, arith, if◌then◌else◌,
}
use acoding_agent.Domain.Enums.{RunStatus}
use acoding_agent.Run.Transitions.{validate_transition}
use acoding_agent.Run.Approvals.{ApprovalKind, same_kind, ApprovalRequest, is_reject}
use acoding_agent.Run.World.{WorkflowInput, ProjectionEvent, Verdict}
use acoding_agent.Run.Monad.{
  Event, projected, decided, verified, reviewed, Exception, invalid_transition, raise,
}
use acoding_agent.Run.Workflow.{projection_event, send_projection, record_projection, transition}
use acoding_agent.Run.Requests.{Genuine}
use acoding_agent.Run.Logic.{
  Core, core_of, Post, Triple, bind, weaken, change, log_event, act, is_external,
}

-- Whether the log notes a decision for this kind that is no rejection.
abbrev pub has_approval : ApprovalKind → List Event → Bool
has_approval kind [] = false
has_approval kind (decided k a ∷ log) =
    (same_kind k kind && not (is_reject a.decision)) || has_approval kind log
has_approval kind (projected e ∷ log) = has_approval kind log
has_approval kind (verified b ∷ log) = has_approval kind log
has_approval kind (reviewed v ∷ log) = has_approval kind log

-- The latest verification, and the latest review.
abbrev pub last_verified : List Event → Option Bool
last_verified [] = none
last_verified (verified b ∷ log) = some b
last_verified (decided k a ∷ log) = last_verified log
last_verified (projected e ∷ log) = last_verified log
last_verified (reviewed v ∷ log) = last_verified log

abbrev pub last_reviewed : List Event → Option Verdict
last_reviewed [] = none
last_reviewed (reviewed v ∷ log) = some v
last_reviewed (decided k a ∷ log) = last_reviewed log
last_reviewed (projected e ∷ log) = last_reviewed log
last_reviewed (verified b ∷ log) = last_reviewed log

-- What the log shows survives the events that do not concern it.
pub record IsStable (G : List Event → Type 0) : Type 0 where
  pub on_projected : (e : ProjectionEvent) (log : List Event) → G log → G (projected e ∷ log)
  pub on_decided :
      (k : ApprovalKind) (a : ApprovalRequest) (log : List Event) → G log → G (decided k a ∷ log)

-- The run is in repair round `r`, may go to each of `next`, and its log shows `G`.
pub record Point (r : ℕ) (next : List RunStatus) (G : List Event → Type 0) (c : Core) : Type 0 where
  pub open_to : All (λ n. validate_transition c.status n ≡ true) next
  pub in_round : c.rounds ≡ r
  pub rounds_left : c.rounds ≤ 2
  pub shows : G c.log

abbrev pub Raises : Exception → Core → Type 0
Raises e c = (is_external e ≡ true) × (c.rounds ≤ 2)

pub Point-Raises :
    {r : ℕ} {next : List RunStatus} {G : List Event → Type 0} (e : Exception) (c : Core)
    → is_external e ≡ true
    → Point r next G c
    → Raises e c
Point-Raises e c x p = (x, p.rounds_left)

-- From a status the run may go on as the table says.
pub open_at :
    (s : RunStatus) (next : List RunStatus)
    → all (validate_transition s) next ≡ true
    → All (λ n. validate_transition s n ≡ true) next
open_at s [] h = tt
open_at s (n ∷ next) h = (ground arith, open_at s next (ground arith))

-- A projection keeps what adding it to the log keeps.
module _ (input : WorkflowInput) (P : Core → Type 0)
    (keeps : (e : ProjectionEvent) (c : Core) → P c → P (record c { log = projected e ∷ c.log }))
    (bounded : (c : Core) → P c → c.rounds ≤ 2) where
  send_projection-keeps : (e : ProjectionEvent) → Triple P (send_projection input e) (λ _. P) Raises
  unfolding send_projection
  send_projection-keeps e = bind (log_event (projected e) (keeps e) (λ log. refl)) (λ _.
      bind (act (λ x c ext p. (ext, bounded c p)) (λ w n. w.update_projection n e)) (λ _.
        change (λ s. record s { projection_sequence = s.projection_sequence + 1 }) (λ s. refl)
          (λ w s g. g)))

  pub record_projection-keeps : Triple P (record_projection input) (λ _. P) Raises
  unfolding record_projection
  record_projection-keeps = record {
    run = λ w s p. (send_projection-keeps (projection_event input w s)).run w s p;
    sound = λ w s p. (send_projection-keeps (projection_event input w s)).sound w s p;
  }

abbrev pub At : ℕ → (List Event → Type 0) → RunStatus → List RunStatus → Core → Type 0
At r G n next c = (c.status ≡ n) × Point r next G c

module _ (input : WorkflowInput) {r : ℕ} {G : List Event → Type 0} (stable : IsStable G) where
  At-transition :
      (n : RunStatus) (next' : List RunStatus)
      → all (validate_transition n) next' ≡ true
      → {next : List RunStatus} (c : Core) → Point r next G c
      → At r G n next' (record c { status = n })
  At-transition n next' h c p = (
    refl,
    record {
      open_to = open_at n next' h;
      in_round = p.in_round;
      rounds_left = p.rounds_left;
      shows = p.shows;
    },
  )

  recorded-At :
      (n : RunStatus) (next' : List RunStatus)
      → Triple (At r G n next') (record_projection input) (λ _. At r G n next') Raises
  recorded-At n next' =
      record_projection-keeps input (At r G n next')
        (λ e c (same, q). (
          same,
          record {
            open_to = q.open_to;
            in_round = q.in_round;
            rounds_left = q.rounds_left;
            shows = stable.on_projected e c.log q.shows;
          },
        ))
        (λ c q. q.1.rounds_left)

  -- A transition to a status that is open leads to the points behind that status.
  pub transition-At :
      {next : List RunStatus} (n : RunStatus) (next' : List RunStatus)
      → all (validate_transition n) next' ≡ true
      → ((c : Core) → Point r next G c → validate_transition c.status n ≡ true)
      → Triple (Point r next G) (transition input n) (λ _. At r G n next') Raises
  unfolding transition
  transition-At {next} n next' h v = record {
    run = λ w s p.
        let next_state = record s { status = n } in
        subst
          (λ b.
            let step =
              if b
              then record_projection input w next_state
              else (raise (invalid_transition s.status n), s) in
            Post (λ _. At r G n next') Raises step.0 (core_of step.1))
          (sym (v (core_of s) p))
          ((recorded-At n next').run w next_state (At-transition n next' h (core_of s) p));
    sound = λ w s p g.
        let next_state = record s { status = n } in
        subst
          (λ b.
            let step =
              if b
              then record_projection input w next_state
              else (raise (invalid_transition s.status n), s) in
            Genuine w step.1)
          (sym (v (core_of s) p))
          ((recorded-At n next').sound w next_state (At-transition n next' h (core_of s) p) g);
  }

  pub transition-Point :
      {next : List RunStatus} (n : RunStatus) (next' : List RunStatus)
      → all (validate_transition n) next' ≡ true
      → ((c : Core) → Point r next G c → validate_transition c.status n ≡ true)
      → Triple (Point r next G) (transition input n) (λ _. Point r next' G) Raises
  transition-Point n next' h v = weaken (λ _ c q. q.1) (transition-At n next' h v)

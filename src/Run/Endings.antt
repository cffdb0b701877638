-- ===== src/Run/Endings.antt =====
-- The waits for approvals and the end of a run, as steps between points.
use acoding_agent.Prelude.{
  ℕ, ◌+◌, ◌≤◌, ◌≡◌, refl, sym, subst, true, false, String, List, [], ◌∷◌, All, all, Option, none,
  some, arith, ◌⊎◌, inl, inr, Bool-cases,
}
use acoding_agent.Domain.Enums.{RunStatus, same_status, same_status-eq, is_terminal}
use acoding_agent.Run.Transitions.{validate_transition}
use acoding_agent.Run.Approvals.{ApprovalKind, same_kind, ApprovalRequest, is_reject}
use acoding_agent.Run.World.{WorkflowInput, World, Answer, ArtifactRef, WorkflowOutput, ErrorInfo}
use acoding_agent.Run.Monad.{
  State, Event, decided, M, ◌>>=◌, and_then, emit, pure, Exception, cancelled_error, Result, return,
  raise, deliver, activity, lookup_approval,
}
use acoding_agent.Run.Workflow.{
  transition, enter_finalizing, note_failure, wait_condition, await_approval, wait_for_approval,
  finalize, guarded,
}
use acoding_agent.Run.Requests.{Genuine}
use acoding_agent.Run.Taken.{IsTaken, await_approval-IsTaken, use-Genuine}
use acoding_agent.Run.Logic.{
  Core, core_of, Post, Triple, bind, give, skim, act, deliver-core, is_external,
}
use acoding_agent.Run.Points.{
  has_approval, IsStable, Point, Raises, Point-Raises, open_at, transition-Point, transition-At,
}

wait_condition-Post :
    (P : Core → Type 0) (E : Exception → Core → Type 0) (kind : ApprovalKind)
    (us : List (List ApprovalRequest)) (s : State)
    → ((c : Core) → P c → E cancelled_error c)
    → P (core_of s)
    → let r = wait_condition kind us s in Post (λ _. P) E r.0 (core_of r.1)
unfolding wait_condition
wait_condition-Post P E kind [] s x p = go (lookup_approval kind s.approvals) refl
  where
    go :
        (o : Option ApprovalRequest)
        → lookup_approval kind s.approvals ≡ o
        → let r = wait_condition kind [] s in Post (λ _. P) E r.0 (core_of r.1)
    go none e = rw (e, wait_condition) (x (core_of s) p)
    go (some a) e = rw (e, wait_condition) p
wait_condition-Post P E kind (u ∷ us) s x p =
    go (lookup_approval kind s.approvals) refl
      (wait_condition-Post P E kind us (deliver u s) x (subst P (sym (deliver-core u s)) p))
  where
    go :
        (o : Option ApprovalRequest)
        → lookup_approval kind s.approvals ≡ o
        → (let r = wait_condition kind us (deliver u s) in Post (λ _. P) E r.0 (core_of r.1))
        → let r = wait_condition kind (u ∷ us) s in Post (λ _. P) E r.0 (core_of r.1)
    go none e later = rw (e, wait_condition) later
    go (some a) e later = rw (e, wait_condition) p

abbrev pub terminals : List RunStatus
terminals = RunStatus.succeeded ∷ RunStatus.rejected ∷ RunStatus.failed ∷ RunStatus.cancelled ∷ []

finalizing_opens : all (validate_transition RunStatus.finalizing) terminals ≡ true
unfolding validate_transition
finalizing_opens = refl

-- A run that is being finalized or may be.
abbrev ClosingAt : ℕ → (List Event → Type 0) → Core → Type 0
ClosingAt n G c =
    (c.rounds ≡ n)
    × (c.rounds ≤ 2)
    × G c.log
    × ((same_status c.status RunStatus.finalizing ≡ true)
        ⊎ (validate_transition c.status RunStatus.finalizing ≡ true))

abbrev pub Closing : (List Event → Type 0) → Core → Type 0
Closing G c =
    (c.rounds ≤ 2)
    × G c.log
    × ((same_status c.status RunStatus.finalizing ≡ true)
        ⊎ (validate_transition c.status RunStatus.finalizing ≡ true))

abbrev pub Ended : (List Event → Type 0) → RunStatus → WorkflowOutput → Core → Type 0
Ended G outcome out c = (out.status ≡ outcome) × (c.status ≡ outcome) × (c.rounds ≤ 2) × G c.log

-- What the log shows behind a decision.
abbrev pub Decided : (List Event → Type 0) → ApprovalKind → ApprovalRequest → List Event → Type 0
Decided G kind a log = G log × (is_reject a.decision ≡ false → has_approval kind log ≡ true)

same_kind_self : (k : ApprovalKind) → same_kind k k ≡ true
same_kind_self ApprovalKind.requirements = refl
same_kind_self _ = refl

-- The request that is taken from the waiting ones is noted as used.
abbrev take_approval : ApprovalKind → M ApprovalRequest
take_approval kind = await_approval kind >>= λ a. emit (decided kind a) >>= λ _. pure a

used-Genuine :
    (kind : ApprovalKind) (w : World) (r : Result ApprovalRequest) (s : State)
    → IsTaken w kind r s
    → Genuine w (and_then (λ a. emit (decided kind a) >>= λ _. pure a) w r s).1
unfolding ◌>>=◌ emit pure
used-Genuine kind w (return a) s (g, can) = use-Genuine w kind a s g can
used-Genuine kind w (raise e) s g = g

module _ (input : WorkflowInput) {n : ℕ} {G : List Event → Type 0} (stable : IsStable G) where
  await_approval-Point :
      {next : List RunStatus} (kind : ApprovalKind) (w : World) (s : State)
      → Point n next G (core_of s)
      → let r = await_approval kind w s in Post (λ _. Point n next G) Raises r.0 (core_of r.1)
  unfolding await_approval
  await_approval-Point {next} kind w s p =
      wait_condition-Post (Point n next G) Raises kind (w.wakeups s.awaits)
        (record s { awaits = s.awaits + 1 }) (λ c. Point-Raises cancelled_error c refl) p

  decided-Point :
      {next : List RunStatus} (kind : ApprovalKind) (a : ApprovalRequest) (c : Core)
      → Point n next G c
      → Point n next (Decided G kind a) (record c { log = decided kind a ∷ c.log })
  decided-Point kind a c p = record {
    open_to = p.open_to;
    in_round = p.in_round;
    rounds_left = p.rounds_left;
    shows = (stable.on_decided kind a c.log p.shows, λ e. ground (arith, same_kind_self kind));
  }

  take_approval-Point :
      {next : List RunStatus} (kind : ApprovalKind)
      → Triple (Point n next G) (take_approval kind) (λ a. Point n next (Decided G kind a)) Raises
  unfolding ◌>>=◌ emit pure
  take_approval-Point {next} kind = record {
    run = λ w s p.
        let r = await_approval kind w s in used w r.0 r.1 (await_approval-Point kind w s p);
    sound = λ w s p g.
        let r = await_approval kind w s in
        used-Genuine kind w r.0 r.1 (await_approval-IsTaken w kind s g);
  }
    where
      used :
          (w : World) (r : Result ApprovalRequest) (s : State)
          → Post (λ _. Point n next G) Raises r (core_of s)
          → let u = and_then (λ a. emit (decided kind a) >>= λ _. pure a) w r s in
            Post (λ a. Point n next (Decided G kind a)) Raises u.0 (core_of u.1)
      used w (return a) s p = decided-Point kind a (core_of s) p
      used w (raise e) s p = p

  -- A wait for an approval leads to the points behind the waiting status, and the log shows it.
  pub wait_for_approval-Point :
      {next : List RunStatus} (kind : ApprovalKind) (status : RunStatus) (next' : List RunStatus)
      → all (validate_transition status) next' ≡ true
      → ((c : Core) → Point n next G c → validate_transition c.status status ≡ true)
      → Triple
          (Point n next G)
          (wait_for_approval input kind status)
          (λ a. Point n next' (Decided G kind a))
          Raises
  unfolding wait_for_approval
  wait_for_approval-Point kind status next' h v =
      bind (transition-Point input stable status next' h v) (λ _. take_approval-Point kind)

  closed_at :
      (c : Core)
      → ClosingAt n G c
      → same_status c.status RunStatus.finalizing ≡ true
      → Point n terminals G c
  closed_at c p closing = record {
    open_to =
        subst (λ t. All (λ m. validate_transition t m ≡ true) terminals)
          (sym (same_status-eq c.status RunStatus.finalizing closing))
          (open_at RunStatus.finalizing terminals finalizing_opens);
    in_round = p.0;
    rounds_left = p.1;
    shows = p.2;
  }

  opening_at :
      (c : Core)
      → ClosingAt n G c
      → same_status c.status RunStatus.finalizing ≡ false
      → Point n (RunStatus.finalizing ∷ []) G c
  opening_at c p other = record {
    open_to = (ground arith, tt);
    in_round = p.0;
    rounds_left = p.1;
    shows = p.2;
  }

  opening :
      Triple
        (Point n (RunStatus.finalizing ∷ []) G)
        (transition input RunStatus.finalizing)
        (λ _. Point n terminals G)
        Raises
  opening =
      transition-Point input stable RunStatus.finalizing terminals finalizing_opens
        (λ c q. q.open_to.0)

  enter_finalizing-Point :
      Triple (ClosingAt n G) (enter_finalizing input) (λ _. Point n terminals G) Raises
  unfolding enter_finalizing
  enter_finalizing-Point = record {
    run = λ w s p. elim (Bool-cases (same_status s.status RunStatus.finalizing)) [
      | inl closing ↦ rw closing (closed_at (core_of s) p closing)
      | inr other ↦ rw other (opening.run w s (opening_at (core_of s) p other))
    ];
    sound = λ w s p g. elim (Bool-cases (same_status s.status RunStatus.finalizing)) [
      | inl closing ↦ rw closing g
      | inr other ↦ rw other (opening.sound w s (opening_at (core_of s) p other) g)
    ];
  }

-- A failed cleanup is only a warning.
guarded-Post :
    (P : Core → Type 0) (r : Result ArtifactRef) (s : State) (warning : String)
    → ((c : Core) → P c → c.rounds ≤ 2)
    → Post (λ _. P) (λ e c. (is_external e ≡ true) × P c) r (core_of s)
    → let g = note_failure r warning s in Post (λ _. P) Raises g.0 (core_of g.1)
unfolding note_failure
guarded-Post P (return ref) s warning b p = p
guarded-Post P (raise cancelled_error) s warning b p = (refl, b (core_of s) p.1)
guarded-Post P (raise _) s warning b p = p.1

note_failure-Genuine :
    (w : World) (r : Result ArtifactRef) (warning : String) (s : State)
    → Genuine w s
    → Genuine w (note_failure r warning s).1
unfolding note_failure
note_failure-Genuine w (return ref) warning s g = g
note_failure-Genuine w (raise cancelled_error) warning s g = g
note_failure-Genuine w (raise _) warning s g = g

guarded-keeps :
    (P : Core → Type 0) (call : World → ℕ → Answer ArtifactRef) (warning : String)
    → ((c : Core) → P c → c.rounds ≤ 2)
    → Triple P (guarded (activity call) warning) (λ _. P) Raises
unfolding guarded
guarded-keeps P call warning b =
    let called = act {P = P} {E = λ e c. (is_external e ≡ true) × P c} (λ e c x q. (x, q)) call in
    record {
      run =
          λ w s p. let r = activity call w s in guarded-Post P r.0 r.1 warning b (called.run w s p);
      sound = λ w s p g.
          let r = activity call w s in
          note_failure-Genuine w r.0 warning r.1 (called.sound w s p g);
    }

module _ (input : WorkflowInput) {n : ℕ} {G : List Event → Type 0} (stable : IsStable G) where
  finalize-Ended_at :
      (outcome : RunStatus) (error : Option ErrorInfo)
      → is_terminal outcome ≡ true
      → ((c : Core) → Point n terminals G c → validate_transition c.status outcome ≡ true)
      → Triple (ClosingAt n G) (finalize input outcome error) (Ended G outcome) Raises
  unfolding finalize
  finalize-Ended_at outcome error t v = bind (enter_finalizing-Point input stable) (λ _.
      bind (guarded-keeps (Point n terminals G) _ _ (λ c p. p.rounds_left)) (λ _.
        bind (guarded-keeps (Point n terminals G) _ _ (λ c p. p.rounds_left)) (λ _. bind skim (λ _.
          bind (act Point-Raises _) (λ report.
            bind (transition-At input stable outcome [] refl v)
              (λ _. give _ (λ c p. (refl, p.0, p.1.rounds_left, p.1.shows))))))))

terminal_among :
    (X : RunStatus → Type 0) (outcome : RunStatus)
    → is_terminal outcome ≡ true
    → All X terminals
    → X outcome
terminal_among X RunStatus.succeeded t xs = xs.0
terminal_among X RunStatus.rejected t xs = xs.1.0
terminal_among X RunStatus.failed t xs = xs.1.1.0
terminal_among X RunStatus.cancelled t xs = xs.1.1.1.0
terminal_among X _ t xs = cc

-- `_finalize` ends the run with the status that it is given, if its activities succeed.
pub finalize-Ended :
    (input : WorkflowInput) {G : List Event → Type 0} (stable : IsStable G)
    → (outcome : RunStatus) (error : Option ErrorInfo) → is_terminal outcome ≡ true
    → Triple (Closing G) (finalize input outcome error) (Ended G outcome) Raises
finalize-Ended input {G} stable outcome error t = record {
  run = λ w s p. (at_round s.repair_rounds).run w s (refl, p.0, p.1, p.2);
  sound = λ w s p. (at_round s.repair_rounds).sound w s (refl, p.0, p.1, p.2);
}
  where
    at_round :
        (n : ℕ) → Triple (ClosingAt n G) (finalize input outcome error) (Ended G outcome) Raises
    at_round n =
        finalize-Ended_at input {n = n} stable outcome error t
          (λ c q. terminal_among (λ m. validate_transition c.status m ≡ true) outcome t q.open_to)

-- ===== src/Run/Logic.antt =====
-- Pre- and postconditions of the workflow's statements. They are about the part of its object that
-- updates cannot change: the status, the repair rounds and the log.
use acoding_agent.Prelude.{
  ℕ, ◌+◌, ◌≡◌, refl, sym, subst, Bool, true, false, List, [], ◌∷◌, Option, none, some, arith,
  String, if◌then◌else◌,
}
use acoding_agent.Domain.Enums.{RunStatus}
use acoding_agent.Run.Approvals.{ApprovalRequest}
use acoding_agent.Run.World.{World, Answer, done, failed, cancelled}
use acoding_agent.Run.Requests.{Genuine, IsGenuine, decisions, deliver-Genuine, inbox-IsSent}
use acoding_agent.Run.Monad.{
  State, Event, Exception, cancelled_error, activity_error, Result, return, raise, M, ◌>>=◌,
  and_then, pure, throw, get, modify, emit, patched, require, activity, answered, deliver,
  submit_approval,
}

pub record Core : Type 0 where
  pub status : RunStatus
  pub rounds : ℕ
  pub log : List Event

abbrev pub core_of : State → Core
core_of s = record { status = s.status; rounds = s.repair_rounds; log = s.log }

pub submit_approval-core :
    (u : ApprovalRequest) (s : State) → core_of (submit_approval u s) ≡ core_of s
unfolding submit_approval
submit_approval-core u s = ground arith

pub deliver-core : (us : List ApprovalRequest) (s : State) → core_of (deliver us s) ≡ core_of s
unfolding deliver
deliver-core [] s = refl
deliver-core (u ∷ us) s = cc (deliver-core us (submit_approval u s), submit_approval-core u s)

abbrev pub Post :
    {A : Type 0} → (A → Core → Type 0) → (Exception → Core → Type 0) → Result A → Core → Type 0
Post Q E (return a) c = Q a c
Post Q E (raise e) c = E e c

-- From a state with `P` the statement returns with `Q` or raises with `E`. It uses no approval that was
-- not sent, and none twice.
pub record Triple {A : Type 0} (P : Core → Type 0) (m : M A) (Q : A → Core → Type 0)
    (E : Exception → Core → Type 0) : Type 0 where
  pub run : (w : World) (s : State) → P (core_of s) → Post Q E (m w s).0 (core_of (m w s).1)
  pub sound : (w : World) (s : State) → P (core_of s) → Genuine w s → Genuine w (m w s).1

and_then-Post :
    {A B : Type 0} {R : A → Core → Type 0} {Q : B → Core → Type 0} {E : Exception → Core → Type 0}
    (f : A → M B)
    → ((a : A) → Triple (R a) (f a) Q E)
    → (w : World) (r : Result A) (s : State) → Post R E r (core_of s)
    → Post Q E (and_then f w r s).0 (core_of (and_then f w r s).1)
and_then-Post f k w (return a) s h = (k a).run w s h
and_then-Post f k w (raise e) s h = h

and_then-Genuine :
    {A B : Type 0} {R : A → Core → Type 0} {Q : B → Core → Type 0} {E : Exception → Core → Type 0}
    (f : A → M B)
    → ((a : A) → Triple (R a) (f a) Q E)
    → (w : World) (r : Result A) (s : State) → Post R E r (core_of s)
    → Genuine w s
    → Genuine w (and_then f w r s).1
and_then-Genuine f k w (return a) s h g = (k a).sound w s h g
and_then-Genuine f k w (raise e) s h g = g

Post_mono :
    {A : Type 0} (Q Q' : A → Core → Type 0) (E : Exception → Core → Type 0) (r : Result A)
    (c : Core)
    → ((a : A) (c : Core) → Q a c → Q' a c)
    → Post Q E r c
    → Post Q' E r c
Post_mono Q Q' E (return a) c h p = h a c p
Post_mono Q Q' E (raise e) c h p = p

pub returned :
    {A : Type 0} (Q : A → Core → Type 0) (E : Exception → Core → Type 0) (r : Result A) (a : A)
    (c : Core)
    → r ≡ return a
    → Post Q E r c
    → Q a c
returned Q E r a c same p = subst (λ x. Post Q E x c) same p

pub raised_by :
    {A : Type 0} (Q : A → Core → Type 0) (E : Exception → Core → Type 0) (r : Result A)
    (e : Exception) (c : Core)
    → r ≡ raise e
    → Post Q E r c
    → E e c
raised_by Q E r e c same p = subst (λ x. Post Q E x c) same p

forget-Post :
    {A : Type 0} (Q : A → Core → Type 0) (E : Exception → Core → Type 0) (r : Result A) (c : Core)
    → Post Q E r c
    → Post Q (λ _ _. Unit {0}) r c
forget-Post Q E (return a) c p = p
forget-Post Q E (raise e) c p = tt

module _ {A B : Type 0} {P : Core → Type 0} {R : A → Core → Type 0} {Q : B → Core → Type 0}
    {E : Exception → Core → Type 0} where
  pub bind :
      {m : M A} {f : A → M B}
      → Triple P m R E
      → ((a : A) → Triple (R a) (f a) Q E)
      → Triple P (m >>= f) Q E
  unfolding ◌>>=◌
  bind {m} {f} t k = record {
    run = λ w s p. and_then-Post {R = R} {Q = Q} {E = E} f k w (m w s).0 (m w s).1 (t.run w s p);
    sound = λ w s p g.
        and_then-Genuine {R = R} {Q = Q} {E = E} f k w (m w s).0 (m w s).1 (t.run w s p)
          (t.sound w s p g);
  }

module _ {A : Type 0} {P : Core → Type 0} {Q : A → Core → Type 0}
    {E : Exception → Core → Type 0} where
  pub give : (a : A) → ((c : Core) → P c → Q a c) → Triple P (pure a) Q E
  unfolding pure
  give a h = record { run = λ w s p. h (core_of s) p; sound = λ w s p g. g }

  pub fail : (e : Exception) → ((c : Core) → P c → E e c) → Triple P (throw e) Q E
  unfolding throw
  fail e h = record { run = λ w s p. h (core_of s) p; sound = λ w s p g. g }

  pub strengthen :
      {P' : Core → Type 0} {m : M A} → ((c : Core) → P' c → P c) → Triple P m Q E → Triple P' m Q E
  strengthen h t = record {
    run = λ w s p. t.run w s (h (core_of s) p);
    sound = λ w s p. t.sound w s (h (core_of s) p);
  }

  pub weaken :
      {Q' : A → Core → Type 0} {m : M A}
      → ((a : A) (c : Core) → Q a c → Q' a c)
      → Triple P m Q E
      → Triple P m Q' E
  weaken {Q'} {m} h t = record {
    run = λ w s p. Post_mono Q Q' E (m w s).0 (core_of (m w s).1) h (t.run w s p);
    sound = t.sound;
  }

  -- Whatever is raised.
  pub forget : {m : M A} → Triple P m Q E → Triple P m Q (λ _ _. Unit {0})
  forget {m} t = record {
    run = λ w s p. forget-Post Q E (m w s).0 (core_of (m w s).1) (t.run w s p);
    sound = t.sound;
  }

  -- What the precondition shows whatever the state is.
  pub knowing :
      {X : Type 0} {m : M A} → ((c : Core) → P c → X) → (X → Triple P m Q E) → Triple P m Q E
  knowing h t = record {
    run = λ w s p. (t (h (core_of s) p)).run w s p;
    sound = λ w s p. (t (h (core_of s) p)).sound w s p;
  }

  -- A condition that is decided before the branch begins.
  pub branch :
      {x y : M A} (b : Bool)
      → (b ≡ true → Triple P x Q E)
      → (b ≡ false → Triple P y Q E)
      → Triple P (if b then x else y) Q E
  branch true t f = t refl
  branch false t f = f refl

module _ {P : Core → Type 0} {E : Exception → Core → Type 0} where
  pub read : Triple P get (λ s c. (core_of s ≡ c) × P c) E
  unfolding get
  read = record { run = λ w s p. (refl, p); sound = λ w s p g. g }

  pub skim : Triple P get (λ _. P) E
  unfolding get
  skim = record { run = λ w s p. p; sound = λ w s p g. g }

  pub note : (name : String) → Triple P (patched name) (λ _. P) E
  unfolding patched
  note name = record { run = λ w s p. p; sound = λ w s p g. g }

  -- Statements that leave the core alone.
  pub change :
      (f : State → State)
      → ((s : State) → core_of (f s) ≡ core_of s)
      → ((w : World) (s : State) → Genuine w s → Genuine w (f s))
      → Triple P (modify f) (λ _. P) E
  unfolding modify
  change f h k = record { run = λ w s p. subst P (sym (h s)) p; sound = λ w s p g. k w s g }

  pub change_to :
      {Q : Core → Type 0} (f : State → State)
      → ((s : State) → P (core_of s) → Q (core_of (f s)))
      → ((w : World) (s : State) → Genuine w s → Genuine w (f s))
      → Triple P (modify f) (λ _. Q) E
  unfolding modify
  change_to f h k = record { run = λ w s p. h s p; sound = λ w s p g. k w s g }

  pub log_event :
      {Q : Core → Type 0} (e : Event)
      → ((c : Core) → P c → Q (record c { log = e ∷ c.log }))
      → ((log : List Event) → decisions (e ∷ log) ≡ decisions log)
      → Triple P (emit e) (λ _. Q) E
  unfolding emit
  log_event e h n = record {
    run = λ w s p. h (core_of s) p;
    sound = λ w s p g. subst (IsGenuine w s.approvals s.processed_approval_ids) (sym (n s.log)) g;
  }

-- Exceptions that come from the surroundings or from what they hand over, and not from the order in
-- which the workflow takes its own steps.
abbrev pub is_external : Exception → Bool
is_external (Exception.invalid_transition current new) = false
is_external Exception.out_of_rounds = false
is_external _ = true

answered-Post :
    {A : Type 0} (P : Core → Type 0) (E : Exception → Core → Type 0) (a : Answer A) (c : Core)
    → ((e : Exception) → is_external e ≡ true → E e c)
    → P c
    → Post (λ _. P) E (answered a) c
answered-Post P E (done a) c h p = p
answered-Post P E (failed f) c h p = h (activity_error f) refl
answered-Post P E cancelled c h p = h cancelled_error refl

module _ {P : Core → Type 0} {E : Exception → Core → Type 0}
    (raises : (e : Exception) (c : Core) → is_external e ≡ true → P c → E e c) where
  -- An activity leaves the core alone, however it ends.
  pub act : {A : Type 0} (call : World → ℕ → Answer A) → Triple P (activity call) (λ _. P) E
  unfolding activity
  act call = record {
    run = λ w s p.
        let c = deliver-core (w.inbox s.awaits) (record s { awaits = s.awaits + 1 }) in
        subst (Post (λ _. P) E (answered (call w s.awaits))) (sym c)
          (answered-Post P E (call w s.awaits) (core_of s) (λ e x. raises e (core_of s) x p) p);
    sound = λ w s p g.
        deliver-Genuine w (w.inbox s.awaits) (record s { awaits = s.awaits + 1 })
          (inbox-IsSent w s.awaits) g;
  }

  pub need :
      {A : Type 0} (o : Option A) (e : Exception)
      → is_external e ≡ true
      → Triple P (require o e) (λ _. P) E
  unfolding require
  need none e x = record { run = λ w s p. raises e (core_of s) x p; sound = λ w s p g. g }
  need (some a) e x = record { run = λ w s p. p; sound = λ w s p g. g }

  pub need_eq :
      {A : Type 0} (o : Option A) (e : Exception)
      → is_external e ≡ true
      → Triple P (require o e) (λ a c. (o ≡ some a) × P c) E
  unfolding require
  need_eq none e x = record { run = λ w s p. raises e (core_of s) x p; sound = λ w s p g. g }
  need_eq (some a) e x = record { run = λ w s p. (refl, p); sound = λ w s p g. g }

-- ===== src/Run/Requests.antt =====
-- Where the approvals come from that a run of src/repopilot/workflows/code_repair.py keeps and uses.
use acoding_agent.Prelude.{
  ℕ, ◌≡◌, refl, subst, true, false, Option, none, some, List, [], ◌∷◌, All, ◌==◌, arith, ◌⊎◌, inl,
  inr, Bool-cases,
}
use acoding_agent.Run.Approvals.{
  ApprovalKind, same_kind, ApprovalRequest, contains, Refusal, validate_approval,
}
use acoding_agent.Run.World.{World}
use acoding_agent.Run.Monad.{
  State, Event, projected, decided, verified, reviewed, initial, deliver, submit_approval,
  lookup_approval, remove_approval,
}

pub data IsAmong {A : Type 0} (a : A) : List A → Type 0 where
  first : {xs : List A} → IsAmong a (a ∷ xs)
  later : {x : A} {xs : List A} → IsAmong a xs → IsAmong a (x ∷ xs)

-- Whether somebody has sent the request to the run: it is an update during an activity or a wait.
abbrev pub IsSent : World → ApprovalRequest → Type 0
IsSent w a =
    (n : ℕ) × (IsAmong a (w.inbox n)
      ⊎ ((us : List ApprovalRequest) × IsAmong us (w.wakeups n) × IsAmong a us))

abbrev pub Entry : Type 0
Entry = ApprovalKind × ApprovalRequest

-- The requests that the run has used, with the kind that it waited for.
abbrev pub decisions : List Event → List Entry
decisions [] = []
decisions (decided k a ∷ log) = (k, a) ∷ decisions log
decisions (projected e ∷ log) = decisions log
decisions (verified b ∷ log) = decisions log
decisions (reviewed v ∷ log) = decisions log

-- An entry with a request of its kind that was sent and whose id is processed.
abbrev pub IsReceived : World → List ℕ → Entry → Type 0
IsReceived w processed (k, a) =
    (a.kind ≡ k) × IsSent w a × (contains a.approval_id processed ≡ true)

-- No entry has the id of this one.
abbrev pub IsApart : Entry → List Entry → Type 0
IsApart x = All (λ y. (y.1.approval_id == x.1.approval_id) ≡ false)

abbrev pub AllApart : List Entry → Type 0
AllApart [] = Unit {0}
AllApart (x ∷ xs) = IsApart x xs × AllApart xs

-- The approvals that wait and the used ones have been sent, each for its kind, and no two have the
-- same id.
pub record IsGenuine (w : World) (approvals : List Entry) (processed : List ℕ) (used : List Entry)
    : Type 0 where
  pub received : All (IsReceived w processed) approvals
  pub used_received : All (IsReceived w processed) used
  pub apart : AllApart approvals
  pub used_apart : AllApart used
  pub unused : All (λ x. IsApart x used) approvals

abbrev pub Genuine : World → State → Type 0
Genuine w s = IsGenuine w s.approvals s.processed_approval_ids (decisions s.log)

pub initial-Genuine : (w : World) → Genuine w initial
initial-Genuine w = record {
  received = tt;
  used_received = tt;
  apart = tt;
  used_apart = tt;
  unused = tt;
}

All-map :
    {A : Type 0} {X Y : A → Type 0} (xs : List A) → ((x : A) → X x → Y x) → All X xs → All Y xs
All-map [] f h = tt
All-map (x ∷ xs) f (h, hs) = (f x h, All-map xs f hs)

pub All-from :
    {A : Type 0} {X : A → Type 0} (xs : List A) → ((x : A) → IsAmong x xs → X x) → All X xs
All-from [] f = tt
All-from (x ∷ xs) f = (f x (first), All-from xs (λ y m. f y (later m)))

pub same_kind-eq : (j k : ApprovalKind) → same_kind j k ≡ true → j ≡ k
same_kind-eq j k h = ground arith

pub All-remove :
    (X : Entry → Type 0) (k : ApprovalKind) (xs : List Entry)
    → All X xs
    → All X (remove_approval k xs)
All-remove X k [] h = tt
All-remove X k ((j, a) ∷ xs) (h, hs) = elim (Bool-cases (same_kind j k)) [
  | inl same ↦ rw (same) (All-remove X k xs hs)
  | inr other ↦ rw (other) (h, All-remove X k xs hs)
]

pub AllApart-remove :
    (k : ApprovalKind) (xs : List Entry) → AllApart xs → AllApart (remove_approval k xs)
AllApart-remove k [] h = tt
AllApart-remove k ((j, a) ∷ xs) (h, hs) = elim (Bool-cases (same_kind j k)) [
  | inl same ↦ rw (same) (AllApart-remove k xs hs)
  | inr other ↦ rw (other) (All-remove _ k xs h, AllApart-remove k xs hs)
]

-- What holds for all entries holds for the one that is found.
pub All-lookup :
    (X : Entry → Type 0) (k : ApprovalKind) (a : ApprovalRequest) (xs : List Entry)
    → lookup_approval k xs ≡ some a
    → All X xs
    → X (k, a)
All-lookup X k a [] e h = cc
All-lookup X k a ((j, b) ∷ xs) e (h, hs) = elim (Bool-cases (same_kind j k)) [
  | inl same ↦
      let kinds = same_kind-eq j k same in
      let found : b ≡ a = ground (arith, e, same) in
      subst (λ c. X (k, c)) found (subst (λ i. X (i, b)) kinds h)
  | inr other ↦ All-lookup X k a xs (ground (arith, e, other)) hs
]

-- The others have other ids than the entry that is found.
pub lookup-IsApart :
    (k : ApprovalKind) (a : ApprovalRequest) (xs : List Entry)
    → lookup_approval k xs ≡ some a
    → AllApart xs
    → IsApart (k, a) (remove_approval k xs)
lookup-IsApart k a [] e h = tt
lookup-IsApart k a ((j, b) ∷ xs) e (h, hs) = elim (Bool-cases (same_kind j k)) [
  | inl same ↦
      let found : b ≡ a = ground (arith, e, same) in
      rw (same) (subst (λ c. IsApart (k, c) (remove_approval k xs)) found (All-remove _ k xs h))
  | inr other ↦
      let e' : lookup_approval k xs ≡ some a = ground (arith, e, other) in
      rw (other) (
        ground (arith, All-lookup (λ y. (y.1.approval_id == b.approval_id) ≡ false) k a xs e' h),
        lookup-IsApart k a xs e' hs,
      )
]

-- An accepted request is not processed yet.
validated-fresh :
    (a : ApprovalRequest) (s : State)
    → validate_approval a s.status s.processed_approval_ids ≡ none
    → contains a.approval_id s.processed_approval_ids ≡ false
unfolding validate_approval
validated-fresh a s h = ground (arith, h)

-- A new id is none of the processed ones.
apart_from_processed :
    (w : World) (a : ApprovalRequest) (processed : List ℕ)
    → contains a.approval_id processed ≡ false
    → (x : Entry) → IsReceived w processed x
    → (x.1.approval_id == a.approval_id) ≡ false
apart_from_processed w a processed new (k, b) (kind, sent, known) =
    elim (Bool-cases (b.approval_id == a.approval_id)) [
      | inl same ↦
          let e : b.approval_id ≡ a.approval_id = ground arith in
          absurd (ground (arith, subst (λ i. contains i processed ≡ true) e known, new))
      | inr other ↦ other
    ]

IsReceived-later :
    (w : World) (id : ℕ) (processed : List ℕ) (xs : List Entry)
    → All (IsReceived w processed) xs
    → All (IsReceived w (id ∷ processed)) xs
IsReceived-later w id processed xs h =
    All-map xs (λ x (kind, sent, known). (kind, sent, ground (arith, known))) h

submit_approval-Genuine :
    (w : World) (a : ApprovalRequest) (s : State)
    → IsSent w a
    → Genuine w s
    → Genuine w (submit_approval a s)
unfolding submit_approval
submit_approval-Genuine w a s sent g =
    go (validate_approval a s.status s.processed_approval_ids) refl
  where
    go :
        (o : Option Refusal)
        → validate_approval a s.status s.processed_approval_ids ≡ o
        → Genuine w (submit_approval a s)
    go (some refusal) e = rw (e, submit_approval) g
    go none e =
        let fresh = apart_from_processed w a s.processed_approval_ids (validated-fresh a s e) in
        let id = a.approval_id in
        rw (e, submit_approval)
          (record {
            received = (
              (refl, sent, ground arith),
              IsReceived-later w id _ _ (All-remove _ a.kind s.approvals g.received),
            );
            used_received = IsReceived-later w id _ _ g.used_received;
            apart = (
              All-remove _ a.kind s.approvals (All-map s.approvals fresh g.received),
              AllApart-remove a.kind s.approvals g.apart,
            );
            used_apart = g.used_apart;
            unused = (
              All-map (decisions s.log) fresh g.used_received,
              All-remove _ a.kind s.approvals g.unused,
            );
          })

pub deliver-Genuine :
    (w : World) (us : List ApprovalRequest) (s : State)
    → All (IsSent w) us
    → Genuine w s
    → Genuine w (deliver us s)
unfolding deliver
deliver-Genuine w [] s sent g = g
deliver-Genuine w (u ∷ us) s (sent, rest) g =
    deliver-Genuine w us (submit_approval u s) rest (submit_approval-Genuine w u s sent g)

pub inbox-IsSent : (w : World) (n : ℕ) → All (IsSent w) (w.inbox n)
inbox-IsSent w n = All-from (w.inbox n) (λ a m. (n, inl m))

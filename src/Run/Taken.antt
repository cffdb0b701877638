-- ===== src/Run/Taken.antt =====
-- The waits for approvals of src/repopilot/workflows/code_repair.py: each takes a request that was sent,
-- and no request is used twice.
use acoding_agent.Prelude.{◌+◌, ◌≡◌, refl, Option, none, some, List, [], ◌∷◌, All, arith, inr}
use acoding_agent.Run.Approvals.{ApprovalKind, ApprovalRequest}
use acoding_agent.Run.World.{World}
use acoding_agent.Run.Monad.{
  State, decided, Result, return, raise, deliver, lookup_approval, remove_approval,
}
use acoding_agent.Run.Workflow.{wait_condition, await_approval}
use acoding_agent.Run.Requests.{
  IsSent, Entry, decisions, IsReceived, IsApart, Genuine, All-from, All-remove, AllApart-remove,
  All-lookup, lookup-IsApart, deliver-Genuine,
}

-- A request that a wait has taken may be used.
abbrev CanUse : World → ApprovalKind → ApprovalRequest → State → Type 0
CanUse w k a s =
    IsReceived w s.processed_approval_ids (k, a)
    × IsApart (k, a) (decisions s.log)
    × IsApart (k, a) s.approvals

-- What a wait leaves.
abbrev pub IsTaken : World → ApprovalKind → Result ApprovalRequest → State → Type 0
IsTaken w k (return a) s = Genuine w s × CanUse w k a s
IsTaken w k (raise e) s = Genuine w s

take-IsTaken :
    (w : World) (k : ApprovalKind) (a : ApprovalRequest) (s : State)
    → lookup_approval k s.approvals ≡ some a
    → Genuine w s
    → IsTaken w k (return a) (record s { approvals = remove_approval k s.approvals })
take-IsTaken w k a s e g = (
  record {
    received = All-remove _ k s.approvals g.received;
    used_received = g.used_received;
    apart = AllApart-remove k s.approvals g.apart;
    used_apart = g.used_apart;
    unused = All-remove _ k s.approvals g.unused;
  },
  (
    All-lookup (IsReceived w s.processed_approval_ids) k a s.approvals e g.received,
    All-lookup (λ x. IsApart x (decisions s.log)) k a s.approvals e g.unused,
    lookup-IsApart k a s.approvals e g.apart,
  ),
)

wait_condition-IsTaken :
    (w : World) (k : ApprovalKind) (us : List (List ApprovalRequest)) (s : State)
    → All (All (IsSent w)) us
    → Genuine w s
    → let r = wait_condition k us s in IsTaken w k r.0 r.1
unfolding wait_condition
wait_condition-IsTaken w k [] s sent g = go (lookup_approval k s.approvals) refl
  where
    go :
        (o : Option ApprovalRequest)
        → lookup_approval k s.approvals ≡ o
        → let r = wait_condition k [] s in IsTaken w k r.0 r.1
    go none e = rw (e, wait_condition) g
    go (some a) e = rw (e, wait_condition) (take-IsTaken w k a s e g)
wait_condition-IsTaken w k (u ∷ us) s (sent, rest) g =
    go (lookup_approval k s.approvals) refl
      (wait_condition-IsTaken w k us (deliver u s) rest (deliver-Genuine w u s sent g))
  where
    go :
        (o : Option ApprovalRequest)
        → lookup_approval k s.approvals ≡ o
        → (let r = wait_condition k us (deliver u s) in IsTaken w k r.0 r.1)
        → let r = wait_condition k (u ∷ us) s in IsTaken w k r.0 r.1
    go none e end = rw (e, wait_condition) end
    go (some a) e end = rw (e, wait_condition) (take-IsTaken w k a s e g)

pub await_approval-IsTaken :
    (w : World) (k : ApprovalKind) (s : State)
    → Genuine w s
    → let r = await_approval k w s in IsTaken w k r.0 r.1
unfolding await_approval
await_approval-IsTaken w k s g =
    wait_condition-IsTaken w k (w.wakeups s.awaits) (record s { awaits = s.awaits + 1 })
      (All-from (w.wakeups s.awaits) (λ us m. All-from us (λ a m'. (s.awaits, inr (us, m, m'))))) g

also-IsApart :
    (k : ApprovalKind) (a : ApprovalRequest) (used xs : List Entry)
    → IsApart (k, a) xs
    → All (λ x. IsApart x used) xs
    → All (λ x. IsApart x ((k, a) ∷ used)) xs
also-IsApart k a used [] h g = tt
also-IsApart k a used (x ∷ xs) (h, hs) (g, gs) = ((ground arith, g), also-IsApart k a used xs hs gs)

-- A request that may be used is used once.
pub use-Genuine :
    (w : World) (k : ApprovalKind) (a : ApprovalRequest) (s : State)
    → Genuine w s
    → CanUse w k a s
    → Genuine w (record s { log = decided k a ∷ s.log })
use-Genuine w k a s g (received, new, others) = record {
  received = g.received;
  used_received = (received, g.used_received);
  apart = g.apart;
  used_apart = (new, g.used_apart);
  unused = also-IsApart k a (decisions s.log) s.approvals others g.unused;
}

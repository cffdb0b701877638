-- ===== src/Run/Monad.antt =====
-- The workflow object of src/repopilot/workflows/code_repair.py and its statements: they read the
-- world, change the object and may raise.
use acoding_agent.Prelude.{ℕ, ◌+◌, String, Bool, Option, none, some, List, [], ◌∷◌, if◌then◌else◌}
use acoding_agent.Domain.Enums.{RunStatus}
use acoding_agent.Run.Approvals.{ApprovalKind, same_kind, ApprovalRequest, validate_approval}
use acoding_agent.Run.World.{
  ArtifactRef, FailureType, Answer, done, failed, cancelled, ProjectionEvent, Verdict, World,
}

-- What the run does that its surroundings see, for the statements about its order.
pub data Event : Type 0 where
  projected : ProjectionEvent → Event
  decided : ApprovalKind → ApprovalRequest → Event
  verified : Bool → Event
  reviewed : Verdict → Event

pub record State : Type 0 where
  pub status : RunStatus
  pub processed_approval_ids : List ℕ
  pub approvals : List (ApprovalKind × ApprovalRequest)
  pub base_revision : Option String
  pub projection_sequence : ℕ
  pub started_at : Option ℕ
  pub repository_url : String
  pub final_revision : Option String
  pub patch_ref : Option ArtifactRef
  pub verification_ref : Option ArtifactRef
  pub review_ref : Option ArtifactRef
  pub repair_rounds : ℕ
  pub awaits : ℕ
  pub log : List Event

-- `__init__`
abbrev pub initial : State
initial = record {
  status = RunStatus.queued;
  processed_approval_ids = [];
  approvals = [];
  base_revision = none;
  projection_sequence = 0;
  started_at = none;
  repository_url = "";
  final_revision = none;
  patch_ref = none;
  verification_ref = none;
  review_ref = none;
  repair_rounds = 0;
  awaits = 0;
  log = [];
}

pub data Exception : Type 0 where
  cancelled_error : Exception
  activity_error : FailureType → Exception
  invalid_transition : (current new : RunStatus) → Exception
  assertion_error key_error runtime_error : Exception
  -- No exception of the program: the bound on the repair loop would be too small.
  out_of_rounds : Exception

pub data Result (A : Type 0) : Type 0 where
  return : A → Result A
  raise : Exception → Result A

abbrev pub M : Type 0 → Type 0
M A = World → State → Result A × State

abbrev pub and_then : {A B : Type 0} → (A → M B) → World → Result A → State → Result B × State
and_then f w (return a) s = f a w s
and_then f w (raise e) s = (raise e, s)

infixl 5 ◌>>=◌ ◌>>◌
unfoldable pub ◌>>=◌ : {A B : Type 0} → M A → (A → M B) → M B
◌>>=◌ m f w s = let r = m w s in and_then f w r.0 r.1

abbrev pub ◌>>◌ : {A B : Type 0} → M A → M B → M B
m >> n = m >>= λ _. n

unfoldable pub pure : {A : Type 0} → A → M A
pure a w s = (return a, s)

unfoldable pub throw : {A : Type 0} → Exception → M A
throw e w s = (raise e, s)

unfoldable pub get : M State
get w s = (return s, s)

unfoldable pub modify : (State → State) → M (Unit {0})
modify f w s = (return tt, f s)

unfoldable pub emit : Event → M (Unit {0})
emit e w s = (return tt, record s { log = e ∷ s.log })

unfoldable pub patched : String → M Bool
patched name w s = (return (w.patched name), s)

unfoldable pub require : {A : Type 0} → Option A → Exception → M A
require none e w s = (raise e, s)
require (some a) e w s = (return a, s)

-- `self._approvals[kind] = request`: the latest stands first.
abbrev pub lookup_approval :
    ApprovalKind → List (ApprovalKind × ApprovalRequest) → Option ApprovalRequest
lookup_approval k [] = none
lookup_approval k ((j, a) ∷ rest) = if same_kind j k then some a else lookup_approval k rest

abbrev pub remove_approval :
    ApprovalKind → List (ApprovalKind × ApprovalRequest) → List (ApprovalKind × ApprovalRequest)
remove_approval k [] = []
remove_approval k ((j, a) ∷ rest) =
    if same_kind j k then remove_approval k rest else (j, a) ∷ remove_approval k rest

-- `submit_approval`: a refused update changes nothing.
unfoldable pub submit_approval : ApprovalRequest → State → State
submit_approval request s = elim (validate_approval request s.status s.processed_approval_ids) [
  | some refusal ↦ s
  | none ↦ record s {
    processed_approval_ids = request.approval_id ∷ s.processed_approval_ids;
    approvals = (request.kind, request) ∷ remove_approval request.kind s.approvals;
  }
]

unfoldable pub deliver : List ApprovalRequest → State → State
deliver [] s = s
deliver (u ∷ us) s = deliver us (submit_approval u s)

abbrev pub answered : {A : Type 0} → Answer A → Result A
answered (done a) = return a
answered (failed f) = raise (activity_error f)
answered cancelled = raise cancelled_error

-- An awaited activity: updates are handled meanwhile.
unfoldable pub activity : {A : Type 0} → (World → ℕ → Answer A) → M A
activity call w s =
    (answered (call w s.awaits), deliver (w.inbox s.awaits) (record s { awaits = s.awaits + 1 }))

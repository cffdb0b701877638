-- ===== src/Run/Approvals.antt =====
-- src/repopilot/workflows/updates.py: which approvals a run accepts.
use acoding_agent.Prelude.{
  ℕ, Bool, true, false, ◌&&◌, ◌||◌, not, String, Option, none, some, List, any, all, is_empty, leb,
  ◌==◌, if◌then◌else◌,
}
use acoding_agent.Domain.Enums.{RunStatus, same_status}

pub data ApprovalKind : Type 0 where
  requirements plan execution test delivery : ApprovalKind

abbrev pub same_kind : ApprovalKind → ApprovalKind → Bool
same_kind requirements requirements = true
same_kind plan plan = true
same_kind execution execution = true
same_kind test test = true
same_kind delivery delivery = true
same_kind _ _ = false

pub data Decision : Type 0 where
  approve reject : Decision

abbrev pub is_reject : Decision → Bool
is_reject approve = false
is_reject reject = true

-- The reason is held as its code points.
pub record ApprovalRequest : Type 0 where
  pub approval_id : ℕ
  pub kind : ApprovalKind
  pub decision : Decision
  pub actor_id : String
  pub reason : List ℕ
  pub replacement_acceptance_criteria : Option (List String)

-- `_EXPECTED_STATUS_BY_KIND`
abbrev pub expected_status : ApprovalKind → RunStatus
expected_status requirements = RunStatus.waiting_requirements_approval
expected_status plan = RunStatus.waiting_plan_approval
expected_status execution = RunStatus.waiting_execution_approval
expected_status test = RunStatus.waiting_test_approval
expected_status delivery = RunStatus.waiting_delivery_approval

-- The characters that `str.strip` removes.
abbrev pub is_space : ℕ → Bool
is_space c =
    (leb 9 c && leb c 13)
    || (leb 28 c && leb c 32)
    || c == 0x85
    || c == 0xa0
    || c == 0x1680
    || (leb 0x2000 c && leb c 0x200a)
    || c == 0x2028
    || c == 0x2029
    || c == 0x202f
    || c == 0x205f
    || c == 0x3000

-- `not text.strip()`
unfoldable pub is_blank : List ℕ → Bool
is_blank text = all is_space text

-- `not criteria`
abbrev pub is_missing : Option (List String) → Bool
is_missing none = true
is_missing (some criteria) = is_empty criteria

abbrev pub contains : ℕ → List ℕ → Bool
contains x xs = any (λ y. x == y) xs

-- The reasons of an `ApprovalRejected`.
pub data Refusal : Type 0 where
  already_processed wrong_status no_reason no_criteria no_waiver : Refusal

-- `none` is the normal return.
unfoldable pub validate_approval : ApprovalRequest → RunStatus → List ℕ → Option Refusal
unfolding same_status is_blank
validate_approval request current processed =
    if contains request.approval_id processed
    then some already_processed
    else if not (same_status current (expected_status request.kind))
    then some wrong_status
    else if is_reject request.decision && is_blank request.reason
    then some no_reason
    else if same_kind request.kind requirements
        && not (is_reject request.decision)
        && is_missing request.replacement_acceptance_criteria
    then some no_criteria
    else if same_kind request.kind test
        && not (is_reject request.decision)
        && is_blank request.reason
    then some no_waiver
    else none

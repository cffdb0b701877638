-- ===== src/Run/Transitions.antt =====
-- src/repopilot/workflows/transitions.py: which changes of a run's status are legal.
use acoding_agent.Prelude.{◌≡◌, Bool, true, false, ◌&&◌, not, List, [], ◌∷◌, any, if◌then◌else◌}
use acoding_agent.Domain.Enums.{RunStatus, same_status, is_terminal}

-- `_FORWARD_EDGES`
abbrev pub forward_edges : List (RunStatus × RunStatus)
forward_edges =
    (RunStatus.queued, RunStatus.ingesting)
    ∷ (RunStatus.ingesting, RunStatus.waiting_requirements_approval)
    ∷ (RunStatus.ingesting, RunStatus.baselining)
    ∷ (RunStatus.waiting_requirements_approval, RunStatus.baselining)
    ∷ (RunStatus.baselining, RunStatus.waiting_test_approval)
    ∷ (RunStatus.baselining, RunStatus.planning)
    ∷ (RunStatus.waiting_test_approval, RunStatus.planning)
    ∷ (RunStatus.waiting_test_approval, RunStatus.waiting_execution_approval)
    ∷ (RunStatus.waiting_test_approval, RunStatus.executing)
    ∷ (RunStatus.planning, RunStatus.waiting_plan_approval)
    ∷ (RunStatus.planning, RunStatus.designing_tests)
    ∷ (RunStatus.waiting_plan_approval, RunStatus.designing_tests)
    ∷ (RunStatus.designing_tests, RunStatus.waiting_execution_approval)
    ∷ (RunStatus.waiting_execution_approval, RunStatus.executing)
    ∷ (RunStatus.designing_tests, RunStatus.waiting_test_approval)
    ∷ (RunStatus.designing_tests, RunStatus.executing)
    ∷ (RunStatus.executing, RunStatus.verifying)
    ∷ (RunStatus.executing, RunStatus.replanning)
    ∷ (RunStatus.replanning, RunStatus.planning)
    ∷ (RunStatus.verifying, RunStatus.replanning)
    ∷ (RunStatus.reviewing, RunStatus.replanning)
    ∷ (RunStatus.planning, RunStatus.executing)
    ∷ (RunStatus.waiting_plan_approval, RunStatus.executing)
    ∷ (RunStatus.planning, RunStatus.waiting_execution_approval)
    ∷ (RunStatus.waiting_plan_approval, RunStatus.waiting_execution_approval)
    ∷ (RunStatus.verifying, RunStatus.reviewing)
    ∷ (RunStatus.verifying, RunStatus.executing)
    ∷ (RunStatus.reviewing, RunStatus.waiting_delivery_approval)
    ∷ (RunStatus.reviewing, RunStatus.executing)
    ∷ (RunStatus.waiting_delivery_approval, RunStatus.finalizing)
    ∷ []

-- `_FINALIZING_TARGETS`
abbrev pub finalizing_targets : List RunStatus
finalizing_targets =
    RunStatus.succeeded ∷ RunStatus.rejected ∷ RunStatus.failed ∷ RunStatus.cancelled ∷ []

-- Whether `validate_transition` returns; else it raises `InvalidRunStatusTransition`.
unfoldable pub validate_transition : RunStatus → RunStatus → Bool
unfolding same_status
validate_transition current new =
    if is_terminal current
    then false
    else if same_status new RunStatus.finalizing
    then not (same_status current RunStatus.finalizing)
    else if same_status current RunStatus.finalizing
    then any (same_status new) finalizing_targets
    else any (λ (a, b). same_status current a && same_status new b) forward_edges

-- The statuses that a run went through, the latest first: each was reached by a legal transition.
pub data History : RunStatus → List RunStatus → Type 0 where
  start : History RunStatus.queued []
  step :
      {a : RunStatus} {past : List RunStatus} (b : RunStatus)
      → History a past
      → validate_transition a b ≡ true
      → History b (a ∷ past)

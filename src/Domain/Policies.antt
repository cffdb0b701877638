-- ===== src/Domain/Policies.antt =====
-- src/repopilot/domain/policies.py: from risk flags to a risk level, and from a level to the stages
-- that a person has to approve.
use acoding_agent.Prelude.{Bool, true, false, Option, none, some, List, any, if◌then◌else◌}
use acoding_agent.Domain.Enums.{
  RiskFlag, RiskLevel, low, medium, high, ApprovalMode, automatic, manual,
}

-- `_HIGH_RISK_FLAGS` and `_MEDIUM_RISK_FLAGS`, as tests of membership.
abbrev pub is_high_risk : RiskFlag → Bool
is_high_risk RiskFlag.auth_change = true
is_high_risk RiskFlag.migration = true
is_high_risk RiskFlag.prompt_injection_suspected = true
is_high_risk _ = false

abbrev pub is_medium_risk : RiskFlag → Bool
is_medium_risk RiskFlag.dependency_change = true
is_medium_risk RiskFlag.ci_config = true
is_medium_risk RiskFlag.large_scope = true
is_medium_risk RiskFlag.unclear_acceptance_criteria = true
is_medium_risk _ = false

unfoldable pub classify_risk : List RiskFlag → RiskLevel
classify_risk flags =
    if any is_high_risk flags then high else if any is_medium_risk flags then medium else low

pub record ApprovalStagePolicy : Type 0 where
  pub plan : ApprovalMode
  pub execution : ApprovalMode
  pub delivery : ApprovalMode

pub data ApprovalPolicyMode : Type 0 where
  risk_based custom_stages : ApprovalPolicyMode

pub record ApprovalPolicy : Type 0 where
  pub mode : ApprovalPolicyMode
  pub custom : Option ApprovalStagePolicy

-- `_custom_settings_match_mode`: whether the validator lets the policy be built.
unfoldable pub custom_settings_match_mode : ApprovalPolicyMode → Option ApprovalStagePolicy → Bool
custom_settings_match_mode custom_stages none = false
custom_settings_match_mode risk_based (some stages) = false
custom_settings_match_mode _ _ = true

pub data PolicySource : Type 0 where
  by_risk by_custom : PolicySource

pub record ResolvedApprovalPolicy : Type 0 where
  pub risk_level : RiskLevel
  pub stages : ApprovalStagePolicy
  pub source : PolicySource

-- The stages of the branch that is not `CUSTOM`.
abbrev pub stages_by_risk : RiskLevel → ApprovalStagePolicy
stages_by_risk low = record { plan = automatic; execution = automatic; delivery = automatic }
stages_by_risk medium = record { plan = manual; execution = automatic; delivery = automatic }
stages_by_risk high = record { plan = manual; execution = manual; delivery = automatic }

-- `none` is the failed `assert`.
unfoldable pub resolve_approval_policy : RiskLevel → ApprovalPolicy → Option ResolvedApprovalPolicy
resolve_approval_policy level policy = elim policy.mode [
  | custom_stages ↦ elim policy.custom [
    | none ↦ none
    | some stages ↦ some (record { risk_level = level; stages = stages; source = by_custom })
  ]
  | risk_based ↦
      some (record { risk_level = level; stages = stages_by_risk level; source = by_risk })
]

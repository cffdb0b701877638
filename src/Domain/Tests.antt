-- ===== src/Domain/Tests.antt =====
-- The theorems on risks and policies at small inputs, and the pattern of repository addresses.
use acoding_agent.Prelude.{
  ℕ, leb, Bool, ◌&&◌, codes, false, ◌≡◌, true, refl, [], ◌∷◌, ◌++◌, none, some, arith,
}
use acoding_agent.Domain.Enums.{RiskFlag, medium, high, manual}
use acoding_agent.Domain.Policies.{
  classify_risk, ApprovalPolicy, ResolvedApprovalPolicy, risk_based, resolve_approval_policy,
  custom_settings_match_mode,
}
use acoding_agent.Domain.Tasks.{is_github_url, ends_with_name, is_owner_and_name}
use acoding_agent.Domain.Risk.{max_level, classify_risk-append, resolve_approval_policy_mono}

classify_risk-append_example :
    classify_risk ((RiskFlag.ci_config ∷ []) ++ (RiskFlag.migration ∷ []))
    ≡ max_level (classify_risk (RiskFlag.ci_config ∷ [])) (classify_risk (RiskFlag.migration ∷ []))
classify_risk-append_example =
    classify_risk-append (RiskFlag.ci_config ∷ []) (RiskFlag.migration ∷ [])

abbrev by_level : ApprovalPolicy
by_level = record { mode = risk_based; custom = none }

valid : custom_settings_match_mode risk_based none ≡ true
unfolding custom_settings_match_mode
valid = refl

resolve_approval_policy_mono_example :
    (ra : ResolvedApprovalPolicy) × (rb : ResolvedApprovalPolicy) × (resolve_approval_policy medium
        by_level
      ≡ some ra)
    × (resolve_approval_policy high by_level ≡ some rb)
    × (ra.stages.plan ≡ manual → rb.stages.plan ≡ manual)
    × (ra.stages.execution ≡ manual → rb.stages.execution ≡ manual)
    × (ra.stages.delivery ≡ manual → rb.stages.delivery ≡ manual)
resolve_approval_policy_mono_example =
    resolve_approval_policy_mono medium high by_level valid (omega arith)

abbrev is_small_letter : ℕ → Bool
is_small_letter c = leb b'a' c && leb c b'z'

takes_address : is_github_url is_small_letter (codes "https://github.com/a/b.c") ≡ true
unfolding is_github_url ends_with_name is_owner_and_name
takes_address = refl

refuses_path : is_github_url is_small_letter (codes "https://github.com/a/b/c") ≡ false
unfolding is_github_url ends_with_name is_owner_and_name
refuses_path = refl

-- The dollar sign lets a line feed at the end pass.
takes_line_feed : is_github_url is_small_letter (codes "https://github.com/a/b" ++ (10 ∷ [])) ≡ true
unfolding is_github_url ends_with_name is_owner_and_name
takes_line_feed = refl

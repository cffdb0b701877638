-- ===== src/Domain/Risk.antt =====
-- The order of risk levels, and what the policies of src/repopilot/domain/policies.py do along it.
use acoding_agent.Prelude.{
  ℕ, ◌≤◌, ◌≡◌, refl, Bool, true, ◌||◌, Option, none, some, List, [], ◌∷◌, ◌++◌, any, if◌then◌else◌,
  arith, leb,
}
use acoding_agent.Domain.Enums.{RiskFlag, RiskLevel, low, medium, high, manual}
use acoding_agent.Domain.Policies.{
  classify_risk, is_high_risk, is_medium_risk, ApprovalStagePolicy, ApprovalPolicy,
  ResolvedApprovalPolicy, ApprovalPolicyMode, risk_based, custom_stages, by_risk, by_custom,
  stages_by_risk, resolve_approval_policy, custom_settings_match_mode,
}

-- `risk_order` of workflows/code_repair.py.
abbrev pub risk_order : RiskLevel → ℕ
risk_order low = 0
risk_order medium = 1
risk_order high = 2

-- The higher of two levels.
abbrev pub max_level : RiskLevel → RiskLevel → RiskLevel
max_level a b = if leb (risk_order a) (risk_order b) then b else a

any-append {ℓ} :
    {A : Type ℓ} (p : A → Bool) (xs ys : List A) → any p (xs ++ ys) ≡ (any p xs || any p ys)
any-append p [] ys = refl
any-append p (x ∷ xs) ys = ground (arith, any-append p xs ys)

-- The level of two groups of flags together is the higher of their levels: neither the order nor the
-- number of the flags counts, and further flags never lower the level.
pub classify_risk-append :
    (xs ys : List RiskFlag)
    → classify_risk (xs ++ ys) ≡ max_level (classify_risk xs) (classify_risk ys)
unfolding classify_risk
classify_risk-append xs ys =
    rw (any-append is_high_risk xs ys, any-append is_medium_risk xs ys) (ground arith)

stages_of_risk_mono :
    (a b : RiskLevel)
    → risk_order a ≤ risk_order b
    → let x = stages_by_risk a in
      let y = stages_by_risk b in
      (x.plan ≡ manual → y.plan ≡ manual)
      × (x.execution ≡ manual → y.execution ≡ manual)
      × (x.delivery ≡ manual → y.delivery ≡ manual)
stages_of_risk_mono low low h = (λ e. e, λ e. e, λ e. e)
stages_of_risk_mono a b h = ground arith

-- A policy that passes its validator always resolves, and at a higher level every stage that had to
-- be approved still has to be.
pub resolve_approval_policy_mono :
    (a b : RiskLevel) (policy : ApprovalPolicy)
    → custom_settings_match_mode policy.mode policy.custom ≡ true
    → risk_order a ≤ risk_order b
    → (ra : ResolvedApprovalPolicy) × (rb : ResolvedApprovalPolicy) × (resolve_approval_policy a
          policy
        ≡ some ra)
      × (resolve_approval_policy b policy ≡ some rb)
      × (ra.stages.plan ≡ manual → rb.stages.plan ≡ manual)
      × (ra.stages.execution ≡ manual → rb.stages.execution ≡ manual)
      × (ra.stages.delivery ≡ manual → rb.stages.delivery ≡ manual)
unfolding resolve_approval_policy custom_settings_match_mode
resolve_approval_policy_mono a b policy v le = go policy.mode policy.custom refl refl v
  where
    go :
        (m : ApprovalPolicyMode) (c : Option ApprovalStagePolicy)
        → policy.mode ≡ m
        → policy.custom ≡ c
        → custom_settings_match_mode m c ≡ true
        → (ra : ResolvedApprovalPolicy) × (rb : ResolvedApprovalPolicy) × (resolve_approval_policy a
              policy
            ≡ some ra)
          × (resolve_approval_policy b policy ≡ some rb)
          × (ra.stages.plan ≡ manual → rb.stages.plan ≡ manual)
          × (ra.stages.execution ≡ manual → rb.stages.execution ≡ manual)
          × (ra.stages.delivery ≡ manual → rb.stages.delivery ≡ manual)
    go custom_stages none em ec v = cc
    go custom_stages (some stages) em ec v = (
      record { risk_level = a; stages = stages; source = by_custom },
      record { risk_level = b; stages = stages; source = by_custom },
      ground arith,
      ground arith,
      λ e. e,
      λ e. e,
      λ e. e,
    )
    go risk_based (some stages) em ec v = cc
    go risk_based none em ec v =
        let (p, e, d) = stages_of_risk_mono a b le in
        (
          record { risk_level = a; stages = stages_by_risk a; source = by_risk },
          record { risk_level = b; stages = stages_by_risk b; source = by_risk },
          ground arith,
          ground arith,
          p,
          e,
          d,
        )

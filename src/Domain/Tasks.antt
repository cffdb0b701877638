-- ===== src/Domain/Tasks.antt =====
-- The request for a run, of src/repopilot/domain/tasks.py, with its parts of domain/policies.py and the
-- validators that let it be built. Money is counted in parts of a dollar.
use acoding_agent.Prelude.{
  ℕ, ◌*◌, ◌==◌, leb, ltb, Bool, true, false, ◌&&◌, ◌||◌, not, Option, none, some, List, [], ◌∷◌,
  any, all, is_empty, length, Text, codes, starts_with, drop, if◌then◌else◌,
}
use acoding_agent.Domain.Enums.{RiskLevel}
use acoding_agent.Domain.Policies.{ApprovalPolicy, custom_settings_match_mode}

pub record RepositoryInput : Type 0 where
  pub url : Text
  pub revision : Option Text

pub record BudgetInput : Type 0 where
  pub max_cost_usd : ℕ
  pub max_wall_time_seconds : ℕ
  pub max_model_calls : ℕ
  pub max_sandbox_seconds : ℕ

-- The index is a constant.
pub record DependencyPolicy : Type 0 where
  pub allow_lockfile_read : Bool
  pub allow_cache : Bool
  pub allow_new_dependencies : Bool

pub data QaCheck : Type 0 where
  acceptance_tests targeted_tests scope_check : QaCheck

-- The level is a constant.
pub record QaPolicy : Type 0 where
  pub required : List QaCheck

pub record CreateRunRequest : Type 0 where
  pub repository : RepositoryInput
  pub requirement : Text
  pub acceptance_criteria : Option (List Text)
  pub budget : BudgetInput
  pub approval_policy : ApprovalPolicy
  pub dependency_policy : DependencyPolicy
  pub qa : QaPolicy
  pub risk_level : RiskLevel

-- `MAX_WALL_TIME_SECONDS`, `MAX_MODEL_CALLS` and `MAX_SANDBOX_SECONDS`
abbrev pub max_wall_time_seconds : ℕ
max_wall_time_seconds = 7200

abbrev pub max_model_calls : ℕ
max_model_calls = 100

abbrev pub max_sandbox_seconds : ℕ
max_sandbox_seconds = 3600

-- `Field(gt=0, le=limit)`
abbrev pub in_range : ℕ → ℕ → Bool
in_range limit n = ltb 0 n && leb n limit

-- The fields of `BudgetInput`; a dollar has `usd` parts, and `MAX_COST_USD` is 20 dollars.
abbrev pub is_valid_budget : (usd : ℕ) → BudgetInput → Bool
is_valid_budget usd b =
    in_range (20 * usd) b.max_cost_usd
    && in_range max_wall_time_seconds b.max_wall_time_seconds
    && in_range max_model_calls b.max_model_calls
    && in_range max_sandbox_seconds b.max_sandbox_seconds

-- `\w` of the regular expressions is a parameter.
module _ (is_word : ℕ → Bool) where
  -- `[\w.-]`
  abbrev pub is_name_char : ℕ → Bool
  is_name_char c = is_word c || c == b'.' || c == b'-'

  -- `[\w.-]+$`, with the dollar sign also before a line feed at the end; the test says whether a
  -- character was read.
  unfoldable pub ends_with_name : Bool → Text → Bool
  ends_with_name read [] = read
  ends_with_name read (c ∷ rest) =
      let further = ends_with_name true rest in
      if is_name_char c then further else read && c == 10 && is_empty rest

  -- `[\w.-]+/[\w.-]+$`
  unfoldable pub is_owner_and_name : Bool → Text → Bool
  unfolding ends_with_name
  is_owner_and_name read [] = false
  is_owner_and_name read (c ∷ rest) =
      let further = is_owner_and_name true rest in
      if is_name_char c then further else read && c == b'/' && ends_with_name false rest

  -- `_GITHUB_URL_RE`
  unfoldable pub is_github_url : Text → Bool
  unfolding is_owner_and_name
  is_github_url url =
      starts_with (codes "https://github.com/") url && is_owner_and_name false (drop 19 url)

-- `_validate_acceptance_criteria`
abbrev pub is_criterion : Text → Bool
is_criterion criterion = in_range 2000 (length criterion)

abbrev pub validate_acceptance_criteria : Option (List Text) → Bool
validate_acceptance_criteria none = true
validate_acceptance_criteria (some criteria) =
    leb (length criteria) 100 && all is_criterion criteria

abbrev pub fixed_security_baseline : DependencyPolicy → Bool
fixed_security_baseline policy = policy.allow_lockfile_read && policy.allow_cache

abbrev pub same_check : QaCheck → QaCheck → Bool
same_check QaCheck.acceptance_tests QaCheck.acceptance_tests = true
same_check QaCheck.targeted_tests QaCheck.targeted_tests = true
same_check QaCheck.scope_check QaCheck.scope_check = true
same_check _ _ = false

abbrev pub mem_check : QaCheck → List QaCheck → Bool
mem_check check = any (same_check check)

unfoldable pub no_check_twice : List QaCheck → Bool
no_check_twice [] = true
no_check_twice (c ∷ cs) = not (mem_check c cs) && no_check_twice cs

-- `_standard_checks_are_complete`; three checks are there then.
abbrev pub standard_checks_are_complete : QaPolicy → Bool
standard_checks_are_complete policy =
    no_check_twice policy.required
    && mem_check QaCheck.acceptance_tests policy.required
    && mem_check QaCheck.targeted_tests policy.required
    && mem_check QaCheck.scope_check policy.required

-- Whether a `CreateRunRequest` can be built.
abbrev pub is_valid_request : (is_word : ℕ → Bool) (usd : ℕ) → CreateRunRequest → Bool
is_valid_request is_word usd request =
    is_github_url is_word request.repository.url
    && in_range 200000 (length request.requirement)
    && validate_acceptance_criteria request.acceptance_criteria
    && is_valid_budget usd request.budget
    && custom_settings_match_mode request.approval_policy.mode request.approval_policy.custom
    && fixed_security_baseline request.dependency_policy
    && standard_checks_are_complete request.qa

-- ===== src/Agents/Registry.antt =====
-- src/repopilot/tools/registry.py: which role may use which tool, and how a tool is called.
use acoding_agent.Prelude.{
  ℕ, Bool, true, false, ◌||◌, not, Option, none, some, List, [], ◌∷◌, all, Text, codes, text_eq,
  mem_text, if◌then◌else◌,
}
use acoding_agent.Prelude.Checked.{Checked, accepted, refused, ◌>>=◌, ◌>>◌, refuse_if, found_or}
use acoding_agent.Domain.Enums.{AgentRole}

-- `_ROLE_TOOLS`
abbrev pub role_tools : AgentRole → List Text
role_tools AgentRole.planner =
    codes "read_file" ∷ codes "search_code" ∷ codes "submit_plan" ∷ codes "finish" ∷ []
role_tools AgentRole.investigator =
    codes "read_file" ∷ codes "search_code" ∷ codes "submit_investigation" ∷ codes "finish" ∷ []
role_tools AgentRole.qa = codes "read_file" ∷ codes "search_code" ∷ codes "finish" ∷ []
role_tools AgentRole.developer =
    codes "read_file"
    ∷ codes "search_code"
    ∷ codes "write_file"
    ∷ codes "delete_file"
    ∷ codes "run_command"
    ∷ codes "finish"
    ∷ []
role_tools AgentRole.reviewer =
    codes "read_file" ∷ codes "search_code" ∷ codes "submit_review" ∷ codes "finish" ∷ []

-- How the `execute` of a tool ends; `crash` is an exception that the registry does not catch.
pub data ToolAnswer (Obs : Type 0) : Type 0 where
  observed : Obs → ToolAnswer Obs
  permission_error value_error crash : ToolAnswer Obs

-- A tool: its name, whether its input model takes some arguments, and how the call in a step ends.
pub record Tool (Args Obs : Type 0) : Type 0 where
  pub name : Text
  pub accepts : Args → Bool
  pub answer : (step : ℕ) → Args → ToolAnswer Obs

pub data ToolError : Type 0 where
  tool_not_allowed tool_input_error key_error other_error : ToolError

unfoldable pub find_tool :
    {Args Obs : Type 0} → Text → List (Tool Args Obs) → Option (Tool Args Obs)
find_tool name [] = none
find_tool name (tool ∷ tools) = if text_eq name tool.name then some tool else find_tool name tools

abbrev pub is_registered : {Args Obs : Type 0} → List (Tool Args Obs) → Text → Bool
is_registered tools name = elim (find_tool name tools) [ none ↦ false | some tool ↦ true ]

module _ {Args Obs : Type 0} (tools : List (Tool Args Obs)) (role : AgentRole) where
  -- `validate_requested_tools`
  unfoldable pub validate_requested_tools : List Text → Checked ToolError (Unit {0})
  unfolding find_tool
  validate_requested_tools requested = do
    refuse_if (not (all (is_registered tools) requested)) ToolError.tool_not_allowed
    refuse_if (not (all (λ name. mem_text name (role_tools role)) requested))
        ToolError.tool_not_allowed

  abbrev pub answered : ToolAnswer Obs → Checked ToolError Obs
  answered (ToolAnswer.observed observation) = accepted observation
  answered ToolAnswer.permission_error = refused ToolError.tool_not_allowed
  answered ToolAnswer.value_error = refused ToolError.tool_input_error
  answered ToolAnswer.crash = refused ToolError.other_error

  -- `execute`
  unfoldable pub execute :
      (allowed_tools : List Text) → (name : Text) → Args → (step : ℕ) → Checked ToolError Obs
  unfolding validate_requested_tools find_tool
  execute allowed_tools name arguments step = do
    validate_requested_tools allowed_tools
    refuse_if (not (mem_text name allowed_tools) || not (mem_text name (role_tools role)))
        ToolError.tool_not_allowed
    tool ← found_or ToolError.key_error (find_tool name tools)
    refuse_if (not (tool.accepts arguments)) ToolError.tool_input_error
    answered (tool.answer step arguments)

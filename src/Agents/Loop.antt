-- ===== src/Agents/Loop.antt =====
-- `AgentLoop` of src/repopilot/agents/loop.py, with the records of domain/agents.py. A model call goes
-- through the gateway and the tables of the budget; the provider and the tools are parameters.
use acoding_agent.Prelude.{
  ℕ, zero, suc, ◌+◌, ◌==◌, leb, ltb, Bool, true, false, ◌&&◌, ◌||◌, not, Option, none, some, List,
  [], ◌∷◌, ◌++◌, all, Text, codes, text_eq, if◌then◌else◌,
}
use acoding_agent.Prelude.Checked.{Checked, accepted, refused}
use acoding_agent.Domain.Enums.{AgentRole, ErrorCode}
use acoding_agent.Budget.Store.{Store, Error}
use acoding_agent.Budget.Gateway.{Raised, Outcome, returned, raised, generate}
use acoding_agent.Agents.Registry.{ToolError, execute, validate_requested_tools}
use acoding_agent.Agents.Records.{
  role_model_call_limit, AgentExecutionRequest, ToolContext, Status, AgentTurn, FinishRequest,
  status_and_error_agree, Message, Exception, Ending, Surroundings, Loop,
}

module _ {Args Obs : Type 0} (sur : Surroundings Args Obs) (request : AgentExecutionRequest) where
  abbrev pub Steps : Type 0
  Steps = Loop Args Obs → Ending × Store

  -- `_failed`
  abbrev pub failed_with : ErrorCode → Bool → Steps
  failed_with code retryable l = (
    Ending.result (record {
      work_item_id = request.work_item_id;
      status = Status.failed;
      output_refs = [];
      model_call_ids = l.call_ids;
      error = some (record { code = code; retryable = retryable });
      trajectory_ref = none;
    }),
    l.store,
  )

  -- An error of format: two in a row end the execution.
  abbrev pub format_error : Steps → Message Args Obs → Steps
  format_error next message l =
      let l' = record l {
        consecutive_format_errors = l.consecutive_format_errors + 1;
        messages = l.messages ++ (message ∷ []);
      } in
      if ltb l'.consecutive_format_errors 2
      then next l'
      else failed_with ErrorCode.model_output_invalid false l'

  -- `FinishRequest.model_validate`
  abbrev pub validated : Option FinishRequest → Option FinishRequest
  validated none = none
  validated (some finished) = if status_and_error_agree finished then some finished else none

  unfoldable pub finish : Obs → Steps
  finish observation l = elim (validated (sur.finish_fields observation)) [
    | none ↦ failed_with ErrorCode.model_output_invalid false l
    | some finished ↦ (
      Ending.result (record {
        work_item_id = request.work_item_id;
        status = finished.status;
        output_refs = finished.output_refs;
        model_call_ids = l.call_ids;
        error = finished.error;
        trajectory_ref = some (sur.save_trajectory l.messages);
      }),
      l.store,
    )
  ]

  -- What follows on the call of the tool.
  unfoldable pub after_tool : Steps → AgentTurn Args → Checked ToolError Obs → Steps
  unfolding finish
  after_tool next turn (refused ToolError.tool_input_error) l =
      format_error next Message.tool_error l
  after_tool next turn (refused ToolError.tool_not_allowed) l =
      failed_with ErrorCode.policy_denied false l
  after_tool next turn (refused ToolError.key_error) l =
      (Ending.exception (Exception.tool_failure ToolError.key_error), l.store)
  after_tool next turn (refused ToolError.other_error) l =
      (Ending.exception (Exception.tool_failure ToolError.other_error), l.store)
  after_tool next turn (accepted observation) l =
      let l' = record l {
        consecutive_format_errors = 0;
        messages = l.messages ++ (Message.tool_result observation ∷ []);
      } in
      if text_eq turn.tool (codes "finish") then finish observation l' else next l'

  abbrev pub after_turn : Steps → (step : ℕ) → AgentTurn Args → Steps
  after_turn next step turn l =
      after_tool next turn
        (execute sur.tools request.role request.allowed_tools turn.tool turn.arguments step)
        (record l { messages = l.messages ++ (Message.assistant turn ∷ []) })

  -- What follows on the call of the gateway.
  unfoldable pub after_call : Steps → (step : ℕ) → Outcome (AgentTurn Args) → Steps
  unfolding after_tool
  after_call next step (returned turn) l = after_turn next step turn l
  after_call next step (raised Raised.call_replay) l =
      failed_with ErrorCode.model_completion_unknown false l
  after_call next step (raised Raised.call_completion_unknown) l =
      failed_with ErrorCode.model_completion_unknown false l
  after_call next step (raised Raised.call_cancelled) l =
      (Ending.exception Exception.cancelled, l.store)
  after_call next step (raised Raised.call_output_invalid) l =
      format_error next Message.invalid_output l
  after_call next step (raised Raised.call_failed) l =
      failed_with ErrorCode.model_rate_limited true l
  after_call next step (raised Raised.call_crashed) l =
      (Ending.exception Exception.provider_exception, l.store)
  after_call next step (raised (Raised.store_error Error.budget_exceeded)) l =
      failed_with ErrorCode.budget_exceeded false l
  after_call next step (raised (Raised.store_error e)) l =
      (Ending.exception Exception.budget_state_error, l.store)

  abbrev pub call_model :
      (step : ℕ) → List (Message Args Obs) → Store → Outcome (AgentTurn Args) × Store
  call_model step messages s =
      generate (sur.call_context step) (sur.now step) (sur.logical_key step messages) sur.provider
        sur.model (sur.answer step messages) s

  -- One round of `for step in range(call_limit)`.
  unfoldable pub round : Steps → Steps
  unfolding after_call
  round next l =
      let called = call_model l.step l.messages l.store in
      after_call next l.step called.0 (record l {
        step = l.step + 1;
        call_ids = l.call_ids ++ ((sur.call_context l.step).model_call_id ∷ []);
        store = called.1;
      })

  unfoldable pub rounds : ℕ → Steps
  unfolding round
  rounds zero l = failed_with ErrorCode.budget_exceeded false l
  rounds (suc left) l = round (rounds left) l

  abbrev pub min : ℕ → ℕ → ℕ
  min a b = if leb a b then a else b

  abbrev pub call_limit : ℕ
  call_limit =
      min (min request.remaining_model_calls (role_model_call_limit request.role)) request.max_steps

  -- `_validate_context`
  abbrev pub validate_context : ToolContext → Bool
  validate_context context = elim request.input_refs [
    | [] ↦ false
    | first ∷ rest ↦
        all (λ r. r.tenant_id == first.tenant_id && r.ref.run_id == first.ref.run_id) rest
        && (context.tenant_id == first.tenant_id
            && context.run_id == first.ref.run_id
            && context.work_item_id == request.work_item_id)
  ]

  -- The versions of prompts that `_load_prompt` finds.
  abbrev pub is_prompt : AgentRole → Text → Bool
  is_prompt AgentRole.developer version = text_eq version (codes "1") || text_eq version (codes "2")
  is_prompt AgentRole.planner version = text_eq version (codes "1") || text_eq version (codes "2")
  is_prompt AgentRole.reviewer version = text_eq version (codes "1") || text_eq version (codes "3")
  is_prompt AgentRole.investigator version = text_eq version (codes "1")
  is_prompt AgentRole.qa version = text_eq version (codes "1")

  -- `execute`; the first messages, which hold the inputs, are left out of the list.
  unfoldable pub execute_agent : ToolContext → Store → Ending × Store
  unfolding rounds
  execute_agent context s =
      if validate_context context
      then elim (validate_requested_tools sur.tools request.role request.allowed_tools) [
        | refused e ↦ (Ending.exception (Exception.tool_failure e), s)
        | accepted u ↦
            if not (is_prompt request.role request.prompt_version)
            then (Ending.exception Exception.value_error, s)
            else rounds call_limit (record {
              step = 0;
              messages = [];
              call_ids = [];
              consecutive_format_errors = 0;
              store = s;
            })
      ]
      else (Ending.exception Exception.value_error, s)

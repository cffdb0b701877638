-- ===== src/Agents/Course.antt =====
-- What each execution of an agent ends with, and what it does to the tables of the budget.
use acoding_agent.Prelude.{
  ℕ, zero, suc, ◌+◌, ◌*◌, ◌≡◌, ◌≤◌, refl, sym, ap, ◌∙◌, true, not, Option, none, some, List, [],
  ◌∷◌, ◌++◌, length, length-append, append-nil, append_assoc, text_eq, codes, if◌then◌else◌, ltb,
  arith, Bool-cases, Option-cases, subst, inl, inr, ◌⊎◌,
}
use acoding_agent.Prelude.Checked.{Checked, accepted, refused}
use acoding_agent.Budget.Store.{Store, Error}
use acoding_agent.Budget.Gateway.{Raised, Outcome, returned, raised}
use acoding_agent.Budget.History.{run}
use acoding_agent.Budget.Steps.{run-append, IsReached, generate-IsReached}
use acoding_agent.Agents.Registry.{ToolError, execute, validate_requested_tools}
use acoding_agent.Agents.Records.{
  AgentExecutionRequest, ToolContext, is_succeeded, is_none, AgentTurn, FinishRequest,
  status_and_error_agree, Message, Exception, Ending, Surroundings, Loop,
}
use acoding_agent.Agents.Loop.{
  format_error, validated, finish, after_tool, after_call, call_model, round, rounds, call_limit,
  validate_context, execute_agent, is_prompt,
}

some-injective : {A : Type 0} {x y : A} → some x ≡ some y → x ≡ y
some-injective h = cc

-- A result lists the calls, and has an error exactly if it is a failure.
abbrev pub IsSound : List ℕ → Ending → Type 0
IsSound ids (Ending.exception e) = Unit {0}
IsSound ids (Ending.result r) = (r.model_call_ids ≡ ids) × (is_succeeded r.status ≡ is_none r.error)

abbrev IsEnd : List ℕ → Store → Ending × Store → Type 0
IsEnd ids s (e, s') = IsSound ids e × (s' ≡ s)

module _ {Args Obs : Type 0} (sur : Surroundings Args Obs) (request : AgentExecutionRequest) where
  -- What follows a call either ends, or goes on with the same calls and tables.
  abbrev GoesOn : (Loop Args Obs → Ending × Store) → Loop Args Obs → Ending × Store → Type 0
  GoesOn next l e =
      IsEnd l.call_ids l.store e
      ⊎ ((l' : Loop Args Obs) × (l'.call_ids ≡ l.call_ids) × (l'.store ≡ l.store) × (e ≡ next l'))

  format_error-GoesOn :
      (next : Loop Args Obs → Ending × Store) (message : Message Args Obs) (l : Loop Args Obs)
      → GoesOn next l (format_error sur request next message l)
  format_error-GoesOn next message l = elim (Bool-cases (ltb (l.consecutive_format_errors + 1) 2)) [
    | inl once ↦ rw once (inr (_, refl, refl, refl))
    | inr twice ↦ rw twice (inl ((refl, refl), refl))
  ]

  validated-agree :
      (o : Option FinishRequest) (f : FinishRequest)
      → validated sur request o ≡ some f
      → status_and_error_agree f ≡ true
  validated-agree none f h = cc
  validated-agree (some g) f h = elim (Bool-cases (status_and_error_agree g)) [
    | inl fine ↦
        let same : some g ≡ some f = ap (λ b. if b then some g else none) (sym fine) ∙ h in
        subst (λ x. status_and_error_agree x ≡ true) (some-injective same) fine
    | inr bad ↦ let none_ : none ≡ some f = ap (λ b. if b then some g else none) (sym bad) ∙ h in cc
  ]

  finish-IsEnd :
      (observation : Obs) (l : Loop Args Obs)
      → IsEnd l.call_ids l.store (finish sur request observation l)
  unfolding finish
  finish-IsEnd observation l =
      elim (Option-cases (validated sur request (sur.finish_fields observation))) [
        | inl h ↦ rw (h, finish) ((refl, refl), refl)
        | inr (f, h) ↦
            rw (h, finish)
              ((refl, ground (arith, validated-agree (sur.finish_fields observation) f h)), refl)
      ]

  after_tool-GoesOn :
      (next : Loop Args Obs → Ending × Store) (turn : AgentTurn Args)
      (answer : Checked ToolError Obs) (l : Loop Args Obs)
      → GoesOn next l (after_tool sur request next turn answer l)
  unfolding after_tool
  after_tool-GoesOn next turn (refused ToolError.tool_input_error) l =
      format_error-GoesOn next Message.tool_error l
  after_tool-GoesOn next turn (refused ToolError.tool_not_allowed) l = inl ((refl, refl), refl)
  after_tool-GoesOn next turn (refused ToolError.key_error) l = inl (tt, refl)
  after_tool-GoesOn next turn (refused ToolError.other_error) l = inl (tt, refl)
  after_tool-GoesOn next turn (accepted observation) l =
      elim (Bool-cases (text_eq turn.tool (codes "finish"))) [
        | inl last_ ↦ rw last_ (
            inl (
              finish-IsEnd observation (record l {
                consecutive_format_errors = 0;
                messages = l.messages ++ (Message.tool_result observation ∷ []);
              })))
        | inr more ↦ rw more (inr (_, refl, refl, refl))
      ]

  after_call-GoesOn :
      (next : Loop Args Obs → Ending × Store) (step : ℕ) (outcome : Outcome (AgentTurn Args))
      (l : Loop Args Obs)
      → GoesOn next l (after_call sur request next step outcome l)
  unfolding after_call
  after_call-GoesOn next step (returned turn) l =
      after_tool-GoesOn next turn
        (execute sur.tools request.role request.allowed_tools turn.tool turn.arguments step)
        (record l { messages = l.messages ++ (Message.assistant turn ∷ []) })
  after_call-GoesOn next step (raised Raised.call_replay) l = inl ((refl, refl), refl)
  after_call-GoesOn next step (raised Raised.call_completion_unknown) l = inl ((refl, refl), refl)
  after_call-GoesOn next step (raised Raised.call_cancelled) l = inl (tt, refl)
  after_call-GoesOn next step (raised Raised.call_output_invalid) l =
      format_error-GoesOn next Message.invalid_output l
  after_call-GoesOn next step (raised Raised.call_failed) l = inl ((refl, refl), refl)
  after_call-GoesOn next step (raised Raised.call_crashed) l = inl (tt, refl)
  after_call-GoesOn next step (raised (Raised.store_error Error.budget_exceeded)) l =
      inl ((refl, refl), refl)
  after_call-GoesOn next step (raised (Raised.store_error Error.value_error)) l = inl (tt, refl)
  after_call-GoesOn next step (raised (Raised.store_error Error.budget_state_error)) l =
      inl (tt, refl)
  after_call-GoesOn next step (raised (Raised.store_error Error.integrity_error)) l = inl (tt, refl)

  -- The calls that an execution makes, and the transactions behind it.
  abbrev pub IsCourse : ℕ → List ℕ → Store → Ending × Store → Type 0
  IsCourse left before s (e, s') =
      (ids : List ℕ) × (length ids ≤ left) × IsSound (before ++ ids) e × IsReached (3 * left) s s'

  rounds-IsCourse :
      (left : ℕ) (l : Loop Args Obs) → IsCourse left l.call_ids l.store (rounds sur request left l)
  unfolding rounds round run
  rounds-IsCourse zero l =
      ([], omega arith, (sym (append-nil l.call_ids), refl), ([], omega arith, refl))
  rounds-IsCourse (suc left) l =
      let called = call_model sur request l.step l.messages l.store in
      let id = (sur.call_context l.step).model_call_id in
      let after : Loop Args Obs = record l {
        step = l.step + 1;
        call_ids = l.call_ids ++ (id ∷ []);
        store = called.1;
      } in
      let (ts, few, e) : IsReached 3 l.store called.1 =
        generate-IsReached (sur.call_context l.step) (sur.now l.step)
          (sur.logical_key l.step l.messages) sur.provider sur.model (sur.answer l.step l.messages)
          l.store in
      elim (after_call-GoesOn (rounds sur request left) l.step called.0 after) [
        | inl (sound, same) ↦ (id ∷ [], omega arith, sound, (ts, omega arith, same ∙ e))
        | inr (l', ids_, store_, go) ↦
            let (ids, short, sound, (us, few', e')) = rounds-IsCourse left l' in
            let listed : l'.call_ids ++ ids ≡ l.call_ids ++ (id ∷ ids) =
              ap (λ x. x ++ ids) ids_ ∙ append_assoc l.call_ids (id ∷ []) ids in
            subst (IsCourse (suc left) l.call_ids l.store) (sym go) (
              id ∷ ids,
              omega arith,
              subst (λ x. IsSound x (rounds sur request left l').0) listed sound,
              (
                ts ++ us,
                omega (arith, length-append ts us),
                e' ∙ ap (run us) (store_ ∙ e) ∙ run-append ts us l.store,
              ),
            )
      ]

  -- Every call is listed, and the tables change by transactions only.
  pub execute_agent-IsCourse :
      (context : ToolContext) (s : Store)
      → IsCourse (call_limit sur request) [] s (execute_agent sur request context s)
  unfolding execute_agent run
  execute_agent-IsCourse context s = elim (Bool-cases (validate_context sur request context)) [
    | inr bad ↦ rw bad ([], omega arith, tt, ([], omega arith, refl))
    | inl fine ↦
        rw fine (go (validate_requested_tools sur.tools request.role request.allowed_tools))
  ]
    where
      go :
          (c : Checked ToolError (Unit {0}))
          → IsCourse (call_limit sur request) [] s (elim c [
            | refused e ↦ (Ending.exception (Exception.tool_failure e), s)
            | accepted u ↦
                if not (is_prompt sur request request.role request.prompt_version)
                then (Ending.exception Exception.value_error, s)
                else rounds sur request (call_limit sur request) (record {
                  step = 0;
                  messages = [];
                  call_ids = [];
                  consecutive_format_errors = 0;
                  store = s;
                })
          ])
      go (refused e) = ([], omega arith, tt, ([], omega arith, refl))
      go (accepted u) =
          elim (Bool-cases (is_prompt sur request request.role request.prompt_version)) [
            | inl known ↦ rw known (
                rounds-IsCourse (call_limit sur request) (record {
                  step = 0;
                  messages = [];
                  call_ids = [];
                  consecutive_format_errors = 0;
                  store = s;
                }))
            | inr unknown ↦ rw unknown ([], omega arith, tt, ([], omega arith, refl))
          ]

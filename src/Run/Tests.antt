-- ===== src/Run/Tests.antt =====
-- A run of the workflow whose first candidate is sent back in review, and the theorems at it.
use acoding_agent.Prelude.{
  ℕ, codes, ◌+◌, ◌*◌, ◌≡◌, ◌≤◌, refl, none, some, List, [], ◌∷◌, All, true, false, ◌==◌,
  if◌then◌else◌,
}
use acoding_agent.Domain.Enums.{RunStatus, low, manual, is_terminal}
use acoding_agent.Domain.Plans.{Operation, WorkItemKind}
use acoding_agent.Domain.Policies.{
  ApprovalStagePolicy, custom_stages, resolve_approval_policy, custom_settings_match_mode,
}
use acoding_agent.Domain.Manifests.{dependency_manifest_paths}
use acoding_agent.Run.Transitions.{validate_transition, History, start, step}
use acoding_agent.Run.Milestones.{IsOpen, Passed, terminal-History, delivery-History}
use acoding_agent.Run.Approvals.{
  ApprovalKind, Decision, approve, ApprovalRequest, validate_approval,
}
use acoding_agent.Run.World.{
  ArtifactRef, WorkflowInput, WorkflowOutput, World, done, failed, approved, changes_requested,
  other,
}
use acoding_agent.Run.Monad.{
  initial, activity_error, return, raise, ◌>>=◌, pure, throw, get, modify, emit, patched, require,
  submit_approval, deliver, activity,
}
use acoding_agent.Run.Workflow.{
  wait_condition, await_approval, note_failure, guarded, send_projection, record_projection,
  transition, wait_for_approval, enter_finalizing, finalize, resolve_approval_stages, stage_error,
}
use acoding_agent.Run.Attempt.{
  publish_blackboard, work_item, files_of, integrated, integrated_refs, context_inputs,
  build_contexts, develop, develop_wave, integrate_wave, run_waves, candidate_dependencies,
  review_attempt, run_candidate_attempt,
}
use acoding_agent.Run.Stages.{approve_or_reject, deliver_candidate, investigate, replan}
use acoding_agent.Run.Main.{
  repair_loop, execute, sealed_round, design_tests, run_planned, run_specified,
  approve_requirements, body, recover, run,
}
use acoding_agent.Run.Logic.{is_external}
use acoding_agent.Run.Requests.{decisions, IsAmong, IsSent, AllApart}
use acoding_agent.Run.Points.{last_verified, last_reviewed}
use acoding_agent.Run.Promises.{body-is_external, run-is_terminal, run-reviewed, run-has_approval}

program : Unit {0}
unfolding ◌>>=◌ pure throw get modify emit patched require submit_approval deliver activity
    wait_condition await_approval note_failure guarded send_projection record_projection transition
    wait_for_approval enter_finalizing finalize resolve_approval_stages stage_error
    publish_blackboard work_item files_of integrated integrated_refs context_inputs build_contexts
    develop develop_wave integrate_wave run_waves candidate_dependencies review_attempt
    run_candidate_attempt approve_or_reject deliver_candidate investigate replan repair_loop execute
    sealed_round design_tests run_planned run_specified approve_requirements body recover run
    validate_transition resolve_approval_policy validate_approval dependency_manifest_paths
    custom_settings_match_mode
program = tt

abbrev ref : ℕ → ArtifactRef
ref k = record { artifact_id = k; run_id = 7 }

abbrev every_stage : ApprovalStagePolicy
every_stage = record { plan = manual; execution = manual; delivery = manual }

abbrev request : WorkflowInput
request = record {
  run_id = 7;
  tenant_id = 8;
  create_request_ref = ref 1;
  risk_level = low;
  approval_policy = record { mode = custom_stages; custom = some every_stage };
  developer_agent_mode = true;
  planner_agent_mode = true;
  investigator_agent_mode = true;
  shared_blackboard_enabled = true;
  reviewer_agent_mode = true;
  scope_expansion_enabled = true;
  auto_approve_low_risk = none;
}

abbrev approval : ℕ → ApprovalKind → ApprovalRequest
approval id kind = record {
  approval_id = id;
  kind = kind;
  decision = approve;
  actor_id = "ada";
  reason = [];
  replacement_acceptance_criteria = none;
}

-- Every wait is offered the three approvals under identifiers of its own.
abbrev offers : ℕ → List (List ApprovalRequest)
offers n =
    (approval (3 * n) ApprovalKind.plan ∷ approval (3 * n + 1) ApprovalKind.execution ∷ [])
    ∷ (approval (3 * n + 2) ApprovalKind.delivery ∷ [])
    ∷ []

abbrev surroundings : World
surroundings = record {
  now = λ n. 1000 + n;
  workflow_id = "w";
  patched = λ name. true;
  cancellation_requested = λ n. false;
  inbox = λ n. [];
  wakeups = offers;
  update_projection = λ n e. done tt;
  ingest_task = λ n r. done (record {
    repository_url = "u";
    base_revision = "base";
    requires_requirements_approval = false;
    task_spec_ref = some (ref 2);
  });
  finalize_task_spec = λ n r b c. done (ref 2);
  scan_repository = λ n r. done (ref 3);
  prepare_dependencies = λ n s t. done "layer";
  verify_baseline = λ n s k. done (ref 4);
  plan_change = λ n agent i. done (record {
    plan_ref = ref 5;
    risk_level = low;
    planned_files =
        record {
          work_item_id = 1;
          path = codes "a.py";
          operation = Operation.modify;
          owner = codes "dev";
          responsibility = [];
          required_interfaces = [];
        }
        ∷ [];
    work_items =
        record {
          work_item_id = 1;
          run_id = 7;
          kind = WorkItemKind.code;
          dependencies = [];
          allowed_write_paths = codes "a.py" ∷ [];
          read_paths = codes "a.py" ∷ [];
          owner = codes "dev";
          attempt = 1;
        }
        ∷ [];
    waves = (1 ∷ []) ∷ [];
    scope_expansion_paths = [];
  });
  publish_blackboard = λ n s p. done (ref 6);
  design_sealed_tests = λ n i. done (ref 7);
  verify_sealed_tests = λ n s t k.
      done (record { valid = true; runnable = true; mismatch_count = 0; report_ref = ref 8 });
  investigate_failure = λ n i. done (ref 9);
  build_developer_context = λ n item t refs. done (ref 10);
  develop_patch = λ n agent i. done (ref 11);
  integrate_patch = λ n p item t. done (ref 12);
  export_candidate = λ n r. done (record { source_archive_ref = ref 13; revision = "candidate" });
  build_final_diff = λ n r. done (ref 14);
  verify_candidate = λ n i. done (record { passed = true; report_ref = ref 15 });
  review_candidate = λ n agent i. done (record {
    decision = if i.attempt == 1 then changes_requested else approved;
    review_ref = ref 16;
  });
  cleanup_sandboxes = λ n r. failed other;
  cleanup_repository = λ n r. done (ref 17);
  build_final_report = λ n i. done (ref 18);
}

abbrev success : WorkflowOutput
success = record {
  run_id = 7;
  status = RunStatus.succeeded;
  final_report_ref = some (ref 18);
  failure = none;
}

request_valid :
    custom_settings_match_mode request.approval_policy.mode request.approval_policy.custom ≡ true
unfolding program
request_valid = refl

run-request : (run request surroundings initial).0 ≡ return success
unfolding program
run-request = refl

rounds-request : (run request surroundings initial).1.repair_rounds ≡ 1
unfolding program
rounds-request = refl

run-is_terminal_example :
    let s = (run request surroundings initial).1 in
    (success.status ≡ s.status) × (is_terminal s.status ≡ true) × (s.repair_rounds ≤ 2)
run-is_terminal_example = run-is_terminal request request_valid surroundings success run-request

run-reviewed_example :
    let log = (run request surroundings initial).1.log in
    (last_verified log ≡ some true) × (last_reviewed log ≡ some approved)
run-reviewed_example = run-reviewed request request_valid surroundings success run-request refl

resolve-request : resolve_approval_stages request none ≡ some every_stage
unfolding program
resolve-request = refl

run-has_approval_example :
    let used = decisions (run request surroundings initial).1.log in
    ((a : ApprovalRequest) × IsAmong (ApprovalKind.delivery, a) used
      × (a.kind ≡ ApprovalKind.delivery)
      × (a.decision ≡ Decision.approve)
      × IsSent surroundings a)
    × AllApart used
run-has_approval_example =
    run-has_approval request request_valid surroundings success every_stage ApprovalKind.delivery
      run-request refl resolve-request refl

-- The baseline's verification fails.
abbrev broken : World
broken = record surroundings { verify_baseline = λ n s k. failed other }

body-broken : (body request broken initial).0 ≡ raise (activity_error other)
unfolding program
body-broken = refl

body-is_external_example : is_external (activity_error other) ≡ true
body-is_external_example =
    body-is_external request request_valid broken initial (activity_error other) refl refl
      body-broken

-- The way of a run of low risk.
abbrev to_delivery : List RunStatus
to_delivery =
    RunStatus.reviewing ∷ RunStatus.verifying ∷ RunStatus.executing ∷ RunStatus.designing_tests
    ∷ RunStatus.planning ∷ RunStatus.baselining ∷ RunStatus.ingesting ∷ RunStatus.queued ∷ []

delivered : History RunStatus.waiting_delivery_approval to_delivery
unfolding validate_transition
delivered =
    step _
      (step _
        (step _ (step _ (step _ (step _ (step _ (step _ start refl) refl) refl) refl) refl) refl)
        refl)
      refl

delivery-History_example :
    (before : List RunStatus) × (to_delivery
      ≡ RunStatus.reviewing ∷ RunStatus.verifying ∷ RunStatus.executing ∷ before)
    × Passed RunStatus.baselining before
delivery-History_example = delivery-History to_delivery delivered

ended :
    History RunStatus.succeeded
      (RunStatus.finalizing ∷ RunStatus.waiting_delivery_approval ∷ to_delivery)
unfolding validate_transition
ended = step _ (step _ delivered refl) refl

terminal-History_example :
    (before : List RunStatus) × (RunStatus.finalizing ∷ RunStatus.waiting_delivery_approval
        ∷ to_delivery
      ≡ RunStatus.finalizing ∷ before)
    × All IsOpen before
terminal-History_example =
    terminal-History RunStatus.succeeded
      (RunStatus.finalizing ∷ RunStatus.waiting_delivery_approval ∷ to_delivery) ended refl

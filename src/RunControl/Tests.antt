-- ===== src/RunControl/Tests.antt =====
-- The control plane over a dictionary of objects and a list of executions.
use acoding_agent.Prelude.{
  ℕ, ◌≡◌, ◌≢◌, refl, sym, ap, ◌∙◌, true, false, none, List, [], ◌∷◌, Text, codes, text_eq,
  text_eq_refl, mem_text, if◌then◌else◌, Bool-cases, inl, inr, arith, ◌⊎◌,
}
use acoding_agent.Prelude.Checked.{Checked, accepted, refused, ◌>>=◌, ◌>>◌, refuse_if, found_or}
use acoding_agent.Prelude.Tables.{find}
use acoding_agent.Domain.Enums.{RiskLevel, ArtifactKind-discrete, same_kind, create_run_request}
use acoding_agent.Domain.Policies.{risk_based}
use acoding_agent.Domain.Tasks.{CreateRunRequest, acceptance_tests, targeted_tests, scope_check}
use acoding_agent.Run.Approvals.{ApprovalRequest, ApprovalKind, Decision}
use acoding_agent.Budget.Store.{create_budget}
use acoding_agent.Workspace.Files.{Files, set}
use acoding_agent.Artifacts.Refs.{ArtifactRef, matches_hex, build_object_key}
use acoding_agent.Artifacts.Samples.{hello, sample_digest, sample_uuid_text, dictionary}
use acoding_agent.Artifacts.Store.{
  find_by_content_identity, insert, checked_ref, finish, record_row, put_row, put_bytes,
}
use acoding_agent.RunControl.Records.{
  Error, run_not_found, run_unavailable, idempotency_conflict, RunView, StartAnswer, begun,
  already_started, start_failed, WorkflowService, workflow_id_for,
}
use acoding_agent.RunControl.Keys.{find_key, insert_key, check_record, set_idempotency_status}
use acoding_agent.RunControl.Control.{
  Services, State, Draws, queued_view, get_run, store_request, conclude, launch, provide, submit,
  proceed, reserved, create,
}
use acoding_agent.RunControl.Reads.{approve, cancel, list_events, list_artifacts}
use acoding_agent.RunControl.Keyed.{Request, creates, cancels, serve_all}
use acoding_agent.RunControl.Replay.{create-replayed}
use acoding_agent.RunControl.Hidden.{serve_all-hidden}
use acoding_agent.RunControl.Started.{IsSound, serve_all-IsSound}
use acoding_agent.RunControl.Retry.{IsQueued, create-retried}

-- A list of executions, which starts an identifier once.
started_once :
    (id : Text) (w w' : List Text) (answer : StartAnswer)
    → ◌≡◌ {A = List Text × StartAnswer}
        (if mem_text id w then (w, already_started) else (id ∷ w, begun))
        (w', answer)
    → ((w' ≡ w) ⊎ ((mem_text id w ≡ false) × (w' ≡ id ∷ w))) × (mem_text id w' ≡ true)
started_once id w w' answer h = elim (Bool-cases (mem_text id w)) [
  | inl known ↦
      let same : w ≡ w' = ground (arith, ap (λ x. x.0) h, known) in
      (inl (sym same), ap (mem_text id) (sym same) ∙ known)
  | inr new ↦
      let added : id ∷ w ≡ w' = ground (arith, ap (λ x. x.0) h, new) in
      (inr (new, sym added), ap (mem_text id) (sym added) ∙ rw (text_eq_refl id) refl)
]

starts_work :
    (id : Text) (w : List Text)
    → (if◌then◌else◌ {A = List Text × StartAnswer}
        (mem_text id w)
        (w, already_started)
        (id ∷ w, begun)).1
      ≢ start_failed
starts_work id w h = elim (Bool-cases (mem_text id w)) [
  | inl known ↦ ground (arith, h, known)
  | inr new ↦ ground (arith, h, new)
]

abbrev executions_list : WorkflowService (List Text)
executions_list = record {
  executions = λ w. w;
  start_workflow = λ id input w. if mem_text id w then (w, already_started) else (id ∷ w, begun);
  execute_update = λ id approval w. (w, mem_text id w);
  cancel_workflow = λ id w. (w, mem_text id w);
  start-adds = λ id input w w' answer h. (started_once id w w' answer h).0;
  start-known = λ id input w w' answer h works. (started_once id w w' answer h).1;
  update-executions = λ id approval w. refl;
  cancel-executions = λ id w. refl;
}

-- Each of two tenants has one run.
abbrev uuid5 : ℕ → Text → ℕ
uuid5 tenant_id key = if text_eq (tenant_id ∷ []) (1 ∷ []) then 7 else 8

abbrev model_dump_json : CreateRunRequest → Text
model_dump_json request = request.requirement

abbrev sample : Services Files (List Text)
sample = record {
  uuid5 = uuid5;
  sha256 = sample_digest;
  model_dump_json = model_dump_json;
  uuid_text = sample_uuid_text;
  storage = dictionary;
  service = executions_list;
}

abbrev request : CreateRunRequest
request = record {
  repository = record { url = codes "https://github.com/a/b"; revision = none };
  requirement = hello;
  acceptance_criteria = none;
  budget = record {
    max_cost_usd = 5;
    max_wall_time_seconds = 60;
    max_model_calls = 3;
    max_sandbox_seconds = 60;
  };
  approval_policy = record { mode = risk_based; custom = none };
  dependency_policy = record {
    allow_lockfile_read = true;
    allow_cache = true;
    allow_new_dependencies = false;
  };
  qa = record { required = acceptance_tests ∷ targeted_tests ∷ scope_check ∷ [] };
  risk_level = RiskLevel.low;
}

abbrev other_request : CreateRunRequest
other_request = record request { requirement = codes "bye" }

abbrev draws : Draws
draws = record { artifact_id = 11; created_at = 100; expires_at = 200; reaches_budgets = true }

abbrev later_draws : Draws
later_draws = record {
  artifact_id = 12;
  created_at = 150;
  expires_at = 250;
  reaches_budgets = true;
}

abbrev nothing : State Files (List Text)
nothing = record {
  keys = [];
  artifacts = record { artifacts = []; objects = [] };
  budgets = record { budgets = []; calls = [] };
  projections = record { projections = []; audit_events = [] };
  workflows = [];
}

abbrev create_sample :
    Draws
    → ℕ
    → CreateRunRequest
    → Text
    → State Files (List Text)
    → State Files (List Text) × Checked Error RunView
create_sample = create sample

abbrev queued_sample : ℕ → ℕ → RunView
queued_sample = queued_view sample

abbrev serve_sample : List Request → State Files (List Text) → State Files (List Text)
serve_sample = serve_all sample

after_first : State Files (List Text)
unfolding create reserved insert_key proceed check_record find_key submit provide launch conclude
    set_idempotency_status create_budget find put_bytes put_row find_by_content_identity checked_ref
    record_row finish insert set
after_first = (create_sample draws 1 request (codes "k") nothing).0

first_answer :
    create_sample draws 1 request (codes "k") nothing ≡ (after_first, accepted (queued_sample 1 7))
unfolding after_first create reserved insert_key proceed check_record find_key submit provide launch
    conclude set_idempotency_status create_budget find put_bytes put_row find_by_content_identity
    checked_ref record_row finish insert set ◌>>=◌ ◌>>◌ refuse_if found_or matches_hex same_kind
    ArtifactKind-discrete
first_answer = refl

-- Requests of the other tenant, and a cancellation.
abbrev between : List Request
between = creates later_draws 2 other_request (codes "k") ∷ cancels 1 7 ∷ []

create-replayed_example :
    ((view : RunView) × (create_sample later_draws 1 request
          (codes "k")
          (serve_sample between after_first)
        ≡ (serve_sample between after_first, accepted view))
      × (view.run_id ≡ 7))
    × (create_sample later_draws 1 other_request (codes "k") (serve_sample between after_first)
        ≡ (serve_sample between after_first, refused idempotency_conflict))
create-replayed_example =
    create-replayed sample draws later_draws 1 request other_request (codes "k") between nothing
      after_first (queued_sample 1 7) tt first_answer refl

abbrev approval : ApprovalRequest
approval = record {
  approval_id = 1;
  kind = ApprovalKind.plan;
  decision = Decision.approve;
  actor_id = "a";
  reason = codes "r";
  replacement_acceptance_criteria = none;
}

-- The second tenant asks for the run of the first.
serve_all-hidden_example :
    let later = serve_sample between after_first in
    (get_run sample 2 7 later ≡ refused run_not_found)
    × (list_events sample 2 7 later ≡ refused run_not_found)
    × (list_artifacts sample 2 7 later ≡ refused run_not_found)
    × (approve sample 2 7 approval later ≡ (later, refused run_not_found))
    × (cancel sample 2 7 later ≡ (later, refused run_not_found))
unfolding after_first create reserved insert_key proceed check_record find_key submit provide launch
    conclude set_idempotency_status create_budget find put_bytes put_row find_by_content_identity
    checked_ref record_row finish insert set ◌>>=◌ ◌>>◌ refuse_if found_or matches_hex same_kind
    ArtifactKind-discrete
serve_all-hidden_example =
    serve_all-hidden sample between 2 7 approval after_first (refl, tt) (λ key h. omega (arith, h))

-- Both tenants ask, the first one twice.
serve_all-IsSound_example : IsSound sample (
    serve_sample
      (creates draws 1 request (codes "k") ∷ creates later_draws 1 request (codes "k") ∷ between)
      nothing)
serve_all-IsSound_example =
    serve_all-IsSound sample
      (creates draws 1 request (codes "k") ∷ creates later_draws 1 request (codes "k") ∷ between)
      nothing (tt, tt)

-- The budgets cannot be reached the first time.
abbrev cut_off : Draws
cut_off = record draws { reaches_budgets = false }

after_failure : State Files (List Text)
unfolding create reserved insert_key proceed check_record find_key submit provide launch conclude
    set_idempotency_status create_budget find put_bytes put_row find_by_content_identity checked_ref
    record_row finish insert set
after_failure = (create_sample cut_off 1 request (codes "k") nothing).0

request_ref : ArtifactRef
request_ref = record {
  artifact_id = 11;
  run_id = 7;
  tenant_id = 1;
  kind = create_run_request;
  schema_version = "1";
  object_key = build_object_key sample_uuid_text 1 7 create_run_request (sample_digest hello);
  sha256 = sample_digest hello;
  size_bytes = 5;
  base_revision = none;
  input_artifact_ids = [];
  created_at = 100;
}

failed_first :
    create_sample cut_off 1 request (codes "k") nothing ≡ (after_failure, refused run_unavailable)
unfolding after_failure create reserved insert_key proceed check_record find_key submit provide
    launch conclude set_idempotency_status create_budget find put_bytes put_row
    find_by_content_identity checked_ref record_row finish insert set ◌>>=◌ ◌>>◌ refuse_if found_or
    matches_hex same_kind ArtifactKind-discrete
failed_first = refl

stored_again :
    (store_request sample later_draws 1 request (codes "k") after_failure.artifacts).1
    ≡ accepted request_ref
unfolding after_failure request_ref create reserved insert_key proceed check_record find_key submit
    provide launch conclude set_idempotency_status create_budget find put_bytes put_row
    find_by_content_identity checked_ref record_row finish insert set ◌>>=◌ ◌>>◌ refuse_if found_or
    matches_hex same_kind ArtifactKind-discrete
stored_again = refl

create-retried_example :
    IsQueued sample 1 (codes "k") (create_sample later_draws 1 request (codes "k") after_failure)
create-retried_example =
    create-retried sample cut_off later_draws 1 request (codes "k") request_ref nothing
      after_failure failed_first stored_again refl (omega arith) (omega arith)
      (λ input h.
        starts_work (workflow_id_for sample_uuid_text 1 (uuid5 1 (codes "k")))
          after_failure.workflows h)

-- ===== src/Lib.antt =====
-- RepoPilot turns the description of a change into a patch. A durable workflow moves each run through
-- its statuses and calls activities, which ask a model, edit a repository and verify it in a sandbox.
-- This library models the core of that program and proves what it promises.
--
-- The parts and the files that model them:
-- - Domain.Enums, Domain.Policies, Domain.Manifests: src/repopilot/domain/enums.py, errors.py and
--   policies.py. `classify_risk` and `resolve_approval_policy` decide which stages a person approves,
--   and `dependency_manifest_paths` finds the files that change dependencies. Domain.Risk orders the
--   levels of risk.
-- - Budget.Store: the transactions of src/repopilot/infrastructure/db/model_budget.py on the tables
--   `run_budgets` and `model_calls`, as functions from tables to tables or an error. The row locks
--   make transactions run one after the other, which Budget.History models as sequences of them.
--   Budget.Ledger states when the counters of the budgets agree with the calls; Budget.Grants,
--   Budget.Keeps and Budget.Closing are about the single transactions.
-- - Budget.Gateway: `BudgetedModelGateway` of src/repopilot/services/model_gateway.py, which calls the
--   provider between a reservation and a settlement. Budget.Calls and Budget.Replay are about it.
-- - Run.Transitions and Run.Approvals: src/repopilot/workflows/transitions.py and updates.py.
--   Run.Milestones is about the statuses that a run has passed.
-- - Run.World, Run.Monad, Run.Workflow, Run.Attempt, Run.Stages and Run.Main: `CodeRepairWorkflow` of
--   src/repopilot/workflows/code_repair.py, all of it. The object is the record `State`, and a method is
--   a function of the surroundings and the object that returns or raises. The surroundings, the record
--   `World`, answer each activity with a result, a failure or a cancellation, and hold the updates that
--   arrive meanwhile; the number of awaits is an argument of each answer, so answers may differ from
--   call to call. The stages of `run` are functions that end in a call of the next stage.
-- - Run.Requests and Run.Taken follow the approvals from the updates that arrive to the decisions that the
--   log notes.
--   Run.Logic, Run.Points, Run.Endings, Run.Candidate, Run.Review, Run.Safety, Run.Rounds, Run.Loop,
--   Run.Course, Run.Delivery and Run.Outcome carry pre- and postconditions through the workflow, from
--   its statements to `run`, and Run.Promises states the outcome.
-- - Domain.Plans and Scheduler: src/repopilot/domain/plans.py and services/scheduler.py. Scheduler.Paths
--   is `normalize_plan_path`, with `posixpath.normpath`; Scheduler.Plan is `validate_change_plan`,
--   Scheduler.Items is `add_inferred_risk_flags` and `materialize_work_items`, and Scheduler.Schedule is
--   `build_schedule`. Both loops over the dependency graph are in Scheduler.Dag. Scheduler.PathParts and
--   Scheduler.PathNormal are about paths; Scheduler.Progress says what the loops keep,
--   Scheduler.Acyclic, Scheduler.Distinct, Scheduler.Drain and Scheduler.Validation are about cycles,
--   and Scheduler.Waves, Scheduler.Order, Scheduler.Refusals and Scheduler.Promises about the waves.
-- - Verification: src/repopilot/services/verification_service.py and domain/verification.py.
--   Verification.Reports and Verification.Reviews are the reports and their validators,
--   Verification.Commands finds the test command, Verification.Summaries counts tests,
--   Verification.Candidate and Verification.Sealed are the `verify` methods with `_build_findings` and
--   `_find_case_outcome`. Archives, `tomllib`, the regular expressions and the sandbox are parameters.
--   Verification.Verdicts, Verification.Promises and Verification.Contracts are about the reports.
-- - Agents.Registry, Agents.Records and Agents.Loop: src/repopilot/tools/registry.py, domain/agents.py and
--   agents/loop.py.
--   `execute_agent` is `AgentLoop.execute`, each model call of which is `generate` of Budget.Gateway on the
--   tables of the budget; Budget.Steps and Agents.Course follow the tables, and Agents.Promises is about
--   the results. The provider and the tools are parameters.
-- - Workspace.Files and Workspace.Tools: src/repopilot/tools/paths.py and tools/archive_workspace.py, the two
--   dictionaries of files that the tools of an agent read and change. Workspace.Edits and
--   Workspace.Confined are about the edits that it ends with. Workspace.Design has the checks of these
--   edits, and of a design of the model, against the change plan in src/repopilot/activities/developer.py;
--   Workspace.Operations, Workspace.Planned and Workspace.Delivered are about them.
-- - Artifacts: src/repopilot/domain/artifacts.py, services/artifact_store.py, infrastructure/artifacts/minio.py
--   and infrastructure/db/repositories.py. Artifacts.Refs has the references and their validators,
--   Artifacts.Access the table of kinds and roles, and Artifacts.Store the operations on the table
--   `artifacts` and on the object storage, which is the interface Artifacts.Objects with its laws.
--   Artifacts.Keys is about object keys; Artifacts.Intact and Artifacts.Promises are about writes.
-- - Domain.Tasks: the request for a run of src/repopilot/domain/tasks.py, with its validators.
-- - RunControl: src/repopilot/infrastructure/run_control.py. RunControl.Keys is the table
--   `idempotency_keys`, RunControl.Control is `create` and `get`, and RunControl.Reads has the other
--   operations. They work on the artifact store, the budgets and the projection as modelled here, and on
--   the workflow service, the interface in RunControl.Records. RunControl.Rows is about searches in
--   the table, RunControl.Created and RunControl.Kept about the branches of `create`,
--   RunControl.Keyed about sequences of requests, and RunControl.Replay, RunControl.Hidden,
--   RunControl.Backed, RunControl.Started and RunControl.Retry are about what the API promises.
-- - Projection.Store: `apply` and `get` of src/repopilot/infrastructure/db/run_projection.py, the copy
--   of the status of a run that the workflow sends on each transition, with the unique workflow ids
--   of the table in src/repopilot/infrastructure/db/models.py.
--
-- The workflow validates each transition with Run.Transitions, each approval with Run.Approvals, its
-- stages with Domain.Policies, and sends its events to Projection. Its activities plan with Scheduler,
-- verify with Verification and run Agents, which spend the budget of Budget. RunControl creates the
-- budget and the request's artifact before it starts the workflow, and reads Projection and Artifacts.
--
-- Bounds: `while True` of the repair loop is a recursion on a bound of three rounds. A repair begins in
-- the first two rounds only, and the exception that would show a used-up bound is never raised. The
-- rounds of the sealed tests are a recursion on `_QA_MAX_REVISIONS`. The steps of an agent are a
-- recursion on the limit of its calls; PHASE0_IMPLEMENTATION_DESIGN.md gives the planner and the reviewer
-- 3 calls, and the code, which is modelled here, 8. Each round of the two loops of the
-- scheduler takes up an item, so the number of items bounds them.
--
-- Conventions: money is counted in the smallest unit, times and identifiers are numbers, and the reason
-- of an approval is a list of code points. Contents of the workspace are lists of bytes. The log of the
-- workflow's state is not part of the program:
-- it records events for the statements. A run of a budget's transaction gets its time as an argument.
--
-- Not modelled: contents of the workspace that are not UTF-8, at which the decoding of an edit raises;
-- timeouts, retries and task queues of activities (an answer is the final one); the number of ready
-- activities in `asyncio.gather` (they are answered in order); the type name in the
-- warnings of the cleanup; a cancellation of the gateway while it settles; a second cancellation while
-- `asyncio.shield` protects the end of a run; lower case of letters beyond ASCII. A wait for an approval
-- that never ends has no result, so the model lets it end by a cancellation. Exceptions
-- of the sandbox, exceptions of the artifact store in activities, lost connections of the database and
-- the texts of messages and logs are left out. The requests of RunControl run one after the other. The
-- other tools, the reads of the workspace and all adapters to Docker, git, the provider and HTTP are
-- outside this library.
pub mod Prelude
pub mod Domain
pub mod Budget
pub mod Run
pub mod Projection
pub mod Scheduler
pub mod Verification
pub mod Agents
pub mod Workspace
pub mod Artifacts
pub mod RunControl

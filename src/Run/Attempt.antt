-- ===== src/Run/Attempt.antt =====
-- `_publish_blackboard` and `_run_candidate_attempt` of src/repopilot/workflows/code_repair.py: the
-- waves of developers, then verification and review.
use acoding_agent.Prelude.{
  ℕ, ◌+◌, ◌==◌, String, Bool, true, false, ◌&&◌, Option, none, some, List, [], ◌∷◌, map, is_empty,
  if◌then◌else◌,
}
use acoding_agent.Domain.Enums.{RunStatus}
use acoding_agent.Domain.Manifests.{dependency_manifest_paths}
use acoding_agent.Domain.Plans.{PlannedFileChange, WorkItem}
use acoding_agent.Run.World.{ArtifactRef, WorkflowInput, PlanChangeResult, Verdict}
use acoding_agent.Run.Monad.{
  verified, reviewed, key_error, M, ◌>>=◌, ◌>>◌, pure, get, modify, emit, patched, require,
  activity,
}
use acoding_agent.Run.Workflow.{transition}

unfoldable pub publish_blackboard : ArtifactRef → Option ArtifactRef → M ArtifactRef
publish_blackboard source previous = activity (λ w n. w.publish_blackboard n source previous)

-- Of two items with one id a dictionary keeps the last.
unfoldable pub work_item : ℕ → List WorkItem → Option WorkItem
work_item k [] = none
work_item k (item ∷ items) = elim (work_item k items) [
  | some later ↦ some later
  | none ↦ if item.work_item_id == k then some item else none
]

unfoldable pub files_of : ℕ → List PlannedFileChange → List PlannedFileChange
files_of k [] = []
files_of k (file ∷ files) =
    if file.work_item_id == k then file ∷ files_of k files else files_of k files

-- `integrated_by_item`, the latest entry first.
unfoldable pub integrated : ℕ → List (ℕ × ArtifactRef) → Option ArtifactRef
integrated k [] = none
integrated k ((j, ref) ∷ rest) = if j == k then some ref else integrated k rest

-- A missing key of a dictionary is a `KeyError`.
unfoldable pub integrated_refs : List ℕ → List (ℕ × ArtifactRef) → M (List ArtifactRef)
integrated_refs [] table = pure []
integrated_refs (k ∷ ks) table = do
  ref ← require (integrated k table) key_error
  refs ← integrated_refs ks table
  pure (ref ∷ refs)

abbrev pub planned_for : ℕ → List PlannedFileChange → M (List PlannedFileChange)
planned_for k files =
    if is_empty (files_of k files) then require none key_error else pure (files_of k files)

pub record AttemptInput : Type 0 where
  pub task_spec_ref : ArtifactRef
  pub snapshot_ref : ArtifactRef
  pub baseline_report_ref : ArtifactRef
  pub test_plan_ref : ArtifactRef
  pub dependency_layer_key : String
  pub plan : PlanChangeResult
  pub repair_feedback_ref : Option ArtifactRef
  pub investigation_ref : Option ArtifactRef
  pub blackboard_ref : Option ArtifactRef

pub record CandidateAttemptResult : Type 0 where
  pub verification_passed : Bool
  pub review_decision : Option Verdict
  pub feedback_ref : ArtifactRef

module _ (input : WorkflowInput) (a : AttemptInput) where
  -- The arguments of the first `asyncio.gather` of a wave, which are all built before it starts.
  unfoldable pub context_inputs :
      List (ℕ × ArtifactRef) → List ℕ → M (List (WorkItem × List ArtifactRef))
  context_inputs table [] = pure []
  context_inputs table (k ∷ ks) = do
    item ← require (work_item k a.plan.work_items) key_error
    refs ← integrated_refs item.dependencies table
    rest ← context_inputs table ks
    pure ((item, refs) ∷ rest)

  -- The first `asyncio.gather` of a wave: a context for each of its items, zipped with the wave.
  unfoldable pub build_contexts :
      List ℕ → List (WorkItem × List ArtifactRef) → M (List (ℕ × ArtifactRef))
  build_contexts (k ∷ ks) ((item, refs) ∷ rest) = do
    context ← activity (λ w n. w.build_developer_context n item a.task_spec_ref refs)
    contexts ← build_contexts ks rest
    pure ((k, context) ∷ contexts)
  build_contexts _ _ = pure []

  -- `develop`
  unfoldable pub develop : Bool → ℕ → ArtifactRef → M ArtifactRef
  develop agent_mode k context = do
    files ← planned_for k a.plan.planned_files
    activity (λ w n. w.develop_patch n agent_mode (record {
      developer_context_ref = context;
      task_spec_ref = a.task_spec_ref;
      planned_files = files;
      repair_feedback_ref = a.repair_feedback_ref;
      investigation_ref = if agent_mode then a.investigation_ref else none;
      blackboard_ref = if agent_mode then a.blackboard_ref else none;
      dependency_layer_key = if agent_mode then some a.dependency_layer_key else none;
    }))

  -- The second `asyncio.gather` of a wave.
  unfoldable pub develop_wave : Bool → List (ℕ × ArtifactRef) → M (List (ℕ × ArtifactRef))
  develop_wave agent_mode [] = pure []
  develop_wave agent_mode ((k, context) ∷ rest) = do
    proposal ← develop agent_mode k context
    proposals ← develop_wave agent_mode rest
    pure ((k, proposal) ∷ proposals)

  unfoldable pub integrate_wave :
      List (ℕ × ArtifactRef) → List (ℕ × ArtifactRef) → M (List (ℕ × ArtifactRef))
  integrate_wave table [] = pure table
  integrate_wave table ((k, proposal) ∷ rest) = do
    item ← require (work_item k a.plan.work_items) key_error
    patch ← activity (λ w n. w.integrate_patch n proposal item a.task_spec_ref)
    integrate_wave ((k, patch) ∷ table) rest

  unfoldable pub run_waves :
      Bool → List (List ℕ) → List (ℕ × ArtifactRef) → M (List (ℕ × ArtifactRef))
  run_waves agent_mode [] table = pure table
  run_waves agent_mode (wave ∷ waves) table = do
    inputs ← context_inputs table wave
    contexts ← build_contexts wave inputs
    proposals ← develop_wave agent_mode contexts
    table' ← integrate_wave table proposals
    run_waves agent_mode waves table'

  -- The dependency layer of the candidate: a new one if the plan changes a manifest.
  unfoldable pub candidate_dependencies : M String
  candidate_dependencies =
      if is_empty (dependency_manifest_paths (map (λ f. f.path) a.plan.planned_files))
      then pure a.dependency_layer_key
      else do
        snapshot ← activity (λ w n. w.scan_repository n a.task_spec_ref)
        activity (λ w n. w.prepare_dependencies n snapshot a.task_spec_ref)

  -- The part of `_run_candidate_attempt` behind a passed verification.
  unfoldable pub review_attempt : ArtifactRef → ArtifactRef → ArtifactRef → M CandidateAttemptResult
  review_attempt diff report source = do
    transition input RunStatus.reviewing
    agent_patch ← patched "reviewer-agent-loop-v1"
    s ← get
    review ← activity (λ w n.
        w.review_candidate n (input.reviewer_agent_mode && agent_patch) (record {
          task_spec_ref = a.task_spec_ref;
          diff_ref = diff;
          verification_ref = report;
          attempt = s.repair_rounds + 1;
          candidate_source_ref = source;
          blackboard_ref = a.blackboard_ref;
        }))
    emit (reviewed review.decision)
    modify (λ s. record s { review_ref = some review.review_ref })
    pure (record {
      verification_passed = true;
      review_decision = some review.decision;
      feedback_ref = review.review_ref;
    })

  -- `_run_candidate_attempt`
  unfoldable pub run_candidate_attempt : M CandidateAttemptResult
  run_candidate_attempt = do
    agent_patch ← patched "developer-agent-loop-v1"
    run_waves (input.developer_agent_mode && agent_patch) a.plan.waves []
    transition input RunStatus.verifying
    candidate ← activity (λ w n. w.export_candidate n a.task_spec_ref.run_id)
    modify (λ s. record s { final_revision = some candidate.revision })
    key ← candidate_dependencies
    diff ← activity (λ w n. w.build_final_diff n a.task_spec_ref.run_id)
    modify (λ s. record s { patch_ref = some diff })
    result ← activity (λ w n. w.verify_candidate n (record {
      snapshot_ref = a.snapshot_ref;
      baseline_report_ref = a.baseline_report_ref;
      test_plan_ref = a.test_plan_ref;
      candidate_source_ref = candidate.source_archive_ref;
      candidate_revision = candidate.revision;
      dependency_layer_key = key;
    }))
    emit (verified result.passed)
    modify (λ s. record s { verification_ref = some result.report_ref })
    if result.passed
        then review_attempt diff result.report_ref candidate.source_archive_ref
        else pure (record {
          verification_passed = false;
          review_decision = none;
          feedback_ref = result.report_ref;
        })

-- ===== src/Run/Candidate.antt =====
-- `_run_candidate_attempt` of src/repopilot/workflows/code_repair.py as a step between points.
use acoding_agent.Prelude.{
  ℕ, ◌≡◌, refl, Bool, true, List, [], ◌∷◌, Option, none, some, is_empty, map,
}
use acoding_agent.Domain.Enums.{RunStatus}
use acoding_agent.Domain.Manifests.{dependency_manifest_paths}
use acoding_agent.Domain.Plans.{WorkItem, PlannedFileChange}
use acoding_agent.Run.World.{WorkflowInput, ArtifactRef, Verdict, approved}
use acoding_agent.Run.Monad.{Event, verified, reviewed, key_error}
use acoding_agent.Run.Attempt.{
  integrated, integrated_refs, planned_for, files_of, AttemptInput, work_item, context_inputs,
  build_contexts, develop, develop_wave, integrate_wave, run_waves, candidate_dependencies,
  publish_blackboard,
}
use acoding_agent.Run.Logic.{Triple, bind, give, act, need, branch}
use acoding_agent.Run.Points.{IsStable, Point, Raises, Point-Raises, last_verified, last_reviewed}

-- The latest verification passed, and the latest review approved the candidate.
abbrev pub Accepted : List Event → Type 0
Accepted log = (last_verified log ≡ some true) × (last_reviewed log ≡ some approved)

-- What the log shows survives verifications and reviews too.
pub record IsPersistent (G : List Event → Type 0) : Type 0 where
  pub stable : IsStable G
  pub on_verified : (b : Bool) (log : List Event) → G log → G (verified b ∷ log)
  pub on_reviewed : (v : Verdict) (log : List Event) → G log → G (reviewed v ∷ log)

module _ {n : ℕ} {next : List RunStatus} {G : List Event → Type 0} where
  pub publish_blackboard-keeps :
      (source : ArtifactRef) (previous : Option ArtifactRef)
      → Triple (Point n next G) (publish_blackboard source previous) (λ _. Point n next G) Raises
  unfolding publish_blackboard
  publish_blackboard-keeps source previous = act Point-Raises _

  integrated_refs-keeps :
      (ks : List ℕ) (table : List (ℕ × ArtifactRef))
      → Triple (Point n next G) (integrated_refs ks table) (λ _. Point n next G) Raises
  unfolding integrated_refs
  integrated_refs-keeps [] table = give [] (λ c p. p)
  integrated_refs-keeps (k ∷ ks) table =
      bind (need Point-Raises (integrated k table) key_error refl)
        (λ ref. bind (integrated_refs-keeps ks table) (λ refs. give (ref ∷ refs) (λ c p. p)))

  planned_for-keeps :
      (k : ℕ) (files : List PlannedFileChange)
      → Triple (Point n next G) (planned_for k files) (λ _. Point n next G) Raises
  planned_for-keeps k files =
      branch (is_empty (files_of k files)) (λ _. need Point-Raises none key_error refl)
        (λ _. give (files_of k files) (λ c p. p))

  module _ (input : WorkflowInput) (a : AttemptInput) where
    context_inputs-keeps :
        (table : List (ℕ × ArtifactRef)) (ks : List ℕ)
        → Triple (Point n next G) (context_inputs input a table ks) (λ _. Point n next G) Raises
    unfolding context_inputs
    context_inputs-keeps table [] = give [] (λ c p. p)
    context_inputs-keeps table (k ∷ ks) =
        bind (need Point-Raises (work_item k a.plan.work_items) key_error refl) (λ item.
          bind (integrated_refs-keeps item.dependencies table) (λ refs.
            bind (context_inputs-keeps table ks) (λ rest. give ((item, refs) ∷ rest) (λ c p. p))))

    build_contexts-keeps :
        (ks : List ℕ) (items : List (WorkItem × List ArtifactRef))
        → Triple (Point n next G) (build_contexts input a ks items) (λ _. Point n next G) Raises
    unfolding build_contexts
    build_contexts-keeps (k ∷ ks) ((item, refs) ∷ rest) = bind (act Point-Raises _) (λ context.
        bind (build_contexts-keeps ks rest) (λ contexts. give ((k, context) ∷ contexts) (λ c p. p)))
    build_contexts-keeps [] _ = give [] (λ c p. p)
    build_contexts-keeps (k ∷ ks) [] = give [] (λ c p. p)

    develop-keeps :
        (agent_mode : Bool) (k : ℕ) (context : ArtifactRef)
        → Triple
            (Point n next G)
            (develop input a agent_mode k context)
            (λ _. Point n next G)
            Raises
    unfolding develop
    develop-keeps agent_mode k context =
        bind (planned_for-keeps k a.plan.planned_files) (λ files. act Point-Raises _)

    develop_wave-keeps :
        (agent_mode : Bool) (contexts : List (ℕ × ArtifactRef))
        → Triple
            (Point n next G)
            (develop_wave input a agent_mode contexts)
            (λ _. Point n next G)
            Raises
    unfolding develop_wave
    develop_wave-keeps agent_mode [] = give [] (λ c p. p)
    develop_wave-keeps agent_mode ((k, context) ∷ rest) =
        bind (develop-keeps agent_mode k context) (λ proposal.
          bind (develop_wave-keeps agent_mode rest)
            (λ proposals. give ((k, proposal) ∷ proposals) (λ c p. p)))

    integrate_wave-keeps :
        (table proposals : List (ℕ × ArtifactRef))
        → Triple
            (Point n next G)
            (integrate_wave input a table proposals)
            (λ _. Point n next G)
            Raises
    unfolding integrate_wave
    integrate_wave-keeps table [] = give table (λ c p. p)
    integrate_wave-keeps table ((k, proposal) ∷ rest) =
        bind (need Point-Raises (work_item k a.plan.work_items) key_error refl) (λ item.
          bind (act Point-Raises _) (λ patch. integrate_wave-keeps ((k, patch) ∷ table) rest))

    pub run_waves-keeps :
        (agent_mode : Bool) (waves : List (List ℕ)) (table : List (ℕ × ArtifactRef))
        → Triple
            (Point n next G)
            (run_waves input a agent_mode waves table)
            (λ _. Point n next G)
            Raises
    unfolding run_waves
    run_waves-keeps agent_mode [] table = give table (λ c p. p)
    run_waves-keeps agent_mode (wave ∷ waves) table =
        bind (context_inputs-keeps table wave) (λ inputs.
          bind (build_contexts-keeps wave inputs) (λ contexts.
            bind (develop_wave-keeps agent_mode contexts) (λ proposals.
              bind (integrate_wave-keeps table proposals)
                (λ table'. run_waves-keeps agent_mode waves table'))))

    pub candidate_dependencies-keeps :
        Triple (Point n next G) (candidate_dependencies input a) (λ _. Point n next G) Raises
    unfolding candidate_dependencies
    candidate_dependencies-keeps =
        branch (is_empty (dependency_manifest_paths (map (λ f. f.path) a.plan.planned_files)))
          (λ _. give a.dependency_layer_key (λ c p. p))
          (λ _. bind (act Point-Raises _) (λ snapshot. act Point-Raises _))

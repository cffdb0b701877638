-- ===== src/Scheduler/Plan.antt =====
-- The checks of a change plan in src/repopilot/services/scheduler.py, and the work items built from it.
-- Identifiers are numbers, and `sorted(…, key=str)` orders them.
use acoding_agent.Prelude.{
  ℕ, ◌==◌, Bool, false, ◌||◌, not, List, [], ◌∷◌, ◌++◌, map, length, is_empty, ltb, if◌then◌else◌,
  Text, text_eq, mem_text, mem,
}
use acoding_agent.Prelude.Checked.{Checked, accepted, ◌>>=◌, ◌>>◌, refuse_if, found_or, check_all}
use acoding_agent.Domain.Plans.{PlannedFileChange, ChangePlan}
use acoding_agent.Scheduler.Paths.{normalize_plan_path}
use acoding_agent.Scheduler.Dag.{Edges, distinct_edges, drain, start}

-- The refusals, each an `InvalidPlanError` with a message of its own.
pub data InvalidPlan : Type 0 where
  no_files too_many_files path_not_unique unknown_edge_end self_dependency cyclic : InvalidPlan
  bad_concurrency items_not_unique deleted_interface : InvalidPlan
  bad_path : (path : Text) → InvalidPlan
  other_owner unknown_item other_write_paths other_dependencies : (work_item_id : ℕ) → InvalidPlan

abbrev pub normalize : Text → Checked InvalidPlan Text
normalize path = found_or (InvalidPlan.bad_path path) (normalize_plan_path path)

-- `len(set(paths)) != len(paths)`
unfoldable pub repeats : List Text → Bool
repeats [] = false
repeats (t ∷ ts) = mem_text t ts || repeats ts

unfoldable pub repeats_id : List ℕ → Bool
repeats_id [] = false
repeats_id (x ∷ xs) = mem x xs || repeats_id xs

-- `{file.work_item_id for file in plan.files}`, in some order.
unfoldable pub distinct_ids : List ℕ → List ℕ
distinct_ids [] = []
distinct_ids (x ∷ xs) = let rest = distinct_ids xs in if mem x rest then rest else x ∷ rest

-- `owner_by_item.setdefault(item, owner)`: the owner of the first file of the item.
unfoldable pub owner_of : ℕ → Text → List PlannedFileChange → Text
owner_of item owner [] = owner
owner_of item owner (f ∷ fs) = if f.work_item_id == item then f.owner else owner_of item owner fs

-- The loop over `plan.files`, with the files before it.
unfoldable pub check_owners :
    List PlannedFileChange → List PlannedFileChange → Checked InvalidPlan (Unit {0})
unfolding owner_of
check_owners before [] = accepted tt
check_owners before (f ∷ fs) = do
  refuse_if (not (text_eq (owner_of f.work_item_id f.owner before) f.owner))
      (InvalidPlan.other_owner f.work_item_id)
  interfaces ← check_all normalize f.required_interfaces
  check_owners (before ++ (f ∷ [])) fs

-- The checks on the two ends of each edge.
unfoldable pub check_edges : List ℕ → Edges → Checked InvalidPlan (Unit {0})
check_edges ids [] = accepted tt
check_edges ids ((u, d) ∷ edges) = do
  refuse_if (not (mem u ids) || not (mem d ids)) InvalidPlan.unknown_edge_end
  refuse_if (u == d) InvalidPlan.self_dependency
  check_edges ids edges

-- `validate_change_plan`
unfoldable pub validate_change_plan : ChangePlan → Checked InvalidPlan (Unit {0})
unfolding repeats distinct_ids check_owners check_edges drain
validate_change_plan plan = do
  refuse_if (is_empty plan.files) InvalidPlan.no_files
  refuse_if (ltb 20 (length plan.files)) InvalidPlan.too_many_files
  let ids = distinct_ids (map PlannedFileChange.work_item_id plan.files)
  paths ← check_all (λ f. normalize f.path) plan.files
  refuse_if (repeats paths) InvalidPlan.path_not_unique
  check_owners [] plan.files
  check_edges ids plan.dependency_edges
  let edges = distinct_edges [] plan.dependency_edges
  refuse_if (not (length (drain edges (length ids) (start edges ids)) == length ids))
      InvalidPlan.cyclic

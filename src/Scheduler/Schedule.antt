-- ===== src/Scheduler/Schedule.antt =====
-- `build_schedule` of src/repopilot/services/scheduler.py.
use acoding_agent.Prelude.{
  ℕ, ◌==◌, Bool, true, false, ◌&&◌, ◌||◌, not, List, [], ◌∷◌, ◌++◌, map, any, all, length, leb,
  if◌then◌else◌, Text, text_eq, mem_text, mem,
}
use acoding_agent.Prelude.Tables.{find, sum}
use acoding_agent.Prelude.Checked.{Checked, accepted, ◌>>=◌, ◌>>◌, refuse_if, found_or, check_all}
use acoding_agent.Domain.Plans.{Operation, PlannedFileChange, ChangePlan, WorkItem}
use acoding_agent.Scheduler.Dag.{Edges, distinct_edges, sources, waves_from, start_sorted}
use acoding_agent.Scheduler.Plan.{
  InvalidPlan, normalize, repeats_id, owner_of, validate_change_plan,
}

pub record SchedulePlan : Type 0 where
  pub waves : List (List ℕ)
  pub max_concurrency : ℕ

-- What the loop over `plan.files` collects.
pub record Collected : Type 0 where
  pub before : List PlannedFileChange
  pub paths : List (ℕ × Text)
  pub deleted_paths : List Text
  pub required_interfaces : List Text

abbrev pub is_delete : Operation → Bool
is_delete Operation.delete = true
is_delete _ = false

-- One round of the loop.
unfoldable pub collect :
    List WorkItem → PlannedFileChange → Collected → Checked InvalidPlan Collected
unfolding owner_of find
collect work_items f c = do
  item ←
      found_or (InvalidPlan.unknown_item f.work_item_id)
        (find WorkItem.work_item_id f.work_item_id work_items)
  path ← normalize f.path
  refuse_if (any (λ (owner, p). text_eq path p) c.paths) InvalidPlan.path_not_unique
  refuse_if
      (not (text_eq (owner_of f.work_item_id f.owner c.before) f.owner)
        || not (text_eq item.owner f.owner))
      (InvalidPlan.other_owner f.work_item_id)
  interfaces ← check_all normalize f.required_interfaces
  accepted (record {
    before = c.before ++ (f ∷ []);
    paths = c.paths ++ ((f.work_item_id, path) ∷ []);
    deleted_paths =
        if is_delete f.operation then c.deleted_paths ++ (path ∷ []) else c.deleted_paths;
    required_interfaces = c.required_interfaces ++ interfaces;
  })

unfoldable pub collect_all :
    List WorkItem → List PlannedFileChange → Collected → Checked InvalidPlan Collected
unfolding collect
collect_all work_items [] c = accepted c
collect_all work_items (f ∷ fs) c = collect work_items f c >>= collect_all work_items fs

-- `planned_paths_by_item[item]`
unfoldable pub planned_paths : ℕ → List (ℕ × Text) → List Text
planned_paths item [] = []
planned_paths item ((owner, path) ∷ rest) =
    let others = planned_paths item rest in if owner == item then path ∷ others else others

-- Equality of sets, given as lists.
abbrev pub same_paths : List Text → List Text → Bool
same_paths xs ys = all (λ x. mem_text x ys) xs && all (λ y. mem_text y xs) ys

abbrev pub same_ids : List ℕ → List ℕ → Bool
same_ids xs ys = all (λ x. mem x ys) xs && all (λ y. mem y xs) ys

unfoldable pub check_write_paths : List (ℕ × Text) → List WorkItem → Checked InvalidPlan (Unit {0})
unfolding planned_paths
check_write_paths paths [] = accepted tt
check_write_paths paths (item ∷ items) = do
  actual ← check_all normalize item.allowed_write_paths
  refuse_if (not (same_paths actual (planned_paths item.work_item_id paths)))
      (InvalidPlan.other_write_paths item.work_item_id)
  check_write_paths paths items

unfoldable pub check_edge_ends : List ℕ → Edges → Checked InvalidPlan (Unit {0})
check_edge_ends ids [] = accepted tt
check_edge_ends ids ((u, d) ∷ edges) = do
  refuse_if (not (mem u ids) || not (mem d ids)) InvalidPlan.unknown_edge_end
  check_edge_ends ids edges

unfoldable pub check_dependencies : Edges → List WorkItem → Checked InvalidPlan (Unit {0})
check_dependencies edges [] = accepted tt
check_dependencies edges (item ∷ items) = do
  refuse_if (not (same_ids item.dependencies (sources edges item.work_item_id)))
      (InvalidPlan.other_dependencies item.work_item_id)
  check_dependencies edges items

-- The graph and its waves; the bound of the rounds is the number of items.
unfoldable pub schedule : ℕ → List ℕ → Edges → Checked InvalidPlan SchedulePlan
schedule max_concurrency ids edges = do
  let waves = waves_from edges max_concurrency (length ids) (start_sorted edges ids)
  refuse_if (not (sum length waves == length ids)) InvalidPlan.cyclic
  accepted (record { waves = waves; max_concurrency = max_concurrency })

unfoldable pub build_schedule :
    ChangePlan → List WorkItem → (max_concurrency : ℕ) → Checked InvalidPlan SchedulePlan
unfolding validate_change_plan collect_all check_write_paths check_edge_ends check_dependencies
    schedule
build_schedule plan work_items max_concurrency = do
  refuse_if (not (leb 1 max_concurrency && leb max_concurrency 4)) InvalidPlan.bad_concurrency
  validate_change_plan plan
  let ids = map WorkItem.work_item_id work_items
  refuse_if (repeats_id ids) InvalidPlan.items_not_unique
  c ←
      collect_all work_items plan.files
        (record { before = []; paths = []; deleted_paths = []; required_interfaces = [] })
  refuse_if (any (λ path. mem_text path c.required_interfaces) c.deleted_paths)
      InvalidPlan.deleted_interface
  check_write_paths c.paths work_items
  check_edge_ends ids plan.dependency_edges
  let edges = distinct_edges [] plan.dependency_edges
  check_dependencies edges work_items
  schedule max_concurrency ids edges

-- ===== src/Scheduler/Items.antt =====
-- `add_inferred_risk_flags` and `materialize_work_items` of src/repopilot/services/scheduler.py.
use acoding_agent.Prelude.{
  ℕ, ◌==◌, Bool, true, false, not, List, [], ◌∷◌, ◌++◌, map, any, length, is_empty, leb,
  if◌then◌else◌, Text, sorted_texts, codes, starts_with, sorted_ids, sorted_set, is_yes,
}
use acoding_agent.Prelude.Checked.{Checked, accepted, ◌>>=◌, ◌>>◌, check_all}
use acoding_agent.Domain.Enums.{RiskFlag}
use acoding_agent.Domain.Plans.{PlannedFileChange, ChangePlan, WorkItemKind, WorkItem}
use acoding_agent.Domain.Manifests.{dependency_manifest_paths}
use acoding_agent.Scheduler.Dag.{sources}
use acoding_agent.Scheduler.Plan.{InvalidPlan, normalize, distinct_ids, validate_change_plan}

pub RiskFlag-discrete : Discrete RiskFlag
RiskFlag-discrete = hlevel

unfoldable pub mem_flag : RiskFlag → List RiskFlag → Bool
unfolding RiskFlag-discrete
mem_flag flag flags = any (λ g. is_yes (RiskFlag-discrete flag g)) flags

-- The flags in the order of their values.
abbrev pub all_flags : List RiskFlag
all_flags =
    RiskFlag.auth_change ∷ RiskFlag.ci_config ∷ RiskFlag.dependency_change ∷ RiskFlag.large_scope
    ∷ RiskFlag.migration ∷ RiskFlag.prompt_injection_suspected
    ∷ RiskFlag.unclear_acceptance_criteria ∷ []

-- `tuple(sorted(flags, key=lambda flag: flag.value))` of the set `flags`.
unfoldable pub sorted_flags : List RiskFlag → List RiskFlag → List RiskFlag
sorted_flags flags [] = []
sorted_flags flags (f ∷ fs) =
    let rest = sorted_flags flags fs in if mem_flag f flags then f ∷ rest else rest

abbrev pub add_if : Bool → RiskFlag → List RiskFlag → List RiskFlag
add_if true flag flags = flag ∷ flags
add_if false flag flags = flags

unfoldable pub add_inferred_risk_flags : ChangePlan → Checked InvalidPlan ChangePlan
unfolding sorted_flags mem_flag
add_inferred_risk_flags plan = do
  paths ← check_all (λ f. normalize f.path) plan.files
  let changed =
      add_if (not (is_empty (dependency_manifest_paths paths))) RiskFlag.dependency_change
        plan.risk_flags
  let ci = add_if (any (starts_with (codes ".github/workflows/")) paths) RiskFlag.ci_config changed
  let flags = add_if (leb 10 (length paths)) RiskFlag.large_scope ci
  accepted (record plan { risk_flags = sorted_flags flags all_flags })

-- The files of an item.
unfoldable pub files_of : ℕ → List PlannedFileChange → List PlannedFileChange
files_of item [] = []
files_of item (f ∷ fs) =
    let rest = files_of item fs in if f.work_item_id == item then f ∷ rest else rest

-- `owner_by_item[item]`: each file of the item overwrites the owner, so the last one stays.
unfoldable pub last_owner : ℕ → Text → List PlannedFileChange → Text
last_owner item owner [] = owner
last_owner item owner (f ∷ fs) =
    last_owner item (if f.work_item_id == item then f.owner else owner) fs

-- `update(…)` of the paths that a file reads, for each file.
unfoldable pub interfaces_of : List PlannedFileChange → Checked InvalidPlan (List Text)
interfaces_of [] = accepted []
interfaces_of (f ∷ fs) = do
  here ← check_all normalize f.required_interfaces
  rest ← interfaces_of fs
  accepted (here ++ rest)

-- The set `dependencies_by_item[item]`, sorted.
abbrev pub dependencies_of : ℕ → List (ℕ × ℕ) → List ℕ
dependencies_of item edges = sorted_ids (distinct_ids (sources edges item))

unfoldable pub work_item : ChangePlan → (run_id item : ℕ) → Checked InvalidPlan WorkItem
unfolding files_of last_owner interfaces_of sorted_texts
work_item plan run_id item = do
  writes ← check_all (λ f. normalize f.path) (files_of item plan.files)
  reads ← interfaces_of (files_of item plan.files)
  accepted (record {
    work_item_id = item;
    run_id = run_id;
    kind = WorkItemKind.code;
    dependencies = dependencies_of item plan.dependency_edges;
    allowed_write_paths = sorted_texts writes;
    read_paths = sorted_set (reads ++ writes);
    owner = last_owner item [] plan.files;
    attempt = 1;
  })

unfoldable pub materialize_work_items : ChangePlan → ℕ → Checked InvalidPlan (List WorkItem)
unfolding validate_change_plan work_item
materialize_work_items plan run_id = do
  validate_change_plan plan
  check_all (work_item plan run_id)
      (sorted_ids (distinct_ids (map PlannedFileChange.work_item_id plan.files)))

-- ===== src/Scheduler/Tests.antt =====
-- A plan of three files and two work items, the second of which depends on the first.
use acoding_agent.Prelude.{
  ℕ, ◌==◌, if◌then◌else◌, arith, ◌≡◌, ◌≢◌, ◌≤◌, ◌<◌, refl, true, none, some, List, [], ◌∷◌, length,
  map, All, all, Text, codes, split_on, count, sorted_ids, sorted_set,
}
use acoding_agent.Prelude.Tables.{sum, find}
use acoding_agent.Prelude.Checked.{accepted, refused, ◌>>=◌, ◌>>◌, check_all, refuse_if, found_or}
use acoding_agent.Domain.Plans.{Operation, PlannedFileChange, ChangePlan, WorkItemKind, WorkItem}
use acoding_agent.Scheduler.Dag.{
  Edges, distinct_edges, targets, sources, indegree_of, release_all, with_indegree_zero, pop_last,
  drain, complete_wave, waves_from,
}
use acoding_agent.Scheduler.Acyclic.{IsAcyclic}
use acoding_agent.Scheduler.Paths.{normpath, normalize_plan_path}
use acoding_agent.Scheduler.PathParts.{is_name}
use acoding_agent.Scheduler.PathNormal.{normalize_plan_path-names, normalize_plan_path-twice}
use acoding_agent.Scheduler.Plan.{
  InvalidPlan, repeats, repeats_id, distinct_ids, check_owners, check_edges, validate_change_plan,
}
use acoding_agent.Scheduler.Items.{materialize_work_items, work_item}
use acoding_agent.Scheduler.Schedule.{
  SchedulePlan, collect, collect_all, planned_paths, check_write_paths, check_edge_ends,
  check_dependencies, schedule, build_schedule,
}
use acoding_agent.Scheduler.Order.{wave_index}
use acoding_agent.Scheduler.Validation.{validate_change_plan-IsAcyclic}
use acoding_agent.Scheduler.Promises.{
  build_schedule-items, build_schedule-dependencies, build_schedule-width,
  build_schedule-never-cyclic,
}

abbrev file : ℕ → Text → Text → PlannedFileChange
file item path owner = record {
  work_item_id = item;
  path = path;
  operation = Operation.modify;
  owner = owner;
  responsibility = [];
  required_interfaces = [];
}

abbrev plan_with : Edges → ChangePlan
plan_with edges = record {
  plan_id = 1;
  version = 1;
  supersedes_plan_id = none;
  files =
      file 7 (codes "./src/b.py") (codes "x")
      ∷ file 5 (codes "src\\a.py") (codes "y")
      ∷ file 7 (codes "docs/../c.py") (codes "x")
      ∷ [];
  dependency_edges = edges;
  risk_flags = [];
  scope_expansion_reason = none;
}

abbrev edge : Edges
edge = (7, 5) ∷ (7, 5) ∷ []

abbrev first_item : WorkItem
first_item = record {
  work_item_id = 5;
  run_id = 3;
  kind = WorkItemKind.code;
  dependencies = 7 ∷ [];
  allowed_write_paths = codes "src/a.py" ∷ [];
  read_paths = codes "src/a.py" ∷ [];
  owner = codes "y";
  attempt = 1;
}

abbrev second_item : WorkItem
second_item = record {
  work_item_id = 7;
  run_id = 3;
  kind = WorkItemKind.code;
  dependencies = [];
  allowed_write_paths = codes "c.py" ∷ codes "src/b.py" ∷ [];
  read_paths = codes "c.py" ∷ codes "src/b.py" ∷ [];
  owner = codes "x";
  attempt = 1;
}

abbrev items : List WorkItem
items = first_item ∷ second_item ∷ []

abbrev two_waves : SchedulePlan
two_waves = record { waves = (7 ∷ []) ∷ (5 ∷ []) ∷ []; max_concurrency = 4 }

materialized : materialize_work_items (plan_with edge) 3 ≡ accepted items
unfolding materialize_work_items validate_change_plan ◌>>=◌ ◌>>◌ check_all refuse_if found_or
    normalize_plan_path normpath distinct_edges targets sources indegree_of release_all
    with_indegree_zero pop_last drain work_item repeats distinct_ids check_owners check_edges
    sorted_ids sorted_set
materialized = refl

scheduled : build_schedule (plan_with edge) items 4 ≡ accepted two_waves
unfolding build_schedule validate_change_plan ◌>>=◌ ◌>>◌ check_all refuse_if found_or
    normalize_plan_path normpath distinct_edges targets sources indegree_of release_all
    with_indegree_zero pop_last drain repeats distinct_ids check_owners check_edges sorted_ids
    collect_all collect find repeats_id check_write_paths planned_paths check_edge_ends
    check_dependencies schedule waves_from complete_wave sum
scheduled = refl

both_ways : Edges
both_ways = (7, 5) ∷ (5, 7) ∷ []

cyclic_refused : validate_change_plan (plan_with both_ways) ≡ refused InvalidPlan.cyclic
unfolding both_ways validate_change_plan ◌>>=◌ ◌>>◌ check_all refuse_if found_or normalize_plan_path
    normpath distinct_edges targets sources indegree_of release_all with_indegree_zero pop_last
    drain repeats distinct_ids check_owners check_edges sorted_ids
cyclic_refused = refl

valid : validate_change_plan (plan_with edge) ≡ accepted tt
unfolding validate_change_plan ◌>>=◌ ◌>>◌ check_all refuse_if found_or normalize_plan_path normpath
    distinct_edges targets sources indegree_of release_all with_indegree_zero pop_last drain repeats
    distinct_ids check_owners check_edges sorted_ids
valid = refl

up_refused : normalize_plan_path (codes "src/../../etc") ≡ none
unfolding normalize_plan_path normpath
up_refused = refl

cleaned : normalize_plan_path (codes "./src//x/../a.py") ≡ some (codes "src/a.py")
unfolding normalize_plan_path normpath
cleaned = refl

edge-IsAcyclic : IsAcyclic edge
edge-IsAcyclic = (λ x. if x == 7 then 0 else 1, (ground arith, (ground arith, tt)))

normalize_plan_path-names_example : all is_name (split_on b'/' (codes "src/a.py")) ≡ true
normalize_plan_path-names_example =
    normalize_plan_path-names (codes "./src//x/../a.py") (codes "src/a.py") cleaned

normalize_plan_path-twice_example : normalize_plan_path (codes "src/a.py") ≡ some (codes "src/a.py")
normalize_plan_path-twice_example =
    normalize_plan_path-twice (codes "./src//x/../a.py") (codes "src/a.py") cleaned

validate_change_plan-IsAcyclic_example : IsAcyclic edge
validate_change_plan-IsAcyclic_example = validate_change_plan-IsAcyclic (plan_with edge) valid

build_schedule-items_example :
    (sum (count 5) two_waves.waves ≡ count 5 (map WorkItem.work_item_id items))
    × (count 5 (map WorkItem.work_item_id items) ≤ 1)
build_schedule-items_example = build_schedule-items (plan_with edge) items 4 two_waves scheduled 5

build_schedule-dependencies_example : wave_index 7 two_waves.waves < wave_index 5 two_waves.waves
build_schedule-dependencies_example =
    build_schedule-dependencies (plan_with edge) items 4 two_waves 7 5 scheduled refl

build_schedule-width_example :
    All (λ wave. length wave ≤ 4) two_waves.waves
    × (two_waves.max_concurrency ≡ 4)
    × (1 ≤ 4)
    × (4 ≤ 4)
build_schedule-width_example = build_schedule-width (plan_with edge) items 4 two_waves scheduled

build_schedule-never-cyclic_example :
    build_schedule (plan_with edge) items 4 ≢ refused InvalidPlan.cyclic
build_schedule-never-cyclic_example =
    build_schedule-never-cyclic (plan_with edge) items 4 edge-IsAcyclic

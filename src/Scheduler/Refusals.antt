-- ===== src/Scheduler/Refusals.antt =====
-- The checks of `build_schedule` that do not look for cycles.
use acoding_agent.Prelude.{ℕ, ◌≢◌, List, [], ◌∷◌, Text}
use acoding_agent.Prelude.Checked.{
  refused, found_or-never, check_all-never, >>-never, >>=-never, refuse_if-never,
}
use acoding_agent.Domain.Plans.{PlannedFileChange, WorkItem}
use acoding_agent.Scheduler.Dag.{Edges}
use acoding_agent.Scheduler.Plan.{InvalidPlan, normalize}
use acoding_agent.Scheduler.Schedule.{
  Collected, collect_all, check_write_paths, check_edge_ends, check_dependencies, collect,
}
use acoding_agent.Scheduler.Validation.{normalize-never}

pub collect_all-never :
    (work_items : List WorkItem) (files : List PlannedFileChange) (c : Collected)
    → collect_all work_items files c ≢ refused InvalidPlan.cyclic
unfolding collect_all collect
collect_all-never work_items [] c = λ h. cc
collect_all-never work_items (f ∷ fs) c =
    >>=-never
      (>>=-never (found_or-never _ _ _ λ e. cc) λ item found.
        >>=-never (normalize-never f.path) λ path e.
          >>-never (refuse_if-never _ _ _ λ e2. cc) λ alone.
            >>-never (refuse_if-never _ _ _ λ e2. cc) λ owner.
              >>=-never (check_all-never normalize _ f.required_interfaces normalize-never)
                λ interfaces e2 h. cc)
      λ next e. collect_all-never work_items fs next

pub check_write_paths-never :
    (paths : List (ℕ × Text)) (items : List WorkItem)
    → check_write_paths paths items ≢ refused InvalidPlan.cyclic
unfolding check_write_paths
check_write_paths-never paths [] = λ h. cc
check_write_paths-never paths (item ∷ items) =
    >>=-never (check_all-never normalize _ item.allowed_write_paths normalize-never) λ actual e.
      >>-never (refuse_if-never _ _ _ λ e2. cc) λ same. check_write_paths-never paths items

pub check_edge_ends-never :
    (ids : List ℕ) (edges : Edges) → check_edge_ends ids edges ≢ refused InvalidPlan.cyclic
unfolding check_edge_ends
check_edge_ends-never ids [] = λ h. cc
check_edge_ends-never ids ((u, d) ∷ edges) =
    >>-never (refuse_if-never _ _ _ λ e. cc) λ known. check_edge_ends-never ids edges

pub check_dependencies-never :
    (edges : Edges) (items : List WorkItem)
    → check_dependencies edges items ≢ refused InvalidPlan.cyclic
unfolding check_dependencies
check_dependencies-never edges [] = λ h. cc
check_dependencies-never edges (item ∷ items) =
    >>-never (refuse_if-never _ _ _ λ e. cc) λ same. check_dependencies-never edges items

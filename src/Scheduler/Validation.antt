-- ===== src/Scheduler/Validation.antt =====
-- What `validate_change_plan` promises: it refuses exactly the graphs that have a cycle.
use acoding_agent.Prelude.{
  ℕ, ◌==◌, ◌≡◌, ◌≢◌, ◌≤◌, ◌↔◌, refl, Bool, true, List, [], ◌∷◌, ◌++◌, length, map, if◌then◌else◌,
  mem, count, count-mem, count-not_mem, arith, Bool-cases, inl, inr, Text,
}
use acoding_agent.Prelude.Checked.{
  accepted, refused, found_or-never, check_all-never, >>-never, >>=-never, refuse_if-never,
  refuse_if-eq-refused, refuse_if-eq-accepted, >>-eq-accepted, >>=-eq-accepted,
}
use acoding_agent.Domain.Plans.{PlannedFileChange, ChangePlan}
use acoding_agent.Scheduler.Paths.{normalize_plan_path}
use acoding_agent.Scheduler.Dag.{Edges, distinct_edges, drain, start}
use acoding_agent.Scheduler.Progress.{IsWithin}
use acoding_agent.Scheduler.Acyclic.{IsAcyclic}
use acoding_agent.Scheduler.Distinct.{distinct_edges-IsWithin, distinct_edges-IsAcyclic}
use acoding_agent.Scheduler.Drain.{length-drain-IsAcyclic}
use acoding_agent.Scheduler.Plan.{
  InvalidPlan, normalize, distinct_ids, check_owners, check_edges, validate_change_plan,
}

count-distinct_ids : (x : ℕ) (xs : List ℕ) → count x (distinct_ids xs) ≡ (if mem x xs then 1 else 0)
unfolding distinct_ids count
count-distinct_ids x [] = refl
count-distinct_ids x (y ∷ xs) = elim (Bool-cases (mem y (distinct_ids xs))) [
  | inl old ↦
      ground
        (arith, count-distinct_ids x xs, count-distinct_ids y xs, count-mem y (distinct_ids xs) old)
  | inr new_ ↦ ground (
    arith,
    count-distinct_ids x xs,
    count-distinct_ids y xs,
    count-not_mem y (distinct_ids xs) new_,
  )
]

check_edges-IsWithin :
    (ids : List ℕ) (edges : Edges) → check_edges ids edges ≡ accepted tt → IsWithin ids edges
unfolding check_edges
check_edges-IsWithin ids [] h = tt
check_edges-IsWithin ids ((u, d) ∷ edges) h =
    let (h1, next) = >>-eq-accepted h in
    let (h2, rest) = >>-eq-accepted next in
    let known = refuse_if-eq-accepted _ h1 in
    (
      (count-mem u ids (ground arith), count-mem d ids (ground arith)),
      check_edges-IsWithin ids edges rest,
    )

pub normalize-never : (path : Text) → normalize path ≢ refused InvalidPlan.cyclic
normalize-never path = found_or-never _ _ (normalize_plan_path path) λ e. cc

check_owners-never :
    (before files : List PlannedFileChange) → check_owners before files ≢ refused InvalidPlan.cyclic
unfolding check_owners
check_owners-never before [] = λ h. cc
check_owners-never before (f ∷ fs) = >>-never (refuse_if-never _ _ _ λ e. cc) λ e.
    >>=-never (check_all-never normalize _ f.required_interfaces normalize-never)
      λ interfaces e2. check_owners-never (before ++ (f ∷ [])) fs

check_edges-never :
    (ids : List ℕ) (edges : Edges) → check_edges ids edges ≢ refused InvalidPlan.cyclic
unfolding check_edges
check_edges-never ids [] = λ h. cc
check_edges-never ids ((u, d) ∷ edges) =
    >>-never (refuse_if-never _ _ _ λ e. cc)
      λ e. >>-never (refuse_if-never _ _ _ λ e. cc) λ e2. check_edges-never ids edges

module _ (plan : ChangePlan) where
  abbrev plan_ids : List ℕ
  plan_ids = distinct_ids (map PlannedFileChange.work_item_id plan.files)

  abbrev all_processed : Bool
  all_processed =
      let edges = distinct_edges [] plan.dependency_edges in
      length (drain edges (length plan_ids) (start edges plan_ids)) == length plan_ids

  plan_ids-once : (x : ℕ) → count x plan_ids ≤ 1
  plan_ids-once x =
      ground (arith, count-distinct_ids x (map PlannedFileChange.work_item_id plan.files))

  accepted_edges :
      validate_change_plan plan ≡ accepted tt
      → (check_edges plan_ids plan.dependency_edges ≡ accepted tt) × (all_processed ≡ true)
  unfolding validate_change_plan
  accepted_edges h =
      let (some_, h1) = >>-eq-accepted h in
      let (few, h2) = >>-eq-accepted h1 in
      let (paths, normal, h3) = >>=-eq-accepted h2 in
      let (alone, h4) = >>-eq-accepted h3 in
      let (owners, h5) = >>-eq-accepted h4 in
      let (edges, h6) = >>-eq-accepted h5 in
      let same = refuse_if-eq-accepted _ h6 in (edges, ground arith)

  plan_ids-IsWithin :
      validate_change_plan plan ≡ accepted tt → IsWithin plan_ids plan.dependency_edges
  plan_ids-IsWithin h = check_edges-IsWithin plan_ids plan.dependency_edges (accepted_edges h).0

  all_processed-IsAcyclic :
      check_edges plan_ids plan.dependency_edges ≡ accepted tt
      → (all_processed ≡ true) ↔ IsAcyclic plan.dependency_edges
  all_processed-IsAcyclic h =
      let edges = distinct_edges [] plan.dependency_edges in
      let within =
        distinct_edges-IsWithin plan_ids [] plan.dependency_edges tt
          (check_edges-IsWithin plan_ids plan.dependency_edges h) in
      let (to, from) = length-drain-IsAcyclic plan_ids edges plan_ids-once within in
      let (same, distinct) = distinct_edges-IsAcyclic plan.dependency_edges in
      (λ e. same (to (ground arith)), λ acyclic. ground (arith, from (distinct acyclic)))

  -- An accepted plan has a graph without a cycle.
  pub validate_change_plan-IsAcyclic :
      validate_change_plan plan ≡ accepted tt → IsAcyclic plan.dependency_edges
  validate_change_plan-IsAcyclic h =
      let (edges, same) = accepted_edges h in (all_processed-IsAcyclic edges).0 same

  -- A plan whose graph has no cycle is not refused for one.
  pub validate_change_plan-never-cyclic :
      IsAcyclic plan.dependency_edges → validate_change_plan plan ≢ refused InvalidPlan.cyclic
  unfolding validate_change_plan
  validate_change_plan-never-cyclic acyclic = >>-never (refuse_if-never _ _ _ λ e. cc) λ some_.
      >>-never (refuse_if-never _ _ _ λ e. cc) λ few.
        >>=-never (check_all-never _ _ plan.files λ f. normalize-never f.path) λ paths e.
          >>-never (refuse_if-never _ _ _ λ e. cc) λ alone.
            >>-never (check_owners-never [] plan.files) λ owners.
              >>-never (check_edges-never plan_ids plan.dependency_edges) λ edges h. absurd (
                ground
                  (arith, refuse_if-eq-refused _ _ _ h, (all_processed-IsAcyclic edges).1 acyclic))

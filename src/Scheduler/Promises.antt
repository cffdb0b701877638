-- ===== src/Scheduler/Promises.antt =====
-- What `build_schedule` promises of the waves of an accepted plan.
use acoding_agent.Prelude.{
  ℕ, ◌≡◌, ◌≢◌, ◌≤◌, ◌<◌, refl, sym, ◌∙◌, true, false, ◌&&◌, List, [], ◌∷◌, length, map, All, leb,
  count, count-mem, count-not_mem, arith,
}
use acoding_agent.Prelude.Tables.{sum}
use acoding_agent.Prelude.Checked.{
  accepted, refused, >>-never, >>=-never, refuse_if-never, refuse_if-eq-refused,
  refuse_if-eq-accepted, accepted-injective, >>-eq-accepted, >>=-eq-accepted,
}
use acoding_agent.Domain.Plans.{ChangePlan, WorkItem}
use acoding_agent.Scheduler.Dag.{Edges, has_edge, distinct_edges, waves_from, start_sorted}
use acoding_agent.Scheduler.Progress.{IsWithin}
use acoding_agent.Scheduler.Acyclic.{IsAcyclic}
use acoding_agent.Scheduler.Distinct.{
  has_edge-distinct_edges, distinct_edges-IsWithin, distinct_edges-IsAcyclic,
}
use acoding_agent.Scheduler.Order.{wave_index, wave_length, items_once, earlier_wave, all_items}
use acoding_agent.Scheduler.Plan.{InvalidPlan, repeats_id}
use acoding_agent.Scheduler.Schedule.{SchedulePlan, check_edge_ends, schedule, build_schedule}
use acoding_agent.Scheduler.Refusals.{
  collect_all-never, check_write_paths-never, check_edge_ends-never, check_dependencies-never,
}
use acoding_agent.Scheduler.Validation.{validate_change_plan-never-cyclic}

repeats_id-once : (xs : List ℕ) → repeats_id xs ≡ false → (x : ℕ) → count x xs ≤ 1
unfolding repeats_id count
repeats_id-once [] h x = omega arith
repeats_id-once (y ∷ xs) h x =
    ground (arith, repeats_id-once xs (ground arith) x, count-not_mem y xs)

check_edge_ends-IsWithin :
    (ids : List ℕ) (edges : Edges) → check_edge_ends ids edges ≡ accepted tt → IsWithin ids edges
unfolding check_edge_ends
check_edge_ends-IsWithin ids [] h = tt
check_edge_ends-IsWithin ids ((u, d) ∷ edges) h =
    let (h1, rest) = >>-eq-accepted h in
    let known = refuse_if-eq-accepted _ h1 in
    (
      (count-mem u ids (ground arith), count-mem d ids (ground arith)),
      check_edge_ends-IsWithin ids edges rest,
    )

module _ (plan : ChangePlan) (work_items : List WorkItem) (max_concurrency : ℕ) where
  abbrev ids : List ℕ
  ids = map WorkItem.work_item_id work_items

  abbrev edges : Edges
  edges = distinct_edges [] plan.dependency_edges

  accepted_parts :
      (s : SchedulePlan)
      → build_schedule plan work_items max_concurrency ≡ accepted s
      → (leb 1 max_concurrency && leb max_concurrency 4 ≡ true)
        × (repeats_id ids ≡ false)
        × (check_edge_ends ids plan.dependency_edges ≡ accepted tt)
        × (schedule max_concurrency ids edges ≡ accepted s)
  unfolding build_schedule
  accepted_parts s h =
      let (wide, h1) = >>-eq-accepted h in
      let (valid, h2) = >>-eq-accepted h1 in
      let (once, h3) = >>-eq-accepted h2 in
      let (c, files, h4) = >>=-eq-accepted h3 in
      let (kept, h5) = >>-eq-accepted h4 in
      let (writes, h6) = >>-eq-accepted h5 in
      let (ends, h7) = >>-eq-accepted h6 in
      let (dependencies, h8) = >>-eq-accepted h7 in
      let wide_ = refuse_if-eq-accepted _ wide in
      (ground arith, refuse_if-eq-accepted _ once, ends, h8)

  abbrev computed_waves : List (List ℕ)
  computed_waves = waves_from edges max_concurrency (length ids) (start_sorted edges ids)

  schedule_parts :
      (s : SchedulePlan)
      → schedule max_concurrency ids edges ≡ accepted s
      → (sum length computed_waves ≡ length ids)
        × (record { waves = computed_waves; max_concurrency = max_concurrency } ≡ s)
  unfolding schedule
  schedule_parts s h =
      let (all_, h1) = >>-eq-accepted h in
      let same = refuse_if-eq-accepted _ all_ in (ground arith, accepted-injective h1)

  -- The graph of an accepted schedule is fit for the loop over the waves.
  accepted_graph :
      (s : SchedulePlan)
      → build_schedule plan work_items max_concurrency ≡ accepted s
      → ((1 ≤ max_concurrency) × (max_concurrency ≤ 4))
        × ((x : ℕ) → count x ids ≤ 1)
        × IsWithin ids edges
        × (sum length computed_waves ≡ length ids)
        × (record { waves = computed_waves; max_concurrency = max_concurrency } ≡ s)
  accepted_graph s h =
      let (wide, once, ends, h1) = accepted_parts s h in
      let (same, e) = schedule_parts s h1 in
      (
        (ground arith, ground arith),
        repeats_id-once ids once,
        distinct_edges-IsWithin ids [] plan.dependency_edges tt
            (check_edge_ends-IsWithin ids plan.dependency_edges ends),
        same,
        e,
      )

  -- An accepted schedule has every work item in its waves exactly as often as it is given, which is at
  -- most once.
  pub build_schedule-items :
      (s : SchedulePlan)
      → build_schedule plan work_items max_concurrency ≡ accepted s
      → (x : ℕ) → (sum (count x) s.waves ≡ count x ids) × (count x ids ≤ 1)
  build_schedule-items s h x =
      let (wide, once, within, same, e) = accepted_graph s h in
      rw (sym e) (items_once ids edges once within max_concurrency wide.0 same x, once x)

  -- In an accepted schedule, a work item stands in a later wave than each item that it depends on.
  pub build_schedule-dependencies :
      (s : SchedulePlan) (upstream downstream : ℕ)
      → build_schedule plan work_items max_concurrency ≡ accepted s
      → has_edge upstream downstream plan.dependency_edges ≡ true
      → wave_index upstream s.waves < wave_index downstream s.waves
  build_schedule-dependencies s u d h m =
      let (wide, once, within, same, e) = accepted_graph s h in
      rw (sym e) (
        earlier_wave ids edges once within max_concurrency wide.0 same u d
          (has_edge-distinct_edges u d [] plan.dependency_edges ∙ m))

  -- No wave of an accepted schedule has more items than the concurrency it is built for, which is
  -- between 1 and 4.
  pub build_schedule-width :
      (s : SchedulePlan)
      → build_schedule plan work_items max_concurrency ≡ accepted s
      → All (λ wave. length wave ≤ max_concurrency) s.waves
        × (s.max_concurrency ≡ max_concurrency)
        × (1 ≤ max_concurrency)
        × (max_concurrency ≤ 4)
  build_schedule-width s h =
      let (wide, once, within, same, e) = accepted_graph s h in
      rw (sym e) (wave_length ids edges once within max_concurrency wide.0, refl, wide.0, wide.1)

  all_scheduled :
      1 ≤ max_concurrency
      → ((x : ℕ) → count x ids ≤ 1)
      → IsWithin ids plan.dependency_edges
      → IsAcyclic plan.dependency_edges
      → sum length computed_waves ≡ length ids
  all_scheduled wide once within acyclic =
      all_items ids edges once (distinct_edges-IsWithin ids [] plan.dependency_edges tt within)
        max_concurrency wide ((distinct_edges-IsAcyclic plan.dependency_edges).1 acyclic)

  -- A plan whose graph has no cycle is refused for one neither by the validation nor by the waves.
  pub build_schedule-never-cyclic :
      IsAcyclic plan.dependency_edges
      → build_schedule plan work_items max_concurrency ≢ refused InvalidPlan.cyclic
  unfolding build_schedule schedule
  build_schedule-never-cyclic acyclic = >>-never (refuse_if-never _ _ _ λ e. cc) λ wide.
      >>-never (validate_change_plan-never-cyclic plan acyclic) λ valid.
        >>-never (refuse_if-never _ _ _ λ e. cc) λ alone.
          >>=-never (collect_all-never work_items plan.files _) λ c files.
            >>-never (refuse_if-never _ _ _ λ e. cc) λ kept.
              >>-never (check_write_paths-never c.paths work_items) λ writes.
                >>-never (check_edge_ends-never ids plan.dependency_edges) λ ends.
                  >>-never (check_dependencies-never edges work_items) λ dependencies.
                    >>-never
                      (λ h. absurd (
                        let full =
                          all_scheduled (ground (arith, refuse_if-eq-accepted _ wide))
                            (repeats_id-once ids (refuse_if-eq-accepted _ alone))
                            (check_edge_ends-IsWithin ids plan.dependency_edges ends) acyclic in
                        ground (arith, refuse_if-eq-refused _ _ _ h, full)))
                      λ same h. cc

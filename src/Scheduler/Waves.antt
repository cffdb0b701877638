-- ===== src/Scheduler/Waves.antt =====
-- The loop of `build_schedule`: the order, the width and the content of its waves.
use acoding_agent.Prelude.{
  ℕ, zero, suc, ◌+◌, ◌≡◌, ◌≤◌, refl, List, [], ◌∷◌, take, length, All, count, length-append,
  count-take-drop, arith,
}
use acoding_agent.Scheduler.Dag.{Edges, indegree_of, Progress, after_wave, waves_from, start_sorted}
use acoding_agent.Scheduler.Progress.{
  pending, IsWithin, Kept, start_sorted-Kept, finished, length-finished, counted, after_wave-Kept,
}

-- No item of a wave waits for one that is not in an earlier wave.
unfoldable pub IsOrdered : Edges → List ℕ → List (List ℕ) → Type 0
IsOrdered edges done [] = Unit {0}
IsOrdered edges done (wave ∷ waves) =
    ((x : ℕ) → 1 ≤ count x wave → pending edges done x ≡ 0)
    × IsOrdered edges (finished wave done) waves

unfoldable pub all_finished : List (List ℕ) → List ℕ → List ℕ
all_finished [] done = done
all_finished (wave ∷ waves) done = all_finished waves (finished wave done)

length-take_le : (n : ℕ) (xs : List ℕ) → length (take n xs) ≤ n
length-take_le zero xs = omega arith
length-take_le (suc n) [] = omega arith
length-take_le (suc n) (x ∷ xs) = omega (arith, length-take_le n xs)

some_taken : (width x : ℕ) (xs : List ℕ) → 1 ≤ width → 1 ≤ length (take width (x ∷ xs))
some_taken zero x xs h = absurd (omega arith)
some_taken (suc width) x xs h = omega arith

module _ (ids : List ℕ) (edges : Edges) (once : (x : ℕ) → count x ids ≤ 1)
    (within : IsWithin ids edges) (width : ℕ) (wide : 1 ≤ width) where
  abbrev Idle : List ℕ → Progress → Type 0
  Idle = Kept ids edges once [] []

  -- What the loop ends with.
  abbrev pub Ends : List ℕ → List (List ℕ) → Type 0
  Ends done waves =
      IsOrdered edges done waves
      × All (λ wave. length wave ≤ width) waves
      × ((q : Progress) × (q.ready ≡ []) × Idle (all_finished waves done) q)

  waves_from-Ends :
      (bound : ℕ) (done ready : List ℕ) (indegree : ℕ → ℕ)
      → length ids ≤ bound + length done
      → Idle done (record { ready = ready; indegree = indegree })
      → Ends done (waves_from edges width bound (record { ready = ready; indegree = indegree }))
  unfolding waves_from IsOrdered all_finished
  waves_from-Ends zero done [] indegree enough k =
      (tt, tt, (record { ready = []; indegree = indegree }, refl, k))
  waves_from-Ends zero done (x ∷ ready) indegree enough k = absurd (
      omega (
        arith,
        counted ids edges once done (record { ready = x ∷ ready; indegree = indegree }) k,
        length-append ready done,
      ))
  waves_from-Ends (suc bound) done [] indegree enough k =
      (tt, tt, (record { ready = []; indegree = indegree }, refl, k))
  waves_from-Ends (suc bound) done (x ∷ ready) indegree enough k =
      let p : Progress = record { ready = x ∷ ready; indegree = indegree } in
      let wave = take width (x ∷ ready) in
      let q = after_wave edges width p in
      let (o, w, e) =
        waves_from-Ends bound (finished wave done) q.ready q.indegree
          (omega (arith, length-finished wave done, some_taken width x ready wide))
          (after_wave-Kept ids edges once width done p within k) in
      (
        (λ y m. ground (arith, k y, count-take-drop y width (x ∷ ready)), o),
        (length-take_le width (x ∷ ready), w),
        e,
      )

  pub schedule-Ends : Ends [] (waves_from edges width (length ids) (start_sorted edges ids))
  schedule-Ends =
      waves_from-Ends (length ids) [] (start_sorted edges ids).ready (indegree_of edges)
        (omega arith) (start_sorted-Kept ids edges once)

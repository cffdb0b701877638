-- ===== src/Scheduler/Order.antt =====
-- The waves of an accepted graph: every item once, and after the items that it waits for.
use acoding_agent.Prelude.{
  ℕ, suc, ◌+◌, ◌≡◌, ◌≤◌, ◌<◌, true, List, [], ◌∷◌, length, All, if◌then◌else◌, mem, count,
  count-mem, count-not_mem, mem_of_count, length_le_of_count, count_eq_of_length, arith, Bool-cases,
  inl, inr, ◌⊎◌,
}
use acoding_agent.Prelude.Tables.{sum}
use acoding_agent.Scheduler.Dag.{Edges, has_edge, waves_from, start_sorted}
use acoding_agent.Scheduler.Progress.{IsWithin, finished, count-finished, length-finished}
use acoding_agent.Scheduler.Acyclic.{IsAcyclic, complete_of_IsAcyclic}
use acoding_agent.Scheduler.Drain.{source_done, has_edge-IsWithin}
use acoding_agent.Scheduler.Waves.{IsOrdered, all_finished, Ends, schedule-Ends}

-- The first wave that has the item.
unfoldable pub wave_index : ℕ → List (List ℕ) → ℕ
wave_index x [] = 0
wave_index x (wave ∷ waves) = if mem x wave then 0 else suc (wave_index x waves)

count-all_finished :
    (x : ℕ) (waves : List (List ℕ)) (done : List ℕ)
    → count x (all_finished waves done) ≡ sum (count x) waves + count x done
unfolding all_finished sum
count-all_finished x [] done = omega arith
count-all_finished x (wave ∷ waves) done =
    omega (arith, count-all_finished x waves (finished wave done), count-finished x wave done)

length-all_finished :
    (waves : List (List ℕ)) (done : List ℕ)
    → length (all_finished waves done) ≡ sum length waves + length done
unfolding all_finished sum
length-all_finished [] done = omega arith
length-all_finished (wave ∷ waves) done =
    omega (arith, length-all_finished waves (finished wave done), length-finished wave done)

wave_index_lt :
    (edges : Edges) (u d : ℕ) (done : List ℕ) (waves : List (List ℕ))
    → has_edge u d edges ≡ true
    → IsOrdered edges done waves
    → 1 ≤ sum (count d) waves
    → (mem u done ≡ true) ⊎ (wave_index u waves < wave_index d waves)
unfolding IsOrdered wave_index sum
wave_index_lt edges u d done [] m o c = absurd (omega arith)
wave_index_lt edges u d done (wave ∷ waves) m o c = elim (Bool-cases (mem d wave)) [
  | inl here ↦ inl (source_done edges done u d m (o.0 d (count-mem d wave here)))
  | inr later ↦
      elim (wave_index_lt edges u d (finished wave done) waves m o.1
        (omega (arith, count-not_mem d wave later))) [
          | inl before ↦ elim (Bool-cases (mem u done)) [
            | inl done_ ↦ inl done_
            | inr open_ ↦
                let this_wave = mem_of_count u wave (
                  omega (
                    arith,
                    count-mem u (finished wave done) before,
                    count-finished u wave done,
                    count-not_mem u done open_,
                  )) in
                inr (rw (later, this_wave) (omega arith))
          ]
          | inr less ↦ inr (
              rw later (elim (Bool-cases (mem u wave)) [
                | inl first ↦ rw first (omega arith)
                | inr other ↦ rw other (omega arith)
              ]))
        ]
]

module _ (ids : List ℕ) (edges : Edges) (once : (x : ℕ) → count x ids ≤ 1)
    (within : IsWithin ids edges) (width : ℕ) (wide : 1 ≤ width) where
  abbrev all_waves : List (List ℕ)
  all_waves = waves_from edges width (length ids) (start_sorted edges ids)

  ends : Ends ids edges once within width wide [] all_waves
  ends = schedule-Ends ids edges once within width wide

  pub wave_length : All (λ wave. length wave ≤ width) all_waves
  wave_length = ends.1

  counted_waves : (x : ℕ) → sum (count x) all_waves ≡ count x (all_finished all_waves [])
  unfolding count
  counted_waves x = omega (arith, count-all_finished x all_waves [])

  -- When the waves have as many items as the graph, they have the items of the graph.
  pub items_once :
      sum length all_waves ≡ length ids → (x : ℕ) → sum (count x) all_waves ≡ count x ids
  unfolding count
  items_once same x =
      let (q, idle, k) = ends.2 in
      let every =
        count_eq_of_length (all_finished all_waves []) ids (λ y. ground (arith, k y))
          (omega (arith, length-all_finished all_waves [])) x in
      omega (arith, every, counted_waves x)

  pub earlier_wave :
      sum length all_waves ≡ length ids
      → (u d : ℕ) → has_edge u d edges ≡ true
      → wave_index u all_waves < wave_index d all_waves
  earlier_wave same u d m =
      elim (wave_index_lt edges u d [] all_waves m ends.0
        (omega (arith, items_once same d, has_edge-IsWithin ids edges u d m within))) [
          | inl none_ ↦ absurd (ground arith)
          | inr less ↦ less
        ]

  pub all_items : IsAcyclic edges → sum length all_waves ≡ length ids
  unfolding count
  all_items acyclic =
      let (q, idle, k) = ends.2 in
      let items = all_finished all_waves [] in
      let every = complete_of_IsAcyclic ids edges once within acyclic items q k idle in
      omega (
        arith,
        length-all_finished all_waves [],
        length_le_of_count items ids (λ x. omega (arith, every x)),
        length_le_of_count ids items (λ x. omega (arith, every x)),
      )

-- ===== src/Scheduler/Drain.antt =====
-- The loop of `validate_change_plan`, which finds the cycles of the graph.
use acoding_agent.Prelude.{
  ℕ, zero, suc, ◌+◌, ◌==◌, ◌≡◌, ◌≤◌, ◌<◌, ◌↔◌, refl, true, List, [], ◌∷◌, length, none, some,
  if◌then◌else◌, mem, count, length_le_of_count, count_eq_of_length, arith, Bool-cases,
  Option-cases, inl, inr, ◌⊎◌,
}
use acoding_agent.Scheduler.Dag.{
  Edges, has_edge, targets, Progress, release_all, pop_last, drain, start,
}
use acoding_agent.Scheduler.Progress.{
  pending, IsWithin, Kept, start-Kept, complete-Kept, finished, count-finished, counted,
}
use acoding_agent.Scheduler.Acyclic.{IsAcyclic, rank_of_edges, complete_of_IsAcyclic}

pop_last-eq-none : (xs : List ℕ) → pop_last xs ≡ none → xs ≡ []
unfolding pop_last
pop_last-eq-none [] h = refl
pop_last-eq-none (x ∷ xs) h = ground arith

count-pop_last :
    (xs others : List ℕ) (last x : ℕ)
    → pop_last xs ≡ some (others, last)
    → count x xs ≡ count x others + (if x == last then 1 else 0)
unfolding pop_last count
count-pop_last [] others last x h = cc
count-pop_last (y ∷ xs) others last x h = elim (Option-cases (pop_last xs)) [
  | inl none_ ↦ ground (arith, none_, pop_last-eq-none xs none_)
  | inr ((before, z), some_) ↦ ground (arith, some_, count-pop_last xs before z x some_)
]

-- An item is processed when no item that it waits for is open.
unfoldable pub IsSequential : Edges → List ℕ → List ℕ → Type 0
IsSequential edges done [] = Unit {0}
IsSequential edges done (x ∷ xs) = (pending edges done x ≡ 0) × IsSequential edges (x ∷ done) xs

-- The position of an item.
index : ℕ → List ℕ → ℕ
index x [] = 0
index x (y ∷ ys) = if x == y then 0 else suc (index x ys)

pub source_done :
    (edges : Edges) (done : List ℕ) (u d : ℕ)
    → has_edge u d edges ≡ true
    → pending edges done d ≡ 0
    → mem u done ≡ true
unfolding pending
source_done [] done u d m h = cc
source_done ((v, e) ∷ edges) done u d m h = ground (arith, source_done edges done u d)

index_lt :
    (edges : Edges) (done xs : List ℕ) (u d : ℕ)
    → has_edge u d edges ≡ true
    → IsSequential edges done xs
    → 1 ≤ count d xs
    → (mem u done ≡ true) ⊎ (index u xs < index d xs)
unfolding IsSequential index count
index_lt edges done [] u d m s c = absurd (omega arith)
index_lt edges done (x ∷ xs) u d m s c = elim (Bool-cases (d == x)) [
  | inl here ↦ inl (ground (arith, source_done edges done u d m))
  | inr later ↦ elim (index_lt edges (x ∷ done) xs u d m s.1 (ground arith)) [
    | inl before ↦ elim (Bool-cases (mem u done)) [
      | inl done_ ↦ inl done_
      | inr open_ ↦ inr (ground arith)
    ]
    | inr less ↦ elim (Bool-cases (u == x)) [
      | inl first ↦ inr (ground arith)
      | inr other ↦ inr (ground arith)
    ]
  ]
]

pub has_edge-IsWithin :
    (ids : List ℕ) (edges : Edges) (u d : ℕ)
    → has_edge u d edges ≡ true
    → IsWithin ids edges
    → 1 ≤ count d ids
has_edge-IsWithin ids [] u d m w = cc
has_edge-IsWithin ids ((v, e) ∷ edges) u d m w = ground (arith, has_edge-IsWithin ids edges u d)

empty_of_length : (xs : List ℕ) → length xs ≤ 0 → xs ≡ []
empty_of_length [] h = refl
empty_of_length (x ∷ xs) h = absurd (omega arith)

module _ (ids : List ℕ) (edges : Edges) (once : (x : ℕ) → count x ids ≤ 1)
    (within : IsWithin ids edges) where
  Idle : List ℕ → Progress → Type 0
  Idle = Kept ids edges once [] []

  -- What the loop ends with.
  abbrev Drained : List ℕ → List ℕ → Type 0
  Drained done items =
      IsSequential edges done items
      × ((q : Progress) × (q.ready ≡ []) × Kept ids edges once [] [] (finished items done) q)

  pub drain-Drained :
      (bound : ℕ) (done : List ℕ) (p : Progress)
      → length ids ≤ bound + length done
      → Kept ids edges once [] [] done p
      → Drained done (drain edges bound p)
  unfolding drain IsSequential finished count
  drain-Drained zero done p enough k =
      (tt, (p, empty_of_length p.ready (omega (arith, counted ids edges once done p k)), k))
  drain-Drained (suc bound) done p enough k = elim (Option-cases (pop_last p.ready)) [
    | inl stop ↦ rw (stop, drain) (tt, (p, pop_last-eq-none p.ready stop, k))
    | inr ((others, x), more) ↦
        let ts = targets edges x in
        let q = release_all ts (record p { ready = others }) in
        let next = drain-Drained bound (x ∷ done) q (omega arith) (
          complete-Kept ids edges once x ts [] done (record p { ready = others }) within (λ y. refl)
            (λ y. (
              ground (arith, k y),
              ground (arith, k y, count-pop_last p.ready others x y more),
            ))) in
        rw (more, drain)
          ((ground (arith, k x, count-pop_last p.ready others x x more), next.0), next.1)
  ]

  -- The check of the source: it processes every item exactly if the graph has no cycle.
  pub length-drain-IsAcyclic :
      (length (drain edges (length ids) (start edges ids)) ≡ length ids) ↔ IsAcyclic edges
  unfolding count
  length-drain-IsAcyclic =
      let items = drain edges (length ids) (start edges ids) in
      let (s, (q, idle, k)) =
        drain-Drained (length ids) [] (start edges ids) (omega arith) (start-Kept ids edges once) in
      (
        λ same.
            let every =
              count_eq_of_length items ids (λ x. ground (arith, k x, count-finished x items []))
                same in
            (
              λ x. index x items,
              rank_of_edges (λ x. index x items) edges
                  λ u d m.
                    elim (index_lt edges [] items u d m s
                      (omega (arith, every d, has_edge-IsWithin ids edges u d m within))) [
                        | inl none_ ↦ absurd (ground arith)
                        | inr less ↦ less
                      ],
            ),
        λ acyclic.
            let every =
              complete_of_IsAcyclic ids edges once within acyclic (finished items []) q k idle in
            omega (
              arith,
              length_le_of_count items ids (λ x. omega (arith, every x, count-finished x items [])),
              length_le_of_count ids items (λ x. omega (arith, every x, count-finished x items [])),
            ),
      )

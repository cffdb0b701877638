-- ===== src/Scheduler/Acyclic.antt =====
-- Acyclic graphs: the check of `validate_change_plan` accepts exactly these, and on these no item is
-- left over.
use acoding_agent.Prelude.{
  ℕ, zero, suc, ◌==◌, ◌≡◌, ◌≤◌, ◌<◌, sym, subst, true, false, ◌&&◌, not, List, All, [], ◌∷◌, mem,
  count, count-not_mem, arith, leb, Bool-cases, inl, inr,
}
use acoding_agent.Scheduler.Dag.{Edges, has_edge, Progress}
use acoding_agent.Scheduler.Progress.{pending, IsWithin, Kept}

-- A rank that rises along every edge.
abbrev pub IsAcyclic : Edges → Type 0
IsAcyclic edges = (rank : ℕ → ℕ) × All (λ (u, d). rank u < rank d) edges

pub rank_of_edge :
    (rank : ℕ → ℕ) (edges : Edges) (u d : ℕ)
    → All (λ (v, e). rank v < rank e) edges
    → has_edge u d edges ≡ true
    → rank u < rank d
rank_of_edge rank [] u d r m = cc
rank_of_edge rank ((v, e) ∷ edges) u d r m = elim (Bool-cases (u == v && d == e)) [
  | inl here ↦
      let same : (u ≡ v) × (d ≡ e) = ground arith in
      ground (
        arith,
        subst (λ y. rank y < rank d) (sym same.0) (subst (λ y. rank v < rank y) (sym same.1) r.0),
      )
  | inr later ↦ rank_of_edge rank edges u d r.1 (ground arith)
]

pub rank_of_edges :
    (rank : ℕ → ℕ) (edges : Edges)
    → ((u d : ℕ) → has_edge u d edges ≡ true → rank u < rank d)
    → All (λ (u, d). rank u < rank d) edges
rank_of_edges rank [] f = tt
rank_of_edges rank ((v, e) ∷ edges) f =
    (f v e (ground arith), rank_of_edges rank edges λ u d m. f u d (ground arith))

-- An item that waits has a source of lower rank that is not done.
pending_source :
    (edges : Edges) (ids done : List ℕ) (rank : ℕ → ℕ) (x : ℕ)
    → IsWithin ids edges
    → All (λ (u, d). rank u < rank d) edges
    → 1 ≤ pending edges done x
    → (u : ℕ) × (1 ≤ count u ids) × (rank u < rank x) × (mem u done ≡ false)
unfolding pending
pending_source [] ids done rank x w r h = absurd (omega arith)
pending_source ((u, d) ∷ edges) ids done rank x w r h =
    elim (Bool-cases (x == d && not (mem u done))) [
      | inl here ↦ (u, w.0.0, ground (arith, r.0), ground arith)
      | inr later ↦ pending_source edges ids done rank x w.1 r.1 (ground arith)
    ]

module _ (ids : List ℕ) (edges : Edges) (once : (x : ℕ) → count x ids ≤ 1)
    (within : IsWithin ids edges) where
  module _ (acyclic : IsAcyclic edges) (done : List ℕ) (q : Progress)
      (k : Kept ids edges once [] [] done q) (idle : q.ready ≡ []) where
    below : (n x : ℕ) → acyclic.0 x < n → 1 ≤ count x ids → q.indegree x ≡ 0
    unfolding count
    below zero x r m = absurd (omega arith)
    below (suc n) x r m = elim (Bool-cases (q.indegree x == 0)) [
      | inl zero_ ↦ ground arith
      | inr more ↦
          let (u, item, lower, open_) =
            pending_source edges ids done acyclic.0 x within acyclic.1 (ground (arith, k x)) in
          let freed = below n u (omega arith) item in
          absurd (ground (arith, k u, freed, idle, count-not_mem u done open_))
    ]

    pub complete_of_IsAcyclic : (x : ℕ) → count x done ≡ count x ids
    unfolding count
    complete_of_IsAcyclic x = elim (Bool-cases (leb 1 (count x ids))) [
      | inl item ↦
          ground (arith, k x, idle, below (suc (acyclic.0 x)) x (omega arith) (ground arith))
      | inr other ↦ ground (arith, k x, idle)
    ]

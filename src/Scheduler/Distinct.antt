-- ===== src/Scheduler/Distinct.antt =====
-- The edges without repetitions have the edges of the plan.
use acoding_agent.Prelude.{
  ℕ, ◌==◌, ◌≡◌, ◌↔◌, refl, sym, ◌∙◌, true, ◌&&◌, ◌||◌, List, [], ◌∷◌, ◌++◌, arith, Bool-cases, inl,
  inr,
}
use acoding_agent.Scheduler.Dag.{Edges, has_edge, distinct_edges}
use acoding_agent.Scheduler.Progress.{IsWithin}
use acoding_agent.Scheduler.Acyclic.{IsAcyclic, rank_of_edge, rank_of_edges}

has_edge-append :
    (u d : ℕ) (xs ys : Edges) → has_edge u d (xs ++ ys) ≡ (has_edge u d xs || has_edge u d ys)
has_edge-append u d [] ys = refl
has_edge-append u d ((v, e) ∷ xs) ys = ground (arith, has_edge-append u d xs ys)

has_edge-eq :
    (u d v e : ℕ) (seen : Edges)
    → has_edge v e seen ≡ true
    → (u == v && d == e) ≡ true
    → has_edge u d seen ≡ true
has_edge-eq u d v e [] m h = cc
has_edge-eq u d v e ((w, f) ∷ seen) m h = ground (arith, has_edge-eq u d v e seen)

pub has_edge-distinct_edges :
    (u d : ℕ) (seen edges : Edges)
    → has_edge u d (distinct_edges seen edges) ≡ (has_edge u d seen || has_edge u d edges)
unfolding distinct_edges
has_edge-distinct_edges u d seen [] = ground arith
has_edge-distinct_edges u d seen ((v, e) ∷ edges) = elim (Bool-cases (has_edge v e seen)) [
  | inl old ↦ ground (arith, has_edge-distinct_edges u d seen edges, has_edge-eq u d v e seen)
  | inr new_ ↦ ground (
    arith,
    has_edge-distinct_edges u d (seen ++ ((v, e) ∷ [])) edges,
    has_edge-append u d seen ((v, e) ∷ []),
  )
]

IsWithin-append :
    (ids : List ℕ) (xs ys : Edges) → IsWithin ids xs → IsWithin ids ys → IsWithin ids (xs ++ ys)
IsWithin-append ids [] ys v w = w
IsWithin-append ids (x ∷ xs) ys v w = (v.0, IsWithin-append ids xs ys v.1 w)

pub distinct_edges-IsWithin :
    (ids : List ℕ) (seen edges : Edges)
    → IsWithin ids seen
    → IsWithin ids edges
    → IsWithin ids (distinct_edges seen edges)
unfolding distinct_edges
distinct_edges-IsWithin ids seen [] v w = v
distinct_edges-IsWithin ids seen ((u, d) ∷ edges) v w = elim (Bool-cases (has_edge u d seen)) [
  | inl old ↦ rw old (distinct_edges-IsWithin ids seen edges v w.1)
  | inr new_ ↦ rw new_ (
      distinct_edges-IsWithin ids (seen ++ ((u, d) ∷ [])) edges
        (IsWithin-append ids seen ((u, d) ∷ []) v (w.0, tt)) w.1)
]

-- The loop of the source keeps the cycles of a graph, and adds none.
pub distinct_edges-IsAcyclic :
    (edges : Edges) → IsAcyclic (distinct_edges [] edges) ↔ IsAcyclic edges
distinct_edges-IsAcyclic edges = (
  λ (rank, r). (
    rank,
    rank_of_edges rank edges λ u d m.
        rank_of_edge rank (distinct_edges [] edges) u d r
          (has_edge-distinct_edges u d [] edges ∙ m),
  ),
  λ (rank, r). (
    rank,
    rank_of_edges rank (distinct_edges [] edges)
        λ u d m. rank_of_edge rank edges u d r (sym (has_edge-distinct_edges u d [] edges) ∙ m),
  ),
)

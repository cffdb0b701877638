-- ===== src/Scheduler/Dag.antt =====
-- The dependency graph of `validate_change_plan` and `build_schedule`, and how both release the items
-- whose dependencies are done. `adjacency` and `indegree` of the source are read off the distinct
-- edges.
use acoding_agent.Prelude.{
  ℕ, zero, suc, ◌+◌, ◌-◌, ◌==◌, Bool, ◌&&◌, List, [], ◌∷◌, ◌++◌, take, drop, any, Option, none,
  some, if◌then◌else◌, sorted_ids,
}

abbrev pub Edges : Type 0
Edges = List (ℕ × ℕ)

-- `downstream in adjacency[upstream]`
abbrev pub has_edge : ℕ → ℕ → Edges → Bool
has_edge upstream downstream = any (λ (u, d). u == upstream && d == downstream)

-- The edges without repetitions, as the loop over `dependency_edges` adds them.
unfoldable pub distinct_edges : Edges → Edges → Edges
distinct_edges seen [] = seen
distinct_edges seen ((u, d) ∷ edges) =
    distinct_edges (if has_edge u d seen then seen else seen ++ ((u, d) ∷ [])) edges

-- `adjacency[upstream]`
unfoldable pub targets : Edges → ℕ → List ℕ
targets [] upstream = []
targets ((u, d) ∷ edges) upstream =
    let rest = targets edges upstream in if u == upstream then d ∷ rest else rest

-- `edge_dependencies[downstream]`
unfoldable pub sources : Edges → ℕ → List ℕ
sources [] downstream = []
sources ((u, d) ∷ edges) downstream =
    let rest = sources edges downstream in if d == downstream then u ∷ rest else rest

-- `indegree[downstream]` before the loop.
unfoldable pub indegree_of : Edges → ℕ → ℕ
indegree_of [] x = 0
indegree_of ((u, d) ∷ edges) x = (if x == d then 1 else 0) + indegree_of edges x

pub record Progress : Type 0 where
  pub ready : List ℕ
  pub indegree : ℕ → ℕ

-- `indegree[downstream] -= 1`, and an item that comes to 0 is ready. From 0 the source would go below
-- it, and the item would not become ready either.
abbrev pub release : ℕ → Progress → Progress
release d p = record {
  ready = if p.indegree d == 1 then p.ready ++ (d ∷ []) else p.ready;
  indegree = λ x. if x == d then p.indegree x - 1 else p.indegree x;
}

unfoldable pub release_all : List ℕ → Progress → Progress
release_all [] p = p
release_all (d ∷ ds) p = release_all ds (release d p)

unfoldable pub with_indegree_zero : (ℕ → ℕ) → List ℕ → List ℕ
with_indegree_zero indegree [] = []
with_indegree_zero indegree (x ∷ xs) =
    let rest = with_indegree_zero indegree xs in if indegree x == 0 then x ∷ rest else rest

-- `ready.pop()`: the last element and the others.
unfoldable pub pop_last : List ℕ → Option (List ℕ × ℕ)
pop_last [] = none
pop_last (x ∷ xs) = elim (pop_last xs) [
  | none ↦ some ([], x)
  | some (others, last) ↦ some (x ∷ others, last)
]

module _ (edges : Edges) where
  -- The loop of `validate_change_plan`, by recursion on a bound: the items that it processes.
  unfoldable pub drain : ℕ → Progress → List ℕ
  drain zero p = []
  drain (suc bound) p = elim (pop_last p.ready) [
    | none ↦ []
    | some (others, current) ↦
        current ∷ drain bound (release_all (targets edges current) (record p { ready = others }))
  ]

  -- `for upstream in wave`, with the targets in order.
  unfoldable pub complete_wave : List ℕ → Progress → Progress
  complete_wave [] p = p
  complete_wave (u ∷ wave) p = complete_wave wave (release_all (sorted_ids (targets edges u)) p)

  abbrev pub after_wave : ℕ → Progress → Progress
  after_wave width p =
      let q = complete_wave (take width p.ready) (record p { ready = drop width p.ready }) in
      record q { ready = sorted_ids q.ready }

  -- `while ready` of `build_schedule`, by recursion on a bound for its rounds.
  unfoldable pub waves_from : (width bound : ℕ) → Progress → List (List ℕ)
  waves_from width zero p = []
  waves_from width (suc bound) p = elim p.ready [
    | [] ↦ []
    | x ∷ others ↦
        take width (x ∷ others)
        ∷ waves_from width bound (after_wave width (record p { ready = x ∷ others }))
  ]

-- The items and edges before either loop.
abbrev pub start : Edges → List ℕ → Progress
start edges ids =
    let degree = indegree_of edges in
    record { ready = with_indegree_zero degree ids; indegree = degree }

abbrev pub start_sorted : Edges → List ℕ → Progress
start_sorted edges ids = let p = start edges ids in record p { ready = sorted_ids p.ready }

-- ===== src/Scheduler/Progress.antt =====
-- What the loops over the graph keep.
use acoding_agent.Prelude.{
  ℕ, ◌+◌, ◌==◌, ◌≡◌, ◌≤◌, refl, false, ◌&&◌, not, List, [], ◌∷◌, ◌++◌, take, drop, length, All,
  if◌then◌else◌, mem, count, sorted_ids, not_mem_of_count, count-append, count-take-drop,
  count-sorted_ids, length-append, length_le_of_count, arith,
}
use acoding_agent.Scheduler.Dag.{
  Edges, targets, indegree_of, Progress, release, release_all, with_indegree_zero, complete_wave,
  after_wave, start, start_sorted,
}

-- How many edges into `x` come from items that are not done.
unfoldable pub pending : Edges → List ℕ → ℕ → ℕ
pending [] done x = 0
pending ((u, d) ∷ edges) done x =
    (if x == d && not (mem u done) then 1 else 0) + pending edges done x

pub pending-start : (edges : Edges) (x : ℕ) → pending edges [] x ≡ indegree_of edges x
unfolding pending indegree_of
pending-start [] x = refl
pending-start ((u, d) ∷ edges) x = ground (arith, pending-start edges x)

-- When an item is done, each of its edges is no longer pending.
pub pending-cons :
    (edges : Edges) (u : ℕ) (done : List ℕ) (x : ℕ)
    → mem u done ≡ false
    → pending edges done x ≡ pending edges (u ∷ done) x + count x (targets edges u)
unfolding pending targets count
pending-cons [] u done x h = refl
pending-cons ((v, d) ∷ edges) u done x h = ground (arith, pending-cons edges u done x)

-- A wave that is done, the last item on top.
unfoldable pub finished : List ℕ → List ℕ → List ℕ
finished [] done = done
finished (u ∷ wave) done = finished wave (u ∷ done)

-- The ends of the edges are items.
abbrev pub IsWithin : List ℕ → Edges → Type 0
IsWithin ids = All (λ (u, d). (1 ≤ count u ids) × (1 ≤ count d ids))

pub length-finished : (wave done : List ℕ) → length (finished wave done) ≡ length wave + length done
unfolding finished
length-finished [] done = omega arith
length-finished (u ∷ wave) done = omega (arith, length-finished wave (u ∷ done))

pub count-finished :
    (x : ℕ) (wave done : List ℕ) → count x (finished wave done) ≡ count x wave + count x done
unfolding finished count
count-finished x [] done = omega arith
count-finished x (u ∷ wave) done = omega (arith, count-finished x wave (u ∷ done))

module _ (ids : List ℕ) (edges : Edges) (once : (x : ℕ) → count x ids ≤ 1) where
  -- Between two steps: `todo` is the rest of the wave, `ts` the targets that are not yet released. The
  -- indegree of an item counts what it waits for, and an item that waits for nothing is in exactly
  -- one of the three lists.
  abbrev pub Kept : List ℕ → List ℕ → List ℕ → Progress → Type 0
  Kept ts todo done p =
      (x : ℕ)
      → (p.indegree x ≡ pending edges done x + count x ts)
        × (count x todo + count x p.ready + count x done
            ≡ (if p.indegree x == 0 then count x ids else 0))

  release-Kept :
      (d : ℕ) (ts todo done : List ℕ) (p : Progress)
      → 1 ≤ count d ids
      → Kept (d ∷ ts) todo done p
      → Kept ts todo done (release d p)
  unfolding count
  release-Kept d ts todo done p item k x = (
    ground (arith, k x, k d, once d, count-append x p.ready (d ∷ [])),
    ground (arith, k x, k d, once d, count-append x p.ready (d ∷ [])),
  )

  abbrev Items : List ℕ → Type 0
  Items ts = (x : ℕ) → 1 ≤ count x ts → 1 ≤ count x ids

  release_all-Kept :
      (ts todo done : List ℕ) (p : Progress)
      → Items ts
      → Kept ts todo done p
      → Kept [] todo done (release_all ts p)
  unfolding release_all count
  release_all-Kept [] todo done p items k = k
  release_all-Kept (d ∷ ts) todo done p items k =
      release_all-Kept ts todo done (release d p) (λ x m. items x (ground arith))
        (release-Kept d ts todo done p (items d (ground arith)) k)

  -- An item that leaves the wave to be done.
  finish-Kept :
      (u : ℕ) (ts todo done : List ℕ) (p : Progress)
      → ((x : ℕ) → count x ts ≡ count x (targets edges u))
      → Kept [] (u ∷ todo) done p
      → Kept ts todo (u ∷ done) p
  unfolding count
  finish-Kept u ts todo done p same k x =
      let alone : mem u done ≡ false = not_mem_of_count u done (ground (arith, k u, once u)) in
      (ground (arith, k x, same x, pending-cons edges u done x alone), ground (arith, k x))

  targets-Items : (es : Edges) (u : ℕ) → IsWithin ids es → Items (targets es u)
  unfolding targets count
  targets-Items [] u w x m = absurd (omega arith)
  targets-Items ((v, d) ∷ es) u w x m = ground (arith, targets-Items es u w.1 x)

  pub complete-Kept :
      (u : ℕ) (ts todo done : List ℕ) (p : Progress)
      → IsWithin ids edges
      → ((x : ℕ) → count x ts ≡ count x (targets edges u))
      → Kept [] (u ∷ todo) done p
      → Kept [] todo (u ∷ done) (release_all ts p)
  complete-Kept u ts todo done p within same k =
      release_all-Kept ts todo (u ∷ done) p
        (λ x m. targets-Items edges u within x (omega (arith, same x)))
        (finish-Kept u ts todo done p same k)

  complete_wave-Kept :
      (wave done : List ℕ) (p : Progress)
      → IsWithin ids edges
      → Kept [] wave done p
      → Kept [] [] (finished wave done) (complete_wave edges wave p)
  unfolding complete_wave finished
  complete_wave-Kept [] done p within k = k
  complete_wave-Kept (u ∷ wave) done p within k =
      let ts = sorted_ids (targets edges u) in
      complete_wave-Kept wave (u ∷ done) (release_all ts p) within
        (complete-Kept u ts wave done p within (λ x. count-sorted_ids x (targets edges u)) k)

  pub after_wave-Kept :
      (width : ℕ) (done : List ℕ) (p : Progress)
      → IsWithin ids edges
      → Kept [] [] done p
      → Kept [] [] (finished (take width p.ready) done) (after_wave edges width p)
  unfolding count
  after_wave-Kept width done p within k x =
      let wave = take width p.ready in
      let q = complete_wave edges wave (record p { ready = drop width p.ready }) in
      let kept =
        complete_wave-Kept wave done (record p { ready = drop width p.ready }) within
          (λ y. (ground (arith, k y), ground (arith, k y, count-take-drop y width p.ready))) x in
      (kept.0, ground (arith, kept, count-sorted_ids x q.ready))

  count-with_indegree_zero :
      (f : ℕ → ℕ) (x : ℕ) (xs : List ℕ)
      → count x (with_indegree_zero f xs) ≡ (if f x == 0 then count x xs else 0)
  unfolding with_indegree_zero count
  count-with_indegree_zero f x [] = ground arith
  count-with_indegree_zero f x (y ∷ xs) = ground (arith, count-with_indegree_zero f x xs)

  pub start-Kept : Kept [] [] [] (start edges ids)
  unfolding count
  start-Kept x = (
    omega (arith, pending-start edges x),
    omega (arith, count-with_indegree_zero (indegree_of edges) x ids),
  )

  pub start_sorted-Kept : Kept [] [] [] (start_sorted edges ids)
  unfolding count
  start_sorted-Kept x = (
    omega (arith, pending-start edges x),
    omega (
      arith,
      count-sorted_ids x (start edges ids).ready,
      count-with_indegree_zero (indegree_of edges) x ids,
    ),
  )

  pub counted :
      (done : List ℕ) (p : Progress) → Kept [] [] done p → length p.ready + length done ≤ length ids
  unfolding count
  counted done p k =
      let no_longer =
        length_le_of_count (p.ready ++ done) ids
          λ x. ground (arith, k x, count-append x p.ready done) in
      omega (arith, no_longer, length-append p.ready done)

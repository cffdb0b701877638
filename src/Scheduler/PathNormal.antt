-- ===== src/Scheduler/PathNormal.antt =====
-- `normalize_plan_path` leaves a path that it has made as it is.
use acoding_agent.Prelude.{
  ◌==◌, ◌≡◌, refl, sym, ap, ◌∙◌, true, false, ◌&&◌, some, List, [], ◌∷◌, ◌++◌, all, Text, codes,
  remove_prefix, to_slashes, split_on, split_step, arith, Bool-cases, inl, inr,
}
use acoding_agent.Scheduler.Paths.{
  join_slash, initial_slashes, push_part, push_parts, in_order, or_dot, normalize_plan_path,
}
use acoding_agent.Scheduler.PathParts.{
  is_plain, is_name, no_backslash, checked, join-checked, behind, normalize-behind, normalize-names,
}

split_on-cons : (t : Text) → (p : Text) × (ps : List Text) × (split_on b'/' t ≡ p ∷ ps)
unfolding split_on split_step
split_on-cons [] = ([], [], refl)
split_on-cons (c ∷ t) =
    let (p, ps, e) = split_on-cons t in
    elim (Bool-cases (c == b'/')) [
      | inl h ↦ ([], p ∷ ps, rw (e, h, split_on) refl)
      | inr h ↦ (c ∷ p, ps, rw (e, h, split_on) refl)
    ]

split_on-append :
    (p t : Text) → is_plain p ≡ true → split_on b'/' (p ++ (b'/' ∷ t)) ≡ p ∷ split_on b'/' t
unfolding split_on split_step
split_on-append [] t h = let (p, ps, e) = split_on-cons t in rw (e, split_on) refl
split_on-append (c ∷ p) t h = ground (arith, split_on-append p t)

split_on-part : (p : Text) → is_plain p ≡ true → split_on b'/' p ≡ p ∷ []
unfolding split_on split_step
split_on-part [] h = refl
split_on-part (c ∷ p) h = ground (arith, split_on-part p)

split_on-join :
    (first : Text) (rest : List Text)
    → all is_plain (first ∷ rest) ≡ true
    → split_on b'/' (join_slash (first ∷ rest)) ≡ first ∷ rest
unfolding join_slash
split_on-join first [] h = split_on-part first (ground arith)
split_on-join first (next ∷ rest) h =
    split_on-append first (join_slash (next ∷ rest)) (ground arith)
    ∙ ap (λ ps. first ∷ ps) (split_on-join next rest (ground arith))

push_part-name :
    (p : Text) (stack : List Text) → is_name p ≡ true → push_part false p stack ≡ p ∷ stack
unfolding push_part
push_part-name p [] h = ground arith
push_part-name p (t ∷ ts) h = ground arith

push_parts-names :
    (ps stack : List Text)
    → all is_name ps ≡ true
    → in_order (push_parts false ps stack) [] ≡ in_order stack ps
unfolding push_parts in_order
push_parts-names [] stack h = refl
push_parts-names (p ∷ ps) stack h =
    rw (push_part-name p stack (ground arith), push_parts)
      (push_parts-names ps (p ∷ stack) (ground arith))

to_slashes-id : (t : Text) → no_backslash t ≡ true → to_slashes t ≡ t
to_slashes-id [] h = refl
to_slashes-id (c ∷ t) h = ground (arith, to_slashes-id t)

no_backslash-append : (t u : Text) → no_backslash (t ++ u) ≡ (no_backslash t && no_backslash u)
no_backslash-append [] u = refl
no_backslash-append (c ∷ t) u = ground (arith, no_backslash-append t u)

plain-no_backslash : (t : Text) → is_plain t ≡ true → no_backslash t ≡ true
plain-no_backslash [] h = refl
plain-no_backslash (c ∷ t) h = ground (arith, plain-no_backslash t)

names-plain : (ps : List Text) → all is_name ps ≡ true → all is_plain ps ≡ true
names-plain [] h = refl
names-plain (p ∷ ps) h = ground (arith, names-plain ps)

join-no_backslash : (ps : List Text) → all is_plain ps ≡ true → no_backslash (join_slash ps) ≡ true
unfolding join_slash
join-no_backslash [] h = refl
join-no_backslash (p ∷ []) h = plain-no_backslash p (ground arith)
join-no_backslash (p ∷ q ∷ ps) h = ground (
  arith,
  no_backslash-append p (b'/' ∷ join_slash (q ∷ ps)),
  plain-no_backslash p,
  join-no_backslash (q ∷ ps),
)

initial_slashes-join :
    (first : Text) (rest : List Text)
    → is_name first ≡ true
    → initial_slashes (join_slash (first ∷ rest)) ≡ []
unfolding join_slash
initial_slashes-join [] rest h = cc
initial_slashes-join (c ∷ first) [] h = ground arith
initial_slashes-join (c ∷ first) (next ∷ rest) h = ground arith

-- A path that is made of names is normalized.
pub names-normalize :
    (first : Text) (rest : List Text)
    → all is_name (first ∷ rest) ≡ true
    → normalize_plan_path (join_slash (first ∷ rest)) ≡ some (join_slash (first ∷ rest))
unfolding in_order
names-normalize first rest h =
    let parts = first ∷ rest in
    let t = join_slash parts in
    let plain = names-plain parts h in
    normalize-behind t
    ∙ ap (λ u. behind (initial_slashes u) u) (to_slashes-id t (join-no_backslash parts plain))
    ∙ ap (λ front. behind front t) (initial_slashes-join first rest (ground arith))
    ∙ ap
        (λ ps.
          checked (
            remove_prefix (codes "./")
              (or_dot (join_slash (in_order (push_parts false ps []) [])))))
        (split_on-join first rest plain)
    ∙ ap (λ ps. checked (remove_prefix (codes "./") (or_dot (join_slash ps))))
        (push_parts-names parts [] h)
    ∙ join-checked first rest (ground arith)

-- A path that `normalize_plan_path` accepts stays inside the repository: it is made of at least one
-- part between slashes, and no part is empty, `.` or `..` or has a slash or a backslash in it.
pub normalize_plan_path-names :
    (path normalized : Text)
    → normalize_plan_path path ≡ some normalized
    → all is_name (split_on b'/' normalized) ≡ true
normalize_plan_path-names path q h =
    let (first, rest, names, e) = normalize-names path q h in
    ap (λ p. all is_name (split_on b'/' p)) e
    ∙ ap (all is_name) (split_on-join first rest (names-plain (first ∷ rest) names))
    ∙ names

-- Normalizing a second time changes nothing.
pub normalize_plan_path-twice :
    (path normalized : Text)
    → normalize_plan_path path ≡ some normalized
    → normalize_plan_path normalized ≡ some normalized
normalize_plan_path-twice path q h =
    let (first, rest, names, e) = normalize-names path q h in
    ap (λ p. normalize_plan_path p) e ∙ names-normalize first rest names ∙ ap some (sym e)

-- ===== src/Scheduler/PathParts.antt =====
-- The parts of a path that `normalize_plan_path` accepts.
use acoding_agent.Prelude.{
  ℕ, ◌==◌, ◌≡◌, refl, sym, ap, ◌∙◌, Bool, true, false, ◌&&◌, ◌||◌, not, Option, none, some, List,
  [], ◌∷◌, ◌++◌, if◌then◌else◌, is_empty, all, Text, text_eq_sound, codes, text_eq, starts_with,
  remove_prefix, to_slashes, split_on, split_step, arith, Bool-cases, inl, inr, ◌⊎◌,
}
use acoding_agent.Scheduler.Paths.{
  join_slash, initial_slashes, push_part, push_parts, in_order, or_dot, normpath,
  normalize_plan_path,
}

-- A part without separators.
abbrev pub is_plain : Text → Bool
is_plain = all (λ c. not (c == b'/') && not (c == 0x5c))

-- A part that normalization keeps at any place but the first.
abbrev pub is_kept : Text → Bool
is_kept part = not (is_empty part) && is_plain part && not (text_eq part (codes "."))

-- The name of a file or of a folder, which does not lead upwards.
abbrev pub is_name : Text → Bool
is_name part = is_kept part && not (text_eq part (codes ".."))

abbrev pub no_backslash : Text → Bool
no_backslash = all (λ c. not (c == 0x5c))

to_slashes-no_backslash : (t : Text) → no_backslash (to_slashes t) ≡ true
to_slashes-no_backslash [] = refl
to_slashes-no_backslash (c ∷ t) = ground (arith, to_slashes-no_backslash t)

split_step-plain :
    (c : ℕ) (parts : List Text)
    → not (c == 0x5c) ≡ true
    → all is_plain parts ≡ true
    → all is_plain (split_step b'/' c parts) ≡ true
unfolding split_step
split_step-plain c [] h k = refl
split_step-plain c (p ∷ parts) h k = ground arith

split_on-plain : (t : Text) → no_backslash t ≡ true → all is_plain (split_on b'/' t) ≡ true
unfolding split_on
split_on-plain [] h = refl
split_on-plain (c ∷ t) h =
    split_step-plain c (split_on b'/' t) (ground arith) (split_on-plain t (ground arith))

-- Upward parts stand below all others on the stack.
is_stack : List Text → Bool
is_stack [] = true
is_stack (top ∷ below) =
    is_kept top
    && is_stack below
    && (not (text_eq top (codes "..")) || all (λ p. text_eq p (codes "..")) below)

push_part-stack :
    (part : Text) (stack : List Text)
    → is_plain part ≡ true
    → is_stack stack ≡ true
    → is_stack (push_part false part stack) ≡ true
unfolding push_part is_stack
push_part-stack part [] h k = ground arith
push_part-stack part (top ∷ below) h k = ground arith

push_parts-stack :
    (parts stack : List Text)
    → all is_plain parts ≡ true
    → is_stack stack ≡ true
    → is_stack (push_parts false parts stack) ≡ true
unfolding push_parts
push_parts-stack [] stack h k = k
push_parts-stack (part ∷ parts) stack h k =
    push_parts-stack parts (push_part false part stack) (ground arith)
      (push_part-stack part stack (ground arith) k)

-- The part at the bottom of a stack.
bottom : Text → List Text → Text
bottom t [] = t
bottom t (u ∷ us) = bottom u us

stack-names :
    (t : Text) (ts : List Text)
    → is_stack (t ∷ ts) ≡ true
    → text_eq (bottom t ts) (codes "..") ≡ false
    → all is_name (t ∷ ts) ≡ true
unfolding is_stack bottom
stack-names t [] h k = ground arith
stack-names t (u ∷ us) h k = ground (arith, stack-names u us)

bottom-kept : (t : Text) (ts : List Text) → is_stack (t ∷ ts) ≡ true → is_kept (bottom t ts) ≡ true
unfolding is_stack bottom
bottom-kept t [] h = ground arith
bottom-kept t (u ∷ us) h = bottom-kept u us (ground arith)

in_order-names :
    (stack acc : List Text)
    → all is_name (in_order stack acc) ≡ (all is_name stack && all is_name acc)
unfolding in_order
in_order-names [] acc = refl
in_order-names (t ∷ ts) acc = ground (arith, in_order-names ts (t ∷ acc))

in_order-bottom :
    (t : Text) (ts acc : List Text)
    → (rest : List Text) × (in_order (t ∷ ts) acc ≡ bottom t ts ∷ rest)
unfolding in_order bottom
in_order-bottom t [] acc = (acc, refl)
in_order-bottom t (u ∷ us) acc = in_order-bottom u us (t ∷ acc)

initial_slashes-cases :
    (t : Text) → (initial_slashes t ≡ []) ⊎ ((f : Text) × (initial_slashes t ≡ b'/' ∷ f))
initial_slashes-cases t = elim (Bool-cases (starts_with (codes "///") t)) [
  | inl h ↦ inr ([], rw h refl)
  | inr h ↦ elim (Bool-cases (starts_with (codes "//") t)) [
    | inl h2 ↦ inr (codes "/", rw (h, h2) refl)
    | inr h2 ↦ elim (Bool-cases (starts_with (codes "/") t)) [
      | inl h3 ↦ inr ([], rw (h, h2, h3) refl)
      | inr h3 ↦ inl (rw (h, h2, h3) refl)
    ]
  ]
]

-- The tests of `normalize_plan_path` on the normalized path.
abbrev pub checked : Text → Option Text
checked normalized =
    if is_empty normalized
      || text_eq normalized (codes ".")
      || text_eq normalized (codes "..")
      || starts_with (codes "../") normalized
    then none
    else if starts_with (codes "/") normalized
    then none
    else some normalized

-- A path that starts with a name is normalized.
pub join-checked :
    (first : Text) (rest : List Text)
    → is_name first ≡ true
    → checked (remove_prefix (codes "./") (or_dot (join_slash (first ∷ rest))))
      ≡ some (join_slash (first ∷ rest))
unfolding join_slash
join-checked [] rest h = cc
join-checked (c ∷ []) [] h = ground arith
join-checked (c ∷ d ∷ []) [] h = ground arith
join-checked (c ∷ d ∷ e ∷ first) [] h = ground arith
join-checked (c ∷ []) (p ∷ rest) h = ground arith
join-checked (c ∷ d ∷ []) (p ∷ rest) h = ground arith
join-checked (c ∷ d ∷ e ∷ first) (p ∷ rest) h = ground arith

-- The path that is made behind some leading slashes.
abbrev pub behind : Text → Text → Option Text
behind front t = checked (
    remove_prefix (codes "./") (
      or_dot (
        front
        ++ join_slash (in_order (push_parts (not (is_empty front)) (split_on b'/' t) []) []))))

pub normalize-behind :
    (path : Text)
    → normalize_plan_path path ≡ behind (initial_slashes (to_slashes path)) (to_slashes path)
unfolding normalize_plan_path normpath
normalize-behind path = refl

absolute_refused :
    (f t : Text) → checked (remove_prefix (codes "./") (or_dot ((b'/' ∷ f) ++ t))) ≡ none
absolute_refused f t = ground arith

-- What is made of the parts of a relative path.
abbrev joined : List Text → Option Text
joined parts = checked (remove_prefix (codes "./") (or_dot (join_slash parts)))

upward_refused : (rest : List Text) → joined (codes ".." ∷ rest) ≡ none
unfolding join_slash
upward_refused [] = refl
upward_refused (p ∷ rest) = refl

-- Whatever stands on the stack, only names are accepted.
stack-parts :
    (stack : List Text) (q : Text)
    → is_stack stack ≡ true
    → joined (in_order stack []) ≡ some q
    → (first : Text) × (rest : List Text) × (all is_name (first ∷ rest) ≡ true)
      × (q ≡ join_slash (first ∷ rest))
unfolding in_order join_slash
stack-parts [] q s h = cc
stack-parts (t ∷ ts) q s h =
    let (rest, e) = in_order-bottom t ts [] in
    let first = bottom t ts in
    let made : joined (first ∷ rest) ≡ some q = sym (ap (λ p. joined p) e) ∙ h in
    elim (Bool-cases (text_eq first (codes ".."))) [
      | inl up ↦
          let none_ : none ≡ some q =
            sym (upward_refused rest)
            ∙ ap (λ p. joined (p ∷ rest)) (sym (text_eq_sound first (codes "..") up))
            ∙ made in
          cc
      | inr down ↦
          let names : all is_name (first ∷ rest) ≡ true =
            sym (ap (all is_name) e)
            ∙ in_order-names (t ∷ ts) []
            ∙ ground (arith, stack-names t ts s down) in
          let same : some (join_slash (first ∷ rest)) ≡ some q =
            sym (join-checked first rest (ground arith)) ∙ made in
          (first, rest, names, cc)
    ]

-- An accepted path is made of names.
pub normalize-names :
    (path q : Text)
    → normalize_plan_path path ≡ some q
    → (first : Text) × (rest : List Text) × (all is_name (first ∷ rest) ≡ true)
      × (q ≡ join_slash (first ∷ rest))
unfolding is_stack
normalize-names path q h =
    let t = to_slashes path in
    let parts = split_on b'/' t in
    elim (initial_slashes-cases t) [
      | inl relative ↦
          stack-parts (push_parts false parts []) q
            (push_parts-stack parts [] (split_on-plain t (to_slashes-no_backslash path)) refl)
            (ap (λ front. behind front t) (sym relative) ∙ sym (normalize-behind path) ∙ h)
      | inr (f, absolute_) ↦
          let none_ : none ≡ some q =
            sym (absolute_refused f (join_slash (in_order (push_parts true parts []) [])))
            ∙ ap (λ front. behind front t) (sym absolute_)
            ∙ sym (normalize-behind path)
            ∙ h in
          cc
    ]

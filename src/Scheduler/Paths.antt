-- ===== src/Scheduler/Paths.antt =====
-- `normalize_plan_path` of src/repopilot/services/scheduler.py, with `posixpath.normpath`.
use acoding_agent.Prelude.{
  Bool, ◌||◌, not, Option, none, some, List, [], ◌∷◌, ◌++◌, if◌then◌else◌, is_empty, Text, codes,
  text_eq, starts_with, remove_prefix, to_slashes, split_on,
}

-- `'/'.join(parts)`
unfoldable pub join_slash : List Text → Text
join_slash [] = []
join_slash (part ∷ []) = part
join_slash (part ∷ next ∷ parts) = part ++ (b'/' ∷ join_slash (next ∷ parts))

-- The number of slashes that `normpath` keeps in front: two stay two, and more become one.
abbrev pub initial_slashes : Text → Text
initial_slashes path =
    if starts_with (codes "///") path
    then codes "/"
    else if starts_with (codes "//") path
    then codes "//"
    else if starts_with (codes "/") path
    then codes "/"
    else []

-- One round of the loop of `normpath`, with `new_comps` as a stack, its last part on top.
unfoldable pub push_part : Bool → Text → List Text → List Text
push_part absolute part stack =
    if is_empty part || text_eq part (codes ".") then stack else elim stack [
      | [] ↦ if not (text_eq part (codes "..")) || not absolute then part ∷ [] else []
      | top ∷ below ↦
          if not (text_eq part (codes "..")) || text_eq top (codes "..")
          then part ∷ top ∷ below
          else below
    ]

unfoldable pub push_parts : Bool → List Text → List Text → List Text
push_parts absolute [] stack = stack
push_parts absolute (part ∷ parts) stack = push_parts absolute parts (push_part absolute part stack)

unfoldable pub in_order : List Text → List Text → List Text
in_order [] parts = parts
in_order (top ∷ below) parts = in_order below (top ∷ parts)

abbrev pub or_dot : Text → Text
or_dot [] = codes "."
or_dot (c ∷ cs) = c ∷ cs

-- `posixpath.normpath`
unfoldable pub normpath : Text → Text
unfolding push_part push_parts in_order join_slash split_on
normpath path =
    let front = initial_slashes path in
    or_dot (
      front ++ join_slash (in_order (push_parts (not (is_empty front)) (split_on b'/' path) []) []))

-- `normalize_plan_path`: `none` is an `InvalidPlanError`.
unfoldable pub normalize_plan_path : Text → Option Text
unfolding normpath
normalize_plan_path path =
    let normalized = remove_prefix (codes "./") (normpath (to_slashes path)) in
    if is_empty normalized
      || text_eq normalized (codes ".")
      || text_eq normalized (codes "..")
      || starts_with (codes "../") normalized
    then none
    else if starts_with (codes "/") normalized
    then none
    else some normalized

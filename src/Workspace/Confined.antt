-- ===== src/Workspace/Confined.antt =====
-- The tools of an agent change no path that its context does not allow.
use acoding_agent.Prelude.{
  ◌≡◌, ◌≢◌, refl, sym, ap, ◌∙◌, subst, true, false, ◌&&◌, not, none, some, List, [], ◌∷◌, ◌++◌,
  is_empty, Text, text_eq, mem_text, text_eq_sound, text_eq_refl, sorted_set, if◌then◌else◌, arith,
  Bool-cases, inl, inr,
}
use acoding_agent.Prelude.Checked.{
  Checked, accepted, refused, check_all, >>=-eq-accepted, >>-eq-accepted, refuse_if-eq-accepted,
  refuse_if-never, refuse_if-eq-refused, >>-never, >>=-never, check_all-never, accepted-injective,
}
use acoding_agent.Workspace.Files.{get, paths_of, same_content, same_content_refl, get-set, get-del}
use acoding_agent.Workspace.Tools.{
  Error, open_workspace, denied_of, normalize_relative_path, require_allowed_path, Workspace,
  write_file, delete_file, changed, final_edits,
}
use acoding_agent.Verification.Commands.{Member}
use acoding_agent.Workspace.Edits.{mem_text-changed_among}

-- A call of one of the two tools that edit.
pub data Call : Type 0 where
  write_file_call : (path content : Text) → Call
  delete_file_call : (path : Text) → Call

abbrev pub call_tool : List Text → Call → Workspace → Checked Error Workspace
call_tool write_paths (write_file_call path content) w = write_file write_paths path content w
call_tool write_paths (delete_file_call path) w = delete_file write_paths path w

-- A call that is refused changes nothing.
abbrev pub kept_or : Workspace → Checked Error Workspace → Workspace
kept_or w (accepted w') = w'
kept_or w (refused e) = w

unfoldable pub call_tools : List Text → List Call → Workspace → Workspace
call_tools write_paths [] w = w
call_tools write_paths (c ∷ cs) w =
    call_tools write_paths cs (kept_or w (call_tool write_paths c w))

-- Paths outside `allowed` have their original contents.
abbrev IsConfined : List Text → Workspace → Type 0
IsConfined allowed w = (p : Text) → mem_text p allowed ≡ false → get p w.original ≡ get p w.current

outside :
    (p n : Text) (allowed : List Text)
    → mem_text p allowed ≡ false
    → mem_text n allowed ≡ true
    → text_eq p n ≡ false
outside p n allowed out inside = elim (Bool-cases (text_eq p n)) [
  | inl same ↦ absurd (ground (arith, ap (λ x. mem_text x allowed) (text_eq_sound p n same)))
  | inr other ↦ other
]

allowed_path :
    (value n : Text) (write_paths allowed : List Text)
    → check_all normalize_relative_path write_paths ≡ accepted allowed
    → require_allowed_path value write_paths ≡ accepted n
    → mem_text n allowed ≡ true
unfolding require_allowed_path
allowed_path value n write_paths allowed a h =
    let (normal, h0, h1) = >>=-eq-accepted h in
    let (others, h2, h3) = >>=-eq-accepted h1 in
    let (known, h4) = >>-eq-accepted h3 in
    let known_ = refuse_if-eq-accepted _ known in
    let same : others ≡ allowed = accepted-injective (sym h2 ∙ a) in
    subst (λ x. mem_text x allowed ≡ true) (accepted-injective h4)
      (subst (λ x. mem_text normal x ≡ true) same (ground arith))

call_tool-IsConfined :
    (write_paths allowed : List Text) (c : Call) (w w' : Workspace)
    → check_all normalize_relative_path write_paths ≡ accepted allowed
    → call_tool write_paths c w ≡ accepted w'
    → IsConfined allowed w
    → IsConfined allowed w'
unfolding write_file delete_file
call_tool-IsConfined write_paths allowed (write_file_call path content) w w' a h k p out =
    let (n, h0, h1) = >>=-eq-accepted h in
    let inside = allowed_path path n write_paths allowed a h0 in
    subst (λ x. get p x.original ≡ get p x.current) (accepted-injective h1)
      (k p out
        ∙ sym (
            get-set p n content w.current
            ∙ ap (λ b. if b then some content else get p w.current)
                (outside p n allowed out inside)))
call_tool-IsConfined write_paths allowed (delete_file_call path) w w' a h k p out =
    let (n, h0, h1) = >>=-eq-accepted h in
    let (content, h2, h3) = >>=-eq-accepted h1 in
    let inside = allowed_path path n write_paths allowed a h0 in
    subst (λ x. get p x.original ≡ get p x.current) (accepted-injective h3)
      (k p out
        ∙ sym (
            get-del p n w.current
            ∙ ap (λ b. if b then none else get p w.current) (outside p n allowed out inside)))

call_tools-IsConfined :
    (write_paths allowed : List Text) (cs : List Call) (w : Workspace)
    → check_all normalize_relative_path write_paths ≡ accepted allowed
    → IsConfined allowed w
    → IsConfined allowed (call_tools write_paths cs w)
unfolding call_tools
call_tools-IsConfined write_paths allowed [] w a k = k
call_tools-IsConfined write_paths allowed (c ∷ cs) w a k =
    call_tools-IsConfined write_paths allowed cs (kept_or w (call_tool write_paths c w)) a
      (kept (call_tool write_paths c w) refl)
  where
    kept :
        (r : Checked Error Workspace)
        → call_tool write_paths c w ≡ r
        → IsConfined allowed (kept_or w r)
    kept (accepted w') h = call_tool-IsConfined write_paths allowed c w w' a h k
    kept (refused e) h = k

mem_text-denied_of :
    (p : Text) (allowed ps : List Text)
    → mem_text p (denied_of allowed ps) ≡ (mem_text p ps && not (mem_text p allowed))
unfolding denied_of
mem_text-denied_of p allowed [] = refl
mem_text-denied_of p allowed (q ∷ ps) = elim (Bool-cases (text_eq p q)) [
  | inl same ↦
      let e : mem_text q allowed ≡ mem_text p allowed =
        ap (λ x. mem_text x allowed) (sym (text_eq_sound p q same)) in
      elim (Bool-cases (mem_text p allowed)) [
        | inl h ↦ ground (arith, mem_text-denied_of p allowed ps, e)
        | inr h ↦ ground (arith, mem_text-denied_of p allowed ps, e)
      ]
  | inr other ↦ elim (Bool-cases (mem_text q allowed)) [
    | inl h ↦ ground (arith, mem_text-denied_of p allowed ps)
    | inr h ↦ ground (arith, mem_text-denied_of p allowed ps)
  ]
]

empty_of_no_mem : (ts : List Text) → ((p : Text) → mem_text p ts ≡ false) → is_empty ts ≡ true
empty_of_no_mem [] f = refl
empty_of_no_mem (t ∷ ts) f = absurd (ground (arith, f t, text_eq_refl t))

nothing_denied :
    (allowed : List Text) (w : Workspace)
    → IsConfined allowed w
    → is_empty (denied_of allowed (changed w)) ≡ true
nothing_denied allowed w k = empty_of_no_mem (denied_of allowed (changed w)) λ p.
    elim (Bool-cases (mem_text p allowed)) [
      | inl inside ↦ ground (arith, mem_text-denied_of p allowed (changed w))
      | inr out ↦
          let same : same_content (get p w.original) (get p w.current) ≡ true =
            subst (λ x. same_content (get p w.original) x ≡ true) (k p out)
              (same_content_refl (get p w.original)) in
          ground (
            arith,
            mem_text-denied_of p allowed (changed w),
            mem_text-changed_among w p (sorted_set (paths_of w.original ++ paths_of w.current)),
          )
    ]

normalize-never : (path : Text) → normalize_relative_path path ≢ refused Error.permission_error
unfolding normalize_relative_path
normalize-never path = >>-never (refuse_if-never _ _ _ λ e. cc) λ e.
    >>-never (refuse_if-never _ _ _ λ e. cc) λ e2.
      >>-never (refuse_if-never _ _ _ λ e. cc)
        λ e3. >>-never (refuse_if-never _ _ _ λ e. cc) λ e4 h. cc

-- Whatever an agent writes and deletes in an opened workspace, by calls that are allowed or refused, the
-- edits that it ends with are not denied under the write paths of its calls.
pub final_edits-never-denied :
    (members : List Member) (write_paths : List Text) (calls : List Call) (w : Workspace)
    → open_workspace members ≡ accepted w
    → final_edits write_paths (call_tools write_paths calls w) ≢ refused Error.permission_error
unfolding final_edits open_workspace
final_edits-never-denied members write_paths calls w opened =
    let (files, h0, h1) = >>=-eq-accepted opened in
    let fresh : (allowed : List Text) → IsConfined allowed w = λ allowed p out.
      subst (λ x. get p x.original ≡ get p x.current) (accepted-injective h1) refl in
    >>=-never (check_all-never normalize_relative_path _ write_paths normalize-never) λ allowed a.
      >>-never
        (λ h. absurd (
          ground (
            arith,
            refuse_if-eq-refused _ _ _ h,
            nothing_denied allowed (call_tools write_paths calls w)
                (call_tools-IsConfined write_paths allowed calls w a (fresh allowed)),
          )))
        λ fine h. cc

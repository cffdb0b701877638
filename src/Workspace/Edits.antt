-- ===== src/Workspace/Edits.antt =====
-- The edits that an agent ends with.
use acoding_agent.Prelude.{
  ◌≡◌, refl, sym, ap, ◌∙◌, false, ◌&&◌, not, Option, none, some, List, [], ◌∷◌, ◌++◌, map, Text,
  text_eq, mem_text, text_eq_sound, sorted_set, mem_text-sorted_set, mem_text-append, if◌then◌else◌,
  arith, Bool-cases, inl, inr,
}
use acoding_agent.Prelude.Checked.{accepted, >>=-eq-accepted, >>-eq-accepted, accepted-injective}
use acoding_agent.Workspace.Files.{
  Files, get, set, del, paths_of, same_content, same_content_sound, get-set, get-del,
  get_of_not_mem,
}
use acoding_agent.Workspace.Tools.{
  Workspace, DeveloperFileEdit, changed_among, changed, edit_to, edit_of, final_edits,
}

-- What an edit does to files: `content` is null exactly for a deletion.
abbrev pub apply_edit : DeveloperFileEdit → Files → Files
apply_edit e files = elim e.content [
  | none ↦ del e.path files
  | some content ↦ set e.path content files
]

unfoldable pub apply_edits : List DeveloperFileEdit → Files → Files
apply_edits [] files = files
apply_edits (e ∷ es) files = apply_edits es (apply_edit e files)

get-apply_edit_to :
    (w : Workspace) (p path : Text) (o : Option Text) (files : Files)
    → get p (apply_edit (edit_to w path o) files) ≡ (if text_eq p path then o else get p files)
get-apply_edit_to w p path none files = get-del p path files
get-apply_edit_to w p path (some content) files = get-set p path content files

get-apply_edit :
    (w : Workspace) (p path : Text) (files : Files)
    → get p (apply_edit (edit_of w path) files)
      ≡ (if text_eq p path then get p w.current else get p files)
get-apply_edit w p path files =
    get-apply_edit_to w p path (get path w.current) files ∙ (elim (Bool-cases (text_eq p path)) [
      | inl same ↦ rw same (ap (λ x. get x w.current) (sym (text_eq_sound p path same)))
      | inr other ↦ rw other refl
    ])

get-apply_edits :
    (w : Workspace) (p : Text) (paths : List Text) (files : Files)
    → get p (apply_edits (map (edit_of w) paths) files)
      ≡ (if mem_text p paths then get p w.current else get p files)
unfolding apply_edits
get-apply_edits w p [] files = refl
get-apply_edits w p (q ∷ paths) files =
    ground (
      arith,
      get-apply_edits w p paths (apply_edit (edit_of w q) files),
      get-apply_edit w p q files,
    )

pub mem_text-changed_among :
    (w : Workspace) (p : Text) (ps : List Text)
    → mem_text p (changed_among w ps)
      ≡ (mem_text p ps && not (same_content (get p w.original) (get p w.current)))
unfolding changed_among
mem_text-changed_among w p [] = refl
mem_text-changed_among w p (q ∷ ps) = elim (Bool-cases (text_eq p q)) [
  | inl same ↦
      let e : same_content (get q w.original) (get q w.current)
          ≡ same_content (get p w.original) (get p w.current) =
        ap (λ x. same_content (get x w.original) (get x w.current))
          (sym (text_eq_sound p q same)) in
      elim (Bool-cases (same_content (get q w.original) (get q w.current))) [
        | inl h ↦ ground (arith, mem_text-changed_among w p ps, e)
        | inr h ↦ ground (arith, mem_text-changed_among w p ps, e)
      ]
  | inr other ↦ elim (Bool-cases (same_content (get q w.original) (get q w.current))) [
    | inl h ↦ ground (arith, mem_text-changed_among w p ps)
    | inr h ↦ ground (arith, mem_text-changed_among w p ps)
  ]
]

-- A path that is not changed has its original content.
pub unchanged :
    (w : Workspace) (p : Text) → mem_text p (changed w) ≡ false → get p w.original ≡ get p w.current
unchanged w p h =
    let keys = paths_of w.original ++ paths_of w.current in
    let parts = mem_text-append p (paths_of w.original) (paths_of w.current) in
    let both = mem_text-changed_among w p (sorted_set keys) in
    elim (Bool-cases (same_content (get p w.original) (get p w.current))) [
      | inl same ↦ same_content_sound (get p w.original) (get p w.current) same
      | inr differ ↦
          let absent : mem_text p keys ≡ false = ground (arith, both, mem_text-sorted_set p keys) in
          get_of_not_mem p w.original (ground (arith, parts))
          ∙ sym (get_of_not_mem p w.current (ground (arith, parts)))
    ]

-- The edits that an agent ends with turn the original files into the current ones: at every path, the
-- files behind the edits have the content that the workspace has.
pub final_edits-apply :
    (allowed_write_paths : List Text) (w : Workspace) (edits : List DeveloperFileEdit) (p : Text)
    → final_edits allowed_write_paths w ≡ accepted edits
    → get p (apply_edits edits w.original) ≡ get p w.current
unfolding final_edits
final_edits-apply allowed_write_paths w edits p h =
    let (allowed, h0, h1) = >>=-eq-accepted h in
    let (fine, h2) = >>-eq-accepted h1 in
    ap (λ es. get p (apply_edits es w.original)) (sym (accepted-injective h2))
    ∙ get-apply_edits w p (changed w) w.original
    ∙ (elim (Bool-cases (mem_text p (changed w))) [
      | inl there ↦ rw there refl
      | inr not_there ↦ rw not_there (unchanged w p not_there)
    ])

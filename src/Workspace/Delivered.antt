-- ===== src/Workspace/Delivered.antt =====
-- What an agent of src/repopilot/activities/developer.py may deliver.
use acoding_agent.Prelude.{
  ◌≡◌, ◌≢◌, refl, sym, ap, ◌∙◌, subst, true, Option, none, some, List, [], ◌∷◌, map, All, Text,
  text_eq, text_eq_sound, mem_text, Bool-cases, inl, inr, arith,
}
use acoding_agent.Prelude.Checked.{
  Checked, accepted, refused, >>=-eq-accepted, >>-eq-accepted, refuse_if-eq-accepted,
  found_or-eq-accepted, accepted-injective,
}
use acoding_agent.Domain.Plans.{Operation}
use acoding_agent.Workspace.Files.{get}
use acoding_agent.Workspace.Tools.{
  Workspace, DeveloperFileEdit, changed, edit_to, edit_of, final_edits,
}
use acoding_agent.Workspace.Tools as Tools
use acoding_agent.Workspace.Edits.{unchanged}
use acoding_agent.Workspace.Design.{
  key_error, operations_differ, same_operation, Operations, op_of, check_planned, check_all_planned,
  on_tools, agent_edits,
}
use acoding_agent.Workspace.Operations.{same_operation_sound}

-- An edit whose operation is planned for its path.
abbrev IsInPlan : Operations → DeveloperFileEdit → Type 0
IsInPlan planned edit = op_of edit.path planned ≡ some edit.operation

check_planned-IsInPlan :
    (planned : Operations) (edit : DeveloperFileEdit)
    → check_planned planned edit ≡ accepted tt
    → IsInPlan planned edit
check_planned-IsInPlan planned edit h =
    let (operation, h0, h1) = >>=-eq-accepted h in
    let same : same_operation operation edit.operation ≡ true =
      ground (arith, refuse_if-eq-accepted operations_differ h1) in
    found_or-eq-accepted key_error (op_of edit.path planned) h0
    ∙ ap some (same_operation_sound operation edit.operation same)

check_all_planned-All :
    (planned : Operations) (edits : List DeveloperFileEdit)
    → check_all_planned planned edits ≡ accepted tt
    → All (IsInPlan planned) edits
unfolding check_all_planned
check_all_planned-All planned [] h = tt
check_all_planned-All planned (edit ∷ edits) h =
    let (first, rest) = >>-eq-accepted h in
    (check_planned-IsInPlan planned edit first, check_all_planned-All planned edits rest)

on_tools-eq-accepted :
    {A : Type 0} (r : Checked Tools.Error A) (a : A) → on_tools r ≡ accepted a → r ≡ accepted a
on_tools-eq-accepted (accepted value) a h = ap accepted (accepted-injective h)
on_tools-eq-accepted (refused reason) a h = cc

final_edits-changed :
    (paths : List Text) (w : Workspace) (edits : List DeveloperFileEdit)
    → final_edits paths w ≡ accepted edits
    → map (edit_of w) (changed w) ≡ edits
unfolding final_edits
final_edits-changed paths w edits h =
    let (allowed, h0, h1) = >>=-eq-accepted h in
    let (fine, h2) = >>-eq-accepted h1 in accepted-injective h2

edit_to-path : (w : Workspace) (p : Text) (o : Option Text) → (edit_to w p o).path ≡ p
edit_to-path w p none = refl
edit_to-path w p (some content) = refl

edit_of-path : (w : Workspace) (p : Text) → (edit_of w p).path ≡ p
edit_of-path w p = edit_to-path w p (get p w.current)

planned_at :
    (planned : Operations) (w : Workspace) (p : Text) (paths : List Text)
    → All (IsInPlan planned) (map (edit_of w) paths)
    → mem_text p paths ≡ true
    → op_of p planned ≡ some (edit_of w p).operation
planned_at planned w p [] all h = cc
planned_at planned w p (q ∷ paths) (first, all) h = elim (Bool-cases (text_eq p q)) [
  | inr other ↦ planned_at planned w p paths all (ground (arith, h, other))
  | inl same ↦
      subst (λ x. op_of x planned ≡ some (edit_of w x).operation) (sym (text_eq_sound p q same))
        (ap (λ x. op_of x planned) (sym (edit_of-path w q)) ∙ first)
]

-- What a path's contents before and behind the work of an agent ask for.
abbrev pub change_between : (before after : Option Text) → Option Operation
change_between none none = none
change_between none (some new) = some Operation.create
change_between (some old) none = some Operation.delete
change_between (some old) (some new) = some Operation.modify

edit_to-is_change :
    (w : Workspace) (p : Text) (before after : Option Text)
    → get p w.original ≡ before
    → before ≢ after
    → some (edit_to w p after).operation ≡ change_between before after
unfolding get
edit_to-is_change w p none none h differ = absurd (differ refl)
edit_to-is_change w p none (some new) h differ = rw (h, edit_to) refl
edit_to-is_change w p (some old) none h differ = refl
edit_to-is_change w p (some old) (some new) h differ = rw (h, edit_to) refl

-- When the edits of an agent pass the checks, then every path whose content it has changed is in the
-- change plan, with the operation that its contents in the original and the current files ask for: to
-- create a file that was not there, to delete one that is gone, and to modify any other.
pub agent_edits-planned :
    (planned : Operations) (w : Workspace) (edits : List DeveloperFileEdit) (p : Text)
    → agent_edits planned w ≡ accepted edits
    → get p w.original ≢ get p w.current
    → op_of p planned ≡ change_between (get p w.original) (get p w.current)
unfolding agent_edits
agent_edits-planned planned w edits p h differ =
    let (es, h0, h1) = >>=-eq-accepted h in
    let (some_edit, h2) = >>-eq-accepted h1 in
    let (fine, h3) = >>-eq-accepted h2 in
    let made = final_edits-changed _ w es (on_tools-eq-accepted (final_edits _ w) es h0) in
    let all = check_all_planned-All planned es fine in
    elim (Bool-cases (mem_text p (changed w))) [
      | inr same ↦ absurd (differ (unchanged w p same))
      | inl there ↦
          planned_at planned w p (changed w) (subst (All (IsInPlan planned)) (sym made) all) there
          ∙ edit_to-is_change w p (get p w.original) (get p w.current) refl differ
    ]

-- ===== src/Workspace/Design.antt =====
-- How src/repopilot/activities/developer.py checks the edits of a developer against the change plan:
-- `_validate_design`, and the checks of an agent's final edits in `develop_patch_with_agent`.
use acoding_agent.Prelude.{
  ℕ, ◌+◌, ltb, Bool, true, false, ◌&&◌, not, Option, none, some, List, [], ◌∷◌, map, all, is_empty,
  Text, text_eq, if◌then◌else◌,
}
use acoding_agent.Prelude.Checked.{Checked, accepted, refused, ◌>>=◌, ◌>>◌, refuse_if, found_or}
use acoding_agent.Domain.Plans.{Operation, create, modify, delete, PlannedFileChange}
use acoding_agent.Scheduler.Paths.{normalize_plan_path}
use acoding_agent.Workspace.Files.{Files, get}
use acoding_agent.Workspace.Tools.{Workspace, DeveloperFileEdit, final_edits}
use acoding_agent.Workspace.Tools as Tools

-- The reasons of the `ValueError`s, and the `KeyError` of a path without a plan.
pub data Error : Type 0 where
  invalid_path duplicate_edit paths_differ operations_differ too_large : Error
  target_exists target_missing no_change key_error : Error
  workspace_error : Tools.Error → Error

abbrev pub same_operation : Operation → Operation → Bool
same_operation create create = true
same_operation modify modify = true
same_operation delete delete = true
same_operation _ _ = false

-- A dictionary from paths to operations.
abbrev pub Operations : Type 0
Operations = List (Text × Operation)

unfoldable pub op_of : Text → Operations → Option Operation
op_of path [] = none
op_of path ((p, operation) ∷ ops) = if text_eq path p then some operation else op_of path ops

unfoldable pub put_op : Text → Operation → Operations → Operations
put_op path operation [] = (path, operation) ∷ []
put_op path operation ((p, old) ∷ ops) =
    let rest = put_op path operation ops in
    if text_eq path p then (p, operation) ∷ ops else (p, old) ∷ rest

-- `{normalize_plan_path(file.path): file.operation for file in planned_files}`
unfoldable pub planned_operations : List PlannedFileChange → Operations → Checked Error Operations
unfolding put_op
planned_operations [] ops = accepted ops
planned_operations (file ∷ files) ops = do
  path ← found_or invalid_path (normalize_plan_path file.path)
  planned_operations files (put_op path file.operation ops)

abbrev pub is_some : {A : Type 0} → Option A → Bool
is_some none = false
is_some (some a) = true

abbrev pub is_op : Option Operation → Operation → Bool
is_op none operation = false
is_op (some planned) operation = same_operation planned operation

-- `len(edit.content.encode("utf-8"))`, by the length of an encoding.
abbrev pub size_of : (Text → ℕ) → Option Text → ℕ
size_of encoded_length none = 0
size_of encoded_length (some content) = encoded_length content

-- Whether every key of a dictionary is one of another, and whether every entry is.
abbrev pub keys_in : Operations → Operations → Bool
keys_in ops others = all (λ (path, operation). is_some (op_of path others)) ops

abbrev pub entries_in : Operations → Operations → Bool
entries_in ops others = all (λ (path, operation). is_op (op_of path others) operation) ops

-- The last loop of `_validate_design`.
abbrev pub check_target : Operation → (exists : Bool) → Checked Error (Unit {0})
check_target create true = refused target_exists
check_target modify false = refused target_missing
check_target delete false = refused target_missing
check_target _ _ = accepted tt

unfoldable pub check_targets : Operations → Files → Checked Error (Unit {0})
unfolding get
check_targets [] source_files = accepted tt
check_targets ((path, operation) ∷ ops) source_files = do
  check_target operation (is_some (get path source_files))
  check_targets ops source_files

-- The encoding of a text is a parameter.
module _ (encoded_length : Text → ℕ) where
  -- The first loop, with what it has collected and the total so far.
  unfoldable pub collect_edits :
      List DeveloperFileEdit → Operations → (total : ℕ) → Checked Error (Operations × ℕ)
  unfolding op_of put_op
  collect_edits [] actual total = accepted (actual, total)
  collect_edits (edit ∷ edits) actual total = do
    path ← found_or invalid_path (normalize_plan_path edit.path)
    refuse_if (is_some (op_of path actual)) duplicate_edit
    collect_edits edits (put_op path edit.operation actual)
        (total + size_of encoded_length edit.content)

  -- `_validate_design` behind its loop over the edits.
  unfoldable pub check_collected : Operations → Files → Operations × ℕ → Checked Error (Unit {0})
  unfolding op_of check_targets
  check_collected planned source_files (actual, total) = do
    refuse_if (not (keys_in actual planned && keys_in planned actual)) paths_differ
    refuse_if (not (entries_in actual planned && entries_in planned actual)) operations_differ
    refuse_if (ltb 5242880 total) too_large
    check_targets actual source_files

  -- `_validate_design` behind its first statement.
  unfoldable pub check_design :
      List DeveloperFileEdit → Files → Operations → Checked Error (Unit {0})
  unfolding collect_edits check_collected
  check_design edits source_files planned =
      collect_edits edits [] 0 >>= check_collected planned source_files

  -- `_validate_design`
  unfoldable pub validate_design :
      List DeveloperFileEdit → List PlannedFileChange → Files → Checked Error (Unit {0})
  unfolding planned_operations check_design
  validate_design edits planned_files source_files =
      planned_operations planned_files [] >>= check_design edits source_files

-- `planned[edit.path] != edit.operation`
abbrev pub check_planned : Operations → DeveloperFileEdit → Checked Error (Unit {0})
check_planned planned edit = do
  operation ← found_or key_error (op_of edit.path planned)
  refuse_if (not (same_operation operation edit.operation)) operations_differ

unfoldable pub check_all_planned : Operations → List DeveloperFileEdit → Checked Error (Unit {0})
unfolding op_of
check_all_planned planned [] = accepted tt
check_all_planned planned (edit ∷ edits) = do
  check_planned planned edit
  check_all_planned planned edits

abbrev pub on_tools : {A : Type 0} → Checked Tools.Error A → Checked Error A
on_tools (accepted value) = accepted value
on_tools (refused reason) = refused (workspace_error reason)

-- The edits of an agent behind its loop.
unfoldable pub agent_edits : Operations → Workspace → Checked Error (List DeveloperFileEdit)
unfolding final_edits check_all_planned
agent_edits planned w = do
  edits ← on_tools (final_edits (map (λ (path, operation). path) planned) w)
  refuse_if (is_empty edits) no_change
  check_all_planned planned edits
  accepted edits

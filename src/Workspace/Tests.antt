-- ===== src/Workspace/Tests.antt =====
-- A small workspace: one file is changed, one is deleted, one is new, and a call is refused.
use acoding_agent.Prelude.{◌≡◌, ◌≢◌, refl, true, none, some, List, [], ◌∷◌, Text, codes, split_on}
use acoding_agent.Prelude.Checked.{accepted, refused, ◌>>=◌, ◌>>◌, refuse_if, found_or, check_all}
use acoding_agent.Scheduler.Paths.{join_slash}
use acoding_agent.Domain.Plans.{Operation}
use acoding_agent.Verification.Commands.{Member}
use acoding_agent.Workspace.Files.{get}
use acoding_agent.Workspace.Tools.{
  Error, normalize_relative_path, Workspace, write_file, delete_file, DeveloperFileEdit,
  final_edits, open_workspace,
}
use acoding_agent.Workspace.Edits.{apply_edits, final_edits-apply}
use acoding_agent.Domain.Plans.{PlannedFileChange}
use acoding_agent.Scheduler.Paths.{normalize_plan_path}
use acoding_agent.Workspace.Design.{
  Operations, op_of, put_op, planned_operations, is_some, check_targets, collect_edits,
  check_collected, check_design, validate_design, check_all_planned, agent_edits,
}
use acoding_agent.Workspace.Planned.{is_at, IsPlanned, validate_design-IsPlanned}
use acoding_agent.Workspace.Delivered.{agent_edits-planned}
use acoding_agent.Prelude.{All, any, length}
use acoding_agent.Workspace.Confined.{
  Call, write_file_call, delete_file_call, call_tools, final_edits-never-denied,
}

abbrev members : List Member
members =
    record { name = codes "./a.py"; is_file = true; content = codes "1" }
    ∷ record { name = codes "src/b.py"; is_file = true; content = codes "2" }
    ∷ []

abbrev opened : Workspace
opened = record {
  original = (codes "a.py", codes "1") ∷ (codes "src/b.py", codes "2") ∷ [];
  current = (codes "a.py", codes "1") ∷ (codes "src/b.py", codes "2") ∷ [];
}

opens : open_workspace members ≡ accepted opened
unfolding open_workspace ◌>>=◌ ◌>>◌ refuse_if normalize_relative_path split_on join_slash
opens = refl

abbrev write_paths : List Text
write_paths = codes "a.py" ∷ codes "src/b.py" ∷ codes "c.py" ∷ []

abbrev calls : List Call
calls =
    write_file_call (codes "./a.py") (codes "3")
    ∷ write_file_call (codes "../d.py") []
    ∷ delete_file_call (codes "src\\b.py")
    ∷ write_file_call (codes "c.py") (codes "4")
    ∷ write_file_call (codes "e.py") []
    ∷ []

abbrev worked : Workspace
worked = record opened { current = (codes "a.py", codes "3") ∷ (codes "c.py", codes "4") ∷ [] }

works : call_tools write_paths calls opened ≡ worked
unfolding call_tools write_file delete_file ◌>>=◌ ◌>>◌ refuse_if found_or check_all
    normalize_relative_path split_on join_slash
works = refl

abbrev edits : List DeveloperFileEdit
edits =
    record { path = codes "a.py"; operation = Operation.modify; content = some (codes "3") }
    ∷ record { path = codes "c.py"; operation = Operation.create; content = some (codes "4") }
    ∷ record { path = codes "src/b.py"; operation = Operation.delete; content = none }
    ∷ []

edited : final_edits write_paths worked ≡ accepted edits
unfolding final_edits ◌>>=◌ ◌>>◌ refuse_if check_all split_on join_slash
edited = refl

final_edits-apply_example :
    get (codes "src/b.py") (apply_edits edits worked.original)
    ≡ get (codes "src/b.py") worked.current
final_edits-apply_example = final_edits-apply write_paths worked edits (codes "src/b.py") edited

final_edits-never-denied_example :
    final_edits write_paths (call_tools write_paths calls opened) ≢ refused Error.permission_error
final_edits-never-denied_example = final_edits-never-denied members write_paths calls opened opens

abbrev planned_file : Text → Operation → PlannedFileChange
planned_file path operation = record {
  work_item_id = 1;
  path = path;
  operation = operation;
  owner = [];
  responsibility = [];
  required_interfaces = [];
}

abbrev planned_files : List PlannedFileChange
planned_files =
    planned_file (codes "./a.py") Operation.modify
    ∷ planned_file (codes "src/b.py") Operation.delete
    ∷ planned_file (codes "c.py") Operation.create
    ∷ []

abbrev planned : Operations
planned =
    (codes "a.py", Operation.modify)
    ∷ (codes "src/b.py", Operation.delete)
    ∷ (codes "c.py", Operation.create)
    ∷ []

plans : planned_operations planned_files [] ≡ accepted planned
unfolding planned_operations normalize_plan_path ◌>>=◌ found_or put_op
plans = refl

validates : validate_design length edits planned_files opened.original ≡ accepted tt
unfolding validate_design planned_operations normalize_plan_path check_design collect_edits
    check_collected check_targets ◌>>=◌ ◌>>◌ refuse_if found_or put_op op_of
validates = refl

validate_design-IsPlanned_example :
    All (IsPlanned planned opened.original) edits
    × (any (λ edit. is_at (codes "c.py") (normalize_plan_path edit.path)) edits
        ≡ is_some (op_of (codes "c.py") planned))
validate_design-IsPlanned_example =
    validate_design-IsPlanned length edits planned_files opened.original planned (codes "c.py")
      plans validates

delivers : agent_edits planned worked ≡ accepted edits
unfolding agent_edits final_edits check_all_planned op_of ◌>>=◌ ◌>>◌ refuse_if found_or check_all
    split_on join_slash
delivers = refl

agent_edits-planned_example : op_of (codes "src/b.py") planned ≡ some Operation.delete
unfolding get
agent_edits-planned_example =
    agent_edits-planned planned worked edits (codes "src/b.py") delivers (λ h. cc)

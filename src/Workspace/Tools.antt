-- ===== src/Workspace/Tools.antt =====
-- `normalize_relative_path` and `require_allowed_path` of src/repopilot/tools/paths.py, and the operations
-- of `ArchiveWorkspaceBackend` in tools/archive_workspace.py. Contents are lists of bytes: in a call or an edit, too,
-- a content stands as its UTF-8 encoding.
use acoding_agent.Prelude.{
  ℕ, ◌+◌, ◌==◌, leb, ltb, Bool, false, ◌&&◌, ◌||◌, not, Option, none, some, List, [], ◌∷◌, ◌++◌,
  any, is_empty, length, map, Text, codes, text_eq, mem_text, starts_with, remove_prefix,
  to_slashes, split_on, sorted_set, mem, if◌then◌else◌,
}
use acoding_agent.Prelude.Checked.{Checked, accepted, ◌>>=◌, ◌>>◌, refuse_if, found_or, check_all}
use acoding_agent.Domain.Plans.{Operation}
use acoding_agent.Scheduler.Paths.{join_slash}
use acoding_agent.Verification.Commands.{Member}
use acoding_agent.Workspace.Files.{Files, get, set, del, paths_of, same_content}

pub data Error : Type 0 where
  path_denied permission_error no_such_file : Error
  duplicate_or_too_many too_large : Error

-- `_DRIVE_RE`
abbrev pub has_drive : Text → Bool
has_drive (c ∷ d ∷ rest) = ((leb b'A' c && leb c b'Z') || (leb b'a' c && leb c b'z')) && d == b':'
has_drive _ = false

-- The parts of a `PurePosixPath`: those that are not a dot.
unfoldable pub without_dots : List Text → List Text
without_dots [] = []
without_dots (part ∷ parts) =
    let rest = without_dots parts in if text_eq part (codes ".") then rest else part ∷ rest

-- `normalize_relative_path`
unfoldable pub normalize_relative_path : Text → Checked Error Text
unfolding without_dots
normalize_relative_path value = do
  refuse_if (is_empty value || mem 0 value) Error.path_denied
  refuse_if
      (starts_with (codes "/") value || starts_with (0x5c ∷ 0x5c ∷ []) value || has_drive value)
      Error.path_denied
  let parts = split_on b'/' (to_slashes value)
  refuse_if (any (λ part. is_empty part || text_eq part (codes "..")) parts) Error.path_denied
  let normalized = join_slash (without_dots parts)
  refuse_if (is_empty normalized) Error.path_denied
  accepted normalized

-- `require_allowed_path`
unfoldable pub require_allowed_path : Text → List Text → Checked Error Text
unfolding normalize_relative_path
require_allowed_path value allowed = do
  normalized ← normalize_relative_path value
  normalized_allowed ← check_all normalize_relative_path allowed
  refuse_if (not (mem_text normalized normalized_allowed)) Error.path_denied
  accepted normalized

pub record Workspace : Type 0 where
  pub original : Files
  pub current : Files

-- `write_file`
unfoldable pub write_file : List Text → (path content : Text) → Workspace → Checked Error Workspace
unfolding require_allowed_path set
write_file write_paths path content w = do
  normalized ← require_allowed_path path write_paths
  accepted (record w { current = set normalized content w.current })

-- `delete_file`
unfoldable pub delete_file : List Text → (path : Text) → Workspace → Checked Error Workspace
unfolding require_allowed_path get del
delete_file write_paths path w = do
  normalized ← require_allowed_path path write_paths
  content ← found_or Error.no_such_file (get normalized w.current)
  accepted (record w { current = del normalized w.current })

pub record DeveloperFileEdit : Type 0 where
  pub path : Text
  pub operation : Operation
  pub content : Option Text

-- The paths among some whose contents differ.
unfoldable pub changed_among : Workspace → List Text → List Text
unfolding get
changed_among w [] = []
changed_among w (p ∷ ps) =
    let rest = changed_among w ps in
    if same_content (get p w.original) (get p w.current) then rest else p ∷ rest

-- The changed paths, sorted.
abbrev pub changed : Workspace → List Text
changed w = changed_among w (sorted_set (paths_of w.original ++ paths_of w.current))

-- The edit of a path, by its current content.
abbrev pub edit_to : Workspace → Text → Option Text → DeveloperFileEdit
edit_to w path none = record { path = path; operation = Operation.delete; content = none }
edit_to w path (some content) = record {
  path = path;
  operation = elim (get path w.original) [ none ↦ Operation.create | some old ↦ Operation.modify ];
  content = some content;
}

abbrev pub edit_of : Workspace → Text → DeveloperFileEdit
edit_of w path = edit_to w path (get path w.current)

-- The changed paths that are not allowed.
unfoldable pub denied_of : List Text → List Text → List Text
denied_of allowed [] = []
denied_of allowed (p ∷ ps) =
    let rest = denied_of allowed ps in if mem_text p allowed then rest else p ∷ rest

-- `final_edits`
unfoldable pub final_edits : List Text → Workspace → Checked Error (List DeveloperFileEdit)
unfolding normalize_relative_path changed_among denied_of get sorted_set
final_edits allowed_write_paths w = do
  allowed ← check_all normalize_relative_path allowed_write_paths
  refuse_if (not (is_empty (denied_of allowed (changed w)))) Error.permission_error
  accepted (map (edit_of w) (changed w))

-- What the loop over the members of the archive keeps.
pub record Loading : Type 0 where
  pub files : Files
  pub size : ℕ

-- One round of the loop.
unfoldable pub load_member : Member → Loading → Checked Error Loading
unfolding normalize_relative_path
load_member m l = if not m.is_file then accepted l else do
  path ← normalize_relative_path (remove_prefix (codes "./") m.name)
  if starts_with (codes ".repopilot/") path || starts_with (codes ".git/") path
      then accepted l
      else do
        refuse_if (mem_text path (paths_of l.files) || leb 20000 (length l.files))
            Error.duplicate_or_too_many
        refuse_if (ltb 134217728 (l.size + length m.content)) Error.too_large
        accepted (record {
          files = l.files ++ ((path, m.content) ∷ []);
          size = l.size + length m.content;
        })

-- `_load_regular_files`, from no files and the size 0.
unfoldable pub load_regular_files : List Member → Loading → Checked Error Files
unfolding load_member
load_regular_files [] l = accepted l.files
load_regular_files (m ∷ ms) l = load_member m l >>= load_regular_files ms

-- `__init__`
unfoldable pub open_workspace : List Member → Checked Error Workspace
unfolding load_regular_files
open_workspace members = do
  files ← load_regular_files members (record { files = []; size = 0 })
  accepted (record { original = files; current = files })

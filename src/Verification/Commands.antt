-- ===== src/Verification/Commands.antt =====
-- The discovery of the test command in src/repopilot/services/verification_service.py. The members of
-- the archive and the parsed `pyproject.toml` are what `tarfile` and `tomllib` return.
use acoding_agent.Prelude.{
  ℕ, Bool, true, false, ◌||◌, not, ltb, Option, none, some, List, [], ◌∷◌, any, is_empty, length,
  take, Text, codes, text_eq, mem_text, starts_with, remove_prefix, to_slashes, sorted_texts,
  if◌then◌else◌,
}
use acoding_agent.Prelude.Checked.{Checked, accepted, refused, ◌>>=◌, ◌>>◌, refuse_if, found_or}

-- A parsed TOML value; `other` is any that is neither a text, an array nor a table.
mutual
  pub data Toml : Type 0 where
    text : Text → Toml
    array : Items → Toml
    table : Entries → Toml
    other : Toml

  pub data Items : Type 0 where
    last : Items
    item : Toml → Items → Items

  pub data Entries : Type 0 where
    end : Entries
    entry : (key : Text) → Toml → Entries → Entries

pub data Error : Type 0 where
  command_not_found invalid_archive pyproject_too_large invalid_pyproject : Error
  invalid_test_command : Error
  executable_not_allowed : (executable : Text) → Error

pub record Member : Type 0 where
  pub name : Text
  pub is_file : Bool
  pub content : Text

pub record SourceInventory : Type 0 where
  pub paths : List Text
  pub pyproject_content : Option Text

-- The loop over the members of the archive.
unfoldable pub inventory_of : List Member → SourceInventory → SourceInventory
inventory_of [] s = s
inventory_of (m ∷ ms) s =
    let path = remove_prefix (codes "./") (to_slashes m.name) in
    inventory_of ms (
      if not m.is_file || is_empty path then s else record {
        paths = path ∷ s.paths;
        pyproject_content =
            if text_eq path (codes "pyproject.toml")
            then some (take 1048577 m.content)
            else s.pyproject_content;
      })

abbrev pub too_large : Option Text → Bool
too_large none = false
too_large (some content) = ltb 1048576 (length content)

-- `inspect_source_archive`: `none` is an archive that `tarfile` does not read.
unfoldable pub inspect_source_archive : Option (List Member) → Checked Error SourceInventory
unfolding inventory_of
inspect_source_archive members = do
  found ← found_or Error.invalid_archive members
  let s = inventory_of found (record { paths = []; pyproject_content = none })
  refuse_if (too_large s.pyproject_content) Error.pyproject_too_large
  accepted (record s { paths = sorted_texts s.paths })

unfoldable pub lookup : Text → Entries → Option Toml
lookup key Entries.end = none
lookup key (Entries.entry k value rest) = if text_eq key k then some value else lookup key rest

-- `_child_table`
abbrev pub child_table : Option Toml → Entries
child_table (some (Toml.table entries)) = entries
child_table _ = Entries.end

-- The parts of an array, if all are texts.
unfoldable pub texts_of : Items → Option (List Text)
texts_of Items.last = some []
texts_of (Items.item (Toml.text t) rest) = elim (texts_of rest) [
  | none ↦ none
  | some ts ↦ some (t ∷ ts)
]
texts_of (Items.item _ rest) = none

pub data Executable : Type 0 where
  python pytest ruff mypy : Executable

pub record RunCommandRequest : Type 0 where
  pub executable : Executable
  pub args : List Text
  pub cwd : Text
  pub timeout_seconds : ℕ

abbrev pub executable_of : Text → Option Executable
executable_of t =
    if text_eq t (codes "python")
    then some Executable.python
    else if text_eq t (codes "pytest")
    then some Executable.pytest
    else if text_eq t (codes "ruff")
    then some Executable.ruff
    else if text_eq t (codes "mypy")
    then some Executable.mypy
    else none

abbrev pub explicit_parts : Toml → Option (List Text)
explicit_parts (Toml.array items) = texts_of items
explicit_parts _ = none

-- `_parse_explicit_command`
unfoldable pub parse_explicit_command : Toml → ℕ → Checked Error RunCommandRequest
unfolding texts_of
parse_explicit_command value timeout_seconds = do
  parts ← found_or Error.invalid_test_command (explicit_parts value)
  elim parts [
    | [] ↦ refused Error.invalid_test_command
    | name ∷ args ↦ do
      executable ← found_or (Error.executable_not_allowed name) (executable_of name)
      accepted (record {
        executable = executable;
        args = args;
        cwd = codes "/workspace";
        timeout_seconds = timeout_seconds;
      })
  ]

abbrev pub pytest_command : ℕ → RunCommandRequest
pytest_command timeout_seconds = record {
  executable = Executable.python;
  args = codes "-m" ∷ codes "pytest" ∷ codes "-q" ∷ [];
  cwd = codes "/workspace";
  timeout_seconds = timeout_seconds;
}

-- `_parse_pyproject`, where `loads` is `tomllib.loads` behind `decode`, and `none` a failure.
abbrev pub parse_pyproject : (Text → Option Entries) → Option Text → Checked Error Entries
parse_pyproject loads none = accepted Entries.end
parse_pyproject loads (some content) = found_or Error.invalid_pyproject (loads content)

abbrev pub is_some : {A : Type 0} → Option A → Bool
is_some none = false
is_some (some a) = true

-- `discover_test_command`
unfoldable pub discover_test_command :
    (Text → Option Entries) → List Text → SourceInventory → ℕ → Checked Error RunCommandRequest
unfolding lookup parse_explicit_command
discover_test_command loads test_config_paths inventory timeout_seconds = do
  pyproject ← parse_pyproject loads inventory.pyproject_content
  let tool = child_table (lookup (codes "tool") pyproject)
  let repopilot = child_table (lookup (codes "repopilot") tool)
  elim (lookup (codes "test_command") repopilot) [
    | some explicit ↦ parse_explicit_command explicit timeout_seconds
    | none ↦
        let pytest_configured =
          mem_text (codes "pytest.ini") test_config_paths
          || mem_text (codes "tox.ini") test_config_paths
          || is_some (lookup (codes "pytest") tool) in
        let has_tests =
          any (λ path. text_eq path (codes "tests") || starts_with (codes "tests/") path)
            inventory.paths in
        if pytest_configured || has_tests
        then accepted (pytest_command timeout_seconds)
        else refused Error.command_not_found
  ]

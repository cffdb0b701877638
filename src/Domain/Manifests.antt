-- ===== src/Domain/Manifests.antt =====
-- `dependency_manifest_paths` of src/repopilot/domain/policies.py. Paths are lists of code points, and
-- `lower` is that of ASCII.
use acoding_agent.Prelude.{
  Bool, ◌&&◌, ◌||◌, List, [], ◌∷◌, if◌then◌else◌, Text, codes, mem_text, starts_with, ends_with,
  remove_prefix, to_slashes, to_lower, split_on, last_part, sorted_set,
}

abbrev pub normalized : Text → Text
normalized path = remove_prefix (codes "./") (to_slashes path)

abbrev pub is_manifest_name : Text → Bool
is_manifest_name name =
    mem_text name
      (codes "pyproject.toml" ∷ codes "uv.lock" ∷ codes "setup.py" ∷ codes "setup.cfg" ∷ [])
    || (starts_with (codes "requirements") name
        && (ends_with (codes ".txt") name || ends_with (codes ".in") name))

unfoldable pub is_manifest : Text → Bool
unfolding split_on
is_manifest path = is_manifest_name (to_lower (last_part [] (split_on b'/' (normalized path))))

unfoldable pub manifests : List Text → List Text
manifests [] = []
manifests (p ∷ ps) = if is_manifest p then normalized p ∷ manifests ps else manifests ps

unfoldable pub dependency_manifest_paths : List Text → List Text
unfolding is_manifest manifests sorted_set
dependency_manifest_paths paths = sorted_set (manifests paths)

-- ===== src/Artifacts/Refs.antt =====
-- The contracts of src/repopilot/domain/artifacts.py, with the rows of the table `artifacts` in
-- infrastructure/db/models.py. An identifier is a number, a digest a text.
use acoding_agent.Prelude.{
  ℕ, zero, suc, ◌==◌, leb, String, Bool, true, false, ◌&&◌, ◌||◌, Option, none, some, List, [], ◌∷◌,
  ◌++◌, Text, codes, length,
}
use acoding_agent.Domain.Enums.{AgentRole, ArtifactKind, same_kind}

pub record ArtifactRef : Type 0 where
  pub artifact_id : ℕ
  pub run_id : ℕ
  pub tenant_id : ℕ
  pub kind : ArtifactKind
  pub schema_version : String
  pub object_key : Text
  pub sha256 : Text
  pub size_bytes : ℕ
  pub base_revision : Option Text
  pub input_artifact_ids : List ℕ
  pub created_at : ℕ

-- A row. Its expiry is never set.
pub record Artifact : Type 0 where
  pub artifact_id : ℕ
  pub tenant_id : ℕ
  pub run_id : ℕ
  pub kind : ArtifactKind
  pub schema_version : String
  pub object_key : Text
  pub sha256 : Text
  pub size_bytes : ℕ
  pub base_revision : Option Text
  pub created_at : ℕ

pub record ArtifactMetadata : Type 0 where
  pub tenant_id : ℕ
  pub run_id : ℕ
  pub base_revision : Option Text
  pub schema_version : String
  pub input_artifact_ids : List ℕ

pub record ArtifactCaller : Type 0 where
  pub tenant_id : ℕ
  pub run_id : ℕ
  pub role : Option AgentRole
  pub service : String

pub record CleanupResult : Type 0 where
  pub deleted_objects : ℕ
  pub failed_object_keys : List Text

abbrev pub is_hex : ℕ → Bool
is_hex c = (leb b'0' c && leb c b'9') || (leb b'a' c && leb c b'f')

-- `^[0-9a-f]{n}$` with `re.match`: the dollar sign also stands before a line feed at the end.
unfoldable pub matches_hex : ℕ → Text → Bool
matches_hex zero [] = true
matches_hex zero (c ∷ rest) = c == 10 && length rest == 0
matches_hex (suc n) [] = false
matches_hex (suc n) (c ∷ rest) = is_hex c && matches_hex n rest

-- Only the request may be without a commit.
abbrev pub has_base_revision : ArtifactKind → Option Text → Bool
has_base_revision kind none = same_kind kind ArtifactKind.create_run_request
has_base_revision kind (some revision) =
    same_kind kind ArtifactKind.create_run_request || matches_hex 40 revision

-- The validators of `ArtifactRef`. A size is never negative.
abbrev pub is_valid_ref : ArtifactRef → Bool
is_valid_ref ref = matches_hex 64 ref.sha256 && has_base_revision ref.kind ref.base_revision

abbrev pub kind_value : ArtifactKind → Text
kind_value ArtifactKind.create_run_request = codes "create_run_request"
kind_value ArtifactKind.task_spec = codes "task_spec"
kind_value ArtifactKind.repository_snapshot = codes "repository_snapshot"
kind_value ArtifactKind.symbol_index = codes "symbol_index"
kind_value ArtifactKind.change_plan = codes "change_plan"
kind_value ArtifactKind.investigation = codes "investigation"
kind_value ArtifactKind.blackboard = codes "blackboard"
kind_value ArtifactKind.source_archive = codes "source_archive"
kind_value ArtifactKind.developer_context = codes "developer_context"
kind_value ArtifactKind.patch = codes "patch"
kind_value ArtifactKind.integrated_patch = codes "integrated_patch"
kind_value ArtifactKind.exported_interface = codes "exported_interface"
kind_value ArtifactKind.test_plan = codes "test_plan"
kind_value ArtifactKind.test_bundle = codes "test_bundle"
kind_value ArtifactKind.baseline_report = codes "baseline_report"
kind_value ArtifactKind.sealed_test_baseline_report = codes "sealed_test_baseline_report"
kind_value ArtifactKind.verification_report = codes "verification_report"
kind_value ArtifactKind.review_decision = codes "review_decision"
kind_value ArtifactKind.final_report = codes "final_report"
kind_value ArtifactKind.cleanup_report = codes "cleanup_report"
kind_value ArtifactKind.trajectory = codes "trajectory"
kind_value ArtifactKind.model_response = codes "model_response"
kind_value ArtifactKind.log = codes "log"

-- `str` of an identifier is a parameter.
module _ (uuid_text : ℕ → Text) where
  -- `build_object_key`
  unfoldable pub build_object_key : (tenant_id run_id : ℕ) → ArtifactKind → (sha256 : Text) → Text
  build_object_key tenant_id run_id kind sha256 =
      (uuid_text tenant_id
        ++ codes "/"
        ++ uuid_text run_id
        ++ codes "/"
        ++ kind_value kind
        ++ codes "/")
      ++ sha256

-- `_row_to_ref`
abbrev pub row_to_ref : Artifact → List ℕ → ArtifactRef
row_to_ref row input_artifact_ids = record {
  artifact_id = row.artifact_id;
  run_id = row.run_id;
  tenant_id = row.tenant_id;
  kind = row.kind;
  schema_version = row.schema_version;
  object_key = row.object_key;
  sha256 = row.sha256;
  size_bytes = row.size_bytes;
  base_revision = row.base_revision;
  input_artifact_ids = input_artifact_ids;
  created_at = row.created_at;
}

-- ===== src/Artifacts/Store.antt =====
-- `MinioArtifactStore` of src/repopilot/infrastructure/artifacts/minio.py, with the queries of
-- `ArtifactRepository` in infrastructure/db/repositories.py.
use acoding_agent.Prelude.{
  ℕ, ◌+◌, ◌==◌, Bool, true, false, ◌&&◌, ◌||◌, not, Option, none, some, List, [], ◌∷◌, ◌++◌, any,
  Text, text_eq, length, if◌then◌else◌,
}
use acoding_agent.Prelude.Checked.{Checked, accepted, refused, ◌>>=◌, ◌>>◌, refuse_if, found_or}
use acoding_agent.Domain.Enums.{ArtifactKind, same_kind}
use acoding_agent.Artifacts.Refs.{
  ArtifactRef, Artifact, ArtifactMetadata, ArtifactCaller, CleanupResult, is_valid_ref,
  build_object_key, row_to_ref,
}
use acoding_agent.Artifacts.Access.{check_read_access}
use acoding_agent.Artifacts.Objects.{ObjectStore}

pub data Error : Type 0 where
  value_error storage_error integrity_error : Error
  access_denied file_not_found artifact_integrity_error : Error

pub record State (O : Type 0) : Type 0 where
  pub artifacts : List Artifact
  pub objects : O

-- The columns that `find_by_content_identity` compares.
abbrev pub has_identity : (tenant_id run_id : ℕ) → ArtifactKind → (sha256 : Text) → Artifact → Bool
has_identity tenant_id run_id kind sha256 row =
    row.tenant_id == tenant_id
    && row.run_id == run_id
    && same_kind row.kind kind
    && text_eq row.sha256 sha256

unfoldable pub find_by_content_identity :
    (tenant_id run_id : ℕ) → ArtifactKind → (sha256 : Text) → List Artifact → Option Artifact
find_by_content_identity tenant_id run_id kind sha256 [] = none
find_by_content_identity tenant_id run_id kind sha256 (row ∷ rows) =
    if has_identity tenant_id run_id kind sha256 row
    then some row
    else find_by_content_identity tenant_id run_id kind sha256 rows

-- The keys that the table keeps unique: a new row that has one of an old row is not inserted.
abbrev pub collides : Artifact → Artifact → Bool
collides new row =
    row.artifact_id == new.artifact_id
    || text_eq row.object_key new.object_key
    || has_identity new.tenant_id new.run_id new.kind new.sha256 row

unfoldable pub insert : Artifact → List Artifact → Checked Error (List Artifact)
insert new rows = do refuse_if (any (collides new) rows) integrity_error; accepted (new ∷ rows)

unfoldable pub list_by_run : (tenant_id run_id : ℕ) → List Artifact → List Artifact
list_by_run tenant_id run_id [] = []
list_by_run tenant_id run_id (row ∷ rows) =
    let rest = list_by_run tenant_id run_id rows in
    if row.tenant_id == tenant_id && row.run_id == run_id then row ∷ rest else rest

-- A reference is validated when it is built.
unfoldable pub checked_ref : ArtifactRef → Checked Error ArtifactRef
checked_ref ref = do refuse_if (not (is_valid_ref ref)) value_error; accepted ref

-- The digest of `hashlib`, `str` of an identifier and the storage are parameters. Each operation gets
-- the identifier and the time that the source draws.
module _ (sha256 : Text → Text) (uuid_text : ℕ → Text) {O : Type 0} (storage : ObjectStore O) where
  -- The row of a new artifact.
  abbrev pub new_row :
      (artifact_id created_at : ℕ) → ArtifactKind → (content : Text) → ArtifactMetadata → Artifact
  new_row artifact_id created_at kind content metadata = record {
    artifact_id = artifact_id;
    tenant_id = metadata.tenant_id;
    run_id = metadata.run_id;
    kind = kind;
    schema_version = metadata.schema_version;
    object_key =
        build_object_key uuid_text metadata.tenant_id metadata.run_id kind (sha256 content);
    sha256 = sha256 content;
    size_bytes = length content;
    base_revision = metadata.base_revision;
    created_at = created_at;
  }

  -- The end of `put_bytes`, behind the insertion of the row.
  unfoldable pub finish :
      Artifact
      → List ℕ
      → (rows : List Artifact) → O
      → Checked Error (List Artifact)
      → State O × Checked Error ArtifactRef
  finish new inputs rows objects (refused reason) =
      (record { artifacts = rows; objects = objects }, refused reason)
  finish new inputs rows objects (accepted rows') =
      (record { artifacts = rows'; objects = objects }, accepted (row_to_ref new inputs))

  -- Its part behind the write of the object.
  unfoldable pub record_row :
      Artifact → List ℕ → (rows : List Artifact) → O × Bool → State O × Checked Error ArtifactRef
  unfolding finish insert
  record_row new inputs rows (objects, false) =
      (record { artifacts = rows; objects = objects }, refused storage_error)
  record_row new inputs rows (objects, true) = finish new inputs rows objects (insert new rows)

  -- `put_bytes` for the reference that it has built.
  unfoldable pub put_row :
      Artifact → (content : Text) → List ℕ → State O → State O × Checked Error ArtifactRef
  unfolding record_row find_by_content_identity checked_ref
  put_row new content inputs s =
      if not (is_valid_ref (row_to_ref new inputs))
      then (s, refused value_error)
      else elim (find_by_content_identity new.tenant_id new.run_id new.kind new.sha256
          s.artifacts) [
            | some row ↦ (s, checked_ref (row_to_ref row inputs))
            | none ↦
                record_row new inputs s.artifacts
                  (storage.put_object new.object_key content s.objects)
          ]

  -- `put_bytes`
  unfoldable pub put_bytes :
      (artifact_id created_at : ℕ)
      → ArtifactKind
      → (content : Text) → ArtifactMetadata
      → State O
      → State O × Checked Error ArtifactRef
  unfolding put_row
  put_bytes artifact_id created_at kind content metadata s =
      put_row (new_row artifact_id created_at kind content metadata) content
        metadata.input_artifact_ids s

  -- `get_bytes`
  unfoldable pub get_bytes : ArtifactRef → ArtifactCaller → State O → Checked Error Text
  get_bytes ref caller s = do
    refuse_if (not (check_read_access ref.kind caller)) access_denied
    content ← found_or file_not_found (storage.get_object ref.object_key s.objects)
    refuse_if (not (text_eq (sha256 content) ref.sha256)) artifact_integrity_error
    accepted content

  -- The loop of `delete_run`.
  unfoldable pub remove_all : List Artifact → O → CleanupResult → O × CleanupResult
  remove_all [] o done = (o, done)
  remove_all (row ∷ rows) o done =
      let (o', removed) = storage.remove_object row.object_key o in
      remove_all rows o' (
        if removed
        then record done { deleted_objects = done.deleted_objects + 1 }
        else record done { failed_object_keys = done.failed_object_keys ++ (row.object_key ∷ []) })

  -- `delete_run`: the rows stay.
  unfoldable pub delete_run : (tenant_id run_id : ℕ) → State O → State O × CleanupResult
  unfolding list_by_run remove_all
  delete_run tenant_id run_id s =
      let (objects, result) =
        remove_all (list_by_run tenant_id run_id s.artifacts) s.objects
          (record { deleted_objects = 0; failed_object_keys = [] }) in
      (record s { objects = objects }, result)

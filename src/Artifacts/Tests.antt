-- ===== src/Artifacts/Tests.antt =====
-- The artifact store over a dictionary, with a digest that tells one content from the others.
use acoding_agent.Prelude.{◌≡◌, refl, none, some, [], ◌∷◌, codes}
use acoding_agent.Prelude.Checked.{Checked, accepted, refused, ◌>>=◌, ◌>>◌, refuse_if, found_or}
use acoding_agent.Domain.Enums.{AgentRole, ArtifactKind, ArtifactKind-discrete, same_kind}
use acoding_agent.Workspace.Files.{Files, get, set, del}
use acoding_agent.Artifacts.Refs.{
  ArtifactRef, ArtifactMetadata, ArtifactCaller, matches_hex, build_object_key,
}
use acoding_agent.Artifacts.Store
use acoding_agent.Artifacts.Store.{
  State, find_by_content_identity, insert, checked_ref, finish, record_row, put_row, put_bytes,
  get_bytes, list_by_run, remove_all, delete_run, access_denied, file_not_found,
}
use acoding_agent.Artifacts.Promises.{Write, put, put_all, put_bytes-get_bytes}
use acoding_agent.Artifacts.Samples.{
  repeat, hello, sample_digest, sample_uuid_text, sample_digest-length, only_hello, dictionary,
}

abbrev sample_metadata : ArtifactMetadata
sample_metadata = record {
  tenant_id = 1;
  run_id = 7;
  base_revision = some (repeat 40 b'0');
  schema_version = "1";
  input_artifact_ids = 3 ∷ [];
}

-- Sources of the run 7.
abbrev sources : Write
sources = record {
  artifact_id = 11;
  created_at = 100;
  kind = ArtifactKind.source_archive;
  content = hello;
  metadata = sample_metadata;
}

abbrev other_run : Write
other_run = record sources {
  artifact_id = 12;
  content = codes "bye";
  metadata = record sample_metadata { run_id = 8 };
}

abbrev api : ArtifactCaller
api = record { tenant_id = 1; run_id = 7; role = none; service = "api" }

abbrev agent : AgentRole → ArtifactCaller
agent role = record api { role = some role }

abbrev nothing_stored : State Files
nothing_stored = record { artifacts = []; objects = [] }

abbrev put_sample : Write → State Files → State Files × Checked Store.Error ArtifactRef
put_sample = put sample_digest sample_uuid_text dictionary

after_sources : State Files
unfolding put_bytes put_row find_by_content_identity checked_ref record_row finish insert
after_sources = (put_sample sources nothing_stored).0

sources_ref : ArtifactRef
sources_ref = record {
  artifact_id = 11;
  run_id = 7;
  tenant_id = 1;
  kind = ArtifactKind.source_archive;
  schema_version = "1";
  object_key =
      build_object_key sample_uuid_text 1 7 ArtifactKind.source_archive (sample_digest hello);
  sha256 = sample_digest hello;
  size_bytes = 5;
  base_revision = some (repeat 40 b'0');
  input_artifact_ids = 3 ∷ [];
  created_at = 100;
}

put_sources : put_sample sources nothing_stored ≡ (after_sources, accepted sources_ref)
unfolding after_sources sources_ref put_bytes put_row find_by_content_identity checked_ref
    record_row finish insert set ◌>>◌ refuse_if matches_hex same_kind ArtifactKind-discrete
put_sources = refl

-- The developer reads the sources back, behind a write for another run.
put_bytes-get_bytes_example :
    get_bytes sample_digest sample_uuid_text dictionary sources_ref
      (agent AgentRole.developer)
      (put_all sample_digest sample_uuid_text dictionary (other_run ∷ []) after_sources)
    ≡ accepted hello
put_bytes-get_bytes_example =
    put_bytes-get_bytes sample_digest sample_uuid_text dictionary sample_digest-length sources
      (other_run ∷ []) (agent AgentRole.developer) nothing_stored after_sources sources_ref tt
      put_sources refl only_hello

-- A reviewer may not read sources.
denied :
    get_bytes sample_digest sample_uuid_text dictionary sources_ref
      (agent AgentRole.reviewer)
      after_sources
    ≡ refused access_denied
unfolding get_bytes sources_ref after_sources ◌>>=◌ ◌>>◌ refuse_if found_or put_bytes put_row
    find_by_content_identity checked_ref record_row finish insert
denied = refl

-- Behind the removal of the run's objects its rows are there, and a read fails.
deleted :
    get_bytes sample_digest sample_uuid_text dictionary sources_ref api
      ((delete_run sample_digest sample_uuid_text dictionary 1 7 after_sources).0)
    ≡ refused file_not_found
unfolding get_bytes delete_run list_by_run remove_all sources_ref after_sources ◌>>=◌ ◌>>◌ refuse_if
    found_or get set del put_bytes put_row find_by_content_identity checked_ref record_row finish
    insert matches_hex same_kind ArtifactKind-discrete build_object_key
deleted = refl

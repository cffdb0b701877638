-- ===== src/Artifacts.antt =====
-- The artifact store: src/repopilot/services/artifact_store.py, domain/artifacts.py,
-- infrastructure/artifacts/minio.py and infrastructure/db/repositories.py.
pub mod Refs
pub mod Access
pub mod Objects
pub mod Store
pub mod Keys
pub mod Intact
pub mod Promises
pub mod Samples
mod Tests

-- ===== src/Projection.antt =====
-- `PostgresRunProjectionStore` of src/repopilot/infrastructure/db/run_projection.py: the row of each
-- run and the audit events. The hash that names an audit event is a parameter.
pub mod Store
pub mod Reads
mod Tests

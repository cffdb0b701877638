-- ===== src/RunControl.antt =====
-- The control plane of the runs behind the API: src/repopilot/infrastructure/run_control.py, with
-- services/run_control.py and infrastructure/temporal/client.py.
pub mod Records
pub mod Keys
pub mod Control
pub mod Reads
pub mod Rows
pub mod Created
pub mod Kept
pub mod Keyed
pub mod Replay
pub mod Hidden
pub mod Backed
pub mod Started
pub mod Retry
mod Tests

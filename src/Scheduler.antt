-- ===== src/Scheduler.antt =====
-- src/repopilot/services/scheduler.py: the checks of a change plan, its work items and their waves.
pub mod Paths
pub mod Dag
pub mod Progress
pub mod Acyclic
pub mod Distinct
pub mod Drain
pub mod Waves
pub mod Plan
pub mod Items
pub mod Order
pub mod Schedule
pub mod Validation
pub mod Refusals
pub mod Promises
pub mod PathParts
pub mod PathNormal
mod Tests

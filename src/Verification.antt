-- ===== src/Verification.antt =====
-- src/repopilot/services/verification_service.py and domain/verification.py: baselines, sealed tests and
-- candidates.
pub mod Reports
pub mod Reviews
pub mod Commands
pub mod Summaries
pub mod Candidate
pub mod Sealed
pub mod Verdicts
pub mod Promises
pub mod Contracts
mod Tests

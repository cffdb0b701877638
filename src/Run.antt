-- ===== src/Run.antt =====
-- src/repopilot/workflows: the table of transitions, the approvals and the workflow.
pub mod Transitions
pub mod Milestones
pub mod Approvals
pub mod World
pub mod Monad
pub mod Workflow
pub mod Attempt
pub mod Stages
pub mod Main
pub mod Requests
pub mod Taken
pub mod Logic
pub mod Points
pub mod Endings
pub mod Candidate
pub mod Review
pub mod Safety
pub mod Rounds
pub mod Loop
pub mod Course
pub mod Delivery
pub mod Outcome
pub mod Promises
mod Tests

-- ===== src/Budget.antt =====
-- src/repopilot/services/model_gateway.py and src/repopilot/infrastructure/db/model_budget.py: the
-- budget of model calls. `Store` models the two tables and the transactions on them, `Ledger` says
-- when the tables agree, `Keeps` is about each transaction, `History` about sequences of them.
pub mod Store
pub mod Ledger
pub mod Keeps
pub mod Grants
pub mod History
pub mod Closing
pub mod Gateway
pub mod Calls
pub mod Replay
pub mod Steps
mod Tests

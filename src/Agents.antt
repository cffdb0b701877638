-- ===== src/Agents.antt =====
-- src/repopilot/agents/loop.py and tools/registry.py: the loop of an agent and its tools.
pub mod Registry
pub mod Records
pub mod Loop
pub mod Course
pub mod Promises
mod Tests

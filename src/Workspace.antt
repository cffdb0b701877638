-- ===== src/Workspace.antt =====
-- src/repopilot/tools/paths.py and tools/archive_workspace.py: the workspace that the tools of an agent edit.
pub mod Files
pub mod Tools
pub mod Edits
pub mod Confined
pub mod Design
pub mod Operations
pub mod Planned
pub mod Delivered
mod Tests

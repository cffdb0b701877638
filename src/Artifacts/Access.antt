-- ===== src/Artifacts/Access.antt =====
-- `check_read_access` of src/repopilot/services/artifact_store.py, with its table of kinds and roles.
use acoding_agent.Prelude.{Bool, true, false, Option, none, some}
use acoding_agent.Domain.Enums.{AgentRole, ArtifactKind}
use acoding_agent.Artifacts.Refs.{ArtifactCaller}

-- `_AGENT_READABLE_KINDS`; a kind without an entry is readable by no role.
abbrev pub is_agent_readable : ArtifactKind → AgentRole → Bool
is_agent_readable ArtifactKind.repository_snapshot AgentRole.planner = true
is_agent_readable ArtifactKind.repository_snapshot AgentRole.qa = true
is_agent_readable ArtifactKind.repository_snapshot AgentRole.developer = true
is_agent_readable ArtifactKind.repository_snapshot AgentRole.investigator = true
is_agent_readable ArtifactKind.source_archive AgentRole.developer = true
is_agent_readable ArtifactKind.change_plan AgentRole.planner = true
is_agent_readable ArtifactKind.change_plan AgentRole.qa = true
is_agent_readable ArtifactKind.change_plan AgentRole.developer = true
is_agent_readable ArtifactKind.change_plan AgentRole.reviewer = true
is_agent_readable ArtifactKind.test_bundle AgentRole.qa = true
is_agent_readable ArtifactKind.test_bundle AgentRole.reviewer = true
is_agent_readable ArtifactKind.patch AgentRole.qa = true
is_agent_readable ArtifactKind.patch AgentRole.developer = true
is_agent_readable ArtifactKind.patch AgentRole.reviewer = true
is_agent_readable ArtifactKind.verification_report AgentRole.qa = true
is_agent_readable ArtifactKind.verification_report AgentRole.developer = true
is_agent_readable ArtifactKind.verification_report AgentRole.reviewer = true
is_agent_readable ArtifactKind.investigation AgentRole.planner = true
is_agent_readable ArtifactKind.investigation AgentRole.developer = true
is_agent_readable ArtifactKind.investigation AgentRole.reviewer = true
is_agent_readable ArtifactKind.blackboard AgentRole.planner = true
is_agent_readable ArtifactKind.blackboard AgentRole.investigator = true
is_agent_readable ArtifactKind.blackboard AgentRole.developer = true
is_agent_readable ArtifactKind.blackboard AgentRole.reviewer = true
is_agent_readable _ _ = false

abbrev pub may_read : ArtifactKind → Option AgentRole → Bool
may_read kind none = true
may_read kind (some role) = is_agent_readable kind role

-- `check_read_access`
abbrev pub check_read_access : ArtifactKind → ArtifactCaller → Bool
check_read_access kind caller = may_read kind caller.role

-- ===== src/Domain/Plans.antt =====
-- src/repopilot/domain/plans.py: change plans and work items. Texts are lists of code points.
use acoding_agent.Prelude.{ℕ, List, Option, Text}
use acoding_agent.Domain.Enums.{RiskFlag}

pub data Operation : Type 0 where
  create modify delete : Operation

pub record PlannedFileChange : Type 0 where
  pub work_item_id : ℕ
  pub path : Text
  pub operation : Operation
  pub owner : Text
  pub responsibility : Text
  pub required_interfaces : List Text

pub record ChangePlan : Type 0 where
  pub plan_id : ℕ
  pub version : ℕ
  pub supersedes_plan_id : Option ℕ
  pub files : List PlannedFileChange
  pub dependency_edges : List (ℕ × ℕ)
  pub risk_flags : List RiskFlag
  pub scope_expansion_reason : Option Text

pub data WorkItemKind : Type 0 where
  code repair : WorkItemKind

pub record WorkItem : Type 0 where
  pub work_item_id : ℕ
  pub run_id : ℕ
  pub kind : WorkItemKind
  pub dependencies : List ℕ
  pub allowed_write_paths : List Text
  pub read_paths : List Text
  pub owner : Text
  pub attempt : ℕ

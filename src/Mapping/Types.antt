-- ===== src/Mapping/Types.antt =====
-- The data of internal/resource/projectmapping/sdk.go.
use harness_gitops_agent_ope.Common.{String, Bool}

pub record Scope : Type 0 where
  pub org_identifier : String
  pub project_identifier : String

pub record ProjectMappingRequest : Type 0 where
  pub account_identifier : String
  pub agent_identifier : String
  pub agent_scope : String
  pub agent : Scope
  pub mapping : Scope
  pub argo_project_name : String
  pub auto_create_service_env : Bool

pub record ProjectMapping : Type 0 where
  pub identifier : String
  pub agent_identifier : String
  pub account_identifier : String
  pub org_identifier : String
  pub project_identifier : String
  pub argo_project_name : String
  pub auto_create_service_env : Bool

-- ===== src/Agent/Types.antt =====
-- The data of internal/resource/agent/sdk.go. A map of tags is an association list, whose nil is [].
use harness_gitops_agent_ope.Common.{String, Bool, List}

pub record Agent : Type 0 where
  pub identifier : String
  pub name : String
  pub account_identifier : String
  pub org_identifier : String
  pub project_identifier : String
  pub scope : String
  pub type : String
  pub operator : String
  pub tags : List (String × String)

pub record CreateAgentRequest : Type 0 where
  pub agent : Agent
  pub namespace : String

pub record CreateAgentResult : Type 0 where
  pub identifier : String
  pub prefixed_identifier : String
  pub initial_token : String

pub record AgentLookupResult : Type 0 where
  pub exists : Bool
  pub agent : Agent

pub record AgentReadiness : Type 0 where
  pub exists : Bool
  pub ready : Bool
  pub message : String

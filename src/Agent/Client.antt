-- ===== src/Agent/Client.antt =====
-- The Harness SDK as internal/resource/agent/sdk.go calls it, a parameter of the model; its records have
-- the fields that the adapter reads or sets.
use harness_gitops_agent_ope.Common.{String, Bool, Option, List}
use harness_gitops_agent_ope.Harness.Replies.{Reply}
use harness_gitops_agent_ope.Harness.Session.{Session}

-- the health of one component of an agent
pub record ComponentHealth : Type 0 where
  pub status : Option String
  pub message : String

pub record V1AgentHealth : Type 0 where
  pub connection_status : Option String
  pub harness_gitops_agent : Option ComponentHealth

-- nextgen.V1Agent; `credentials` is the private key of its credentials
pub record V1Agent : Type 0 where
  pub identifier : String
  pub prefixed_identifier : String
  pub name : String
  pub account_identifier : String
  pub org_identifier : String
  pub project_identifier : String
  pub scope : Option String
  pub type : Option String
  pub operator : Option String
  pub tags : List (String × String)
  pub credentials : Option String
  pub health : Option V1AgentHealth

-- the agent that a create call sends, with the namespace of its metadata
pub record CreateBody : Type 0 where
  pub name : String
  pub identifier : String
  pub operator : String
  pub account_identifier : String
  pub org_identifier : String
  pub project_identifier : String
  pub scope : String
  pub type : String
  pub tags : List (String × String)
  pub namespace : String

-- the arguments of a get call
pub record GetArguments : Type 0 where
  pub identifier : String
  pub account_identifier : String
  pub org_identifier : Option String
  pub project_identifier : Option String
  pub scope : Option String
  pub with_credentials : Bool

-- the arguments of a delete call
pub record DeleteArguments : Type 0 where
  pub identifier : String
  pub account_identifier : String
  pub org_identifier : Option String
  pub project_identifier : Option String
  pub name : Option String
  pub type : Option String
  pub scope : Option String

pub data SdkCall : Type 0 where
  sent_create : CreateBody → SdkCall
  sent_get : GetArguments → SdkCall
  sent_delete : DeleteArguments → SdkCall
  sent_regenerate : String → SdkCall

abbrev pub Calls : Type 0
Calls = List SdkCall

-- session.Client().AgentApi, whose answers may depend on the calls made so far
pub record AgentClient : Type 0 where
  pub create : Calls → Session → CreateBody → Reply V1Agent
  pub get : Calls → Session → GetArguments → Reply V1Agent
  pub delete : Calls → Session → DeleteArguments → Reply (Unit {0})
  pub regenerate : Calls → Session → String → Reply V1Agent

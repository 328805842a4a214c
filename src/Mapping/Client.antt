-- ===== src/Mapping/Client.antt =====
-- The Harness SDK as internal/resource/projectmapping/sdk.go calls it, a parameter of the model; its
-- records have the fields that the adapter reads or sets.
use harness_gitops_agent_ope.Common.{String, Bool, Option, List}
use harness_gitops_agent_ope.Harness.Replies.{Reply}
use harness_gitops_agent_ope.Harness.Session.{Session}

-- nextgen.V1AppProjectMappingV2
pub record V1AppProjectMapping : Type 0 where
  pub identifier : String
  pub agent_identifier : String
  pub account_identifier : String
  pub org_identifier : String
  pub project_identifier : String
  pub argo_project_name : String
  pub auto_create_service_env : Bool

-- the arguments of the three calls; `agent` is the candidate in the path
pub record ListArguments : Type 0 where
  pub agent : String
  pub account_identifier : String
  pub org_identifier : Option String
  pub project_identifier : Option String
  pub argo_project_name : String

pub record CreateArguments : Type 0 where
  pub agent : String
  pub account_identifier : String
  pub org_identifier : String
  pub project_identifier : String
  pub argo_project_name : String
  pub auto_create_service_env : Bool

pub record DeleteArguments : Type 0 where
  pub agent : String
  pub mapping_id : String
  pub account_identifier : String
  pub org_identifier : Option String
  pub project_identifier : Option String

pub data SdkCall : Type 0 where
  sent_list : ListArguments → SdkCall
  sent_create : CreateArguments → SdkCall
  sent_delete : DeleteArguments → SdkCall

abbrev pub Calls : Type 0
Calls = List SdkCall

-- session.Client().ProjectMappingsApi, whose answers may depend on the calls made so far
pub record MappingClient : Type 0 where
  pub list : Calls → Session → ListArguments → Reply (List V1AppProjectMapping)
  pub create : Calls → Session → CreateArguments → Reply V1AppProjectMapping
  pub delete : Calls → Session → DeleteArguments → Reply (Unit {0})

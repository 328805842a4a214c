-- ===== src/Mapping/Scope.antt =====
-- internal/resource/projectmapping/scope.go. The controller calls it with resources that it has
-- read, so the tests for nil have no counterpart.
pub mod Laws
pub mod Table
use harness_gitops_agent_ope.Common.{String, Bool, ◌&&◌, ◌||◌, not, Result, ok, err, if◌then◌else◌}
use harness_gitops_agent_ope.Text.{◌==◌, ◌<>◌, trim_space, to_upper, quote}
use harness_gitops_agent_ope.Api.{HarnessGitopsAgent, HarnessGitopsProjectMapping}
use harness_gitops_agent_ope.Harness.Errors.{Error, plain}
use harness_gitops_agent_ope.Mapping.Types.{Scope, ProjectMappingRequest}

-- The trimmed inputs of the scope switch.
pub record ScopeInput : Type 0 where
  pub scope : String
  pub agent_org_id : String
  pub agent_project_id : String
  pub target_org_id : String
  pub target_project_id : String

abbrev scopes : ProjectMappingRequest → Scope → Scope → ProjectMappingRequest
scopes request agent mapping = record request { agent = agent; mapping = mapping }

-- case agentScopeProject
unfoldable pub resolve_project_scope :
    ScopeInput → ProjectMappingRequest → Result Error ProjectMappingRequest
resolve_project_scope i request =
    if i.agent_org_id == "" || i.agent_project_id == ""
    then err (plain "PROJECT-scoped Agent requires spec.orgId and spec.projectId")
    else if not (i.target_org_id == "") && not (i.target_org_id == i.agent_org_id)
    then err (
        plain (
          "spec.orgId "
          <> quote i.target_org_id
          <> " must be empty or match the PROJECT-scoped Agent org "
          <> quote i.agent_org_id))
    else if not (i.target_project_id == "") && not (i.target_project_id == i.agent_project_id)
    then err (
        plain (
          "spec.projectId "
          <> quote i.target_project_id
          <> " must be empty or match the PROJECT-scoped Agent project "
          <> quote i.agent_project_id))
    else let agent : Scope = record {
      org_identifier = i.agent_org_id;
      project_identifier = i.agent_project_id;
    } in
      ok (scopes request agent agent)

-- case agentScopeOrg
unfoldable pub resolve_org_scope :
    ScopeInput → ProjectMappingRequest → Result Error ProjectMappingRequest
resolve_org_scope i request =
    if i.agent_org_id == ""
    then err (plain "ORG-scoped Agent requires spec.orgId")
    else if not (i.target_org_id == "") && not (i.target_org_id == i.agent_org_id)
    then err (
        plain (
          "spec.orgId "
          <> quote i.target_org_id
          <> " must be empty or match the ORG-scoped Agent org "
          <> quote i.agent_org_id))
    else if i.target_project_id == ""
    then err (plain "spec.projectId is required for an ORG-scoped Agent")
    else ok (
        scopes request (record { org_identifier = i.agent_org_id; project_identifier = "" })
          (record { org_identifier = i.agent_org_id; project_identifier = i.target_project_id }))

-- case agentScopeAccount
unfoldable pub resolve_account_scope :
    ScopeInput → ProjectMappingRequest → Result Error ProjectMappingRequest
resolve_account_scope i request =
    if i.target_org_id == "" || i.target_project_id == ""
    then err (plain "spec.orgId and spec.projectId are required for an ACCOUNT-scoped Agent")
    else ok (
        scopes request (record { org_identifier = ""; project_identifier = "" })
          (record { org_identifier = i.target_org_id; project_identifier = i.target_project_id }))

-- the switch on the scope
unfoldable pub resolve_scope :
    String → ScopeInput → ProjectMappingRequest → Result Error ProjectMappingRequest
resolve_scope spec_scope i request =
    if i.scope == "PROJECT"
    then resolve_project_scope i request
    else if i.scope == "ORG"
    then resolve_org_scope i request
    else if i.scope == "ACCOUNT"
    then resolve_account_scope i request
    else err (
        plain
          ("unsupported Agent scope " <> quote spec_scope <> ": expected ACCOUNT, ORG, or PROJECT"))

-- the Agent identifier: the existing one, or else the registered one
unfoldable pub resolved_agent_identifier : HarnessGitopsAgent → String
resolved_agent_identifier agent =
    if trim_space agent.spec.existing_agent_identifier == ""
    then trim_space agent.status.agent_identifier
    else trim_space agent.spec.existing_agent_identifier

unfoldable pub scope_input : HarnessGitopsAgent → HarnessGitopsProjectMapping → ScopeInput
scope_input agent mapping = record {
  scope = to_upper (trim_space agent.spec.scope);
  agent_org_id = trim_space agent.spec.org_id;
  agent_project_id = trim_space agent.spec.project_id;
  target_org_id = trim_space mapping.spec.org_id;
  target_project_id = trim_space mapping.spec.project_id;
}

-- the request before its scopes are set
unfoldable pub base_request :
    HarnessGitopsAgent → HarnessGitopsProjectMapping → ProjectMappingRequest
base_request agent mapping = record {
  account_identifier = trim_space agent.spec.account_id;
  agent_identifier = resolved_agent_identifier agent;
  agent_scope = to_upper (trim_space agent.spec.scope);
  agent = record { org_identifier = ""; project_identifier = "" };
  mapping = record { org_identifier = ""; project_identifier = "" };
  argo_project_name = trim_space mapping.spec.app_project;
  auto_create_service_env = mapping.spec.auto_create_service_env;
}

unfoldable pub resolve_project_mapping_request :
    HarnessGitopsAgent → HarnessGitopsProjectMapping → Result Error ProjectMappingRequest
unfolding scope_input base_request resolved_agent_identifier
resolve_project_mapping_request agent mapping =
    if not (agent.metadata.namespace == mapping.metadata.namespace)
    then err (
        plain (
          "spec.agentRef must reference an Agent in the same namespace "
          <> quote mapping.metadata.namespace))
    else if not (trim_space mapping.spec.agent_ref_name == agent.metadata.name)
    then err (
        plain (
          "spec.agentRef.name "
          <> quote mapping.spec.agent_ref_name
          <> " does not match Agent "
          <> quote agent.metadata.name))
    else if resolved_agent_identifier agent == ""
    then err (
        plain (
          "agent " <> agent.metadata.namespace <> "/" <> agent.metadata.name
          <> " is not registered: status.agentIdentifier is empty"))
    else if trim_space agent.spec.account_id == ""
    then err (
        plain (
          "agent " <> agent.metadata.namespace <> "/" <> agent.metadata.name
          <> " has an empty spec.accountId"))
    else if trim_space mapping.spec.app_project == ""
    then err (plain "spec.appProject must not be empty")
    else resolve_scope agent.spec.scope (scope_input agent mapping) (base_request agent mapping)

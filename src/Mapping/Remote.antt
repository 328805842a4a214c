-- ===== src/Mapping/Remote.antt =====
-- The remote tuple of a status: internal/resource/projectmapping/state.go.
pub mod Laws
use harness_gitops_agent_ope.Common.{
  String, Bool, true, false, ◌&&◌, not, Option, none, some, if◌then◌else◌,
}
use harness_gitops_agent_ope.Text.{◌==◌, trim_space, to_upper}
use harness_gitops_agent_ope.Api.{
  ResourceOwnership, unowned, managed, adopted, CreationState, settled, pending, outcome_unknown,
  HarnessGitopsProjectMappingRemoteStatus, HarnessGitopsProjectMappingStatus,
}
use harness_gitops_agent_ope.Harness.Identifiers.{identifiers_equivalent}
use harness_gitops_agent_ope.Mapping.Types.{ProjectMappingRequest, ProjectMapping}

unfoldable pub is_deletion_ownership : ResourceOwnership → Bool
is_deletion_ownership managed = true
is_deletion_ownership adopted = true
is_deletion_ownership _ = false

unfoldable pub is_uncertain_creation_state : CreationState → Bool
is_uncertain_creation_state pending = true
is_uncertain_creation_state outcome_unknown = true
is_uncertain_creation_state _ = false

unfoldable pub project_mapping_matches : ProjectMapping → ProjectMappingRequest → Bool
project_mapping_matches mapping request =
    not (trim_space mapping.identifier == "")
    && identifiers_equivalent request.agent_scope mapping.agent_identifier request.agent_identifier
    && trim_space mapping.account_identifier == trim_space request.account_identifier
    && trim_space mapping.org_identifier == trim_space request.mapping.org_identifier
    && trim_space mapping.project_identifier == trim_space request.mapping.project_identifier
    && trim_space mapping.argo_project_name == trim_space request.argo_project_name
    && (if mapping.auto_create_service_env
        then request.auto_create_service_env
        else not request.auto_create_service_env)

unfoldable pub remote_status_for_request :
    ProjectMappingRequest → HarnessGitopsProjectMappingRemoteStatus
remote_status_for_request request = record {
  mapping_id = "";
  ownership = unowned;
  agent = record {
    identifier = trim_space request.agent_identifier;
    account_id = trim_space request.account_identifier;
    scope = to_upper (trim_space request.agent_scope);
    org_id = trim_space request.agent.org_identifier;
    project_id = trim_space request.agent.project_identifier;
  };
  target = record {
    org_id = trim_space request.mapping.org_identifier;
    project_id = trim_space request.mapping.project_identifier;
    app_project = trim_space request.argo_project_name;
    auto_create_service_env = request.auto_create_service_env;
  };
}

-- `remote.Agent.Identifier = id`
unfoldable pub with_agent_identifier :
    String → HarnessGitopsProjectMappingRemoteStatus → HarnessGitopsProjectMappingRemoteStatus
with_agent_identifier id remote = record remote {
  agent = record (remote.agent) { identifier = id };
}

unfoldable pub remote_status_for_observed :
    ProjectMappingRequest → ProjectMapping → HarnessGitopsProjectMappingRemoteStatus
unfolding remote_status_for_request with_agent_identifier
remote_status_for_observed request mapping =
    let remote = record (remote_status_for_request request) {
      mapping_id = trim_space mapping.identifier;
    } in
    if trim_space mapping.agent_identifier == ""
    then remote
    else with_agent_identifier (trim_space mapping.agent_identifier) remote

unfoldable pub unresolved_remote_status :
    Option HarnessGitopsProjectMappingRemoteStatus
    → ProjectMappingRequest
    → HarnessGitopsProjectMappingRemoteStatus
unfolding remote_status_for_request
unresolved_remote_status none request = remote_status_for_request request
unresolved_remote_status (some current) request = record current { ownership = unowned }

unfoldable pub is_owned_remote : Option HarnessGitopsProjectMappingRemoteStatus → Bool
unfolding is_deletion_ownership
is_owned_remote none = false
is_owned_remote (some remote) = is_deletion_ownership remote.ownership

unfoldable pub preserve_mapping_failure_state :
    ProjectMappingRequest
    → CreationState
    → HarnessGitopsProjectMappingStatus
    → HarnessGitopsProjectMappingStatus
unfolding is_owned_remote is_uncertain_creation_state
preserve_mapping_failure_state request started status =
    if is_owned_remote status.remote
    then status
    else if is_uncertain_creation_state started
    then record status {
      creation_state = outcome_unknown;
      remote = some (unresolved_remote_status status.remote request);
    }
    else record status {
      creation_state = settled;
      remote = some (remote_status_for_request request);
    }

-- ===== src/Mapping/CleanupIdentity.antt =====
-- What a deleted resource may clean up: `resolveMappingCleanupIdentity` and
-- `projectMappingCleanupRequest` of internal/resource/projectmapping/finalizer.go.
pub mod Laws
pub mod RoundTrip
use harness_gitops_agent_ope.Common.{
  String, Bool, true, false, ◌&&◌, ◌||◌, not, Option, none, some, Result, ok, err, if◌then◌else◌,
}
use harness_gitops_agent_ope.Text.{◌==◌, ◌<>◌, trim_space, to_upper, quote}
use harness_gitops_agent_ope.Api.{
  ResourceOwnership, unowned, managed, adopted, CreationState, pending, creation_state_text,
  HarnessGitopsProjectMapping, HarnessGitopsProjectMappingRemoteStatus,
}
use harness_gitops_agent_ope.Mapping.Types.{ProjectMappingRequest}
use harness_gitops_agent_ope.Mapping.Remote.{is_deletion_ownership, is_uncertain_creation_state}

-- `mappingCleanupIdentity`; an empty recovery ownership is `unowned`, an empty block reason `none`.
pub record CleanupIdentity : Type 0 where
  pub remote : Option HarnessGitopsProjectMappingRemoteStatus
  pub mapping_id : String
  pub recovery_ownership : ResourceOwnership
  pub pending_returned_id : Bool
  pub remove_finalizer : Bool
  pub ownership_block_reason : Option String

-- the zero value with a remote
abbrev pub identity_of : Option HarnessGitopsProjectMappingRemoteStatus → CleanupIdentity
identity_of remote = record {
  remote = remote;
  mapping_id = "";
  recovery_ownership = unowned;
  pending_returned_id = false;
  remove_finalizer = false;
  ownership_block_reason = none;
}

unfoldable pub is_pending : CreationState → Bool
is_pending pending = true
is_pending _ = false

-- the part for an uncertain creation state
unfoldable pub uncertain_identity :
    HarnessGitopsProjectMappingRemoteStatus → String → CreationState → CleanupIdentity
unfolding is_pending
uncertain_identity remote adopt_id state =
    let remembered_id = trim_space remote.mapping_id in
    let returned = is_pending state && not (remembered_id == "") in
    let identity = record (identity_of (some remote)) { pending_returned_id = returned } in
    if not (adopt_id == "") && not (remembered_id == "") && not (adopt_id == remembered_id)
    then record identity {
      ownership_block_reason = some (
          "Cannot adopt Harness mapping "
          <> quote adopt_id
          <> " because create candidate "
          <> quote remembered_id
          <> " was already returned");
    }
    else if not (adopt_id == "")
    then record identity { mapping_id = adopt_id; recovery_ownership = adopted }
    else if returned
    then record identity { mapping_id = remembered_id; recovery_ownership = managed }
    else record identity {
      ownership_block_reason = some (
          "Cannot safely clean up a mapping while its create state is "
          <> creation_state_text state
          <> "; set spec.adoptMappingId to an exact Harness mapping ID");
    }

unfoldable pub recorded_identity :
    HarnessGitopsProjectMappingRemoteStatus → String → CreationState → CleanupIdentity
unfolding uncertain_identity
recorded_identity remote adopt_id state =
    if is_uncertain_creation_state state
    then uncertain_identity remote adopt_id state
    else if is_deletion_ownership remote.ownership
    then record (identity_of (some remote)) { mapping_id = trim_space remote.mapping_id }
    else record (identity_of (some remote)) { remove_finalizer = true }

unfoldable pub resolve_mapping_cleanup_identity : HarnessGitopsProjectMapping → CleanupIdentity
unfolding recorded_identity
resolve_mapping_cleanup_identity mapping = elim (mapping.status.remote) [
  | none ↦
      if is_uncertain_creation_state mapping.status.creation_state
      then record (identity_of none) {
        ownership_block_reason =
            some "Cannot recover mapping ownership because the stored remote tuple is empty";
      }
      else record (identity_of none) { remove_finalizer = true }
  | some remote ↦
      recorded_identity remote (trim_space mapping.spec.adopt_mapping_id)
        mapping.status.creation_state
]

-- The switch on the scope: the complaint, if there is one.
unfoldable pub scope_complaint : String → String → String → String → String → String → Option String
scope_complaint spec_scope scope agent_org_id agent_project_id target_org_id target_project_id =
    if scope == "ACCOUNT"
    then (if not (agent_org_id == "") || not (agent_project_id == "")
        then some "ACCOUNT-scoped agent identity must not contain an organization or project"
        else none)
    else if scope == "ORG"
    then (if agent_org_id == ""
        then some "ORG-scoped agent identity has an empty organization ID"
        else if not (agent_project_id == "")
        then some "ORG-scoped agent identity must not contain a project"
        else if not (target_org_id == agent_org_id)
        then some "ORG-scoped agent and target organization IDs differ"
        else none)
    else if scope == "PROJECT"
    then (if agent_org_id == "" || agent_project_id == ""
        then some "PROJECT-scoped agent identity requires organization and project IDs"
        else if not (target_org_id == agent_org_id) || not (target_project_id == agent_project_id)
        then some "PROJECT-scoped agent and target scopes differ"
        else none)
    else some ("unsupported agent scope " <> quote spec_scope)

-- The request that the stored tuple stands for.
unfoldable pub stored_request : HarnessGitopsProjectMappingRemoteStatus → ProjectMappingRequest
stored_request remote = record {
  account_identifier = trim_space remote.agent.account_id;
  agent_identifier = trim_space remote.agent.identifier;
  agent_scope = to_upper (trim_space remote.agent.scope);
  agent = record {
    org_identifier = trim_space remote.agent.org_id;
    project_identifier = trim_space remote.agent.project_id;
  };
  mapping = record {
    org_identifier = trim_space remote.target.org_id;
    project_identifier = trim_space remote.target.project_id;
  };
  argo_project_name = trim_space remote.target.app_project;
  auto_create_service_env = remote.target.auto_create_service_env;
}

-- the switch on empty parts
unfoldable pub empty_complaint : HarnessGitopsProjectMappingRemoteStatus → Option String
empty_complaint remote =
    if trim_space remote.mapping_id == ""
    then some "mapping ID is empty"
    else if trim_space remote.agent.account_id == ""
    then some "account ID is empty"
    else if trim_space remote.agent.identifier == ""
    then some "agent ID is empty"
    else if trim_space remote.target.org_id == ""
    then some "target organization ID is empty"
    else if trim_space remote.target.project_id == ""
    then some "target project ID is empty"
    else if trim_space remote.target.app_project == ""
    then some "appProject is empty"
    else none

-- `projectMappingCleanupRequest`; its error is never wrapped, so its text is enough
unfoldable pub project_mapping_cleanup_request :
    HarnessGitopsProjectMappingRemoteStatus → Result String (ProjectMappingRequest × String)
project_mapping_cleanup_request remote = elim (empty_complaint remote) [
  | some complaint ↦ err complaint
  | none ↦
      elim (scope_complaint remote.agent.scope (to_upper (trim_space remote.agent.scope))
        (trim_space remote.agent.org_id) (trim_space remote.agent.project_id)
        (trim_space remote.target.org_id) (trim_space remote.target.project_id)) [
          | some complaint ↦ err complaint
          | none ↦ ok (stored_request remote, trim_space remote.mapping_id)
        ]
]

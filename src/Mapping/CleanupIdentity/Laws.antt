-- ===== src/Mapping/CleanupIdentity/Laws.antt =====
-- The cleanup identity and the cleanup request.
use harness_gitops_agent_ope.Common.{String, ◌≡◌, false, none, ok, arith}
use harness_gitops_agent_ope.Text.{◌==◌, trim_space, to_upper}
use harness_gitops_agent_ope.Api.{HarnessGitopsProjectMappingRemoteStatus}
use harness_gitops_agent_ope.Mapping.Types.{ProjectMappingRequest}
use harness_gitops_agent_ope.Mapping.CleanupIdentity.{
  empty_complaint, scope_complaint, project_mapping_cleanup_request, stored_request,
}

module _ (remote : HarnessGitopsProjectMappingRemoteStatus) where
  -- a cleanup request that is accepted is the stored tuple's, with the trimmed ID
  pub cleanup_request-ok :
      (request : ProjectMappingRequest) (id : String)
      → project_mapping_cleanup_request remote ≡ ok (request, id)
      → (request ≡ stored_request remote) × (id ≡ trim_space remote.mapping_id)
  unfolding project_mapping_cleanup_request
  cleanup_request-ok request id h = ground arith

  pub cleanup_request-nonempty :
      (request : ProjectMappingRequest) (id : String)
      → project_mapping_cleanup_request remote ≡ ok (request, id)
      → (id == "") ≡ false
  unfolding project_mapping_cleanup_request empty_complaint
  cleanup_request-nonempty request id h = ground arith

  pub cleanup_request-accepts :
      empty_complaint remote ≡ none
      → scope_complaint remote.agent.scope
          (to_upper (trim_space remote.agent.scope))
          (trim_space remote.agent.org_id)
          (trim_space remote.agent.project_id)
          (trim_space remote.target.org_id)
          (trim_space remote.target.project_id)
        ≡ none
      → project_mapping_cleanup_request remote
        ≡ ok (stored_request remote, trim_space remote.mapping_id)
  unfolding project_mapping_cleanup_request
  cleanup_request-accepts full scoped = ground arith

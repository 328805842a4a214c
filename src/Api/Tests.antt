-- ===== src/Api/Tests.antt =====
-- An update of the fields that may change.
use harness_gitops_agent_ope.Common.{◌≡◌, refl}
use harness_gitops_agent_ope.Api.{HarnessGitopsAgentSpec, HarnessGitopsProjectMappingSpec}
use harness_gitops_agent_ope.Api.Updates.{
  same_bool, same_optional, is_valid_agent_update, is_valid_mapping_update,
}
use harness_gitops_agent_ope.Api.Updates.Laws.{accepted_update-keeps_identity}
use harness_gitops_agent_ope.Agent.Identity.{harness_agent_for}
use harness_gitops_agent_ope.Agent.Tests.{owned, reference}
use harness_gitops_agent_ope.Mapping.Scope.{resolve_project_mapping_request}

abbrev new_agent_spec : HarnessGitopsAgentSpec
new_agent_spec = record (owned.spec) { api_key_secret_ref = "other" }

abbrev new_mapping_spec : HarnessGitopsProjectMappingSpec
new_mapping_spec = record (reference.spec) { adopt_mapping_id = "id" }

accepted_update-keeps_identity_example :
    (let agent = record owned { spec = new_agent_spec } in
      let mapping = record reference { spec = new_mapping_spec } in
      (harness_agent_for agent new_agent_spec.identifier
        ≡ harness_agent_for owned owned.spec.identifier)
      × (resolve_project_mapping_request agent mapping
          ≡ resolve_project_mapping_request owned reference))
unfolding is_valid_agent_update is_valid_mapping_update same_optional same_bool
accepted_update-keeps_identity_example =
    accepted_update-keeps_identity owned reference new_agent_spec new_mapping_spec refl refl

-- ===== src/Api/Updates.antt =====
-- The rules of api/v1alpha1 for an update of a spec, which the API server applies to the new and the
-- old spec. A field with `omitempty` is absent exactly if it is empty.
pub mod Laws
use harness_gitops_agent_ope.Common.{String, Bool, true, false, ◌&&◌, ◌||◌, not, if◌then◌else◌}
use harness_gitops_agent_ope.Text.{◌==◌}
use harness_gitops_agent_ope.Api.{HarnessGitopsAgentSpec, HarnessGitopsProjectMappingSpec}

-- CEL's equality of two Booleans
unfoldable pub same_bool : Bool → Bool → Bool
same_bool true b = b
same_bool false b = not b

-- has(self.x) == has(oldSelf.x) && (!has(self.x) || self.x == oldSelf.x)
unfoldable pub same_optional : String → String → Bool
unfolding same_bool
same_optional self old =
    same_bool (not (self == "")) (not (old == "")) && (not (not (self == "")) || self == old)

-- "Harness agent identity is immutable; replace the resource instead"
unfoldable pub is_valid_agent_update : HarnessGitopsAgentSpec → HarnessGitopsAgentSpec → Bool
unfolding same_optional
is_valid_agent_update self old =
    self.name == old.name
    && self.operator == old.operator
    && self.identifier == old.identifier
    && self.account_id == old.account_id
    && self.type == old.type
    && self.scope == old.scope
    && same_optional self.org_id old.org_id
    && same_optional self.project_id old.project_id
    && same_optional self.existing_agent_identifier old.existing_agent_identifier

-- "Harness project mapping identity is immutable; replace the resource instead"
unfoldable pub is_valid_mapping_update :
    HarnessGitopsProjectMappingSpec → HarnessGitopsProjectMappingSpec → Bool
unfolding same_bool
is_valid_mapping_update self old =
    self.agent_ref_name == old.agent_ref_name
    && self.app_project == old.app_project
    && self.org_id == old.org_id
    && self.project_id == old.project_id
    && same_bool self.auto_create_service_env old.auto_create_service_env

-- ===== src/Api/Updates/Laws.antt =====
-- What an accepted update of a spec leaves as it is.
use harness_gitops_agent_ope.Common.{String, Bool, true, false, ◌≡◌, refl, arith}
use harness_gitops_agent_ope.Text.{eq_iff}
use harness_gitops_agent_ope.Api.{
  HarnessGitopsAgentSpec, HarnessGitopsProjectMappingSpec, HarnessGitopsAgent,
  HarnessGitopsProjectMapping,
}
use harness_gitops_agent_ope.Api.Updates.{
  same_bool, same_optional, is_valid_agent_update, is_valid_mapping_update,
}
use harness_gitops_agent_ope.Agent.Identity.{harness_agent_for}
use harness_gitops_agent_ope.Mapping.Scope.{
  resolved_agent_identifier, scope_input, base_request, resolve_project_mapping_request,
}

same_bool-eq : (a b : Bool) → same_bool a b ≡ true → a ≡ b
unfolding same_bool
same_bool-eq true b h = ground arith
same_bool-eq false b h = ground arith

same_optional-eq : (self old : String) → same_optional self old ≡ true → self ≡ old
unfolding same_optional same_bool
same_optional-eq self old h = ground (arith, eq_iff self old, eq_iff self "", eq_iff old "")

-- what an update of the spec of an Agent may change: the names of the two Secrets
agent_update-eq :
    (self old : HarnessGitopsAgentSpec)
    → is_valid_agent_update self old ≡ true
    → self ≡ record old {
      api_key_secret_ref = self.api_key_secret_ref;
      token_secret_ref = self.token_secret_ref;
    }
unfolding is_valid_agent_update
agent_update-eq self old h = grind (
  arith,
  eq_iff self.name old.name,
  eq_iff self.operator old.operator,
  eq_iff self.identifier old.identifier,
  eq_iff self.account_id old.account_id,
  eq_iff self.type old.type,
  eq_iff self.scope old.scope,
  same_optional-eq self.org_id old.org_id,
  same_optional-eq self.project_id old.project_id,
  same_optional-eq self.existing_agent_identifier old.existing_agent_identifier,
)

-- and of a mapping: the mapping ID to adopt
mapping_update-eq :
    (self old : HarnessGitopsProjectMappingSpec)
    → is_valid_mapping_update self old ≡ true
    → self ≡ record old { adopt_mapping_id = self.adopt_mapping_id }
unfolding is_valid_mapping_update
mapping_update-eq self old h = grind (
  arith,
  eq_iff self.agent_ref_name old.agent_ref_name,
  eq_iff self.app_project old.app_project,
  eq_iff self.org_id old.org_id,
  eq_iff self.project_id old.project_id,
  same_bool-eq self.auto_create_service_env old.auto_create_service_env,
)

-- An update of the specs of an Agent and of a mapping that the rules of the CRDs accept changes neither
-- the agent that the Agent controller looks up and registers, nor the request that the mapping
-- controller resolves, nor the error of its resolution.
pub accepted_update-keeps_identity :
    (agent : HarnessGitopsAgent) (mapping : HarnessGitopsProjectMapping)
    (agent_spec : HarnessGitopsAgentSpec) (mapping_spec : HarnessGitopsProjectMappingSpec)
    → is_valid_agent_update agent_spec agent.spec ≡ true
    → is_valid_mapping_update mapping_spec mapping.spec ≡ true
    → (let agent' = record agent { spec = agent_spec } in
        let mapping' = record mapping { spec = mapping_spec } in
        (harness_agent_for agent' agent_spec.identifier
          ≡ harness_agent_for agent agent.spec.identifier)
        × (resolve_project_mapping_request agent' mapping'
            ≡ resolve_project_mapping_request agent mapping))
unfolding harness_agent_for resolve_project_mapping_request scope_input base_request
    resolved_agent_identifier
accepted_update-keeps_identity agent mapping agent_spec mapping_spec valid_agent valid_mapping =
    rw (agent_update-eq agent_spec agent.spec valid_agent)
      (rw (mapping_update-eq mapping_spec mapping.spec valid_mapping) (refl, refl))

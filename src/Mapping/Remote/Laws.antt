-- ===== src/Mapping/Remote/Laws.antt =====
-- Rows and the tuple of a request.
use harness_gitops_agent_ope.Common.{String, ◌≡◌, true, false, arith}
use harness_gitops_agent_ope.Text.{◌==◌, trim_space, eq_refl}
use harness_gitops_agent_ope.Mapping.Types.{ProjectMappingRequest, ProjectMapping}
use harness_gitops_agent_ope.Harness.Identifiers.Laws.{identifiers_equivalent_refl}
use harness_gitops_agent_ope.Mapping.Remote.{project_mapping_matches}

-- the row that Harness returns for a request, with the given ID
abbrev pub echo : ProjectMappingRequest → String → ProjectMapping
echo q id = record {
  identifier = id;
  agent_identifier = q.agent_identifier;
  account_identifier = q.account_identifier;
  org_identifier = q.mapping.org_identifier;
  project_identifier = q.mapping.project_identifier;
  argo_project_name = q.argo_project_name;
  auto_create_service_env = q.auto_create_service_env;
}

-- The row that Harness returns for a request, with an ID that is not blank, matches the request, if the
-- request has an Agent identifier.
pub echo-matches :
    (q : ProjectMappingRequest) (id : String)
    → (trim_space id == "") ≡ false
    → (trim_space q.agent_identifier == "") ≡ false
    → project_mapping_matches (echo q id) q ≡ true
unfolding project_mapping_matches
echo-matches q id has_id has_agent = ground (
  arith,
  identifiers_equivalent_refl q.agent_scope q.agent_identifier,
  eq_refl (trim_space q.account_identifier),
  eq_refl (trim_space q.mapping.org_identifier),
  eq_refl (trim_space q.mapping.project_identifier),
  eq_refl (trim_space q.argo_project_name),
)

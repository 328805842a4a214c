-- ===== src/Mapping/Scope/Table.antt =====
-- The table of the scopes: what a request for an Agent and a mapping is, field by field of their specs.
use harness_gitops_agent_ope.Common.{String, ◌≡◌, ◌⊎◌, true, false}
use harness_gitops_agent_ope.Text.{◌==◌, trim_space, to_upper}
use harness_gitops_agent_ope.Api.{HarnessGitopsAgent, HarnessGitopsProjectMapping}
use harness_gitops_agent_ope.Mapping.Types.{Scope, ProjectMappingRequest}
use harness_gitops_agent_ope.Mapping.Scope.{resolved_agent_identifier}

-- a part of the target may be left out, or is the Agent's
abbrev pub Inherits : String → String → Type 0
Inherits target own = ((target == "") ≡ true) ⊎ ((target == own) ≡ true)

abbrev pub scope_of : String → String → Scope
scope_of org project = record { org_identifier = org; project_identifier = project }

module _ (agent : HarnessGitopsAgent) (mapping : HarnessGitopsProjectMapping)
    (q : ProjectMappingRequest) where
  -- for a PROJECT Agent the target is the Agent's project
  abbrev pub IsForProject : Type 0
  IsForProject =
      let org = trim_space agent.spec.org_id in
      let project = trim_space agent.spec.project_id in
      ((org == "") ≡ false)
      × ((project == "") ≡ false)
      × Inherits (trim_space mapping.spec.org_id) org
      × Inherits (trim_space mapping.spec.project_id) project
      × (q.agent ≡ scope_of org project)
      × (q.mapping ≡ scope_of org project)

  -- for an ORG Agent it is the mapping's project in the Agent's organization
  abbrev pub IsForOrg : Type 0
  IsForOrg =
      let org = trim_space agent.spec.org_id in
      let project = trim_space mapping.spec.project_id in
      ((org == "") ≡ false)
      × ((project == "") ≡ false)
      × Inherits (trim_space mapping.spec.org_id) org
      × (q.agent ≡ scope_of org "")
      × (q.mapping ≡ scope_of org project)

  -- for an ACCOUNT Agent it is the mapping's project in the mapping's organization
  abbrev pub IsForAccount : Type 0
  IsForAccount =
      let org = trim_space mapping.spec.org_id in
      let project = trim_space mapping.spec.project_id in
      ((org == "") ≡ false)
      × ((project == "") ≡ false)
      × (q.agent ≡ scope_of "" "")
      × (q.mapping ≡ scope_of org project)

  abbrev pub FollowsTable : Type 0
  FollowsTable =
      let scope = to_upper (trim_space agent.spec.scope) in
      (((scope == "PROJECT") ≡ true) × IsForProject)
      ⊎ (((scope == "ORG") ≡ true) × IsForOrg)
      ⊎ (((scope == "ACCOUNT") ≡ true) × IsForAccount)

  -- the parts that do not depend on the scope
  abbrev pub HasIdentity : Type 0
  HasIdentity =
      (q.account_identifier ≡ trim_space agent.spec.account_id)
      × (q.agent_identifier ≡ resolved_agent_identifier agent)
      × (q.agent_scope ≡ to_upper (trim_space agent.spec.scope))
      × (q.argo_project_name ≡ trim_space mapping.spec.app_project)
      × (q.auto_create_service_env ≡ mapping.spec.auto_create_service_env)

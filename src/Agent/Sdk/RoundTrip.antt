-- ===== src/Agent/Sdk/RoundTrip.antt =====
-- What Harness keeps of a created agent, read back through the adapter: `Create` and `agentFromSDK` of
-- internal/resource/agent/sdk.go, with the request of `createHarnessAgent`.
use harness_gitops_agent_ope.Common.{String, ◌≡◌, ap, refl, some, List, [], ◌∷◌, arith}
use harness_gitops_agent_ope.Text.{trim_space}
use harness_gitops_agent_ope.Text.Trim.{trim_space_idem}
use harness_gitops_agent_ope.Harness.Identifiers.{
  org_identifier_for_scope, project_identifier_for_scope,
}
use harness_gitops_agent_ope.Agent.Identity.{harness_agent_for}
use harness_gitops_agent_ope.Agent.Environment.{State}
use harness_gitops_agent_ope.Agent.Registration.{create_agent_request}
use harness_gitops_agent_ope.Agent.Client.{V1Agent, CreateBody}
use harness_gitops_agent_ope.Agent.Sdk.{clone_tags, trimmed_or_empty, agent_from_sdk, create_body}

-- The agent has what the body of the create call said.
pub record Echoes (body : CreateBody) (agent : V1Agent) : Type 0 where
  pub identifier : agent.identifier ≡ body.identifier
  pub name : agent.name ≡ body.name
  pub account_identifier : agent.account_identifier ≡ body.account_identifier
  pub org_identifier : agent.org_identifier ≡ body.org_identifier
  pub project_identifier : agent.project_identifier ≡ body.project_identifier
  pub scope : agent.scope ≡ some body.scope
  pub type : agent.type ≡ some body.type
  pub operator : agent.operator ≡ some body.operator
  pub tags : agent.tags ≡ body.tags

trim_space_empty : trim_space "" ≡ ""
unfolding trim_space
trim_space_empty = refl

org_for_scope_idem :
    (scope org : String)
    → trim_space (org_identifier_for_scope (trim_space scope) (org_identifier_for_scope scope org))
      ≡ org_identifier_for_scope scope org
unfolding org_identifier_for_scope
org_for_scope_idem scope org = ground (
  arith,
  trim_space_empty,
  trim_space_idem scope,
  trim_space_idem org,
  trim_space_idem (trim_space org),
)

project_for_scope_idem :
    (scope project : String)
    → trim_space (
        project_identifier_for_scope
          (trim_space scope)
          (project_identifier_for_scope scope project))
      ≡ project_identifier_for_scope scope project
unfolding project_identifier_for_scope
project_for_scope_idem scope project = ground (
  arith,
  trim_space_empty,
  trim_space_idem scope,
  trim_space_idem project,
  trim_space_idem (trim_space project),
)

clone_tags-id : (tags : List (String × String)) → clone_tags tags ≡ tags
unfolding clone_tags
clone_tags-id [] = refl
clone_tags-id (tag ∷ tags) = ap (λ rest. tag ∷ rest) (clone_tags-id tags)

module _ (namespace : String) (s : State) where
  -- An agent that Harness keeps as the body of the create call said is read back as the agent that the
  -- create request asked for, with its tag.
  pub agent_from_sdk-create_body :
      (agent : V1Agent)
      → Echoes (create_body (create_agent_request namespace s)) agent
      → agent_from_sdk agent ≡ (create_agent_request namespace s).agent
  unfolding agent_from_sdk create_body create_agent_request harness_agent_for trimmed_or_empty
  agent_from_sdk-create_body agent echoes = grind (
    arith,
    trim_space_idem s.agent.spec.identifier,
    trim_space_idem s.agent.spec.name,
    trim_space_idem s.agent.spec.account_id,
    org_for_scope_idem s.agent.spec.scope s.agent.spec.org_id,
    project_for_scope_idem s.agent.spec.scope s.agent.spec.project_id,
    trim_space_idem s.agent.spec.scope,
    trim_space_idem s.agent.spec.type,
    trim_space_idem s.agent.spec.operator,
    clone_tags-id agent.tags,
  )

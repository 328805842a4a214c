-- ===== src/Agent/Identity.antt =====
-- Which Harness agent belongs to a resource: the pure functions of
-- internal/resource/agent/registration.go.
pub mod Laws
use harness_gitops_agent_ope.Common.{
  String, Bool, true, false, ◌&&◌, ◌||◌, not, Option, none, some, List, [], ◌∷◌, if◌then◌else◌,
}
use harness_gitops_agent_ope.Text.{◌==◌, ◌<>◌, trim_space, quote}
use harness_gitops_agent_ope.Api.{
  CreationState, settled, pending, outcome_unknown, other_state, HarnessGitopsAgent,
}
use harness_gitops_agent_ope.Harness.Errors.{Error, sentinel, wrap, harness_agent_already_exists}
use harness_gitops_agent_ope.Harness.Identifiers.{
  org_identifier_for_scope, project_identifier_for_scope, identifiers_equivalent,
}
use harness_gitops_agent_ope.Harness.Session.{lookup}
use harness_gitops_agent_ope.Agent.Types.{Agent}

-- `harnessAgentCRUIDTag`
abbrev pub harness_agent_cr_uid_tag : String
harness_agent_cr_uid_tag = "hga_cr_uid"

unfoldable pub harness_agent_for : HarnessGitopsAgent → String → Agent
harness_agent_for cr identifier = record {
  identifier = trim_space identifier;
  name = trim_space cr.spec.name;
  account_identifier = trim_space cr.spec.account_id;
  org_identifier = org_identifier_for_scope cr.spec.scope cr.spec.org_id;
  project_identifier = project_identifier_for_scope cr.spec.scope cr.spec.project_id;
  scope = trim_space cr.spec.scope;
  type = trim_space cr.spec.type;
  operator = trim_space cr.spec.operator;
  tags = [];
}

-- `observed.Tags[harnessAgentCRUIDTag]`, which is "" without the tag
unfoldable pub uid_tag : Agent → String
unfolding lookup
uid_tag observed = elim (lookup harness_agent_cr_uid_tag observed.tags) [
  | none ↦ ""
  | some value ↦ value
]

unfoldable pub agent_tuple_equal : Agent → Agent → Bool
agent_tuple_equal expected observed =
    identifiers_equivalent expected.scope observed.identifier expected.identifier
    && trim_space observed.name == trim_space expected.name
    && trim_space observed.account_identifier == trim_space expected.account_identifier
    && trim_space observed.org_identifier == trim_space expected.org_identifier
    && trim_space observed.project_identifier == trim_space expected.project_identifier
    && trim_space observed.scope == trim_space expected.scope
    && trim_space observed.type == trim_space expected.type
    && trim_space observed.operator == trim_space expected.operator

unfoldable pub agent_owned_by_cr : HarnessGitopsAgent → Agent → Agent → Bool
agent_owned_by_cr cr expected observed =
    let uid = trim_space cr.metadata.uid in
    if uid == "" || not (trim_space (uid_tag observed) == uid)
    then false
    else agent_tuple_equal expected observed

unfoldable pub agent_creation_is_uncertain : CreationState → Bool
agent_creation_is_uncertain pending = true
agent_creation_is_uncertain outcome_unknown = true
agent_creation_is_uncertain settled = false
agent_creation_is_uncertain (other_state text) = false

unfoldable pub agent_registration_conflict : HarnessGitopsAgent → Error
agent_registration_conflict cr = wrap "" (sentinel harness_agent_already_exists) (
    ": Harness Agent "
    <> quote (trim_space cr.spec.identifier)
    <> " does not match this CR's immutable tuple and "
    <> harness_agent_cr_uid_tag
    <> " tag; create a replacement HarnessGitopsAgent CR with spec.existingAgentIdentifier set")

-- `agentIdentifierForStatus` of reconciler.go
unfoldable pub agent_identifier_for_status : HarnessGitopsAgent → String
agent_identifier_for_status cr =
    if trim_space cr.status.agent_identifier == ""
    then trim_space cr.spec.identifier
    else trim_space cr.status.agent_identifier

-- ===== src/Agent/Sdk.antt =====
-- internal/resource/agent/sdk.go: the implementation of `agentAPI` by calls of the Harness SDK. The SDK
-- is a parameter, `AgentClient`. The calls made are passed on, the latest first. Agent/Sdk/Credentials has
-- `ResolveToken`, Agent/Sdk/Readiness has `Readiness`, with `readinessFromAgent` of conditions.go.
pub mod RoundTrip
pub mod Recovery
pub mod Credentials
pub mod Readiness
pub mod Directory
pub mod Creation
pub mod Token
use harness_gitops_agent_ope.Common.{
  ℕ, String, Bool, true, false, ◌&&◌, ◌||◌, Option, none, some, List, [], ◌∷◌, Result, ok, err,
  if◌then◌else◌,
}
use harness_gitops_agent_ope.Text.{◌==◌, ◌<>◌, trim_space, to_lower, contains, quote}
use harness_gitops_agent_ope.Harness.Errors.{
  Error, plain, sentinel, wrap, both, agent_already_exists, agent_not_found,
  agent_create_outcome_unknown, classify_response, error_body, api_error,
}
use harness_gitops_agent_ope.Harness.Replies.{
  Reply, is_absent, is_conflict, is_transient, returned, with_candidates,
}
use harness_gitops_agent_ope.Harness.Identifiers.{
  org_identifier_for_scope, project_identifier_for_scope, optional_org_identifier,
  optional_project_identifier, optional_string, scoped_identifier_candidates,
}
use harness_gitops_agent_ope.Harness.Session.{Session}
use harness_gitops_agent_ope.Agent.Types.{
  Agent, CreateAgentRequest, CreateAgentResult, AgentLookupResult, AgentReadiness,
}
use harness_gitops_agent_ope.Agent.Client.{
  AgentClient, Calls, CreateBody, DeleteArguments, GetArguments, V1Agent, sent_create, sent_delete,
  sent_get, sent_regenerate,
}

-- `agentAPIError`, for an error that is not nil
unfoldable pub agent_api_error : String → String → Option ℕ → Error → Option Error
agent_api_error operation identifier response e =
    api_error operation ("agentIdentifier=" <> quote identifier) response (some e)

-- `cloneTags`
unfoldable pub clone_tags : List (String × String) → List (String × String)
clone_tags [] = []
clone_tags ((key, value) ∷ tags) = (key, value) ∷ clone_tags tags

-- a pointer to a string, trimmed, and "" for nil
unfoldable pub trimmed_or_empty : Option String → String
trimmed_or_empty none = ""
trimmed_or_empty (some text) = trim_space text

-- `agentFromSDK`
unfoldable pub agent_from_sdk : V1Agent → Agent
unfolding clone_tags trimmed_or_empty
agent_from_sdk agent = record {
  identifier = trim_space agent.identifier;
  name = trim_space agent.name;
  account_identifier = trim_space agent.account_identifier;
  org_identifier = trim_space agent.org_identifier;
  project_identifier = trim_space agent.project_identifier;
  scope = trimmed_or_empty agent.scope;
  type = trimmed_or_empty agent.type;
  operator = trimmed_or_empty agent.operator;
  tags = clone_tags agent.tags;
}

-- `isAgentAlreadyExists`
unfoldable pub is_agent_already_exists : Option ℕ → Error → Bool
is_agent_already_exists response e =
    is_conflict (classify_response response (some e))
    || contains (to_lower (error_body e)) "agent already exists"

unfoldable pub create_body : CreateAgentRequest → CreateBody
unfolding clone_tags
create_body request = record {
  name = request.agent.name;
  identifier = request.agent.identifier;
  operator = request.agent.operator;
  account_identifier = request.agent.account_identifier;
  org_identifier = org_identifier_for_scope request.agent.scope request.agent.org_identifier;
  project_identifier =
      project_identifier_for_scope request.agent.scope request.agent.project_identifier;
  scope = request.agent.scope;
  type = request.agent.type;
  tags = clone_tags request.agent.tags;
  namespace = request.namespace;
}

abbrev pub no_create_result : CreateAgentResult
no_create_result = record { identifier = ""; prefixed_identifier = ""; initial_token = "" }

-- the private key of credentials, or "" for nil
unfoldable pub private_key : Option String → String
private_key none = ""
private_key (some key) = key

-- `Create` from the answer on
unfoldable pub created_from_reply :
    CreateAgentRequest → Reply V1Agent → Result Error CreateAgentResult
unfolding agent_api_error private_key
created_from_reply request reply = elim (reply.answer) [
  | err e ↦
      if is_agent_already_exists reply.http_response e
      then err (
          wrap "" (sentinel agent_already_exists)
            (": " <> quote (trim_space request.agent.identifier)))
      else if is_transient (classify_response reply.http_response (some e))
      then err (both (sentinel agent_create_outcome_unknown) e)
      else returned no_create_result
          (agent_api_error "create GitOps agent" request.agent.identifier reply.http_response e)
  | ok response ↦
      if trim_space response.identifier == ""
      then err (
          wrap "" (sentinel agent_create_outcome_unknown)
            ": Harness returned a successful response without an identifier")
      else ok (record {
        identifier = trim_space response.identifier;
        prefixed_identifier = trim_space response.prefixed_identifier;
        initial_token = private_key response.credentials;
      })
]

-- `Create`
unfoldable pub sdk_create :
    AgentClient → Session → CreateAgentRequest → Calls → Result Error CreateAgentResult × Calls
unfolding create_body created_from_reply
sdk_create c session request calls =
    let body = create_body request in
    (created_from_reply request (c.create calls session body), sent_create body ∷ calls)

-- the arguments of the get calls: `Lookup` trims the account, the others do not
unfoldable pub get_arguments : String → Bool → Agent → String → GetArguments
get_arguments account with_credentials agent candidate = record {
  identifier = candidate;
  account_identifier = account;
  org_identifier = optional_org_identifier agent.scope agent.org_identifier;
  project_identifier = optional_project_identifier agent.scope agent.project_identifier;
  scope = optional_string agent.scope;
  with_credentials = with_credentials;
}

abbrev pub no_agent : Agent
no_agent = record {
  identifier = "";
  name = "";
  account_identifier = "";
  org_identifier = "";
  project_identifier = "";
  scope = "";
  type = "";
  operator = "";
  tags = [];
}

abbrev pub not_found : AgentLookupResult
not_found = record { exists = false; agent = no_agent }

-- the loop of `Lookup`
unfoldable pub lookup_candidates :
    AgentClient → Session → Agent → List String → Calls → Result Error AgentLookupResult × Calls
unfolding agent_api_error
lookup_candidates c session agent [] calls = (ok not_found, calls)
lookup_candidates c session agent (candidate ∷ rest) calls =
    let request = get_arguments (trim_space agent.account_identifier) false agent candidate in
    let reply = c.get calls session request in
    let calls' = sent_get request ∷ calls in
    elim (reply.answer) [
      | ok response ↦ (ok (record { exists = true; agent = agent_from_sdk response }), calls')
      | err e ↦ elim (is_absent (classify_response reply.http_response (some e))) [
        | true ↦ lookup_candidates c session agent rest calls'
        | false ↦ (
          returned not_found (agent_api_error "get GitOps agent" candidate reply.http_response e),
          calls',
        )
      ]
    ]

-- `Lookup`
unfoldable pub sdk_lookup :
    AgentClient → Session → Agent → Calls → Result Error AgentLookupResult × Calls
unfolding with_candidates
sdk_lookup c session agent calls =
    with_candidates "get GitOps agent: empty agent identifier"
      (scoped_identifier_candidates agent.scope agent.identifier)
      (lookup_candidates c session agent) calls

-- the error for an agent that no candidate names
unfoldable pub agent_not_found_error : Agent → Error
agent_not_found_error agent =
    wrap "" (sentinel agent_not_found) (": " <> trim_space agent.identifier)

unfoldable pub delete_arguments : Agent → String → DeleteArguments
delete_arguments agent candidate = record {
  identifier = candidate;
  account_identifier = agent.account_identifier;
  org_identifier = optional_org_identifier agent.scope agent.org_identifier;
  project_identifier = optional_project_identifier agent.scope agent.project_identifier;
  name = optional_string agent.name;
  type = optional_string agent.type;
  scope = optional_string agent.scope;
}

-- the loop of `Delete`
unfoldable pub delete_candidates :
    AgentClient → Session → Agent → List String → Calls → Result Error (Unit {0}) × Calls
unfolding agent_api_error
delete_candidates c session agent [] calls = (err (agent_not_found_error agent), calls)
delete_candidates c session agent (candidate ∷ rest) calls =
    let request = delete_arguments agent candidate in
    let reply = c.delete calls session request in
    let calls' = sent_delete request ∷ calls in
    elim (reply.answer) [
      | ok response ↦ (ok tt, calls')
      | err e ↦ elim (is_absent (classify_response reply.http_response (some e))) [
        | true ↦ delete_candidates c session agent rest calls'
        | false ↦ (
          returned tt (agent_api_error "delete GitOps agent" candidate reply.http_response e),
          calls',
        )
      ]
    ]

-- `Delete`
unfoldable pub sdk_delete : AgentClient → Session → Agent → Calls → Result Error (Unit {0}) × Calls
unfolding with_candidates
sdk_delete c session agent calls =
    with_candidates "delete GitOps agent: empty agent identifier"
      (scoped_identifier_candidates agent.scope agent.identifier)
      (delete_candidates c session agent) calls

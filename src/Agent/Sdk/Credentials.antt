-- ===== src/Agent/Sdk/Credentials.antt =====
-- internal/resource/agent/sdk.go: `ResolveToken`.
use harness_gitops_agent_ope.Common.{
  String, true, false, some, List, [], ◌∷◌, Result, ok, err, if◌then◌else◌,
}
use harness_gitops_agent_ope.Text.{◌==◌, ◌<>◌, quote}
use harness_gitops_agent_ope.Harness.Errors.{Error, plain, classify_response}
use harness_gitops_agent_ope.Harness.Replies.{is_absent, returned, with_candidates}
use harness_gitops_agent_ope.Harness.Identifiers.{scoped_identifier_candidates}
use harness_gitops_agent_ope.Harness.Session.{Session}
use harness_gitops_agent_ope.Agent.Types.{Agent}
use harness_gitops_agent_ope.Agent.Client.{AgentClient, Calls, V1Agent, sent_get, sent_regenerate}
use harness_gitops_agent_ope.Agent.Sdk.{
  agent_api_error, agent_not_found_error, get_arguments, private_key,
}

-- the renewal of the credentials, where the agent that was found has none
unfoldable pub regenerate_token :
    AgentClient → Session → Agent → String → Calls → Result Error String × Calls
unfolding agent_api_error private_key
regenerate_token c session agent successful_identifier calls =
    let reply = c.regenerate calls session successful_identifier in
    let calls' = sent_regenerate successful_identifier ∷ calls in
    elim (reply.answer) [
      | err e ↦ (
        returned "" (
            agent_api_error "regenerate credentials for GitOps agent" successful_identifier
              reply.http_response e),
        calls',
      )
      | ok regenerated ↦
          if private_key regenerated.credentials == ""
          then (
            err (
                plain
                  ("harness API did not return private key for agent " <> quote agent.identifier)),
            calls',
          )
          else (ok (private_key regenerated.credentials), calls')
    ]

-- what follows the loop of `ResolveToken`, from the agent and the identifier that it found
unfoldable pub token_of_found :
    AgentClient → Session → Agent → V1Agent → String → Calls → Result Error String × Calls
unfolding private_key
token_of_found c session agent response successful_identifier calls =
    if successful_identifier == ""
    then (err (agent_not_found_error agent), calls)
    else if private_key response.credentials == ""
    then regenerate_token c session agent successful_identifier calls
    else (ok (private_key response.credentials), calls)

-- the loop of `ResolveToken`, and what follows it
unfoldable pub token_candidates :
    AgentClient → Session → Agent → List String → Calls → Result Error String × Calls
unfolding agent_api_error
token_candidates c session agent [] calls = (err (agent_not_found_error agent), calls)
token_candidates c session agent (candidate ∷ rest) calls =
    let request = get_arguments agent.account_identifier true agent candidate in
    let reply = c.get calls session request in
    let calls' = sent_get request ∷ calls in
    elim (reply.answer) [
      | ok observed ↦ token_of_found c session agent observed candidate calls'
      | err e ↦ elim (is_absent (classify_response reply.http_response (some e))) [
        | true ↦ token_candidates c session agent rest calls'
        | false ↦ (
          returned ""
              (agent_api_error "get GitOps agent credentials" candidate reply.http_response e),
          calls',
        )
      ]
    ]

-- `ResolveToken`
unfoldable pub sdk_resolve_token :
    AgentClient → Session → Agent → String → Calls → Result Error String × Calls
unfolding with_candidates
sdk_resolve_token c session agent initial_token calls =
    if initial_token == ""
    then with_candidates "get GitOps agent credentials: empty agent identifier"
        (scoped_identifier_candidates agent.scope agent.identifier)
        (token_candidates c session agent) calls
    else (ok initial_token, calls)

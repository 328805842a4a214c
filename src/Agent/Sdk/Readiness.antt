-- ===== src/Agent/Sdk/Readiness.antt =====
-- `readinessFromAgent` of internal/resource/agent/conditions.go, and `Readiness` of sdk.go. The values of
-- the SDK's enumerations are parameters.
use harness_gitops_agent_ope.Common.{
  String, true, false, ◌&&◌, Option, none, some, List, [], ◌∷◌, Result, ok, err, if◌then◌else◌,
}
use harness_gitops_agent_ope.Text.{◌==◌, ◌<>◌, trim_space}
use harness_gitops_agent_ope.Harness.Errors.{Error, classify_response}
use harness_gitops_agent_ope.Harness.Replies.{is_absent, returned, with_candidates}
use harness_gitops_agent_ope.Harness.Identifiers.{scoped_identifier_candidates}
use harness_gitops_agent_ope.Harness.Session.{Session}
use harness_gitops_agent_ope.Agent.Types.{Agent, AgentReadiness}
use harness_gitops_agent_ope.Agent.Client.{ComponentHealth, V1Agent, AgentClient, Calls, sent_get}
use harness_gitops_agent_ope.Agent.Sdk.{get_arguments, agent_api_error}

-- CONNECTED, CONNECTED_STATUS_UNSET, HEALTHY and HEALTH_STATUS_UNSET of package nextgen
pub record HealthStatuses : Type 0 where
  pub connected : String
  pub connected_status_unset : String
  pub healthy : String
  pub health_status_unset : String

-- a pointer to a string, with a default for nil
unfoldable pub status_or : Option String → String → String
status_or none default = default
status_or (some status) default = status

-- the health status and the message of the component, if it is there
unfoldable pub component_status : HealthStatuses → Option ComponentHealth → String
unfolding status_or
component_status h none = h.health_status_unset
component_status h (some component) = status_or component.status h.health_status_unset

unfoldable pub component_message : Option ComponentHealth → String
component_message none = ""
component_message (some component) = trim_space component.message

unfoldable pub not_ready_message : String → String → String → String
not_ready_message connection health detail =
    let message =
      "Harness GitOps agent is not ready: connection=" <> connection <> " health=" <> health in
    if detail == "" then message else message <> ": " <> detail

-- `readinessFromAgent`
unfoldable pub readiness_from_agent : HealthStatuses → V1Agent → AgentReadiness
unfolding status_or component_status component_message not_ready_message
readiness_from_agent h agent = elim (agent.health) [
  | none ↦ record {
    exists = true;
    ready = false;
    message = "Harness GitOps agent health has not been reported yet";
  }
  | some health ↦
      let connection = status_or health.connection_status h.connected_status_unset in
      let status = component_status h health.harness_gitops_agent in
      if connection == h.connected && status == h.healthy
      then record {
        exists = true;
        ready = true;
        message = "Harness GitOps agent is Connected and Healthy";
      }
      else record {
        exists = true;
        ready = false;
        message =
            not_ready_message connection status (component_message health.harness_gitops_agent);
      }
]

abbrev pub no_readiness : AgentReadiness
no_readiness = record { exists = false; ready = false; message = "" }

-- the loop of `Readiness`
unfoldable pub readiness_candidates :
    HealthStatuses
    → AgentClient
    → Session
    → Agent
    → List String
    → Calls
    → Result Error AgentReadiness × Calls
unfolding agent_api_error
readiness_candidates h c session agent [] calls = (ok no_readiness, calls)
readiness_candidates h c session agent (candidate ∷ rest) calls =
    let request = get_arguments agent.account_identifier false agent candidate in
    let reply = c.get calls session request in
    let calls' = sent_get request ∷ calls in
    elim (reply.answer) [
      | ok response ↦ (ok (readiness_from_agent h response), calls')
      | err e ↦ elim (is_absent (classify_response reply.http_response (some e))) [
        | true ↦ readiness_candidates h c session agent rest calls'
        | false ↦ (
          returned no_readiness
              (agent_api_error "get GitOps agent" candidate reply.http_response e),
          calls',
        )
      ]
    ]

-- `Readiness`
unfoldable pub sdk_readiness :
    HealthStatuses → AgentClient → Session → Agent → Calls → Result Error AgentReadiness × Calls
unfolding with_candidates
sdk_readiness h c session agent calls =
    with_candidates "get GitOps agent: empty agent identifier"
      (scoped_identifier_candidates agent.scope agent.identifier)
      (readiness_candidates h c session agent) calls

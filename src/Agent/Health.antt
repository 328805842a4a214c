-- ===== src/Agent/Health.antt =====
-- The Healthy condition: `publishAgentHealth` and its callers in
-- internal/resource/agent/conditions.go.
use harness_gitops_agent_ope.Common.{
  ℕ, String, false, not, none, some, Result, ok, err, if◌then◌else◌, ltb,
}
use harness_gitops_agent_ope.Text.{◌==◌, ◌<>◌, trim_space}
use harness_gitops_agent_ope.Api.{
  ConditionStatus, condition_true, condition_false, condition_unknown,
}
use harness_gitops_agent_ope.Harness.Errors.{Error}
use harness_gitops_agent_ope.Harness.Errors.Messages.{error_text}
use harness_gitops_agent_ope.Harness.Session.{Session}
use harness_gitops_agent_ope.Agent.Types.{AgentReadiness}
use harness_gitops_agent_ope.Agent.Identity.{harness_agent_for}
use harness_gitops_agent_ope.Agent.Environment.{
  Reconciler, State, Outcome, read_readiness, record_event,
}
use harness_gitops_agent_ope.Agent.Status.{set_agent_condition, session_for_agent}

-- `agentHealthFastResync`, 30 s
abbrev pub agent_health_fast_resync : ℕ
agent_health_fast_resync = 30_000_000_000

-- `DefaultAgentHealthResyncInterval`, 5 min
abbrev pub default_agent_health_resync_interval : ℕ
default_agent_health_resync_interval = 300_000_000_000

unfoldable pub agent_health_resync_interval : Reconciler → ℕ
agent_health_resync_interval r =
    if ltb 0 r.agent_health_resync_interval
    then r.agent_health_resync_interval
    else default_agent_health_resync_interval

-- the three variables that the switch sets
pub record HealthReport : Type 0 where
  pub status : ConditionStatus
  pub reason : String
  pub message : String

-- the message of a readiness, or a default for a blank one
unfoldable pub message_or : String → String → String
message_or message default = if trim_space message == "" then default else trim_space message

-- the cases of the switch behind an identifier and no error
unfoldable pub observed_report : AgentReadiness → HealthReport
unfolding message_or
observed_report readiness =
    if not readiness.exists
    then record {
      status = condition_false;
      reason = "AgentAbsent";
      message = "Harness GitOps agent does not exist";
    }
    else if readiness.ready
    then record {
      status = condition_true;
      reason = "AgentHealthy";
      message = message_or readiness.message "Harness GitOps agent is Connected and Healthy";
    }
    else record {
      status = condition_false;
      reason = "AgentUnhealthy";
      message = message_or readiness.message "Harness GitOps agent is not Connected and Healthy";
    }

-- the switch; the readiness is that of a blank identifier where no call was made
unfoldable pub health_report : String → Result Error AgentReadiness → HealthReport
unfolding observed_report
health_report identifier (err e) = record {
  status = condition_unknown;
  reason = "HealthUnreadable";
  message = "Harness GitOps agent health could not be read: " <> error_text e;
}
health_report identifier (ok readiness) =
    if trim_space identifier == ""
    then record {
      status = condition_unknown;
      reason = "HealthUnreadable";
      message = "Harness GitOps agent has no identifier to read health for";
    }
    else observed_report readiness

abbrev pub no_readiness : AgentReadiness
no_readiness = record { exists = false; ready = false; message = "" }

-- the call of `Readiness`, if there are a session and an identifier
unfoldable pub read_agent_readiness :
    Reconciler → Result Error Session → String → State → Result Error AgentReadiness × State
unfolding record_event
read_agent_readiness r (err e) identifier s = (err e, s)
read_agent_readiness r (ok session) identifier s =
    if trim_space identifier == ""
    then (ok no_readiness, s)
    else let expected = harness_agent_for s.agent identifier in
      (r.env.readiness s.trace session expected, record_event (read_readiness expected) s)

-- the delay until the next read
unfoldable pub health_delay : Reconciler → ConditionStatus → ℕ
unfolding agent_health_resync_interval
health_delay r condition_true = agent_health_resync_interval r
health_delay r _ = agent_health_fast_resync

-- `publishAgentHealth`
unfoldable pub publish_agent_health :
    Reconciler → Result Error Session → String → State → Result Error ℕ × State
unfolding read_agent_readiness health_report health_delay
publish_agent_health r session identifier s =
    let (readiness, s') = read_agent_readiness r session identifier s in
    let report = health_report identifier readiness in
    let (status_err, s'') =
      set_agent_condition r "Healthy" report.status report.reason report.message s' in
    elim status_err [ some e ↦ (err e, s'') | none ↦ (ok (health_delay r report.status), s'') ]

-- `agentHealthResult`
unfoldable pub agent_health_result :
    Reconciler → Result Error Session → String → State → Outcome × State
unfolding publish_agent_health
agent_health_result r session identifier s =
    let (delay, s') = publish_agent_health r session identifier s in
    elim delay [
      | err e ↦ (record { requeue_after = 0; error = some e }, s')
      | ok requeue_after ↦ (record { requeue_after = requeue_after; error = none }, s')
    ]

-- `refreshAgentHealth`
unfoldable pub refresh_agent_health : Reconciler → String → State → Outcome × State
unfolding agent_health_result
refresh_agent_health r identifier s =
    let (session, s') = session_for_agent r s in agent_health_result r session identifier s'

-- ===== src/Agent/Status.antt =====
-- Status writes and sessions of the Agent controller: `setAgentCondition` of
-- internal/resource/agent/conditions.go, `setAgentCreationState` of registration.go and
-- `SessionForAgent` of reconciler.go.
use mathlib.Core.Option
use harness_gitops_agent_ope.Common.{
  String, Bool, true, false, Option, none, some, Result, if◌then◌else◌, ite,
}
use harness_gitops_agent_ope.Text.{◌==◌, trim_space}
use harness_gitops_agent_ope.Api.{
  ConditionStatus, ObjectKey, CreationState, settled, pending, outcome_unknown, other_state,
  HarnessGitopsAgentStatus, HarnessGitopsAgentStatus-discrete,
}
use harness_gitops_agent_ope.Harness.Errors.{Error, kube, KubeError}
use harness_gitops_agent_ope.Harness.Session.{Session, session_from_secret}
use harness_gitops_agent_ope.Agent.Environment.{
  Reconciler, State, status_updated, read_secret, record_event,
}

unfoldable pub accepted : Option KubeError → Bool
accepted none = true
accepted (some e) = false

abbrev pub with_status : HarnessGitopsAgentStatus → State → State
with_status status s = record s { agent = record (s.agent) { status = status } }

-- r.Status().Update
unfoldable pub update_status : Reconciler → State → Option Error × State
unfolding accepted record_event
update_status r s =
    let answer = r.env.update_status s.trace s.agent in
    (Option.map kube answer, record_event (status_updated s.agent (accepted answer)) s)

-- `setAgentCondition`
unfoldable pub set_agent_condition :
    Reconciler → String → ConditionStatus → String → String → State → Option Error × State
unfolding update_status
set_agent_condition r type status reason message s =
    let before = s.agent.status in
    let after = record before {
      conditions = r.env.set_status_condition s.trace before.conditions (record {
        type = type;
        status = status;
        observed_generation = s.agent.metadata.generation;
        last_transition_time = 0;
        reason = reason;
        message = message;
      });
    } in
    let s' = with_status after s in
    ite (HarnessGitopsAgentStatus-discrete before after) (none, s') (update_status r s')

-- `agentCR.Status.CreationState == state`
unfoldable pub same_creation_state : CreationState → CreationState → Bool
same_creation_state settled settled = true
same_creation_state pending pending = true
same_creation_state outcome_unknown outcome_unknown = true
same_creation_state (other_state a) (other_state b) = a == b
same_creation_state _ _ = false

-- `setAgentCreationState`
unfoldable pub set_agent_creation_state : Reconciler → CreationState → State → Option Error × State
unfolding update_status same_creation_state
set_agent_creation_state r state s =
    if same_creation_state s.agent.status.creation_state state
    then (none, s)
    else update_status r (with_status (record (s.agent.status) { creation_state = state }) s)

-- `SessionForAgent`
unfoldable pub session_for_agent : Reconciler → State → Result Error Session × State
unfolding record_event
session_for_agent r s =
    let key : ObjectKey = record {
      name = s.agent.spec.api_key_secret_ref;
      namespace =
          if trim_space r.api_key_secret_namespace == ""
          then s.agent.metadata.namespace
          else trim_space r.api_key_secret_namespace;
    } in
    (session_from_secret (r.env.read_secret s.trace key), record_event (read_secret key) s)

-- ===== src/Agent/Registration.antt =====
-- `reconcileAgentRegistration` of internal/resource/agent/registration.go, cut at its early returns.
pub mod Remembered
pub mod Laws
pub mod Guard
pub mod Recovery
use harness_gitops_agent_ope.Common.{
  ℕ, String, Bool, true, false, ◌||◌, not, Option, none, some, [], ◌∷◌, Result, ok, err,
  if◌then◌else◌,
}
use harness_gitops_agent_ope.Text.{◌==◌, ◌<>◌, trim_space, quote}
use harness_gitops_agent_ope.Api.{
  CreationState, settled, pending, outcome_unknown, other_state, managed, HarnessGitopsAgentStatus,
}
use harness_gitops_agent_ope.Harness.Errors.{
  Error, plain, sentinel, wrap, join_errors, errors_is, agent_already_exists,
  agent_create_outcome_unknown, harness_agent_already_exists,
}
use harness_gitops_agent_ope.Harness.Session.{Session}
use harness_gitops_agent_ope.Agent.Types.{
  Agent, CreateAgentRequest, CreateAgentResult, AgentLookupResult,
}
use harness_gitops_agent_ope.Agent.Identity.{
  harness_agent_cr_uid_tag, harness_agent_for, agent_owned_by_cr, agent_registration_conflict,
}
use harness_gitops_agent_ope.Agent.Environment.{
  Reconciler, State, Outcome, looked_up, created, record_event,
}
use harness_gitops_agent_ope.Agent.Status.{with_status, update_status, set_agent_creation_state}

-- `agentRegistrationRetryInterval`, 1 s
abbrev pub agent_registration_retry_interval : ℕ
agent_registration_retry_interval = 1_000_000_000

-- `agentRegistrationOutcome` and the error beside it: `finished` is one whose `done` is true, with the
-- result and the error
pub data Registration : Type 0 where
  finished : Outcome → Registration
  registered : String → String → Registration

unfoldable pub failed_registration : Option Error → Registration
failed_registration e = finished (record { requeue_after = 0; error = e })

-- the three assignments to the status of a registered agent
unfoldable pub owned_status : String → HarnessGitopsAgentStatus → HarnessGitopsAgentStatus
owned_status identifier status = record status {
  agent_identifier = identifier;
  agent_ownership = managed;
  creation_state = settled;
}

-- record the registered agent
unfoldable pub record_registration : Reconciler → String → String → State → Registration × State
unfolding owned_status failed_registration
record_registration r identifier initial_token s =
    let (status_err, s') =
      update_status r (with_status (owned_status identifier s.agent.status) s) in
    elim status_err [
      | some e ↦ (failed_registration (some e), s')
      | none ↦ (registered identifier initial_token, s')
    ]

-- set the creation state, and fail with `cause` and the error of that
unfoldable pub fail_in_state : Reconciler → CreationState → Error → State → Registration × State
unfolding failed_registration
fail_in_state r state cause s =
    let (status_err, s') = set_agent_creation_state r state s in
    (failed_registration (join_errors (some cause) status_err), s')

-- the request of `createHarnessAgent`
unfoldable pub create_agent_request : String → State → CreateAgentRequest
create_agent_request namespace s = record {
  agent = record (harness_agent_for s.agent s.agent.spec.identifier) {
    tags = (harness_agent_cr_uid_tag, trim_space s.agent.metadata.uid) ∷ [];
  };
  namespace = namespace;
}

-- the error of `createHarnessAgent` for an agent that exists
unfoldable pub already_exists_error : State → Error
already_exists_error s = wrap "" (sentinel harness_agent_already_exists) (
    ": "
    <> quote (trim_space s.agent.spec.identifier)
    <> "; create a replacement HarnessGitopsAgent CR with "
    <> "spec.existingAgentIdentifier set to reference the existing Agent")

-- `createHarnessAgent` from the answer on
unfoldable pub created_agent :
    State → CreateAgentRequest → Result Error CreateAgentResult → Result Error (String × String)
unfolding already_exists_error
created_agent s request (err e) =
    if errors_is agent_already_exists e then err (already_exists_error s) else err e
created_agent s request (ok result) =
    let identifier = trim_space result.identifier in
    if not (identifier == trim_space request.agent.identifier)
    then err (
        wrap "" (sentinel agent_create_outcome_unknown) (
          ": Harness returned Agent identifier "
          <> quote identifier
          <> " for requested identifier "
          <> quote request.agent.identifier))
    else ok (identifier, result.initial_token)

-- `createHarnessAgent`
unfoldable pub create_harness_agent :
    Reconciler → Session → String → State → Result Error (String × String) × State
unfolding create_agent_request created_agent record_event
create_harness_agent r session namespace s =
    if trim_space s.agent.metadata.uid == ""
    then (
      err (
          plain (
            "cannot create Harness Agent "
            <> quote (trim_space s.agent.spec.identifier)
            <> ": Kubernetes resource UID is empty")),
      s,
    )
    else let request = create_agent_request namespace s in
      (
        created_agent s request (r.env.create s.trace session request),
        record_event (created request) s,
      )

-- the agent may exist: leave that to the next lookup
unfoldable pub leave_unknown : Reconciler → Error → State → Registration × State
unfolding failed_registration
leave_unknown r cause s =
    let (status_err, s') = set_agent_creation_state r outcome_unknown s in
    elim status_err [
      | some e ↦ (failed_registration (join_errors (some cause) (some e)), s')
      | none ↦ (
        finished (record { requeue_after = agent_registration_retry_interval; error = none }),
        s',
      )
    ]

-- what the answer to the create call leads to
unfoldable pub record_create :
    Reconciler → Result Error (String × String) → State → Registration × State
unfolding record_registration fail_in_state leave_unknown
record_create r (ok (identifier, initial_token)) s =
    record_registration r identifier initial_token s
record_create r (err e) s =
    if errors_is harness_agent_already_exists e || errors_is agent_create_outcome_unknown e
    then leave_unknown r e s
    else fail_in_state r settled e s

unfoldable pub register_absent : Reconciler → Session → String → State → Registration × State
register_absent r session namespace s =
    let (answer, s') = create_harness_agent r session namespace s in record_create r answer s'

-- an agent with the identifier exists
unfoldable pub register_existing : Reconciler → Agent → Agent → State → Registration × State
unfolding fail_in_state record_registration
register_existing r expected observed s =
    if agent_owned_by_cr s.agent expected observed
    then record_registration r (trim_space observed.identifier) "" s
    else fail_in_state r outcome_unknown (agent_registration_conflict s.agent) s

-- the lookup, and what follows it
unfoldable pub register_looked_up : Reconciler → Session → String → State → Registration × State
unfolding record_event failed_registration
register_looked_up r session namespace s =
    let expected = harness_agent_for s.agent s.agent.spec.identifier in
    let answer = r.env.lookup s.trace session expected in
    let s' = record_event (looked_up expected answer) s in
    elim answer [
      | err e ↦ (failed_registration (some e), s')
      | ok result ↦
          if result.exists
          then register_existing r expected result.agent s'
          else register_absent r session namespace s'
    ]

-- the switch on the creation state
unfoldable pub register_in_state :
    CreationState → Reconciler → Session → String → State → Registration × State
unfolding failed_registration
register_in_state settled r session namespace s =
    let (status_err, s') = set_agent_creation_state r pending s in
    elim status_err [
      | some e ↦ (failed_registration (some e), s')
      | none ↦ register_looked_up r session namespace s'
    ]
register_in_state (other_state text) r session namespace s =
    (failed_registration (some (plain ("unsupported Agent creation state " <> quote text))), s)
register_in_state _ r session namespace s = register_looked_up r session namespace s

-- `reconcileAgentRegistration`
unfoldable pub reconcile_agent_registration :
    Reconciler → Session → String → State → Registration × State
unfolding failed_registration
reconcile_agent_registration r session namespace s =
    if trim_space s.agent.metadata.uid == ""
    then (
      failed_registration (
          some (
            plain (
              "cannot register Harness Agent for " <> s.agent.metadata.namespace <> "/"
              <> s.agent.metadata.name <> ": Kubernetes resource UID is empty"))),
      s,
    )
    else register_in_state s.agent.status.creation_state r session namespace s

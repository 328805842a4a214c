-- ===== src/Agent/Reconcile.antt =====
-- The entry point: `Reconcile` and `reconcileReady` of internal/resource/agent/reconciler.go.
pub mod Owners
pub mod Laws
pub mod Tokens
use harness_gitops_agent_ope.Common.{
  ℕ, String, Bool, true, false, ◌&&◌, ◌||◌, not, Option, none, some, List, [], ◌∷◌, Result, ok, err,
  if◌then◌else◌,
}
use harness_gitops_agent_ope.Text.{◌==◌, ◌<>◌, trim_space, quote}
use harness_gitops_agent_ope.Api.{
  ResourceOwnership, external, ObjectKey, HarnessGitopsAgent, HarnessGitopsProjectMapping, is_zero,
}
use harness_gitops_agent_ope.Harness.Errors.{
  Error, kube, sentinel, wrap, harness_agent_ownership_unknown,
}
use harness_gitops_agent_ope.Harness.Session.{Session}
use harness_gitops_agent_ope.Agent.Identity.{
  harness_agent_for, agent_creation_is_uncertain, agent_identifier_for_status,
}
use harness_gitops_agent_ope.Agent.Environment.{
  Reconciler, State, Outcome, Trace, got_agent, resolved_token, record_event,
}
use harness_gitops_agent_ope.Agent.Status.{with_status, update_status, session_for_agent}
use harness_gitops_agent_ope.Agent.Health.{agent_health_result, refresh_agent_health}
use harness_gitops_agent_ope.Agent.Registration.{finished, registered, reconcile_agent_registration}
use harness_gitops_agent_ope.Agent.Token.{
  token_secret_name, token_secret_exists, upsert_agent_token_secret,
}
use harness_gitops_agent_ope.Agent.Finalizers.{ensure_finalizer}
use harness_gitops_agent_ope.Agent.Deletion.{failing, is_managed, reconcile_deletion}

-- `Status.AgentOwnership == OwnershipExternal`
unfoldable pub is_external_owner : ResourceOwnership → Bool
is_external_owner external = true
is_external_owner _ = false

-- record the existing agent as external
unfoldable pub record_external : Reconciler → String → State → Outcome × State
record_external r identifier s =
    let (status_err, s') = update_status r (
      with_status
        (record (s.agent.status) { agent_identifier = identifier; agent_ownership = external })
        s) in
    elim status_err [ some e ↦ (failing e, s') | none ↦ refresh_agent_health r identifier s' ]

-- the branch of `existingAgentMode`
unfoldable pub reconcile_existing : Reconciler → String → State → Outcome × State
unfolding is_external_owner record_external
reconcile_existing r identifier s =
    if not (s.agent.status.agent_identifier == identifier)
      || not (is_external_owner s.agent.status.agent_ownership)
    then record_external r identifier s
    else refresh_agent_health r identifier s

-- the token Secret that is not ready, and the health
unfoldable pub write_token : Reconciler → Session → String → String → State → Outcome × State
unfolding record_event
write_token r session identifier initial_token s =
    let expected = harness_agent_for s.agent identifier in
    let s' = record_event (resolved_token expected initial_token) s in
    elim (r.env.resolve_token s.trace session expected initial_token) [
      | err e ↦ (failing e, s')
      | ok token ↦
          let (secret_err, s'') =
            upsert_agent_token_secret r (token_secret_name s.agent) token s' in
          elim secret_err [
            | some e ↦ (failing e, s'')
            | none ↦ agent_health_result r (ok session) identifier s''
          ]
    ]

unfoldable pub finish_ready :
    Reconciler → Session → Bool → String → String → State → Outcome × State
unfolding write_token
finish_ready r session token_secret_ready identifier initial_token s =
    if token_secret_ready
    then agent_health_result r (ok session) identifier s
    else write_token r session identifier initial_token s

unfoldable pub reconcile_unregistered :
    Reconciler → Session → String → Bool → State → Outcome × State
reconcile_unregistered r session namespace token_secret_ready s =
    let (registration, s') = reconcile_agent_registration r session namespace s in
    elim registration [
      | finished outcome ↦ (outcome, s')
      | registered identifier initial_token ↦
          finish_ready r session token_secret_ready identifier initial_token s'
    ]

-- the registration, if it is required
unfoldable pub reconcile_with_session :
    Reconciler → Session → String → Bool → Bool → State → Outcome × State
reconcile_with_session r session namespace registration_required token_secret_ready s =
    if registration_required
    then reconcile_unregistered r session namespace token_secret_ready s
    else finish_ready r session token_secret_ready s.agent.status.agent_identifier "" s

-- the guards behind the read of the token Secret, and the session
unfoldable pub reconcile_unready : Reconciler → String → Bool → State → Outcome × State
reconcile_unready r namespace token_secret_ready s =
    let agent_done = not (s.agent.status.agent_identifier == "") in
    let registration_required =
      agent_creation_is_uncertain s.agent.status.creation_state || not agent_done in
    if agent_done && token_secret_ready && not registration_required
    then refresh_agent_health r s.agent.status.agent_identifier s
    else if not registration_required
        && agent_done
        && not token_secret_ready
        && not (is_managed s.agent.status.agent_ownership)
    then (
      failing (
          wrap "" (sentinel harness_agent_ownership_unknown) (
            " for "
            <> quote (agent_identifier_for_status s.agent)
            <> "; create a replacement HarnessGitopsAgent CR with "
            <> "spec.existingAgentIdentifier set to reference the running Agent")),
      s,
    )
    else let (answer, s') = session_for_agent r s in
      elim answer [
        | err e ↦ (failing e, s')
        | ok session ↦
            reconcile_with_session r session namespace registration_required token_secret_ready s'
      ]

-- `reconcileReady`
unfoldable pub reconcile_ready : Reconciler → String → String → State → Outcome × State
reconcile_ready r namespace existing_agent_identifier s =
    if not (existing_agent_identifier == "")
    then reconcile_existing r existing_agent_identifier s
    else let (token_secret_ready, s') = token_secret_exists r (token_secret_name s.agent) s in
      reconcile_unready r namespace token_secret_ready s'

-- the resource that was read
unfoldable pub reconcile_agent : Reconciler → String → State → Outcome × State
reconcile_agent r namespace s =
    let existing_agent_identifier = trim_space s.agent.spec.existing_agent_identifier in
    elim (s.agent.metadata.deletion_timestamp) [
      | some time ↦ reconcile_deletion r (not (existing_agent_identifier == "")) s
      | none ↦
          let (finished_early, s') = ensure_finalizer r s in
          elim finished_early [
            | some outcome ↦ (outcome, s')
            | none ↦ reconcile_ready r namespace existing_agent_identifier s'
          ]
    ]

-- `Reconcile`
unfoldable pub reconcile : Reconciler → ObjectKey → Trace → Outcome × Trace
reconcile r key trace =
    let answer = r.env.get_agent trace key in
    let trace' = got_agent key answer ∷ trace in
    elim answer [
      | err e ↦ (
        record { requeue_after = 0; error = if e.not_found then none else some (kube e) },
        trace',
      )
      | ok agent ↦
          let (outcome, s) =
            reconcile_agent r key.namespace (record { agent = agent; trace = trace' }) in
          (outcome, s.trace)
    ]

-- `projectMappingToAgentRequests`, of a mapping
unfoldable pub project_mapping_to_agent_requests : HarnessGitopsProjectMapping → List ObjectKey
project_mapping_to_agent_requests mapping =
    let agent_name = trim_space mapping.spec.agent_ref_name in
    if agent_name == ""
    then []
    else record { namespace = mapping.metadata.namespace; name = agent_name } ∷ []

-- ===== src/Agent/Deletion.antt =====
-- The deletion of an Agent resource: `reconcileDeletion` of internal/resource/agent/finalizer.go, and
-- `lookupAgentOwnedByCR` of registration.go.
pub mod Laws
pub mod Proof
pub mod Tokens
use harness_gitops_agent_ope.Common.{
  String, Bool, true, false, ◌&&◌, ◌||◌, Option, none, some, Result, ok, err, if◌then◌else◌,
}
use harness_gitops_agent_ope.Text.{◌==◌, ◌<>◌, trim_space}
use harness_gitops_agent_ope.Api.{
  ResourceOwnership, unowned, managed, adopted, external, other_owner, HarnessGitopsAgent,
}
use harness_gitops_agent_ope.Harness.Errors.{Error, plain, errors_is, agent_not_found, verdict_of}
use harness_gitops_agent_ope.Harness.Replies.{is_absent}
use harness_gitops_agent_ope.Harness.Session.{Session}
use harness_gitops_agent_ope.Agent.Identity.{
  harness_agent_for, agent_owned_by_cr, agent_creation_is_uncertain,
}
use harness_gitops_agent_ope.Agent.Environment.{
  Reconciler, State, Outcome, looked_up, deleted, record_event,
}
use harness_gitops_agent_ope.Agent.Status.{session_for_agent}
use harness_gitops_agent_ope.Agent.Finalizers.{harness_agent_finalizer, remove_finalizer}
use harness_gitops_agent_ope.Agent.Dependencies.{reconcile_mapping_dependencies_for_deletion}

abbrev pub failing : Error → Outcome
failing e = record { requeue_after = 0; error = some e }

-- `lookupAgentOwnedByCR`
unfoldable pub lookup_agent_owned_by_cr : Reconciler → Session → State → Result Error Bool × State
unfolding record_event
lookup_agent_owned_by_cr r session s =
    let expected = harness_agent_for s.agent s.agent.spec.identifier in
    let answer = r.env.lookup s.trace session expected in
    let s' = record_event (looked_up expected answer) s in
    elim answer [
      | err e ↦ (err e, s')
      | ok result ↦ (ok (result.exists && agent_owned_by_cr s.agent expected result.agent), s')
    ]

-- `isAgentNotFound` of sdk.go
unfoldable pub is_agent_not_found : Error → Bool
is_agent_not_found e = errors_is agent_not_found e || is_absent (verdict_of (some e))

-- the identifier of the delete call
unfoldable pub deletion_identifier : HarnessGitopsAgent → String
deletion_identifier cr =
    if trim_space cr.spec.identifier == ""
    then trim_space cr.status.agent_identifier
    else trim_space cr.spec.identifier

-- the delete call, and what follows it
unfoldable pub delete_agent : Reconciler → Session → State → Outcome × State
unfolding record_event deletion_identifier
delete_agent r session s =
    let identifier = deletion_identifier s.agent in
    if identifier == ""
    then (
      failing (
          plain (
            "cannot delete Harness agent: no identifier in status or spec for "
            <> s.agent.metadata.namespace <> "/" <> s.agent.metadata.name)),
      s,
    )
    else let target = harness_agent_for s.agent identifier in
      let s' = record_event (deleted target) s in
      elim (r.env.delete s.trace session target) [
        | none ↦ remove_finalizer r s'
        | some e ↦ if is_agent_not_found e then remove_finalizer r s' else (failing e, s')
      ]

-- `Status.AgentOwnership == OwnershipManaged`
unfoldable pub is_managed : ResourceOwnership → Bool
is_managed managed = true
is_managed _ = false

-- the session and the proof of ownership; a proof comes with its session, so that the code's second
-- call of SessionForAgent is not reached
unfoldable pub delete_verified : Reconciler → State → Outcome × State
delete_verified r s =
    let (answer, s') = session_for_agent r s in
    elim answer [
      | err e ↦ (failing e, s')
      | ok session ↦
          let (proof, s'') = lookup_agent_owned_by_cr r session s' in
          elim proof [
            | err e ↦ (failing e, s'')
            | ok authorized ↦
                if authorized then delete_agent r session s'' else remove_finalizer r s''
          ]
    ]

-- no mapping refers to the agent
unfoldable pub delete_independent : Reconciler → Bool → State → Outcome × State
unfolding is_managed
delete_independent r existing_agent_mode s =
    if existing_agent_mode
    then remove_finalizer r s
    else if is_managed s.agent.status.agent_ownership
        || agent_creation_is_uncertain s.agent.status.creation_state
    then delete_verified r s
    else remove_finalizer r s

-- the mappings that refer to the agent
unfoldable pub delete_finalized : Reconciler → Bool → State → Outcome × State
delete_finalized r existing_agent_mode s =
    let (waiting, s') = reconcile_mapping_dependencies_for_deletion r s in
    elim waiting [
      | some outcome ↦ (outcome, s')
      | none ↦ delete_independent r existing_agent_mode s'
    ]

-- `reconcileDeletion`
unfoldable pub reconcile_deletion : Reconciler → Bool → State → Outcome × State
reconcile_deletion r existing_agent_mode s =
    if r.env.contains_finalizer s.agent.metadata.finalizers harness_agent_finalizer
    then delete_finalized r existing_agent_mode s
    else (record { requeue_after = 0; error = none }, s)

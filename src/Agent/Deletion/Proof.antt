-- ===== src/Agent/Deletion/Proof.antt =====
-- What stands behind the delete call of an Agent.
use mathlib.Core.Path.{subst}
use harness_gitops_agent_ope.Common.{
  Bool, true, false, ◌||◌, ◌≡◌, ◌≢◌, inl, inr, refl, none, List, [], ◌∷◌, ok, arith, Result-cases,
}
use harness_gitops_agent_ope.Api.{HarnessGitopsProjectMapping}
use harness_gitops_agent_ope.Harness.Session.{Session}
use harness_gitops_agent_ope.Agent.Types.{AgentLookupResult}
use harness_gitops_agent_ope.Agent.Identity.{
  harness_agent_for, agent_owned_by_cr, agent_creation_is_uncertain,
}
use harness_gitops_agent_ope.Agent.Environment.{Reconciler, State, listed_mappings}
use harness_gitops_agent_ope.Agent.Calls.{deletes, deletes_measure, weaken}
use harness_gitops_agent_ope.Agent.Calls.Quiet.{
  quiet-session_for_agent, quiet-remove_finalizer, quiet-dependencies,
}
use harness_gitops_agent_ope.Agent.Status.{session_for_agent}
use harness_gitops_agent_ope.Agent.Dependencies.{
  references_of, wait_unless_empty, reconcile_mapping_dependencies_for_deletion,
}
use harness_gitops_agent_ope.Agent.Deletion.{
  is_managed, lookup_agent_owned_by_cr, delete_verified, delete_independent, delete_finalized,
  reconcile_deletion,
}
use harness_gitops_agent_ope.Agent.Deletion.Laws.{quiet-lookup_owned}

-- the state behind a list call that found no reference to the agent
abbrev pub after_list : State → State
after_list s = record s { trace = listed_mappings s.agent.metadata.namespace ∷ s.trace }

-- What a delete call of an Agent needs.
pub record Proven (r : Reconciler) (existing : Bool) (s : State) : Type 0 where
  -- the resource does not refer to an existing agent, and records its own or an open creation
  pub own : existing ≡ false
  pub recorded :
      (is_managed s.agent.status.agent_ownership
        || agent_creation_is_uncertain s.agent.status.creation_state)
      ≡ true
  -- the API reader listed the mappings of the namespace, and none refers to the Agent
  pub items : List HarnessGitopsProjectMapping
  pub listed : r.env.list_mappings s.trace s.agent.metadata.namespace ≡ ok items
  pub unreferenced : references_of s.agent items ≡ []
  -- a session, and a lookup right behind it that found an agent with the UID tag and the whole tuple
  -- of the resource
  pub session : Session
  pub opened : (session_for_agent r (after_list s)).0 ≡ ok session
  pub result : AgentLookupResult
  pub found :
      r.env.lookup
        (session_for_agent r (after_list s)).1.trace
        session
        (harness_agent_for s.agent s.agent.spec.identifier)
      ≡ ok result
  pub exists : result.exists ≡ true
  pub owned :
      agent_owned_by_cr s.agent (harness_agent_for s.agent s.agent.spec.identifier) result.agent
      ≡ true

module _ (r : Reconciler) where
  lookup_owned-ok :
      (session : Session) (s : State)
      → (lookup_agent_owned_by_cr r session s).0 ≡ ok true
      → (result : AgentLookupResult) × (r.env.lookup s.trace session
            (harness_agent_for s.agent s.agent.spec.identifier)
          ≡ ok result)
        × (result.exists ≡ true)
        × (agent_owned_by_cr s.agent
              (harness_agent_for s.agent s.agent.spec.identifier)
              result.agent
            ≡ true)
  unfolding lookup_agent_owned_by_cr
  lookup_owned-ok session s proven =
      elim (Result-cases
        (r.env.lookup s.trace session (harness_agent_for s.agent s.agent.spec.identifier))) [
          | inl (e, failed) ↦ absurd (ground arith)
          | inr (result, read) ↦ (result, read, ground arith, ground arith)
        ]

  verified-proof :
      (s : State)
      → deletes (delete_verified r s).1.trace ≢ deletes s.trace
      → (session : Session) × ((session_for_agent r s).0 ≡ ok session)
        × ((lookup_agent_owned_by_cr r session (session_for_agent r s).1).0 ≡ ok true)
  unfolding delete_verified
  verified-proof s calls = elim (Result-cases (session_for_agent r s).0) [
    | inl (e, failed) ↦ absurd (grind (arith, quiet-session_for_agent (weaken deletes_measure) r s))
    | inr (session, opened) ↦ (
      session,
      opened,
      grind (
        arith,
        quiet-session_for_agent (weaken deletes_measure) r s,
        quiet-lookup_owned (weaken deletes_measure) r session (session_for_agent r s).1,
        quiet-remove_finalizer deletes_measure r,
      ),
    )
  ]

  verified-lookup :
      (s : State) (session : Session)
      → (lookup_agent_owned_by_cr r session (session_for_agent r s).1).0 ≡ ok true
      → (result : AgentLookupResult) × (r.env.lookup
            (session_for_agent r s).1.trace
            session
            (harness_agent_for s.agent s.agent.spec.identifier)
          ≡ ok result)
        × (result.exists ≡ true)
        × (agent_owned_by_cr s.agent
              (harness_agent_for s.agent s.agent.spec.identifier)
              result.agent
            ≡ true)
  unfolding session_for_agent
  verified-lookup s session proven = lookup_owned-ok session (session_for_agent r s).1 proven

  wait_unless_empty-none :
      (references : List HarnessGitopsProjectMapping) (s : State)
      → (wait_unless_empty r references s).0 ≡ none
      → (references ≡ []) × ((wait_unless_empty r references s).1 ≡ s)
  unfolding wait_unless_empty
  wait_unless_empty-none [] s done = (refl, refl)
  wait_unless_empty-none (m ∷ references) s done = absurd (ground arith)

  pub dependencies-none :
      (s : State)
      → (reconcile_mapping_dependencies_for_deletion r s).0 ≡ none
      → (items : List HarnessGitopsProjectMapping) × (r.env.list_mappings s.trace
            s.agent.metadata.namespace
          ≡ ok items)
        × (references_of s.agent items ≡ [])
        × ((reconcile_mapping_dependencies_for_deletion r s).1 ≡ after_list s)
  unfolding reconcile_mapping_dependencies_for_deletion
  dependencies-none s done =
      elim (Result-cases (r.env.list_mappings s.trace s.agent.metadata.namespace)) [
        | inl (e, failed) ↦ absurd (ground arith)
        | inr (items, read) ↦
            let facts = wait_unless_empty-none (references_of s.agent items) (after_list s) in
            (items, read, ground (arith, facts), ground (arith, facts))
      ]

  independent-proof :
      (existing : Bool) (s : State)
      → deletes (delete_independent r existing s).1.trace ≢ deletes s.trace
      → (existing ≡ false)
        × ((is_managed s.agent.status.agent_ownership
              || agent_creation_is_uncertain s.agent.status.creation_state)
            ≡ true)
        × (deletes (delete_verified r s).1.trace ≢ deletes s.trace)
  unfolding delete_independent
  independent-proof existing s calls = (
    grind (arith, quiet-remove_finalizer deletes_measure r s),
    grind (arith, quiet-remove_finalizer deletes_measure r s),
    λ same. calls (grind (arith, quiet-remove_finalizer deletes_measure r s)),
  )

  finalized-proof :
      (existing : Bool) (s : State)
      → deletes (delete_finalized r existing s).1.trace ≢ deletes s.trace
      → ((reconcile_mapping_dependencies_for_deletion r s).0 ≡ none)
        × (deletes
              (delete_independent r existing
                (reconcile_mapping_dependencies_for_deletion r s).1).1.trace
            ≢ deletes (reconcile_mapping_dependencies_for_deletion r s).1.trace)
  unfolding delete_finalized
  finalized-proof existing s calls = (
    grind (arith, quiet-dependencies deletes_measure r s),
    λ same. calls (grind (arith, quiet-dependencies deletes_measure r s)),
  )

  -- A deletion of an Agent resource calls delete only if the handler is not in its mode for an existing
  -- agent, the status records managed ownership or an open creation, no mapping that the API reader
  -- lists in the resource's namespace refers to it, and the lookup right behind the read of the session
  -- found an agent with the resource's UID tag and whole tuple.
  pub agent_delete-needs-proof :
      (existing : Bool) (s : State)
      → deletes (reconcile_deletion r existing s).1.trace ≢ deletes s.trace
      → Proven r existing s
  unfolding reconcile_deletion
  agent_delete-needs-proof existing s calls =
      let (waits, independent) = finalized-proof existing s (λ same. calls (ground arith)) in
      let (items, listed, unreferenced, after) = dependencies-none s waits in
      let (own, recorded, verified) = independent-proof existing (after_list s) (
        subst
          (λ (st : State). deletes (delete_independent r existing st).1.trace ≢ deletes st.trace)
          after independent) in
      let (session, opened, proven) = verified-proof (after_list s) verified in
      let (result, found, exists, owned) = verified-lookup (after_list s) session proven in
      record {
        own = own;
        recorded = recorded;
        items = items;
        listed = listed;
        unreferenced = unreferenced;
        session = session;
        opened = opened;
        result = result;
        found = found;
        exists = exists;
        owned = owned;
      }

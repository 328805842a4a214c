-- ===== src/Agent/Registration/Guard.antt =====
-- When a registration calls create.
use harness_gitops_agent_ope.Common.{
  String, true, false, ◌≡◌, ◌≤◌, ◌+◌, refl, none, ◌∷◌, ok, arith, inl, inr, Result-cases,
  Option-cases,
}
use harness_gitops_agent_ope.Text.{◌==◌, trim_space}
use harness_gitops_agent_ope.Text.Trim.{trim_space_idem}
use harness_gitops_agent_ope.Api.{CreationState, settled, pending, other_state}
use harness_gitops_agent_ope.Harness.Session.{Session}
use harness_gitops_agent_ope.Agent.Types.{AgentLookupResult}
use harness_gitops_agent_ope.Agent.Identity.{harness_agent_for, uid_tag}
use harness_gitops_agent_ope.Agent.Environment.{Reconciler, State, Trace, looked_up}
use harness_gitops_agent_ope.Agent.Calls.{
  unguarded, unguarded_measure, weaken, is_tagged, persisted_state, is_persisted_uncertain,
  is_guarded,
}
use harness_gitops_agent_ope.Agent.Calls.Quiet.{
  quiet-set_creation_state, quiet-record_create, quiet-register_existing,
}
use harness_gitops_agent_ope.Agent.Calls.Bounds.{IsSynced}
use harness_gitops_agent_ope.Agent.Status.{set_agent_creation_state}
use harness_gitops_agent_ope.Agent.Registration.Laws.{
  expected_agent, after_lookup, quiet-after_lookup,
}
use harness_gitops_agent_ope.Agent.Registration.{
  create_agent_request, create_harness_agent, register_absent, register_looked_up,
  register_in_state, reconcile_agent_registration,
}

uid_tag-create_agent_request :
    (namespace : String) (s : State)
    → uid_tag (create_agent_request namespace s).agent ≡ trim_space s.agent.metadata.uid
unfolding uid_tag create_agent_request
uid_tag-create_agent_request namespace s = refl

create_agent_request-is_tagged :
    (namespace : String) (s : State)
    → (trim_space s.agent.metadata.uid == "") ≡ false
    → is_tagged
        (harness_agent_for s.agent s.agent.spec.identifier)
        (create_agent_request namespace s)
      ≡ true
unfolding is_tagged create_agent_request
create_agent_request-is_tagged namespace s has_uid =
    ground (arith, uid_tag-create_agent_request namespace s, trim_space_idem s.agent.metadata.uid)

module _ (r : Reconciler) where
  unguarded-create :
      (session : Session) (namespace : String) (s : State) (result : AgentLookupResult) (t : Trace)
      → (trim_space s.agent.metadata.uid == "") ≡ false
      → result.exists ≡ false
      → is_persisted_uncertain (persisted_state t) ≡ true
      → s.trace ≡ looked_up (harness_agent_for s.agent s.agent.spec.identifier) (ok result) ∷ t
      → unguarded (create_harness_agent r session namespace s).1.trace ≡ unguarded s.trace
  unfolding create_harness_agent unguarded is_guarded
  unguarded-create session namespace s result t has_uid free uncertain last =
      ground (arith, create_agent_request-is_tagged namespace s)

  unguarded-absent :
      (session : Session) (namespace : String) (s : State) (result : AgentLookupResult) (t : Trace)
      → (trim_space s.agent.metadata.uid == "") ≡ false
      → result.exists ≡ false
      → is_persisted_uncertain (persisted_state t) ≡ true
      → s.trace ≡ looked_up (harness_agent_for s.agent s.agent.spec.identifier) (ok result) ∷ t
      → unguarded (register_absent r session namespace s).1.trace ≡ unguarded s.trace
  unfolding register_absent
  unguarded-absent session namespace s result t has_uid free uncertain last = grind (
    arith,
    unguarded-create session namespace s result t,
    quiet-record_create (weaken unguarded_measure),
  )

  unguarded-looked_up :
      (session : Session) (namespace : String) (s : State)
      → (trim_space s.agent.metadata.uid == "") ≡ false
      → is_persisted_uncertain (persisted_state s.trace) ≡ true
      → unguarded (register_looked_up r session namespace s).1.trace ≡ unguarded s.trace
  unfolding register_looked_up
  unguarded-looked_up session namespace s has_uid uncertain =
      elim (Result-cases (r.env.lookup s.trace session (expected_agent s))) [
        | inl (e, failed) ↦ grind (arith, quiet-after_lookup (weaken unguarded_measure) r session s)
        | inr (result, read) ↦ grind (
          arith,
          quiet-after_lookup (weaken unguarded_measure) r session s,
          quiet-register_existing (weaken unguarded_measure) r (expected_agent s),
          unguarded-absent session namespace (after_lookup r session s) result s.trace,
        )
      ]

  -- What a creation state that was set leaves in memory, the API is known to hold.
  pub set_creation_state-pending :
      (s : State)
      → IsSynced s
      → (set_agent_creation_state r pending s).0 ≡ none
      → (is_persisted_uncertain (persisted_state (set_agent_creation_state r pending s).1.trace)
          ≡ true)
        × ((set_agent_creation_state r pending s).1.agent.metadata ≡ s.agent.metadata)
  unfolding set_agent_creation_state persisted_state is_persisted_uncertain
  set_creation_state-pending s synced done = ground arith

  unguarded-settled :
      (session : Session) (namespace : String) (s : State)
      → (trim_space s.agent.metadata.uid == "") ≡ false
      → IsSynced s
      → unguarded (register_in_state settled r session namespace s).1.trace ≡ unguarded s.trace
  unfolding register_in_state
  unguarded-settled session namespace s has_uid synced =
      elim (Option-cases (set_agent_creation_state r pending s).0) [
        | inl done ↦
            let (uncertain, same) = set_creation_state-pending s synced done in
            grind (
              arith,
              quiet-set_creation_state (weaken unguarded_measure) r pending s,
              unguarded-looked_up session namespace (set_agent_creation_state r pending s).1,
            )
        | inr (e, failed) ↦
            grind (arith, quiet-set_creation_state (weaken unguarded_measure) r pending s)
      ]

  unguarded-in_state :
      (state : CreationState) (session : Session) (namespace : String) (s : State)
      → (trim_space s.agent.metadata.uid == "") ≡ false
      → IsSynced s
      → s.agent.status.creation_state ≡ state
      → unguarded (register_in_state state r session namespace s).1.trace ≡ unguarded s.trace
  unfolding register_in_state is_persisted_uncertain
  unguarded-in_state settled session namespace s has_uid synced same =
      unguarded-settled session namespace s has_uid synced
  unguarded-in_state (other_state text) session namespace s has_uid synced same = refl
  unguarded-in_state _ session namespace s has_uid synced same =
      grind (arith, unguarded-looked_up session namespace s)

  pub registration-unguarded :
      (session : Session) (namespace : String) (s : State)
      → IsSynced s
      → unguarded (reconcile_agent_registration r session namespace s).1.trace
        ≤ unguarded s.trace + 0
  unfolding reconcile_agent_registration
  registration-unguarded session namespace s synced =
      grind (arith, unguarded-in_state s.agent.status.creation_state session namespace s)

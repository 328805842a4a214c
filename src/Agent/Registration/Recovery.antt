-- ===== src/Agent/Registration/Recovery.antt =====
-- The registration after a create call that Harness carried out and whose answer was lost.
use harness_gitops_agent_ope.Common.{String, true, false, ◌≡◌, ◌∙◌, refl, none, some, ok, arith}
use harness_gitops_agent_ope.Text.{◌==◌, trim_space}
use harness_gitops_agent_ope.Text.Trim.{trim_space_idem}
use harness_gitops_agent_ope.Api.{settled}
use harness_gitops_agent_ope.Harness.Session.{Session}
use harness_gitops_agent_ope.Agent.Types.{AgentLookupResult}
use harness_gitops_agent_ope.Agent.Identity.{
  harness_agent_for, agent_owned_by_cr, agent_creation_is_uncertain,
}
use harness_gitops_agent_ope.Agent.Identity.Laws.{tagged, tagged-agent_owned_by_cr}
use harness_gitops_agent_ope.Agent.Environment.{Reconciler, State}
use harness_gitops_agent_ope.Agent.Status.{with_status, update_status}
use harness_gitops_agent_ope.Agent.Calls.{posts, persisted_state}
use harness_gitops_agent_ope.Agent.Registration.{
  registered, owned_status, record_registration, create_agent_request, register_existing,
  register_looked_up, register_in_state, reconcile_agent_registration,
}
use harness_gitops_agent_ope.Agent.Registration.Laws.{expected_agent, after_lookup}

module _ (r : Reconciler) where
  request-eq-tagged :
      (namespace : String) (s : State) → (create_agent_request namespace s).agent ≡ tagged s.agent
  unfolding create_agent_request
  request-eq-tagged namespace s = refl

  owned-after_lookup :
      (session : Session) (s : State) (result : AgentLookupResult)
      → result.agent ≡ tagged s.agent
      → (trim_space s.agent.metadata.uid == "") ≡ false
      → (trim_space s.agent.spec.identifier == "") ≡ false
      → (agent_owned_by_cr s.agent (expected_agent s) result.agent ≡ true)
        × (trim_space result.agent.identifier ≡ trim_space s.agent.spec.identifier)
  unfolding harness_agent_for
  owned-after_lookup session s result echo has_uid has_id = (
    rw echo (tagged-agent_owned_by_cr s.agent has_uid has_id),
    rw echo (trim_space_idem s.agent.spec.identifier),
  )

  -- the state that a recovery sends
  abbrev pub recovered : Session → State → State
  recovered session s =
      with_status (owned_status (trim_space s.agent.spec.identifier) s.agent.status)
        (after_lookup r session s)

  looked_up-eq-record :
      (session : Session) (namespace : String) (s : State) (result : AgentLookupResult)
      → r.env.lookup s.trace session (expected_agent s) ≡ ok result
      → result.exists ≡ true
      → agent_owned_by_cr s.agent (expected_agent s) result.agent ≡ true
      → register_looked_up r session namespace s
        ≡ record_registration r (trim_space result.agent.identifier) "" (after_lookup r session s)
  unfolding register_looked_up register_existing
  looked_up-eq-record session namespace s result read exists owned = ground arith

  registration-eq-looked_up :
      (session : Session) (namespace : String) (s : State)
      → agent_creation_is_uncertain s.agent.status.creation_state ≡ true
      → (trim_space s.agent.metadata.uid == "") ≡ false
      → reconcile_agent_registration r session namespace s
        ≡ register_looked_up r session namespace s
  unfolding reconcile_agent_registration register_in_state agent_creation_is_uncertain
  registration-eq-looked_up session namespace s uncertain has_uid = ground arith

  record-recovered :
      (session : Session) (s : State)
      → r.env.update_status (after_lookup r session s).trace (recovered session s).agent ≡ none
      → (let after =
            record_registration r
              (trim_space s.agent.spec.identifier)
              ""
              (after_lookup r session s) in
          (after.0 ≡ registered (trim_space s.agent.spec.identifier) "")
          × (posts after.1.trace ≡ posts s.trace)
          × (after.1.agent ≡ (recovered session s).agent)
          × (persisted_state after.1.trace ≡ some settled))
  unfolding record_registration update_status owned_status posts persisted_state
  record-recovered session s done = ground arith

  -- A create call that Harness carried out and whose answer was lost is recovered: with an uncertain
  -- creation state, if the lookup finds the agent that the create request sent, a registration makes no
  -- create call, and if its status write is accepted, it ends registered with the identifier and no
  -- token, with managed ownership and no creation state in the status in memory and in the API.
  pub lost_create-is_recovered :
      (session : Session) (namespace : String) (s : State) (result : AgentLookupResult)
      → agent_creation_is_uncertain s.agent.status.creation_state ≡ true
      → (trim_space s.agent.metadata.uid == "") ≡ false
      → (trim_space s.agent.spec.identifier == "") ≡ false
      → r.env.lookup s.trace session (expected_agent s) ≡ ok result
      → result.exists ≡ true
      → result.agent ≡ (create_agent_request namespace s).agent
      → r.env.update_status (after_lookup r session s).trace (recovered session s).agent ≡ none
      → (let after = reconcile_agent_registration r session namespace s in
          (after.0 ≡ registered (trim_space s.agent.spec.identifier) "")
          × (posts after.1.trace ≡ posts s.trace)
          × (after.1.agent ≡ (recovered session s).agent)
          × (persisted_state after.1.trace ≡ some settled))
  lost_create-is_recovered session namespace s result uncertain has_uid has_id read exists echo
        done =
      let (owned, same) =
        owned-after_lookup session s result (echo ∙ request-eq-tagged namespace s) has_uid has_id in
      rw (registration-eq-looked_up session namespace s uncertain has_uid) (
        rw (looked_up-eq-record session namespace s result read exists owned)
          (rw same (record-recovered session s done)))

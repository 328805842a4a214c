-- ===== src/Agent/Reconcile/Owners.antt =====
-- The ownership in the status across the parts of a reconcile of an Agent.
use harness_gitops_agent_ope.Common.{String, Bool, true, false, ◌≡◌, refl, Result, ok, err, arith}
use harness_gitops_agent_ope.Api.{
  ConditionStatus, managed, ResourceOwnership, CreationState, settled,
}
use harness_gitops_agent_ope.Harness.Session.{Session}
use harness_gitops_agent_ope.Harness.Errors.{Error}
use harness_gitops_agent_ope.Agent.Types.{Agent}
use harness_gitops_agent_ope.Agent.Environment.{Reconciler, State}
use harness_gitops_agent_ope.Agent.Status.{update_status, set_agent_condition}
use harness_gitops_agent_ope.Agent.Health.{
  read_agent_readiness, publish_agent_health, agent_health_result,
}
use harness_gitops_agent_ope.Agent.Registration.{
  Registration, finished, registered, record_registration, record_create, register_existing,
  register_absent, register_looked_up, register_in_state, reconcile_agent_registration,
  create_harness_agent,
}
use harness_gitops_agent_ope.Agent.Token.{upsert_agent_token_secret}
use harness_gitops_agent_ope.Agent.Reconcile.{write_token, finish_ready}

abbrev pub owner_of : State → ResourceOwnership
owner_of s = s.agent.status.agent_ownership

abbrev is_registered : Registration → Bool
is_registered (registered identifier token) = true
is_registered (finished outcome) = false

abbrev LeavesManaged : Registration × State → Type 0
LeavesManaged answer = is_registered answer.0 ≡ true → owner_of answer.1 ≡ managed

module _ (r : Reconciler) where
  owner-set_condition :
      (type : String) (status : ConditionStatus) (reason message : String) (s : State)
      → owner_of (set_agent_condition r type status reason message s).1 ≡ owner_of s
  unfolding set_agent_condition
  owner-set_condition type status reason message s = ground arith

  owner-readiness :
      (session : Result Error Session) (identifier : String) (s : State)
      → owner_of (read_agent_readiness r session identifier s).1 ≡ owner_of s
  unfolding read_agent_readiness
  owner-readiness session identifier s = ground arith

  owner-publish :
      (session : Result Error Session) (identifier : String) (s : State)
      → owner_of (publish_agent_health r session identifier s).1 ≡ owner_of s
  unfolding publish_agent_health
  owner-publish session identifier s = grind (arith, owner-set_condition, owner-readiness)

  owner-health_result :
      (session : Result Error Session) (identifier : String) (s : State)
      → owner_of (agent_health_result r session identifier s).1 ≡ owner_of s
  unfolding agent_health_result
  owner-health_result session identifier s = grind (arith, owner-publish)

  owner-write_token :
      (session : Session) (identifier token : String) (s : State)
      → owner_of (write_token r session identifier token s).1 ≡ owner_of s
  unfolding write_token upsert_agent_token_secret
  owner-write_token session identifier token s = grind (arith, owner-health_result)

  pub owner-finish_ready :
      (session : Session) (ready : Bool) (identifier token : String) (s : State)
      → owner_of (finish_ready r session ready identifier token s).1 ≡ owner_of s
  unfolding finish_ready
  owner-finish_ready session ready identifier token s =
      grind (arith, owner-health_result, owner-write_token)

  agent-update_status : (s : State) → (update_status r s).1.agent ≡ s.agent
  unfolding update_status
  agent-update_status s = refl

  -- A registration with no early end leaves managed ownership in memory.

  managed-record_registration :
      (identifier token : String) (s : State)
      → LeavesManaged (record_registration r identifier token s)
  unfolding record_registration
  managed-record_registration identifier token s done = grind (arith, agent-update_status)

  managed-record_create :
      (answer : Result Error (String × String)) (s : State)
      → LeavesManaged (record_create r answer s)
  unfolding record_create
  managed-record_create (ok (identifier, token)) s done = grind (arith, agent-update_status)
  managed-record_create (err e) s done = grind arith

  managed-existing :
      (expected observed : Agent) (s : State)
      → LeavesManaged (register_existing r expected observed s)
  unfolding register_existing
  managed-existing expected observed s done = grind (arith, agent-update_status)

  managed-absent :
      (session : Session) (namespace : String) (s : State)
      → LeavesManaged (register_absent r session namespace s)
  unfolding register_absent
  managed-absent session namespace s done =
      let (answer, s') = create_harness_agent r session namespace s in
      managed-record_create answer s' done

  managed-looked_up :
      (session : Session) (namespace : String) (s : State)
      → LeavesManaged (register_looked_up r session namespace s)
  unfolding register_looked_up
  managed-looked_up session namespace s done = grind (arith, managed-absent, managed-existing)

  managed-in_state :
      (state : CreationState) (session : Session) (namespace : String) (s : State)
      → LeavesManaged (register_in_state state r session namespace s)
  unfolding register_in_state
  managed-in_state settled session namespace s done = grind (arith, managed-looked_up)
  managed-in_state _ session namespace s done = grind (arith, managed-looked_up)

  pub managed-registration :
      (session : Session) (namespace : String) (s : State)
      → LeavesManaged (reconcile_agent_registration r session namespace s)
  unfolding reconcile_agent_registration
  managed-registration session namespace s done = grind (arith, managed-in_state)

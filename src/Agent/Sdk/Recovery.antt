-- ===== src/Agent/Sdk/Recovery.antt =====
-- A registration through the adapter after a create call whose answer was lost: the composition of
-- internal/resource/agent/registration.go with the lookup of sdk.go.
use harness_gitops_agent_ope.Common.{String, true, false, ◌≡◌, ◌∙◌, ap, refl, none, some, ok}
use harness_gitops_agent_ope.Text.{◌==◌, trim_space}
use harness_gitops_agent_ope.Text.Trim.{trim_space_idem}
use harness_gitops_agent_ope.Api.{settled}
use harness_gitops_agent_ope.Harness.Answers.{first_of}
use harness_gitops_agent_ope.Harness.Identifiers.{scoped_identifier_candidates}
use harness_gitops_agent_ope.Harness.Session.{Session}
use harness_gitops_agent_ope.Agent.Types.{Agent}
use harness_gitops_agent_ope.Agent.Identity.{harness_agent_for, agent_creation_is_uncertain}
use harness_gitops_agent_ope.Agent.Environment.{Reconciler, State, Trace}
use harness_gitops_agent_ope.Agent.Calls.{posts, persisted_state}
use harness_gitops_agent_ope.Agent.Registration.{
  registered, create_agent_request, reconcile_agent_registration,
}
use harness_gitops_agent_ope.Agent.Registration.Laws.{expected_agent, after_lookup}
use harness_gitops_agent_ope.Agent.Registration.Recovery.{recovered, lost_create-is_recovered}
use harness_gitops_agent_ope.Agent.Client.{V1Agent, AgentClient, Calls}
use harness_gitops_agent_ope.Agent.Sdk.{create_body, sdk_lookup}
use harness_gitops_agent_ope.Agent.Sdk.Directory.{Directory, Serves, lookup_of, lookup-eq-lookup_of}
use harness_gitops_agent_ope.Agent.Sdk.RoundTrip.{Echoes, agent_from_sdk-create_body}

-- The lookups of a reconciler are the adapter's, in a session.
pub record LooksUpBySdk (r : Reconciler) (c : AgentClient) (session : Session) : Type 0 where
  pub calls_of : Trace → Calls
  pub looks_up :
      (t : Trace) (agent : Agent)
      → r.env.lookup t session agent ≡ (sdk_lookup c session agent (calls_of t)).0

module _ (r : Reconciler) (c : AgentClient) (session : Session) (directory : Directory)
    (uses : LooksUpBySdk r c session) (serves : Serves c session directory) where
  lookup-kept :
      (s : State) (kept : V1Agent)
      → (trim_space s.agent.spec.identifier == "") ≡ false
      → first_of directory
          (scoped_identifier_candidates (expected_agent s).scope (expected_agent s).identifier)
        ≡ some kept
      → r.env.lookup s.trace session (expected_agent s) ≡ ok (lookup_of (some kept))
  unfolding harness_agent_for
  lookup-kept s kept has_id first =
      uses.looks_up s.trace (expected_agent s)
      ∙ lookup-eq-lookup_of c session directory serves (expected_agent s) (uses.calls_of s.trace)
          (rw (trim_space_idem s.agent.spec.identifier) has_id)
      ∙ ap (λ found. ok (lookup_of found)) first

  -- If the lookups go through the adapter, and Harness answers from a directory in which the first
  -- candidate of the identifier that it has is an agent with what the body of the create call said,
  -- then a registration with an uncertain creation state makes no create call, and if its status write
  -- is accepted, it ends registered, with managed ownership and no creation state in the status in
  -- memory and in the API.
  pub kept_agent-is_recovered :
      (namespace : String) (s : State) (kept : V1Agent)
      → agent_creation_is_uncertain s.agent.status.creation_state ≡ true
      → (trim_space s.agent.metadata.uid == "") ≡ false
      → (trim_space s.agent.spec.identifier == "") ≡ false
      → first_of directory
          (scoped_identifier_candidates (expected_agent s).scope (expected_agent s).identifier)
        ≡ some kept
      → Echoes (create_body (create_agent_request namespace s)) kept
      → r.env.update_status (after_lookup r session s).trace (recovered r session s).agent ≡ none
      → (let after = reconcile_agent_registration r session namespace s in
          (after.0 ≡ registered (trim_space s.agent.spec.identifier) "")
          × (posts after.1.trace ≡ posts s.trace)
          × (after.1.agent ≡ (recovered r session s).agent)
          × (persisted_state after.1.trace ≡ some settled))
  unfolding lookup_of
  kept_agent-is_recovered namespace s kept uncertain has_uid has_id first echoes done =
      lost_create-is_recovered r session namespace s (lookup_of (some kept)) uncertain has_uid
        has_id (lookup-kept s kept has_id first) refl
        (agent_from_sdk-create_body namespace s kept echoes) done

-- ===== src/Agent/Reconcile/Tokens.antt =====
-- Which reconciles read, write or renew the token of an agent.
use harness_gitops_agent_ope.Common.{
  String, Bool, true, false, ◌≡◌, ◌<◌, ◌⊎◌, refl, none, ok, err, arith,
}
use harness_gitops_agent_ope.Text.{◌==◌, trim_space, eq_iff}
use harness_gitops_agent_ope.Api.{managed}
use harness_gitops_agent_ope.Harness.Session.{Session}
use harness_gitops_agent_ope.Harness.Errors.{KubeError}
use harness_gitops_agent_ope.Agent.Identity.{agent_creation_is_uncertain}
use harness_gitops_agent_ope.Agent.Environment.{Reconciler, State}
use harness_gitops_agent_ope.Agent.Calls.{tokens, tokens_measure, resolutions, resolutions_measure}
use harness_gitops_agent_ope.Agent.Calls.Bounds.{ensure_finalizer-none}
use harness_gitops_agent_ope.Agent.Finalizers.{harness_agent_finalizer, ensure_finalizer}
use harness_gitops_agent_ope.Agent.Deletion.Tokens.{tokens-deletion, tokens-ensure_finalizer}
use harness_gitops_agent_ope.Agent.Calls.Quiet.{
  quiet-session_for_agent, quiet-refresh, quiet-token_secret_exists, quiet-existing,
  quiet-health_result,
}
use harness_gitops_agent_ope.Agent.Status.{session_for_agent}
use harness_gitops_agent_ope.Agent.Registration.Laws.{registration-tokens}
use harness_gitops_agent_ope.Agent.Token.{
  holds_token, token_secret_name, token_secret_exists, upsert_agent_token_secret,
}
use harness_gitops_agent_ope.Agent.Deletion.{is_managed}
use harness_gitops_agent_ope.Agent.Reconcile.{
  write_token, finish_ready, reconcile_unregistered, reconcile_with_session, reconcile_unready,
  reconcile_ready, reconcile_agent,
}
use harness_gitops_agent_ope.Agent.Reconcile.Owners.{
  managed-registration, owner-finish_ready, owner_of,
}

module _ (r : Reconciler) where
  tokens-finish_ready :
      (session : Session) (identifier token : String) (s : State)
      → tokens (finish_ready r session true identifier token s).1.trace ≡ tokens s.trace
  unfolding finish_ready
  tokens-finish_ready session identifier token s = grind (arith, quiet-health_result tokens_measure)

  tokens-unregistered :
      (session : Session) (namespace : String) (ready : Bool) (s : State)
      → (let after = reconcile_unregistered r session namespace ready s in
          tokens s.trace < tokens after.1.trace → (ready ≡ false) × (owner_of after.1 ≡ managed))
  unfolding reconcile_unregistered
  tokens-unregistered session namespace ready s more = grind (
    arith,
    managed-registration r session namespace s,
    registration-tokens r session namespace s,
    owner-finish_ready,
    tokens-finish_ready,
  )

  tokens-with_session :
      (session : Session) (namespace : String) (required ready : Bool) (s : State)
      → (let after = reconcile_with_session r session namespace required ready s in
          tokens s.trace < tokens after.1.trace
          → (ready ≡ false)
            × ((required ≡ false) ⊎ (owner_of after.1 ≡ managed))
            × ((required ≡ true) ⊎ (owner_of after.1 ≡ owner_of s)))
  unfolding reconcile_with_session
  tokens-with_session session namespace required ready s more = grind (
    arith,
    tokens-unregistered session namespace ready s,
    owner-finish_ready,
    tokens-finish_ready,
  )

  agent-session_for_agent : (s : State) → (session_for_agent r s).1.agent ≡ s.agent
  unfolding session_for_agent
  agent-session_for_agent s = refl

  tokens-unready :
      (namespace : String) (ready : Bool) (s : State)
      → (let after = reconcile_unready r namespace ready s in
          tokens s.trace < tokens after.1.trace → (ready ≡ false) × (owner_of after.1 ≡ managed))
  unfolding reconcile_unready is_managed
  tokens-unready namespace ready s more = grind (
    arith,
    tokens-with_session,
    agent-session_for_agent s,
    quiet-session_for_agent tokens_measure r s,
    quiet-refresh tokens_measure r,
  )

  ready-needs-ownership :
      (namespace existing : String) (s : State)
      → tokens s.trace < tokens (reconcile_ready r namespace existing s).1.trace
      → ((existing == "") ≡ true)
        × ((token_secret_exists r (token_secret_name s.agent) s).0 ≡ false)
        × (owner_of (reconcile_ready r namespace existing s).1 ≡ managed)
  unfolding reconcile_ready
  ready-needs-ownership namespace existing s more = grind (
    arith,
    tokens-unready,
    quiet-existing tokens_measure r,
    quiet-token_secret_exists tokens_measure r,
  )

  token_secret_exists-eq :
      (name : String) (s : State)
      → (token_secret_exists r name s).0
        ≡ holds_token (
            r.env.read_secret s.trace
              (record { namespace = s.agent.metadata.namespace; name = name }))
  unfolding token_secret_exists
  token_secret_exists-eq name s = refl

  -- A reconcile of an Agent in which a token is read or renewed in Harness or written to a Secret is of
  -- a resource that is not being deleted and whose spec names no existing agent; the read of the token
  -- Secret failed or the Secret held no token; and it ends with managed ownership in the status in
  -- memory.
  pub token_call-needs-ownership :
      (namespace : String) (s : State)
      → tokens s.trace < tokens (reconcile_agent r namespace s).1.trace
      → (s.agent.metadata.deletion_timestamp ≡ none)
        × ((trim_space s.agent.spec.existing_agent_identifier == "") ≡ true)
        × (holds_token (
              r.env.read_secret s.trace (record {
                namespace = s.agent.metadata.namespace;
                name = token_secret_name s.agent;
              }))
            ≡ false)
        × (owner_of (reconcile_agent r namespace s).1 ≡ managed)
  unfolding reconcile_agent
  token_call-needs-ownership namespace s more = grind (
    arith,
    ready-needs-ownership namespace (trim_space s.agent.spec.existing_agent_identifier) s,
    token_secret_exists-eq (token_secret_name s.agent) s,
    tokens-deletion r,
    tokens-ensure_finalizer r s,
    ensure_finalizer-none r s,
  )

  write_token-resolves :
      (session : Session) (identifier token : String) (s : State)
      → resolutions s.trace < resolutions (write_token r session identifier token s).1.trace
  unfolding write_token resolutions upsert_agent_token_secret
  write_token-resolves session identifier token s =
      grind (arith, quiet-health_result resolutions_measure r)

  unready-resolves :
      (namespace : String) (s : State) (session : Session)
      → (s.agent.status.agent_identifier == "") ≡ false
      → agent_creation_is_uncertain s.agent.status.creation_state ≡ false
      → s.agent.status.agent_ownership ≡ managed
      → (session_for_agent r s).0 ≡ ok session
      → resolutions s.trace < resolutions (reconcile_unready r namespace false s).1.trace
  unfolding reconcile_unready reconcile_with_session finish_ready is_managed
  unready-resolves namespace s session known certain owned opened = grind (
    arith,
    write_token-resolves session (session_for_agent r s).1.agent.status.agent_identifier ""
        (session_for_agent r s).1,
    quiet-session_for_agent resolutions_measure r s,
  )

  token_read-failed :
      (name : String) (s : State) (e : KubeError)
      → r.env.read_secret s.trace (record { namespace = s.agent.metadata.namespace; name = name })
        ≡ err e
      → ((token_secret_exists r name s).0 ≡ false)
        × ((token_secret_exists r name s).1.agent ≡ s.agent)
  unfolding token_secret_exists
  token_read-failed name s e failed = ground arith

  ready-resolves :
      (namespace : String) (s : State) (e : KubeError) (session : Session)
      → r.env.read_secret s.trace
          (record { namespace = s.agent.metadata.namespace; name = token_secret_name s.agent })
        ≡ err e
      → (s.agent.status.agent_identifier == "") ≡ false
      → agent_creation_is_uncertain s.agent.status.creation_state ≡ false
      → s.agent.status.agent_ownership ≡ managed
      → (session_for_agent r (token_secret_exists r (token_secret_name s.agent) s).1).0 ≡ ok session
      → resolutions s.trace < resolutions (reconcile_ready r namespace "" s).1.trace
  unfolding reconcile_ready
  ready-resolves namespace s e session failed known certain owned opened =
      let name = token_secret_name s.agent in
      grind (
        arith,
        token_read-failed name s e failed,
        unready-resolves namespace (token_secret_exists r name s).1 session,
        quiet-token_secret_exists resolutions_measure r name s,
      )

  agent-eq-ready :
      (namespace : String) (s : State)
      → s.agent.metadata.deletion_timestamp ≡ none
      → r.env.contains_finalizer s.agent.metadata.finalizers harness_agent_finalizer ≡ true
      → (trim_space s.agent.spec.existing_agent_identifier == "") ≡ true
      → reconcile_agent r namespace s ≡ reconcile_ready r namespace "" s
  unfolding reconcile_agent ensure_finalizer
  agent-eq-ready namespace s active has own =
      ground (arith, eq_iff (trim_space s.agent.spec.existing_agent_identifier) "")

  -- Whatever the error of the read of the token Secret is, also one that says nothing about whether the
  -- Secret is there, a reconcile of an Agent with the finalizer that is not being deleted, names no
  -- existing agent, and is registered with managed ownership calls Harness for the token again, if its
  -- session opens.
  pub failed_token_read-resolves :
      (namespace : String) (s : State) (e : KubeError) (session : Session)
      → s.agent.metadata.deletion_timestamp ≡ none
      → r.env.contains_finalizer s.agent.metadata.finalizers harness_agent_finalizer ≡ true
      → (trim_space s.agent.spec.existing_agent_identifier == "") ≡ true
      → r.env.read_secret s.trace
          (record { namespace = s.agent.metadata.namespace; name = token_secret_name s.agent })
        ≡ err e
      → (s.agent.status.agent_identifier == "") ≡ false
      → agent_creation_is_uncertain s.agent.status.creation_state ≡ false
      → s.agent.status.agent_ownership ≡ managed
      → (session_for_agent r (token_secret_exists r (token_secret_name s.agent) s).1).0 ≡ ok session
      → resolutions s.trace < resolutions (reconcile_agent r namespace s).1.trace
  failed_token_read-resolves namespace s e session active has own failed known certain owned
        opened =
      rw (agent-eq-ready namespace s active has own)
        (ready-resolves namespace s e session failed known certain owned opened)

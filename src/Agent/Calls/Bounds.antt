-- ===== src/Agent/Calls/Bounds.antt =====
-- What a registration and a cleanup do to a measure of the trace, a whole reconcile does.
use harness_gitops_agent_ope.Common.{
  ℕ, String, Bool, ◌≡◌, ◌≤◌, ◌+◌, none, some, ◌∷◌, Result, ok, refl, arith,
}
use harness_gitops_agent_ope.Api.{ObjectKey, HarnessGitopsAgent}
use harness_gitops_agent_ope.Harness.Session.{Session}
use harness_gitops_agent_ope.Harness.Errors.{KubeError}
use harness_gitops_agent_ope.Agent.Environment.{Reconciler, State, Trace, got_agent}
use harness_gitops_agent_ope.Agent.Calls.{CallMeasure, weaken, persisted_state}
use harness_gitops_agent_ope.Agent.Calls.Quiet.{
  quiet-session_for_agent, quiet-refresh, quiet-token_secret_exists, quiet-ensure_finalizer,
  quiet-existing, quiet-finish_ready,
}
use harness_gitops_agent_ope.Agent.Registration.{reconcile_agent_registration}
use harness_gitops_agent_ope.Agent.Finalizers.{ensure_finalizer}
use harness_gitops_agent_ope.Agent.Status.{session_for_agent}
use harness_gitops_agent_ope.Agent.Token.{token_secret_exists}
use harness_gitops_agent_ope.Agent.Deletion.{reconcile_deletion}
use harness_gitops_agent_ope.Agent.Reconcile.{
  reconcile_unregistered, reconcile_with_session, reconcile_unready, reconcile_ready,
  reconcile_agent, reconcile,
}

-- The creation state in memory is the one that the API is known to hold.
abbrev pub IsSynced : State → Type 0
IsSynced s = persisted_state s.trace ≡ some s.agent.status.creation_state

IsSynced-got :
    (key : ObjectKey) (answer : Result KubeError HarnessGitopsAgent) (t : Trace)
    (agent : HarnessGitopsAgent)
    → answer ≡ ok agent
    → persisted_state (got_agent key answer ∷ t) ≡ some agent.status.creation_state
unfolding persisted_state
IsSynced-got key answer t agent read = ground arith

pub ensure_finalizer-none :
    (r : Reconciler) (s : State) → (ensure_finalizer r s).0 ≡ none → (ensure_finalizer r s).1 ≡ s
unfolding ensure_finalizer
ensure_finalizer-none r s done = ground arith

module _ (μ : CallMeasure) (r : Reconciler) (slack : ℕ)
    (bounded : (session : Session) (namespace : String) (s : State)
      → IsSynced s
      → μ.of (reconcile_agent_registration r session namespace s).1.trace
        ≤ μ.of s.trace + slack) where
  bound-unregistered :
      (session : Session) (namespace : String) (ready : Bool) (s : State)
      → IsSynced s
      → μ.of (reconcile_unregistered r session namespace ready s).1.trace ≤ μ.of s.trace + slack
  unfolding reconcile_unregistered
  bound-unregistered session namespace ready s synced =
      grind (arith, bounded session namespace s, quiet-finish_ready)

  bound-with_session :
      (session : Session) (namespace : String) (required ready : Bool) (s : State)
      → IsSynced s
      → μ.of (reconcile_with_session r session namespace required ready s).1.trace
        ≤ μ.of s.trace + slack
  unfolding reconcile_with_session
  bound-with_session session namespace required ready s synced =
      grind (arith, bound-unregistered session namespace ready s, quiet-finish_ready)

  IsSynced-session_for_agent : (s : State) → IsSynced s → IsSynced (session_for_agent r s).1
  unfolding session_for_agent persisted_state
  IsSynced-session_for_agent s synced = synced

  session_for_agent-agent : (s : State) → (session_for_agent r s).1.agent ≡ s.agent
  unfolding session_for_agent
  session_for_agent-agent s = refl

  bound-unready :
      (namespace : String) (ready : Bool) (s : State)
      → IsSynced s
      → μ.of (reconcile_unready r namespace ready s).1.trace ≤ μ.of s.trace + slack
  unfolding reconcile_unready
  bound-unready namespace ready s synced = grind (
    arith,
    bound-with_session,
    IsSynced-session_for_agent s,
    quiet-session_for_agent (weaken μ) r,
    quiet-refresh (weaken μ) r,
  )

  IsSynced-token_secret_exists :
      (name : String) (s : State) → IsSynced s → IsSynced (token_secret_exists r name s).1
  unfolding token_secret_exists persisted_state
  IsSynced-token_secret_exists name s synced = synced

  bound-ready :
      (namespace existing : String) (s : State)
      → IsSynced s
      → μ.of (reconcile_ready r namespace existing s).1.trace ≤ μ.of s.trace + slack
  unfolding reconcile_ready
  bound-ready namespace existing s synced = grind (
    arith,
    bound-unready,
    IsSynced-token_secret_exists,
    quiet-token_secret_exists (weaken μ) r,
    quiet-existing (weaken μ) r,
  )

  -- a resource that is not being deleted
  pub bound-active :
      (namespace : String) (s : State)
      → IsSynced s
      → s.agent.metadata.deletion_timestamp ≡ none
      → μ.of (reconcile_agent r namespace s).1.trace ≤ μ.of s.trace + slack
  unfolding reconcile_agent
  bound-active namespace s synced active =
      grind (arith, bound-ready, ensure_finalizer-none r s, quiet-ensure_finalizer)

  pub bound-agent :
      ((existing : Bool) (s : State)
        → μ.of (reconcile_deletion r existing s).1.trace ≤ μ.of s.trace + slack)
      → (namespace : String) (s : State) → IsSynced s
      → μ.of (reconcile_agent r namespace s).1.trace ≤ μ.of s.trace + slack
  unfolding reconcile_agent
  bound-agent cleanup namespace s synced =
      grind (arith, bound-ready, ensure_finalizer-none r s, quiet-ensure_finalizer)

  pub bound-reconcile :
      ((existing : Bool) (s : State)
        → μ.of (reconcile_deletion r existing s).1.trace ≤ μ.of s.trace + slack)
      → (key : ObjectKey) (trace : Trace) → μ.of (reconcile r key trace).1 ≤ μ.of trace + slack
  unfolding reconcile
  bound-reconcile cleanup key trace =
      grind
        (arith, bound-agent cleanup, IsSynced-got key (r.env.get_agent trace key) trace, μ.steady)

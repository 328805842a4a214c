-- ===== src/Agent/Deletion/Laws.antt =====
-- The calls of the deletion of an Agent.
use harness_gitops_agent_ope.Common.{ℕ, Bool, ◌≡◌, ◌≤◌, ◌+◌, ◌∷◌, arith}
use harness_gitops_agent_ope.Harness.Session.{Session}
use harness_gitops_agent_ope.Agent.Types.{Agent}
use harness_gitops_agent_ope.Agent.Environment.{Reconciler, State, deleted}
use harness_gitops_agent_ope.Agent.Calls.{
  Measure, CallMeasure, weaken, posts, posts_measure, deletes, deletes_measure, unguarded,
  unguarded_measure,
}
use harness_gitops_agent_ope.Agent.Calls.Quiet.{
  quiet-session_for_agent, quiet-remove_finalizer, quiet-dependencies,
}
use harness_gitops_agent_ope.Agent.Deletion.{
  lookup_agent_owned_by_cr, delete_agent, delete_verified, delete_independent, delete_finalized,
  reconcile_deletion,
}

module _ (μ : Measure) (r : Reconciler) where
  pub quiet-lookup_owned :
      (session : Session) (s : State)
      → μ.of (lookup_agent_owned_by_cr r session s).1.trace ≡ μ.of s.trace
  unfolding lookup_agent_owned_by_cr
  quiet-lookup_owned session s = grind (arith, μ.quiet)

-- A measure that the delete call raises by `slack` at most, a deletion does.
module _ (μ : CallMeasure) (r : Reconciler) (slack : ℕ)
    (bounded : (target : Agent) (s : State)
      → μ.of (deleted target ∷ s.trace) ≤ μ.of s.trace + slack) where
  bound-delete :
      (session : Session) (s : State)
      → μ.of (delete_agent r session s).1.trace ≤ μ.of s.trace + slack
  unfolding delete_agent
  bound-delete session s = grind (arith, bounded, quiet-remove_finalizer)

  bound-verified : (s : State) → μ.of (delete_verified r s).1.trace ≤ μ.of s.trace + slack
  unfolding delete_verified
  bound-verified s = grind (
    arith,
    bound-delete,
    quiet-lookup_owned (weaken μ) r,
    quiet-session_for_agent (weaken μ) r,
    quiet-remove_finalizer,
  )

  bound-independent :
      (existing : Bool) (s : State)
      → μ.of (delete_independent r existing s).1.trace ≤ μ.of s.trace + slack
  unfolding delete_independent
  bound-independent existing s = grind (arith, bound-verified, quiet-remove_finalizer)

  bound-finalized :
      (existing : Bool) (s : State)
      → μ.of (delete_finalized r existing s).1.trace ≤ μ.of s.trace + slack
  unfolding delete_finalized
  bound-finalized existing s = grind (arith, bound-independent, quiet-dependencies)

  pub bound-deletion :
      (existing : Bool) (s : State)
      → μ.of (reconcile_deletion r existing s).1.trace ≤ μ.of s.trace + slack
  unfolding reconcile_deletion
  bound-deletion existing s = grind (arith, bound-finalized)

module _ (r : Reconciler) (existing : Bool) (s : State) where
  pub deletion-posts : posts (reconcile_deletion r existing s).1.trace ≤ posts s.trace + 0
  unfolding posts
  deletion-posts = bound-deletion posts_measure r 0 (λ target st. ground arith) existing s

  pub deletion-unguarded :
      unguarded (reconcile_deletion r existing s).1.trace ≤ unguarded s.trace + 0
  unfolding unguarded
  deletion-unguarded = bound-deletion unguarded_measure r 0 (λ target st. ground arith) existing s

  pub deletion-deletes : deletes (reconcile_deletion r existing s).1.trace ≤ deletes s.trace + 1
  unfolding deletes
  deletion-deletes = bound-deletion deletes_measure r 1 (λ target st. ground arith) existing s

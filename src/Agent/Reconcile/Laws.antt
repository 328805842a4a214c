-- ===== src/Agent/Reconcile/Laws.antt =====
-- How many calls to Harness a reconcile of an Agent makes, and in which order.
use harness_gitops_agent_ope.Common.{suc, ◌≡◌, ◌≤◌, ◌+◌, List, [], ◌∷◌, arith}
use harness_gitops_agent_ope.Api.{ObjectKey}
use harness_gitops_agent_ope.Agent.Environment.{Reconciler, Trace}
use harness_gitops_agent_ope.Agent.Calls.{
  posts, deletes, unguarded, posts_measure, deletes_measure, unguarded_measure,
}
use harness_gitops_agent_ope.Agent.Calls.Bounds.{bound-reconcile}
use harness_gitops_agent_ope.Agent.Registration.Laws.{registration-posts, registration-deletes}
use harness_gitops_agent_ope.Agent.Registration.Guard.{registration-unguarded}
use harness_gitops_agent_ope.Agent.Deletion.Laws.{
  deletion-posts, deletion-deletes, deletion-unguarded,
}
use harness_gitops_agent_ope.Agent.Reconcile.{reconcile}

module _ (r : Reconciler) where
  reconcile-posts :
      (key : ObjectKey) (trace : Trace) → posts (reconcile r key trace).1 ≤ posts trace + 1
  reconcile-posts =
      bound-reconcile posts_measure r 1 (λ session ns s synced. registration-posts r session ns s)
        (λ existing s. ground (arith, deletion-posts r existing s))

  reconcile-deletes :
      (key : ObjectKey) (trace : Trace) → deletes (reconcile r key trace).1 ≤ deletes trace + 1
  reconcile-deletes =
      bound-reconcile deletes_measure r 1
        (λ session ns s synced. ground (arith, registration-deletes r session ns s))
        (λ existing s. deletion-deletes r existing s)

  -- One reconcile of an Agent makes at most one create and at most one delete call, whatever the
  -- resource and the answers are.
  pub agent_reconcile-calls :
      (key : ObjectKey) (trace : Trace)
      → (posts (reconcile r key trace).1 ≤ suc (posts trace))
        × (deletes (reconcile r key trace).1 ≤ suc (deletes trace))
  agent_reconcile-calls key trace =
      (ground (arith, reconcile-posts key trace), ground (arith, reconcile-deletes key trace))

  reconcile-unguarded :
      (key : ObjectKey) (trace : Trace) → unguarded (reconcile r key trace).1 ≤ unguarded trace + 0
  reconcile-unguarded =
      bound-reconcile unguarded_measure r 0 (registration-unguarded r) (deletion-unguarded r)

  -- one reconcile after the other, in the order of the list
  unfoldable pub reconcile_all : List ObjectKey → Trace → Trace
  reconcile_all [] trace = trace
  reconcile_all (key ∷ keys) trace = reconcile_all keys (reconcile r key trace).1

  reconcile_all-unguarded :
      (keys : List ObjectKey) (trace : Trace)
      → unguarded (reconcile_all keys trace) ≤ unguarded trace
  unfolding reconcile_all
  reconcile_all-unguarded [] trace = ground arith
  reconcile_all-unguarded (key ∷ keys) trace =
      ground (
        arith,
        reconcile_all-unguarded keys (reconcile r key trace).1,
        reconcile-unguarded key trace,
      )

  -- In any sequence of reconciles of Agents, of any resources and with any answers, every create call
  -- has a UID tag that is not blank and comes right after a lookup of the same agent that found none,
  -- at a time at which the last read or accepted status write holds an uncertain creation state.
  pub agent_create-is_guarded : (keys : List ObjectKey) → unguarded (reconcile_all keys []) ≡ 0
  unfolding unguarded
  agent_create-is_guarded keys = ground (arith, reconcile_all-unguarded keys [])

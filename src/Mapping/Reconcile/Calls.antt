-- ===== src/Mapping/Reconcile/Calls.antt =====
-- How many calls to Harness a reconcile makes, and in which order.
use harness_gitops_agent_ope.Common.{
  suc, refl, ◌≡◌, ◌≤◌, ◌+◌, true, false, List, [], ◌∷◌, ok, arith,
}
use harness_gitops_agent_ope.Api.{ObjectKey, HarnessGitopsProjectMapping, is_zero}
use harness_gitops_agent_ope.Harness.Session.{Session}
use harness_gitops_agent_ope.Mapping.Types.{ProjectMappingRequest}
use harness_gitops_agent_ope.Mapping.Environment.{Reconciler, State, Trace}
use harness_gitops_agent_ope.Mapping.Calls.{
  posts, deletes, unrecorded, posts_measure, deletes_measure, unrecorded_measure,
}
use harness_gitops_agent_ope.Mapping.Create.{reconcile_harness_mapping}
use harness_gitops_agent_ope.Mapping.Create.Laws.{harness-unrecorded, harness-deletes}
use harness_gitops_agent_ope.Mapping.Create.Guards.{harness-posts}
use harness_gitops_agent_ope.Mapping.Finalize.{finalize_project_mapping}
use harness_gitops_agent_ope.Mapping.Finalize.Laws.{finalize-keeps}
use harness_gitops_agent_ope.Mapping.Finalize.Bounds.{finalize-bounded}
use harness_gitops_agent_ope.Mapping.Reconcile.{reconcile_mapping, reconcile}
use harness_gitops_agent_ope.Mapping.Reconcile.Laws.{bound-mapping-active, bound-reconcile}

module _ (r : Reconciler) where
  finalize-posts : (s : State) → posts (finalize_project_mapping r s).1.trace ≡ posts s.trace
  unfolding posts
  finalize-posts s = finalize-keeps posts_measure r (λ request id s. refl) s

  finalize-unrecorded :
      (s : State) → unrecorded (finalize_project_mapping r s).1.trace ≡ unrecorded s.trace
  unfolding unrecorded
  finalize-unrecorded s = finalize-keeps unrecorded_measure r (λ request id s. refl) s

  harness-deletes_slack :
      (session : Session) (request : ProjectMappingRequest) (s : State)
      → deletes (reconcile_harness_mapping r session request s).1.trace ≤ deletes s.trace + 0
  harness-deletes_slack session request s = ground (arith, harness-deletes r session request s)

  harness-posts_slack :
      (session : Session) (request : ProjectMappingRequest) (s : State)
      → posts (reconcile_harness_mapping r session request s).1.trace ≤ posts s.trace + 1
  harness-posts_slack session request s = ground (arith, harness-posts r session request s)

  harness-unrecorded_slack :
      (session : Session) (request : ProjectMappingRequest) (s : State)
      → unrecorded (reconcile_harness_mapping r session request s).1.trace ≤ unrecorded s.trace + 0
  harness-unrecorded_slack session request s =
      ground (arith, harness-unrecorded r session request s)

  -- One reconcile makes at most one create call, whatever the resource and the answers are.
  pub reconcile-posts :
      (key : ObjectKey) (trace : Trace) → posts (reconcile r key trace).1 ≤ suc (posts trace)
  reconcile-posts key trace = ground (
    arith,
    bound-reconcile posts_measure r 1 harness-posts_slack (λ s. ground (arith, finalize-posts s))
        key trace,
  )

  finalize-deletes_slack :
      (s : State) → deletes (finalize_project_mapping r s).1.trace ≤ deletes s.trace + 1
  unfolding deletes
  finalize-deletes_slack s =
      ground (arith, finalize-bounded deletes_measure r (λ request id state. ground arith) s)

  harness-deletes_slack_one :
      (session : Session) (request : ProjectMappingRequest) (s : State)
      → deletes (reconcile_harness_mapping r session request s).1.trace ≤ deletes s.trace + 1
  harness-deletes_slack_one session request s = ground (arith, harness-deletes r session request s)

  -- One reconcile makes at most one delete call, whatever the resource and the answers are.
  pub reconcile-deletes :
      (key : ObjectKey) (trace : Trace) → deletes (reconcile r key trace).1 ≤ suc (deletes trace)
  reconcile-deletes key trace = ground (
    arith,
    bound-reconcile deletes_measure r 1 harness-deletes_slack_one finalize-deletes_slack key trace,
  )

  reconcile-unrecorded :
      (key : ObjectKey) (trace : Trace) → unrecorded (reconcile r key trace).1 ≤ unrecorded trace
  reconcile-unrecorded key trace = ground (
    arith,
    bound-reconcile unrecorded_measure r 0 harness-unrecorded_slack
        (λ s. ground (arith, finalize-unrecorded s)) key trace,
  )

  -- one reconcile after the other, in the order of the list
  unfoldable pub reconcile_all : List ObjectKey → Trace → Trace
  reconcile_all [] trace = trace
  reconcile_all (key ∷ keys) trace = reconcile_all keys (reconcile r key trace).1

  reconcile_all-unrecorded :
      (keys : List ObjectKey) (trace : Trace)
      → unrecorded (reconcile_all keys trace) ≤ unrecorded trace
  unfolding reconcile_all
  reconcile_all-unrecorded [] trace = ground arith
  reconcile_all-unrecorded (key ∷ keys) trace = ground (
    arith,
    reconcile_all-unrecorded keys (reconcile r key trace).1,
    reconcile-unrecorded key trace,
  )

  -- In any sequence of reconciles, of any resources and with any answers, every create call comes
  -- right after a status write, accepted by the API, that holds Pending and the complete tuple of the
  -- request that is sent.
  pub intent-before-create : (keys : List ObjectKey) → unrecorded (reconcile_all keys []) ≡ 0
  unfolding unrecorded
  intent-before-create keys = ground (arith, reconcile_all-unrecorded keys [])

  -- A reconcile of a resource with no deletion timestamp makes no delete call.
  pub active-deletes :
      (key : ObjectKey) (trace : Trace) (mapping : HarnessGitopsProjectMapping)
      → r.env.get_mapping trace key ≡ ok mapping
      → is_zero mapping.metadata.deletion_timestamp ≡ true
      → deletes (reconcile r key trace).1 ≤ deletes trace
  unfolding reconcile
  active-deletes key trace mapping read active =
      grind (
        arith,
        bound-mapping-active deletes_measure r 0 harness-deletes_slack,
        deletes_measure.quiet,
      )

  -- A reconcile of a resource with a deletion timestamp makes no create call.
  pub deleting-posts :
      (key : ObjectKey) (trace : Trace) (mapping : HarnessGitopsProjectMapping)
      → r.env.get_mapping trace key ≡ ok mapping
      → is_zero mapping.metadata.deletion_timestamp ≡ false
      → posts (reconcile r key trace).1 ≡ posts trace
  unfolding reconcile reconcile_mapping
  deleting-posts key trace mapping read deleting =
      grind (arith, finalize-posts, posts_measure.quiet)

-- ===== src/Mapping/Reconcile/Laws.antt =====
-- The calls of a whole reconcile.
use harness_gitops_agent_ope.Common.{ℕ, String, ◌≡◌, ◌≤◌, ◌+◌, true, arith}
use harness_gitops_agent_ope.Api.{HarnessGitopsAgent, ObjectKey, Condition, is_zero}
use harness_gitops_agent_ope.Harness.Session.{Session}
use harness_gitops_agent_ope.Mapping.Types.{ProjectMappingRequest}
use harness_gitops_agent_ope.Mapping.Environment.{Reconciler, State, Trace}
use harness_gitops_agent_ope.Mapping.Quiet.{Measure}
use harness_gitops_agent_ope.Mapping.Ready.Laws.{
  quiet-set_ready_after, quiet-set_ready_failing, quiet-return_api_error, quiet-session_for_agent,
}
use harness_gitops_agent_ope.Mapping.Create.{reconcile_harness_mapping}
use harness_gitops_agent_ope.Mapping.Finalizers.{ensure_finalizer}
use harness_gitops_agent_ope.Mapping.Finalize.{finalize_project_mapping}
use harness_gitops_agent_ope.Mapping.Reconcile.{
  wait_for, reconcile_with_agent, reconcile_reported, reconcile_health, reconcile_app_project,
  reconcile_agent, reconcile_active, reconcile_mapping, reconcile,
}

-- What reconcile_harness_mapping does to a measure, up to a slack, a whole reconcile does.
module _ (μ : Measure) (r : Reconciler) (slack : ℕ)
    (bounded : (session : Session) (request : ProjectMappingRequest) (s : State)
      → μ.of (reconcile_harness_mapping r session request s).1.trace ≤ μ.of s.trace + slack) where
  bound-wait :
      (reason message : String) (s : State)
      → μ.of (wait_for r reason message s).1.trace ≡ μ.of s.trace
  unfolding wait_for
  bound-wait reason message s = grind (arith, quiet-set_ready_after)

  bound-with_agent :
      (agent : HarnessGitopsAgent) (request : ProjectMappingRequest) (s : State)
      → μ.of (reconcile_with_agent r agent request s).1.trace ≤ μ.of s.trace + slack
  unfolding reconcile_with_agent
  bound-with_agent agent request s =
      grind (arith, bounded, quiet-session_for_agent, quiet-return_api_error)

  bound-reported :
      (agent : HarnessGitopsAgent) (request : ProjectMappingRequest) (healthy : Condition)
      (s : State)
      → μ.of (reconcile_reported r agent request healthy s).1.trace ≤ μ.of s.trace + slack
  unfolding reconcile_reported
  bound-reported agent request healthy s = grind (arith, bound-with_agent, bound-wait)

  bound-health :
      (agent : HarnessGitopsAgent) (request : ProjectMappingRequest) (s : State)
      → μ.of (reconcile_health r agent request s).1.trace ≤ μ.of s.trace + slack
  unfolding reconcile_health
  bound-health agent request s = grind (arith, bound-reported, bound-wait)

  bound-app_project :
      (agent : HarnessGitopsAgent) (request : ProjectMappingRequest) (s : State)
      → μ.of (reconcile_app_project r agent request s).1.trace ≤ μ.of s.trace + slack
  unfolding reconcile_app_project
  bound-app_project agent request s =
      grind (arith, bound-health, bound-wait, quiet-return_api_error, μ.quiet)

  bound-agent :
      (agent : HarnessGitopsAgent) (s : State)
      → μ.of (reconcile_agent r agent s).1.trace ≤ μ.of s.trace + slack
  unfolding reconcile_agent
  bound-agent agent s = grind (arith, bound-app_project, bound-wait, quiet-set_ready_failing)

  bound-active : (s : State) → μ.of (reconcile_active r s).1.trace ≤ μ.of s.trace + slack
  unfolding reconcile_active
  bound-active s = grind (arith, bound-agent, bound-wait, quiet-return_api_error, μ.quiet)

  pub quiet-ensure_finalizer : (s : State) → μ.of (ensure_finalizer r s).1.trace ≡ μ.of s.trace
  unfolding ensure_finalizer
  quiet-ensure_finalizer s = grind (arith, μ.quiet)

  -- a resource that is not being deleted
  pub bound-mapping-active :
      (s : State)
      → is_zero s.mapping.metadata.deletion_timestamp ≡ true
      → μ.of (reconcile_mapping r s).1.trace ≤ μ.of s.trace + slack
  unfolding reconcile_mapping
  bound-mapping-active s active = grind (arith, bound-active, quiet-ensure_finalizer)

  pub bound-mapping :
      ((s : State) → μ.of (finalize_project_mapping r s).1.trace ≤ μ.of s.trace + slack)
      → (s : State) → μ.of (reconcile_mapping r s).1.trace ≤ μ.of s.trace + slack
  unfolding reconcile_mapping
  bound-mapping cleanup s = grind (arith, bound-active, quiet-ensure_finalizer)

  pub bound-reconcile :
      ((s : State) → μ.of (finalize_project_mapping r s).1.trace ≤ μ.of s.trace + slack)
      → (key : ObjectKey) (trace : Trace) → μ.of (reconcile r key trace).1 ≤ μ.of trace + slack
  unfolding reconcile
  bound-reconcile cleanup key trace = grind (arith, bound-mapping cleanup, μ.quiet)

-- ===== src/Mapping/Status/Reconcile.antt =====
-- Every status that a reconcile sends satisfies the rules of the CRD.
use harness_gitops_agent_ope.Common.{String, ◌≡◌, refl, true, [], ok, arith}
use harness_gitops_agent_ope.Api.{
  HarnessGitopsAgent, ObjectKey, Condition, HarnessGitopsProjectMapping,
}
use harness_gitops_agent_ope.Mapping.Types.{ProjectMappingRequest}
use harness_gitops_agent_ope.Mapping.Environment.{
  Reconciler, State, Trace, got_agent, got_app_project, record_event,
}
use harness_gitops_agent_ope.Mapping.Finalizers.{ensure_finalizer}
use harness_gitops_agent_ope.Mapping.Reconcile.{
  wait_for, reconcile_with_agent, reconcile_reported, reconcile_health, reconcile_app_project,
  reconcile_agent, reconcile_active, reconcile_mapping, reconcile,
}
use harness_gitops_agent_ope.Mapping.Status.{is_valid_status, valid_state, valid_writes}
use harness_gitops_agent_ope.Mapping.Status.Laws.{
  valid-set_ready_after, valid-set_ready_failing, valid-return_api_error, valid-session_for_agent,
  status-valid,
}
use harness_gitops_agent_ope.Mapping.Status.Create.{valid-harness}
use harness_gitops_agent_ope.Mapping.Status.Finalize.{valid-finalize}

module _ (s : State) (valid : valid_state s ≡ true) where
  valid-got_agent : (key : ObjectKey) → valid_state (record_event (got_agent key) s) ≡ true
  unfolding valid_state record_event
  valid-got_agent key = valid

  valid-got_app_project :
      (namespace name : String)
      → valid_state (record_event (got_app_project namespace name) s) ≡ true
  unfolding valid_state record_event
  valid-got_app_project namespace name = valid

  valid-writes : valid_writes s.trace ≡ true
  unfolding valid_state
  valid-writes = ground arith

module _ (r : Reconciler) where
  valid-wait :
      (reason message : String) (s : State)
      → valid_state s ≡ true
      → valid_state (wait_for r reason message s).1 ≡ true
  unfolding wait_for
  valid-wait reason message s valid = grind (arith, valid-set_ready_after, status-valid)

  valid-with_agent :
      (agent : HarnessGitopsAgent) (request : ProjectMappingRequest) (s : State)
      → valid_state s ≡ true
      → valid_state (reconcile_with_agent r agent request s).1 ≡ true
  unfolding reconcile_with_agent
  valid-with_agent agent request s valid =
      grind (arith, valid-session_for_agent, valid-return_api_error, valid-harness)

  valid-reported :
      (agent : HarnessGitopsAgent) (request : ProjectMappingRequest) (healthy : Condition)
      (s : State)
      → valid_state s ≡ true
      → valid_state (reconcile_reported r agent request healthy s).1 ≡ true
  unfolding reconcile_reported
  valid-reported agent request healthy s valid = grind (arith, valid-wait, valid-with_agent)

  valid-health :
      (agent : HarnessGitopsAgent) (request : ProjectMappingRequest) (s : State)
      → valid_state s ≡ true
      → valid_state (reconcile_health r agent request s).1 ≡ true
  unfolding reconcile_health
  valid-health agent request s valid = grind (arith, valid-wait, valid-reported)

  valid-app_project :
      (agent : HarnessGitopsAgent) (request : ProjectMappingRequest) (s : State)
      → valid_state s ≡ true
      → valid_state (reconcile_app_project r agent request s).1 ≡ true
  unfolding reconcile_app_project
  valid-app_project agent request s valid =
      grind (arith, valid-wait, valid-health, valid-return_api_error, valid-got_app_project)

  valid-agent :
      (agent : HarnessGitopsAgent) (s : State)
      → valid_state s ≡ true
      → valid_state (reconcile_agent r agent s).1 ≡ true
  unfolding reconcile_agent
  valid-agent agent s valid =
      grind (arith, valid-wait, valid-app_project, valid-set_ready_failing, status-valid)

  valid-active : (s : State) → valid_state s ≡ true → valid_state (reconcile_active r s).1 ≡ true
  unfolding reconcile_active
  valid-active s valid =
      grind (arith, valid-wait, valid-agent, valid-return_api_error, valid-got_agent)

  valid-ensure_finalizer :
      (s : State) → valid_state s ≡ true → valid_state (ensure_finalizer r s).1 ≡ true
  unfolding ensure_finalizer valid_state
  valid-ensure_finalizer s valid = grind (arith)

  valid-mapping : (s : State) → valid_state s ≡ true → valid_state (reconcile_mapping r s).1 ≡ true
  unfolding reconcile_mapping
  valid-mapping s valid = grind (arith, valid-active, valid-finalize, valid-ensure_finalizer)

  reconcile-found :
      (key : ObjectKey) (trace : Trace) (mapping : HarnessGitopsProjectMapping)
      → r.env.get_mapping trace key ≡ ok mapping
      → valid_writes trace ≡ true
      → is_valid_status mapping.status ≡ true
      → valid_writes (reconcile r key trace).1 ≡ true
  unfolding reconcile valid_state
  reconcile-found key trace mapping read writes status = grind (arith, valid-mapping, valid-writes)

  -- If the status that the API server returned satisfies the two rules of the CRD (ownership needs a
  -- mapping ID, a creation state needs the remote tuple), so does every status that the reconcile
  -- sends, whatever else it reads.
  pub reconcile-valid :
      (key : ObjectKey) (mapping : HarnessGitopsProjectMapping)
      → r.env.get_mapping [] key ≡ ok mapping
      → is_valid_status mapping.status ≡ true
      → valid_writes (reconcile r key []).1 ≡ true
  unfolding valid_writes
  reconcile-valid key mapping read status = reconcile-found key [] mapping read refl status

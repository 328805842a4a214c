-- ===== src/Mapping/Reconcile.antt =====
-- The entry point: `Reconcile` of internal/resource/projectmapping/reconciler.go, and the AppProject
-- read of kubernetes.go.
pub mod Laws
pub mod Calls
use harness_gitops_agent_ope.Common.{
  ℕ, String, Bool, true, false, ◌||◌, not, Option, none, some, Result, ok, err, ◌∷◌, if◌then◌else◌,
  nat_eq,
}
use harness_gitops_agent_ope.Text.{◌==◌, ◌<>◌, trim_space}
use harness_gitops_agent_ope.Api.{
  ConditionStatus, condition_true, condition_false, condition_unknown, Condition, ObjectKey,
  HarnessGitopsAgent, HarnessGitopsProjectMapping, is_zero,
}
use harness_gitops_agent_ope.Harness.Errors.{Error, kube, wrap, KubeError}
use harness_gitops_agent_ope.Harness.Errors.Messages.{error_text}
use harness_gitops_agent_ope.Mapping.Types.{ProjectMappingRequest}
use harness_gitops_agent_ope.Mapping.Scope.{resolve_project_mapping_request}
use harness_gitops_agent_ope.Mapping.Environment.{
  Reconciler, State, Outcome, Trace, got_mapping, got_agent, got_app_project, record_event,
}
use harness_gitops_agent_ope.Mapping.Ready.{
  keep, set_ready_after, set_ready_failing, return_api_error, session_for_agent,
  pending_retry_interval,
}
use harness_gitops_agent_ope.Mapping.Create.{reconcile_harness_mapping}
use harness_gitops_agent_ope.Mapping.Finalizers.{ensure_finalizer}
use harness_gitops_agent_ope.Mapping.Finalize.{finalize_project_mapping}

-- `appProjectExists`, from the answer of the dynamic client
unfoldable pub app_project_exists : String → String → Option KubeError → Result Error Bool
app_project_exists namespace name none = ok true
app_project_exists namespace name (some e) =
    if e.not_found
    then ok false
    else err (wrap ("get AppProject " <> namespace <> "/" <> name <> ": ") (kube e) "")

-- wait for another resource: Ready false, and a retry
unfoldable pub wait_for : Reconciler → String → String → State → Outcome × State
wait_for r reason message s =
    set_ready_after (pending_retry_interval r) r condition_false reason message keep s

-- `healthy.Status == ConditionFalse && healthy.Reason == harnessAgentReasonAbsent`
unfoldable pub unhealthy_reason : Condition → String
unhealthy_reason healthy = elim (healthy.status) [
  | condition_false ↦ if healthy.reason == "AgentAbsent" then "AgentNotFound" else "AgentNotHealthy"
  | _ ↦ "AgentNotHealthy"
]

-- the session, and the rest with it
unfoldable pub reconcile_with_agent :
    Reconciler → HarnessGitopsAgent → ProjectMappingRequest → State → Outcome × State
reconcile_with_agent r agent request s =
    let (answer, s') = session_for_agent r agent s in
    elim answer [
      | err e ↦ return_api_error r "Unable to initialize the Harness session" e s'
      | ok session ↦ reconcile_harness_mapping r session request s'
    ]

-- the tests on a Healthy condition of the current generation
unfoldable pub reconcile_reported :
    Reconciler → HarnessGitopsAgent → ProjectMappingRequest → Condition → State → Outcome × State
unfolding reconcile_with_agent wait_for unhealthy_reason
reconcile_reported r agent request healthy s = elim (healthy.status) [
  | condition_true ↦ reconcile_with_agent r agent request s
  | _ ↦
      wait_for r (unhealthy_reason healthy)
        (if trim_space healthy.message == ""
          then "Harness GitOps agent health could not be verified"
          else trim_space healthy.message)
        s
]

-- the tests on the Agent's health
unfoldable pub reconcile_health :
    Reconciler → HarnessGitopsAgent → ProjectMappingRequest → State → Outcome × State
unfolding reconcile_reported wait_for
reconcile_health r agent request s =
    elim (r.env.find_status_condition agent.status.conditions "Healthy") [
      | none ↦
          wait_for r "AgentNotHealthy" "Harness GitOps agent health has not been reported yet" s
      | some healthy ↦
          if nat_eq healthy.observed_generation agent.metadata.generation
          then reconcile_reported r agent request healthy s
          else wait_for r "AgentNotHealthy"
              "Harness GitOps agent health has not been reported for its current generation" s
    ]

-- the AppProject
unfoldable pub reconcile_app_project :
    Reconciler → HarnessGitopsAgent → ProjectMappingRequest → State → Outcome × State
unfolding reconcile_health wait_for app_project_exists record_event
reconcile_app_project r agent request s =
    let namespace = s.mapping.metadata.namespace in
    let name = request.argo_project_name in
    let s' = record_event (got_app_project namespace name) s in
    elim (app_project_exists namespace name (r.env.get_app_project s.trace namespace name)) [
      | err e ↦ return_api_error r "Unable to read the AppProject" e s'
      | ok exists ↦
          if exists
          then reconcile_health r agent request s'
          else wait_for r "AppProjectNotFound"
              ("AppProject " <> namespace <> "/" <> name <> " does not exist") s'
    ]

-- the Agent that was read
unfoldable pub reconcile_agent : Reconciler → HarnessGitopsAgent → State → Outcome × State
unfolding reconcile_app_project wait_for
reconcile_agent r agent s =
    if not (is_zero agent.metadata.deletion_timestamp)
    then wait_for r "AgentDeleting"
        ("HarnessGitopsAgent " <> agent.metadata.namespace <> "/" <> agent.metadata.name
          <> " is being deleted")
        s
    else elim (resolve_project_mapping_request agent s.mapping) [
      | err e ↦ set_ready_failing none r "ResolutionInvalid" (error_text e) keep s
      | ok request ↦ reconcile_app_project r agent request s
    ]

-- the read of the Agent
unfoldable pub reconcile_active : Reconciler → State → Outcome × State
unfolding reconcile_agent wait_for record_event
reconcile_active r s =
    let key : ObjectKey = record {
      namespace = s.mapping.metadata.namespace;
      name = trim_space s.mapping.spec.agent_ref_name;
    } in
    let s' = record_event (got_agent key) s in
    elim (r.env.get_agent s.trace key) [
      | err e ↦
          if e.not_found
          then wait_for r "AgentRefNotFound"
              ("HarnessGitopsAgent " <> key.namespace <> "/" <> key.name <> " does not exist") s'
          else return_api_error r "Unable to read the referenced Agent" (kube e) s'
      | ok agent ↦ reconcile_agent r agent s'
    ]

-- the mapping that was read
unfoldable pub reconcile_mapping : Reconciler → State → Outcome × State
unfolding reconcile_active
reconcile_mapping r s =
    if not (is_zero s.mapping.metadata.deletion_timestamp)
    then finalize_project_mapping r s
    else let (finished, s') = ensure_finalizer r s in
      elim finished [ some outcome ↦ (outcome, s') | none ↦ reconcile_active r s' ]

-- `Reconcile`
unfoldable pub reconcile : Reconciler → ObjectKey → Trace → Outcome × Trace
unfolding reconcile_mapping
reconcile r key trace =
    let trace' = got_mapping key ∷ trace in
    elim (r.env.get_mapping trace key) [
      | err e ↦ (
        record { requeue_after = 0; error = if e.not_found then none else some (kube e) },
        trace',
      )
      | ok mapping ↦
          let (outcome, s) = reconcile_mapping r (record { mapping = mapping; trace = trace' }) in
          (outcome, s.trace)
    ]

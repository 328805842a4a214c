-- ===== src/Mapping/Ready.antt =====
-- Status writes and the methods of `Reconciler` that the handlers share:
-- internal/resource/projectmapping/state.go.
pub mod Laws
use mathlib.Core.Option
use harness_gitops_agent_ope.Common.{
  ℕ, String, Bool, true, false, Option, none, some, List, Result, ok, err, if◌then◌else◌, ltb, ite,
}
use harness_gitops_agent_ope.Text.{◌==◌, trim_space}
use harness_gitops_agent_ope.Api.{
  ConditionStatus, condition_false, Condition, ObjectKey, HarnessGitopsAgent,
  HarnessGitopsProjectMapping, HarnessGitopsProjectMappingStatus,
  HarnessGitopsProjectMappingStatus-discrete,
}
use harness_gitops_agent_ope.Harness.Errors.{Error, kube, join_errors}
use harness_gitops_agent_ope.Harness.Session.{Session, session_from_secret}
use harness_gitops_agent_ope.Mapping.Environment.{
  Environment, Reconciler, State, Outcome, Event, status_updated, read_secret, accepted,
  record_event,
}

-- r.Status().Update
unfoldable pub update_status : Reconciler → State → Option Error × State
unfolding accepted record_event
update_status r s =
    let answer = r.env.update_status s.trace s.mapping in
    (Option.map kube answer, record_event (status_updated s.mapping (accepted answer)) s)

-- the status that `setReady` leaves in memory
unfoldable pub ready_status :
    Reconciler
    → ConditionStatus
    → String
    → String
    → HarnessGitopsProjectMappingStatus
    → State
    → HarnessGitopsProjectMappingStatus
ready_status r status reason message mutated s =
    let generation = s.mapping.metadata.generation in
    record mutated {
      observed_generation = generation;
      conditions = r.env.set_status_condition s.trace mutated.conditions (record {
        type = "Ready";
        status = status;
        observed_generation = generation;
        last_transition_time = 0;
        reason = reason;
        message = message;
      });
    }

abbrev pub Mutation : Type 0
Mutation = HarnessGitopsProjectMappingStatus → HarnessGitopsProjectMappingStatus

-- a nil `mutate`
abbrev pub keep : Mutation
keep status = status

-- `setReady`
unfoldable pub set_ready :
    Reconciler → ConditionStatus → String → String → Mutation → State → Option Error × State
unfolding update_status ready_status
set_ready r status reason message mutate s =
    let before = s.mapping.status in
    let after = ready_status r status reason message (mutate before) s in
    let s' = record s { mapping = record (s.mapping) { status = after } } in
    ite (HarnessGitopsProjectMappingStatus-discrete before after) (none, s') (update_status r s')

-- `return ctrl.Result{RequeueAfter: d}, r.setReady(...)`
unfoldable pub set_ready_after :
    ℕ → Reconciler → ConditionStatus → String → String → Mutation → State → Outcome × State
unfolding set_ready
set_ready_after delay r status reason message mutate s =
    let (status_err, s') = set_ready r status reason message mutate s in
    (record { requeue_after = delay; error = status_err }, s')

-- `return ctrl.Result{}, errors.Join(err, r.setReady(...))`, with Ready false
unfoldable pub set_ready_failing :
    Option Error → Reconciler → String → String → Mutation → State → Outcome × State
unfolding set_ready
set_ready_failing cause r reason message mutate s =
    let (status_err, s') = set_ready r condition_false reason message mutate s in
    (record { requeue_after = 0; error = join_errors cause status_err }, s')

-- `returnAPIError`
unfoldable pub return_api_error : Reconciler → String → Error → State → Outcome × State
unfolding set_ready_failing
return_api_error r message e s = set_ready_failing (some e) r "VerificationFailed" message keep s

-- `sessionForAgent`
unfoldable pub session_for_agent :
    Reconciler → HarnessGitopsAgent → State → Result Error Session × State
unfolding record_event
session_for_agent r agent s =
    let key : ObjectKey = record {
      name = agent.spec.api_key_secret_ref;
      namespace =
          if trim_space r.api_key_secret_namespace == ""
          then agent.metadata.namespace
          else trim_space r.api_key_secret_namespace;
    } in
    (session_from_secret (r.env.read_secret s.trace key), record_event (read_secret key) s)

-- `DefaultAppProjectPendingRetryInterval`, 20 s
abbrev pub default_app_project_pending_retry_interval : ℕ
default_app_project_pending_retry_interval = 20_000_000_000

-- `DefaultHarnessMappingResyncInterval`, 5 min
abbrev pub default_harness_mapping_resync_interval : ℕ
default_harness_mapping_resync_interval = 300_000_000_000

-- `immediateRequeueInterval`, 1 ns
abbrev pub immediate_requeue_interval : ℕ
immediate_requeue_interval = 1

unfoldable pub pending_retry_interval : Reconciler → ℕ
pending_retry_interval r =
    if ltb 0 r.app_project_pending_retry_interval
    then r.app_project_pending_retry_interval
    else default_app_project_pending_retry_interval

unfoldable pub resync_interval : Reconciler → ℕ
resync_interval r =
    if ltb 0 r.harness_mapping_resync_interval
    then r.harness_mapping_resync_interval
    else default_harness_mapping_resync_interval

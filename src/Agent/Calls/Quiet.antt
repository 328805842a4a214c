-- ===== src/Agent/Calls/Quiet.antt =====
-- The operations that make no create and no delete call to Harness.
use harness_gitops_agent_ope.Common.{String, Bool, ◌≡◌, Option, List, [], ◌∷◌, Result, arith}
use harness_gitops_agent_ope.Api.{ConditionStatus, CreationState, HarnessGitopsProjectMapping}
use harness_gitops_agent_ope.Harness.Errors.{Error}
use harness_gitops_agent_ope.Harness.Session.{Session}
use harness_gitops_agent_ope.Agent.Types.{Agent}
use harness_gitops_agent_ope.Agent.Environment.{Reconciler, State}
use harness_gitops_agent_ope.Agent.Calls.{Measure, CallMeasure, weaken}
use harness_gitops_agent_ope.Agent.Status.{
  update_status, set_agent_condition, set_agent_creation_state, session_for_agent,
}
use harness_gitops_agent_ope.Agent.Health.{
  read_agent_readiness, publish_agent_health, agent_health_result, refresh_agent_health,
}
use harness_gitops_agent_ope.Agent.Registration.{record_create, register_existing}
use harness_gitops_agent_ope.Agent.Token.{token_secret_exists, upsert_agent_token_secret}
use harness_gitops_agent_ope.Agent.Finalizers.{ensure_finalizer, remove_finalizer}
use harness_gitops_agent_ope.Agent.Dependencies.{
  set_agent_waiting_for_mappings, delete_references, wait_for_references, wait_unless_empty,
  reconcile_mapping_dependencies_for_deletion,
}
use harness_gitops_agent_ope.Agent.Reconcile.{
  record_external, reconcile_existing, write_token, finish_ready,
}

module _ (μ : Measure) (r : Reconciler) where
  pub quiet-update_status : (s : State) → μ.of (update_status r s).1.trace ≡ μ.of s.trace
  unfolding update_status
  quiet-update_status s = grind (arith, μ.quiet)

  pub quiet-set_condition :
      (type : String) (status : ConditionStatus) (reason message : String) (s : State)
      → μ.of (set_agent_condition r type status reason message s).1.trace ≡ μ.of s.trace
  unfolding set_agent_condition
  quiet-set_condition type status reason message s = grind (arith, μ.quiet)

  pub quiet-set_creation_state :
      (state : CreationState) (s : State)
      → μ.of (set_agent_creation_state r state s).1.trace ≡ μ.of s.trace
  unfolding set_agent_creation_state
  quiet-set_creation_state state s = grind (arith, μ.quiet)

  pub quiet-session_for_agent : (s : State) → μ.of (session_for_agent r s).1.trace ≡ μ.of s.trace
  unfolding session_for_agent
  quiet-session_for_agent s = grind (arith, μ.quiet)

  quiet-readiness :
      (session : Result Error Session) (identifier : String) (s : State)
      → μ.of (read_agent_readiness r session identifier s).1.trace ≡ μ.of s.trace
  unfolding read_agent_readiness
  quiet-readiness session identifier s = grind (arith, μ.quiet)

  quiet-publish :
      (session : Result Error Session) (identifier : String) (s : State)
      → μ.of (publish_agent_health r session identifier s).1.trace ≡ μ.of s.trace
  unfolding publish_agent_health
  quiet-publish session identifier s = grind (arith, quiet-readiness, quiet-set_condition)

  pub quiet-health_result :
      (session : Result Error Session) (identifier : String) (s : State)
      → μ.of (agent_health_result r session identifier s).1.trace ≡ μ.of s.trace
  unfolding agent_health_result
  quiet-health_result session identifier s = grind (arith, quiet-publish)

  pub quiet-refresh :
      (identifier : String) (s : State)
      → μ.of (refresh_agent_health r identifier s).1.trace ≡ μ.of s.trace
  unfolding refresh_agent_health
  quiet-refresh identifier s = grind (arith, quiet-health_result, quiet-session_for_agent)

  pub quiet-record_create :
      (answer : Result Error (String × String)) (s : State)
      → μ.of (record_create r answer s).1.trace ≡ μ.of s.trace
  unfolding record_create
  quiet-record_create answer s = grind (arith, quiet-set_creation_state, quiet-update_status)

  pub quiet-register_existing :
      (expected observed : Agent) (s : State)
      → μ.of (register_existing r expected observed s).1.trace ≡ μ.of s.trace
  unfolding register_existing
  quiet-register_existing expected observed s =
      grind (arith, quiet-set_creation_state, quiet-update_status)

  pub quiet-token_secret_exists :
      (name : String) (s : State) → μ.of (token_secret_exists r name s).1.trace ≡ μ.of s.trace
  unfolding token_secret_exists
  quiet-token_secret_exists name s = grind (arith, μ.quiet)

  pub quiet-waiting :
      (names : List String) (s : State)
      → μ.of (set_agent_waiting_for_mappings r names s).1.trace ≡ μ.of s.trace
  unfolding set_agent_waiting_for_mappings
  quiet-waiting names s = grind (arith, quiet-set_condition)

  quiet-record_external :
      (identifier : String) (s : State)
      → μ.of (record_external r identifier s).1.trace ≡ μ.of s.trace
  unfolding record_external
  quiet-record_external identifier s = grind (arith, quiet-refresh, quiet-update_status)

  pub quiet-existing :
      (identifier : String) (s : State)
      → μ.of (reconcile_existing r identifier s).1.trace ≡ μ.of s.trace
  unfolding reconcile_existing
  quiet-existing identifier s = grind (arith, quiet-refresh, quiet-record_external)

-- The operations that write a token Secret, the finalizers or the mappings.
module _ (μ : CallMeasure) (r : Reconciler) where
  quiet-upsert :
      (name token : String) (s : State)
      → μ.of (upsert_agent_token_secret r name token s).1.trace ≡ μ.of s.trace
  unfolding upsert_agent_token_secret
  quiet-upsert name token s = grind (arith, μ.steady)

  pub quiet-remove_finalizer : (s : State) → μ.of (remove_finalizer r s).1.trace ≡ μ.of s.trace
  unfolding remove_finalizer
  quiet-remove_finalizer s = grind (arith, μ.steady)

  pub quiet-ensure_finalizer : (s : State) → μ.of (ensure_finalizer r s).1.trace ≡ μ.of s.trace
  unfolding ensure_finalizer
  quiet-ensure_finalizer s = grind (arith, μ.steady)

  quiet-delete_references :
      (e : Option Error) (ms : List HarnessGitopsProjectMapping) (s : State)
      → μ.of (delete_references r e ms s).1.trace ≡ μ.of s.trace
  unfolding delete_references
  quiet-delete_references e [] s = grind arith
  quiet-delete_references e (m ∷ ms) s =
      grind (arith, λ (e' : Option Error) (s' : State). quiet-delete_references e' ms s', μ.steady)

  quiet-wait_for_references :
      (ms : List HarnessGitopsProjectMapping) (s : State)
      → μ.of (wait_for_references r ms s).1.trace ≡ μ.of s.trace
  unfolding wait_for_references
  quiet-wait_for_references ms s =
      grind (arith, quiet-delete_references, quiet-waiting (weaken μ) r)

  quiet-wait_unless_empty :
      (ms : List HarnessGitopsProjectMapping) (s : State)
      → μ.of (wait_unless_empty r ms s).1.trace ≡ μ.of s.trace
  unfolding wait_unless_empty
  quiet-wait_unless_empty ms s = grind (arith, quiet-wait_for_references)

  pub quiet-dependencies :
      (s : State) → μ.of (reconcile_mapping_dependencies_for_deletion r s).1.trace ≡ μ.of s.trace
  unfolding reconcile_mapping_dependencies_for_deletion
  quiet-dependencies s = grind (arith, quiet-wait_unless_empty, μ.steady)

  quiet-write_token :
      (session : Session) (identifier token : String) (s : State)
      → μ.of (write_token r session identifier token s).1.trace ≡ μ.of s.trace
  unfolding write_token
  quiet-write_token session identifier token s =
      grind (arith, quiet-health_result (weaken μ) r, quiet-upsert, μ.steady)

  pub quiet-finish_ready :
      (session : Session) (ready : Bool) (identifier token : String) (s : State)
      → μ.of (finish_ready r session ready identifier token s).1.trace ≡ μ.of s.trace
  unfolding finish_ready
  quiet-finish_ready session ready identifier token s =
      grind (arith, quiet-health_result (weaken μ) r, quiet-write_token)

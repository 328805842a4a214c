-- ===== src/Mapping/Ready/Laws.antt =====
-- What a status write does to a measure of the trace: nothing.

use harness_gitops_agent_ope.Common.{ℕ, String, ◌≡◌, ◌≢◌, true, ◌∷◌, Option, none, arith}
use harness_gitops_agent_ope.Api.{ConditionStatus, HarnessGitopsAgent}
use harness_gitops_agent_ope.Harness.Errors.{Error}
use harness_gitops_agent_ope.Mapping.Environment.{Reconciler, State, status_updated}
use harness_gitops_agent_ope.Mapping.Quiet.{Measure}
use harness_gitops_agent_ope.Mapping.Ready.{
  Mutation, set_ready, set_ready_after, set_ready_failing, return_api_error, session_for_agent,
  update_status, ready_status,
}

module _ (μ : Measure) (r : Reconciler) where
  pub quiet-set_ready :
      (status : ConditionStatus) (reason message : String) (mutate : Mutation) (s : State)
      → μ.of (set_ready r status reason message mutate s).1.trace ≡ μ.of s.trace
  unfolding set_ready
  quiet-set_ready status reason message mutate s = grind (arith, μ.quiet)

  pub quiet-set_ready_after :
      (delay : ℕ) (status : ConditionStatus) (reason message : String) (mutate : Mutation)
      (s : State)
      → μ.of (set_ready_after delay r status reason message mutate s).1.trace ≡ μ.of s.trace
  unfolding set_ready_after
  quiet-set_ready_after delay status reason message mutate s = grind (arith, μ.quiet)

  pub quiet-set_ready_failing :
      (cause : Option Error) (reason message : String) (mutate : Mutation) (s : State)
      → μ.of (set_ready_failing cause r reason message mutate s).1.trace ≡ μ.of s.trace
  unfolding set_ready_failing
  quiet-set_ready_failing cause reason message mutate s = grind (arith, μ.quiet)

  pub quiet-return_api_error :
      (message : String) (e : Error) (s : State)
      → μ.of (return_api_error r message e s).1.trace ≡ μ.of s.trace
  unfolding return_api_error
  quiet-return_api_error message e s = grind (arith, μ.quiet)

  pub quiet-session_for_agent :
      (agent : HarnessGitopsAgent) (s : State)
      → μ.of (session_for_agent r agent s).1.trace ≡ μ.of s.trace
  unfolding session_for_agent
  quiet-session_for_agent agent s = grind (arith, μ.quiet)

module _ (r : Reconciler) where
  -- the object that `setReady` leaves in memory and sends
  abbrev pub written : ConditionStatus → String → String → Mutation → State → State
  written status reason message mutate s = record s {
    mapping = record (s.mapping) {
      status = ready_status r status reason message (mutate s.mapping.status) s;
    };
  }

  -- A status that changes is sent.
  pub set_ready-eq-update_status :
      (status : ConditionStatus) (reason message : String) (mutate : Mutation) (s : State)
      → s.mapping.status ≢ (written status reason message mutate s).mapping.status
      → set_ready r status reason message mutate s
        ≡ update_status r (written status reason message mutate s)
  unfolding set_ready
  set_ready-eq-update_status status reason message mutate s changed = ground arith

  pub trace-update_status :
      (s : State)
      → (update_status r s).0 ≡ none
      → (update_status r s).1.trace ≡ status_updated s.mapping true ∷ s.trace
  unfolding update_status
  trace-update_status s done = ground arith

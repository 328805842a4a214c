-- ===== src/Agent/Deletion/Tokens.antt =====
-- The deletion of an Agent handles no token.
use harness_gitops_agent_ope.Common.{Bool, Option, List, [], ◌∷◌, ◌≡◌, arith}
use harness_gitops_agent_ope.Api.{HarnessGitopsProjectMapping}
use harness_gitops_agent_ope.Harness.Errors.{Error}
use harness_gitops_agent_ope.Harness.Session.{Session}
use harness_gitops_agent_ope.Agent.Environment.{Reconciler, State}
use harness_gitops_agent_ope.Agent.Calls.{tokens, tokens_measure}
use harness_gitops_agent_ope.Agent.Calls.Quiet.{quiet-session_for_agent, quiet-waiting}
use harness_gitops_agent_ope.Agent.Finalizers.{ensure_finalizer, remove_finalizer}
use harness_gitops_agent_ope.Agent.Dependencies.{
  delete_references, wait_for_references, wait_unless_empty,
  reconcile_mapping_dependencies_for_deletion,
}
use harness_gitops_agent_ope.Agent.Deletion.{
  delete_agent, delete_verified, delete_independent, delete_finalized, reconcile_deletion,
}
use harness_gitops_agent_ope.Agent.Deletion.Laws.{quiet-lookup_owned}

module _ (r : Reconciler) where
  pub tokens-ensure_finalizer : (s : State) → tokens (ensure_finalizer r s).1.trace ≡ tokens s.trace
  unfolding ensure_finalizer tokens
  tokens-ensure_finalizer s = grind arith

  tokens-remove_finalizer : (s : State) → tokens (remove_finalizer r s).1.trace ≡ tokens s.trace
  unfolding remove_finalizer tokens
  tokens-remove_finalizer s = grind arith

  tokens-delete_references :
      (e : Option Error) (ms : List HarnessGitopsProjectMapping) (s : State)
      → tokens (delete_references r e ms s).1.trace ≡ tokens s.trace
  unfolding delete_references tokens
  tokens-delete_references e [] s = grind arith
  tokens-delete_references e (m ∷ ms) s =
      grind (arith, λ (e' : Option Error) (s' : State). tokens-delete_references e' ms s')

  tokens-wait_for_references :
      (ms : List HarnessGitopsProjectMapping) (s : State)
      → tokens (wait_for_references r ms s).1.trace ≡ tokens s.trace
  unfolding wait_for_references
  tokens-wait_for_references ms s =
      grind (arith, tokens-delete_references, quiet-waiting tokens_measure r)

  tokens-wait_unless_empty :
      (ms : List HarnessGitopsProjectMapping) (s : State)
      → tokens (wait_unless_empty r ms s).1.trace ≡ tokens s.trace
  unfolding wait_unless_empty
  tokens-wait_unless_empty ms s = grind (arith, tokens-wait_for_references)

  tokens-dependencies :
      (s : State)
      → tokens (reconcile_mapping_dependencies_for_deletion r s).1.trace ≡ tokens s.trace
  unfolding reconcile_mapping_dependencies_for_deletion tokens
  tokens-dependencies s = grind (arith, tokens-wait_unless_empty)

  tokens-delete :
      (session : Session) (s : State) → tokens (delete_agent r session s).1.trace ≡ tokens s.trace
  unfolding delete_agent tokens
  tokens-delete session s = grind (arith, tokens-remove_finalizer)

  tokens-verified : (s : State) → tokens (delete_verified r s).1.trace ≡ tokens s.trace
  unfolding delete_verified
  tokens-verified s = grind (
    arith,
    tokens-delete,
    tokens-remove_finalizer,
    quiet-lookup_owned tokens_measure r,
    quiet-session_for_agent tokens_measure r,
  )

  tokens-independent :
      (existing : Bool) (s : State)
      → tokens (delete_independent r existing s).1.trace ≡ tokens s.trace
  unfolding delete_independent
  tokens-independent existing s = grind (arith, tokens-verified, tokens-remove_finalizer)

  tokens-finalized :
      (existing : Bool) (s : State)
      → tokens (delete_finalized r existing s).1.trace ≡ tokens s.trace
  unfolding delete_finalized
  tokens-finalized existing s = grind (arith, tokens-independent, tokens-dependencies)

  pub tokens-deletion :
      (existing : Bool) (s : State)
      → tokens (reconcile_deletion r existing s).1.trace ≡ tokens s.trace
  unfolding reconcile_deletion
  tokens-deletion existing s = grind (arith, tokens-finalized)

-- ===== src/Mapping/Finalize/Laws.antt =====
-- The calls of a cleanup: it creates nothing, and it deletes only what it is allowed to.
use harness_gitops_agent_ope.Common.{String, ◌≡◌, Option, List, ◌∷◌, arith}
use harness_gitops_agent_ope.Harness.Errors.{Error}
use harness_gitops_agent_ope.Api.{HarnessGitopsAgent, HarnessGitopsProjectMappingRemoteStatus}
use harness_gitops_agent_ope.Mapping.Types.{ProjectMappingRequest, ProjectMapping}
use harness_gitops_agent_ope.Mapping.Environment.{Reconciler, State, deleted}
use harness_gitops_agent_ope.Mapping.Quiet.{Measure}
use harness_gitops_agent_ope.Mapping.Ready.Laws.{
  quiet-set_ready, quiet-set_ready_after, quiet-set_ready_failing, quiet-session_for_agent,
}
use harness_gitops_agent_ope.Mapping.Arbitration.Laws.{quiet-resolve_claim}
use harness_gitops_agent_ope.Mapping.Finalizers.{remove_finalizer}
use harness_gitops_agent_ope.Mapping.CleanupIdentity.{CleanupIdentity}
use harness_gitops_agent_ope.Mapping.Cleanup.{
  Cleanup, block_mapping_cleanup, fail_mapping_cleanup, authorize_project_mapping_cleanup,
  recover_ownership, delete_remote, cleanup_absent, cleanup_drifted, cleanup_rows,
}
use harness_gitops_agent_ope.Mapping.Finalize.{
  cleanup_with_session, cleanup_with_agent, cleanup_claimed, cleanup_recorded, cleanup_identity,
  finalize_project_mapping,
}

ruleset ready_rules = (quiet-set_ready, quiet-set_ready_after, quiet-set_ready_failing)

module _ (μ : Measure) (r : Reconciler) where
  pub quiet-remove_finalizer : (s : State) → μ.of (remove_finalizer r s).1.trace ≡ μ.of s.trace
  unfolding remove_finalizer
  quiet-remove_finalizer s = grind (arith, μ.quiet)

  pub quiet-block :
      (message : String) (cause : Option Error) (s : State)
      → μ.of (block_mapping_cleanup r message cause s).1.trace ≡ μ.of s.trace
  unfolding block_mapping_cleanup
  quiet-block message cause s = grind (arith, ready_rules)

  pub quiet-fail :
      (message : String) (cause : Error) (s : State)
      → μ.of (fail_mapping_cleanup r message cause s).1.trace ≡ μ.of s.trace
  unfolding fail_mapping_cleanup
  quiet-fail message cause s = grind (arith, ready_rules)

  pub quiet-authorize :
      (request : ProjectMappingRequest) (id : String) (s : State)
      → μ.of (authorize_project_mapping_cleanup r request id s).1.trace ≡ μ.of s.trace
  unfolding authorize_project_mapping_cleanup
  quiet-authorize request id s =
      grind (arith, quiet-fail, quiet-resolve_claim, quiet-remove_finalizer)

  pub quiet-recover :
      (c : Cleanup) (s : State) → μ.of (recover_ownership r c s).1.trace ≡ μ.of s.trace
  unfolding recover_ownership
  quiet-recover c s = grind (arith, ready_rules)

  pub quiet-absent : (c : Cleanup) (s : State) → μ.of (cleanup_absent r c s).1.trace ≡ μ.of s.trace
  unfolding cleanup_absent
  quiet-absent c s = grind (arith, ready_rules, quiet-block, quiet-remove_finalizer)

  pub quiet-drifted :
      (c : Cleanup) (s : State) → μ.of (cleanup_drifted r c s).1.trace ≡ μ.of s.trace
  unfolding cleanup_drifted
  quiet-drifted c s = grind (arith, ready_rules, quiet-block, quiet-remove_finalizer)

pub ruleset cleanup_rules = (
  quiet-block, quiet-fail, quiet-authorize, quiet-recover, quiet-absent, quiet-drifted,
  quiet-remove_finalizer, quiet-session_for_agent,
)

-- A measure that delete calls keep too, a cleanup keeps.
module _ (μ : Measure) (r : Reconciler)
    (keeps : (request : ProjectMappingRequest) (id : String) (s : State)
      → μ.of (deleted request id ∷ s.trace) ≡ μ.of s.trace) where
  delete-keeps : (c : Cleanup) (s : State) → μ.of (delete_remote r c s).1.trace ≡ μ.of s.trace
  unfolding delete_remote
  delete-keeps c s =
      grind (arith, quiet-fail, quiet-remove_finalizer, keeps c.request c.mapping_id s)

  rows-keeps :
      (c : Cleanup) (rows : List ProjectMapping) (s : State)
      → μ.of (cleanup_rows r c rows s).1.trace ≡ μ.of s.trace
  unfolding cleanup_rows
  rows-keeps c rows s = grind (arith, cleanup_rules, delete-keeps)

  session-keeps :
      (c : Cleanup) (s : State) → μ.of (cleanup_with_session r c s).1.trace ≡ μ.of s.trace
  unfolding cleanup_with_session
  session-keeps c s = grind (arith, cleanup_rules, rows-keeps, μ.quiet)

  agent-keeps :
      (identity : CleanupIdentity) (request : ProjectMappingRequest) (id : String)
      (agent : HarnessGitopsAgent) (s : State)
      → μ.of (cleanup_with_agent r identity request id agent s).1.trace ≡ μ.of s.trace
  unfolding cleanup_with_agent
  agent-keeps identity request id agent s = grind (arith, cleanup_rules, session-keeps)

  claimed-keeps :
      (identity : CleanupIdentity) (request : ProjectMappingRequest) (id : String) (s : State)
      → μ.of (cleanup_claimed r identity request id s).1.trace ≡ μ.of s.trace
  unfolding cleanup_claimed
  claimed-keeps identity request id s = grind (arith, cleanup_rules, agent-keeps, μ.quiet)

  recorded-keeps :
      (identity : CleanupIdentity) (remote : HarnessGitopsProjectMappingRemoteStatus) (s : State)
      → μ.of (cleanup_recorded r identity remote s).1.trace ≡ μ.of s.trace
  unfolding cleanup_recorded
  recorded-keeps identity remote s = grind (arith, cleanup_rules, claimed-keeps)

  identity-keeps :
      (identity : CleanupIdentity) (s : State)
      → μ.of (cleanup_identity r identity s).1.trace ≡ μ.of s.trace
  unfolding cleanup_identity
  identity-keeps identity s = grind (arith, cleanup_rules, recorded-keeps)

  pub finalize-keeps : (s : State) → μ.of (finalize_project_mapping r s).1.trace ≡ μ.of s.trace
  unfolding finalize_project_mapping
  finalize-keeps s = grind (arith, identity-keeps)

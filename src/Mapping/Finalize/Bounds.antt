-- ===== src/Mapping/Finalize/Bounds.antt =====
-- A cleanup makes at most one delete call.
use harness_gitops_agent_ope.Common.{String, List, ◌∷◌, arith}
use harness_gitops_agent_ope.Api.{HarnessGitopsAgent, HarnessGitopsProjectMappingRemoteStatus}
use harness_gitops_agent_ope.Mapping.Types.{ProjectMappingRequest, ProjectMapping}
use harness_gitops_agent_ope.Mapping.Environment.{Reconciler, State, deleted}
use harness_gitops_agent_ope.Mapping.Quiet.{Measure}
use harness_gitops_agent_ope.Mapping.CleanupIdentity.{CleanupIdentity}
use harness_gitops_agent_ope.Mapping.Cleanup.{Cleanup, delete_remote, cleanup_rows}
use harness_gitops_agent_ope.Mapping.Finalize.{
  cleanup_with_session, cleanup_with_agent, cleanup_claimed, cleanup_recorded, cleanup_identity,
  finalize_project_mapping,
}
use harness_gitops_agent_ope.Common.{suc, ◌≤◌}
use harness_gitops_agent_ope.Mapping.Finalize.Laws.{
  cleanup_rules, quiet-fail, quiet-remove_finalizer,
}

-- A measure that a delete call raises by one at most, a cleanup does.
module _ (μ : Measure) (r : Reconciler)
    (bounded : (request : ProjectMappingRequest) (id : String) (s : State)
      → μ.of (deleted request id ∷ s.trace) ≤ suc (μ.of s.trace)) where
  delete-bounded :
      (c : Cleanup) (s : State) → μ.of (delete_remote r c s).1.trace ≤ suc (μ.of s.trace)
  unfolding delete_remote
  delete-bounded c s =
      grind (arith, quiet-fail, quiet-remove_finalizer, bounded c.request c.mapping_id s)

  rows-bounded :
      (c : Cleanup) (rows : List ProjectMapping) (s : State)
      → μ.of (cleanup_rows r c rows s).1.trace ≤ suc (μ.of s.trace)
  unfolding cleanup_rows
  rows-bounded c rows s = grind (arith, cleanup_rules, delete-bounded)

  session-bounded :
      (c : Cleanup) (s : State) → μ.of (cleanup_with_session r c s).1.trace ≤ suc (μ.of s.trace)
  unfolding cleanup_with_session
  session-bounded c s = grind (arith, cleanup_rules, rows-bounded, μ.quiet)

  agent-bounded :
      (identity : CleanupIdentity) (request : ProjectMappingRequest) (id : String)
      (agent : HarnessGitopsAgent) (s : State)
      → μ.of (cleanup_with_agent r identity request id agent s).1.trace ≤ suc (μ.of s.trace)
  unfolding cleanup_with_agent
  agent-bounded identity request id agent s = grind (arith, cleanup_rules, session-bounded)

  claimed-bounded :
      (identity : CleanupIdentity) (request : ProjectMappingRequest) (id : String) (s : State)
      → μ.of (cleanup_claimed r identity request id s).1.trace ≤ suc (μ.of s.trace)
  unfolding cleanup_claimed
  claimed-bounded identity request id s = grind (arith, cleanup_rules, agent-bounded, μ.quiet)

  recorded-bounded :
      (identity : CleanupIdentity) (remote : HarnessGitopsProjectMappingRemoteStatus) (s : State)
      → μ.of (cleanup_recorded r identity remote s).1.trace ≤ suc (μ.of s.trace)
  unfolding cleanup_recorded
  recorded-bounded identity remote s = grind (arith, cleanup_rules, claimed-bounded)

  identity-bounded :
      (identity : CleanupIdentity) (s : State)
      → μ.of (cleanup_identity r identity s).1.trace ≤ suc (μ.of s.trace)
  unfolding cleanup_identity
  identity-bounded identity s = grind (arith, cleanup_rules, recorded-bounded)

  pub finalize-bounded :
      (s : State) → μ.of (finalize_project_mapping r s).1.trace ≤ suc (μ.of s.trace)
  unfolding finalize_project_mapping
  finalize-bounded s = grind (arith, identity-bounded)

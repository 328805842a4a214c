-- ===== src/Mapping/Verify/Laws.antt =====
-- A reconcile that found one row neither creates nor deletes.
use harness_gitops_agent_ope.Common.{◌≡◌, arith}
use harness_gitops_agent_ope.Mapping.Types.{ProjectMappingRequest, ProjectMapping}
use harness_gitops_agent_ope.Mapping.Environment.{Reconciler, State}
use harness_gitops_agent_ope.Mapping.Quiet.{Measure}
use harness_gitops_agent_ope.Mapping.Ready.Laws.{quiet-set_ready_after}
use harness_gitops_agent_ope.Mapping.Arbitration.Laws.{
  quiet-require_claim, quiet-require_new_external,
}
use harness_gitops_agent_ope.Mapping.Verify.{
  Selected, reconcile_observed, reconcile_candidate, reconcile_owned, reconcile_unproven,
  reconcile_selected_mapping, selected_locals,
}

ruleset quiet_rules = (quiet-set_ready_after, quiet-require_claim, quiet-require_new_external)

module _ (μ : Measure) (r : Reconciler) where
  quiet-reconcile_observed :
      (v : Selected) (s : State) → μ.of (reconcile_observed r v s).1.trace ≡ μ.of s.trace
  unfolding reconcile_observed
  quiet-reconcile_observed v s = grind (arith, quiet_rules)

  quiet-reconcile_candidate :
      (v : Selected) (s : State) → μ.of (reconcile_candidate r v s).1.trace ≡ μ.of s.trace
  unfolding reconcile_candidate
  quiet-reconcile_candidate v s = grind (arith, quiet_rules)

  quiet-reconcile_unproven :
      (v : Selected) (s : State) → μ.of (reconcile_unproven r v s).1.trace ≡ μ.of s.trace
  unfolding reconcile_unproven
  quiet-reconcile_unproven v s =
      ground (arith, quiet-reconcile_candidate v s, quiet-reconcile_observed v s)

  quiet-reconcile_owned :
      (v : Selected) (s : State) → μ.of (reconcile_owned r v s).1.trace ≡ μ.of s.trace
  unfolding reconcile_owned
  quiet-reconcile_owned v s = grind (arith, quiet_rules, quiet-reconcile_unproven)

  pub quiet-reconcile_selected :
      (request : ProjectMappingRequest) (observed : ProjectMapping) (s : State)
      → μ.of (reconcile_selected_mapping r request observed s).1.trace ≡ μ.of s.trace
  unfolding reconcile_selected_mapping
  quiet-reconcile_selected request observed s =
      let v = selected_locals request observed s.mapping in
      ground (arith, quiet-reconcile_owned v s, quiet-reconcile_unproven v s)

-- ===== src/Mapping/Arbitration/Laws.antt =====
-- Arbitration neither creates nor deletes, and a won claim leaves the object in memory alone.
use harness_gitops_agent_ope.Common.{String, ◌≡◌, true, Option, arith}
use harness_gitops_agent_ope.Mapping.Types.{ProjectMappingRequest}
use harness_gitops_agent_ope.Mapping.Environment.{Reconciler, State}
use harness_gitops_agent_ope.Mapping.Quiet.{Measure}
use harness_gitops_agent_ope.Mapping.Ready.{Mutation}
use harness_gitops_agent_ope.Mapping.Ready.Laws.{quiet-set_ready_after, quiet-set_ready_failing}
use harness_gitops_agent_ope.Mapping.Claims.{ClaimPriority}
use harness_gitops_agent_ope.Mapping.Eligibility.Laws.{quiet-collect_claims, collect_claims-mapping}
use harness_gitops_agent_ope.Mapping.Arbitration.{
  resolve_project_mapping_claim, require_project_mapping_claim,
  require_new_external_project_mapping_claim, require_project_mapping_claim_with_provisional,
}

module _ (r : Reconciler) (request : ProjectMappingRequest) (id : String) where
  module _ (μ : Measure) where
    pub quiet-resolve_claim :
        (provisional : Option ClaimPriority) (s : State)
        → μ.of (resolve_project_mapping_claim r request id provisional s).1.trace ≡ μ.of s.trace
    unfolding resolve_project_mapping_claim
    quiet-resolve_claim provisional s = grind (arith, quiet-collect_claims, μ.quiet)

    quiet-require_with :
        (provisional : Option ClaimPriority) (mutate : Mutation) (s : State)
        → μ.of
            (require_project_mapping_claim_with_provisional r request id provisional mutate
              s).1.trace
          ≡ μ.of s.trace
    unfolding require_project_mapping_claim_with_provisional
    quiet-require_with provisional mutate s =
        grind (arith, quiet-resolve_claim, quiet-set_ready_after, quiet-set_ready_failing)

    pub quiet-require_claim :
        (s : State) → μ.of (require_project_mapping_claim r request id s).1.trace ≡ μ.of s.trace
    unfolding require_project_mapping_claim
    quiet-require_claim s = grind (arith, quiet-require_with)

    pub quiet-require_new_external :
        (s : State)
        → μ.of (require_new_external_project_mapping_claim r request id s).1.trace ≡ μ.of s.trace
    unfolding require_new_external_project_mapping_claim
    quiet-require_new_external s = grind (arith, quiet-require_with)

  pub resolve_claim-mapping :
      (provisional : Option ClaimPriority) (s : State)
      → (resolve_project_mapping_claim r request id provisional s).1.mapping ≡ s.mapping
  unfolding resolve_project_mapping_claim
  resolve_claim-mapping provisional s = grind (arith, collect_claims-mapping)

  pub won-require_claim :
      (s : State)
      → (require_project_mapping_claim r request id s).0.won ≡ true
      → (require_project_mapping_claim r request id s).1.mapping ≡ s.mapping
  unfolding require_project_mapping_claim
  won-require_claim s won = grind (arith, resolve_claim-mapping)

  pub won-require_new_external :
      (s : State)
      → (require_new_external_project_mapping_claim r request id s).0.won ≡ true
      → (require_new_external_project_mapping_claim r request id s).1.mapping ≡ s.mapping
  unfolding require_new_external_project_mapping_claim
  won-require_new_external s won = grind (arith, resolve_claim-mapping)

-- ===== src/Mapping/Eligibility/Laws.antt =====
-- Collecting claims only reads: a measure of the trace stays, and so does the object in memory.
use harness_gitops_agent_ope.Common.{String, ◌≡◌, refl, Option, List, [], ◌∷◌, arith}
use harness_gitops_agent_ope.Api.{HarnessGitopsProjectMapping}
use harness_gitops_agent_ope.Mapping.Types.{ProjectMappingRequest}
use harness_gitops_agent_ope.Mapping.Environment.{Reconciler, State}
use harness_gitops_agent_ope.Mapping.Quiet.{Measure}
use harness_gitops_agent_ope.Mapping.Claims.{ClaimPriority}
use harness_gitops_agent_ope.Mapping.Eligibility.{
  resolve_project_mapping_claim_request, candidate_claim, collect_claims,
  project_mapping_claim_priority, is_provisional_external_project_mapping_claim,
}

module _ (r : Reconciler) (current : HarnessGitopsProjectMapping)
    (request : ProjectMappingRequest) where
  module _ (μ : Measure) where
    quiet-resolve :
        (candidate : HarnessGitopsProjectMapping) (s : State)
        → μ.of (resolve_project_mapping_claim_request r candidate s).1.trace ≡ μ.of s.trace
    unfolding resolve_project_mapping_claim_request
    quiet-resolve candidate s = grind (arith, μ.quiet)

    quiet-candidate_claim :
        (candidate : HarnessGitopsProjectMapping) (id : String) (provisional : Option ClaimPriority)
        (s : State)
        → μ.of (candidate_claim r current candidate request id provisional s).1.trace ≡ μ.of s.trace
    unfolding candidate_claim project_mapping_claim_priority
        is_provisional_external_project_mapping_claim
    quiet-candidate_claim candidate id provisional s = grind (arith, quiet-resolve)

    pub quiet-collect_claims :
        (id : String) (provisional : Option ClaimPriority)
        (items : List HarnessGitopsProjectMapping) (s : State)
        → μ.of (collect_claims r current request id provisional items s).1.trace ≡ μ.of s.trace
    unfolding collect_claims
    quiet-collect_claims id provisional [] s = refl
    quiet-collect_claims id provisional (candidate ∷ items) s =
        let s' = (candidate_claim r current candidate request id provisional s).1 in
        ground (
          arith,
          quiet-candidate_claim candidate id provisional s,
          quiet-collect_claims id provisional items s',
        )

  candidate_claim-mapping :
      (candidate : HarnessGitopsProjectMapping) (id : String) (provisional : Option ClaimPriority)
      (s : State)
      → (candidate_claim r current candidate request id provisional s).1.mapping ≡ s.mapping
  unfolding candidate_claim project_mapping_claim_priority
      is_provisional_external_project_mapping_claim resolve_project_mapping_claim_request
  candidate_claim-mapping candidate id provisional s = ground arith

  pub collect_claims-mapping :
      (id : String) (provisional : Option ClaimPriority) (items : List HarnessGitopsProjectMapping)
      (s : State)
      → (collect_claims r current request id provisional items s).1.mapping ≡ s.mapping
  unfolding collect_claims
  collect_claims-mapping id provisional [] s = refl
  collect_claims-mapping id provisional (candidate ∷ items) s =
      let s' = (candidate_claim r current candidate request id provisional s).1 in
      ground (
        arith,
        candidate_claim-mapping candidate id provisional s,
        collect_claims-mapping id provisional items s',
      )

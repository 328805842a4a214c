-- ===== src/Mapping/Status/Laws.antt =====
-- Status writes and arbitration keep the rules for a status.
use harness_gitops_agent_ope.Common.{ℕ, String, ◌≡◌, true, Option, none, some, List, [], ◌∷◌, arith}
use harness_gitops_agent_ope.Api.{
  ConditionStatus, HarnessGitopsAgent, HarnessGitopsProjectMapping,
  HarnessGitopsProjectMappingStatus,
}
use harness_gitops_agent_ope.Harness.Errors.{Error}
use harness_gitops_agent_ope.Mapping.Types.{ProjectMappingRequest}
use harness_gitops_agent_ope.Mapping.Environment.{Reconciler, State, record_event, listed_claims}
use harness_gitops_agent_ope.Mapping.Ready.{
  Mutation, keep, set_ready, set_ready_after, set_ready_failing, return_api_error,
  session_for_agent, update_status, ready_status,
}
use harness_gitops_agent_ope.Mapping.Claims.{ClaimPriority, claim_external}
use harness_gitops_agent_ope.Mapping.Eligibility.{
  resolve_project_mapping_claim_request, project_mapping_claim_priority,
  is_provisional_external_project_mapping_claim, candidate_claim, collect_claims,
}
use harness_gitops_agent_ope.Mapping.Arbitration.{
  resolve_project_mapping_claim, require_project_mapping_claim_with_provisional,
  require_project_mapping_claim, require_new_external_project_mapping_claim, drop_external,
}
use harness_gitops_agent_ope.Mapping.Arbitration.Laws.{resolve_claim-mapping}
use harness_gitops_agent_ope.Mapping.Status.{is_valid_status, valid_state}

module _ (r : Reconciler) where
  pub valid-set_ready :
      (status : ConditionStatus) (reason message : String) (mutate : Mutation) (s : State)
      → valid_state s ≡ true
      → is_valid_status (mutate s.mapping.status) ≡ true
      → valid_state (set_ready r status reason message mutate s).1 ≡ true
  unfolding set_ready valid_state update_status ready_status
  valid-set_ready status reason message mutate s valid h = grind (arith)

  pub valid-set_ready_after :
      (delay : ℕ) (status : ConditionStatus) (reason message : String) (mutate : Mutation)
      (s : State)
      → valid_state s ≡ true
      → is_valid_status (mutate s.mapping.status) ≡ true
      → valid_state (set_ready_after delay r status reason message mutate s).1 ≡ true
  unfolding set_ready_after
  valid-set_ready_after delay status reason message mutate s valid h =
      grind (arith, valid-set_ready)

  pub valid-set_ready_failing :
      (cause : Option Error) (reason message : String) (mutate : Mutation) (s : State)
      → valid_state s ≡ true
      → is_valid_status (mutate s.mapping.status) ≡ true
      → valid_state (set_ready_failing cause r reason message mutate s).1 ≡ true
  unfolding set_ready_failing
  valid-set_ready_failing cause reason message mutate s valid h = grind (arith, valid-set_ready)

  pub valid-session_for_agent :
      (agent : HarnessGitopsAgent) (s : State)
      → valid_state s ≡ true
      → valid_state (session_for_agent r agent s).1 ≡ true
  unfolding session_for_agent valid_state
  valid-session_for_agent agent s valid = grind (arith)

pub status-valid : (s : State) → valid_state s ≡ true → is_valid_status s.mapping.status ≡ true
unfolding valid_state
status-valid s valid = ground arith

pub valid-return_api_error :
    (r : Reconciler) (message : String) (e : Error) (s : State)
    → valid_state s ≡ true
    → valid_state (return_api_error r message e s).1 ≡ true
unfolding return_api_error
valid-return_api_error r message e s valid =
    valid-set_ready_failing r (some e) "VerificationFailed" message keep s valid
      (status-valid s valid)

module _ (r : Reconciler) (current : HarnessGitopsProjectMapping)
    (request : ProjectMappingRequest) where
  valid-candidate_claim :
      (candidate : HarnessGitopsProjectMapping) (id : String) (provisional : Option ClaimPriority)
      (s : State)
      → valid_state s ≡ true
      → valid_state (candidate_claim r current candidate request id provisional s).1 ≡ true
  unfolding candidate_claim project_mapping_claim_priority
      is_provisional_external_project_mapping_claim resolve_project_mapping_claim_request
      valid_state
  valid-candidate_claim candidate id provisional s valid = grind (arith)

  valid-collect_claims :
      (id : String) (provisional : Option ClaimPriority) (items : List HarnessGitopsProjectMapping)
      (s : State)
      → valid_state s ≡ true
      → valid_state (collect_claims r current request id provisional items s).1 ≡ true
  unfolding collect_claims
  valid-collect_claims id provisional [] s valid = valid
  valid-collect_claims id provisional (candidate ∷ items) s valid =
      let s' = (candidate_claim r current candidate request id provisional s).1 in
      ground (
        arith,
        valid-candidate_claim candidate id provisional s,
        valid-collect_claims id provisional items s',
      )

module _ (r : Reconciler) (request : ProjectMappingRequest) (id : String) where
  valid-record_event-listed :
      (s : State) → valid_state s ≡ true → valid_state (record_event listed_claims s) ≡ true
  unfolding valid_state record_event
  valid-record_event-listed s valid = valid

  pub valid-resolve_claim :
      (provisional : Option ClaimPriority) (s : State)
      → valid_state s ≡ true
      → valid_state (resolve_project_mapping_claim r request id provisional s).1 ≡ true
  unfolding resolve_project_mapping_claim
  valid-resolve_claim provisional s valid =
      grind (arith, valid-collect_claims, valid-record_event-listed)

  valid-drop_external :
      (status : HarnessGitopsProjectMappingStatus)
      → is_valid_status status ≡ true
      → is_valid_status (drop_external id status) ≡ true
  unfolding drop_external is_valid_status
  valid-drop_external status valid = grind (arith)

  valid-require_with :
      (provisional : Option ClaimPriority) (mutate : Mutation) (s : State)
      → valid_state s ≡ true
      → is_valid_status (mutate s.mapping.status) ≡ true
      → valid_state
          (require_project_mapping_claim_with_provisional r request id provisional mutate s).1
        ≡ true
  unfolding require_project_mapping_claim_with_provisional
  valid-require_with provisional mutate s valid h = grind (
    arith, valid-resolve_claim, valid-set_ready_after, valid-set_ready_failing, status-valid,
    resolve_claim-mapping,
  )

  pub valid-require_claim :
      (s : State)
      → valid_state s ≡ true
      → valid_state (require_project_mapping_claim r request id s).1 ≡ true
  unfolding require_project_mapping_claim
  valid-require_claim s valid = valid-require_with none keep s valid (status-valid s valid)

  pub valid-require_new_external :
      (s : State)
      → valid_state s ≡ true
      → valid_state (require_new_external_project_mapping_claim r request id s).1 ≡ true
  unfolding require_new_external_project_mapping_claim
  valid-require_new_external s valid =
      valid-require_with (some claim_external) (drop_external id) s valid
        (valid-drop_external s.mapping.status (status-valid s valid))

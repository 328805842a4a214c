-- ===== src/Mapping/Claims.antt =====
-- Which resource may claim a Harness mapping: internal/resource/projectmapping/claims.go.
pub mod Laws
pub mod Order
use harness_gitops_agent_ope.Common.{
  ℕ, String, Bool, true, false, ◌&&◌, ◌||◌, not, Option, none, some, List, [], ◌∷◌, ◌++◌, Result,
  ok, err, if◌then◌else◌, ltb, nat_eq,
}
use harness_gitops_agent_ope.Text.{◌==◌, ◌<>◌, trim_space, to_upper, str_lt}
use harness_gitops_agent_ope.Api.{
  ResourceOwnership, external, CreationState, settled, ObjectKey, HarnessGitopsAgent,
  HarnessGitopsProjectMapping, HarnessGitopsProjectMappingRemoteStatus,
}
use harness_gitops_agent_ope.Harness.Errors.{Error, KubeError, plain, kube, wrap}
use harness_gitops_agent_ope.Harness.Identifiers.{identifiers_equivalent}
use harness_gitops_agent_ope.Mapping.Types.{ProjectMappingRequest}
use harness_gitops_agent_ope.Mapping.Scope.{resolve_project_mapping_request}
use harness_gitops_agent_ope.Mapping.Remote.{is_deletion_ownership, is_uncertain_creation_state}
use harness_gitops_agent_ope.Mapping.Environment.{
  Environment, Reconciler, State, Event, Trace, read_agent, listed_claims, record_event,
}

pub data ClaimPriority : Type 0 where
  claim_owned claim_create_candidate claim_external claim_adoption : ClaimPriority

-- the value of the Go constant
unfoldable pub rank : ClaimPriority → ℕ
rank claim_owned = 0
rank claim_create_candidate = 1
rank claim_external = 2
rank claim_adoption = 3

-- the method String
unfoldable pub priority_text : ClaimPriority → String
priority_text claim_owned = "established owner"
priority_text claim_create_candidate = "unresolved create candidate"
priority_text claim_external = "existing external binding"
priority_text claim_adoption = "adoption request"

pub record ProjectMappingClaim : Type 0 where
  pub resource : HarnessGitopsProjectMapping
  pub priority : ClaimPriority

pub record ProjectMappingClaimDecision : Type 0 where
  pub current_wins : Bool
  pub winner : ProjectMappingClaim

unfoldable pub project_mapping_claim_less : ProjectMappingClaim → ProjectMappingClaim → Bool
unfolding rank
project_mapping_claim_less left right =
    let l = left.resource.metadata in
    let r = right.resource.metadata in
    if not (nat_eq (rank left.priority) (rank right.priority))
    then ltb (rank left.priority) (rank right.priority)
    else if not (nat_eq l.creation_timestamp r.creation_timestamp)
    then ltb l.creation_timestamp r.creation_timestamp
    else if not (l.namespace == r.namespace)
    then str_lt l.namespace r.namespace
    else if not (l.name == r.name)
    then str_lt l.name r.name
    else str_lt l.uid r.uid

unfoldable pub same_project_mapping_resource :
    HarnessGitopsProjectMapping → HarnessGitopsProjectMapping → Bool
same_project_mapping_resource left right =
    let l = left.metadata in
    let r = right.metadata in
    if not (l.namespace == r.namespace) || not (l.name == r.name)
    then false
    else if not (l.uid == "") && not (r.uid == "")
    then l.uid == r.uid
    else true

unfoldable pub project_mapping_requests_equivalent :
    ProjectMappingRequest → ProjectMappingRequest → Bool
project_mapping_requests_equivalent left right =
    let left_scope = to_upper (trim_space left.agent_scope) in
    let right_scope = to_upper (trim_space right.agent_scope) in
    left_scope == right_scope
    && trim_space left.account_identifier == trim_space right.account_identifier
    && identifiers_equivalent left_scope left.agent_identifier right.agent_identifier
    && trim_space left.agent.org_identifier == trim_space right.agent.org_identifier
    && trim_space left.agent.project_identifier == trim_space right.agent.project_identifier
    && trim_space left.mapping.org_identifier == trim_space right.mapping.org_identifier
    && trim_space left.mapping.project_identifier == trim_space right.mapping.project_identifier
    && trim_space left.argo_project_name == trim_space right.argo_project_name
    && (if left.auto_create_service_env
        then right.auto_create_service_env
        else not right.auto_create_service_env)

-- sort.Slice by `projectMappingClaimLess`
unfoldable pub insert_claim :
    ProjectMappingClaim → List ProjectMappingClaim → List ProjectMappingClaim
insert_claim c [] = c ∷ []
insert_claim c (d ∷ claims) =
    if project_mapping_claim_less d c then d ∷ insert_claim c claims else c ∷ d ∷ claims

unfoldable pub sort_claims : List ProjectMappingClaim → List ProjectMappingClaim
unfolding insert_claim
sort_claims [] = []
sort_claims (c ∷ claims) = insert_claim c (sort_claims claims)

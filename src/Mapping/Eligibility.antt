-- ===== src/Mapping/Eligibility.antt =====
-- Which listed resources claim a Harness mapping, and with which priority:
-- internal/resource/projectmapping/claims.go.
pub mod Laws
use harness_gitops_agent_ope.Common.{
  String, Bool, true, false, ◌||◌, not, Option, none, some, List, [], ◌∷◌, Result, ok, err,
  if◌then◌else◌,
}
use harness_gitops_agent_ope.Text.{◌==◌, ◌<>◌, trim_space}
use harness_gitops_agent_ope.Api.{
  external, CreationState, settled, ObjectKey, HarnessGitopsAgent, HarnessGitopsProjectMapping,
  HarnessGitopsProjectMappingRemoteStatus,
}
use harness_gitops_agent_ope.Harness.Errors.{Error, KubeError, kube, wrap}
use harness_gitops_agent_ope.Mapping.Types.{ProjectMappingRequest}
use harness_gitops_agent_ope.Mapping.Scope.{resolve_project_mapping_request}
use harness_gitops_agent_ope.Mapping.Remote.{is_deletion_ownership, is_uncertain_creation_state}
use harness_gitops_agent_ope.Mapping.Environment.{Reconciler, State, read_agent, record_event}
use harness_gitops_agent_ope.Mapping.Claims.{
  ClaimPriority, claim_owned, claim_create_candidate, claim_external, claim_adoption,
  ProjectMappingClaim, same_project_mapping_resource, project_mapping_requests_equivalent,
}

-- the Agent that the candidate names, and its request if that resolves
candidate_request :
    HarnessGitopsProjectMapping
    → Result KubeError HarnessGitopsAgent
    → Result Error (Option ProjectMappingRequest)
candidate_request candidate (err e) =
    if e.not_found
    then ok none
    else err (
        wrap
          ("read Agent for project mapping claim " <> candidate.metadata.namespace <> "/"
            <> candidate.metadata.name <> ": ")
          (kube e) "")
candidate_request candidate (ok agent) = elim (resolve_project_mapping_request agent candidate) [
  | err e ↦ ok none
  | ok request ↦ ok (some request)
]

-- `none` is the result false of `resolved`.
unfoldable pub resolve_project_mapping_claim_request :
    Reconciler
    → HarnessGitopsProjectMapping
    → State
    → Result Error (Option ProjectMappingRequest) × State
unfolding candidate_request record_event
resolve_project_mapping_claim_request r candidate s =
    let key : ObjectKey = record {
      namespace = candidate.metadata.namespace;
      name = trim_space candidate.spec.agent_ref_name;
    } in
    if trim_space candidate.spec.agent_ref_name == "" then (ok none, s) else (
      candidate_request candidate (r.env.read_agent s.trace key),
      record_event (read_agent key) s,
    )

-- the switch on a status that records the mapping ID
unfoldable pub recorded_priority :
    HarnessGitopsProjectMappingRemoteStatus → CreationState → Option ClaimPriority
recorded_priority remote state =
    if is_deletion_ownership remote.ownership
    then some claim_owned
    else if is_uncertain_creation_state state
    then some claim_create_candidate
    else elim (remote.ownership) [ external ↦ some claim_external | _ ↦ none ]

unfoldable pub status_priority : HarnessGitopsProjectMapping → String → Option ClaimPriority
unfolding recorded_priority
status_priority candidate mapping_id = elim (candidate.status.remote) [
  | none ↦ none
  | some remote ↦
      if trim_space remote.mapping_id == mapping_id
      then recorded_priority remote candidate.status.creation_state
      else none
]

-- `priority` if the candidate's request is equivalent
unfoldable pub equivalent_claim :
    ClaimPriority
    → ProjectMappingRequest
    → Result Error (Option ProjectMappingRequest)
    → Result Error (Option ClaimPriority)
equivalent_claim priority request (err e) = err e
equivalent_claim priority request (ok none) = ok none
equivalent_claim priority request (ok (some candidate)) =
    if project_mapping_requests_equivalent candidate request then ok (some priority) else ok none

-- `none` is the result false of `eligible`.
unfoldable pub project_mapping_claim_priority :
    Reconciler
    → HarnessGitopsProjectMapping
    → HarnessGitopsProjectMapping
    → ProjectMappingRequest
    → String
    → State
    → Result Error (Option ClaimPriority) × State
unfolding status_priority equivalent_claim
project_mapping_claim_priority r current candidate request mapping_id s =
    elim (status_priority candidate mapping_id) [
      | some priority ↦ (ok (some priority), s)
      | none ↦
          if not (trim_space candidate.spec.adopt_mapping_id == mapping_id)
          then (ok none, s)
          else if same_project_mapping_resource candidate current
          then (ok (some claim_adoption), s)
          else let (resolved, s') = resolve_project_mapping_claim_request r candidate s in
            (equivalent_claim claim_adoption request resolved, s')
    ]

unfoldable pub is_settled : CreationState → Bool
is_settled settled = true
is_settled _ = false

unfoldable pub is_none {ℓ} : {A : Type ℓ} → Option A → Bool
is_none none = true
is_none (some a) = false

-- `some claim_external` is the result true.
unfoldable pub is_provisional_external_project_mapping_claim :
    Reconciler
    → HarnessGitopsProjectMapping
    → ProjectMappingRequest
    → State
    → Result Error (Option ClaimPriority) × State
unfolding is_settled is_none equivalent_claim
is_provisional_external_project_mapping_claim r candidate request s =
    if not (is_none candidate.status.remote)
      || not (is_settled candidate.status.creation_state)
      || not (trim_space candidate.spec.adopt_mapping_id == "")
    then (ok none, s)
    else let (resolved, s') = resolve_project_mapping_claim_request r candidate s in
      (equivalent_claim claim_external request resolved, s')

-- the case of the loop for a candidate that is not eligible and a provisional priority
unfoldable pub provisional_claim :
    Reconciler
    → HarnessGitopsProjectMapping
    → HarnessGitopsProjectMapping
    → ProjectMappingRequest
    → Option ClaimPriority
    → State
    → Result Error (Option ClaimPriority) × State
provisional_claim r current candidate request none s = (ok none, s)
provisional_claim r current candidate request (some priority) s =
    if same_project_mapping_resource candidate current
    then (ok (some priority), s)
    else elim priority [
      | claim_external ↦ is_provisional_external_project_mapping_claim r candidate request s
      | _ ↦ (ok none, s)
    ]

-- one round of the loop: the candidate's claim, if it has one
unfoldable pub candidate_claim :
    Reconciler
    → HarnessGitopsProjectMapping
    → HarnessGitopsProjectMapping
    → ProjectMappingRequest
    → String
    → Option ClaimPriority
    → State
    → Result Error (Option ClaimPriority) × State
unfolding provisional_claim
candidate_claim r current candidate request mapping_id provisional s =
    let (answer, s') = project_mapping_claim_priority r current candidate request mapping_id s in
    elim answer [
      | err e ↦ (err e, s')
      | ok (some priority) ↦ (ok (some priority), s')
      | ok none ↦ provisional_claim r current candidate request provisional s'
    ]

abbrev pub add_claim :
    HarnessGitopsProjectMapping
    → Option ClaimPriority
    → List ProjectMappingClaim
    → List ProjectMappingClaim
add_claim resource none claims = claims
add_claim resource (some priority) claims =
    record { resource = resource; priority = priority } ∷ claims

-- the loop over the listed resources
unfoldable pub collect_claims :
    Reconciler
    → HarnessGitopsProjectMapping
    → ProjectMappingRequest
    → String
    → Option ClaimPriority
    → List HarnessGitopsProjectMapping
    → State
    → Result Error (List ProjectMappingClaim) × State
unfolding candidate_claim
collect_claims r current request mapping_id provisional [] s = (ok [], s)
collect_claims r current request mapping_id provisional (candidate ∷ items) s =
    let (answer, s') = candidate_claim r current candidate request mapping_id provisional s in
    elim answer [
      | err e ↦ (err e, s')
      | ok claim ↦
          let (rest, s'') = collect_claims r current request mapping_id provisional items s' in
          elim rest [
            | err e ↦ (err e, s'')
            | ok claims ↦ (ok (add_claim candidate claim claims), s'')
          ]
    ]

-- `currentSeen`
unfoldable pub current_seen : HarnessGitopsProjectMapping → List HarnessGitopsProjectMapping → Bool
current_seen current [] = false
current_seen current (candidate ∷ items) =
    same_project_mapping_resource candidate current || current_seen current items

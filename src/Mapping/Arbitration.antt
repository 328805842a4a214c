-- ===== src/Mapping/Arbitration.antt =====
-- The decision between claims: the resolve and require functions of
-- internal/resource/projectmapping/claims.go.
pub mod Laws
pub mod Collected
pub mod Exclusive
use harness_gitops_agent_ope.Common.{
  String, Bool, true, false, ◌&&◌, not, Option, none, some, List, [], ◌∷◌, ◌++◌, Result, ok, err,
  if◌then◌else◌,
}
use harness_gitops_agent_ope.Text.{◌==◌, ◌<>◌, trim_space, quote}
use harness_gitops_agent_ope.Api.{
  unowned, external, condition_false, ResourceOwnership, HarnessGitopsProjectMapping,
  HarnessGitopsProjectMappingRemoteStatus, HarnessGitopsProjectMappingStatus,
}
use harness_gitops_agent_ope.Harness.Errors.{Error, KubeError, plain, kube, wrap}
use harness_gitops_agent_ope.Mapping.Types.{ProjectMappingRequest}
use harness_gitops_agent_ope.Mapping.Environment.{
  Reconciler, State, Outcome, listed_claims, record_event,
}
use harness_gitops_agent_ope.Mapping.Ready.{
  Mutation, keep, set_ready_after, set_ready_failing, resync_interval,
}
use harness_gitops_agent_ope.Mapping.Claims.{
  ClaimPriority, claim_external, priority_text, ProjectMappingClaim, ProjectMappingClaimDecision,
  same_project_mapping_resource, sort_claims,
}
use harness_gitops_agent_ope.Mapping.Eligibility.{collect_claims, current_seen}

-- the claim of a current resource that the list lacks
add_unseen :
    HarnessGitopsProjectMapping
    → Option ClaimPriority
    → Bool
    → List ProjectMappingClaim
    → List ProjectMappingClaim
add_unseen current none seen claims = claims
add_unseen current (some priority) seen claims =
    if seen then claims else claims ++ record { resource = current; priority = priority } ∷ []

-- `claims[0]` of the sorted claims, if there is one
decide_sorted :
    HarnessGitopsProjectMapping
    → String
    → List ProjectMappingClaim
    → Result Error ProjectMappingClaimDecision
decide_sorted current mapping_id [] =
    err (plain ("no eligible Kubernetes claim exists for Harness mapping " <> quote mapping_id))
decide_sorted current mapping_id (winner ∷ claims) = ok (record {
  current_wins = same_project_mapping_resource winner.resource current;
  winner = winner;
})

unfoldable pub decide_claims :
    HarnessGitopsProjectMapping
    → String
    → Option ClaimPriority
    → Bool
    → List ProjectMappingClaim
    → Result Error ProjectMappingClaimDecision
unfolding add_unseen decide_sorted
decide_claims current mapping_id provisional seen claims =
    decide_sorted current mapping_id (sort_claims (add_unseen current provisional seen claims))

-- from the answer of the list call on
unfoldable pub decide_listed :
    Reconciler
    → HarnessGitopsProjectMapping
    → ProjectMappingRequest
    → String
    → Option ClaimPriority
    → Result KubeError (List HarnessGitopsProjectMapping)
    → State
    → Result Error ProjectMappingClaimDecision × State
unfolding decide_claims
decide_listed r current request mapping_id provisional (err e) s =
    (err (wrap "list HarnessGitopsProjectMapping claims: " (kube e) ""), s)
decide_listed r current request mapping_id provisional (ok items) s =
    let (collected, s') = collect_claims r current request mapping_id provisional items s in
    elim collected [
      | err e ↦ (err e, s')
      | ok claims ↦
          (decide_claims current mapping_id provisional (current_seen current items) claims, s')
    ]

-- `resolveProjectMappingClaimWithProvisional`, and with no priority `resolveProjectMappingClaim`
unfoldable pub resolve_project_mapping_claim :
    Reconciler
    → ProjectMappingRequest
    → String
    → Option ClaimPriority
    → State
    → Result Error ProjectMappingClaimDecision × State
unfolding decide_listed record_event
resolve_project_mapping_claim r request mapping_id provisional s =
    if trim_space mapping_id == ""
    then (err (plain "resolve project mapping claim: mapping ID is empty"), s)
    else if not r.api_reader
    then (err (plain "resolve project mapping claim: APIReader is not configured"), s)
    else decide_listed r s.mapping request (trim_space mapping_id) provisional
        (r.env.list_mappings s.trace) (record_event listed_claims s)

-- the three results (bool, ctrl.Result, error)
pub record ClaimResult : Type 0 where
  pub won : Bool
  pub outcome : Outcome

abbrev pub won_claim : ClaimResult
won_claim = record { won = true; outcome = record { requeue_after = 0; error = none } }

abbrev pub lost : Outcome × State → ClaimResult × State
lost (outcome, s) = (record { won = false; outcome = outcome }, s)

-- `requireProjectMappingClaimWithProvisional`
unfoldable pub require_project_mapping_claim_with_provisional :
    Reconciler
    → ProjectMappingRequest
    → String
    → Option ClaimPriority
    → Mutation
    → State
    → ClaimResult × State
require_project_mapping_claim_with_provisional r request mapping_id provisional on_conflict s =
    let (answer, s') = resolve_project_mapping_claim r request mapping_id provisional s in
    elim answer [
      | err e ↦ lost (
          set_ready_failing (some e) r "OwnershipConflict"
            ("Unable to verify exclusive ownership of Harness mapping "
              <> quote (trim_space mapping_id))
            keep s')
      | ok decision ↦
          if decision.current_wins
          then (won_claim, s')
          else lost (
              set_ready_after (resync_interval r) r condition_false "OwnershipConflict"
                ("Harness mapping "
                  <> quote (trim_space mapping_id)
                  <> " is claimed by HarnessGitopsProjectMapping "
                  <> decision.winner.resource.metadata.namespace
                  <> "/"
                  <> decision.winner.resource.metadata.name
                  <> " ("
                  <> priority_text decision.winner.priority
                  <> ")")
                on_conflict s')
    ]

-- `requireProjectMappingClaim`
unfoldable pub require_project_mapping_claim :
    Reconciler → ProjectMappingRequest → String → State → ClaimResult × State
unfolding require_project_mapping_claim_with_provisional
require_project_mapping_claim r request mapping_id s =
    require_project_mapping_claim_with_provisional r request mapping_id none keep s

is_external : ResourceOwnership → Bool
is_external external = true
is_external _ = false

-- The conflict mutation of a new external claim drops an external binding of the same ID.
drop_external_remote :
    String → HarnessGitopsProjectMappingRemoteStatus → HarnessGitopsProjectMappingRemoteStatus
drop_external_remote mapping_id remote =
    if trim_space remote.mapping_id == trim_space mapping_id && is_external remote.ownership
    then record remote { ownership = unowned }
    else remote

unfoldable pub drop_external : String → Mutation
unfolding is_external drop_external_remote
drop_external mapping_id status = elim (status.remote) [
  | none ↦ status
  | some remote ↦ record status { remote = some (drop_external_remote mapping_id remote) }
]

-- `requireNewExternalProjectMappingClaim`
unfoldable pub require_new_external_project_mapping_claim :
    Reconciler → ProjectMappingRequest → String → State → ClaimResult × State
unfolding require_project_mapping_claim_with_provisional
require_new_external_project_mapping_claim r request mapping_id s =
    require_project_mapping_claim_with_provisional r request mapping_id (some claim_external)
      (drop_external mapping_id) s

-- ===== src/Mapping/Verify.antt =====
-- A reconcile that found one row for the mapping: `reconcileSelectedMapping` of
-- internal/resource/projectmapping/reconciler.go.
pub mod Laws
use harness_gitops_agent_ope.Common.{
  String, Bool, true, false, ◌&&◌, not, Option, none, some, if◌then◌else◌,
}
use harness_gitops_agent_ope.Text.{◌==◌, ◌<>◌, trim_space, quote}
use harness_gitops_agent_ope.Api.{
  ResourceOwnership, unowned, managed, adopted, external, ownership_text, CreationState, settled,
  pending, outcome_unknown, ConditionStatus, condition_true, condition_false,
  HarnessGitopsProjectMapping, HarnessGitopsProjectMappingRemoteStatus,
}
use harness_gitops_agent_ope.Mapping.Types.{ProjectMappingRequest, ProjectMapping}
use harness_gitops_agent_ope.Mapping.Remote.{
  is_deletion_ownership, is_uncertain_creation_state, remote_status_for_observed,
  unresolved_remote_status,
}
use harness_gitops_agent_ope.Mapping.Selection.{remembered_id_of, remembered_ownership_of}
use harness_gitops_agent_ope.Mapping.Environment.{Reconciler, State, Outcome}
use harness_gitops_agent_ope.Mapping.Ready.{Mutation, keep, set_ready_after, resync_interval}
use harness_gitops_agent_ope.Mapping.Arbitration.{
  ClaimResult, require_project_mapping_claim, require_new_external_project_mapping_claim,
}

-- The local variables of `reconcileSelectedMapping`.
pub record Selected : Type 0 where
  pub request : ProjectMappingRequest
  pub observed : ProjectMapping
  pub observed_id : String
  pub adopt_id : String
  pub remembered_id : String
  pub remembered_ownership : ResourceOwnership
  pub creation_state : CreationState

unfoldable pub selected_locals :
    ProjectMappingRequest → ProjectMapping → HarnessGitopsProjectMapping → Selected
selected_locals request observed mapping = record {
  request = request;
  observed = observed;
  observed_id = trim_space observed.identifier;
  adopt_id = trim_space mapping.spec.adopt_mapping_id;
  remembered_id = remembered_id_of mapping.status.remote;
  remembered_ownership = remembered_ownership_of mapping.status.remote;
  creation_state = mapping.status.creation_state;
}

-- the closure `record`
unfoldable pub record_status :
    Reconciler → ConditionStatus → String → String → Mutation → State → Outcome × State
record_status r status reason message mutate s =
    set_ready_after (resync_interval r) r status reason message mutate s

-- `if !won { return result, err }`
unfoldable pub if_won : ClaimResult × State → (State → Outcome × State) → Outcome × State
if_won (claim, s) next = if claim.won then next s else (claim.outcome, s)

-- `status.Remote.Ownership = ownership`; the code runs it only where a remote is recorded
unfoldable pub own_remote :
    ResourceOwnership
    → Option HarnessGitopsProjectMappingRemoteStatus
    → Option HarnessGitopsProjectMappingRemoteStatus
own_remote ownership none = none
own_remote ownership (some remote) = some (record remote { ownership = ownership })

-- the mutations
unfoldable pub settle : Mutation
settle status = record status { creation_state = settled }

unfoldable pub take_ownership : ResourceOwnership → Mutation
unfolding own_remote
take_ownership ownership status = record status {
  creation_state = settled;
  remote = own_remote ownership status.remote;
}

unfoldable pub leave_unresolved : ProjectMappingRequest → Mutation
leave_unresolved request status = record status {
  creation_state = outcome_unknown;
  remote = some (unresolved_remote_status status.remote request);
}

unfoldable pub observe : Selected → CreationState → ResourceOwnership → Mutation
observe v state ownership status = record status {
  creation_state = state;
  remote =
      some (record (remote_status_for_observed v.request v.observed) { ownership = ownership });
}

-- behind the test `unresolvedCandidate`: no create candidate is remembered
unfoldable pub reconcile_observed : Reconciler → Selected → State → Outcome × State
unfolding record_status if_won observe
reconcile_observed r v s =
    if v.adopt_id == v.observed_id
    then if_won (require_project_mapping_claim r v.request v.observed_id s) (
        record_status r condition_true "MappingAdopted"
          "The exact Harness mapping was explicitly adopted" (observe v settled adopted))
    else if is_uncertain_creation_state v.creation_state
    then (if v.adopt_id == ""
          then record_status r condition_false "CreateOutcomeUnknown"
              "An exact mapping exists, but create ownership is unresolved; set spec.adoptMappingId to claim it"
          else record_status r condition_false "AdoptionFailed" (
              "Harness mapping "
              <> quote v.adopt_id
              <> " does not match the observed create candidate "
              <> quote v.observed_id))
        (observe v outcome_unknown unowned) s
    else if not (v.adopt_id == "")
    then record_status r condition_false "AdoptionFailed"
        ("Harness mapping "
          <> quote v.adopt_id
          <> " does not match the observed exact mapping "
          <> quote v.observed_id)
        (observe v settled unowned) s
    else if_won (require_new_external_project_mapping_claim r v.request v.observed_id s) (
        record_status r condition_true "MappingExternal"
          "The exact Harness mapping exists and is treated as external"
          (observe v settled external))

-- the end of the block `if unresolvedCandidate`
unfoldable pub candidate_unresolved : Reconciler → Selected → State → Outcome × State
unfolding record_status leave_unresolved
candidate_unresolved r v s =
    (if v.adopt_id == ""
        then record_status r condition_false "CreateOutcomeUnknown"
            "Create ownership remains unresolved; adopt the remembered candidate ID or replace the resource"
        else record_status r condition_false "AdoptionFailed" (
            "Harness mapping "
            <> quote v.adopt_id
            <> " is not the remembered create candidate "
            <> quote v.remembered_id))
      (leave_unresolved v.request) s

-- the block `if unresolvedCandidate`
unfoldable pub reconcile_candidate : Reconciler → Selected → State → Outcome × State
unfolding candidate_unresolved if_won take_ownership
reconcile_candidate r v s =
    if not (v.adopt_id == "") && not (v.adopt_id == v.remembered_id)
    then record_status r condition_false "AdoptionFailed"
        ("Create candidate "
          <> quote v.remembered_id
          <> " cannot be replaced by adoption of "
          <> quote v.adopt_id)
        (leave_unresolved v.request) s
    else if not (v.observed_id == v.remembered_id)
    then candidate_unresolved r v s
    else if v.adopt_id == v.remembered_id
    then if_won (require_project_mapping_claim r v.request v.remembered_id s) (
        record_status r condition_true "MappingAdopted"
          "The exact create candidate was explicitly adopted" (take_ownership adopted))
    else elim (v.creation_state) [
      | pending ↦ if_won (require_project_mapping_claim r v.request v.remembered_id s) (
          record_status r condition_true "MappingVerified"
            "The controller-created Harness mapping was verified by its returned ID"
            (take_ownership managed))
      | _ ↦ candidate_unresolved r v s
    ]

unfoldable pub reconcile_unproven : Reconciler → Selected → State → Outcome × State
reconcile_unproven r v s =
    if is_uncertain_creation_state v.creation_state && not (v.remembered_id == "")
    then reconcile_candidate r v s
    else reconcile_observed r v s

-- the block `if ownershipProven`, and the code behind it where the block does not return
unfoldable pub reconcile_owned : Reconciler → Selected → State → Outcome × State
unfolding record_status if_won settle
reconcile_owned r v s =
    if not (v.adopt_id == "") && not (v.adopt_id == v.remembered_id)
    then record_status r condition_false "AdoptionFailed"
        ("Cannot transfer "
          <> ownership_text v.remembered_ownership
          <> " ownership from Harness mapping "
          <> quote v.remembered_id
          <> " to "
          <> quote v.adopt_id)
        keep s
    else if v.observed_id == v.remembered_id
    then if_won (require_project_mapping_claim r v.request v.remembered_id s) (
        record_status r condition_true "MappingVerified"
          "The owned Harness mapping still matches the complete desired tuple" settle)
    else if not (v.adopt_id == "")
    then record_status r condition_false "AdoptionFailed"
        ("Owned Harness mapping "
          <> quote v.remembered_id
          <> " is absent; adoption cannot transfer ownership")
        keep s
    else reconcile_unproven r v s

-- `reconcileSelectedMapping`
unfoldable pub reconcile_selected_mapping :
    Reconciler → ProjectMappingRequest → ProjectMapping → State → Outcome × State
unfolding selected_locals
reconcile_selected_mapping r request observed s =
    let v = selected_locals request observed s.mapping in
    if is_deletion_ownership v.remembered_ownership && not (v.remembered_id == "")
    then reconcile_owned r v s
    else reconcile_unproven r v s

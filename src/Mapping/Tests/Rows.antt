-- ===== src/Mapping/Tests/Rows.antt =====
-- Requests, rows and claims.
use mathlib.Core.List.{Memᴰ}
use harness_gitops_agent_ope.Common.{◌≡◌, refl, true, false, none, [], ◌∷◌, ok, any}
use harness_gitops_agent_ope.Text.{◌==◌, trim_space, to_upper, after_dot, equal_fold}
use harness_gitops_agent_ope.Api.{managed}
use harness_gitops_agent_ope.Harness.Identifiers.{
  identifiers_equivalent, scoped_identifier_candidates,
}
use harness_gitops_agent_ope.Harness.Identifiers
use harness_gitops_agent_ope.Mapping.Scope.{
  resolve_project_mapping_request, base_request, resolved_agent_identifier, scope_input,
  resolve_scope, resolve_account_scope,
}
use harness_gitops_agent_ope.Mapping.Remote.{
  is_uncertain_creation_state, is_deletion_ownership, remote_status_for_request,
  project_mapping_matches,
}
use harness_gitops_agent_ope.Mapping.Selection.{
  select_project_mapping, remembered_id_of, scan_mapping, scan_mappings, scan_start, select_scanned,
  project_mapping_with_id, remembered_ownership_of, scan_input,
}
use harness_gitops_agent_ope.Mapping.Tests.{
  resource, agent, row, request, owned_resource, rival, drifted_row, other_row, reconciler, start,
}
use harness_gitops_agent_ope.Api.{HarnessGitopsProjectMapping}
use harness_gitops_agent_ope.Mapping.Tests.{rival, reconciler}
use harness_gitops_agent_ope.Mapping.CleanupIdentity.{project_mapping_cleanup_request}
use harness_gitops_agent_ope.Mapping.CleanupIdentity.RoundTrip.{cleanup_request-recorded}
use harness_gitops_agent_ope.Mapping.Selection.Laws.{
  scan_mappings-eq-scan_onto, scan_onto, same_app_project, drifted,
}
use harness_gitops_agent_ope.Mapping.Selection.Choice.{select_sound, select-drifted, select-free}
use harness_gitops_agent_ope.Mapping.Claims.{
  ProjectMappingClaim, ProjectMappingClaimDecision, claim_owned, claim_adoption, sort_claims,
  project_mapping_claim_less, same_project_mapping_resource,
}
use harness_gitops_agent_ope.Mapping.Eligibility.{
  collect_claims, project_mapping_claim_priority, status_priority,
}
use harness_gitops_agent_ope.Mapping.Arbitration.{resolve_project_mapping_claim}
use harness_gitops_agent_ope.Mapping.Arbitration.Exclusive.{one-owner-wins}

cleanup_request-recorded_example :
    project_mapping_cleanup_request
      (record (remote_status_for_request request) { mapping_id = " id "; ownership = managed })
    ≡ ok (request, trim_space " id ")
unfolding resolve_project_mapping_request resolve_scope resolve_account_scope base_request
    scope_input resolved_agent_identifier trim_space to_upper
cleanup_request-recorded_example =
    cleanup_request-recorded agent resource request " id " managed refl refl

select_sound_example :
    Memᴰ row (other_row ∷ row ∷ [])
    × (project_mapping_matches row request ≡ true)
    × (any (drifted (scan_input request resource)) (other_row ∷ row ∷ []) ≡ false)
unfolding select_project_mapping scan_start scan_input scan_mappings scan_mapping select_scanned
    project_mapping_matches project_mapping_with_id remembered_id_of remembered_ownership_of
    is_deletion_ownership is_uncertain_creation_state identifiers_equivalent
    scoped_identifier_candidates Identifiers.listed after_dot equal_fold trim_space to_upper
select_sound_example = select_sound (other_row ∷ row ∷ []) request resource {m = row} refl

select-drifted_example :
    ((select_project_mapping (drifted_row ∷ row ∷ []) request owned_resource).mapping ≡ none)
    × ((select_project_mapping (drifted_row ∷ row ∷ []) request owned_resource).conflict ≡ true)
unfolding scan_input project_mapping_matches remembered_id_of remembered_ownership_of
    is_deletion_ownership identifiers_equivalent scoped_identifier_candidates Identifiers.listed
    after_dot equal_fold trim_space to_upper
select-drifted_example = select-drifted (drifted_row ∷ row ∷ []) request owned_resource refl

select-free_example : any (same_app_project request) (other_row ∷ []) ≡ false
unfolding select_project_mapping scan_start scan_input scan_mappings scan_mapping select_scanned
    project_mapping_matches trim_space remembered_id_of remembered_ownership_of
    is_deletion_ownership
select-free_example = select-free (other_row ∷ []) request resource refl refl refl

scan_mappings-eq-scan_onto_example :
    scan_mappings (scan_input request owned_resource) (row ∷ drifted_row ∷ []) scan_start
    ≡ scan_onto (scan_input request owned_resource) scan_start (row ∷ drifted_row ∷ [])
scan_mappings-eq-scan_onto_example =
    scan_mappings-eq-scan_onto (scan_input request owned_resource) (row ∷ drifted_row ∷ [])
      scan_start

abbrev older : ProjectMappingClaim
older = record { resource = owned_resource; priority = claim_owned }

abbrev adopter : ProjectMappingClaim
adopter = record { resource = resource; priority = claim_adoption }

-- the decision for the older of two owners
abbrev decision : ProjectMappingClaimDecision
decision = record { current_wins = true; winner = older }

older_wins :
    (resolve_project_mapping_claim
      (reconciler owned_resource [])
      request
      "id"
      none
      (start owned_resource)).0
    ≡ ok decision
unfolding resolve_project_mapping_claim collect_claims project_mapping_claim_priority sort_claims
    project_mapping_claim_less same_project_mapping_resource trim_space status_priority
    is_deletion_ownership
older_wins = refl

one-owner-wins_example :
    ((owned_resource.metadata.namespace == owned_resource.metadata.namespace) ≡ true)
    × ((owned_resource.metadata.name == owned_resource.metadata.name) ≡ true)
unfolding status_priority is_deletion_ownership trim_space
one-owner-wins_example =
    one-owner-wins (reconciler owned_resource []) (reconciler owned_resource []) request request
      "id" (start owned_resource) (start owned_resource) (owned_resource ∷ rival ∷ []) decision
      decision refl refl (Memᴰ.head refl) (Memᴰ.head refl) refl refl older_wins older_wins refl refl

-- the API server lists the two mappings that refer to the Agent, and not the one that refers to another
abbrev stranger : HarnessGitopsProjectMapping
stranger = record resource { spec = record (resource.spec) { agent_ref_name = "other" } }

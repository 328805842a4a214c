-- ===== src/Mapping/Status/Verify.antt =====
-- A reconcile that found a row keeps the rules for a status.
use harness_gitops_agent_ope.Common.{String, ◌≡◌, true, false, arith}
use harness_gitops_agent_ope.Text.{◌==◌, trim_space}
use harness_gitops_agent_ope.Text.Trim.{nonempty-trim_space}
use harness_gitops_agent_ope.Api.{
  ResourceOwnership, unowned, CreationState, HarnessGitopsProjectMappingStatus, ConditionStatus,
}
use harness_gitops_agent_ope.Mapping.Types.{ProjectMappingRequest, ProjectMapping}
use harness_gitops_agent_ope.Mapping.Environment.{Reconciler, State}
use harness_gitops_agent_ope.Mapping.Ready.{Mutation}
use harness_gitops_agent_ope.Mapping.Remote.{
  remote_status_for_request, remote_status_for_observed, with_agent_identifier,
  unresolved_remote_status,
}
use harness_gitops_agent_ope.Mapping.Selection.{remembered_id_of}
use harness_gitops_agent_ope.Mapping.Arbitration.{
  require_project_mapping_claim, require_new_external_project_mapping_claim,
}
use harness_gitops_agent_ope.Mapping.Arbitration.Laws.{won-require_claim, won-require_new_external}
use harness_gitops_agent_ope.Mapping.Verify.{
  Selected, selected_locals, record_status, if_won, settle, take_ownership, leave_unresolved,
  observe, reconcile_observed, candidate_unresolved, reconcile_candidate, reconcile_unproven,
  reconcile_owned, reconcile_selected_mapping,
}
use harness_gitops_agent_ope.Mapping.Status.{is_valid_status, valid_state}
use harness_gitops_agent_ope.Mapping.Status.Laws.{
  valid-set_ready_after, status-valid, valid-require_claim, valid-require_new_external,
}

module _ (status : HarnessGitopsProjectMappingStatus) where
  pub valid-leave_unresolved :
      (request : ProjectMappingRequest) → is_valid_status (leave_unresolved request status) ≡ true
  unfolding leave_unresolved is_valid_status unresolved_remote_status remote_status_for_request
  valid-leave_unresolved request = grind (arith)

  valid-settle : is_valid_status status ≡ true → is_valid_status (settle status) ≡ true
  unfolding settle is_valid_status
  valid-settle valid = grind (arith)

  valid-observe :
      (v : Selected) (state : CreationState) (ownership : ResourceOwnership)
      → (trim_space v.observed.identifier == "") ≡ false
      → is_valid_status (observe v state ownership status) ≡ true
  unfolding observe is_valid_status remote_status_for_observed with_agent_identifier
  valid-observe v state ownership h = grind (arith)

  valid-observe_unowned :
      (v : Selected) (state : CreationState)
      → is_valid_status (observe v state unowned status) ≡ true
  unfolding observe is_valid_status remote_status_for_observed with_agent_identifier
  valid-observe_unowned v state = grind (arith)

  valid-take_ownership :
      (ownership : ResourceOwnership)
      → (remembered_id_of status.remote == "") ≡ false
      → is_valid_status (take_ownership ownership status) ≡ true
  unfolding take_ownership is_valid_status remembered_id_of
  valid-take_ownership ownership h = grind (arith, nonempty-trim_space)

module _ (r : Reconciler) where
  valid-record :
      (status : ConditionStatus) (reason message : String) (mutate : Mutation) (s : State)
      → valid_state s ≡ true
      → is_valid_status (mutate s.mapping.status) ≡ true
      → valid_state (record_status r status reason message mutate s).1 ≡ true
  unfolding record_status
  valid-record status reason message mutate s valid h = grind (arith, valid-set_ready_after)

  -- what a claim leaves
  won-keeps :
      (request : ProjectMappingRequest) (id : String) (status : ConditionStatus)
      (reason message : String) (mutate : Mutation) (s : State)
      → valid_state s ≡ true
      → is_valid_status (mutate s.mapping.status) ≡ true
      → valid_state
          (if_won
            (require_project_mapping_claim r request id s)
            (record_status r status reason message mutate)).1
        ≡ true
  unfolding if_won
  won-keeps request id status reason message mutate s valid h =
      grind (arith, valid-record, valid-require_claim, won-require_claim)

  won-external :
      (request : ProjectMappingRequest) (id : String) (status : ConditionStatus)
      (reason message : String) (mutate : Mutation) (s : State)
      → valid_state s ≡ true
      → is_valid_status (mutate s.mapping.status) ≡ true
      → valid_state
          (if_won
            (require_new_external_project_mapping_claim r request id s)
            (record_status r status reason message mutate)).1
        ≡ true
  unfolding if_won
  won-external request id status reason message mutate s valid h =
      grind (arith, valid-record, valid-require_new_external, won-require_new_external)

  valid-observed :
      (v : Selected) (s : State)
      → valid_state s ≡ true
      → (trim_space v.observed.identifier == "") ≡ false
      → valid_state (reconcile_observed r v s).1 ≡ true
  unfolding reconcile_observed
  valid-observed v s valid h =
      grind (arith, valid-record, won-keeps, won-external, valid-observe, valid-observe_unowned)

  valid-unresolved :
      (v : Selected) (s : State)
      → valid_state s ≡ true
      → valid_state (candidate_unresolved r v s).1 ≡ true
  unfolding candidate_unresolved
  valid-unresolved v s valid = grind (arith, valid-record, valid-leave_unresolved)

  valid-candidate :
      (v : Selected) (s : State)
      → valid_state s ≡ true
      → (remembered_id_of s.mapping.status.remote == "") ≡ false
      → valid_state (reconcile_candidate r v s).1 ≡ true
  unfolding reconcile_candidate
  valid-candidate v s valid h = grind (
    arith, valid-record, won-keeps, valid-unresolved, valid-leave_unresolved, valid-take_ownership,
  )

  valid-unproven :
      (v : Selected) (s : State)
      → valid_state s ≡ true
      → (trim_space v.observed.identifier == "") ≡ false
      → v.remembered_id ≡ remembered_id_of s.mapping.status.remote
      → valid_state (reconcile_unproven r v s).1 ≡ true
  unfolding reconcile_unproven
  valid-unproven v s valid h e = grind (arith, valid-candidate, valid-observed)

  valid-owned :
      (v : Selected) (s : State)
      → valid_state s ≡ true
      → (trim_space v.observed.identifier == "") ≡ false
      → v.remembered_id ≡ remembered_id_of s.mapping.status.remote
      → valid_state (reconcile_owned r v s).1 ≡ true
  unfolding reconcile_owned
  valid-owned v s valid h e =
      grind (arith, valid-unproven, valid-record, won-keeps, valid-settle, status-valid)

  pub valid-reconcile_selected :
      (request : ProjectMappingRequest) (observed : ProjectMapping) (s : State)
      → valid_state s ≡ true
      → (trim_space observed.identifier == "") ≡ false
      → valid_state (reconcile_selected_mapping r request observed s).1 ≡ true
  unfolding reconcile_selected_mapping selected_locals
  valid-reconcile_selected request observed s valid h = grind (arith, valid-owned, valid-unproven)

-- ===== src/Mapping/Create/Owned.antt =====
-- A reconcile does not touch the recorded remote of a resource whose owned row Harness still lists.
use harness_gitops_agent_ope.Common.{
  ℕ, String, ◌≡◌, true, false, Option, some, List, ok, arith, inl, inr,
}
use harness_gitops_agent_ope.Text.{◌==◌, trim_space}
use harness_gitops_agent_ope.Api.{ConditionStatus}
use harness_gitops_agent_ope.Harness.Errors.{Error}
use harness_gitops_agent_ope.Harness.Session.{Session}
use harness_gitops_agent_ope.Mapping.Types.{ProjectMappingRequest, ProjectMapping}
use harness_gitops_agent_ope.Mapping.Environment.{Reconciler, State, listed, record_event}
use harness_gitops_agent_ope.Mapping.Ready.{
  Mutation, set_ready_after, set_ready_failing, ready_status, update_status,
}
use harness_gitops_agent_ope.Mapping.Remote.{
  is_deletion_ownership, preserve_mapping_failure_state, is_owned_remote,
}
use harness_gitops_agent_ope.Mapping.Selection.{
  ProjectMappingSelection, project_mapping_with_id, remembered_id_of, remembered_ownership_of,
}
use harness_gitops_agent_ope.Mapping.Selection.Owned.{select-owned, with_id-nonempty}
use harness_gitops_agent_ope.Mapping.Arbitration.{
  require_project_mapping_claim, require_project_mapping_claim_with_provisional,
}
use harness_gitops_agent_ope.Mapping.Arbitration.Laws.{resolve_claim-mapping}
use harness_gitops_agent_ope.Mapping.Verify.{
  Selected, selected_locals, record_status, if_won, settle, reconcile_owned,
  reconcile_selected_mapping,
}
use harness_gitops_agent_ope.Mapping.Create.{
  reconcile_unselected, reconcile_rows, reconcile_harness_mapping,
}

module _ (r : Reconciler) where
  remote-set_ready_after :
      (delay : ℕ) (status : ConditionStatus) (reason message : String) (mutate : Mutation)
      (s : State)
      → (set_ready_after delay r status reason message mutate s).1.mapping.status.remote
        ≡ (mutate s.mapping.status).remote
  unfolding set_ready_after update_status ready_status
  remote-set_ready_after delay status reason message mutate s = grind (arith)

  remote-set_ready_failing :
      (cause : Option Error) (reason message : String) (mutate : Mutation) (s : State)
      → (set_ready_failing cause r reason message mutate s).1.mapping.status.remote
        ≡ (mutate s.mapping.status).remote
  unfolding set_ready_failing update_status ready_status
  remote-set_ready_failing cause reason message mutate s = grind (arith)

  remote-require_claim :
      (request : ProjectMappingRequest) (id : String) (s : State)
      → (require_project_mapping_claim r request id s).1.mapping.status.remote
        ≡ s.mapping.status.remote
  unfolding require_project_mapping_claim require_project_mapping_claim_with_provisional
  remote-require_claim request id s =
      grind (arith, remote-set_ready_after, remote-set_ready_failing, resolve_claim-mapping)

  remote-owned :
      (v : Selected) (s : State)
      → (v.observed_id == v.remembered_id) ≡ true
      → (reconcile_owned r v s).1.mapping.status.remote ≡ s.mapping.status.remote
  unfolding reconcile_owned if_won record_status settle
  remote-owned v s same = grind (arith, remote-set_ready_after, remote-require_claim)

  remote-selected :
      (request : ProjectMappingRequest) (observed : ProjectMapping) (s : State)
      → is_deletion_ownership (remembered_ownership_of s.mapping.status.remote) ≡ true
      → (remembered_id_of s.mapping.status.remote == "") ≡ false
      → (trim_space observed.identifier == remembered_id_of s.mapping.status.remote) ≡ true
      → (reconcile_selected_mapping r request observed s).1.mapping.status.remote
        ≡ s.mapping.status.remote
  unfolding reconcile_selected_mapping selected_locals
  remote-selected request observed s owned nonempty same = grind (arith, remote-owned)

  remote-preserve :
      (session : Session) (request : ProjectMappingRequest) (selection : ProjectMappingSelection)
      (s : State)
      → is_deletion_ownership (remembered_ownership_of s.mapping.status.remote) ≡ true
      → selection.conflict ≡ true
      → (reconcile_unselected r session request selection s).1.mapping.status.remote
        ≡ s.mapping.status.remote
  unfolding reconcile_unselected preserve_mapping_failure_state is_owned_remote
      remembered_ownership_of
  remote-preserve session request selection s owned conflict = grind (arith, remote-set_ready_after)

  remote-rows :
      (session : Session) (request : ProjectMappingRequest) (rows : List ProjectMapping) (s : State)
      (row : ProjectMapping)
      → is_deletion_ownership (remembered_ownership_of s.mapping.status.remote) ≡ true
      → project_mapping_with_id rows (remembered_id_of s.mapping.status.remote) ≡ some row
      → (reconcile_rows r session request rows s).1.mapping.status.remote ≡ s.mapping.status.remote
  unfolding reconcile_rows
  remote-rows session request rows s row owned found =
      let nonempty = with_id-nonempty rows (remembered_id_of s.mapping.status.remote) found in
      elim (select-owned rows request s.mapping row owned found) [
        | inl (missing, conflict) ↦ grind (arith, remote-preserve)
        | inr (m, chosen, same) ↦ grind (arith, remote-selected)
      ]

  -- While Harness lists a row with the ID that a Managed or Adopted resource records, no reconcile
  -- with Harness changes the recorded remote: neither the ID nor the ownership nor the tuple, be the
  -- row as it was or drifted, the claim won or lost, an adoption asked for or not.
  pub owned-keeps-remote :
      (session : Session) (request : ProjectMappingRequest) (s : State) (rows : List ProjectMapping)
      (row : ProjectMapping)
      → r.env.list s.trace session request ≡ ok rows
      → is_deletion_ownership (remembered_ownership_of s.mapping.status.remote) ≡ true
      → project_mapping_with_id rows (remembered_id_of s.mapping.status.remote) ≡ some row
      → (reconcile_harness_mapping r session request s).1.mapping.status.remote
        ≡ s.mapping.status.remote
  unfolding reconcile_harness_mapping record_event
  owned-keeps-remote session request s rows row answer owned found =
      let s' = record_event (listed request) s in
      ground (arith, answer, remote-rows session request rows s' row owned found)

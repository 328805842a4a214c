-- ===== src/Mapping/Status/Finalize.antt =====
-- A cleanup keeps the rules for a status.
use harness_gitops_agent_ope.Common.{
  String, ◌≡◌, true, false, Option, List, arith, Result-cases, inl, inr,
}
use harness_gitops_agent_ope.Text.{◌==◌}
use harness_gitops_agent_ope.Api.{
  HarnessGitopsAgent, HarnessGitopsProjectMappingRemoteStatus, HarnessGitopsProjectMappingStatus,
  ObjectKey,
}
use harness_gitops_agent_ope.Harness.Errors.{Error}
use harness_gitops_agent_ope.Mapping.Types.{ProjectMappingRequest, ProjectMapping}
use harness_gitops_agent_ope.Mapping.Environment.{
  Reconciler, State, record_event, deleted, read_agent,
}
use harness_gitops_agent_ope.Mapping.Finalizers.{remove_finalizer}
use harness_gitops_agent_ope.Mapping.CleanupIdentity.{
  CleanupIdentity, project_mapping_cleanup_request,
}
use harness_gitops_agent_ope.Mapping.CleanupIdentity.Laws.{cleanup_request-nonempty}
use harness_gitops_agent_ope.Mapping.Cleanup.{
  Cleanup, block_mapping_cleanup, fail_mapping_cleanup, authorize_project_mapping_cleanup,
  recover_ownership, record_recovery, recovered_remote, delete_remote, cleanup_absent,
  cleanup_drifted, cleanup_rows,
}
use harness_gitops_agent_ope.Mapping.Finalize.{
  cleanup_with_session, cleanup_with_agent, cleanup_claimed, cleanup_recorded, cleanup_identity,
  finalize_project_mapping,
}
use harness_gitops_agent_ope.Mapping.Status.{is_valid_status, valid_state}
use harness_gitops_agent_ope.Mapping.Status.Create.{valid-listed}
use harness_gitops_agent_ope.Mapping.Status.Laws.{
  valid-set_ready, valid-set_ready_after, valid-set_ready_failing, valid-session_for_agent,
  valid-resolve_claim, status-valid,
}

ruleset write_rules =
    (valid-set_ready, valid-set_ready_after, valid-set_ready_failing, status-valid)

module _ (s : State) (valid : valid_state s ≡ true) where
  valid-deleted :
      (request : ProjectMappingRequest) (id : String)
      → valid_state (record_event (deleted request id) s) ≡ true
  unfolding valid_state record_event
  valid-deleted request id = valid

  valid-read : (key : ObjectKey) → valid_state (record_event (read_agent key) s) ≡ true
  unfolding valid_state record_event
  valid-read key = valid

module _ (r : Reconciler) where
  valid-remove_finalizer :
      (s : State) → valid_state s ≡ true → valid_state (remove_finalizer r s).1 ≡ true
  unfolding remove_finalizer valid_state
  valid-remove_finalizer s valid = grind (arith)

  valid-block :
      (message : String) (cause : Option Error) (s : State)
      → valid_state s ≡ true
      → valid_state (block_mapping_cleanup r message cause s).1 ≡ true
  unfolding block_mapping_cleanup
  valid-block message cause s valid = grind (arith, write_rules)

  valid-fail :
      (message : String) (cause : Error) (s : State)
      → valid_state s ≡ true
      → valid_state (fail_mapping_cleanup r message cause s).1 ≡ true
  unfolding fail_mapping_cleanup
  valid-fail message cause s valid = grind (arith, write_rules)

  valid-authorize :
      (request : ProjectMappingRequest) (id : String) (s : State)
      → valid_state s ≡ true
      → valid_state (authorize_project_mapping_cleanup r request id s).1 ≡ true
  unfolding authorize_project_mapping_cleanup
  valid-authorize request id s valid =
      grind (arith, valid-fail, valid-remove_finalizer, valid-resolve_claim)

  valid-record_recovery :
      (c : Cleanup) (status : HarnessGitopsProjectMappingStatus)
      → (c.mapping_id == "") ≡ false
      → is_valid_status (record_recovery c status) ≡ true
  unfolding record_recovery recovered_remote is_valid_status
  valid-record_recovery c status h = grind (arith)

  valid-recover :
      (c : Cleanup) (s : State)
      → valid_state s ≡ true
      → (c.mapping_id == "") ≡ false
      → valid_state (recover_ownership r c s).1 ≡ true
  unfolding recover_ownership
  valid-recover c s valid h = grind (arith, write_rules, valid-record_recovery)

  valid-delete :
      (c : Cleanup) (s : State) → valid_state s ≡ true → valid_state (delete_remote r c s).1 ≡ true
  unfolding delete_remote
  valid-delete c s valid = grind (arith, valid-deleted, valid-fail, valid-remove_finalizer)

  valid-absent :
      (c : Cleanup) (s : State) → valid_state s ≡ true → valid_state (cleanup_absent r c s).1 ≡ true
  unfolding cleanup_absent
  valid-absent c s valid = grind (arith, write_rules, valid-block, valid-remove_finalizer)

  valid-drifted :
      (c : Cleanup) (s : State)
      → valid_state s ≡ true
      → valid_state (cleanup_drifted r c s).1 ≡ true
  unfolding cleanup_drifted
  valid-drifted c s valid = grind (arith, valid-block, valid-remove_finalizer)

  valid-cleanup_rows :
      (c : Cleanup) (rows : List ProjectMapping) (s : State)
      → valid_state s ≡ true
      → (c.mapping_id == "") ≡ false
      → valid_state (cleanup_rows r c rows s).1 ≡ true
  unfolding cleanup_rows
  valid-cleanup_rows c rows s valid h =
      grind (arith, valid-absent, valid-drifted, valid-authorize, valid-recover, valid-delete)

  valid-with_session :
      (c : Cleanup) (s : State)
      → valid_state s ≡ true
      → (c.mapping_id == "") ≡ false
      → valid_state (cleanup_with_session r c s).1 ≡ true
  unfolding cleanup_with_session
  valid-with_session c s valid h = grind (arith, valid-listed, valid-fail, valid-cleanup_rows)

  module _ (identity : CleanupIdentity) (request : ProjectMappingRequest) (id : String)
      (nonempty : (id == "") ≡ false) where
    valid-with_agent :
        (agent : HarnessGitopsAgent) (s : State)
        → valid_state s ≡ true
        → valid_state (cleanup_with_agent r identity request id agent s).1 ≡ true
    unfolding cleanup_with_agent
    valid-with_agent agent s valid =
        grind (arith, valid-block, valid-session_for_agent, valid-with_session)

    valid-claimed :
        (s : State)
        → valid_state s ≡ true
        → valid_state (cleanup_claimed r identity request id s).1 ≡ true
    unfolding cleanup_claimed
    valid-claimed s valid = grind (arith, valid-read, valid-block, valid-with_agent)

  valid-recorded :
      (identity : CleanupIdentity) (remote : HarnessGitopsProjectMappingRemoteStatus) (s : State)
      → valid_state s ≡ true
      → valid_state (cleanup_recorded r identity remote s).1 ≡ true
  unfolding cleanup_recorded
  valid-recorded identity remote s valid =
      let target = record remote { mapping_id = identity.mapping_id } in
      elim (Result-cases (project_mapping_cleanup_request target)) [
        | inl (complaint, invalid) ↦ grind (arith, valid-block)
        | inr ((request, id), accepted) ↦
            let nonempty = cleanup_request-nonempty target request id accepted in
            grind (arith, valid-authorize, valid-claimed identity request id nonempty)
      ]

  valid-identity :
      (identity : CleanupIdentity) (s : State)
      → valid_state s ≡ true
      → valid_state (cleanup_identity r identity s).1 ≡ true
  unfolding cleanup_identity
  valid-identity identity s valid =
      grind (arith, valid-block, valid-remove_finalizer, valid-recorded)

  pub valid-finalize :
      (s : State) → valid_state s ≡ true → valid_state (finalize_project_mapping r s).1 ≡ true
  unfolding finalize_project_mapping
  valid-finalize s valid = grind (arith, valid-identity)

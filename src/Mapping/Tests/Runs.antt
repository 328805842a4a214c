-- ===== src/Mapping/Tests/Runs.antt =====
-- Runs of whole reconciles and cleanups, and the order of their calls.
use harness_gitops_agent_ope.Common.{
  suc, String_discrete, none, ℕ_discrete, ◌≡◌, ◌≢◌, ◌≤◌, refl, true, false, some, List, [], ◌∷◌, ok,
  any, arith,
}
use harness_gitops_agent_ope.Text.{trim_space, to_upper, after_dot, equal_fold}
use harness_gitops_agent_ope.Api.{is_zero, HarnessGitopsProjectMappingStatus-discrete}
use harness_gitops_agent_ope.Harness.Session.{session_from_secret}
use harness_gitops_agent_ope.Harness.Identifiers.{
  identifiers_equivalent, scoped_identifier_candidates,
}
use harness_gitops_agent_ope.Harness.Identifiers
use harness_gitops_agent_ope.Mapping.Types.{ProjectMapping}
use harness_gitops_agent_ope.Mapping.Environment.{record_event}
use harness_gitops_agent_ope.Mapping.Scope.{
  resolve_project_mapping_request, base_request, resolved_agent_identifier, scope_input,
  resolve_scope, resolve_account_scope,
}
use harness_gitops_agent_ope.Mapping.Ready.{
  set_ready, set_ready_after, session_for_agent, ready_status,
}
use harness_gitops_agent_ope.Mapping.Remote.{
  is_uncertain_creation_state, is_deletion_ownership, remote_status_for_request,
  with_agent_identifier, project_mapping_matches,
}
use harness_gitops_agent_ope.Mapping.Selection.{
  select_project_mapping, remembered_id_of, scan_mapping, scan_mappings, scan_start, select_scanned,
  project_mapping_with_id, remembered_ownership_of, scan_input,
}
use harness_gitops_agent_ope.Mapping.Create.{
  reconcile_harness_mapping, reconcile_rows, reconcile_unselected, reconcile_unobserved,
  create_mapping, post_mapping, record_intent,
}
use harness_gitops_agent_ope.Mapping.Finalizers.{ensure_finalizer, remove_finalizer}
use harness_gitops_agent_ope.Mapping.Reconcile.{
  reconcile, reconcile_agent, reconcile_active, reconcile_mapping, reconcile_app_project,
  reconcile_health, reconcile_reported, reconcile_with_agent, app_project_exists,
}
use harness_gitops_agent_ope.Mapping.Tests.{
  answers, resource, row, recorded, request, session, owned_resource, deleting_resource,
  drifted_row, other_row, reconciler, key, start,
}
use harness_gitops_agent_ope.Mapping.Calls.{posts, deletes, unrecorded}
use harness_gitops_agent_ope.Mapping.CleanupIdentity.{
  resolve_mapping_cleanup_identity, project_mapping_cleanup_request, empty_complaint,
  scope_complaint, stored_request,
}
use harness_gitops_agent_ope.Mapping.Arbitration.{resolve_project_mapping_claim}
use harness_gitops_agent_ope.Mapping.Eligibility.{collect_claims, project_mapping_claim_priority}
use harness_gitops_agent_ope.Mapping.Claims.{
  sort_claims, project_mapping_claim_less, same_project_mapping_resource,
}
use harness_gitops_agent_ope.Mapping.Cleanup.{
  cleanup_rows, authorize_project_mapping_cleanup, is_recovery, delete_remote,
}
use harness_gitops_agent_ope.Mapping.Finalize.{
  finalize_project_mapping, cleanup_identity, cleanup_recorded, cleanup_claimed, cleanup_with_agent,
  cleanup_with_session,
}
use harness_gitops_agent_ope.Mapping.Finalize.Deletion.{Permitted, finalize-needs-permission}
use harness_gitops_agent_ope.Mapping.Reconcile.Calls.{
  reconcile_all, intent-before-create, reconcile-posts, reconcile-deletes, active-deletes,
  deleting-posts,
}
use harness_gitops_agent_ope.Mapping.Remote.Laws.{echo}
use harness_gitops_agent_ope.Mapping.Create.Listed.{listed_create-IsManaged}
use harness_gitops_agent_ope.Mapping.Create.Guards.{create-needs-free_app_project, MayCreate}
use harness_gitops_agent_ope.Mapping.Create.Owned.{owned-keeps-remote}
use harness_gitops_agent_ope.Mapping.Create.Progress.{IsManaged}
use harness_gitops_agent_ope.Api.{unowned}
use harness_gitops_agent_ope.Mapping.Selection.{
  scan_input, remembered_id_of, remembered_ownership_of,
}
use harness_gitops_agent_ope.Api.{HarnessGitopsProjectMapping}
use harness_gitops_agent_ope.Mapping.Environment.{Reconciler}
use harness_gitops_agent_ope.Mapping.Tests.{returned_resource, rival}
use harness_gitops_agent_ope.Mapping.Selection.Laws.{same_app_project}
use harness_gitops_agent_ope.Mapping.Status.{is_valid_status, valid_writes}
use harness_gitops_agent_ope.Mapping.Status.Reconcile.{reconcile-valid}

-- A resource with no row in Harness is posted.
fresh_reconcile-creates : posts (reconcile (reconciler resource []) key []).1 ≡ 1
unfolding reconcile ensure_finalizer is_zero resolve_project_mapping_request app_project_exists
    session_for_agent session_from_secret select_project_mapping reconcile_harness_mapping
    reconcile_rows reconcile_unselected reconcile_unobserved create_mapping post_mapping set_ready
    set_ready_after String_discrete ℕ_discrete HarnessGitopsProjectMappingStatus-discrete trim_space
    to_upper remembered_id_of ready_status base_request resolved_agent_identifier scope_input
    record_intent with_agent_identifier remote_status_for_request posts reconcile_agent
    reconcile_active reconcile_mapping reconcile_app_project reconcile_health reconcile_reported
    reconcile_with_agent record_event scan_mappings scan_start select_scanned
    is_uncertain_creation_state is_deletion_ownership resolve_scope resolve_account_scope
fresh_reconcile-creates = refl

intent-before-create_example :
    unrecorded (reconcile_all (reconciler resource []) (key ∷ key ∷ []) []) ≡ 0
intent-before-create_example = intent-before-create (reconciler resource []) (key ∷ key ∷ [])

reconcile-posts_example : posts (reconcile (reconciler resource []) key []).1 ≤ suc (posts [])
reconcile-posts_example = reconcile-posts (reconciler resource []) key []

reconcile-deletes_example :
    deletes (reconcile (reconciler deleting_resource []) key []).1 ≤ suc (deletes [])
reconcile-deletes_example = reconcile-deletes (reconciler deleting_resource []) key []

active-deletes_example :
    deletes (reconcile (reconciler owned_resource (row ∷ [])) key []).1 ≤ deletes []
unfolding is_zero
active-deletes_example =
    active-deletes (reconciler owned_resource (row ∷ [])) key [] owned_resource refl refl

deleting-posts_example : posts (reconcile (reconciler deleting_resource []) key []).1 ≡ posts []
unfolding is_zero
deleting-posts_example =
    deleting-posts (reconciler deleting_resource []) key [] deleting_resource refl refl

-- The older of two owners deletes its row.
owned_cleanup-deletes :
    deletes
      (finalize_project_mapping
        (reconciler deleting_resource (row ∷ []))
        (start deleting_resource)).1.trace
    ≡ 1
unfolding finalize_project_mapping deletes cleanup_identity resolve_mapping_cleanup_identity
    is_uncertain_creation_state is_deletion_ownership cleanup_recorded
    project_mapping_cleanup_request empty_complaint trim_space scope_complaint to_upper
    authorize_project_mapping_cleanup resolve_project_mapping_claim collect_claims
    project_mapping_claim_priority sort_claims project_mapping_claim_less
    same_project_mapping_resource cleanup_claimed cleanup_with_agent session_for_agent
    session_from_secret cleanup_with_session cleanup_rows project_mapping_with_id
    project_mapping_matches identifiers_equivalent is_recovery delete_remote remove_finalizer
    stored_request Identifiers.listed scoped_identifier_candidates after_dot equal_fold
owned_cleanup-deletes = refl

owned_cleanup-changes :
    deletes
      (finalize_project_mapping
        (reconciler deleting_resource (row ∷ []))
        (start deleting_resource)).1.trace
    ≢ deletes []
unfolding deletes
owned_cleanup-changes same = ground (arith, owned_cleanup-deletes, same)

finalize-needs-permission_example :
    Permitted (reconciler deleting_resource (row ∷ [])) deleting_resource
finalize-needs-permission_example =
    finalize-needs-permission (reconciler deleting_resource (row ∷ [])) (start deleting_resource)
      owned_cleanup-changes

owned-keeps-remote_example :
    (reconcile_harness_mapping
      (reconciler owned_resource (drifted_row ∷ []))
      session
      request
      (start owned_resource)).1.mapping.status.remote
    ≡ some recorded
unfolding is_deletion_ownership remembered_ownership_of remembered_id_of project_mapping_with_id
    trim_space
owned-keeps-remote_example =
    owned-keeps-remote (reconciler owned_resource (drifted_row ∷ [])) session request
      (start owned_resource) (drifted_row ∷ []) drifted_row refl refl refl

reconcile-valid_example :
    valid_writes (reconcile (reconciler owned_resource (row ∷ [])) key []).1 ≡ true
unfolding is_valid_status
reconcile-valid_example =
    reconcile-valid (reconciler owned_resource (row ∷ [])) key owned_resource refl refl

free_app_project-posts :
    posts
      (reconcile_harness_mapping
        (reconciler resource (other_row ∷ []))
        session
        request
        (start resource)).1.trace
    ≡ 1
unfolding reconcile_harness_mapping reconcile_rows select_project_mapping reconcile_unselected
    reconcile_unobserved create_mapping post_mapping set_ready set_ready_after ready_status
    String_discrete ℕ_discrete HarnessGitopsProjectMappingStatus-discrete trim_space to_upper
    record_intent with_agent_identifier remote_status_for_request posts record_event scan_mappings
    scan_start scan_input is_uncertain_creation_state is_deletion_ownership project_mapping_matches
    identifiers_equivalent scan_mapping
free_app_project-posts = refl

free_app_project-changes :
    posts
      (reconcile_harness_mapping
        (reconciler resource (other_row ∷ []))
        session
        request
        (start resource)).1.trace
    ≢ posts []
unfolding posts
free_app_project-changes same = ground (arith, free_app_project-posts, same)

create-needs-free_app_project_example :
    (rows : List ProjectMapping) × ((reconciler resource (other_row ∷ [])).env.list [] session
        request
      ≡ ok rows)
    × (any (same_app_project request) rows ≡ false)
    × MayCreate (reconciler resource (other_row ∷ [])) session request (start resource)
create-needs-free_app_project_example =
    create-needs-free_app_project (reconciler resource (other_row ∷ [])) session request
      (start resource) free_app_project-changes

-- a resource that records nothing is listed too
abbrev bystander : HarnessGitopsProjectMapping
bystander = record rival { status = record (rival.status) { remote = none } }

abbrev created_row_listed : Reconciler
created_row_listed = record (reconciler returned_resource (echo request "id" ∷ [])) {
  env = record (answers returned_resource (echo request "id" ∷ [])) {
    list_mappings = λ t. ok (returned_resource ∷ bystander ∷ []);
  };
}

listed_create-IsManaged_example :
    IsManaged
      (record recorded { ownership = unowned })
      (reconcile_harness_mapping created_row_listed session request (start returned_resource)).1
unfolding remembered_id_of trim_space record_event
listed_create-IsManaged_example =
    listed_create-IsManaged created_row_listed session request (start returned_resource)
      (record recorded { ownership = unowned }) (bystander ∷ []) refl refl refl refl refl refl refl
      refl refl ((refl, refl), tt) (λ t m. refl)

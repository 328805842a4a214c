-- ===== src/Mapping/Create.antt =====
-- A reconcile with a Harness session: `reconcileHarnessMapping` of
-- internal/resource/projectmapping/reconciler.go.
pub mod Laws
pub mod Guards
pub mod Owned
pub mod Progress
pub mod Listed
use harness_gitops_agent_ope.Common.{
  String, Bool, true, false, ◌||◌, not, Option, none, some, List, Result, ok, err, if◌then◌else◌,
}
use harness_gitops_agent_ope.Text.{◌==◌, ◌<>◌, trim_space, quote}
use harness_gitops_agent_ope.Api.{CreationState, settled, pending, outcome_unknown, condition_false}
use harness_gitops_agent_ope.Harness.Errors.{
  Error, errors_is, project_mapping_already_exists, project_mapping_create_outcome_unknown,
}
use harness_gitops_agent_ope.Harness.Session.{Session}
use harness_gitops_agent_ope.Mapping.Types.{ProjectMappingRequest, ProjectMapping}
use harness_gitops_agent_ope.Mapping.Remote.{
  is_uncertain_creation_state, remote_status_for_request, unresolved_remote_status,
  with_agent_identifier, preserve_mapping_failure_state,
}
use harness_gitops_agent_ope.Mapping.Selection.{
  ProjectMappingSelection, select_project_mapping, remembered_id_of,
}
use harness_gitops_agent_ope.Mapping.Environment.{
  Reconciler, State, Outcome, listed, created, record_event,
}
use harness_gitops_agent_ope.Mapping.Ready.{
  Mutation, keep, set_ready, set_ready_after, set_ready_failing, return_api_error,
  pending_retry_interval, resync_interval, immediate_requeue_interval,
}
use harness_gitops_agent_ope.Mapping.Verify.{reconcile_selected_mapping, leave_unresolved}

-- the mutations
unfoldable pub record_intent : ProjectMappingRequest → Mutation
record_intent request status = record status {
  creation_state = pending;
  remote = some (remote_status_for_request request);
}

unfoldable pub forget_intent : ProjectMappingRequest → Mutation
forget_intent request status = record status {
  creation_state = settled;
  remote = some (remote_status_for_request request);
}

unfoldable pub record_created : ProjectMappingRequest → String → String → Mutation
record_created request created_id agent_id status = record status {
  creation_state = pending;
  remote = some (
      with_agent_identifier agent_id
        (record (remote_status_for_request request) { mapping_id = created_id }));
}

unfoldable pub keep_unresolved : ProjectMappingRequest → Mutation
keep_unresolved request status = record status {
  remote = some (unresolved_remote_status status.remote request);
}

-- the answer to the create call
unfoldable pub record_create_answer :
    Reconciler → ProjectMappingRequest → Result Error ProjectMapping → State → Outcome × State
unfolding leave_unresolved forget_intent record_created
record_create_answer r request (err e) s =
    if errors_is project_mapping_create_outcome_unknown e
      || errors_is project_mapping_already_exists e
    then set_ready_after (resync_interval r) r condition_false "CreateOutcomeUnknown"
        "Harness mapping create may have committed; explicit adoption is required"
        (leave_unresolved request) s
    else set_ready_failing (some e) r "VerificationFailed"
        "Harness rejected the mapping create request" (forget_intent request) s
record_create_answer r request (ok row) s =
    if trim_space row.identifier == ""
    then set_ready_after (resync_interval r) r condition_false "CreateOutcomeUnknown"
        "Harness accepted the create without returning an ID; explicit adoption is required"
        (leave_unresolved request) s
    else set_ready_after immediate_requeue_interval r condition_false "MappingCreated"
        "Harness accepted the mapping create; waiting for exact-ID verification"
        (record_created request (trim_space row.identifier) (
          if trim_space row.agent_identifier == ""
          then request.agent_identifier
          else trim_space row.agent_identifier))
        s

-- the call of `Create`
unfoldable pub post_mapping : Reconciler → Session → ProjectMappingRequest → State → Outcome × State
unfolding record_create_answer record_event
post_mapping r session request s =
    record_create_answer r request (r.env.create s.trace session request)
      (record_event (created request) s)

-- persist the intent, then post
unfoldable pub create_mapping :
    Reconciler → Session → ProjectMappingRequest → State → Outcome × State
unfolding record_intent
create_mapping r session request s =
    let (intent_err, s') =
      set_ready r condition_false "CreatePending" "Persisted Harness mapping create intent"
        (record_intent request) s in
    elim intent_err [
      | some e ↦ (record { requeue_after = 0; error = some e }, s')
      | none ↦ post_mapping r session request s'
    ]

-- the switch on the creation state, and the create behind it
unfoldable pub reconcile_unobserved :
    CreationState → Reconciler → Session → ProjectMappingRequest → State → Outcome × State
unfolding keep_unresolved leave_unresolved
reconcile_unobserved pending r session request s =
    if remembered_id_of s.mapping.status.remote == ""
    then set_ready_after (resync_interval r) r condition_false "CreateOutcomeUnknown"
        "A persisted create attempt has no returned ID; set spec.adoptMappingId to claim an exact observed mapping"
        (leave_unresolved request) s
    else set_ready_after (pending_retry_interval r) r condition_false "MappingCreated"
        "Harness accepted the mapping create; waiting to verify its returned ID" keep s
reconcile_unobserved outcome_unknown r session request s =
    set_ready_after (resync_interval r) r condition_false "CreateOutcomeUnknown"
      "Mapping create outcome is unknown; set spec.adoptMappingId after verifying the Harness mapping"
      (keep_unresolved request) s
reconcile_unobserved _ r session request s = create_mapping r session request s

-- no row was selected: duplicates, a conflict, a missing adopted row, or nothing
unfoldable pub reconcile_unselected :
    Reconciler → Session → ProjectMappingRequest → ProjectMappingSelection → State → Outcome × State
reconcile_unselected r session request selection s =
    let started = s.mapping.status.creation_state in
    let adopt_id = trim_space s.mapping.spec.adopt_mapping_id in
    let fail = λ (reason message : String).
      set_ready_after (resync_interval r) r condition_false reason message
        (preserve_mapping_failure_state request started) s in
    if selection.duplicate
    then fail "DuplicateMapping"
        "Multiple exact Harness mappings exist and no recorded or adopted ID selects one"
    else if selection.conflict
    then fail (if selection.adopt_conflict then "AdoptionFailed" else "MappingMismatch") (
        if is_uncertain_creation_state started
        then "Create ownership is unresolved and the observed AppProject mapping has a different tuple"
        else if selection.adopt_conflict
        then "Harness mapping "
          <> quote adopt_id
          <> " exists but does not match the complete desired tuple"
        else "A Harness mapping for this AppProject exists with a different tuple")
    else if not (adopt_id == "")
    then fail "AdoptionFailed"
        ("Harness mapping " <> quote adopt_id <> " does not exist with the complete desired tuple")
    else reconcile_unobserved started r session request s

-- what follows a successful list call
unfoldable pub reconcile_rows :
    Reconciler → Session → ProjectMappingRequest → List ProjectMapping → State → Outcome × State
reconcile_rows r session request rows s =
    let selection = select_project_mapping rows request s.mapping in
    elim (selection.mapping) [
      | some observed ↦ reconcile_selected_mapping r request observed s
      | none ↦ reconcile_unselected r session request selection s
    ]

-- `reconcileHarnessMapping`
unfoldable pub reconcile_harness_mapping :
    Reconciler → Session → ProjectMappingRequest → State → Outcome × State
unfolding record_event
reconcile_harness_mapping r session request s =
    let s' = record_event (listed request) s in
    elim (r.env.list s.trace session request) [
      | err e ↦ return_api_error r "Unable to list Harness AppProject mappings" e s'
      | ok rows ↦ reconcile_rows r session request rows s'
    ]

-- ===== src/Mapping/Status/Create.antt =====
-- A reconcile with a session keeps the rules for a status.
use harness_gitops_agent_ope.Common.{
  String, ◌≡◌, refl, true, false, List, Result, arith, Option-cases, inl, inr,
}
use harness_gitops_agent_ope.Text.{◌==◌, trim_space}
use harness_gitops_agent_ope.Api.{CreationState, HarnessGitopsProjectMappingStatus}
use harness_gitops_agent_ope.Harness.Errors.{Error}
use harness_gitops_agent_ope.Harness.Session.{Session}
use harness_gitops_agent_ope.Mapping.Types.{ProjectMappingRequest, ProjectMapping}
use harness_gitops_agent_ope.Mapping.Environment.{Reconciler, State, record_event, created, listed}
use harness_gitops_agent_ope.Mapping.Remote.{
  remote_status_for_request, with_agent_identifier, unresolved_remote_status,
  preserve_mapping_failure_state, project_mapping_matches,
}
use harness_gitops_agent_ope.Mapping.Selection.{ProjectMappingSelection, select_project_mapping}
use harness_gitops_agent_ope.Mapping.Selection.Choice.{select_sound}
use harness_gitops_agent_ope.Mapping.Create.{
  record_intent, forget_intent, record_created, keep_unresolved, record_create_answer, post_mapping,
  create_mapping, reconcile_unobserved, reconcile_unselected, reconcile_rows,
  reconcile_harness_mapping,
}
use harness_gitops_agent_ope.Mapping.Status.{is_valid_status, valid_state}
use harness_gitops_agent_ope.Mapping.Status.Laws.{
  valid-set_ready, valid-set_ready_after, valid-set_ready_failing, valid-return_api_error,
  status-valid,
}
use harness_gitops_agent_ope.Mapping.Status.Verify.{
  valid-leave_unresolved, valid-reconcile_selected,
}

module _ (request : ProjectMappingRequest) (status : HarnessGitopsProjectMappingStatus) where
  valid-record_intent : is_valid_status (record_intent request status) ≡ true
  unfolding record_intent is_valid_status remote_status_for_request
  valid-record_intent = refl

  valid-forget_intent : is_valid_status (forget_intent request status) ≡ true
  unfolding forget_intent is_valid_status remote_status_for_request
  valid-forget_intent = refl

  valid-record_created :
      (id agent_id : String) → is_valid_status (record_created request id agent_id status) ≡ true
  unfolding record_created is_valid_status remote_status_for_request with_agent_identifier
  valid-record_created id agent_id = refl

  valid-keep_unresolved : is_valid_status (keep_unresolved request status) ≡ true
  unfolding keep_unresolved is_valid_status unresolved_remote_status remote_status_for_request
  valid-keep_unresolved = grind (arith)

  valid-preserve :
      (started : CreationState)
      → is_valid_status status ≡ true
      → is_valid_status (preserve_mapping_failure_state request started status) ≡ true
  unfolding preserve_mapping_failure_state is_valid_status unresolved_remote_status
      remote_status_for_request
  valid-preserve started valid = grind (arith)

ruleset status_rules = (
  valid-record_intent, valid-forget_intent, valid-record_created, valid-keep_unresolved,
  valid-preserve, valid-leave_unresolved, status-valid,
)

ruleset write_rules = (valid-set_ready, valid-set_ready_after, valid-set_ready_failing)

pub valid-listed :
    (request : ProjectMappingRequest) (s : State)
    → valid_state s ≡ true
    → valid_state (record_event (listed request) s) ≡ true
unfolding valid_state record_event
valid-listed request s valid = valid

module _ (r : Reconciler) (session : Session) (request : ProjectMappingRequest) where
  valid-record_create_answer :
      (answer : Result Error ProjectMapping) (s : State)
      → valid_state s ≡ true
      → valid_state (record_create_answer r request answer s).1 ≡ true
  unfolding record_create_answer
  valid-record_create_answer answer s valid = grind (arith, write_rules, status_rules)

  valid-post_mapping :
      (s : State) → valid_state s ≡ true → valid_state (post_mapping r session request s).1 ≡ true
  unfolding post_mapping valid_state record_event
  valid-post_mapping s valid =
      valid-record_create_answer (r.env.create s.trace session request)
        (record_event (created request) s) valid

  valid-create_mapping :
      (s : State) → valid_state s ≡ true → valid_state (create_mapping r session request s).1 ≡ true
  unfolding create_mapping
  valid-create_mapping s valid = grind (arith, write_rules, status_rules, valid-post_mapping)

  valid-unselected :
      (selection : ProjectMappingSelection) (s : State)
      → valid_state s ≡ true
      → valid_state (reconcile_unselected r session request selection s).1 ≡ true
  unfolding reconcile_unselected reconcile_unobserved
  valid-unselected selection s valid =
      grind (arith, write_rules, status_rules, valid-create_mapping)

  matches-nonempty :
      (row : ProjectMapping)
      → project_mapping_matches row request ≡ true
      → (trim_space row.identifier == "") ≡ false
  unfolding project_mapping_matches
  matches-nonempty row h = ground arith

  valid-rows :
      (rows : List ProjectMapping) (s : State)
      → valid_state s ≡ true
      → valid_state (reconcile_rows r session request rows s).1 ≡ true
  unfolding reconcile_rows
  valid-rows rows s valid =
      elim (Option-cases (select_project_mapping rows request s.mapping).mapping) [
        | inl missing ↦ grind (arith, valid-unselected)
        | inr (row, chosen) ↦
            let (inside, matches, clean) = select_sound rows request s.mapping chosen in
            let nonempty = matches-nonempty row matches in grind (arith, valid-reconcile_selected)
      ]

  pub valid-harness :
      (s : State)
      → valid_state s ≡ true
      → valid_state (reconcile_harness_mapping r session request s).1 ≡ true
  unfolding reconcile_harness_mapping
  valid-harness s valid =
      grind (arith, write_rules, valid-return_api_error, valid-rows, valid-listed)

-- ===== src/Mapping/Create/Progress.antt =====
-- How a create that Harness accepted becomes an owned mapping.
use harness_gitops_agent_ope.Common.{
  ℕ, String, ◌≡◌, refl, true, false, Option, none, some, List, ◌∷◌, ◌≢◌, ◌∙◌, sym, ap, ite, ok,
  arith,
}
use harness_gitops_agent_ope.Text.{◌==◌, trim_space}
use harness_gitops_agent_ope.Text.Order.{eq-left}
use harness_gitops_agent_ope.Api.{
  managed, CreationState, settled, pending, ConditionStatus, condition_true,
  HarnessGitopsProjectMappingRemoteStatus, HarnessGitopsProjectMappingStatus,
  HarnessGitopsProjectMapping, HarnessGitopsProjectMappingStatus-discrete,
}
use harness_gitops_agent_ope.Harness.Session.{Session}
use harness_gitops_agent_ope.Mapping.Types.{ProjectMappingRequest, ProjectMapping}
use harness_gitops_agent_ope.Mapping.Environment.{
  accepted, Trace, status_updated, Reconciler, State, listed, record_event,
}
use harness_gitops_agent_ope.Mapping.Ready.{
  Mutation, set_ready, set_ready_after, ready_status, update_status, resync_interval,
}
use harness_gitops_agent_ope.Mapping.Remote.{is_deletion_ownership, is_uncertain_creation_state}
use harness_gitops_agent_ope.Mapping.Selection.{
  select_project_mapping, remembered_id_of, remembered_ownership_of,
}
use harness_gitops_agent_ope.Mapping.Arbitration.{require_project_mapping_claim}
use harness_gitops_agent_ope.Mapping.Arbitration.Laws.{won-require_claim}
use harness_gitops_agent_ope.Mapping.Verify.{
  Selected, selected_locals, record_status, if_won, own_remote, take_ownership, reconcile_candidate,
  reconcile_unproven, reconcile_selected_mapping,
}
use harness_gitops_agent_ope.Mapping.Create.{reconcile_rows, reconcile_harness_mapping}

pending-IsUncertain :
    (state : CreationState) → state ≡ pending → is_uncertain_creation_state state ≡ true
unfolding is_uncertain_creation_state
pending-IsUncertain state e = rw e refl

-- the status that the API holds after an accepted status write that is the last call
unfoldable pub held : Trace → Option HarnessGitopsProjectMappingStatus
held (status_updated mapping true ∷ t) = some mapping.status
held _ = none

-- the status is Managed, nothing else of the remote has changed, and the API holds it
abbrev pub IsManaged : HarnessGitopsProjectMappingRemoteStatus → State → Type 0
IsManaged remote after =
    (after.mapping.status.remote ≡ some (record remote { ownership = managed }))
    × (after.mapping.status.creation_state ≡ settled)
    × (held after.trace ≡ some after.mapping.status)

settled-ne-pending : settled ≢ pending
settled-ne-pending same = cc

module _ (r : Reconciler) where
  state-set_ready_after :
      (delay : ℕ) (status : ConditionStatus) (reason message : String) (mutate : Mutation)
      (s : State)
      → ((set_ready_after delay r status reason message mutate s).1.mapping.status.remote
          ≡ (mutate s.mapping.status).remote)
        × ((set_ready_after delay r status reason message mutate s).1.mapping.status.creation_state
            ≡ (mutate s.mapping.status).creation_state)
  unfolding set_ready_after update_status ready_status
  state-set_ready_after delay status reason message mutate s = grind (arith)

  module _
      (accepts : (t : Trace) (m : HarnessGitopsProjectMapping)
        → r.env.update_status t m ≡ none) where
    held-update_status :
        (s : State) → held (update_status r s).1.trace ≡ some (update_status r s).1.mapping.status
    unfolding held update_status accepted
    held-update_status s = rw (accepts s.trace s.mapping) refl

    held-ite :
        (before after : HarnessGitopsProjectMappingStatus) (d : Dec (before ≡ after)) (s : State)
        → before ≢ after
        → held (ite d (none, s) (update_status r s)).1.trace
          ≡ some (ite d (none, s) (update_status r s)).1.mapping.status
    held-ite before after (yes same) s differ = absurd (differ same)
    held-ite before after (no differ) s differ' = held-update_status s

    -- a write that changes the creation state is sent
    held-set_ready_after :
        (delay : ℕ) (status : ConditionStatus) (reason message : String) (mutate : Mutation)
        (s : State)
        → (mutate s.mapping.status).creation_state ≢ s.mapping.status.creation_state
        → (let after = (set_ready_after delay r status reason message mutate s).1 in
            held after.trace ≡ some after.mapping.status)
    unfolding set_ready_after set_ready ready_status
    held-set_ready_after delay status reason message mutate s changed =
        let before = s.mapping.status in
        let after = ready_status r status reason message (mutate before) s in
        held-ite before after (HarnessGitopsProjectMappingStatus-discrete before after)
          (record s { mapping = record (s.mapping) { status = after } })
          (λ same. changed (sym (ap (λ st. st.creation_state) same)))

    managed-set_ready_after :
        (delay : ℕ) (status : ConditionStatus) (reason message : String)
        (remote : HarnessGitopsProjectMappingRemoteStatus) (s : State)
        → s.mapping.status.remote ≡ some remote
        → s.mapping.status.creation_state ≡ pending
        → IsManaged remote
            (set_ready_after delay r status reason message (take_ownership managed) s).1
    unfolding take_ownership own_remote
    managed-set_ready_after delay status reason message remote s has state =
        let mutate = take_ownership managed in
        let (same_remote, same_state) =
          state-set_ready_after delay status reason message mutate s in
        (
          same_remote ∙ rw has refl,
          same_state,
          held-set_ready_after delay status reason message mutate s
              (λ same. settled-ne-pending (same ∙ state)),
        )

    module _ (request : ProjectMappingRequest)
        (remote : HarnessGitopsProjectMappingRemoteStatus) where
      candidate-IsManaged :
          (v : Selected) (s : State)
          → s.mapping.status.remote ≡ some remote
          → (v.adopt_id == "") ≡ true
          → (v.remembered_id == "") ≡ false
          → (v.observed_id == v.remembered_id) ≡ true
          → v.creation_state ≡ pending
          → s.mapping.status.creation_state ≡ pending
          → (require_project_mapping_claim r v.request v.remembered_id s).0.won ≡ true
          → IsManaged remote (reconcile_candidate r v s).1
      unfolding reconcile_candidate if_won record_status
      candidate-IsManaged v s has no_adoption nonempty same state still won =
          let differ : (v.adopt_id == v.remembered_id) ≡ false =
            ground (arith, eq-left v.adopt_id v.remembered_id "", no_adoption, nonempty) in
          let same_mapping = won-require_claim r v.request v.remembered_id s won in
          let s' = (require_project_mapping_claim r v.request v.remembered_id s).1 in
          let reached =
            managed-set_ready_after (resync_interval r) condition_true "MappingVerified"
              "The controller-created Harness mapping was verified by its returned ID" remote s'
              (rw same_mapping has) (rw same_mapping still) in
          grind arith

      selected-IsManaged :
          (observed : ProjectMapping) (s : State)
          → s.mapping.status.remote ≡ some remote
          → is_deletion_ownership (remembered_ownership_of s.mapping.status.remote) ≡ false
          → s.mapping.status.creation_state ≡ pending
          → (trim_space s.mapping.spec.adopt_mapping_id == "") ≡ true
          → (remembered_id_of s.mapping.status.remote == "") ≡ false
          → (trim_space observed.identifier == remembered_id_of s.mapping.status.remote) ≡ true
          → (require_project_mapping_claim r request
              (remembered_id_of s.mapping.status.remote)
              s).0.won
            ≡ true
          → IsManaged remote (reconcile_selected_mapping r request observed s).1
      unfolding reconcile_selected_mapping reconcile_unproven selected_locals
      selected-IsManaged observed s has unproven state no_adoption nonempty same won =
          let v = selected_locals request observed s.mapping in
          let reached = candidate-IsManaged v s has no_adoption nonempty same state state won in
          let uncertain : is_uncertain_creation_state s.mapping.status.creation_state ≡ true =
            pending-IsUncertain s.mapping.status.creation_state state in
          grind (arith)

      rows-IsManaged :
          (session : Session) (rows : List ProjectMapping) (m : ProjectMapping) (s : State)
          → (select_project_mapping rows request s.mapping).mapping ≡ some m
          → s.mapping.status.remote ≡ some remote
          → is_deletion_ownership (remembered_ownership_of s.mapping.status.remote) ≡ false
          → s.mapping.status.creation_state ≡ pending
          → (trim_space s.mapping.spec.adopt_mapping_id == "") ≡ true
          → (remembered_id_of s.mapping.status.remote == "") ≡ false
          → (trim_space m.identifier == remembered_id_of s.mapping.status.remote) ≡ true
          → (require_project_mapping_claim r request
              (remembered_id_of s.mapping.status.remote)
              s).0.won
            ≡ true
          → IsManaged remote (reconcile_rows r session request rows s).1
      unfolding reconcile_rows
      rows-IsManaged session rows m s chosen has unproven state no_adoption nonempty same won =
          let reached = selected-IsManaged m s has unproven state no_adoption nonempty same won in
          grind (arith)

    -- from the answer of the list call on
    pub pending-IsManaged :
        (session : Session) (request : ProjectMappingRequest) (s : State)
        (remote : HarnessGitopsProjectMappingRemoteStatus) (rows : List ProjectMapping)
        (m : ProjectMapping)
        → r.env.list s.trace session request ≡ ok rows
        → (select_project_mapping rows request s.mapping).mapping ≡ some m
        → s.mapping.status.remote ≡ some remote
        → is_deletion_ownership (remembered_ownership_of s.mapping.status.remote) ≡ false
        → s.mapping.status.creation_state ≡ pending
        → (trim_space s.mapping.spec.adopt_mapping_id == "") ≡ true
        → (remembered_id_of s.mapping.status.remote == "") ≡ false
        → (trim_space m.identifier == remembered_id_of s.mapping.status.remote) ≡ true
        → (require_project_mapping_claim r request
            (remembered_id_of s.mapping.status.remote)
            (record_event (listed request) s)).0.won
          ≡ true
        → IsManaged remote (reconcile_harness_mapping r session request s).1
    unfolding reconcile_harness_mapping record_event
    pending-IsManaged session request s remote rows m answer chosen has unproven state no_adoption
          nonempty same won =
        let s' = record_event (listed request) s in
        let reached =
          rows-IsManaged request remote session rows m s' chosen has unproven state no_adoption
            nonempty same won in
        grind (arith)

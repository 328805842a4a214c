-- ===== src/Mapping/Cleanup.antt =====
-- The steps of a cleanup behind its list call, and how it ends early: `finalizeProjectMapping`,
-- `authorizeProjectMappingCleanup`, `blockMappingCleanup` and `failMappingCleanup` of
-- internal/resource/projectmapping/finalizer.go.
use harness_gitops_agent_ope.Common.{
  ℕ, ◌+◌, ◌-◌, String, Bool, true, false, not, Option, none, some, List, ok, err, if◌then◌else◌,
  ltb,
}
use Prim.Native.Nat.{min}
use harness_gitops_agent_ope.Text.{◌<>◌, quote}
use harness_gitops_agent_ope.Api.{
  ResourceOwnership, unowned, adopted, settled, condition_true, condition_false,
  HarnessGitopsProjectMappingRemoteStatus, is_zero,
}
use harness_gitops_agent_ope.Harness.Errors.{Error}
use harness_gitops_agent_ope.Harness.Session.{Session}
use harness_gitops_agent_ope.Mapping.Types.{ProjectMappingRequest, ProjectMapping}
use harness_gitops_agent_ope.Mapping.Remote.{project_mapping_matches}
use harness_gitops_agent_ope.Mapping.Selection.{project_mapping_with_id}
use harness_gitops_agent_ope.Mapping.Environment.{Reconciler, State, Outcome, deleted, record_event}
use harness_gitops_agent_ope.Mapping.Ready.{
  Mutation, keep, set_ready, set_ready_after, set_ready_failing, pending_retry_interval,
  resync_interval, immediate_requeue_interval,
}
use harness_gitops_agent_ope.Mapping.Arbitration.{
  ClaimResult, won_claim, lost, resolve_project_mapping_claim,
}
use harness_gitops_agent_ope.Mapping.Finalizers.{remove_finalizer}
use harness_gitops_agent_ope.Mapping.Verify.{if_won}
use harness_gitops_agent_ope.Mapping.CleanupIdentity.{CleanupIdentity}

-- `blockMappingCleanup`
unfoldable pub block_mapping_cleanup : Reconciler → String → Option Error → State → Outcome × State
block_mapping_cleanup r message none s =
    set_ready_after (resync_interval r) r condition_false "CleanupBlocked" message keep s
block_mapping_cleanup r message (some cause) s =
    set_ready_failing (some cause) r "CleanupBlocked" message keep s

-- `failMappingCleanup`
unfoldable pub fail_mapping_cleanup : Reconciler → String → Error → State → Outcome × State
fail_mapping_cleanup r message cause s =
    set_ready_failing (some cause) r "CleanupFailed" message keep s

-- `projectMappingCreateVisibilityGracePeriod`, 30 s
abbrev pub create_visibility_grace_period : ℕ
create_visibility_grace_period = 30_000_000_000

-- `projectMappingCreateVisibilityGraceRemaining`. The truncated subtraction gives 0 where the code
-- replaces a negative rest by 0.
unfoldable pub create_visibility_grace_remaining : Option ℕ → ℕ → ℕ
create_visibility_grace_remaining none now = create_visibility_grace_period
create_visibility_grace_remaining (some deletion) now =
    if is_zero (some deletion)
    then create_visibility_grace_period
    else (create_visibility_grace_period + deletion) - now

-- `authorizeProjectMappingCleanup`
unfoldable pub authorize_project_mapping_cleanup :
    Reconciler → ProjectMappingRequest → String → State → ClaimResult × State
authorize_project_mapping_cleanup r request mapping_id s =
    let (answer, s') = resolve_project_mapping_claim r request mapping_id none s in
    elim answer [
      | err e ↦ lost (
          fail_mapping_cleanup r
            "Unable to verify exclusive Kubernetes ownership before deleting the Harness mapping" e
            s')
      | ok decision ↦
          if decision.current_wins then (won_claim, s') else lost (remove_finalizer r s')
    ]

-- What the steps behind the cleanup request share.
pub record Cleanup : Type 0 where
  pub identity : CleanupIdentity
  pub session : Session
  pub request : ProjectMappingRequest
  pub mapping_id : String

unfoldable pub is_recovery : ResourceOwnership → Bool
is_recovery unowned = false
is_recovery _ = true

-- the remote that a recovery records
unfoldable pub recovered_remote :
    Cleanup → HarnessGitopsProjectMappingRemoteStatus → HarnessGitopsProjectMappingRemoteStatus
recovered_remote c remote = record remote {
  mapping_id = c.mapping_id;
  ownership = c.identity.recovery_ownership;
}

unfoldable pub recover_option :
    Cleanup
    → Option HarnessGitopsProjectMappingRemoteStatus
    → Option HarnessGitopsProjectMappingRemoteStatus
unfolding recovered_remote
recover_option c none = none
recover_option c (some remote) = some (recovered_remote c remote)

unfoldable pub record_recovery : Cleanup → Mutation
unfolding recover_option
record_recovery c status = record status {
  creation_state = settled;
  remote = recover_option c c.identity.remote;
}

-- the block that records a recovered ownership
unfoldable pub recover_ownership : Reconciler → Cleanup → State → Outcome × State
unfolding record_recovery
recover_ownership r c s =
    let answer : Option Error × State = elim (c.identity.recovery_ownership) [
      | adopted ↦
          set_ready r condition_true "MappingAdopted"
            "Recovered ownership of the explicitly adopted Harness mapping before cleanup"
            (record_recovery c) s
      | _ ↦
          set_ready r condition_true "MappingVerified"
            "Recovered ownership of the controller-created Harness mapping before cleanup"
            (record_recovery c) s
    ] in
    elim (answer.0) [
      | some e ↦ (record { requeue_after = 0; error = some e }, answer.1)
      | none ↦ (record { requeue_after = immediate_requeue_interval; error = none }, answer.1)
    ]

-- the delete call and what follows it
unfoldable pub delete_remote : Reconciler → Cleanup → State → Outcome × State
unfolding record_event
delete_remote r c s =
    let s' = record_event (deleted c.request c.mapping_id) s in
    elim (r.env.delete s.trace c.session c.request c.mapping_id) [
      | some e ↦ fail_mapping_cleanup r "Unable to delete the verified Harness mapping" e s'
      | none ↦ remove_finalizer r s'
    ]

-- behind the second arbitration
unfoldable pub finish_cleanup : Reconciler → Cleanup → State → Outcome × State
unfolding is_recovery
finish_cleanup r c s =
    if is_recovery c.identity.recovery_ownership
    then recover_ownership r c s
    else delete_remote r c s

-- no row has the stored ID
unfoldable pub cleanup_absent : Reconciler → Cleanup → State → Outcome × State
unfolding is_recovery
cleanup_absent r c s =
    let remaining =
      create_visibility_grace_remaining s.mapping.metadata.deletion_timestamp (r.env.now s.trace) in
    if not (is_recovery c.identity.recovery_ownership)
    then remove_finalizer r s
    else if not c.identity.pending_returned_id
    then block_mapping_cleanup r
        ("Cannot recover ownership because Harness mapping "
          <> quote c.mapping_id
          <> " was not found")
        none s
    else if ltb 0 remaining
    then set_ready_after (min (pending_retry_interval r) remaining) r condition_false
        "CleanupBlocked"
        ("Harness mapping "
          <> quote c.mapping_id
          <> " is not visible yet; waiting for create propagation before completing cleanup")
        keep s
    else remove_finalizer r s

-- the row with the stored ID has another tuple
unfoldable pub cleanup_drifted : Reconciler → Cleanup → State → Outcome × State
unfolding is_recovery
cleanup_drifted r c s =
    if is_recovery c.identity.recovery_ownership
    then block_mapping_cleanup r
        ("Cannot recover ownership because Harness mapping "
          <> quote c.mapping_id
          <> " does not match the complete stored tuple")
        none s
    else remove_finalizer r s

-- what follows a successful list call
unfoldable pub cleanup_rows : Reconciler → Cleanup → List ProjectMapping → State → Outcome × State
unfolding finish_cleanup if_won
cleanup_rows r c rows s = elim (project_mapping_with_id rows c.mapping_id) [
  | none ↦ cleanup_absent r c s
  | some observed ↦
      if project_mapping_matches observed c.request
      then if_won (authorize_project_mapping_cleanup r c.request c.mapping_id s)
          (finish_cleanup r c)
      else cleanup_drifted r c s
]

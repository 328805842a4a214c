-- ===== src/Mapping/Finalize.antt =====
-- The deletion of a mapping resource: `finalizeProjectMapping` of
-- internal/resource/projectmapping/finalizer.go.
pub mod Laws
pub mod Bounds
pub mod Authority
pub mod Authorized
pub mod Deletion
use harness_gitops_agent_ope.Common.{
  ℕ, ◌+◌, ◌-◌, String, Bool, true, false, not, Option, none, some, List, Result, ok, err,
  if◌then◌else◌, ltb,
}
use Prim.Native.Nat.{min}
use harness_gitops_agent_ope.Text.{◌==◌, ◌<>◌, trim_space, quote}
use harness_gitops_agent_ope.Api.{
  ResourceOwnership, unowned, managed, adopted, settled, condition_true, condition_false, ObjectKey,
  HarnessGitopsAgent, HarnessGitopsProjectMapping, HarnessGitopsProjectMappingRemoteStatus, is_zero,
}
use harness_gitops_agent_ope.Harness.Errors.{Error, kube}
use harness_gitops_agent_ope.Harness.Session.{Session}
use harness_gitops_agent_ope.Mapping.Types.{ProjectMappingRequest, ProjectMapping}
use harness_gitops_agent_ope.Mapping.Remote.{project_mapping_matches}
use harness_gitops_agent_ope.Mapping.Selection.{project_mapping_with_id}
use harness_gitops_agent_ope.Mapping.Environment.{
  Reconciler, State, Outcome, read_agent, listed, deleted, record_event,
}
use harness_gitops_agent_ope.Mapping.Ready.{
  Mutation, keep, set_ready, set_ready_after, set_ready_failing, session_for_agent,
  pending_retry_interval, resync_interval, immediate_requeue_interval,
}
use harness_gitops_agent_ope.Mapping.Arbitration.{
  ClaimResult, won_claim, lost, resolve_project_mapping_claim,
}
use harness_gitops_agent_ope.Mapping.Finalizers.{project_mapping_finalizer, remove_finalizer}
use harness_gitops_agent_ope.Mapping.Verify.{if_won}
use harness_gitops_agent_ope.Mapping.CleanupIdentity.{
  CleanupIdentity, resolve_mapping_cleanup_identity, project_mapping_cleanup_request,
}
use harness_gitops_agent_ope.Mapping.Cleanup.{
  block_mapping_cleanup, fail_mapping_cleanup, create_visibility_grace_period,
  create_visibility_grace_remaining, authorize_project_mapping_cleanup, Cleanup, is_recovery,
  recovered_remote, recover_option, record_recovery, recover_ownership, delete_remote,
  finish_cleanup, cleanup_absent, cleanup_drifted, cleanup_rows,
}

-- the list call
unfoldable pub cleanup_with_session : Reconciler → Cleanup → State → Outcome × State
unfolding record_event
cleanup_with_session r c s =
    let s' = record_event (listed c.request) s in
    elim (r.env.list s.trace c.session c.request) [
      | err e ↦ fail_mapping_cleanup r "Unable to verify the Harness mapping before deletion" e s'
      | ok rows ↦ cleanup_rows r c rows s'
    ]

-- the session of the Agent that was read
unfoldable pub cleanup_with_agent :
    Reconciler
    → CleanupIdentity
    → ProjectMappingRequest
    → String
    → HarnessGitopsAgent
    → State
    → Outcome × State
cleanup_with_agent r identity request mapping_id agent s =
    let (answer, s') = session_for_agent r agent s in
    elim answer [
      | err e ↦
          block_mapping_cleanup r "Unable to initialize the Harness session during mapping cleanup"
            (some e) s'
      | ok session ↦
          cleanup_with_session r
            (record {
              identity = identity;
              session = session;
              request = request;
              mapping_id = mapping_id;
            })
            s'
    ]

-- the read of the Agent
unfoldable pub cleanup_claimed :
    Reconciler → CleanupIdentity → ProjectMappingRequest → String → State → Outcome × State
unfolding record_event
cleanup_claimed r identity request mapping_id s =
    let key : ObjectKey = record {
      namespace = s.mapping.metadata.namespace;
      name = trim_space s.mapping.spec.agent_ref_name;
    } in
    let s' = record_event (read_agent key) s in
    elim (r.env.read_agent s.trace key) [
      | err e ↦
          if e.not_found
          then block_mapping_cleanup r
              ("Cannot read API-key configuration because HarnessGitopsAgent " <> key.namespace
                <> "/" <> key.name <> " does not exist")
              none s'
          else block_mapping_cleanup r "Unable to read the referenced Agent during mapping cleanup"
              (some (kube e)) s'
      | ok agent ↦ cleanup_with_agent r identity request mapping_id agent s'
    ]

-- the cleanup request and the first arbitration
unfoldable pub cleanup_recorded :
    Reconciler → CleanupIdentity → HarnessGitopsProjectMappingRemoteStatus → State → Outcome × State
unfolding if_won
cleanup_recorded r identity remote s =
    elim (project_mapping_cleanup_request (record remote { mapping_id = identity.mapping_id })) [
      | err complaint ↦
          block_mapping_cleanup r ("Stored mapping cleanup identity is invalid: " <> complaint) none
            s
      | ok (request, mapping_id) ↦
          if_won (authorize_project_mapping_cleanup r request mapping_id s)
            (cleanup_claimed r identity request mapping_id)
    ]

-- the tests on the identity; an identity that passes them has a remote
unfoldable pub cleanup_identity : Reconciler → CleanupIdentity → State → Outcome × State
cleanup_identity r identity s =
    if identity.remove_finalizer
    then remove_finalizer r s
    else elim (identity.ownership_block_reason) [
      | some reason ↦ block_mapping_cleanup r reason none s
      | none ↦ elim (identity.remote) [
        | none ↦
            block_mapping_cleanup r
              "Stored mapping cleanup identity is invalid: remote status is empty" none s
        | some remote ↦ cleanup_recorded r identity remote s
      ]
    ]

-- `finalizeProjectMapping`
unfoldable pub finalize_project_mapping : Reconciler → State → Outcome × State
finalize_project_mapping r s =
    if r.env.contains_finalizer s.mapping.metadata.finalizers project_mapping_finalizer
    then cleanup_identity r (resolve_mapping_cleanup_identity s.mapping) s
    else (record { requeue_after = 0; error = none }, s)

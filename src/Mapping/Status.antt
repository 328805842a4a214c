-- ===== src/Mapping/Status.antt =====
-- The rules that api/v1alpha1/harnessgitopsprojectmapping_types.go sets for a mapping's status.
pub mod Laws
pub mod Verify
pub mod Create
pub mod Finalize
pub mod Reconcile
use harness_gitops_agent_ope.Common.{
  String, Bool, true, false, ◌&&◌, ◌||◌, not, Option, none, some, [], ◌∷◌,
}
use harness_gitops_agent_ope.Text.{◌==◌}
use harness_gitops_agent_ope.Api.{
  ResourceOwnership, unowned, CreationState, settled, HarnessGitopsProjectMappingRemoteStatus,
  HarnessGitopsProjectMappingStatus,
}
use harness_gitops_agent_ope.Mapping.Environment.{Event, Trace, status_updated, State}
use harness_gitops_agent_ope.Mapping.Cleanup.{is_recovery}
use harness_gitops_agent_ope.Mapping.Eligibility.{is_settled}

-- "mapping ownership requires a remote mapping ID"
unfoldable pub is_valid_remote : HarnessGitopsProjectMappingRemoteStatus → Bool
unfolding is_recovery
is_valid_remote remote = not (is_recovery remote.ownership) || not (remote.mapping_id == "")

unfoldable pub is_valid_remote_field :
    CreationState → Option HarnessGitopsProjectMappingRemoteStatus → Bool
unfolding is_settled is_valid_remote
is_valid_remote_field state none = is_settled state
is_valid_remote_field state (some remote) = is_valid_remote remote

-- and "mapping creation state requires the resolved remote tuple"
unfoldable pub is_valid_status : HarnessGitopsProjectMappingStatus → Bool
unfolding is_valid_remote_field
is_valid_status status = is_valid_remote_field status.creation_state status.remote

-- every status that was sent is valid
unfoldable pub valid_writes : Trace → Bool
unfolding is_valid_status
valid_writes [] = true
valid_writes (status_updated mapping ok ∷ t) = is_valid_status mapping.status && valid_writes t
valid_writes (_ ∷ t) = valid_writes t

unfoldable pub valid_state : State → Bool
unfolding valid_writes
valid_state s = is_valid_status s.mapping.status && valid_writes s.trace

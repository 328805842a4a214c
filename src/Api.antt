-- ===== src/Api.antt =====
-- The resources of api/v1alpha1 and the parts of the Kubernetes object metadata that the
-- controllers read. A `String` field that Go leaves "" is "", a nil pointer is `none`, a time is a
-- number of nanoseconds with 0 for the zero time.
pub mod Updates
mod Tests
use harness_gitops_agent_ope.Common.{
  ℕ, String, String_discrete, ℕ_discrete, Bool, true, Option, none, some, List, nat_eq,
}

-- `unowned` is the empty string.
pub data ResourceOwnership : Type 0 where
  unowned managed adopted external : ResourceOwnership
  other_owner : String → ResourceOwnership

-- AgentCreationState and MappingCreationState. `settled` is the empty string.
pub data CreationState : Type 0 where
  settled pending outcome_unknown : CreationState
  other_state : String → CreationState

-- metav1.ConditionStatus
pub data ConditionStatus : Type 0 where
  condition_true condition_false condition_unknown : ConditionStatus

-- metav1.Condition
pub record Condition : Type 0 where
  pub type : String
  pub status : ConditionStatus
  pub observed_generation : ℕ
  pub last_transition_time : ℕ
  pub reason : String
  pub message : String

-- metav1.ObjectMeta
pub record ObjectMeta : Type 0 where
  pub namespace : String
  pub name : String
  pub uid : String
  pub generation : ℕ
  pub creation_timestamp : ℕ
  pub deletion_timestamp : Option ℕ
  pub finalizers : List String

-- client.ObjectKey
pub record ObjectKey : Type 0 where
  pub namespace : String
  pub name : String

pub record HarnessGitopsAgentSpec : Type 0 where
  pub name : String
  pub operator : String
  pub identifier : String
  pub account_id : String
  pub org_id : String
  pub project_id : String
  pub type : String
  pub scope : String
  pub existing_agent_identifier : String
  pub api_key_secret_ref : String
  pub token_secret_ref : String

pub record HarnessGitopsAgentStatus : Type 0 where
  pub creation_state : CreationState
  pub agent_identifier : String
  pub agent_ownership : ResourceOwnership
  pub conditions : List Condition

pub record HarnessGitopsAgent : Type 0 where
  pub metadata : ObjectMeta
  pub spec : HarnessGitopsAgentSpec
  pub status : HarnessGitopsAgentStatus

pub record HarnessGitopsProjectMappingSpec : Type 0 where
  pub agent_ref_name : String
  pub app_project : String
  pub org_id : String
  pub project_id : String
  pub auto_create_service_env : Bool
  pub adopt_mapping_id : String

pub record HarnessGitopsProjectMappingAgentStatus : Type 0 where
  pub identifier : String
  pub account_id : String
  pub scope : String
  pub org_id : String
  pub project_id : String

pub record HarnessGitopsProjectMappingTargetStatus : Type 0 where
  pub org_id : String
  pub project_id : String
  pub app_project : String
  pub auto_create_service_env : Bool

pub record HarnessGitopsProjectMappingRemoteStatus : Type 0 where
  pub mapping_id : String
  pub ownership : ResourceOwnership
  pub agent : HarnessGitopsProjectMappingAgentStatus
  pub target : HarnessGitopsProjectMappingTargetStatus

pub record HarnessGitopsProjectMappingStatus : Type 0 where
  pub observed_generation : ℕ
  pub creation_state : CreationState
  pub remote : Option HarnessGitopsProjectMappingRemoteStatus
  pub conditions : List Condition

pub record HarnessGitopsProjectMapping : Type 0 where
  pub metadata : ObjectMeta
  pub spec : HarnessGitopsProjectMappingSpec
  pub status : HarnessGitopsProjectMappingStatus

-- metav1.Time's IsZero on a pointer
unfoldable pub is_zero : Option ℕ → Bool
is_zero none = true
is_zero (some t) = nat_eq t 0

unfoldable pub key_of : ObjectMeta → ObjectKey
key_of meta = record { namespace = meta.namespace; name = meta.name }

-- Equality of statuses, as reflect.DeepEqual decides it.
unfoldable pub HarnessGitopsProjectMappingStatus-discrete :
    Discrete HarnessGitopsProjectMappingStatus
HarnessGitopsProjectMappingStatus-discrete = hlevel (ℕ_discrete, String_discrete)

unfoldable pub HarnessGitopsAgentStatus-discrete : Discrete HarnessGitopsAgentStatus
HarnessGitopsAgentStatus-discrete = hlevel (ℕ_discrete, String_discrete)

unfoldable pub ownership_text : ResourceOwnership → String
ownership_text unowned = ""
ownership_text managed = "Managed"
ownership_text adopted = "Adopted"
ownership_text external = "External"
ownership_text (other_owner text) = text

unfoldable pub creation_state_text : CreationState → String
creation_state_text settled = ""
creation_state_text pending = "Pending"
creation_state_text outcome_unknown = "OutcomeUnknown"
creation_state_text (other_state text) = text

-- ===== src/Mapping/Environment.antt =====
-- What the mapping controller calls: the Kubernetes API, the Harness mapping API behind the
-- interface `mappingReconcileAPI`, the clock and library functions. An answer may be any function of
-- the calls made so far, so a statement for every environment covers every interleaving.
use harness_gitops_agent_ope.Common.{
  ℕ, String, Bool, true, false, Option, none, some, List, ◌∷◌, Result,
}
use harness_gitops_agent_ope.Api.{
  Condition, ObjectKey, HarnessGitopsAgent, HarnessGitopsProjectMapping,
}
use harness_gitops_agent_ope.Harness.Errors.{Error, KubeError}
use harness_gitops_agent_ope.Harness.Session.{Session, Secret}
use harness_gitops_agent_ope.Mapping.Types.{ProjectMappingRequest, ProjectMapping}

-- A call that was made. Writes carry the object that was sent and whether the API accepted it.
pub data Event : Type 0 where
  got_mapping got_agent read_agent read_secret : ObjectKey → Event
  got_app_project : String → String → Event
  listed_claims : Event
  updated status_updated : HarnessGitopsProjectMapping → Bool → Event
  listed created : ProjectMappingRequest → Event
  deleted : ProjectMappingRequest → String → Event

-- The calls made so far, the latest first.
abbrev pub Trace : Type 0
Trace = List Event

pub record Environment : Type 0 where
  -- the manager's cached client
  pub get_mapping : Trace → ObjectKey → Result KubeError HarnessGitopsProjectMapping
  pub get_agent : Trace → ObjectKey → Result KubeError HarnessGitopsAgent
  pub update : Trace → HarnessGitopsProjectMapping → Option KubeError
  pub update_status : Trace → HarnessGitopsProjectMapping → Option KubeError
  -- the reader that `apiReader` returns, and the API reader's list
  pub read_agent : Trace → ObjectKey → Result KubeError HarnessGitopsAgent
  pub read_secret : Trace → ObjectKey → Result KubeError Secret
  pub list_mappings : Trace → Result KubeError (List HarnessGitopsProjectMapping)
  -- the dynamic client's Get of an AppProject
  pub get_app_project : Trace → String → String → Option KubeError
  -- mappingReconcileAPI
  pub list : Trace → Session → ProjectMappingRequest → Result Error (List ProjectMapping)
  pub create : Trace → Session → ProjectMappingRequest → Result Error ProjectMapping
  pub delete : Trace → Session → ProjectMappingRequest → String → Option Error
  pub now : Trace → ℕ
  -- apimachinery's meta.SetStatusCondition (which reads the clock) and meta.FindStatusCondition
  pub set_status_condition : Trace → List Condition → Condition → List Condition
  pub find_status_condition : List Condition → String → Option Condition
  -- controllerutil
  pub contains_finalizer : List String → String → Bool
  pub add_finalizer : List String → String → List String
  pub remove_finalizer : List String → String → List String

-- The fields of `Reconciler`, with `api_reader` for `APIReader != nil`. A duration is a number of
-- nanoseconds: the code only tests whether it is positive, so 0 stands for the negative ones too.
pub record Reconciler : Type 0 where
  pub env : Environment
  pub api_reader : Bool
  pub api_key_secret_namespace : String
  pub app_project_pending_retry_interval : ℕ
  pub harness_mapping_resync_interval : ℕ

-- The object in memory, which the code mutates in place, and the calls made.
pub record State : Type 0 where
  pub mapping : HarnessGitopsProjectMapping
  pub trace : Trace

-- ctrl.Result and the error of a reconcile
pub record Outcome : Type 0 where
  pub requeue_after : ℕ
  pub error : Option Error

unfoldable pub accepted : Option KubeError → Bool
accepted none = true
accepted (some e) = false

unfoldable pub record_event : Event → State → State
record_event e s = record s { trace = e ∷ s.trace }

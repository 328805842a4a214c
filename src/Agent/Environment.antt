-- ===== src/Agent/Environment.antt =====
-- What the Agent controller calls: the Kubernetes API, the Harness agent API behind the interface
-- `agentAPI`, the clock and library functions. As in the mapping controller, an answer may be any
-- function of the calls made so far.
use harness_gitops_agent_ope.Common.{ℕ, String, Bool, Option, List, ◌∷◌, Result}
use harness_gitops_agent_ope.Api.{
  Condition, ObjectKey, HarnessGitopsAgent, HarnessGitopsProjectMapping,
}
use harness_gitops_agent_ope.Harness.Errors.{Error, KubeError}
use harness_gitops_agent_ope.Harness.Session.{Session, Secret}
use harness_gitops_agent_ope.Agent.Types.{
  Agent, CreateAgentRequest, CreateAgentResult, AgentLookupResult, AgentReadiness,
}

-- corev1.Secret, as the controller writes it
pub record TokenSecret : Type 0 where
  pub namespace : String
  pub name : String
  pub owner_references : List String
  pub labels : List (String × String)
  pub type : String
  pub entries : List (String × String)

-- A call that was made. A read of the resource and a lookup carry the answer; a write carries the
-- object that was sent, and whether the API accepted it.
pub data Event : Type 0 where
  got_agent : ObjectKey → Result KubeError HarnessGitopsAgent → Event
  read_secret : ObjectKey → Event
  listed_mappings : String → Event
  deleted_mapping : HarnessGitopsProjectMapping → Event
  updated status_updated : HarnessGitopsAgent → Bool → Event
  wrote_secret : TokenSecret → String → Event
  looked_up : Agent → Result Error AgentLookupResult → Event
  created : CreateAgentRequest → Event
  deleted read_readiness : Agent → Event
  resolved_token : Agent → String → Event

-- The calls made so far, the latest first.
abbrev pub Trace : Type 0
Trace = List Event

pub record Environment : Type 0 where
  -- the manager's client
  pub get_agent : Trace → ObjectKey → Result KubeError HarnessGitopsAgent
  pub update : Trace → HarnessGitopsAgent → Option KubeError
  pub update_status : Trace → HarnessGitopsAgent → Option KubeError
  pub delete_mapping : Trace → HarnessGitopsProjectMapping → Option KubeError
  -- the reader that `apiReader` returns, and the API reader's list of the mappings of a namespace
  pub read_secret : Trace → ObjectKey → Result KubeError Secret
  pub list_mappings : Trace → String → Result KubeError (List HarnessGitopsProjectMapping)
  -- agentAPI
  pub create : Trace → Session → CreateAgentRequest → Result Error CreateAgentResult
  pub lookup : Trace → Session → Agent → Result Error AgentLookupResult
  pub delete : Trace → Session → Agent → Option Error
  pub resolve_token : Trace → Session → Agent → String → Result Error String
  pub readiness : Trace → Session → Agent → Result Error AgentReadiness
  -- apimachinery's meta.SetStatusCondition, which reads the clock
  pub set_status_condition : Trace → List Condition → Condition → List Condition
  -- controllerutil and ctrl.SetControllerReference; CreateOrUpdate takes the function that mutates
  pub contains_finalizer : List String → String → Bool
  pub add_finalizer : List String → String → List String
  pub remove_finalizer : List String → String → List String
  pub set_controller_reference : HarnessGitopsAgent → TokenSecret → Result Error TokenSecret
  pub create_or_update :
      Trace → TokenSecret → (TokenSecret → Result Error TokenSecret) → Option Error

-- The fields of `Reconciler`, with `api_reader` for `APIReader != nil`. Of the interval the code only
-- tests whether it is positive, so 0 stands for the negative ones too.
pub record Reconciler : Type 0 where
  pub env : Environment
  pub api_reader : Bool
  pub api_key_secret_namespace : String
  pub agent_health_resync_interval : ℕ

-- The object in memory, which the code mutates in place, and the calls made.
pub record State : Type 0 where
  pub agent : HarnessGitopsAgent
  pub trace : Trace

-- ctrl.Result and the error of a reconcile
pub record Outcome : Type 0 where
  pub requeue_after : ℕ
  pub error : Option Error

unfoldable pub record_event : Event → State → State
record_event e s = record s { trace = e ∷ s.trace }

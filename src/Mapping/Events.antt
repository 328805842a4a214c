-- ===== src/Mapping/Events.antt =====
-- What starts a reconcile, and how often: the pure functions of
-- internal/resource/projectmapping/kubernetes.go.
pub mod Laws
use harness_gitops_agent_ope.Common.{
  ℕ, String, Bool, true, false, not, Option, none, some, List, [], ◌∷◌, Result, ok, err,
  if◌then◌else◌, ltb, map,
}
use harness_gitops_agent_ope.Text.{◌==◌, trim_space, str_lt}
use harness_gitops_agent_ope.Api.{ObjectKey, HarnessGitopsProjectMapping, key_of}
use harness_gitops_agent_ope.Harness.Errors.{Error, KubeError, plain}

-- `MinimumMappingInterval`, 1 s
abbrev pub minimum_mapping_interval : ℕ
minimum_mapping_interval = 1_000_000_000

-- `ValidateMappingIntervals`; a negative duration is 0 here, and is as invalid
unfoldable pub validate_mapping_intervals : ℕ → ℕ → Option Error
validate_mapping_intervals pending_retry harness_resync =
    if ltb pending_retry minimum_mapping_interval
    then some (plain "appProject pending retry interval must be at least 1s")
    else if ltb harness_resync minimum_mapping_interval
    then some (plain "harness mapping resync interval must be at least 1s")
    else none

-- `projectMappingAgentRefIndexValues`, of a mapping
unfoldable pub project_mapping_agent_ref_index_values : HarnessGitopsProjectMapping → List String
project_mapping_agent_ref_index_values mapping =
    if trim_space mapping.spec.agent_ref_name == ""
    then []
    else trim_space mapping.spec.agent_ref_name ∷ []

-- the comparison of two requests
unfoldable pub request_less : ObjectKey → ObjectKey → Bool
request_less l r =
    if not (l.namespace == r.namespace)
    then str_lt l.namespace r.namespace
    else str_lt l.name r.name

-- sort.Slice by it
unfoldable pub insert_request : ObjectKey → List ObjectKey → List ObjectKey
insert_request k [] = k ∷ []
insert_request k (l ∷ ks) = if request_less l k then l ∷ insert_request k ks else k ∷ l ∷ ks

unfoldable pub sort_requests : List ObjectKey → List ObjectKey
sort_requests [] = []
sort_requests (k ∷ ks) = insert_request k (sort_requests ks)

-- `agentToProjectMappingRequests`, from the answer to its list of the mappings in the namespace of the
-- Agent whose index value is the Agent's name
unfoldable pub agent_to_project_mapping_requests :
    Result KubeError (List HarnessGitopsProjectMapping) → List ObjectKey
agent_to_project_mapping_requests (err e) = []
agent_to_project_mapping_requests (ok items) = sort_requests (map (λ m. key_of m.metadata) items)

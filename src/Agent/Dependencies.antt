-- ===== src/Agent/Dependencies.antt =====
-- The mappings that refer to an Agent under deletion: `reconcileMappingDependenciesForDeletion` of
-- internal/resource/agent/finalizer.go and `setAgentWaitingForMappings` of conditions.go.
pub mod Listed
pub mod Laws
use mathlib.Core.Option
use harness_gitops_agent_ope.Common.{
  ℕ, String, Bool, true, false, not, Option, none, some, List, [], ◌∷◌, ◌++◌, map, Result, ok, err,
  if◌then◌else◌, keep_if,
}
use harness_gitops_agent_ope.Text.{◌==◌, ◌<>◌, trim_space, str_lt}
use harness_gitops_agent_ope.Api.{
  condition_false, ObjectKey, HarnessGitopsAgent, HarnessGitopsProjectMapping, is_zero,
}
use harness_gitops_agent_ope.Harness.Errors.{Error, kube, plain, wrap, join_errors}
use harness_gitops_agent_ope.Agent.Environment.{
  Reconciler, State, Outcome, listed_mappings, deleted_mapping, record_event,
}
use harness_gitops_agent_ope.Agent.Status.{set_agent_condition}

-- `agentMappingDependencyRetryInterval`, 10 s
abbrev pub agent_mapping_dependency_retry_interval : ℕ
agent_mapping_dependency_retry_interval = 10_000_000_000

-- strings.Join
unfoldable pub join_texts : String → List String → String
join_texts separator [] = ""
join_texts separator (text ∷ []) = text
join_texts separator (text ∷ next ∷ rest) = text <> separator <> join_texts separator (next ∷ rest)

-- `setAgentWaitingForMappings`
unfoldable pub set_agent_waiting_for_mappings :
    Reconciler → List String → State → Option Error × State
unfolding join_texts
set_agent_waiting_for_mappings r names s =
    set_agent_condition r "Ready" condition_false "WaitingForMappings"
      ("Waiting for HarnessGitopsProjectMapping resources to be deleted: " <> join_texts ", " names)
      s

-- the test of the first loop
unfoldable pub refers_to : HarnessGitopsAgent → HarnessGitopsProjectMapping → Bool
refers_to cr mapping = trim_space mapping.spec.agent_ref_name == cr.metadata.name

-- the first loop
unfoldable pub references_of :
    HarnessGitopsAgent → List HarnessGitopsProjectMapping → List HarnessGitopsProjectMapping
references_of cr [] = []
references_of cr (mapping ∷ items) =
    if refers_to cr mapping then mapping ∷ references_of cr items else references_of cr items

-- sort.Slice by the name
unfoldable pub insert_by_name :
    HarnessGitopsProjectMapping
    → List HarnessGitopsProjectMapping
    → List HarnessGitopsProjectMapping
insert_by_name m [] = m ∷ []
insert_by_name m (n ∷ ns) =
    if str_lt n.metadata.name m.metadata.name then n ∷ insert_by_name m ns else m ∷ n ∷ ns

unfoldable pub sort_by_name : List HarnessGitopsProjectMapping → List HarnessGitopsProjectMapping
sort_by_name [] = []
sort_by_name (m ∷ ms) = insert_by_name m (sort_by_name ms)

-- the error of one delete call, added to those before
unfoldable pub add_delete_error :
    Option Error → HarnessGitopsProjectMapping → Option Error → Option Error
add_delete_error delete_err mapping none = delete_err
add_delete_error delete_err mapping (some e) = join_errors delete_err (
    some (
      wrap ("delete Mapping " <> mapping.metadata.namespace <> "/" <> mapping.metadata.name <> ": ")
        e ""))

-- the second loop, which deletes what is not being deleted yet
unfoldable pub delete_references :
    Reconciler → Option Error → List HarnessGitopsProjectMapping → State → Option Error × State
unfolding add_delete_error record_event
delete_references r delete_err [] s = (delete_err, s)
delete_references r delete_err (mapping ∷ rest) s =
    if not (is_zero mapping.metadata.deletion_timestamp)
    then delete_references r delete_err rest s
    else delete_references r
        (add_delete_error delete_err mapping
          (Option.map kube (r.env.delete_mapping s.trace mapping)))
        rest (record_event (deleted_mapping mapping) s)

-- there are references: delete them, and wait
unfoldable pub wait_for_references :
    Reconciler → List HarnessGitopsProjectMapping → State → Outcome × State
unfolding delete_references set_agent_waiting_for_mappings
wait_for_references r references s =
    let names = map (λ (m : HarnessGitopsProjectMapping). m.metadata.name) references in
    let (delete_err, s') = delete_references r none references s in
    let (status_err, s'') = set_agent_waiting_for_mappings r names s' in
    (
      record {
        requeue_after = agent_mapping_dependency_retry_interval;
        error = join_errors delete_err status_err;
      },
      s'',
    )

unfoldable pub wait_unless_empty :
    Reconciler → List HarnessGitopsProjectMapping → State → Option Outcome × State
unfolding wait_for_references
wait_unless_empty r [] s = (none, s)
wait_unless_empty r (m ∷ references) s =
    let (outcome, s') = wait_for_references r (sort_by_name (m ∷ references)) s in
    (some outcome, s')

-- `reconcileMappingDependenciesForDeletion`; `some` is the result true of `done`
unfoldable pub reconcile_mapping_dependencies_for_deletion :
    Reconciler → State → Option Outcome × State
unfolding wait_unless_empty record_event
reconcile_mapping_dependencies_for_deletion r s =
    let where_from = s.agent.metadata.namespace <> "/" <> s.agent.metadata.name in
    if not r.api_reader
    then (
      some (record {
        requeue_after = 0;
        error = some (
            plain (
              "cannot verify Mapping dependencies for Agent " <> where_from
              <> ": APIReader is not configured"));
      }),
      s,
    )
    else let s' = record_event (listed_mappings s.agent.metadata.namespace) s in
      elim (r.env.list_mappings s.trace s.agent.metadata.namespace) [
        | err e ↦ (
          some (record {
            requeue_after = 0;
            error =
                some
                  (wrap ("list Mapping dependencies for Agent " <> where_from <> ": ") (kube e) "");
          }),
          s',
        )
        | ok items ↦ wait_unless_empty r (references_of s.agent items) s'
      ]

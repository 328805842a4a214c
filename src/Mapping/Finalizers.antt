-- ===== src/Mapping/Finalizers.antt =====
-- internal/resource/finalizer.go, on the mapping controller's objects.
use mathlib.Core.Option
use harness_gitops_agent_ope.Common.{String, Option, none, some, List, if◌then◌else◌}
use harness_gitops_agent_ope.Api.{HarnessGitopsProjectMapping}
use harness_gitops_agent_ope.Harness.Errors.{Error, kube}
use harness_gitops_agent_ope.Mapping.Environment.{
  Reconciler, State, Outcome, updated, accepted, record_event,
}

-- `harnessProjectMappingFinalizer`
abbrev pub project_mapping_finalizer : String
project_mapping_finalizer = "infrastructure.harness.io/project-mapping-finalizer"

unfoldable pub with_finalizers :
    List String → HarnessGitopsProjectMapping → HarnessGitopsProjectMapping
with_finalizers finalizers mapping = record mapping {
  metadata = record (mapping.metadata) { finalizers = finalizers };
}

-- writer.Update
unfoldable pub update_object : Reconciler → State → Option Error × State
unfolding record_event accepted
update_object r s =
    let answer = r.env.update s.trace s.mapping in
    (Option.map kube answer, record_event (updated s.mapping (accepted answer)) s)

-- `EnsureFinalizer`; `some` is the result true of `done`
unfoldable pub ensure_finalizer : Reconciler → State → Option Outcome × State
unfolding update_object with_finalizers
ensure_finalizer r s =
    if r.env.contains_finalizer s.mapping.metadata.finalizers project_mapping_finalizer
    then (none, s)
    else let added = r.env.add_finalizer s.mapping.metadata.finalizers project_mapping_finalizer in
      let (update_err, s') =
        update_object r (record s { mapping = with_finalizers added s.mapping }) in
      elim update_err [
        | some e ↦ (some (record { requeue_after = 0; error = some e }), s')
        | none ↦ (some (record { requeue_after = 1; error = none }), s')
      ]

-- `RemoveFinalizer`
unfoldable pub remove_finalizer : Reconciler → State → Outcome × State
unfolding update_object with_finalizers
remove_finalizer r s =
    let left = r.env.remove_finalizer s.mapping.metadata.finalizers project_mapping_finalizer in
    let (update_err, s') =
      update_object r (record s { mapping = with_finalizers left s.mapping }) in
    (record { requeue_after = 0; error = update_err }, s')

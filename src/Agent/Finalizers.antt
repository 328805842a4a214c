-- ===== src/Agent/Finalizers.antt =====
-- internal/resource/finalizer.go, on the Agent controller's objects.
use mathlib.Core.Option
use harness_gitops_agent_ope.Common.{String, Option, none, some, List, if◌then◌else◌}
use harness_gitops_agent_ope.Harness.Errors.{Error, kube}
use harness_gitops_agent_ope.Agent.Environment.{Reconciler, State, Outcome, updated, record_event}
use harness_gitops_agent_ope.Agent.Status.{accepted}

-- `harnessAgentFinalizer`
abbrev pub harness_agent_finalizer : String
harness_agent_finalizer = "infrastructure.harness.io/finalizer"

unfoldable pub with_finalizers : List String → State → State
with_finalizers finalizers s = record s {
  agent = record (s.agent) { metadata = record (s.agent.metadata) { finalizers = finalizers } };
}

-- writer.Update
unfoldable pub update_object : Reconciler → State → Option Error × State
unfolding record_event accepted
update_object r s =
    let answer = r.env.update s.trace s.agent in
    (Option.map kube answer, record_event (updated s.agent (accepted answer)) s)

-- `EnsureFinalizer`; `some` is the result true of `done`
unfoldable pub ensure_finalizer : Reconciler → State → Option Outcome × State
unfolding update_object with_finalizers
ensure_finalizer r s =
    if r.env.contains_finalizer s.agent.metadata.finalizers harness_agent_finalizer
    then (none, s)
    else let (update_err, s') = update_object r (
        with_finalizers (r.env.add_finalizer s.agent.metadata.finalizers harness_agent_finalizer)
          s) in
      elim update_err [
        | some e ↦ (some (record { requeue_after = 0; error = some e }), s')
        | none ↦ (some (record { requeue_after = 1; error = none }), s')
      ]

-- `RemoveFinalizer`
unfoldable pub remove_finalizer : Reconciler → State → Outcome × State
unfolding update_object with_finalizers
remove_finalizer r s =
    let (update_err, s') = update_object r (
      with_finalizers (r.env.remove_finalizer s.agent.metadata.finalizers harness_agent_finalizer)
        s) in
    (record { requeue_after = 0; error = update_err }, s')

-- ===== src/Mapping/Create/Guards.antt =====
-- Under which conditions, and how often, one reconcile creates a row in Harness.
use harness_gitops_agent_ope.Common.{
  String, suc, ◌≡◌, ◌≢◌, ◌≤◌, ◌⊎◌, inl, inr, true, false, List, ok, any, arith, Option-cases,
  Result-cases,
}
use harness_gitops_agent_ope.Text.{◌==◌, trim_space}
use harness_gitops_agent_ope.Api.{condition_false}
use harness_gitops_agent_ope.Mapping.Ready.{set_ready}
use harness_gitops_agent_ope.Harness.Session.{Session}
use harness_gitops_agent_ope.Mapping.Types.{ProjectMappingRequest, ProjectMapping}
use harness_gitops_agent_ope.Mapping.Remote.{is_uncertain_creation_state}
use harness_gitops_agent_ope.Mapping.Environment.{Reconciler, State, listed, record_event}
use harness_gitops_agent_ope.Mapping.Quiet.{Measure}
use harness_gitops_agent_ope.Mapping.Calls.{posts, posts_measure}
use harness_gitops_agent_ope.Mapping.Ready.Laws.{
  quiet-set_ready, quiet-set_ready_after, quiet-return_api_error,
}
use harness_gitops_agent_ope.Mapping.Verify.Laws.{quiet-reconcile_selected}
use harness_gitops_agent_ope.Mapping.Selection.{ProjectMappingSelection, select_project_mapping}
use harness_gitops_agent_ope.Mapping.Selection.Laws.{same_app_project}
use harness_gitops_agent_ope.Mapping.Selection.Choice.{select-free}
use harness_gitops_agent_ope.Mapping.Create.Laws.{post_mapping-posts}
use harness_gitops_agent_ope.Mapping.Create.{
  create_mapping, reconcile_unobserved, reconcile_unselected, reconcile_rows,
  reconcile_harness_mapping, record_intent,
}

ruleset quiet_rules =
    (quiet-set_ready, quiet-set_ready_after, quiet-return_api_error, quiet-reconcile_selected)

module _ (r : Reconciler) (session : Session) (request : ProjectMappingRequest) where
  -- no adoption is asked for, and no earlier create is unresolved
  abbrev pub MayCreate : State → Type 0
  MayCreate s =
      ((trim_space s.mapping.spec.adopt_mapping_id == "") ≡ true)
      × (is_uncertain_creation_state s.mapping.status.creation_state ≡ false)

  unselected-cases :
      (μ : Measure) (selection : ProjectMappingSelection) (s : State)
      → (μ.of (reconcile_unselected r session request selection s).1.trace ≡ μ.of s.trace)
        ⊎ ((selection.duplicate ≡ false) × (selection.conflict ≡ false) × MayCreate s)
  unfolding reconcile_unselected reconcile_unobserved is_uncertain_creation_state
  unselected-cases μ selection s = grind (arith, quiet_rules)

  rows-cases :
      (μ : Measure) (rows : List ProjectMapping) (s : State)
      → (μ.of (reconcile_rows r session request rows s).1.trace ≡ μ.of s.trace)
        ⊎ ((any (same_app_project request) rows ≡ false) × MayCreate s)
  unfolding reconcile_rows
  rows-cases μ rows s =
      let selection = select_project_mapping rows request s.mapping in
      elim (Option-cases selection.mapping) [
        | inl e ↦ ground (arith, unselected-cases μ selection s, select-free rows request s.mapping)
        | inr (m, e) ↦ ground (arith, quiet-reconcile_selected μ r request m s)
      ]

  harness-cases :
      (μ : Measure) (s : State) (rows : List ProjectMapping)
      → r.env.list s.trace session request ≡ ok rows
      → (μ.of (reconcile_harness_mapping r session request s).1.trace ≡ μ.of s.trace)
        ⊎ ((any (same_app_project request) rows ≡ false) × MayCreate s)
  unfolding reconcile_harness_mapping record_event
  harness-cases μ s rows answer =
      let s' = record_event (listed request) s in
      ground (arith, rows-cases μ rows s', μ.quiet (listed request) s.trace)

  -- A create call is made only if the list call succeeded, no row that Harness listed is for the
  -- AppProject of the request, the resource asks for no adoption, and it has no unresolved create.
  pub create-needs-free_app_project :
      (s : State)
      → posts (reconcile_harness_mapping r session request s).1.trace ≢ posts s.trace
      → (rows : List ProjectMapping) × (r.env.list s.trace session request ≡ ok rows)
        × (any (same_app_project request) rows ≡ false)
        × MayCreate s
  unfolding reconcile_harness_mapping
  create-needs-free_app_project s changed =
      elim (Result-cases (r.env.list s.trace session request)) [
        | inl (e, answer) ↦ absurd (
            ground (
              arith,
              quiet-return_api_error posts_measure r "Unable to list Harness AppProject mappings" e
                  (record_event (listed request) s),
              posts_measure.quiet (listed request) s.trace,
            ))
        | inr (rows, answer) ↦ elim (harness-cases posts_measure s rows answer) [
          | inl same ↦ absurd (changed same)
          | inr (free, may) ↦ (rows, answer, free, may)
        ]
      ]

  create_mapping-posts :
      (s : State) → posts (create_mapping r session request s).1.trace ≤ suc (posts s.trace)
  unfolding create_mapping
  create_mapping-posts s =
      let message : String = "Persisted Harness mapping create intent" in
      let s' = (set_ready r condition_false "CreatePending" message (record_intent request) s).1 in
      ground (
        arith,
        post_mapping-posts r session request s',
        quiet-set_ready posts_measure r condition_false "CreatePending" message
            (record_intent request) s,
      )

  unselected-bounded :
      (μ : Measure) (selection : ProjectMappingSelection) (s : State)
      → μ.of (create_mapping r session request s).1.trace ≤ suc (μ.of s.trace)
      → μ.of (reconcile_unselected r session request selection s).1.trace ≤ suc (μ.of s.trace)
  unfolding reconcile_unselected reconcile_unobserved
  unselected-bounded μ selection s bounded = grind (arith, quiet_rules)

  harness-bounded :
      (μ : Measure) (s : State)
      → μ.of (create_mapping r session request (record_event (listed request) s)).1.trace
        ≤ suc (μ.of (record_event (listed request) s).trace)
      → μ.of (reconcile_harness_mapping r session request s).1.trace ≤ suc (μ.of s.trace)
  unfolding reconcile_harness_mapping reconcile_rows record_event
  harness-bounded μ s bounded = grind (arith, quiet_rules, unselected-bounded, μ.quiet)

  -- One reconcile makes at most one create call.
  pub harness-posts :
      (s : State)
      → posts (reconcile_harness_mapping r session request s).1.trace ≤ suc (posts s.trace)
  harness-posts s =
      harness-bounded posts_measure s (create_mapping-posts (record_event (listed request) s))

-- ===== src/Mapping/Create/Laws.antt =====
-- When the controller creates a row in Harness.
use harness_gitops_agent_ope.Common.{
  suc, ◌≡◌, ◌∷◌, ◌∙◌, ◌≢◌, refl, true, false, Option, none, Result, arith,
}
use harness_gitops_agent_ope.Api.{condition_false}
use harness_gitops_agent_ope.Harness.Errors.{Error}
use harness_gitops_agent_ope.Harness.Session.{Session}
use harness_gitops_agent_ope.Mapping.Types.{ProjectMappingRequest, ProjectMapping}
use harness_gitops_agent_ope.Mapping.Remote.{is_uncertain_creation_state}
use harness_gitops_agent_ope.Mapping.Environment.{Reconciler, State, created, listed, record_event}
use harness_gitops_agent_ope.Mapping.Quiet.{Measure}
use harness_gitops_agent_ope.Mapping.Calls.{
  deletes, deletes_measure, deletes-quiet, posts, posts_measure, unrecorded, unrecorded_measure,
  intent_persisted, holds_intent,
}
use harness_gitops_agent_ope.Mapping.Ready.Laws.{
  quiet-set_ready, quiet-set_ready_after, quiet-set_ready_failing, quiet-return_api_error, written,
  set_ready-eq-update_status, trace-update_status,
}
use harness_gitops_agent_ope.Mapping.Verify.Laws.{quiet-reconcile_selected}
use harness_gitops_agent_ope.Mapping.Ready.{set_ready, ready_status}
use harness_gitops_agent_ope.Mapping.Selection.{ProjectMappingSelection}
use harness_gitops_agent_ope.Mapping.Create.{
  record_create_answer, post_mapping, create_mapping, reconcile_unobserved, reconcile_unselected,
  reconcile_rows, reconcile_harness_mapping, record_intent,
}

ruleset quiet_rules = (
  quiet-set_ready, quiet-set_ready_after, quiet-set_ready_failing, quiet-return_api_error,
  quiet-reconcile_selected,
)

module _ (r : Reconciler) (session : Session) (request : ProjectMappingRequest) where
  abbrev intent : State → State
  intent =
      written r condition_false "CreatePending" "Persisted Harness mapping create intent"
        (record_intent request)

  abbrev write_intent : State → Option Error × State
  write_intent =
      set_ready r condition_false "CreatePending" "Persisted Harness mapping create intent"
        (record_intent request)

  quiet-record_create_answer :
      (μ : Measure) (answer : Result Error ProjectMapping) (s : State)
      → μ.of (record_create_answer r request answer s).1.trace ≡ μ.of s.trace
  unfolding record_create_answer
  quiet-record_create_answer μ answer s = grind (arith, quiet_rules)

  holds-record_intent : (s : State) → holds_intent request (intent s).mapping.status ≡ true
  unfolding holds_intent record_intent ready_status
  holds-record_intent s = ground arith

  intent-ne :
      (s : State)
      → is_uncertain_creation_state s.mapping.status.creation_state ≡ false
      → s.mapping.status ≢ (intent s).mapping.status
  unfolding record_intent ready_status is_uncertain_creation_state
  intent-ne s h same = cc

  -- the intent is in memory after the write that records it, and the trace ends with that write
  record_intent_persisted :
      (s : State)
      → is_uncertain_creation_state s.mapping.status.creation_state ≡ false
      → (write_intent s).0 ≡ none
      → intent_persisted request (write_intent s).1.trace ≡ true
  unfolding intent_persisted
  record_intent_persisted s h done =
      let e =
        set_ready-eq-update_status r condition_false "CreatePending"
          "Persisted Harness mapping create intent" (record_intent request) s (intent-ne s h) in
      rw e (rw (trace-update_status r (intent s) (rw e at done)) (holds-record_intent s))

  pub post_mapping-posts :
      (s : State) → posts (post_mapping r session request s).1.trace ≡ suc (posts s.trace)
  unfolding post_mapping posts
  post_mapping-posts s =
      quiet-record_create_answer posts_measure (r.env.create s.trace session request)
        (record s { trace = created request ∷ s.trace })

  post_mapping-unrecorded :
      (s : State)
      → intent_persisted request s.trace ≡ true
      → unrecorded (post_mapping r session request s).1.trace ≡ unrecorded s.trace
  unfolding post_mapping unrecorded
  post_mapping-unrecorded s h =
      quiet-record_create_answer unrecorded_measure (r.env.create s.trace session request)
        (record s { trace = created request ∷ s.trace })
      ∙ rw h refl

  create_mapping-unrecorded :
      (s : State)
      → is_uncertain_creation_state s.mapping.status.creation_state ≡ false
      → unrecorded (create_mapping r session request s).1.trace ≡ unrecorded s.trace
  unfolding create_mapping
  create_mapping-unrecorded s h = ground (
    arith,
    record_intent_persisted s h,
    post_mapping-unrecorded (write_intent s).1,
    quiet-set_ready unrecorded_measure r condition_false "CreatePending"
        "Persisted Harness mapping create intent" (record_intent request) s,
  )

  -- A measure that the create keeps, the whole reconcile keeps.
  unselected-keeps :
      (μ : Measure) (selection : ProjectMappingSelection) (s : State)
      → (is_uncertain_creation_state s.mapping.status.creation_state ≡ false
          → μ.of (create_mapping r session request s).1.trace ≡ μ.of s.trace)
      → μ.of (reconcile_unselected r session request selection s).1.trace ≡ μ.of s.trace
  unfolding reconcile_unselected reconcile_unobserved is_uncertain_creation_state
  unselected-keeps μ selection s keeps = grind (arith, quiet_rules)

  harness-keeps :
      (μ : Measure) (s : State)
      → (is_uncertain_creation_state s.mapping.status.creation_state ≡ false
          → μ.of (create_mapping r session request (record_event (listed request) s)).1.trace
            ≡ μ.of s.trace)
      → μ.of (reconcile_harness_mapping r session request s).1.trace ≡ μ.of s.trace
  unfolding reconcile_harness_mapping reconcile_rows
  harness-keeps μ s keeps = grind (arith, quiet_rules, unselected-keeps, μ.quiet)

  -- Every create call comes right after a status write, accepted by the API, that holds Pending and
  -- the complete tuple of the request; in any state, whatever the answers.
  pub harness-unrecorded :
      (s : State)
      → unrecorded (reconcile_harness_mapping r session request s).1.trace ≡ unrecorded s.trace
  unfolding record_event
  harness-unrecorded s = harness-keeps unrecorded_measure s λ h.
      create_mapping-unrecorded (record_event (listed request) s) h
      ∙ unrecorded_measure.quiet (listed request) s.trace refl

  create_mapping-deletes :
      (s : State) → deletes (create_mapping r session request s).1.trace ≡ deletes s.trace
  unfolding create_mapping post_mapping deletes
  create_mapping-deletes s = grind (
    arith,
    quiet-record_create_answer deletes_measure
        (r.env.create (write_intent s).1.trace session request),
    quiet-set_ready deletes_measure,
    deletes-quiet,
  )

  pub harness-deletes :
      (s : State)
      → deletes (reconcile_harness_mapping r session request s).1.trace ≡ deletes s.trace
  unfolding record_event
  harness-deletes s = harness-keeps deletes_measure s λ h.
      create_mapping-deletes (record_event (listed request) s)
      ∙ deletes_measure.quiet (listed request) s.trace refl

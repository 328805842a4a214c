-- ===== src/Agent/Registration/Laws.antt =====
-- The create call of a registration.
use harness_gitops_agent_ope.Common.{ℕ, String, ◌≡◌, ◌≤◌, ◌+◌, refl, ◌∷◌, arith}
use harness_gitops_agent_ope.Api.{CreationState, settled}
use harness_gitops_agent_ope.Harness.Session.{Session}
use harness_gitops_agent_ope.Agent.Types.{Agent}
use harness_gitops_agent_ope.Agent.Identity.{harness_agent_for}
use harness_gitops_agent_ope.Agent.Environment.{Reconciler, State, created, looked_up}
use harness_gitops_agent_ope.Agent.Calls.{
  Measure, weaken, tokens, tokens_measure, posts, posts_measure, deletes, deletes_measure,
}
use harness_gitops_agent_ope.Agent.Calls.Quiet.{
  quiet-set_creation_state, quiet-record_create, quiet-register_existing,
}
use harness_gitops_agent_ope.Agent.Registration.{
  create_agent_request, create_harness_agent, register_absent, register_looked_up,
  register_in_state, reconcile_agent_registration,
}

-- the agent that a registration looks up, and the state behind the lookup
abbrev pub expected_agent : State → Agent
expected_agent s = harness_agent_for s.agent s.agent.spec.identifier

abbrev pub after_lookup : Reconciler → Session → State → State
after_lookup r session s = record s {
  trace = looked_up (expected_agent s) (r.env.lookup s.trace session (expected_agent s)) ∷ s.trace;
}

pub quiet-after_lookup :
    (μ : Measure) (r : Reconciler) (session : Session) (s : State)
    → μ.of (after_lookup r session s).trace ≡ μ.of s.trace
quiet-after_lookup μ r session s = μ.quiet _ s.trace refl

-- A measure that the create call raises by `slack` at most, a registration does.
module _ (μ : Measure) (r : Reconciler) (slack : ℕ) where
  module _
      (bounded : (namespace : String) (s : State)
        → μ.of (created (create_agent_request namespace s) ∷ s.trace) ≤ μ.of s.trace + slack) where
    bound-create :
        (session : Session) (namespace : String) (s : State)
        → μ.of (create_harness_agent r session namespace s).1.trace ≤ μ.of s.trace + slack
    unfolding create_harness_agent
    bound-create session namespace s = grind (arith, bounded namespace s)

    bound-absent :
        (session : Session) (namespace : String) (s : State)
        → μ.of (register_absent r session namespace s).1.trace ≤ μ.of s.trace + slack
    unfolding register_absent
    bound-absent session namespace s = grind (arith, bound-create, quiet-record_create)

    bound-looked_up :
        (session : Session) (namespace : String) (s : State)
        → μ.of (register_looked_up r session namespace s).1.trace ≤ μ.of s.trace + slack
    unfolding register_looked_up
    bound-looked_up session namespace s = grind (
      arith,
      bound-absent session namespace (after_lookup r session s),
      quiet-register_existing μ r (expected_agent s),
      quiet-after_lookup μ r session s,
    )

    bound-in_state :
        (state : CreationState) (session : Session) (namespace : String) (s : State)
        → μ.of (register_in_state state r session namespace s).1.trace ≤ μ.of s.trace + slack
    unfolding register_in_state
    bound-in_state settled session namespace s =
        grind (arith, bound-looked_up, quiet-set_creation_state)
    bound-in_state _ session namespace s = grind (arith, bound-looked_up)

    pub bound-registration :
        (session : Session) (namespace : String) (s : State)
        → μ.of (reconcile_agent_registration r session namespace s).1.trace ≤ μ.of s.trace + slack
    unfolding reconcile_agent_registration
    bound-registration session namespace s = grind (arith, bound-in_state)

module _ (r : Reconciler) where
  pub registration-posts :
      (session : Session) (namespace : String) (s : State)
      → posts (reconcile_agent_registration r session namespace s).1.trace ≤ posts s.trace + 1
  unfolding posts
  registration-posts session namespace s =
      bound-registration (weaken posts_measure) r 1 (λ ns st. ground arith) session namespace s

  pub registration-deletes :
      (session : Session) (namespace : String) (s : State)
      → deletes (reconcile_agent_registration r session namespace s).1.trace ≤ deletes s.trace + 0
  unfolding deletes
  registration-deletes session namespace s =
      bound-registration (weaken deletes_measure) r 0 (λ ns st. ground arith) session namespace s

  pub registration-tokens :
      (session : Session) (namespace : String) (s : State)
      → tokens (reconcile_agent_registration r session namespace s).1.trace ≤ tokens s.trace + 0
  unfolding tokens
  registration-tokens session namespace s =
      bound-registration tokens_measure r 0 (λ ns st. ground arith) session namespace s

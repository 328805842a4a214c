-- ===== src/Mapping/Quiet.antt =====
-- Measures of a trace that only create and delete calls change. What the operations below do to such
-- a measure is proved once for all of them, in the modules named after the operations.
use harness_gitops_agent_ope.Common.{ℕ, Bool, true, false, ◌≡◌, ◌∷◌}
use harness_gitops_agent_ope.Mapping.Environment.{Event, created, deleted, Trace}

-- an event that is neither a create nor a delete call to Harness
abbrev pub is_quiet : Event → Bool
is_quiet (created request) = false
is_quiet (deleted request id) = false
is_quiet _ = true

pub record Measure : Type 0 where
  pub of : Trace → ℕ
  pub quiet : (e : Event) (t : Trace) → is_quiet e ≡ true → of (e ∷ t) ≡ of t

-- ===== src/Agent/Registration/Remembered.antt =====
-- A create call whose answer says nothing certain, and what the API holds after it.
use harness_gitops_agent_ope.Common.{
  String, Bool, true, false, ◌||◌, ◌≡◌, ◌∙◌, ap, ◌⊎◌, inl, inr, refl, ◌∷◌, err, arith, Bool-cases,
  Result-cases, Option-cases,
}
use harness_gitops_agent_ope.Text.{◌==◌, trim_space}
use harness_gitops_agent_ope.Api.{
  ObjectMeta, CreationState, settled, pending, outcome_unknown, other_state,
}
use harness_gitops_agent_ope.Harness.Errors.{
  Error, errors_is, agent_already_exists, agent_create_outcome_unknown,
  harness_agent_already_exists,
}
use harness_gitops_agent_ope.Harness.Session.{Session}
use harness_gitops_agent_ope.Agent.Types.{CreateAgentRequest}
use harness_gitops_agent_ope.Agent.Environment.{Reconciler, State, Trace, created}
use harness_gitops_agent_ope.Agent.Status.{set_agent_creation_state}
use harness_gitops_agent_ope.Agent.Calls.{
  posts, posts_measure, weaken, persisted_state, is_persisted_uncertain,
}
use harness_gitops_agent_ope.Agent.Calls.Quiet.{quiet-register_existing, quiet-set_creation_state}
use harness_gitops_agent_ope.Agent.Calls.Bounds.{IsSynced}
use harness_gitops_agent_ope.Agent.Registration.{
  already_exists_error, leave_unknown, record_create, create_agent_request, created_agent,
  create_harness_agent, register_absent, register_looked_up, register_in_state,
  reconcile_agent_registration,
}
use harness_gitops_agent_ope.Agent.Registration.Laws.{
  expected_agent, after_lookup, quiet-after_lookup,
}
use harness_gitops_agent_ope.Agent.Registration.Guard.{set_creation_state-pending}

-- The agent may exist although the create call failed.
unfoldable pub is_ambiguous : Error → Bool
is_ambiguous e = errors_is agent_already_exists e || errors_is agent_create_outcome_unknown e

abbrev pub IsUncertain : State → Type 0
IsUncertain s = is_persisted_uncertain (persisted_state s.trace) ≡ true

module _ (r : Reconciler) where
  IsUncertain-set_unknown :
      (s : State) → IsUncertain s → IsUncertain (set_agent_creation_state r outcome_unknown s).1
  unfolding set_agent_creation_state persisted_state is_persisted_uncertain
  IsUncertain-set_unknown s h = ground arith

  IsUncertain-leave_unknown :
      (e : Error) (s : State) → IsUncertain s → IsUncertain (leave_unknown r e s).1
  unfolding leave_unknown
  IsUncertain-leave_unknown e s h = grind (arith, IsUncertain-set_unknown)

  IsUncertain-record_create :
      (e : Error) (s : State)
      → IsUncertain s
      → (errors_is harness_agent_already_exists e || errors_is agent_create_outcome_unknown e)
        ≡ true
      → IsUncertain (record_create r (err e) s).1
  unfolding record_create
  IsUncertain-record_create e s h ambiguous = rw ambiguous (IsUncertain-leave_unknown e s h)

  created_agent-ambiguous :
      (s : State) (request : CreateAgentRequest) (e : Error)
      → is_ambiguous e ≡ true
      → (e' : Error) × (created_agent s request (err e) ≡ err e')
        × ((errors_is harness_agent_already_exists e' || errors_is agent_create_outcome_unknown e')
            ≡ true)
  unfolding created_agent already_exists_error is_ambiguous errors_is
  created_agent-ambiguous s request e ambiguous =
      elim (Bool-cases (errors_is agent_already_exists e)) [
        | inl exists ↦ (already_exists_error s, rw exists refl, refl)
        | inr differs ↦ (e, rw differs refl, ground arith)
      ]

  IsUncertain-absent :
      (session : Session) (namespace : String) (s : State) (e : Error)
      → IsUncertain s
      → (trim_space s.agent.metadata.uid == "") ≡ false
      → r.env.create s.trace session (create_agent_request namespace s) ≡ err e
      → is_ambiguous e ≡ true
      → IsUncertain (register_absent r session namespace s).1
  unfolding register_absent create_harness_agent persisted_state
  IsUncertain-absent session namespace s e h has_uid failed ambiguous =
      let request = create_agent_request namespace s in
      let (e', answer, still) = created_agent-ambiguous s request e ambiguous in
      rw (has_uid, failed, answer)
        (IsUncertain-record_create e' (record s { trace = created request ∷ s.trace }) h still)

  -- The state behind a registration of which the create call, if it was made, said nothing certain.
  abbrev pub IsRemembered : State → State → Type 0
  IsRemembered s after = (posts after.trace ≡ posts s.trace) ⊎ IsUncertain after

  abbrev pub AnswersAmbiguously : Session → Type 0
  AnswersAmbiguously session =
      (t : Trace) (request : CreateAgentRequest)
      → (e : Error) × (r.env.create t session request ≡ err e) × (is_ambiguous e ≡ true)

  posts-after_lookup :
      (session : Session) (s : State) → posts (after_lookup r session s).trace ≡ posts s.trace
  posts-after_lookup session s = quiet-after_lookup (weaken posts_measure) r session s

  IsUncertain-after_lookup :
      (session : Session) (s : State) → IsUncertain s → IsUncertain (after_lookup r session s)
  unfolding persisted_state
  IsUncertain-after_lookup session s h = h

  IsRemembered-looked_up :
      (session : Session) (namespace : String) (s : State)
      → AnswersAmbiguously session
      → IsUncertain s
      → (trim_space s.agent.metadata.uid == "") ≡ false
      → IsRemembered s (register_looked_up r session namespace s).1
  unfolding register_looked_up
  IsRemembered-looked_up session namespace s ambiguous h has_uid =
      elim (Result-cases (r.env.lookup s.trace session (expected_agent s))) [
        | inl (e, failed) ↦ inl (grind (arith, posts-after_lookup session s))
        | inr (result, read) ↦ elim (Bool-cases result.exists) [
          | inl exists ↦ inl (
              grind (
                arith,
                posts-after_lookup session s,
                quiet-register_existing (weaken posts_measure) r (expected_agent s),
              ))
          | inr free ↦
              let after = after_lookup r session s in
              let (e, failed, unclear) =
                ambiguous after.trace (create_agent_request namespace after) in
              inr (
                grind (
                  arith,
                  IsUncertain-absent session namespace after e,
                  IsUncertain-after_lookup session s,
                ))
        ]
      ]

  IsRemembered-settled :
      (session : Session) (namespace : String) (s : State)
      → AnswersAmbiguously session
      → IsSynced s
      → (trim_space s.agent.metadata.uid == "") ≡ false
      → IsRemembered s (register_in_state settled r session namespace s).1
  unfolding register_in_state
  IsRemembered-settled session namespace s ambiguous synced has_uid =
      let same = quiet-set_creation_state (weaken posts_measure) r pending s in
      elim (Option-cases (set_agent_creation_state r pending s).0) [
        | inl done ↦
            let (h, kept) = set_creation_state-pending r s synced done in
            let s' = (set_agent_creation_state r pending s).1 in
            let after =
              IsRemembered-looked_up session namespace s' ambiguous h
                (ap (λ (m : ObjectMeta). trim_space m.uid == "") kept ∙ has_uid) in
            elim after [
              | inl unchanged ↦ inl (grind (arith, same, unchanged))
              | inr still ↦ inr (grind arith)
            ]
        | inr (e, failed) ↦ inl (grind (arith, same))
      ]

  IsRemembered-in_state :
      (state : CreationState) (session : Session) (namespace : String) (s : State)
      → AnswersAmbiguously session
      → IsSynced s
      → s.agent.status.creation_state ≡ state
      → (trim_space s.agent.metadata.uid == "") ≡ false
      → IsRemembered s (register_in_state state r session namespace s).1
  unfolding register_in_state is_persisted_uncertain
  IsRemembered-in_state settled session namespace s ambiguous synced same has_uid =
      IsRemembered-settled session namespace s ambiguous synced has_uid
  IsRemembered-in_state (other_state text) session namespace s ambiguous synced same has_uid =
      inl refl
  IsRemembered-in_state _ session namespace s ambiguous synced same has_uid =
      IsRemembered-looked_up session namespace s ambiguous (grind (arith)) has_uid

  -- A registration whose create call, if it makes one, answers that the agent exists or that the
  -- outcome is unknown ends with an uncertain creation state as the last one that the API is known to
  -- hold, whatever the status writes answer, if the state in memory was the last known one before.
  pub ambiguous_create-IsRemembered :
      (session : Session) (namespace : String) (s : State)
      → AnswersAmbiguously session
      → IsSynced s
      → IsRemembered s (reconcile_agent_registration r session namespace s).1
  unfolding reconcile_agent_registration
  ambiguous_create-IsRemembered session namespace s ambiguous synced =
      elim (Bool-cases (trim_space s.agent.metadata.uid == "")) [
        | inl blank ↦ rw blank (inl refl)
        | inr has_uid ↦ rw has_uid (
            IsRemembered-in_state s.agent.status.creation_state session namespace s ambiguous synced
              refl has_uid)
      ]

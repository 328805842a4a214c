-- ===== src/Agent/Sdk/Directory.antt =====
-- The adapter against a Harness that keeps a directory of agents: the loops over the candidates find the
-- first one that the directory has.
use harness_gitops_agent_ope.Common.{
  String, Bool, true, false, ◌&&◌, ◌≡◌, refl, Option, none, some, List, [], ◌∷◌, Result, ok, err,
  ap, if◌then◌else◌, arith, inl, inr,
}
use harness_gitops_agent_ope.Text.{◌==◌, trim_space}
use harness_gitops_agent_ope.Api.{ConditionStatus, condition_true, condition_false}
use harness_gitops_agent_ope.Harness.Errors.{Error}
use harness_gitops_agent_ope.Harness.Identifiers.{scoped_identifier_candidates}
use harness_gitops_agent_ope.Harness.Identifiers.Laws.{candidates-nonempty}
use harness_gitops_agent_ope.Harness.Answers.{Answers, Answers-cases, first_of, tried_of, sent_for}
use harness_gitops_agent_ope.Harness.Session.{Session}
use harness_gitops_agent_ope.Agent.Types.{Agent, AgentLookupResult, AgentReadiness}
use harness_gitops_agent_ope.Agent.Health.{health_report}
use harness_gitops_agent_ope.Agent.Client.{
  V1Agent, AgentClient, Calls, GetArguments, DeleteArguments, SdkCall, sent_get, sent_delete,
}
use harness_gitops_agent_ope.Agent.Sdk.{
  agent_from_sdk, not_found, get_arguments, delete_arguments, lookup_candidates, sdk_lookup,
  delete_candidates, sdk_delete, agent_not_found_error,
}
use harness_gitops_agent_ope.Agent.Sdk.Readiness.{
  HealthStatuses, status_or, component_status, readiness_from_agent, no_readiness,
  readiness_candidates, sdk_readiness,
}

-- the agents that Harness has, by the identifier in the path of a call
abbrev pub Directory : Type 0
Directory = String → Option V1Agent

-- A delete call answers for an agent of the directory, and with 404 for none.
unfoldable pub deletion_of : Option V1Agent → Option (Unit {0})
deletion_of none = none
deletion_of (some agent) = some tt

pub record Serves (c : AgentClient) (session : Session) (directory : Directory) : Type 0 where
  pub gets :
      (calls : Calls) (args : GetArguments)
      → Answers (directory args.identifier) (c.get calls session args)
  pub deletes :
      (calls : Calls) (args : DeleteArguments)
      → Answers (deletion_of (directory args.identifier)) (c.delete calls session args)

-- what the three operations answer for what the directory has
unfoldable pub lookup_of : Option V1Agent → AgentLookupResult
lookup_of none = not_found
lookup_of (some agent) = record { exists = true; agent = agent_from_sdk agent }

unfoldable pub readiness_of : HealthStatuses → Option V1Agent → AgentReadiness
readiness_of h none = no_readiness
readiness_of h (some agent) = readiness_from_agent h agent

unfoldable pub delete_of : Agent → Option V1Agent → Result Error (Unit {0})
delete_of agent none = err (agent_not_found_error agent)
delete_of agent (some found) = ok tt

-- the calls of the loops for one candidate
abbrev pub lookup_call : Agent → String → SdkCall
lookup_call agent candidate =
    sent_get (get_arguments (trim_space agent.account_identifier) false agent candidate)

abbrev pub readiness_call : Agent → String → SdkCall
readiness_call agent candidate =
    sent_get (get_arguments agent.account_identifier false agent candidate)

abbrev pub delete_call : Agent → String → SdkCall
delete_call agent candidate = sent_delete (delete_arguments agent candidate)

module _ (c : AgentClient) (session : Session) (directory : Directory)
    (serves : Serves c session directory) (agent : Agent) where
  lookup-first_of :
      (candidates : List String) (calls : Calls)
      → lookup_candidates c session agent candidates calls ≡ (
        ok (lookup_of (first_of directory candidates)),
        sent_for (lookup_call agent) (tried_of directory candidates) calls,
      )
  unfolding lookup_candidates lookup_of first_of get_arguments tried_of sent_for
  lookup-first_of [] calls = refl
  lookup-first_of (candidate ∷ rest) calls =
      let args = get_arguments (trim_space agent.account_identifier) false agent candidate in
      elim (Answers-cases (directory candidate) (c.get calls session args)
        (serves.gets calls args)) [
          | inl (found, has, answered) ↦ ground arith
          | inr (e, has, answered, absent) ↦
              ground (arith, lookup-first_of rest (sent_get args ∷ calls))
        ]

  delete-first_of :
      (candidates : List String) (calls : Calls)
      → delete_candidates c session agent candidates calls ≡ (
        delete_of agent (first_of directory candidates),
        sent_for (delete_call agent) (tried_of directory candidates) calls,
      )
  unfolding delete_candidates delete_of first_of deletion_of delete_arguments tried_of sent_for
  delete-first_of [] calls = refl
  delete-first_of (candidate ∷ rest) calls =
      let args = delete_arguments agent candidate in
      elim (Answers-cases (deletion_of (directory candidate)) (c.delete calls session args)
        (serves.deletes calls args)) [
          | inl (found, has, answered) ↦ ground arith
          | inr (e, has, answered, absent) ↦
              ground (arith, delete-first_of rest (sent_delete args ∷ calls))
        ]

  pub lookup-eq-lookup_of :
      (calls : Calls)
      → (trim_space agent.identifier == "") ≡ false
      → (sdk_lookup c session agent calls).0
        ≡ ok (
            lookup_of
              (first_of directory (scoped_identifier_candidates agent.scope agent.identifier)))
  unfolding sdk_lookup
  lookup-eq-lookup_of calls has_id =
      let (candidate, rest, nonempty) = candidates-nonempty agent.scope agent.identifier has_id in
      rw nonempty (ap (λ answer. answer.0) (lookup-first_of (candidate ∷ rest) calls))

module _ (h : HealthStatuses) (c : AgentClient) (session : Session) (directory : Directory)
    (serves : Serves c session directory) (agent : Agent) where
  readiness-first_of :
      (candidates : List String) (calls : Calls)
      → readiness_candidates h c session agent candidates calls ≡ (
        ok (readiness_of h (first_of directory candidates)),
        sent_for (readiness_call agent) (tried_of directory candidates) calls,
      )
  unfolding readiness_candidates readiness_of first_of get_arguments tried_of sent_for
  readiness-first_of [] calls = refl
  readiness-first_of (candidate ∷ rest) calls =
      let args = get_arguments agent.account_identifier false agent candidate in
      elim (Answers-cases (directory candidate) (c.get calls session args)
        (serves.gets calls args)) [
          | inl (found, has, answered) ↦ ground arith
          | inr (e, has, answered, absent) ↦
              ground (arith, readiness-first_of rest (sent_get args ∷ calls))
        ]

  -- Against a Harness that answers from a directory, 404 for what it does not have, the lookup, the
  -- readiness and the deletion of an agent with an identifier call Harness for the candidates of the
  -- identifier in their order up to the first that the directory has, each once, and for no other, and
  -- answer for that first one: a lookup and a readiness of none say that it does not exist, and a
  -- deletion of none is the error for an agent that was not found.
  pub sdk-refines-directory :
      (calls : Calls)
      → (trim_space agent.identifier == "") ≡ false
      → (let candidates = scoped_identifier_candidates agent.scope agent.identifier in
          let found = first_of directory candidates in
          let tried = tried_of directory candidates in
          (sdk_lookup c session agent calls
            ≡ (ok (lookup_of found), sent_for (lookup_call agent) tried calls))
          × (sdk_readiness h c session agent calls
              ≡ (ok (readiness_of h found), sent_for (readiness_call agent) tried calls))
          × (sdk_delete c session agent calls
              ≡ (delete_of agent found, sent_for (delete_call agent) tried calls)))
  unfolding sdk_lookup sdk_readiness sdk_delete
  sdk-refines-directory calls has_id =
      let (candidate, rest, nonempty) = candidates-nonempty agent.scope agent.identifier has_id in
      rw nonempty (
        lookup-first_of c session directory serves agent (candidate ∷ rest) calls,
        readiness-first_of (candidate ∷ rest) calls,
        delete-first_of c session directory serves agent (candidate ∷ rest) calls,
      )

-- an agent that is connected and healthy
unfoldable pub is_well : HealthStatuses → V1Agent → Bool
is_well h agent = elim (agent.health) [
  | none ↦ false
  | some health ↦
      status_or health.connection_status h.connected_status_unset == h.connected
      && component_status h health.harness_gitops_agent == h.healthy
]

-- the status that the Healthy condition should have
unfoldable pub status_of : HealthStatuses → Option V1Agent → ConditionStatus
unfolding is_well
status_of h none = condition_false
status_of h (some agent) = if is_well h agent then condition_true else condition_false

report-status_of :
    (h : HealthStatuses) (identifier : String) (found : Option V1Agent)
    → (trim_space identifier == "") ≡ false
    → (health_report identifier (ok (readiness_of h found))).status ≡ status_of h found
unfolding health_report readiness_of status_of readiness_from_agent
report-status_of h identifier none has_id = ground arith
report-status_of h identifier (some agent) has_id = ground arith

-- Against a Harness that answers from a directory, the Healthy condition of an agent with an
-- identifier is true exactly if the first candidate that the directory has is connected and healthy,
-- and false otherwise.
pub reported_health-eq-status_of :
    (h : HealthStatuses) (c : AgentClient) (session : Session) (directory : Directory)
    → Serves c session directory
    → (agent : Agent) (identifier : String) (calls : Calls)
    → (trim_space agent.identifier == "") ≡ false
    → (trim_space identifier == "") ≡ false
    → (health_report identifier (sdk_readiness h c session agent calls).0).status
      ≡ status_of h (first_of directory (scoped_identifier_candidates agent.scope agent.identifier))
reported_health-eq-status_of h c session directory serves agent identifier calls has_agent has_id =
    rw
      (ap (λ answer. answer.0)
        (sdk-refines-directory h c session directory serves agent calls has_agent).1)
      (report-status_of h identifier _ has_id)

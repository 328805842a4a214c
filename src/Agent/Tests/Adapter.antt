-- ===== src/Agent/Tests/Adapter.antt =====
-- The Harness adapters at concrete answers.
use harness_gitops_agent_ope.Common.{◌≡◌, ◌⊎◌, refl, true, Option, none, some, [], ◌∷◌, ok, err}
use harness_gitops_agent_ope.Text.{◌==◌, trim_space}
use harness_gitops_agent_ope.Harness.Replies.{Reply}
use harness_gitops_agent_ope.Harness.Answers.{Answers, first_of, tried_of, sent_for}
use harness_gitops_agent_ope.Harness.Identifiers.{scoped_identifier_candidates}
use harness_gitops_agent_ope.Agent.Types.{Agent, CreateAgentRequest}
use harness_gitops_agent_ope.Agent.Identity.{harness_agent_for}
use harness_gitops_agent_ope.Agent.Health.{health_report}
use harness_gitops_agent_ope.Agent.Registration.Remembered.{IsRemembered}
use harness_gitops_agent_ope.Agent.Client.{AgentClient}
use harness_gitops_agent_ope.Agent.Sdk.Credentials.{sdk_resolve_token}
use harness_gitops_agent_ope.Agent.Sdk.{sdk_create, sdk_lookup, sdk_delete}
use harness_gitops_agent_ope.Agent.Sdk.Readiness.{sdk_readiness}
use harness_gitops_agent_ope.Agent.Sdk.Creation.{lost_connection-IsRemembered}
use harness_gitops_agent_ope.Agent.Sdk.Directory.{
  Serves, lookup_call, readiness_call, delete_call, deletion_of, lookup_of, readiness_of, delete_of,
  status_of, sdk-refines-directory, reported_health-eq-status_of,
}
use harness_gitops_agent_ope.Agent.Sdk.Token.{IsCareful, resolve_token-IsCareful}
use harness_gitops_agent_ope.Agent.Environment.{Reconciler, State, got_agent}
use harness_gitops_agent_ope.Agent.Calls.{posts, persisted_state}
use harness_gitops_agent_ope.Api.{settled}
use harness_gitops_agent_ope.Agent.Identity.{agent_creation_is_uncertain}
use harness_gitops_agent_ope.Text.{equal_fold, after_dot}
use harness_gitops_agent_ope.Harness.Identifiers.{
  org_identifier_for_scope, project_identifier_for_scope,
}
use harness_gitops_agent_ope.Agent.Registration.{
  registered, create_agent_request, reconcile_agent_registration,
}
use harness_gitops_agent_ope.Agent.Registration.Recovery.{recovered}
use harness_gitops_agent_ope.Agent.Sdk.{create_body, clone_tags}
use harness_gitops_agent_ope.Agent.Sdk.RoundTrip.{Echoes}
use harness_gitops_agent_ope.Agent.Sdk.Recovery.{LooksUpBySdk, kept_agent-is_recovered}
use harness_gitops_agent_ope.Agent.Tests.{
  fresh, uncertain, key, session, lost, harness_agent, statuses, registry, reconciler, answers,
  absent_agent, at_start,
}

abbrev replied : {A : Type 0} → Option A → Reply A
replied none = record { http_response = some 404; answer = err lost }
replied (some value) = record { http_response = some 200; answer = ok value }

-- a Harness that answers from `registry`, and renews credentials
abbrev client : AgentClient
client = record {
  create = λ calls s body. record { http_response = none; answer = err lost };
  get = λ calls s args. replied (registry args.identifier);
  delete = λ calls s args. replied (deletion_of (registry args.identifier));
  regenerate = λ calls s id. record {
    http_response = some 200;
    answer = ok (record harness_agent { credentials = some "t" });
  };
}

replied-Answers : {A : Type 0} (o : Option A) → Answers o (replied o)
replied-Answers none = (lost, refl, refl)
replied-Answers (some value) = refl

client-Serves : Serves client session registry
client-Serves = record {
  gets = λ calls args. replied-Answers (registry args.identifier);
  deletes = λ calls args. replied-Answers (deletion_of (registry args.identifier));
}

abbrev expected : Agent
expected = harness_agent_for fresh "a"

sdk-refines-directory_example :
    (let candidates = scoped_identifier_candidates expected.scope expected.identifier in
      let found = first_of registry candidates in
      let tried = tried_of registry candidates in
      (sdk_lookup client session expected []
        ≡ (ok (lookup_of found), sent_for (lookup_call expected) tried []))
      × (sdk_readiness statuses client session expected []
          ≡ (ok (readiness_of statuses found), sent_for (readiness_call expected) tried []))
      × (sdk_delete client session expected []
          ≡ (delete_of expected found, sent_for (delete_call expected) tried [])))
unfolding harness_agent_for trim_space
sdk-refines-directory_example =
    sdk-refines-directory statuses client session registry client-Serves expected [] refl

reported_health-eq-status_of_example :
    (health_report "a" (sdk_readiness statuses client session expected []).0).status
    ≡ status_of statuses
        (first_of registry (scoped_identifier_candidates expected.scope expected.identifier))
unfolding harness_agent_for trim_space
reported_health-eq-status_of_example =
    reported_health-eq-status_of statuses client session registry client-Serves expected "a" [] refl
      refl

abbrev request : CreateAgentRequest
request = record { agent = expected; namespace = "ns" }

-- a resource that was just read, with create calls that go to `client`
abbrev creates_by_sdk : Reconciler
creates_by_sdk = record (reconciler fresh absent_agent []) {
  env = record (answers fresh absent_agent []) { create = λ t s q. (sdk_create client s q []).0 };
}

abbrev just_read : State
just_read = record (at_start fresh) { trace = got_agent key (ok fresh) ∷ [] }

lost_connection-IsRemembered_example :
    IsRemembered creates_by_sdk just_read
      (reconcile_agent_registration creates_by_sdk session "ns" just_read).1
unfolding persisted_state sdk_create
lost_connection-IsRemembered_example =
    lost_connection-IsRemembered creates_by_sdk client session
      (record { calls_of = λ t. []; creates = λ t q. refl }) (λ calls body. (lost, refl, refl)) "ns"
      just_read refl

resolve_token-IsCareful_example :
    (let after = sdk_resolve_token client session expected "" [] in
      IsCareful client session [] after × ((("" == "") ≡ true) ⊎ (after ≡ (ok "", []))))
resolve_token-IsCareful_example = resolve_token-IsCareful client session expected "" []

-- a resource whose create intent is persisted, with lookups that go to `client`
abbrev by_sdk : Reconciler
by_sdk = record (reconciler uncertain absent_agent []) {
  env = record (answers uncertain absent_agent []) {
    lookup = λ t s agent. (sdk_lookup client s agent []).0;
  };
}

by_sdk-LooksUpBySdk : LooksUpBySdk by_sdk client session
by_sdk-LooksUpBySdk = record { calls_of = λ t. []; looks_up = λ t agent. refl }

harness_agent-Echoes :
    Echoes (create_body (create_agent_request "ns" (at_start uncertain))) harness_agent
unfolding create_body create_agent_request harness_agent_for org_identifier_for_scope
    project_identifier_for_scope trim_space equal_fold clone_tags
harness_agent-Echoes = record {
  identifier = refl;
  name = refl;
  account_identifier = refl;
  org_identifier = refl;
  project_identifier = refl;
  scope = refl;
  type = refl;
  operator = refl;
  tags = refl;
}

kept_agent-is_recovered_example :
    (let after = reconcile_agent_registration by_sdk session "ns" (at_start uncertain) in
      (after.0 ≡ registered (trim_space "a") "")
      × (posts after.1.trace ≡ posts [])
      × (after.1.agent ≡ (recovered by_sdk session (at_start uncertain)).agent)
      × (persisted_state after.1.trace ≡ some settled))
unfolding agent_creation_is_uncertain trim_space first_of scoped_identifier_candidates
    harness_agent_for equal_fold after_dot
kept_agent-is_recovered_example =
    kept_agent-is_recovered by_sdk client session registry by_sdk-LooksUpBySdk client-Serves "ns"
      (at_start uncertain) harness_agent refl refl refl refl harness_agent-Echoes refl

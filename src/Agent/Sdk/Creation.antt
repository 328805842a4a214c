-- ===== src/Agent/Sdk/Creation.antt =====
-- What the answers to create calls say, and what a registration makes of a lost one.
use harness_gitops_agent_ope.Common.{
  String, Bool, true, false, ◌≡◌, ◌≢◌, ◌∙◌, none, some, ok, err, arith, inl, inr, not, Result-cases,
}
use harness_gitops_agent_ope.Harness.Errors.{Error, errors_is, classify_response}
use harness_gitops_agent_ope.Harness.Replies.{Reply, is_transient}
use harness_gitops_agent_ope.Harness.Session.{Session}
use harness_gitops_agent_ope.Agent.Types.{CreateAgentRequest, CreateAgentResult}
use harness_gitops_agent_ope.Agent.Environment.{Reconciler, State, Trace}
use harness_gitops_agent_ope.Agent.Calls.Bounds.{IsSynced}
use harness_gitops_agent_ope.Agent.Registration.{reconcile_agent_registration}
use harness_gitops_agent_ope.Agent.Registration.Remembered.{
  is_ambiguous, AnswersAmbiguously, IsRemembered, ambiguous_create-IsRemembered,
}
use harness_gitops_agent_ope.Agent.Client.{V1Agent, AgentClient, Calls, CreateBody}
use harness_gitops_agent_ope.Agent.Sdk.{
  is_agent_already_exists, create_body, created_from_reply, sdk_create,
}

-- A create call was refused for certain: it has an error, with a response whose verdict is neither a
-- conflict nor transient, and no body that says that the agent exists.
unfoldable pub is_refusal : Reply V1Agent → Bool
is_refusal reply = elim (reply.answer) [
  | ok response ↦ false
  | err e ↦ elim (is_agent_already_exists reply.http_response e) [
    | true ↦ false
    | false ↦ not (is_transient (classify_response reply.http_response (some e)))
  ]
]

-- A create call of the adapter that fails and was not refused for certain fails with one of the two
-- errors that keep the creation state uncertain.
pub create_failure-is_ambiguous :
    (request : CreateAgentRequest) (reply : Reply V1Agent) (e : Error)
    → created_from_reply request reply ≡ err e
    → is_refusal reply ≡ false
    → is_ambiguous e ≡ true
unfolding created_from_reply is_refusal is_ambiguous errors_is
create_failure-is_ambiguous request reply e failed unclear = ground arith

-- no response came, as after a connection that broke
abbrev pub LosesCreates : AgentClient → Session → Type 0
LosesCreates c session =
    (calls : Calls) (body : CreateBody)
    → (e : Error) × ((c.create calls session body).answer ≡ err e)
      × ((c.create calls session body).http_response ≡ none)

lost-is_no_refusal :
    (reply : Reply V1Agent) (e : Error)
    → reply.answer ≡ err e
    → reply.http_response ≡ none
    → is_refusal reply ≡ false
unfolding is_refusal classify_response is_transient
lost-is_no_refusal reply e failed lost = ground arith

lost-is_no_success :
    (request : CreateAgentRequest) (reply : Reply V1Agent) (e : Error) (result : CreateAgentResult)
    → reply.answer ≡ err e
    → reply.http_response ≡ none
    → created_from_reply request reply ≢ ok result
unfolding created_from_reply classify_response is_transient
lost-is_no_success request reply e result failed lost made = ground arith

lost-is_ambiguous :
    (request : CreateAgentRequest) (reply : Reply V1Agent) (e : Error)
    → reply.answer ≡ err e
    → reply.http_response ≡ none
    → (e' : Error) × (created_from_reply request reply ≡ err e') × (is_ambiguous e' ≡ true)
lost-is_ambiguous request reply e failed lost =
    elim (Result-cases (created_from_reply request reply)) [
      | inl (e', answer) ↦ (
        e',
        answer,
        create_failure-is_ambiguous request reply e' answer
            (lost-is_no_refusal reply e failed lost),
      )
      | inr (result, made) ↦ absurd (lost-is_no_success request reply e result failed lost made)
    ]

-- The create calls of a reconciler are the adapter's, in a session.
pub record UsesSdk (r : Reconciler) (c : AgentClient) (session : Session) : Type 0 where
  pub calls_of : Trace → Calls
  pub creates :
      (t : Trace) (request : CreateAgentRequest)
      → r.env.create t session request ≡ (sdk_create c session request (calls_of t)).0

lost-AnswersAmbiguously :
    (r : Reconciler) (c : AgentClient) (session : Session)
    → UsesSdk r c session
    → LosesCreates c session
    → AnswersAmbiguously r session
unfolding sdk_create
lost-AnswersAmbiguously r c session uses loses t request =
    let (e, failed, lost) = loses (uses.calls_of t) (create_body request) in
    let (e', answer, ambiguous) = lost-is_ambiguous request _ e failed lost in
    (e', uses.creates t request ∙ answer, ambiguous)

-- If the create calls of a registration go through the adapter and get no response, then either none
-- was made, or the API is known to hold an uncertain creation state at its end.
pub lost_connection-IsRemembered :
    (r : Reconciler) (c : AgentClient) (session : Session)
    → UsesSdk r c session
    → LosesCreates c session
    → (namespace : String) (s : State) → IsSynced s
    → IsRemembered r s (reconcile_agent_registration r session namespace s).1
lost_connection-IsRemembered r c session uses loses namespace s synced =
    ambiguous_create-IsRemembered r session namespace s
      (lost-AnswersAmbiguously r c session uses loses) synced

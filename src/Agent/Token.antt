-- ===== src/Agent/Token.antt =====
-- The Secret with the agent's token: `tokenSecretExists` and `upsertAgentTokenSecret` of
-- internal/resource/agent/reconciler.go.
use harness_gitops_agent_ope.Common.{
  String, Bool, false, not, Option, none, some, List, [], ◌∷◌, Result, ok, err, if◌then◌else◌,
}
use harness_gitops_agent_ope.Text.{◌==◌, ◌<>◌}
use harness_gitops_agent_ope.Api.{ObjectKey, HarnessGitopsAgent}
use harness_gitops_agent_ope.Harness.Errors.{Error, KubeError}
use harness_gitops_agent_ope.Harness.Session.{Secret, lookup}
use harness_gitops_agent_ope.Agent.Environment.{
  TokenSecret, Reconciler, State, read_secret, wrote_secret, record_event,
}

-- `gitopsAgentTokenSecretKey`
abbrev pub gitops_agent_token_secret_key : String
gitops_agent_token_secret_key = "GITOPS_AGENT_TOKEN"

-- `ManagedByLabelKey` and `ManagedByLabelValue`
abbrev pub managed_by_label_key : String
managed_by_label_key = "app.kubernetes.io/managed-by"

abbrev pub managed_by_label_value : String
managed_by_label_value = "harness-gitops-agent-operator"

-- an assignment to a key of a map
unfoldable pub assign : String → String → List (String × String) → List (String × String)
assign key value [] = (key, value) ∷ []
assign key value ((k, v) ∷ rest) =
    if k == key then (key, value) ∷ rest else (k, v) ∷ assign key value rest

-- the name of the token Secret
unfoldable pub token_secret_name : HarnessGitopsAgent → String
token_secret_name cr =
    if cr.spec.token_secret_ref == ""
    then cr.metadata.name <> "-agent-token"
    else cr.spec.token_secret_ref

-- the test on the answer to the read of the Secret
unfoldable pub holds_token : Result KubeError Secret → Bool
unfolding lookup
holds_token (err e) = false
holds_token (ok secret) = elim (lookup gitops_agent_token_secret_key secret.entries) [
  | none ↦ false
  | some token ↦ not (token == "")
]

-- `tokenSecretExists`
unfoldable pub token_secret_exists : Reconciler → String → State → Bool × State
unfolding holds_token record_event
token_secret_exists r secret_name s =
    let key : ObjectKey = record { namespace = s.agent.metadata.namespace; name = secret_name } in
    (holds_token (r.env.read_secret s.trace key), record_event (read_secret key) s)

-- the function that CreateOrUpdate applies to the Secret
unfoldable pub fill_token_secret :
    Reconciler → HarnessGitopsAgent → String → TokenSecret → Result Error TokenSecret
unfolding assign
fill_token_secret r cr token secret = elim (r.env.set_controller_reference cr secret) [
  | err e ↦ err e
  | ok owned ↦ ok (record owned {
    labels = assign managed_by_label_key managed_by_label_value owned.labels;
    type = "Opaque";
    entries = assign gitops_agent_token_secret_key token owned.entries;
  })
]

-- `upsertAgentTokenSecret`
unfoldable pub upsert_agent_token_secret :
    Reconciler → String → String → State → Option Error × State
unfolding fill_token_secret record_event
upsert_agent_token_secret r secret_name token s =
    let secret : TokenSecret = record {
      namespace = s.agent.metadata.namespace;
      name = secret_name;
      owner_references = [];
      labels = [];
      type = "";
      entries = [];
    } in
    (
      r.env.create_or_update s.trace secret (fill_token_secret r s.agent token),
      record_event (wrote_secret secret token) s,
    )

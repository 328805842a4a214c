-- ===== src/Agent/Sdk/Token.antt =====
-- The token of an agent: what `ResolveToken` returns, and when it renews credentials.
use harness_gitops_agent_ope.Common.{
  ℕ, suc, String, Bool, true, false, not, ◌&&◌, ◌≡◌, ◌≤◌, ◌⊎◌, refl, List, [], ◌∷◌, Result, ok, err,
  if◌then◌else◌, arith, inl, inr, Bool-cases, Result-cases,
}
use harness_gitops_agent_ope.Text.{◌==◌, eq_refl}
use harness_gitops_agent_ope.Harness.Errors.{Error, api_error}
use harness_gitops_agent_ope.Harness.Replies.{returned, with_candidates}
use harness_gitops_agent_ope.Harness.Identifiers.{scoped_identifier_candidates}
use harness_gitops_agent_ope.Harness.Session.{Session}
use harness_gitops_agent_ope.Agent.Types.{Agent}
use harness_gitops_agent_ope.Agent.Client.{V1Agent, AgentClient, Calls, sent_get, sent_regenerate}
use harness_gitops_agent_ope.Agent.Sdk.Credentials.{
  regenerate_token, token_of_found, token_candidates, sdk_resolve_token,
}
use harness_gitops_agent_ope.Agent.Sdk.{get_arguments, private_key}

-- the renewals of credentials
unfoldable pub renewals : Calls → ℕ
renewals [] = 0
renewals (sent_regenerate id ∷ calls) = suc (renewals calls)
renewals (_ ∷ calls) = renewals calls

-- an answer with an agent that has no private key
unfoldable pub has_no_key : Result Error V1Agent → Bool
unfolding private_key
has_no_key (err e) = false
has_no_key (ok agent) = private_key agent.credentials == ""

-- The last call was a get of this identifier, with credentials, and found an agent with no private key.
unfoldable pub is_forced : AgentClient → Session → String → Calls → Bool
unfolding has_no_key
is_forced c session id (sent_get args ∷ calls) =
    args.identifier == id && args.with_credentials && has_no_key (c.get calls session args).answer
is_forced c session id _ = false

-- the renewals that no such get forced
unfoldable pub needless_renewals : AgentClient → Session → Calls → ℕ
unfolding is_forced
needless_renewals c session [] = 0
needless_renewals c session (sent_regenerate id ∷ calls) =
    if is_forced c session id calls
    then needless_renewals c session calls
    else suc (needless_renewals c session calls)
needless_renewals c session (_ ∷ calls) = needless_renewals c session calls

-- no token that is returned is empty
unfoldable pub is_proper : Result Error String → Bool
is_proper (err e) = true
is_proper (ok token) = not (token == "")

-- What holds behind a call of `ResolveToken`, or of a part of it.
abbrev pub IsCareful : AgentClient → Session → Calls → Result Error String × Calls → Type 0
IsCareful c session calls after =
    (is_proper after.0 ≡ true)
    × (renewals after.1 ≤ suc (renewals calls))
    × (needless_renewals c session after.1 ≡ needless_renewals c session calls)

module _ (c : AgentClient) (session : Session) (agent : Agent) where
  regenerate-IsCareful :
      (id : String) (calls : Calls)
      → is_forced c session id calls ≡ true
      → IsCareful c session calls (regenerate_token c session agent id calls)
  unfolding regenerate_token is_proper renewals needless_renewals returned api_error
  regenerate-IsCareful id calls forced = ground (arith)

  found-IsCareful :
      (candidate : String) (calls : Calls) (observed : V1Agent)
      → (c.get calls session (get_arguments agent.account_identifier true agent candidate)).answer
        ≡ ok observed
      → IsCareful c session calls (
          token_of_found c session agent observed candidate
            (sent_get (get_arguments agent.account_identifier true agent candidate) ∷ calls))
  unfolding token_of_found is_proper renewals needless_renewals is_forced get_arguments
  found-IsCareful candidate calls observed found = ground (
    arith,
    eq_refl candidate,
    regenerate-IsCareful candidate
        (sent_get (get_arguments agent.account_identifier true agent candidate) ∷ calls),
  )

  candidates-IsCareful :
      (candidates : List String) (calls : Calls)
      → IsCareful c session calls (token_candidates c session agent candidates calls)
  unfolding token_candidates is_proper renewals needless_renewals returned api_error
  candidates-IsCareful [] calls = (refl, ground arith, refl)
  candidates-IsCareful (candidate ∷ rest) calls =
      let args = get_arguments agent.account_identifier true agent candidate in
      elim (Result-cases (c.get calls session args).answer) [
        | inl (e, failed) ↦ ground (arith, candidates-IsCareful rest (sent_get args ∷ calls))
        | inr (observed, found) ↦ ground (arith, found-IsCareful candidate calls observed)
      ]

  guarded-IsCareful :
      (complaint : String) (candidates : List String) (calls : Calls)
      → IsCareful c session calls
          (with_candidates complaint candidates (token_candidates c session agent) calls)
  unfolding with_candidates is_proper
  guarded-IsCareful complaint [] calls = (refl, ground arith, refl)
  guarded-IsCareful complaint (candidate ∷ rest) calls =
      candidates-IsCareful (candidate ∷ rest) calls

  -- A call of `ResolveToken` returns no empty token, renews the credentials at most once and only
  -- right after a get of the same identifier, with credentials, that found an agent with no private
  -- key, and makes no call if it is given an initial token.
  pub resolve_token-IsCareful :
      (initial_token : String) (calls : Calls)
      → (let after = sdk_resolve_token c session agent initial_token calls in
          IsCareful c session calls after
          × (((initial_token == "") ≡ true) ⊎ (after ≡ (ok initial_token, calls))))
  unfolding sdk_resolve_token
  resolve_token-IsCareful initial_token calls = elim (Bool-cases (initial_token == "")) [
    | inl blank ↦ rw blank (
      guarded-IsCareful "get GitOps agent credentials: empty agent identifier"
          (scoped_identifier_candidates agent.scope agent.identifier) calls,
      inl refl,
    )
    | inr given ↦ rw given ((unfold is_proper in rw given refl, ground arith, refl), inr refl)
  ]

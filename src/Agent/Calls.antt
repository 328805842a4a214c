-- ===== src/Agent/Calls.antt =====
-- What a trace of the Agent controller says about its calls to Harness.
pub mod Quiet
pub mod Bounds
use harness_gitops_agent_ope.Common.{
  ℕ, suc, Bool, true, false, ◌&&◌, not, ◌≡◌, Option, none, some, [], ◌∷◌, ok, err, ite,
  String_discrete, if◌then◌else◌, arith,
}
use harness_gitops_agent_ope.Text.{◌==◌, trim_space}
use harness_gitops_agent_ope.Api.{CreationState}
use harness_gitops_agent_ope.Agent.Types.{Agent, CreateAgentRequest}
use harness_gitops_agent_ope.Agent.Identity.{uid_tag, agent_creation_is_uncertain}
use harness_gitops_agent_ope.Agent.Environment.{
  Event, Trace, got_agent, read_secret, listed_mappings, status_updated, looked_up, read_readiness,
  created, deleted, resolved_token, wrote_secret, updated,
}

-- the create calls
unfoldable pub posts : Trace → ℕ
posts [] = 0
posts (created request ∷ t) = suc (posts t)
posts (_ ∷ t) = posts t

-- the delete calls
unfoldable pub deletes : Trace → ℕ
deletes [] = 0
deletes (deleted target ∷ t) = suc (deletes t)
deletes (_ ∷ t) = deletes t

-- the calls that read, write or renew the token of an agent
unfoldable pub tokens : Trace → ℕ
tokens [] = 0
tokens (resolved_token expected token ∷ t) = suc (tokens t)
tokens (wrote_secret secret token ∷ t) = suc (tokens t)
tokens (_ ∷ t) = tokens t

-- the calls that ask Harness for the token of an agent
unfoldable pub resolutions : Trace → ℕ
resolutions [] = 0
resolutions (resolved_token expected token ∷ t) = suc (resolutions t)
resolutions (_ ∷ t) = resolutions t

-- the writes of the object, which set its finalizers
unfoldable pub writes : Trace → ℕ
writes [] = 0
writes (updated agent done ∷ t) = suc (writes t)
writes (_ ∷ t) = writes t

-- the creation state that the API is known to hold: that of the last read or accepted status write
unfoldable pub persisted_state : Trace → Option CreationState
persisted_state [] = none
persisted_state (got_agent key (ok agent) ∷ t) = some agent.status.creation_state
persisted_state (status_updated agent true ∷ t) = some agent.status.creation_state
persisted_state (_ ∷ t) = persisted_state t

unfoldable pub is_persisted_uncertain : Option CreationState → Bool
unfolding agent_creation_is_uncertain
is_persisted_uncertain none = false
is_persisted_uncertain (some state) = agent_creation_is_uncertain state

unfoldable pub Agent-discrete : Discrete Agent
Agent-discrete = hlevel String_discrete

-- The request is for the agent that was looked up, and has a UID tag that is not blank.
unfoldable pub is_tagged : Agent → CreateAgentRequest → Bool
unfolding uid_tag
is_tagged expected request =
    ite (Agent-discrete request.agent (record expected { tags = request.agent.tags })) true false
    && not (trim_space (uid_tag request.agent) == "")

-- The last call was a lookup of the same agent that found none, at a time at which the API is known to
-- hold an uncertain creation state.
unfoldable pub is_guarded : CreateAgentRequest → Trace → Bool
unfolding is_tagged is_persisted_uncertain
is_guarded request (looked_up expected (ok result) ∷ t) =
    not result.exists && is_tagged expected request && is_persisted_uncertain (persisted_state t)
is_guarded request _ = false

-- the create calls with no such guard
unfoldable pub unguarded : Trace → ℕ
unfolding is_guarded
unguarded [] = 0
unguarded (created request ∷ t) = if is_guarded request t then unguarded t else suc (unguarded t)
unguarded (_ ∷ t) = unguarded t

-- an event that changes neither Harness nor an object but the status of the Agent
abbrev pub is_quiet : Event → Bool
is_quiet (got_agent key answer) = true
is_quiet (read_secret key) = true
is_quiet (listed_mappings namespace) = true
is_quiet (status_updated agent done) = true
is_quiet (looked_up expected answer) = true
is_quiet (read_readiness expected) = true
is_quiet _ = false

-- an event that is neither a create nor a delete call to Harness
abbrev pub is_no_call : Event → Bool
is_no_call (created request) = false
is_no_call (deleted target) = false
is_no_call _ = true

-- a measure that quiet events keep
pub record Measure : Type 0 where
  pub of : Trace → ℕ
  pub quiet : (e : Event) (t : Trace) → is_quiet e ≡ true → of (e ∷ t) ≡ of t

-- a measure that only create and delete calls change
pub record CallMeasure : Type 0 where
  pub of : Trace → ℕ
  pub steady : (e : Event) (t : Trace) → is_no_call e ≡ true → of (e ∷ t) ≡ of t

pub quiet-no_call : (e : Event) → is_quiet e ≡ true → is_no_call e ≡ true
quiet-no_call e h = ground arith

abbrev pub weaken : CallMeasure → Measure
weaken μ = record { of = μ.of; quiet = λ e t h. μ.steady e t (quiet-no_call e h) }

pub posts-steady : (e : Event) (t : Trace) → is_no_call e ≡ true → posts (e ∷ t) ≡ posts t
unfolding posts
posts-steady e t h = ground arith

pub deletes-steady : (e : Event) (t : Trace) → is_no_call e ≡ true → deletes (e ∷ t) ≡ deletes t
unfolding deletes
deletes-steady e t h = ground arith

pub unguarded-steady :
    (e : Event) (t : Trace) → is_no_call e ≡ true → unguarded (e ∷ t) ≡ unguarded t
unfolding unguarded
unguarded-steady e t h = ground arith

abbrev pub posts_measure : CallMeasure
posts_measure = record { of = posts; steady = posts-steady }

abbrev pub deletes_measure : CallMeasure
deletes_measure = record { of = deletes; steady = deletes-steady }

abbrev pub unguarded_measure : CallMeasure
unguarded_measure = record { of = unguarded; steady = unguarded-steady }

pub tokens-quiet : (e : Event) (t : Trace) → is_quiet e ≡ true → tokens (e ∷ t) ≡ tokens t
unfolding tokens
tokens-quiet e t h = ground arith

pub writes-quiet : (e : Event) (t : Trace) → is_quiet e ≡ true → writes (e ∷ t) ≡ writes t
unfolding writes
writes-quiet e t h = ground arith

pub resolutions-quiet :
    (e : Event) (t : Trace) → is_quiet e ≡ true → resolutions (e ∷ t) ≡ resolutions t
unfolding resolutions
resolutions-quiet e t h = ground arith

abbrev pub resolutions_measure : Measure
resolutions_measure = record { of = resolutions; quiet = resolutions-quiet }

abbrev pub tokens_measure : Measure
tokens_measure = record { of = tokens; quiet = tokens-quiet }

abbrev pub writes_measure : Measure
writes_measure = record { of = writes; quiet = writes-quiet }

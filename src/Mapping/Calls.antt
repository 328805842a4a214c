-- ===== src/Mapping/Calls.antt =====
-- What a trace says about the calls to Harness.
use harness_gitops_agent_ope.Common.{
  ℕ, suc, Bool, true, false, ◌&&◌, ◌≡◌, Option, some, [], ◌∷◌, ite, String_discrete, if◌then◌else◌,
  arith,
}
use harness_gitops_agent_ope.Api.{
  HarnessGitopsProjectMappingStatus, HarnessGitopsProjectMappingRemoteStatus,
}
use harness_gitops_agent_ope.Mapping.Types.{ProjectMappingRequest}
use harness_gitops_agent_ope.Mapping.Remote.{remote_status_for_request}
use harness_gitops_agent_ope.Mapping.CleanupIdentity.{is_pending}
use harness_gitops_agent_ope.Mapping.Environment.{Event, created, deleted, status_updated, Trace}
use harness_gitops_agent_ope.Mapping.Quiet.{Measure, is_quiet}

-- the create calls
unfoldable pub posts : Trace → ℕ
posts [] = 0
posts (created request ∷ t) = suc (posts t)
posts (_ ∷ t) = posts t

-- the delete calls
unfoldable pub deletes : Trace → ℕ
deletes [] = 0
deletes (deleted request id ∷ t) = suc (deletes t)
deletes (_ ∷ t) = deletes t

unfoldable pub Remote-discrete : Discrete (Option HarnessGitopsProjectMappingRemoteStatus)
Remote-discrete = hlevel String_discrete

-- A status holds the intent to create: Pending, and the whole tuple of the request.
unfoldable pub holds_intent : ProjectMappingRequest → HarnessGitopsProjectMappingStatus → Bool
unfolding is_pending
holds_intent request status =
    is_pending status.creation_state
    && ite (Remote-discrete status.remote (some (remote_status_for_request request))) true false

-- The last call was a status write of the intent, and the API accepted it.
unfoldable pub intent_persisted : ProjectMappingRequest → Trace → Bool
unfolding holds_intent
intent_persisted request (status_updated mapping true ∷ t) = holds_intent request mapping.status
intent_persisted request _ = false

-- the create calls with no persisted intent right before them
unfoldable pub unrecorded : Trace → ℕ
unfolding intent_persisted
unrecorded [] = 0
unrecorded (created request ∷ t) =
    if intent_persisted request t then unrecorded t else suc (unrecorded t)
unrecorded (_ ∷ t) = unrecorded t

pub posts-quiet : (e : Event) (t : Trace) → is_quiet e ≡ true → posts (e ∷ t) ≡ posts t
unfolding posts
posts-quiet e t h = ground arith

pub deletes-quiet : (e : Event) (t : Trace) → is_quiet e ≡ true → deletes (e ∷ t) ≡ deletes t
unfolding deletes
deletes-quiet e t h = ground arith

pub unrecorded-quiet :
    (e : Event) (t : Trace) → is_quiet e ≡ true → unrecorded (e ∷ t) ≡ unrecorded t
unfolding unrecorded
unrecorded-quiet e t h = ground arith

abbrev pub posts_measure : Measure
posts_measure = record { of = posts; quiet = posts-quiet }

abbrev pub deletes_measure : Measure
deletes_measure = record { of = deletes; quiet = deletes-quiet }

abbrev pub unrecorded_measure : Measure
unrecorded_measure = record { of = unrecorded; quiet = unrecorded-quiet }

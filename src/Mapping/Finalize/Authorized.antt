-- ===== src/Mapping/Finalize/Authorized.antt =====
-- The way from the identity of a cleanup to its list call.
use mathlib.Core.Path.{subst}
use harness_gitops_agent_ope.Common.{
  String, ◌≡◌, ◌⊎◌, inl, inr, refl, true, false, ok, err, arith, Result-cases, Bool-cases,
}
use harness_gitops_agent_ope.Text.{trim_space}
use harness_gitops_agent_ope.Harness.Errors.{Error, KubeError}
use harness_gitops_agent_ope.Harness.Session.{Session}
use harness_gitops_agent_ope.Api.{
  HarnessGitopsProjectMapping, HarnessGitopsProjectMappingRemoteStatus, HarnessGitopsAgent,
  ObjectKey,
}
use harness_gitops_agent_ope.Mapping.Types.{ProjectMappingRequest}
use harness_gitops_agent_ope.Mapping.Environment.{Reconciler, State, read_agent, record_event}
use harness_gitops_agent_ope.Mapping.Quiet.{Measure}
use harness_gitops_agent_ope.Mapping.Ready.{session_for_agent}
use harness_gitops_agent_ope.Mapping.CleanupIdentity.{
  CleanupIdentity, project_mapping_cleanup_request,
}
use harness_gitops_agent_ope.Mapping.Arbitration.Laws.{resolve_claim-mapping}
use harness_gitops_agent_ope.Mapping.Finalize.Laws.{cleanup_rules}
use harness_gitops_agent_ope.Mapping.Cleanup.{Cleanup, authorize_project_mapping_cleanup}
use harness_gitops_agent_ope.Mapping.Finalize.{
  cleanup_with_session, cleanup_with_agent, cleanup_claimed, cleanup_recorded,
}
use harness_gitops_agent_ope.Mapping.Finalize.Authority.{Deletes, session-cases}

module _ (r : Reconciler) where
  module _ (μ : Measure) where
    session_for_agent-mapping :
        (agent : HarnessGitopsAgent) (s : State)
        → (session_for_agent r agent s).1.mapping ≡ s.mapping
    unfolding session_for_agent
    session_for_agent-mapping agent s = refl

    -- a cleanup with a session from some state of the same object
    unfoldable pub ClaimedDeletes :
        CleanupIdentity → ProjectMappingRequest → String → HarnessGitopsProjectMapping → Type 0
    ClaimedDeletes identity request id mapping =
        (session : Session) × (s' : State) × (s'.mapping ≡ mapping)
        × Deletes r
            (record { identity = identity; session = session; request = request; mapping_id = id })
            s'

    module _ (identity : CleanupIdentity) (request : ProjectMappingRequest) (id : String) where
      abbrev with_session : Session → Cleanup
      with_session session = record {
        identity = identity;
        session = session;
        request = request;
        mapping_id = id;
      }

      agent-failed :
          (agent : HarnessGitopsAgent) (s : State) (e : Error)
          → (session_for_agent r agent s).0 ≡ err e
          → μ.of (cleanup_with_agent r identity request id agent s).1.trace ≡ μ.of s.trace
      unfolding cleanup_with_agent
      agent-failed agent s e failed = grind (arith, cleanup_rules)

      agent-opened :
          (agent : HarnessGitopsAgent) (s : State) (session : Session)
          → (session_for_agent r agent s).0 ≡ ok session
          → μ.of
              (cleanup_with_session r
                (with_session session)
                (session_for_agent r agent s).1).1.trace
            ≡ μ.of (session_for_agent r agent s).1.trace
          → μ.of (cleanup_with_agent r identity request id agent s).1.trace ≡ μ.of s.trace
      unfolding cleanup_with_agent
      agent-opened agent s session opened same = grind (arith, cleanup_rules)

      agent-cases :
          (agent : HarnessGitopsAgent) (s : State)
          → (μ.of (cleanup_with_agent r identity request id agent s).1.trace ≡ μ.of s.trace)
            ⊎ ClaimedDeletes identity request id s.mapping
      unfolding ClaimedDeletes
      agent-cases agent s = elim (Result-cases (session_for_agent r agent s).0) [
        | inl (e, failed) ↦ inl (agent-failed agent s e failed)
        | inr (session, opened) ↦
            elim (session-cases r μ (with_session session) (session_for_agent r agent s).1) [
              | inl same ↦ inl (agent-opened agent s session opened same)
              | inr found ↦ inr (
                session,
                (session_for_agent r agent s).1,
                session_for_agent-mapping agent s,
                found,
              )
            ]
      ]

      agent_key : HarnessGitopsProjectMapping → ObjectKey
      agent_key mapping = record {
        namespace = mapping.metadata.namespace;
        name = trim_space mapping.spec.agent_ref_name;
      }

      claimed-failed :
          (s : State) (e : KubeError)
          → r.env.read_agent s.trace (agent_key s.mapping) ≡ err e
          → μ.of (cleanup_claimed r identity request id s).1.trace ≡ μ.of s.trace
      unfolding cleanup_claimed agent_key
      claimed-failed s e failed = grind (arith, cleanup_rules, μ.quiet)

      claimed-read :
          (s : State) (agent : HarnessGitopsAgent)
          → r.env.read_agent s.trace (agent_key s.mapping) ≡ ok agent
          → (let s' = record_event (read_agent (agent_key s.mapping)) s in
              μ.of (cleanup_with_agent r identity request id agent s').1.trace ≡ μ.of s'.trace)
          → μ.of (cleanup_claimed r identity request id s).1.trace ≡ μ.of s.trace
      unfolding cleanup_claimed agent_key
      claimed-read s agent read same = grind (arith, μ.quiet)

      claimed-cases :
          (s : State)
          → (μ.of (cleanup_claimed r identity request id s).1.trace ≡ μ.of s.trace)
            ⊎ ClaimedDeletes identity request id s.mapping
      unfolding record_event
      claimed-cases s = elim (Result-cases (r.env.read_agent s.trace (agent_key s.mapping))) [
        | inl (e, failed) ↦ inl (claimed-failed s e failed)
        | inr (agent, read) ↦
            elim (agent-cases agent (record_event (read_agent (agent_key s.mapping)) s)) [
              | inl same ↦ inl (claimed-read s agent read same)
              | inr found ↦ inr found
            ]
      ]

    won-authorize :
        (request : ProjectMappingRequest) (id : String) (s : State)
        → (authorize_project_mapping_cleanup r request id s).0.won ≡ true
        → (authorize_project_mapping_cleanup r request id s).1.mapping ≡ s.mapping
    unfolding authorize_project_mapping_cleanup
    won-authorize request id s won = grind (arith, resolve_claim-mapping)

    module _ (identity : CleanupIdentity) (remote : HarnessGitopsProjectMappingRemoteStatus) where
      abbrev pub target : HarnessGitopsProjectMappingRemoteStatus
      target = record remote { mapping_id = identity.mapping_id }

      recorded-invalid :
          (s : State) (complaint : String)
          → project_mapping_cleanup_request target ≡ err complaint
          → μ.of (cleanup_recorded r identity remote s).1.trace ≡ μ.of s.trace
      unfolding cleanup_recorded
      recorded-invalid s complaint invalid = grind (arith, cleanup_rules)

      recorded-same :
          (s : State) (request : ProjectMappingRequest) (id : String)
          → project_mapping_cleanup_request target ≡ ok (request, id)
          → ((authorize_project_mapping_cleanup r request id s).0.won ≡ false)
            ⊎ (μ.of
                  (cleanup_claimed r identity request id
                    (authorize_project_mapping_cleanup r request id s).1).1.trace
                ≡ μ.of (authorize_project_mapping_cleanup r request id s).1.trace)
          → μ.of (cleanup_recorded r identity remote s).1.trace ≡ μ.of s.trace
      unfolding cleanup_recorded
      recorded-same s request id valid h = grind (arith, cleanup_rules)

      unfoldable pub RecordedDeletes : HarnessGitopsProjectMapping → Type 0
      RecordedDeletes mapping =
          (request : ProjectMappingRequest) × (id : String) × (project_mapping_cleanup_request
              target
            ≡ ok (request, id))
          × ClaimedDeletes identity request id mapping

      pub recorded-cases :
          (s : State)
          → (μ.of (cleanup_recorded r identity remote s).1.trace ≡ μ.of s.trace)
            ⊎ RecordedDeletes s.mapping
      unfolding RecordedDeletes
      recorded-cases s = elim (Result-cases (project_mapping_cleanup_request target)) [
        | inl (complaint, invalid) ↦ inl (recorded-invalid s complaint invalid)
        | inr ((request, id), valid) ↦
            let authorized = authorize_project_mapping_cleanup r request id s in
            elim (Bool-cases authorized.0.won) [
              | inr lost ↦ inl (recorded-same s request id valid (inl lost))
              | inl won ↦ elim (claimed-cases identity request id authorized.1) [
                | inl same ↦ inl (recorded-same s request id valid (inr same))
                | inr found ↦ inr (
                  request,
                  id,
                  valid,
                  subst (ClaimedDeletes identity request id) (won-authorize request id s won) found,
                )
              ]
            ]
      ]

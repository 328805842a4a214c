-- ===== src/Mapping/Finalize/Deletion.antt =====
-- Which row a cleanup deletes in Harness, from the status of the deleted resource on.
use mathlib.Core.List.{Memᴰ}
use harness_gitops_agent_ope.Common.{
  String, ◌≡◌, ◌≢◌, ◌⊎◌, ◌∙◌, ap, sym, inl, inr, true, false, none, some, List, ok, ◌∷◌, arith,
  Option-cases, Bool-cases, Result-cases,
}
use harness_gitops_agent_ope.Text.{◌==◌, trim_space}
use harness_gitops_agent_ope.Text.Trim.{trim_space_idem}
use harness_gitops_agent_ope.Harness.Session.{Session}
use harness_gitops_agent_ope.Api.{
  HarnessGitopsProjectMapping, HarnessGitopsProjectMappingRemoteStatus,
}
use harness_gitops_agent_ope.Mapping.Types.{ProjectMappingRequest, ProjectMapping}
use harness_gitops_agent_ope.Mapping.Remote.{
  is_deletion_ownership, is_uncertain_creation_state, project_mapping_matches,
}
use harness_gitops_agent_ope.Mapping.Environment.{Reconciler, State, Trace, listed, record_event}
use harness_gitops_agent_ope.Mapping.Quiet.{Measure}
use harness_gitops_agent_ope.Mapping.Calls.{deletes, deletes_measure}
use harness_gitops_agent_ope.Mapping.Selection.Choice.{with_id_sound}
use harness_gitops_agent_ope.Mapping.Claims.{ProjectMappingClaimDecision}
use harness_gitops_agent_ope.Mapping.Arbitration.{resolve_project_mapping_claim}
use harness_gitops_agent_ope.Mapping.CleanupIdentity.{
  CleanupIdentity, resolve_mapping_cleanup_identity, stored_request,
}
use harness_gitops_agent_ope.Mapping.CleanupIdentity.Laws.{cleanup_request-ok}
use harness_gitops_agent_ope.Mapping.Finalize.Laws.{cleanup_rules}
use harness_gitops_agent_ope.Mapping.Finalize.Authorized.{
  RecordedDeletes, ClaimedDeletes, recorded-cases,
}
use harness_gitops_agent_ope.Mapping.Cleanup.{authorize_project_mapping_cleanup, is_recovery}
use harness_gitops_agent_ope.Mapping.Finalize.{
  cleanup_recorded, cleanup_identity, finalize_project_mapping,
}

-- an identity that leads to the delete branch: the status records an owned remote, and no creation
-- whose outcome is open
pub record Recorded (mapping : HarnessGitopsProjectMapping) (identity : CleanupIdentity)
    (remote : HarnessGitopsProjectMappingRemoteStatus) : Type 0 where
  pub recorded : mapping.status.remote ≡ some remote
  pub owned : is_deletion_ownership remote.ownership ≡ true
  pub certain : is_uncertain_creation_state mapping.status.creation_state ≡ false
  pub id : identity.mapping_id ≡ trim_space remote.mapping_id

Recorded-facts :
    (mapping : HarnessGitopsProjectMapping) (remote : HarnessGitopsProjectMappingRemoteStatus)
    → (let identity = resolve_mapping_cleanup_identity mapping in
        identity.remote ≡ some remote
        → identity.remove_finalizer ≡ false
        → identity.ownership_block_reason ≡ none
        → is_recovery identity.recovery_ownership ≡ false
        → (mapping.status.remote ≡ some remote)
          × (is_deletion_ownership remote.ownership ≡ true)
          × (is_uncertain_creation_state mapping.status.creation_state ≡ false)
          × (identity.mapping_id ≡ trim_space remote.mapping_id))
unfolding resolve_mapping_cleanup_identity is_recovery
Recorded-facts mapping remote has keeps free settled = ground arith

authorize-decision :
    (r : Reconciler) (request : ProjectMappingRequest) (id : String) (s : State)
    → (authorize_project_mapping_cleanup r request id s).0.won ≡ true
    → (decision : ProjectMappingClaimDecision) × ((resolve_project_mapping_claim r request id none
          s).0
        ≡ ok decision)
      × (decision.current_wins ≡ true)
unfolding authorize_project_mapping_cleanup
authorize-decision r request id s won =
    elim (Result-cases (resolve_project_mapping_claim r request id none s).0) [
      | inl (e, failed) ↦ grind (arith)
      | inr (decision, decided) ↦ (decision, decided, grind (arith))
    ]

-- The permission that a delete call of a cleanup has.
pub record Permitted (r : Reconciler) (mapping : HarnessGitopsProjectMapping) : Type 0 where
  pub remote : HarnessGitopsProjectMappingRemoteStatus
  -- the status records a remote with managed or adopted ownership, and no open creation
  pub recorded : mapping.status.remote ≡ some remote
  pub owned : is_deletion_ownership remote.ownership ≡ true
  pub certain : is_uncertain_creation_state mapping.status.creation_state ≡ false
  -- Harness listed, for the stored tuple, a row with the recorded ID and the whole tuple
  pub session : Session
  pub time : Trace
  pub rows : List ProjectMapping
  pub row : ProjectMapping
  pub answer : r.env.list time session (stored_request remote) ≡ ok rows
  pub inside : Memᴰ row rows
  pub same_id : (trim_space row.identifier == trim_space remote.mapping_id) ≡ true
  pub matches : project_mapping_matches row (stored_request remote) ≡ true
  -- right after it, the resource won the arbitration of the row
  pub decision : ProjectMappingClaimDecision
  pub decided :
      (resolve_project_mapping_claim r
        (stored_request remote)
        (trim_space remote.mapping_id)
        none
        (record { mapping = mapping; trace = listed (stored_request remote) ∷ time })).0
      ≡ ok decision
  pub wins : decision.current_wins ≡ true

module _ (μ : Measure) (r : Reconciler) where
  identity-cases :
      (identity : CleanupIdentity) (s : State)
      → (μ.of (cleanup_identity r identity s).1.trace ≡ μ.of s.trace)
        ⊎ ((remote : HarnessGitopsProjectMappingRemoteStatus) × (identity.remote ≡ some remote)
            × (identity.remove_finalizer ≡ false)
            × (identity.ownership_block_reason ≡ none)
            × (μ.of (cleanup_identity r identity s).1.trace
                ≡ μ.of (cleanup_recorded r identity remote s).1.trace))
  unfolding cleanup_identity
  identity-cases identity s = elim (Option-cases identity.remote) [
    | inl missing ↦ inl (grind (arith, cleanup_rules))
    | inr (remote, has) ↦ elim (Bool-cases identity.remove_finalizer) [
      | inl removes ↦ inl (grind (arith, cleanup_rules))
      | inr keeps ↦ elim (Option-cases identity.ownership_block_reason) [
        | inl free ↦ inr (remote, has, keeps, free, grind (arith))
        | inr (reason, blocked) ↦ inl (grind (arith, cleanup_rules))
      ]
    ]
  ]

  permit :
      (mapping : HarnessGitopsProjectMapping) (remote : HarnessGitopsProjectMappingRemoteStatus)
      → (resolve_mapping_cleanup_identity mapping).remote ≡ some remote
      → (resolve_mapping_cleanup_identity mapping).remove_finalizer ≡ false
      → (resolve_mapping_cleanup_identity mapping).ownership_block_reason ≡ none
      → RecordedDeletes r μ (resolve_mapping_cleanup_identity mapping) remote mapping
      → Permitted r mapping
  unfolding RecordedDeletes ClaimedDeletes stored_request record_event
  permit mapping remote has keeps free (request, id, valid, (session, s', same, found)) =
      let identity = resolve_mapping_cleanup_identity mapping in
      let (recorded, owned, certain, recorded_id) =
        Recorded-facts mapping remote has keeps free found.no_recovery in
      let (of_tuple, of_id) =
        cleanup_request-ok (record remote { mapping_id = identity.mapping_id }) request id valid in
      let same_id : id ≡ trim_space remote.mapping_id =
        of_id ∙ ap trim_space recorded_id ∙ trim_space_idem remote.mapping_id in
      let same_request : request ≡ stored_request remote = of_tuple in
      let (inside, has_id) = with_id_sound found.rows id found.found in
      let (decision, decided, wins) =
        authorize-decision r request id (record_event (listed request) s') found.won in
      record {
        remote = remote;
        recorded = recorded;
        owned = owned;
        certain = certain;
        session = session;
        time = s'.trace;
        rows = found.rows;
        row = found.row;
        answer = rw (sym same_request) found.answer;
        inside = inside;
        same_id = rw (sym same_id) has_id;
        matches = rw (sym same_request) found.matches;
        decision = decision;
        decided = rw (sym same_request, sym same_id, sym same) decided;
        wins = wins;
      }

  finalize-same :
      (s : State)
      → μ.of (cleanup_identity r (resolve_mapping_cleanup_identity s.mapping) s).1.trace
        ≡ μ.of s.trace
      → μ.of (finalize_project_mapping r s).1.trace ≡ μ.of s.trace
  unfolding finalize_project_mapping
  finalize-same s same = grind (arith)

  finalize-Permitted :
      (s : State)
      → μ.of (finalize_project_mapping r s).1.trace ≢ μ.of s.trace
      → Permitted r s.mapping
  finalize-Permitted s changed =
      let identity = resolve_mapping_cleanup_identity s.mapping in
      elim (identity-cases identity s) [
        | inl same ↦ absurd (changed (finalize-same s same))
        | inr (remote, has, keeps, free, step) ↦ elim (recorded-cases r μ identity remote s) [
          | inl same ↦ absurd (changed (finalize-same s (step ∙ same)))
          | inr found ↦ permit s.mapping remote has keeps free found
        ]
      ]

-- A cleanup calls delete only if the status of the deleted resource records a remote with managed or
-- adopted ownership and no open creation, Harness lists a row with the recorded ID and the whole
-- recorded tuple, and right after that list call the resource wins the arbitration of the row.
pub finalize-needs-permission :
    (r : Reconciler) (s : State)
    → deletes (finalize_project_mapping r s).1.trace ≢ deletes s.trace
    → Permitted r s.mapping
finalize-needs-permission r s changed = finalize-Permitted deletes_measure r s changed

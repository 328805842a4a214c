-- ===== src/Mapping/Create/Listed.antt =====
-- A create that Harness accepted, once its row is listed: the composition of the selection, the
-- arbitration and the status write for a resource in Pending.
use mathlib.Core.Path.{subst}
use harness_gitops_agent_ope.Common.{
  String, ◌≡◌, refl, true, false, Bool, ◌⊎◌, none, some, List, [], ◌∷◌, ok, arith, sym,
}
use harness_gitops_agent_ope.Text.{◌==◌, trim_space, eq_refl}
use harness_gitops_agent_ope.Text.Trim.{trim_space_idem}
use harness_gitops_agent_ope.Api.{
  unowned, pending, HarnessGitopsProjectMappingRemoteStatus, HarnessGitopsProjectMapping,
}
use harness_gitops_agent_ope.Harness.Session.{Session}
use harness_gitops_agent_ope.Mapping.Types.{ProjectMappingRequest, ProjectMapping}
use harness_gitops_agent_ope.Mapping.Environment.{Trace, Reconciler, State, listed, record_event}
use harness_gitops_agent_ope.Mapping.Remote.{is_deletion_ownership, is_uncertain_creation_state}
use harness_gitops_agent_ope.Mapping.Remote.Laws.{echo, echo-matches}
use harness_gitops_agent_ope.Mapping.Selection.{
  Scan, select_project_mapping, select_scanned, select_exact, select_only, scan_start, scan_input,
  project_mapping_with_id, scan_mapping, scan_mappings, remembered_id_of, remembered_ownership_of,
}
use harness_gitops_agent_ope.Mapping.Claims.{same_project_mapping_resource, sort_claims}
use harness_gitops_agent_ope.Mapping.Eligibility.{
  recorded_priority, status_priority, project_mapping_claim_priority, candidate_claim,
  collect_claims,
}
use harness_gitops_agent_ope.Mapping.Arbitration.{
  decide_claims, decide_listed, resolve_project_mapping_claim, require_project_mapping_claim,
}
use harness_gitops_agent_ope.Mapping.Create.{reconcile_harness_mapping}
use harness_gitops_agent_ope.Mapping.Create.Progress.{IsManaged, pending-IsManaged}

-- the resource neither records the ID nor asks to adopt it
abbrev pub IsStranger : String → HarnessGitopsProjectMapping → Type 0
IsStranger id m =
    ((remembered_id_of m.status.remote == id) ≡ false)
    × ((trim_space m.spec.adopt_mapping_id == id) ≡ false)

abbrev pub AreStrangers : String → List HarnessGitopsProjectMapping → Type 0
AreStrangers id [] = Unit
AreStrangers id (m ∷ ms) = IsStranger id m × AreStrangers id ms

same_refl : (m : HarnessGitopsProjectMapping) → same_project_mapping_resource m m ≡ true
unfolding same_project_mapping_resource
same_refl m =
    ground (arith, eq_refl m.metadata.namespace, eq_refl m.metadata.name, eq_refl m.metadata.uid)

with_id-cases :
    (m : ProjectMapping) (id : String)
    → (project_mapping_with_id (m ∷ []) id ≡ some m) ⊎ (project_mapping_with_id (m ∷ []) id ≡ none)
unfolding project_mapping_with_id
with_id-cases m id = ground arith

module _ (request : ProjectMappingRequest) (resource : HarnessGitopsProjectMapping)
    (remote : HarnessGitopsProjectMappingRemoteStatus) (has : resource.status.remote ≡ some remote)
    (free : remote.ownership ≡ unowned) (known : (trim_space remote.mapping_id == "") ≡ false) where
  unproven : is_deletion_ownership (remembered_ownership_of resource.status.remote) ≡ false
  unfolding is_deletion_ownership remembered_ownership_of
  unproven = rw (has, free) refl

  remembers : remembered_id_of resource.status.remote ≡ trim_space remote.mapping_id
  unfolding remembered_id_of
  remembers = rw has refl

  -- the only row is exact, and whichever ID is looked for, it is selected
  echo-scanned :
      (trim_space request.agent_identifier == "") ≡ false
      → scan_mappings (scan_input request resource) (echo request remote.mapping_id ∷ []) scan_start
        ≡ record scan_start { exact = echo request remote.mapping_id ∷ [] }
  unfolding scan_start scan_input scan_mappings scan_mapping
  echo-scanned has_agent = grind (
    arith,
    unproven,
    echo-matches request remote.mapping_id known has_agent,
    eq_refl (trim_space request.argo_project_name),
  )

  exact-selected :
      (priority : Bool)
      → (select_exact
          (scan_input request resource)
          priority
          (record scan_start { exact = echo request remote.mapping_id ∷ [] })).mapping
        ≡ some (echo request remote.mapping_id)
  unfolding select_exact select_only
  exact-selected priority =
      let row = echo request remote.mapping_id in
      let i = scan_input request resource in
      grind (arith, with_id-cases row i.adopt_id, with_id-cases row i.remembered_id)

  scanned-selected :
      (priority : Bool) (scan : Scan)
      → scan ≡ record scan_start { exact = echo request remote.mapping_id ∷ [] }
      → (select_scanned (scan_input request resource) priority scan).mapping
        ≡ some (echo request remote.mapping_id)
  unfolding select_scanned scan_start
  scanned-selected priority scan same =
      subst
        (λ (sc : Scan).
          (select_scanned (scan_input request resource) priority sc).mapping
          ≡ some (echo request remote.mapping_id))
        (sym same) (exact-selected priority)

  echo-selected :
      (trim_space request.agent_identifier == "") ≡ false
      → (select_project_mapping (echo request remote.mapping_id ∷ []) request resource).mapping
        ≡ some (echo request remote.mapping_id)
  unfolding select_project_mapping
  echo-selected has_agent = scanned-selected _ _ (echo-scanned has_agent)

  module _ (r : Reconciler) where
    strangers-collect :
        (id : String) (others : List HarnessGitopsProjectMapping) (s : State)
        → AreStrangers id others
        → collect_claims r resource request id none others s ≡ (ok [], s)
    unfolding collect_claims candidate_claim project_mapping_claim_priority status_priority
        remembered_id_of
    strangers-collect id [] s all = refl
    strangers-collect id (m ∷ others) s (stranger, all) =
        grind (arith, strangers-collect id others s all)

    claim-won :
        (s : State) (others : List HarnessGitopsProjectMapping)
        → s.mapping ≡ resource
        → r.api_reader ≡ true
        → r.env.list_mappings s.trace ≡ ok (resource ∷ others)
        → AreStrangers (trim_space remote.mapping_id) others
        → resource.status.creation_state ≡ pending
        → (require_project_mapping_claim r request (trim_space remote.mapping_id) s).0.won ≡ true
    unfolding require_project_mapping_claim resolve_project_mapping_claim decide_listed
        decide_claims collect_claims candidate_claim project_mapping_claim_priority status_priority
        recorded_priority is_deletion_ownership is_uncertain_creation_state sort_claims
    claim-won s others same reader answer strangers state = grind (
      arith,
      strangers-collect,
      same_refl resource,
      trim_space_idem remote.mapping_id,
      eq_refl (trim_space remote.mapping_id),
    )

-- A create that Harness accepted becomes owned: a resource in Pending that records a remote with no
-- ownership and the ID that the create call returned, and asks for no adoption, is the Managed owner of
-- the recorded remote and has left Pending after one reconcile with Harness, and the API holds that
-- status. The conditions are that the request names an agent, Harness lists just the row that echoes
-- the request with that ID, the reader of the arbitration lists the resource first and then only
-- resources that neither record the ID nor ask to adopt it, and the API server accepts every status
-- write.
pub listed_create-IsManaged :
    (r : Reconciler) (session : Session) (request : ProjectMappingRequest) (s : State)
    (remote : HarnessGitopsProjectMappingRemoteStatus) (others : List HarnessGitopsProjectMapping)
    → s.mapping.status.creation_state ≡ pending
    → s.mapping.status.remote ≡ some remote
    → remote.ownership ≡ unowned
    → (trim_space remote.mapping_id == "") ≡ false
    → (trim_space s.mapping.spec.adopt_mapping_id == "") ≡ true
    → (trim_space request.agent_identifier == "") ≡ false
    → r.api_reader ≡ true
    → r.env.list s.trace session request ≡ ok (echo request remote.mapping_id ∷ [])
    → r.env.list_mappings (listed request ∷ s.trace) ≡ ok (s.mapping ∷ others)
    → AreStrangers (trim_space remote.mapping_id) others
    → ((t : Trace) (m : HarnessGitopsProjectMapping) → r.env.update_status t m ≡ none)
    → IsManaged remote (reconcile_harness_mapping r session request s).1
unfolding record_event
listed_create-IsManaged r session request s remote others state has free known no_adoption has_agent
      reader rows items strangers accepts =
    let same = remembers request s.mapping remote has free known in
    pending-IsManaged r accepts session request s remote (echo request remote.mapping_id ∷ [])
      (echo request remote.mapping_id) rows
      (echo-selected request s.mapping remote has free known has_agent) has
      (unproven request s.mapping remote has free known) state no_adoption (rw same known)
      (rw same (eq_refl (trim_space remote.mapping_id)))
      (rw same (
        claim-won request s.mapping remote has free known r (record_event (listed request) s) others
          refl reader items strangers state))

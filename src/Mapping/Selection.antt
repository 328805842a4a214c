-- ===== src/Mapping/Selection.antt =====
-- The choice of one observed row: `selectProjectMapping` of
-- internal/resource/projectmapping/state.go.
pub mod Laws
pub mod Choice
pub mod Owned
use harness_gitops_agent_ope.Common.{
  String, Bool, true, false, ◌&&◌, ◌||◌, not, Option, none, some, List, [], ◌∷◌, ◌++◌,
  if◌then◌else◌,
}
use harness_gitops_agent_ope.Text.{◌==◌, trim_space}
use harness_gitops_agent_ope.Api.{
  ResourceOwnership, unowned, HarnessGitopsProjectMapping, HarnessGitopsProjectMappingRemoteStatus,
}
use harness_gitops_agent_ope.Mapping.Types.{ProjectMappingRequest, ProjectMapping}
use harness_gitops_agent_ope.Mapping.Remote.{
  is_deletion_ownership, is_uncertain_creation_state, project_mapping_matches,
}

pub record ProjectMappingSelection : Type 0 where
  pub mapping : Option ProjectMapping
  pub conflict : Bool
  pub adopt_conflict : Bool
  pub duplicate : Bool

unfoldable pub project_mapping_with_id : List ProjectMapping → String → Option ProjectMapping
project_mapping_with_id [] id = none
project_mapping_with_id (mapping ∷ mappings) id =
    if id == ""
    then none
    else if trim_space mapping.identifier == id
    then some mapping
    else project_mapping_with_id mappings id

-- the trimmed ID of a recorded remote, "" if there is none
unfoldable pub remembered_id_of : Option HarnessGitopsProjectMappingRemoteStatus → String
remembered_id_of none = ""
remembered_id_of (some remote) = trim_space remote.mapping_id

unfoldable pub remembered_ownership_of :
    Option HarnessGitopsProjectMappingRemoteStatus → ResourceOwnership
remembered_ownership_of none = unowned
remembered_ownership_of (some remote) = remote.ownership

-- The variables that the loop assigns.
pub record Scan : Type 0 where
  pub remembered_owned_mismatch : Bool
  pub exact : List ProjectMapping
  pub conflict : Bool
  pub adopt_conflict : Bool

-- What the loop reads.
pub record ScanInput : Type 0 where
  pub request : ProjectMappingRequest
  pub remembered_id : String
  pub remembered_owned : Bool
  pub adopt_id : String

-- the body of the loop
unfoldable pub scan_mapping : ScanInput → ProjectMapping → Scan → Scan
scan_mapping i mapping acc =
    let mismatch =
      i.remembered_owned
      && trim_space mapping.identifier == i.remembered_id
      && not (project_mapping_matches mapping i.request) in
    let acc' = record acc {
      remembered_owned_mismatch = acc.remembered_owned_mismatch || mismatch;
    } in
    if not (trim_space mapping.argo_project_name == trim_space i.request.argo_project_name)
    then acc'
    else if project_mapping_matches mapping i.request
    then record acc' { exact = acc.exact ++ mapping ∷ [] }
    else record acc' {
      conflict = true;
      adopt_conflict =
          acc.adopt_conflict
          || (not (i.adopt_id == "") && trim_space mapping.identifier == i.adopt_id);
    }

unfoldable pub scan_mappings : ScanInput → List ProjectMapping → Scan → Scan
scan_mappings i [] acc = acc
scan_mappings i (mapping ∷ mappings) acc = scan_mappings i mappings (scan_mapping i mapping acc)

unfoldable pub scan_start : Scan
scan_start = record {
  remembered_owned_mismatch = false;
  exact = [];
  conflict = false;
  adopt_conflict = false;
}

unfoldable pub scan_input : ProjectMappingRequest → HarnessGitopsProjectMapping → ScanInput
unfolding remembered_id_of remembered_ownership_of
scan_input request resource = record {
  request = request;
  remembered_id = remembered_id_of resource.status.remote;
  remembered_owned =
      not (remembered_id_of resource.status.remote == "")
      && is_deletion_ownership (remembered_ownership_of resource.status.remote);
  adopt_id = trim_space resource.spec.adopt_mapping_id;
}

abbrev pub selected : ProjectMapping → ProjectMappingSelection
selected mapping = record {
  mapping = some mapping;
  conflict = false;
  adopt_conflict = false;
  duplicate = false;
}

-- the last tests: the only exact row, or duplicates
unfoldable pub select_only : Scan → List ProjectMapping → ProjectMappingSelection
select_only scan (only ∷ []) = selected only
select_only scan exact = record {
  mapping = none;
  conflict = scan.conflict;
  adopt_conflict = scan.adopt_conflict;
  duplicate = true;
}

-- from the exact rows: the remembered ID if it has priority, the adopted ID, the remembered ID, or
-- the only row
unfoldable pub select_exact : ScanInput → Bool → Scan → ProjectMappingSelection
unfolding select_only
select_exact i remembered_has_priority scan =
    let by_id = λ (id : String). project_mapping_with_id scan.exact id in
    elim (if remembered_has_priority then by_id i.remembered_id else none) [
      | some mapping ↦ selected mapping
      | none ↦ elim (by_id i.adopt_id) [
        | some mapping ↦ selected mapping
        | none ↦ elim (by_id i.remembered_id) [
          | some mapping ↦ selected mapping
          | none ↦ select_only scan scan.exact
        ]
      ]
    ]

-- the tests between the loop and the choice
unfoldable pub select_scanned : ScanInput → Bool → Scan → ProjectMappingSelection
unfolding select_exact
select_scanned i remembered_has_priority scan =
    if scan.remembered_owned_mismatch
    then record { mapping = none; conflict = true; adopt_conflict = false; duplicate = false }
    else elim (scan.exact) [
      | [] ↦ record {
        mapping = none;
        conflict = scan.conflict;
        adopt_conflict = scan.adopt_conflict;
        duplicate = false;
      }
      | _ ∷ _ ↦ select_exact i remembered_has_priority scan
    ]

unfoldable pub select_project_mapping :
    List ProjectMapping
    → ProjectMappingRequest
    → HarnessGitopsProjectMapping
    → ProjectMappingSelection
unfolding scan_input select_scanned
select_project_mapping mappings request resource =
    let i = scan_input request resource in
    let remembered_has_priority =
      not (i.remembered_id == "")
      && (is_deletion_ownership (remembered_ownership_of resource.status.remote)
          || is_uncertain_creation_state resource.status.creation_state) in
    select_scanned i remembered_has_priority (scan_mappings i mappings scan_start)

-- ===== src/Mapping/Selection/Owned.antt =====
-- The selection for a resource that owns a row which Harness still lists.
use mathlib.Core.List.{Memᴰ}
use mathlib.Core.Bool.{true≢false}
use mathlib.Core.Option.{none-ne-some}
use harness_gitops_agent_ope.Common.{
  String, ◌≡◌, refl, sym, ◌∙◌, ap, ◌⊎◌, inl, inr, Bool, true, false, none, some, List, [], ◌∷◌,
  arith, any, keep_if, Bool-cases,
}
use harness_gitops_agent_ope.Text.{◌==◌, trim_space}
use harness_gitops_agent_ope.Api.{HarnessGitopsProjectMapping}
use harness_gitops_agent_ope.Mapping.Types.{ProjectMappingRequest, ProjectMapping}
use harness_gitops_agent_ope.Mapping.Remote.{project_mapping_matches, is_deletion_ownership}
use harness_gitops_agent_ope.Mapping.Selection.{
  project_mapping_with_id, Scan, ScanInput, scan_mappings, scan_start, select_exact, select_scanned,
  select_project_mapping, scan_input, remembered_id_of, remembered_ownership_of,
}
use harness_gitops_agent_ope.Mapping.Selection.Laws.{scan_mappings-eq-scan_onto, drifted}
use harness_gitops_agent_ope.Mapping.Selection.Choice.{with_id_sound, select-drifted}

module _ {ℓ} {A : Type ℓ} (p : A → Bool) {x : A} where
  any-refutes : (xs : List A) → Memᴰ x xs → any p xs ≡ false → p x ≡ false
  any-refutes [] m h = elim m [ ]
  any-refutes (y ∷ xs) m h = elim m [
    | Memᴰ.head same ↦ rw same (ground arith)
    | Memᴰ.tail inside ↦ any-refutes xs inside (ground arith)
  ]

  keep_if_complete : (xs : List A) → Memᴰ x xs → p x ≡ true → Memᴰ x (keep_if p xs)
  keep_if_complete [] m h = elim m [ ]
  keep_if_complete (y ∷ xs) m h = elim m [
    | Memᴰ.head same ↦ rw (sym (ap p same) ∙ h) (Memᴰ.head same)
    | Memᴰ.tail inside ↦ elim (Bool-cases (p y)) [
      | inl e ↦ rw e (Memᴰ.tail (keep_if_complete xs inside h))
      | inr e ↦ rw e (keep_if_complete xs inside h)
    ]
  ]

with_id_complete :
    (rows : List ProjectMapping) (id : String) (m : ProjectMapping)
    → Memᴰ m rows
    → (trim_space m.identifier == id) ≡ true
    → (id == "") ≡ false
    → (found : ProjectMapping) × (project_mapping_with_id rows id ≡ some found)
unfolding project_mapping_with_id
with_id_complete [] id m inside same nonempty = elim inside [ ]
with_id_complete (row ∷ rows) id m inside same nonempty =
    elim (Bool-cases (trim_space row.identifier == id)) [
      | inl e ↦ (row, rw (nonempty, e) refl)
      | inr e ↦ elim inside [
        | Memᴰ.head first ↦
            absurd
              (true≢false (sym (ap (λ x. trim_space x.identifier == id) (sym first) ∙ same) ∙ e))
        | Memᴰ.tail later ↦
            let (found, h) = with_id_complete rows id m later same nonempty in
            (found, rw (nonempty, e) h)
      ]
    ]

module _ (i : ScanInput) (scan : Scan) (m : ProjectMapping) where
  select_exact-priority :
      project_mapping_with_id scan.exact i.remembered_id ≡ some m
      → (select_exact i true scan).mapping ≡ some m
  unfolding select_exact
  select_exact-priority h = ground arith

  select_scanned-priority :
      (priority : Bool)
      → priority ≡ true
      → scan.remembered_owned_mismatch ≡ false
      → project_mapping_with_id scan.exact i.remembered_id ≡ some m
      → (select_scanned i priority scan).mapping ≡ some m
  unfolding select_scanned project_mapping_with_id
  select_scanned-priority priority first clean h = ground (arith, select_exact-priority)

pub with_id-nonempty :
    (rows : List ProjectMapping) (id : String) {m : ProjectMapping}
    → project_mapping_with_id rows id ≡ some m
    → (id == "") ≡ false
unfolding project_mapping_with_id
with_id-nonempty [] id h = absurd (none-ne-some _ h)
with_id-nonempty (row ∷ rows) id h = ground arith

matches_if_clean :
    (i : ScanInput) (row : ProjectMapping)
    → i.remembered_owned ≡ true
    → (trim_space row.identifier == i.remembered_id) ≡ true
    → drifted i row ≡ false
    → project_mapping_matches row i.request ≡ true
matches_if_clean i row owned same clean = ground arith

select-priority :
    (rows : List ProjectMapping) (request : ProjectMappingRequest)
    (resource : HarnessGitopsProjectMapping) (m : ProjectMapping)
    → is_deletion_ownership (remembered_ownership_of resource.status.remote) ≡ true
    → (remembered_id_of resource.status.remote == "") ≡ false
    → any (drifted (scan_input request resource)) rows ≡ false
    → project_mapping_with_id
        (keep_if (λ x. project_mapping_matches x request) rows)
        (remembered_id_of resource.status.remote)
      ≡ some m
    → (select_project_mapping rows request resource).mapping ≡ some m
unfolding select_project_mapping scan_start scan_input
select-priority rows request resource m owned nonempty clean found =
    let i = scan_input request resource in
    let e = scan_mappings-eq-scan_onto i rows scan_start in
    let mismatch : (scan_mappings i rows scan_start).remembered_owned_mismatch ≡ false =
      ap (λ s. s.remembered_owned_mismatch) e ∙ clean in
    let by_id : project_mapping_with_id (scan_mappings i rows scan_start).exact i.remembered_id
        ≡ some m =
      ap (λ s. project_mapping_with_id s.exact i.remembered_id) e ∙ found in
    select_scanned-priority i (scan_mappings i rows scan_start) m _
      (ground (arith, nonempty, owned)) mismatch by_id

-- The selection for a resource that owns a listed row: a conflict, or a row with the recorded ID.
pub select-owned :
    (rows : List ProjectMapping) (request : ProjectMappingRequest)
    (resource : HarnessGitopsProjectMapping) (row : ProjectMapping)
    → is_deletion_ownership (remembered_ownership_of resource.status.remote) ≡ true
    → project_mapping_with_id rows (remembered_id_of resource.status.remote) ≡ some row
    → (((select_project_mapping rows request resource).mapping ≡ none)
        × ((select_project_mapping rows request resource).conflict ≡ true))
      ⊎ ((m : ProjectMapping) × ((select_project_mapping rows request resource).mapping ≡ some m)
          × ((trim_space m.identifier == remembered_id_of resource.status.remote) ≡ true))
unfolding scan_input
select-owned rows request resource row owned listed =
    let i = scan_input request resource in
    elim (Bool-cases (any (drifted i) rows)) [
      | inl drift ↦ inl (select-drifted rows request resource drift)
      | inr clean ↦
          let (inside, same) = with_id_sound rows i.remembered_id listed in
          let nonempty = with_id-nonempty rows i.remembered_id listed in
          let matches =
            matches_if_clean i row (ground (arith, owned, nonempty)) same
              (any-refutes (drifted i) rows inside clean) in
          let (m, found) =
            with_id_complete (keep_if (λ x. project_mapping_matches x request) rows) i.remembered_id
              row (keep_if_complete (λ x. project_mapping_matches x request) rows inside matches)
              same nonempty in
          inr (
            m,
            select-priority rows request resource m owned nonempty clean found,
            (with_id_sound _ i.remembered_id found).1,
          )
    ]

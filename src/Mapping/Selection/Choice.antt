-- ===== src/Mapping/Selection/Choice.antt =====
-- What the selection of `selectProjectMapping` means, in terms of the rows that Harness listed.
use mathlib.Core.List.{Memᴰ}
use mathlib.Core.Option.{none-ne-some, some-injective}
use harness_gitops_agent_ope.Common.{
  String, ◌≡◌, refl, ◌∙◌, Bool, true, false, ◌&&◌, not, none, some, List, [], ◌∷◌, ap, arith,
  if◌then◌else◌, any, keep_if, Bool-cases, inl, inr, sym, ◌⊎◌,
}
use harness_gitops_agent_ope.Text.{◌==◌, trim_space}
use harness_gitops_agent_ope.Api.{HarnessGitopsProjectMapping}
use harness_gitops_agent_ope.Mapping.Types.{ProjectMappingRequest, ProjectMapping}
use harness_gitops_agent_ope.Mapping.Remote.{project_mapping_matches}
use harness_gitops_agent_ope.Mapping.Selection.{
  project_mapping_with_id, Scan, ScanInput, scan_mappings, scan_start, select_only, select_exact,
  select_scanned, select_project_mapping, scan_input,
}
use harness_gitops_agent_ope.Mapping.Selection.Laws.{
  scan_mappings-eq-scan_onto, same_app_project, drifted,
}

module _ {ℓ} {A : Type ℓ} (p : A → Bool) {x : A} where
  kept_cons :
      (y : A) (xs : List A) (b : Bool)
      → p y ≡ b
      → (Memᴰ x (keep_if p xs) → Memᴰ x xs × (p x ≡ true))
      → Memᴰ x (if b then y ∷ keep_if p xs else keep_if p xs)
      → Memᴰ x (y ∷ xs) × (p x ≡ true)
  kept_cons y xs true e ih (Memᴰ.head same) = (Memᴰ.head same, ap p same ∙ e)
  kept_cons y xs true e ih (Memᴰ.tail m) = let (inside, holds) = ih m in (Memᴰ.tail inside, holds)
  kept_cons y xs false e ih m = let (inside, holds) = ih m in (Memᴰ.tail inside, holds)

  keep_if_sound : (xs : List A) → Memᴰ x (keep_if p xs) → Memᴰ x xs × (p x ≡ true)
  keep_if_sound [] m = elim m [ ]
  keep_if_sound (y ∷ xs) m = kept_cons y xs (p y) refl (keep_if_sound xs) m

pub with_id_sound :
    (rows : List ProjectMapping) (id : String) {m : ProjectMapping}
    → project_mapping_with_id rows id ≡ some m
    → Memᴰ m rows × ((trim_space m.identifier == id) ≡ true)
unfolding project_mapping_with_id
with_id_sound [] id h = cc
with_id_sound (row ∷ rows) id {m} h = elim (Bool-cases (id == "")) [
  | inl e ↦ absurd (none-ne-some _ (rw e at h))
  | inr e ↦ elim (Bool-cases (trim_space row.identifier == id)) [
    | inl same ↦
        let h' : row ≡ m = some-injective row m (rw same at (rw e at h)) in
        (Memᴰ.head (sym h'), rw (sym h') same)
    | inr other ↦
        let (inside, holds) = with_id_sound rows id (rw other at (rw e at h)) in
        (Memᴰ.tail inside, holds)
  ]
]

module _ (i : ScanInput) (priority : Bool) (scan : Scan) {m : ProjectMapping} where
  select_exact-cases :
      (select_exact i priority scan).mapping ≡ some m
      → ((project_mapping_with_id scan.exact i.remembered_id ≡ some m)
          ⊎ (project_mapping_with_id scan.exact i.adopt_id ≡ some m))
        ⊎ ((select_only scan scan.exact).mapping ≡ some m)
  unfolding select_exact
  select_exact-cases h = ground arith

  select_only-sound :
      (exact : List ProjectMapping) → (select_only scan exact).mapping ≡ some m → Memᴰ m exact
  unfolding select_only
  select_only-sound (only ∷ []) h = Memᴰ.head (sym (some-injective only m h))
  select_only-sound [] h = absurd (none-ne-some _ h)
  select_only-sound (a ∷ b ∷ rest) h = absurd (none-ne-some _ h)

  select_exact-sound : (select_exact i priority scan).mapping ≡ some m → Memᴰ m scan.exact
  select_exact-sound h = elim (select_exact-cases h) [
    | inl (inl by_remembered) ↦ (with_id_sound scan.exact i.remembered_id by_remembered).0
    | inl (inr by_adopted) ↦ (with_id_sound scan.exact i.adopt_id by_adopted).0
    | inr only ↦ select_only-sound scan.exact only
  ]

  select_scanned-cases :
      (select_scanned i priority scan).mapping ≡ some m
      → (scan.remembered_owned_mismatch ≡ false) × ((select_exact i priority scan).mapping ≡ some m)
  unfolding select_scanned
  select_scanned-cases h = ground arith

-- The scan of all rows.
abbrev scanned : List ProjectMapping → ScanInput → Scan
scanned rows i = scan_mappings i rows scan_start

-- A selected row is one that Harness listed, matches the request in every part, and is selected only
-- if no listed row with the ID of an owned mapping has drifted from the request.
pub select_sound :
    (rows : List ProjectMapping) (request : ProjectMappingRequest)
    (resource : HarnessGitopsProjectMapping) {m : ProjectMapping}
    → (select_project_mapping rows request resource).mapping ≡ some m
    → Memᴰ m rows
      × (project_mapping_matches m request ≡ true)
      × (any (drifted (scan_input request resource)) rows ≡ false)
unfolding select_project_mapping scan_start scan_input
select_sound rows request resource h =
    let i = scan_input request resource in
    let (clean, chosen) = select_scanned-cases i _ (scanned rows i) h in
    let inside = select_exact-sound i _ (scanned rows i) chosen in
    let e = scan_mappings-eq-scan_onto i rows scan_start in
    let (listed, matches) =
      keep_if_sound (λ m. project_mapping_matches m request) rows (rw e at inside) in
    (listed, matches, rw e at clean)

-- A listed row with the ID of an owned mapping whose tuple has drifted: nothing is selected, not even
-- an exact replacement, and the result is a conflict.
pub select-drifted :
    (rows : List ProjectMapping) (request : ProjectMappingRequest)
    (resource : HarnessGitopsProjectMapping)
    → any (drifted (scan_input request resource)) rows ≡ true
    → ((select_project_mapping rows request resource).mapping ≡ none)
      × ((select_project_mapping rows request resource).conflict ≡ true)
unfolding select_project_mapping scan_start
select-drifted rows request resource h =
    let i = scan_input request resource in
    let e = scan_mappings-eq-scan_onto i rows scan_start in rw e (rw h (refl, refl))

module _ (i : ScanInput) (priority : Bool) (scan : Scan) where
  select_exact-duplicate :
      (select_exact i priority scan).mapping ≡ none
      → (select_exact i priority scan).duplicate ≡ true
  unfolding select_exact
  select_exact-duplicate h = ground arith

  select_scanned-free :
      (select_scanned i priority scan).mapping ≡ none
      → (select_scanned i priority scan).conflict ≡ false
      → (select_scanned i priority scan).duplicate ≡ false
      → (scan.exact ≡ []) × (scan.conflict ≡ false)
  unfolding select_scanned
  select_scanned-free a b c = ground (arith, select_exact-duplicate)

not-any_of_split :
    (request : ProjectMappingRequest) (rows : List ProjectMapping)
    → keep_if (λ m. project_mapping_matches m request) rows ≡ []
    → any (λ m. same_app_project request m && not (project_mapping_matches m request)) rows ≡ false
    → any (same_app_project request) rows ≡ false
not-any_of_split request [] h k = refl
not-any_of_split request (m ∷ rows) h k = ground (arith, not-any_of_split request rows)

-- With no selection, no conflict and no duplicates, no listed row is for the AppProject.
pub select-free :
    (rows : List ProjectMapping) (request : ProjectMappingRequest)
    (resource : HarnessGitopsProjectMapping)
    → (select_project_mapping rows request resource).mapping ≡ none
    → (select_project_mapping rows request resource).conflict ≡ false
    → (select_project_mapping rows request resource).duplicate ≡ false
    → any (same_app_project request) rows ≡ false
unfolding select_project_mapping scan_start
select-free rows request resource unselected no_conflict no_duplicate =
    let i = scan_input request resource in
    let e = scan_mappings-eq-scan_onto i rows scan_start in
    let (no_exact, no_clash) =
      select_scanned-free i _ (scanned rows i) unselected no_conflict no_duplicate in
    not-any_of_split request rows (rw e at no_exact) (rw e at no_clash)

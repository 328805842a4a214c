-- ===== src/Mapping/Selection/Laws.antt =====
-- The loop of `selectProjectMapping` against a reference that asks four questions of the rows, and
-- what a selection means.
use mathlib.Core.List.{append-nil, append_assoc}
use harness_gitops_agent_ope.Common.{
  ◌≡◌, refl, ◌∙◌, Bool, true, false, ◌&&◌, ◌||◌, not, List, [], ◌∷◌, ◌++◌, arith, if◌then◌else◌,
  any, keep_if, Bool-cases, inl, inr, sym,
}
use harness_gitops_agent_ope.Text.{◌==◌, trim_space}
use harness_gitops_agent_ope.Mapping.Types.{ProjectMappingRequest, ProjectMapping}
use harness_gitops_agent_ope.Mapping.Remote.{project_mapping_matches}
use harness_gitops_agent_ope.Mapping.Selection.{Scan, ScanInput, scan_mapping, scan_mappings}

-- The row is for the AppProject of the request.
abbrev pub same_app_project : ProjectMappingRequest → ProjectMapping → Bool
same_app_project request m = trim_space m.argo_project_name == trim_space request.argo_project_name

abbrev matching : ProjectMappingRequest → ProjectMapping → Bool
matching request m = project_mapping_matches m request

matches-same_app_project :
    (request : ProjectMappingRequest) (m : ProjectMapping)
    → project_mapping_matches m request ≡ true
    → same_app_project request m ≡ true
unfolding project_mapping_matches
matches-same_app_project request m h = ground arith

or_regroup : (a b c : Bool) → ((a || b) || c) ≡ (a || (b || c))
or_regroup true b c = refl
or_regroup false b c = refl

module _ (i : ScanInput) where
  scan_mapping-exact :
      (m : ProjectMapping) (acc : Scan)
      → (scan_mapping i m acc).exact
        ≡ (if matching i.request m then acc.exact ++ m ∷ [] else acc.exact)
  unfolding scan_mapping
  scan_mapping-exact m acc = ground (arith, matches-same_app_project i.request m)

  -- The row is the owned one, and its tuple has drifted.
  abbrev pub drifted : ProjectMapping → Bool
  drifted m =
      i.remembered_owned
      && trim_space m.identifier == i.remembered_id
      && not (project_mapping_matches m i.request)

  -- The row is for the same AppProject with another tuple.
  abbrev pub clashes : ProjectMapping → Bool
  clashes m = same_app_project i.request m && not (project_mapping_matches m i.request)

  -- So is the row that is to be adopted.
  abbrev pub adoption_clashes : ProjectMapping → Bool
  adoption_clashes m =
      clashes m && (not (i.adopt_id == "") && trim_space m.identifier == i.adopt_id)

  -- What the loop computes, a question for each variable.
  abbrev pub scan_onto : Scan → List ProjectMapping → Scan
  scan_onto acc rows = record {
    remembered_owned_mismatch = acc.remembered_owned_mismatch || any drifted rows;
    exact = acc.exact ++ keep_if (matching i.request) rows;
    conflict = acc.conflict || any clashes rows;
    adopt_conflict = acc.adopt_conflict || any adoption_clashes rows;
  }

  scan_mapping-flags :
      (m : ProjectMapping) (acc : Scan)
      → let next = scan_mapping i m acc in
        (next.remembered_owned_mismatch ≡ (acc.remembered_owned_mismatch || drifted m))
        × (next.conflict ≡ (acc.conflict || clashes m))
        × (next.adopt_conflict ≡ (acc.adopt_conflict || adoption_clashes m))
  unfolding scan_mapping
  scan_mapping-flags m acc = ground (arith, matches-same_app_project i.request m)

  scan_mappings-flags :
      (rows : List ProjectMapping) (acc : Scan)
      → let end = scan_mappings i rows acc in
        (end.remembered_owned_mismatch ≡ (acc.remembered_owned_mismatch || any drifted rows))
        × (end.conflict ≡ (acc.conflict || any clashes rows))
        × (end.adopt_conflict ≡ (acc.adopt_conflict || any adoption_clashes rows))
  unfolding scan_mappings
  scan_mappings-flags [] acc = ground arith
  scan_mappings-flags (m ∷ rows) acc =
      let (d, c, a) = scan_mapping-flags m acc in
      let (d', c', a') = scan_mappings-flags rows (scan_mapping i m acc) in
      (
        d' ∙ rw d (or_regroup _ (drifted m) _),
        c' ∙ rw c (or_regroup _ (clashes m) _),
        a' ∙ rw a (or_regroup _ (adoption_clashes m) _),
      )

  scan_mappings-exact :
      (rows : List ProjectMapping) (acc : Scan)
      → (scan_mappings i rows acc).exact ≡ acc.exact ++ keep_if (matching i.request) rows
  unfolding scan_mappings
  scan_mappings-exact [] acc = sym (append-nil acc.exact)
  scan_mappings-exact (m ∷ rows) acc =
      scan_mappings-exact rows (scan_mapping i m acc)
      ∙ rw (scan_mapping-exact m acc) (elim (Bool-cases (matching i.request m)) [
        | inl e ↦ rw e (append_assoc acc.exact (m ∷ []) (keep_if (matching i.request) rows))
        | inr e ↦ rw e refl
      ])

  -- The loop answers its four questions: is the owned row there with a drifted tuple, which rows
  -- match the request in every part, in their order, is there a row for the AppProject with another
  -- tuple, and is that so of the row to be adopted.
  pub scan_mappings-eq-scan_onto :
      (rows : List ProjectMapping) (acc : Scan) → scan_mappings i rows acc ≡ scan_onto acc rows
  scan_mappings-eq-scan_onto rows acc =
      let (d, c, a) = scan_mappings-flags rows acc in
      let e = scan_mappings-exact rows acc in
      λ j. record {
        remembered_owned_mismatch = d j;
        exact = e j;
        conflict = c j;
        adopt_conflict = a j;
      }

-- ===== src/Harness/Identifiers.antt =====
-- internal/harness/identifiers.go. optional.String is `Option String`.
pub mod Laws
use harness_gitops_agent_ope.Common.{
  String, Bool, true, false, ◌||◌, Option, none, some, List, [], ◌∷◌, ◌++◌, if◌then◌else◌,
}
use harness_gitops_agent_ope.Text.{◌==◌, ◌<>◌, trim_space, equal_fold, after_dot}

unfoldable pub optional_string : String → Option String
optional_string value = if trim_space value == "" then none else some (trim_space value)

unfoldable pub org_identifier_for_scope : String → String → String
org_identifier_for_scope scope org_identifier =
    if equal_fold (trim_space scope) "ORG" || equal_fold (trim_space scope) "PROJECT"
    then trim_space org_identifier
    else ""

unfoldable pub optional_org_identifier : String → String → Option String
unfolding optional_string org_identifier_for_scope
optional_org_identifier scope org_identifier =
    optional_string (org_identifier_for_scope scope org_identifier)

unfoldable pub project_identifier_for_scope : String → String → String
project_identifier_for_scope scope project_identifier =
    if equal_fold (trim_space scope) "PROJECT" then trim_space project_identifier else ""

unfoldable pub optional_project_identifier : String → String → Option String
unfolding optional_string project_identifier_for_scope
optional_project_identifier scope project_identifier =
    optional_string (project_identifier_for_scope scope project_identifier)

-- the loop over `existing` in the closure `add`
unfoldable pub listed : List String → String → Bool
listed [] value = false
listed (existing ∷ candidates) value = existing == value || listed candidates value

-- the closure `add`
unfoldable pub add_candidate : List String → String → List String
unfolding listed
add_candidate candidates value =
    let v = trim_space value in
    if v == "" then candidates else if listed candidates v then candidates else candidates ++ v ∷ []

-- the candidates of a trimmed identifier that is not empty
scoped_candidates : String → String → List String
scoped_candidates scope identifier = elim (after_dot identifier) [
  | some raw ↦ add_candidate (add_candidate [] identifier) raw
  | none ↦
      add_candidate
        (if equal_fold scope "ORG"
          then add_candidate [] ("org." <> identifier)
          else if equal_fold scope "ACCOUNT"
          then add_candidate [] ("account." <> identifier)
          else [])
        identifier
]

unfoldable pub scoped_identifier_candidates : String → String → List String
unfolding scoped_candidates add_candidate
scoped_identifier_candidates scope identifier =
    if trim_space identifier == "" then [] else scoped_candidates scope (trim_space identifier)

unfoldable pub identifiers_equivalent : String → String → String → Bool
identifiers_equivalent scope left right =
    let l = trim_space left in
    let r = trim_space right in
    if l == "" || r == ""
    then false
    else if l == r
    then true
    else listed (scoped_identifier_candidates scope r) l

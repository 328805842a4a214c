-- ===== src/Harness/Tests.antt =====
-- Errors, identifiers and sessions on concrete inputs.
use harness_gitops_agent_ope.Common.{
  ℕ, Option, String, ◌≡◌, ◌↔◌, refl, true, false, some, [], ◌∷◌, Result, ok,
}
use harness_gitops_agent_ope.Text.{◌==◌, trim_space}
use harness_gitops_agent_ope.Harness.Errors.{
  Error, KubeError, plain, response_error, absent, verdict_of, api_error, error_body,
  classify_response, status_code_of, swagger_body_of, swagger_pointer_body_of,
}
use harness_gitops_agent_ope.Harness.Errors.Laws.{verdict-absent, wraps}
use harness_gitops_agent_ope.Harness.Identifiers.{
  identifiers_equivalent, scoped_identifier_candidates, listed,
}
use harness_gitops_agent_ope.Harness.Identifiers.Laws.{
  equivalent-eq-listed, candidates-is_distinct, is_distinct,
}
use harness_gitops_agent_ope.Harness.Session.{Secret, lookup, new_session, session_from_secret}
use harness_gitops_agent_ope.Harness.Session.Laws.{session_from_secret-ok}

abbrev not_found : Error
not_found = response_error "get" "mapping" 404 absent (plain "gone")

verdict-absent_example :
    verdict_of (some (wraps (("read: ", "") ∷ []) not_found)) ≡ absent
    ↔ Path (Option ℕ) (some 404) (some 404)
unfolding api_error error_body classify_response swagger_body_of swagger_pointer_body_of
    status_code_of
verdict-absent_example =
    verdict-absent "get" "mapping" (some 404) (plain "gone") not_found (("read: ", "") ∷ []) refl

equivalent-eq-listed_example :
    identifiers_equivalent "ACCOUNT" " account.a" "a "
    ≡ listed (scoped_identifier_candidates "ACCOUNT" "a ") (trim_space " account.a")
equivalent-eq-listed_example = equivalent-eq-listed "ACCOUNT" " account.a" "a "

candidates-is_distinct_example : is_distinct (scoped_identifier_candidates "ORG" "org.a") ≡ true
candidates-is_distinct_example = candidates-is_distinct "ORG" "org.a"

abbrev secret : Secret
secret = record { entries = ("other", "x") ∷ ("api_key", " token ") ∷ [] }

session_from_secret-ok_example :
    (s : Secret) × (key : String) × (Path (Result KubeError Secret) (ok secret) (ok s))
    × (lookup "api_key" s.entries ≡ some key)
    × ((trim_space key == "") ≡ false)
    × ("token" ≡ trim_space key)
unfolding session_from_secret lookup new_session trim_space
session_from_secret-ok_example =
    session_from_secret-ok (ok secret) (record { api_key = "token" }) refl

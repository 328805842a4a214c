-- ===== src/Harness/Session.antt =====
-- internal/harness/session.go. A session is its API key: the SDK client behind it is configuration.
pub mod Laws
use harness_gitops_agent_ope.Common.{
  String, Bool, true, false, Option, none, some, List, [], ◌∷◌, Result, ok, err, if◌then◌else◌,
}
use harness_gitops_agent_ope.Text.{◌==◌, trim_space}
use harness_gitops_agent_ope.Harness.Errors.{Error, plain, kube, KubeError}

pub record Session : Type 0 where
  pub api_key : String

-- corev1.Secret, with the map `Data` as an association list
pub record Secret : Type 0 where
  pub entries : List (String × String)

unfoldable pub lookup : String → List (String × String) → Option String
lookup key [] = none
lookup key ((k, v) ∷ rest) = if k == key then some v else lookup key rest

unfoldable pub new_session : String → Result Error Session
new_session api_key =
    if trim_space api_key == ""
    then err (plain "harness API key is empty")
    else ok (record { api_key = trim_space api_key })

missing_key : Error
missing_key = kube (record { not_found = false; text = "api_key not found in secret" })

-- `SessionFromSecret`, from the answer to its read of the Secret
unfoldable pub session_from_secret : Result KubeError Secret → Result Error Session
unfolding lookup new_session missing_key
session_from_secret (err e) = err (kube e)
session_from_secret (ok secret) = elim (lookup "api_key" secret.entries) [
  | none ↦ err missing_key
  | some api_key ↦ if api_key == "" then err missing_key else new_session api_key
]

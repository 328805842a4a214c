-- ===== src/Harness/Errors.antt =====
-- internal/harness/errors.go. A Go error is a tree of wrapped errors; `errors.Is` and `errors.As`
-- search it depth first.
pub mod Laws
pub mod Messages
use harness_gitops_agent_ope.Common.{
  ℕ, String, Bool, true, false, ◌||◌, Option, none, some, if◌then◌else◌, nat_eq, leb, ite,
}
use harness_gitops_agent_ope.Text.{◌==◌, ◌<>◌, trim_space}

-- The empty verdict, which `VerdictOf` gives for nil, is `no_verdict`.
pub data Verdict : Type 0 where
  no_verdict absent conflict denied transient failed : Verdict

-- The package-level `errors.New` values of the controllers.
pub data Sentinel : Type 0 where
  project_mapping_already_exists project_mapping_create_outcome_unknown : Sentinel
  agent_already_exists agent_not_found agent_create_outcome_unknown : Sentinel
  harness_agent_already_exists harness_agent_ownership_unknown : Sentinel

-- An error of the Kubernetes client.
pub record KubeError : Type 0 where
  pub not_found : Bool  -- apierrors.IsNotFound
  pub text : String

-- An error of the Harness SDK or its transport. `timeout` is the answer of its method Timeout, if it
-- has one; the bodies are those of a GenericSwaggerError by value and by pointer.
pub record SdkError : Type 0 where
  pub text : String
  pub deadline_exceeded : Bool
  pub timeout : Option Bool
  pub swagger_body : Option String
  pub swagger_pointer_body : Option String

-- `plain` is an `fmt.Errorf` that wraps nothing, `wrap p e s` one with the format "p%ws", `both` one
-- with "%w: %w", and `join` is errors.Join of two errors.
pub data Error : Type 0 where
  plain : String → Error
  sentinel : Sentinel → Error
  kube : KubeError → Error
  sdk : SdkError → Error
  wrap : String → Error → String → Error
  both : Error → Error → Error
  join : Error → Error → Error
  response_error : String → String → ℕ → Verdict → Error → Error

Sentinel-discrete : Discrete Sentinel
Sentinel-discrete = hlevel

-- errors.Join, where nil is dropped
unfoldable pub join_errors : Option Error → Option Error → Option Error
join_errors none e = e
join_errors (some d) none = some d
join_errors (some d) (some e) = some (join d e)

-- http.Response, of which only the status code is read
unfoldable pub status_code_of : Option ℕ → ℕ
status_code_of none = 0
status_code_of (some code) = code

-- errors.Is(err, context.DeadlineExceeded)
unfoldable pub is_deadline_exceeded : Error → Bool
is_deadline_exceeded (sdk e) = e.deadline_exceeded
is_deadline_exceeded (wrap p e s) = is_deadline_exceeded e
is_deadline_exceeded (both d e) = is_deadline_exceeded d || is_deadline_exceeded e
is_deadline_exceeded (join d e) = is_deadline_exceeded d || is_deadline_exceeded e
is_deadline_exceeded (response_error o r c v e) = is_deadline_exceeded e
is_deadline_exceeded _ = false

unfoldable pub first_found {ℓ} : {A : Type ℓ} → Option A → Option A → Option A
first_found none b = b
first_found (some a) b = some a

-- errors.As at the interface of `Timeout() bool`
unfoldable pub timeout_of : Error → Option Bool
unfolding first_found
timeout_of (sdk e) = e.timeout
timeout_of (wrap p e s) = timeout_of e
timeout_of (both d e) = first_found (timeout_of d) (timeout_of e)
timeout_of (join d e) = first_found (timeout_of d) (timeout_of e)
timeout_of (response_error o r c v e) = timeout_of e
timeout_of _ = none

-- errors.As at nextgen.GenericSwaggerError
unfoldable pub swagger_body_of : Error → Option String
unfolding first_found
swagger_body_of (sdk e) = e.swagger_body
swagger_body_of (wrap p e s) = swagger_body_of e
swagger_body_of (both d e) = first_found (swagger_body_of d) (swagger_body_of e)
swagger_body_of (join d e) = first_found (swagger_body_of d) (swagger_body_of e)
swagger_body_of (response_error o r c v e) = swagger_body_of e
swagger_body_of _ = none

-- errors.As at *nextgen.GenericSwaggerError
unfoldable pub swagger_pointer_body_of : Error → Option String
unfolding first_found
swagger_pointer_body_of (sdk e) = e.swagger_pointer_body
swagger_pointer_body_of (wrap p e s) = swagger_pointer_body_of e
swagger_pointer_body_of (both d e) =
    first_found (swagger_pointer_body_of d) (swagger_pointer_body_of e)
swagger_pointer_body_of (join d e) =
    first_found (swagger_pointer_body_of d) (swagger_pointer_body_of e)
swagger_pointer_body_of (response_error o r c v e) = swagger_pointer_body_of e
swagger_pointer_body_of _ = none

-- the switch of `ClassifyResponse` on the status code, and what follows it
unfoldable pub classify_status : ℕ → Option Error → Verdict
classify_status status err =
    if nat_eq status 404
    then absent
    else if nat_eq status 409
    then conflict
    else if nat_eq status 401 || nat_eq status 403
    then denied
    else if nat_eq status 408 || nat_eq status 429 || leb 500 status
    then transient
    else elim err [
      | none ↦ failed
      | some e ↦ if is_deadline_exceeded e then transient else elim (timeout_of e) [
        | none ↦ failed
        | some timed_out ↦ if timed_out then transient else failed
      ]
    ]

unfoldable pub classify_response : Option ℕ → Option Error → Verdict
unfolding classify_status
classify_response none err = transient
classify_response (some status) err = classify_status status err

-- errors.As at *ResponseError, of which the verdict is read
unfoldable pub retained_verdict : Error → Option Verdict
unfolding first_found
retained_verdict (wrap p e s) = retained_verdict e
retained_verdict (both d e) = first_found (retained_verdict d) (retained_verdict e)
retained_verdict (join d e) = first_found (retained_verdict d) (retained_verdict e)
retained_verdict (response_error o r c v e) = some v
retained_verdict _ = none

unfoldable pub verdict_of : Option Error → Verdict
unfolding retained_verdict
verdict_of none = no_verdict
verdict_of (some e) = elim (retained_verdict e) [ none ↦ failed | some v ↦ v ]

unfoldable pub error_body : Error → String
unfolding swagger_body_of swagger_pointer_body_of
error_body e = elim (swagger_body_of e) [
  | some body ↦ trim_space body
  | none ↦ elim (swagger_pointer_body_of e) [ some body ↦ trim_space body | none ↦ "" ]
]

unfoldable pub api_error : String → String → Option ℕ → Option Error → Option Error
api_error operation resource response none = none
api_error operation resource response (some e) =
    let body = error_body e in
    let wrapped = if body == "" then e else wrap "" e (" (body: " <> body <> ")") in
    some (
      response_error operation resource (status_code_of response)
        (classify_response response (some e)) wrapped)

-- errors.Is at a package-level value
unfoldable pub same_sentinel : Sentinel → Sentinel → Bool
unfolding Sentinel-discrete
same_sentinel a b = ite (Sentinel-discrete a b) true false

unfoldable pub errors_is : Sentinel → Error → Bool
unfolding same_sentinel
errors_is target (sentinel s) = same_sentinel s target
errors_is target (wrap p e s) = errors_is target e
errors_is target (both d e) = errors_is target d || errors_is target e
errors_is target (join d e) = errors_is target d || errors_is target e
errors_is target (response_error o r c v e) = errors_is target e
errors_is _ _ = false

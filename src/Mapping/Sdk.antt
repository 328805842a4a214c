-- ===== src/Mapping/Sdk.antt =====
-- internal/resource/projectmapping/sdk.go: the implementation of `mappingReconcileAPI` by calls of the
-- Harness SDK. The SDK is a parameter, `MappingClient`. The calls made are passed on, the latest first.
pub mod Failures
pub mod Directory
use harness_gitops_agent_ope.Common.{
  ℕ, String, Bool, true, false, ◌||◌, Option, none, some, List, [], ◌∷◌, map, Result, ok, err,
  if◌then◌else◌,
}
use harness_gitops_agent_ope.Text.{◌==◌, ◌<>◌, to_lower, contains, quote}
use harness_gitops_agent_ope.Harness.Errors.{
  Error, plain, sentinel, wrap, both, project_mapping_already_exists,
  project_mapping_create_outcome_unknown, classify_response, error_body, api_error,
}
use harness_gitops_agent_ope.Harness.Replies.{
  Reply, is_absent, is_conflict, is_transient, returned, with_candidates,
}
use harness_gitops_agent_ope.Harness.Identifiers.{optional_string, scoped_identifier_candidates}
use harness_gitops_agent_ope.Harness.Session.{Session}
use harness_gitops_agent_ope.Mapping.Types.{ProjectMappingRequest, ProjectMapping}
use harness_gitops_agent_ope.Mapping.Client.{
  Calls, CreateArguments, DeleteArguments, ListArguments, MappingClient, V1AppProjectMapping,
  sent_create, sent_delete, sent_list,
}

-- `projectMappingFromSDK`
unfoldable pub project_mapping_from_sdk : V1AppProjectMapping → ProjectMapping
project_mapping_from_sdk mapping = record {
  identifier = mapping.identifier;
  agent_identifier = mapping.agent_identifier;
  account_identifier = mapping.account_identifier;
  org_identifier = mapping.org_identifier;
  project_identifier = mapping.project_identifier;
  argo_project_name = mapping.argo_project_name;
  auto_create_service_env = mapping.auto_create_service_env;
}

-- `mappingAPIError`, for an error that is not nil
unfoldable pub mapping_api_error : String → String → Option ℕ → Error → Option Error
mapping_api_error operation agent_identifier response e =
    api_error operation ("agentIdentifier=" <> quote agent_identifier) response (some e)

-- `isProjectMappingConflict`
unfoldable pub is_project_mapping_conflict : Option ℕ → Error → Bool
is_project_mapping_conflict response e =
    is_conflict (classify_response response (some e))
    || contains (to_lower (error_body e)) "already exists"

unfoldable pub list_arguments : ProjectMappingRequest → String → ListArguments
list_arguments request candidate = record {
  agent = candidate;
  account_identifier = request.account_identifier;
  org_identifier = optional_string request.agent.org_identifier;
  project_identifier = optional_string request.agent.project_identifier;
  argo_project_name = request.argo_project_name;
}

-- the loop of `List`, with `lastErr`
unfoldable pub list_candidates :
    MappingClient
    → Session
    → ProjectMappingRequest
    → Option Error
    → List String
    → Calls
    → Result Error (List ProjectMapping) × Calls
unfolding mapping_api_error project_mapping_from_sdk
list_candidates c session request last_err [] calls = (returned [] last_err, calls)
list_candidates c session request last_err (candidate ∷ rest) calls =
    let args = list_arguments request candidate in
    let reply = c.list calls session args in
    let calls' = sent_list args ∷ calls in
    elim (reply.answer) [
      | ok mappings ↦ (ok (map project_mapping_from_sdk mappings), calls')
      | err e ↦
          let last_err' =
            mapping_api_error "list AppProject mappings" candidate reply.http_response e in
          elim (is_absent (classify_response reply.http_response (some e))) [
            | true ↦ list_candidates c session request last_err' rest calls'
            | false ↦ (returned [] last_err', calls')
          ]
    ]

-- `List`
unfoldable pub sdk_list :
    MappingClient
    → Session
    → ProjectMappingRequest
    → Calls
    → Result Error (List ProjectMapping) × Calls
unfolding with_candidates
sdk_list c session request calls =
    with_candidates "list AppProject mappings: empty agent identifier"
      (scoped_identifier_candidates request.agent_scope request.agent_identifier)
      (list_candidates c session request none) calls

unfoldable pub create_arguments : ProjectMappingRequest → String → CreateArguments
create_arguments request candidate = record {
  agent = candidate;
  account_identifier = request.account_identifier;
  org_identifier = request.mapping.org_identifier;
  project_identifier = request.mapping.project_identifier;
  argo_project_name = request.argo_project_name;
  auto_create_service_env = request.auto_create_service_env;
}

abbrev pub no_mapping : ProjectMapping
no_mapping = record {
  identifier = "";
  agent_identifier = "";
  account_identifier = "";
  org_identifier = "";
  project_identifier = "";
  argo_project_name = "";
  auto_create_service_env = false;
}

-- the row of a create call that succeeded
unfoldable pub created_row : String → V1AppProjectMapping → Result Error ProjectMapping
unfolding project_mapping_from_sdk
created_row candidate response =
    let mapping = project_mapping_from_sdk response in
    if mapping.identifier == ""
    then err (
        wrap "" (sentinel project_mapping_create_outcome_unknown)
          ": Harness returned a successful response without an identifier")
    else if mapping.agent_identifier == ""
    then ok (record mapping { agent_identifier = candidate })
    else ok mapping

-- the loop of `Create`, with `lastErr`
unfoldable pub create_candidates :
    MappingClient
    → Session
    → ProjectMappingRequest
    → Option Error
    → List String
    → Calls
    → Result Error ProjectMapping × Calls
unfolding mapping_api_error created_row
create_candidates c session request last_err [] calls = (returned no_mapping last_err, calls)
create_candidates c session request last_err (candidate ∷ rest) calls =
    let args = create_arguments request candidate in
    let reply = c.create calls session args in
    let calls' = sent_create args ∷ calls in
    elim (reply.answer) [
      | ok response ↦ (created_row candidate response, calls')
      | err e ↦
          let last_err' =
            mapping_api_error "create AppProject mapping" candidate reply.http_response e in
          elim (is_project_mapping_conflict reply.http_response e) [
            | true ↦ (err (sentinel project_mapping_already_exists), calls')
            | false ↦ elim (is_transient (classify_response reply.http_response (some e))) [
              | true ↦ (err (both (sentinel project_mapping_create_outcome_unknown) e), calls')
              | false ↦ elim (is_absent (classify_response reply.http_response (some e))) [
                | true ↦ create_candidates c session request last_err' rest calls'
                | false ↦ (returned no_mapping last_err', calls')
              ]
            ]
          ]
    ]

-- `Create`
unfoldable pub sdk_create :
    MappingClient → Session → ProjectMappingRequest → Calls → Result Error ProjectMapping × Calls
unfolding with_candidates
sdk_create c session request calls =
    with_candidates "create AppProject mapping: empty agent identifier"
      (scoped_identifier_candidates request.agent_scope request.agent_identifier)
      (create_candidates c session request none) calls

unfoldable pub delete_arguments : ProjectMappingRequest → String → String → DeleteArguments
delete_arguments request mapping_id candidate = record {
  agent = candidate;
  mapping_id = mapping_id;
  account_identifier = request.account_identifier;
  org_identifier = optional_string request.mapping.org_identifier;
  project_identifier = optional_string request.mapping.project_identifier;
}

-- the loop of `Delete`
unfoldable pub delete_candidates :
    MappingClient
    → Session
    → ProjectMappingRequest
    → String
    → List String
    → Calls
    → Result Error (Unit {0}) × Calls
unfolding mapping_api_error
delete_candidates c session request mapping_id [] calls = (ok tt, calls)
delete_candidates c session request mapping_id (candidate ∷ rest) calls =
    let args = delete_arguments request mapping_id candidate in
    let reply = c.delete calls session args in
    let calls' = sent_delete args ∷ calls in
    elim (reply.answer) [
      | ok response ↦ (ok tt, calls')
      | err e ↦ elim (is_absent (classify_response reply.http_response (some e))) [
        | true ↦ delete_candidates c session request mapping_id rest calls'
        | false ↦ (
          returned tt
              (mapping_api_error "delete AppProject mapping" candidate reply.http_response e),
          calls',
        )
      ]
    ]

-- `Delete`
unfoldable pub sdk_delete :
    MappingClient
    → Session
    → ProjectMappingRequest
    → String
    → Calls
    → Result Error (Unit {0}) × Calls
unfolding with_candidates
sdk_delete c session request mapping_id calls =
    with_candidates "delete AppProject mapping: empty agent identifier"
      (scoped_identifier_candidates request.agent_scope request.agent_identifier)
      (delete_candidates c session request mapping_id) calls

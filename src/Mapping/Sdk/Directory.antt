-- ===== src/Mapping/Sdk/Directory.antt =====
-- The mapping adapter against a Harness that keeps, for each agent that it knows, a list of rows.
use harness_gitops_agent_ope.Common.{
  String, true, false, ◌≡◌, ◌⊎◌, inl, inr, refl, Option, none, some, List, [], ◌∷◌, map, Result, ok,
  err, arith,
}
use harness_gitops_agent_ope.Text.{◌==◌, trim_space}
use harness_gitops_agent_ope.Harness.Errors.{Error, classify_response, verdict_of, api_error}
use harness_gitops_agent_ope.Harness.Replies.{Reply, is_absent, returned, with_candidates}
use harness_gitops_agent_ope.Harness.Identifiers.{scoped_identifier_candidates}
use harness_gitops_agent_ope.Harness.Identifiers.Laws.{candidates-nonempty}
use harness_gitops_agent_ope.Harness.Session.{Session}
use harness_gitops_agent_ope.Harness.Answers.{Answers, Answers-cases, first_of}
use harness_gitops_agent_ope.Mapping.Types.{ProjectMappingRequest, ProjectMapping}
use harness_gitops_agent_ope.Mapping.Client.{
  V1AppProjectMapping, MappingClient, Calls, sent_list, sent_delete, ListArguments, DeleteArguments,
}
use harness_gitops_agent_ope.Mapping.Sdk.{
  list_arguments, delete_arguments, project_mapping_from_sdk, mapping_api_error, list_candidates,
  sdk_list, delete_candidates, sdk_delete,
}

-- the rows of the agents that Harness knows, by the identifier in the path of a call
abbrev pub Rows : Type 0
Rows = String → Option (List V1AppProjectMapping)

-- A delete call is accepted for an agent that is known.
abbrev pub deletion_of : Option (List V1AppProjectMapping) → Option (Unit {0})
deletion_of none = none
deletion_of (some rows) = some tt

pub record Serves (c : MappingClient) (session : Session) (directory : Rows) : Type 0 where
  pub lists :
      (calls : Calls) (args : ListArguments)
      → Answers (directory args.agent) (c.list calls session args)
  pub deletes :
      (calls : Calls) (args : DeleteArguments)
      → Answers (deletion_of (directory args.agent)) (c.delete calls session args)

-- The rows of the agent that was found, or an error that says that it is absent.
abbrev pub IsListed :
    Option (List V1AppProjectMapping) → Result Error (List ProjectMapping) → Type 0
IsListed (some rows) result = result ≡ ok (map project_mapping_from_sdk rows)
IsListed none result = (e : Error) × (result ≡ err e) × (is_absent (verdict_of (some e)) ≡ true)

abbrev IsAbsentError : Option Error → Type 0
IsAbsentError o = (e : Error) × (o ≡ some e) × (is_absent (verdict_of (some e)) ≡ true)

-- There is a candidate left, or the last error says that an agent is absent.
abbrev HasReason : List String → Option Error → Type 0
HasReason [] last_err = IsAbsentError last_err
HasReason (candidate ∷ rest) last_err = Unit

IsAbsentError-HasReason :
    (candidates : List String) (last_err : Option Error)
    → IsAbsentError last_err
    → HasReason candidates last_err
IsAbsentError-HasReason [] last_err absent = absent
IsAbsentError-HasReason (candidate ∷ rest) last_err absent = tt

mapping_api_error-absent :
    (operation candidate : String) (reply : Reply (List V1AppProjectMapping)) (e : Error)
    → is_absent (classify_response reply.http_response (some e)) ≡ true
    → IsAbsentError (mapping_api_error operation candidate reply.http_response e)
unfolding mapping_api_error api_error verdict_of
mapping_api_error-absent operation candidate reply e absent = (_, refl, absent)

module _ (c : MappingClient) (session : Session) (directory : Rows)
    (serves : Serves c session directory) (request : ProjectMappingRequest) where
  first_of-some :
      (candidate : String) (rest : List String) (rows : List V1AppProjectMapping)
      → directory candidate ≡ some rows
      → first_of directory (candidate ∷ rest) ≡ some rows
  unfolding first_of
  first_of-some candidate rest rows has = ground arith

  first_of-none :
      (candidate : String) (rest : List String)
      → directory candidate ≡ none
      → first_of directory (candidate ∷ rest) ≡ first_of directory rest
  unfolding first_of
  first_of-none candidate rest has = ground arith

  list-found :
      (candidate : String) (rest : List String) (last_err : Option Error) (calls : Calls)
      (rows : List V1AppProjectMapping)
      → (c.list calls session (list_arguments request candidate)).answer ≡ ok rows
      → (list_candidates c session request last_err (candidate ∷ rest) calls).0
        ≡ ok (map project_mapping_from_sdk rows)
  unfolding list_candidates
  list-found candidate rest last_err calls rows answered = ground arith

  list-missing :
      (candidate : String) (rest : List String) (last_err : Option Error) (calls : Calls)
      (e : Error)
      → (let reply = c.list calls session (list_arguments request candidate) in
          reply.answer ≡ err e
          → is_absent (classify_response reply.http_response (some e)) ≡ true
          → list_candidates c session request last_err (candidate ∷ rest) calls
            ≡ list_candidates c session request
                (mapping_api_error "list AppProject mappings" candidate reply.http_response e)
                rest
                (sent_list (list_arguments request candidate) ∷ calls))
  unfolding list_candidates
  list-missing candidate rest last_err calls e failed absent = ground arith

  -- the answer of the list call for a candidate
  list-cases :
      (candidate : String) (calls : Calls)
      → (let reply = c.list calls session (list_arguments request candidate) in
          ((rows : List V1AppProjectMapping) × (directory candidate ≡ some rows)
            × (reply.answer ≡ ok rows))
          ⊎ ((e : Error) × (directory candidate ≡ none)
              × (reply.answer ≡ err e)
              × (is_absent (classify_response reply.http_response (some e)) ≡ true)))
  unfolding list_arguments
  list-cases candidate calls =
      Answers-cases (directory candidate) (c.list calls session (list_arguments request candidate))
        (serves.lists calls (list_arguments request candidate))

  list-first_of :
      (candidates : List String) (last_err : Option Error) (calls : Calls)
      → HasReason candidates last_err
      → IsListed
          (first_of directory candidates)
          (list_candidates c session request last_err candidates calls).0
  list-first_of [] last_err calls (e, same, absent) =
      unfold list_candidates first_of returned in (e, rw same refl, absent)
  list-first_of (candidate ∷ rest) last_err calls reason = elim (list-cases candidate calls) [
    | inl (rows, has, answered) ↦
        rw
          (
            first_of-some candidate rest rows has,
            list-found candidate rest last_err calls rows answered,
          )
          refl
    | inr (e, has, answered, absent) ↦
        let reply = c.list calls session (list_arguments request candidate) in
        rw
          (
            first_of-none candidate rest has,
            list-missing candidate rest last_err calls e answered absent,
          )
          (list-first_of rest _ (sent_list (list_arguments request candidate) ∷ calls) (
            IsAbsentError-HasReason rest _
              (mapping_api_error-absent "list AppProject mappings" candidate reply e absent)))
  ]

  delete-first_of :
      (mapping_id : String) (candidates : List String) (calls : Calls)
      → (delete_candidates c session request mapping_id candidates calls).0 ≡ ok tt
  unfolding delete_candidates delete_arguments
  delete-first_of mapping_id [] calls = refl
  delete-first_of mapping_id (candidate ∷ rest) calls =
      let args = delete_arguments request mapping_id candidate in
      elim (Answers-cases (deletion_of (directory candidate)) (c.delete calls session args)
        (serves.deletes calls args)) [
          | inl (found, has, answered) ↦ ground arith
          | inr (e, has, answered, absent) ↦
              ground (arith, delete-first_of mapping_id rest (sent_delete args ∷ calls))
        ]

  -- Against a Harness that answers from the rows of the agents that it knows, 404 for what it does not
  -- know, a list call for an agent with an identifier gives the rows of the first candidate of the
  -- identifier that is known, or an error with the verdict Absent if none is, and a delete call
  -- succeeds in both cases.
  pub mapping_sdk-refines-directory :
      (mapping_id : String) (calls : Calls)
      → (trim_space request.agent_identifier == "") ≡ false
      → IsListed
          (first_of directory
            (scoped_identifier_candidates request.agent_scope request.agent_identifier))
          (sdk_list c session request calls).0
        × ((sdk_delete c session request mapping_id calls).0 ≡ ok tt)
  unfolding sdk_list sdk_delete with_candidates
  mapping_sdk-refines-directory mapping_id calls has_id =
      let (candidate, rest, nonempty) =
        candidates-nonempty request.agent_scope request.agent_identifier has_id in
      rw nonempty (
        list-first_of (candidate ∷ rest) none calls tt,
        delete-first_of mapping_id (candidate ∷ rest) calls,
      )

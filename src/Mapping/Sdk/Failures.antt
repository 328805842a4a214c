-- ===== src/Mapping/Sdk/Failures.antt =====
-- What a create of the mapping adapter may have done in Harness.
use harness_gitops_agent_ope.Common.{
  ℕ, suc, String, Bool, true, false, ◌||◌, ◌&&◌, not, leb, ltb, nat_eq, ◌≡◌, ◌≤◌, ◌⊎◌, inl, inr,
  refl, Option, none, some, List, [], ◌∷◌, Result, ok, err, if◌then◌else◌, arith, Bool-cases,
  Result-cases, Option-cases,
}
use harness_gitops_agent_ope.Harness.Errors.{
  Error, errors_is, project_mapping_already_exists, project_mapping_create_outcome_unknown,
  classify_response, classify_status,
}
use harness_gitops_agent_ope.Harness.Errors.Laws.{classify-absent}
use harness_gitops_agent_ope.Harness.Replies.{
  Reply, is_absent, is_conflict, is_transient, with_candidates,
}
use harness_gitops_agent_ope.Harness.Identifiers.{scoped_identifier_candidates}
use harness_gitops_agent_ope.Harness.Session.{Session}
use harness_gitops_agent_ope.Mapping.Types.{ProjectMappingRequest, ProjectMapping}
use harness_gitops_agent_ope.Mapping.Client.{V1AppProjectMapping, MappingClient, Calls, sent_create}
use harness_gitops_agent_ope.Mapping.Sdk.{
  create_arguments, is_project_mapping_conflict, created_row, create_candidates, sdk_create,
  mapping_api_error,
}

-- The statuses with which an HTTP server says that it refused a request: those of the client's errors,
-- but the request timeout, the conflict and the rate limit.
unfoldable pub is_refusal : ℕ → Bool
is_refusal status =
    leb 400 status
    && ltb status 500
    && not (nat_eq status 408)
    && not (nat_eq status 409)
    && not (nat_eq status 429)

-- A row may exist behind this answer: it is not an error with a refusal. This reads the status only, not
-- the verdict of the code.
unfoldable pub is_doubtful : Reply V1AppProjectMapping → Bool
unfolding is_refusal
is_doubtful reply = elim (reply.answer) [
  | ok response ↦ true
  | err e ↦ elim (reply.http_response) [ none ↦ true | some status ↦ not (is_refusal status) ]
]

-- The answer is an error beside a response that is none, such as one whose body broke off.
unfoldable pub is_unread : Reply V1AppProjectMapping → Bool
is_unread reply = elim (reply.answer) [
  | ok response ↦ false
  | err e ↦ elim (reply.http_response) [ none ↦ false | some status ↦ ltb status 400 ]
]

-- the last call is a create call with such an answer
unfoldable pub ends_unread : MappingClient → Session → Calls → Bool
unfolding is_unread
ends_unread c session (sent_create args ∷ calls) = is_unread (c.create calls session args)
ends_unread c session _ = false

-- the create calls with such an answer
unfoldable pub doubtful : MappingClient → Session → Calls → ℕ
doubtful c session [] = 0
doubtful c session (sent_create args ∷ calls) =
    if is_doubtful (c.create calls session args)
    then suc (doubtful c session calls)
    else doubtful c session calls
doubtful c session (_ ∷ calls) = doubtful c session calls

-- a row, or one of the two errors that keep the creation state uncertain
unfoldable pub is_open : Result Error ProjectMapping → Bool
is_open (ok row) = true
is_open (err e) =
    errors_is project_mapping_already_exists e || errors_is project_mapping_create_outcome_unknown e

abbrev pub IsCareful :
    MappingClient → Session → Calls → Result Error ProjectMapping × Calls → Type 0
IsCareful c session calls after =
    (doubtful c session after.1 ≤ suc (doubtful c session calls))
    × ((doubtful c session after.1 ≡ doubtful c session calls)
        ⊎ (is_open after.0 ≡ true)
        ⊎ (ends_unread c session after.1 ≡ true))

created_row-is_open :
    (candidate : String) (response : V1AppProjectMapping)
    → is_open (created_row candidate response) ≡ true
unfolding created_row is_open errors_is
created_row-is_open candidate response = ground arith

module _ (reply : Reply V1AppProjectMapping) (e : Error) (failed : reply.answer ≡ err e) where
  absent-is_refusal :
      is_absent (classify_response reply.http_response (some e)) ≡ true → is_doubtful reply ≡ false
  unfolding is_absent is_doubtful is_refusal
  absent-is_refusal absent =
      let missing = (classify-absent reply.http_response (some e)).0 (ground arith) in
      rw (failed, missing) refl

  -- what is neither a conflict nor transient was refused, or is no error of HTTP
  failed-is_refusal :
      is_project_mapping_conflict reply.http_response e ≡ false
      → is_transient (classify_response reply.http_response (some e)) ≡ false
      → (is_doubtful reply ≡ false) ⊎ (is_unread reply ≡ true)
  unfolding is_project_mapping_conflict is_doubtful is_unread is_refusal is_conflict is_transient
      classify_response classify_status
  failed-is_refusal other refused = elim (Option-cases reply.http_response) [
    | inl none_came ↦ ground arith
    | inr (status, came) ↦ ground arith
  ]

module _ (c : MappingClient) (session : Session) (request : ProjectMappingRequest) where
  candidates-IsCareful :
      (candidates : List String) (last_err : Option Error) (calls : Calls)
      → IsCareful c session calls (create_candidates c session request last_err candidates calls)
  unfolding create_candidates doubtful ends_unread is_open errors_is
  candidates-IsCareful [] last_err calls = (ground arith, inl refl)
  candidates-IsCareful (candidate ∷ rest) last_err calls =
      let args = create_arguments request candidate in
      let reply = c.create calls session args in
      elim (Result-cases reply.answer) [
        | inr (response, done) ↦
            (ground arith, inr (inl (ground (arith, created_row-is_open candidate response))))
        | inl (e, failed) ↦ elim (Bool-cases (is_project_mapping_conflict reply.http_response e)) [
          | inl conflict ↦ (ground arith, inr (inl (ground arith)))
          | inr other ↦
              elim (Bool-cases (is_transient (classify_response reply.http_response (some e)))) [
                | inl unclear ↦ (ground arith, inr (inl (ground arith)))
                | inr refused ↦
                    elim (Bool-cases (is_absent (classify_response reply.http_response (some e)))) [
                      | inl absent ↦
                          let last_err' =
                            mapping_api_error "create AppProject mapping" candidate
                              reply.http_response e in
                          let sure = absent-is_refusal reply e failed absent in
                          let (few, rest_open) =
                            candidates-IsCareful rest last_err' (sent_create args ∷ calls) in
                          (
                            ground arith,
                            elim rest_open [
                              | inl same ↦ inl (ground arith)
                              | inr (inl open_after) ↦ inr (inl (ground arith))
                              | inr (inr unread_after) ↦ inr (inr (ground arith))
                            ],
                          )
                      | inr denied ↦ elim (failed-is_refusal reply e failed other refused) [
                        | inl sure ↦ (ground arith, inl (ground arith))
                        | inr unread ↦ (ground arith, inr (inr (ground arith)))
                      ]
                    ]
              ]
        ]
      ]

  -- A create of the mapping adapter makes at most one call that Harness may have carried out, that is,
  -- one whose answer is no error beside a refusal, a status from 400 to 499 but 408, 409 and 429. If it
  -- made one, its result is a row or one of the two errors that keep the creation state uncertain, or
  -- the last answer is an error beside a response with a status below 400.
  pub mapping_create-IsCareful :
      (calls : Calls) → IsCareful c session calls (sdk_create c session request calls)
  unfolding sdk_create with_candidates
  mapping_create-IsCareful calls =
      elim (scoped_identifier_candidates request.agent_scope request.agent_identifier)
        as (λ candidates. IsCareful c session calls (
          with_candidates "create AppProject mapping: empty agent identifier" candidates
            (create_candidates c session request none) calls)) [
              | [] ↦ (ground arith, inl refl)
              | candidate ∷ rest ↦ candidates-IsCareful (candidate ∷ rest) none calls
            ]

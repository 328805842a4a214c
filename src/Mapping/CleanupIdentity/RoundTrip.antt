-- ===== src/Mapping/CleanupIdentity/RoundTrip.antt =====
-- What a reconcile records in the status, a cleanup reads back.
use harness_gitops_agent_ope.Common.{String, ◌≡◌, refl, ap, ◌∙◌, inl, inr, false, none, ok, arith}
use harness_gitops_agent_ope.Text.{◌==◌, trim_space, to_upper, eq_iff, eq_refl}
use harness_gitops_agent_ope.Text.Trim.{trim_space_idem}
use harness_gitops_agent_ope.Api.{
  ResourceOwnership, HarnessGitopsAgent, HarnessGitopsProjectMapping,
  HarnessGitopsProjectMappingRemoteStatus,
}
use harness_gitops_agent_ope.Mapping.Types.{ProjectMappingRequest}
use harness_gitops_agent_ope.Mapping.Scope.{
  resolve_project_mapping_request, base_request, resolved_agent_identifier,
}
use harness_gitops_agent_ope.Mapping.Scope.Laws.{IsScoped, resolve-facts}
use harness_gitops_agent_ope.Mapping.Remote.{remote_status_for_request}
use harness_gitops_agent_ope.Mapping.CleanupIdentity.Laws.{cleanup_request-accepts}
use harness_gitops_agent_ope.Mapping.CleanupIdentity.{
  empty_complaint, scope_complaint, project_mapping_cleanup_request, stored_request,
}

-- every part of the request is trimmed, the scope is one of the three, nothing needed is empty
record IsStorable (q : ProjectMappingRequest) : Type 0 where
  account : trim_space q.account_identifier ≡ q.account_identifier
  identifier : trim_space q.agent_identifier ≡ q.agent_identifier
  app_project : trim_space q.argo_project_name ≡ q.argo_project_name
  agent_org : trim_space q.agent.org_identifier ≡ q.agent.org_identifier
  agent_project : trim_space q.agent.project_identifier ≡ q.agent.project_identifier
  target_org : trim_space q.mapping.org_identifier ≡ q.mapping.org_identifier
  target_project : trim_space q.mapping.project_identifier ≡ q.mapping.project_identifier
  scope : to_upper (trim_space q.agent_scope) ≡ q.agent_scope
  has_account : (q.account_identifier == "") ≡ false
  has_identifier : (q.agent_identifier == "") ≡ false
  has_app_project : (q.argo_project_name == "") ≡ false

scope_upper :
    (q : ProjectMappingRequest) → IsScoped q → to_upper (trim_space q.agent_scope) ≡ q.agent_scope
unfolding trim_space to_upper
scope_upper q (inl (e, _)) = rw ((eq_iff q.agent_scope "PROJECT").0 e) refl
scope_upper q (inr (inl (e, _))) = rw ((eq_iff q.agent_scope "ORG").0 e) refl
scope_upper q (inr (inr (e, _))) = rw ((eq_iff q.agent_scope "ACCOUNT").0 e) refl

resolved_agent_identifier-trim :
    (agent : HarnessGitopsAgent)
    → trim_space (resolved_agent_identifier agent) ≡ resolved_agent_identifier agent
unfolding resolved_agent_identifier
resolved_agent_identifier-trim agent = ground (
  arith,
  trim_space_idem agent.status.agent_identifier,
  trim_space_idem agent.spec.existing_agent_identifier,
)

resolve-IsStorable :
    (agent : HarnessGitopsAgent) (mapping : HarnessGitopsProjectMapping) (q : ProjectMappingRequest)
    → resolve_project_mapping_request agent mapping ≡ ok q
    → IsStorable q × IsScoped q
unfolding base_request
resolve-IsStorable agent mapping q h =
    let (admitted, scoped, trimmed, same) = resolve-facts agent mapping q h in
    (
      record {
        account = rw same.0 (trim_space_idem agent.spec.account_id);
        identifier = rw same.1 (resolved_agent_identifier-trim agent);
        app_project = rw same.3 (trim_space_idem mapping.spec.app_project);
        agent_org = trimmed.0;
        agent_project = trimmed.1;
        target_org = trimmed.2;
        target_project = trimmed.3;
        scope = scope_upper q scoped;
        has_account = rw same.0 admitted.3;
        has_identifier = rw same.1 admitted.2;
        has_app_project = rw same.3 admitted.4;
      },
      scoped,
    )

module _ (text org project : String) where
  project_complaint :
      (org == "") ≡ false
      → (project == "") ≡ false
      → scope_complaint text "PROJECT" org project org project ≡ none
  unfolding scope_complaint
  project_complaint has_org has_project =
      rw (has_org, has_project, eq_refl org, eq_refl project) refl

  org_complaint : (org == "") ≡ false → scope_complaint text "ORG" org "" org project ≡ none
  unfolding scope_complaint
  org_complaint has_org = rw (has_org, eq_refl org) refl

  account_complaint : scope_complaint text "ACCOUNT" "" "" org project ≡ none
  unfolding scope_complaint
  account_complaint = refl

module _ (q : ProjectMappingRequest) (id : String) (ownership : ResourceOwnership)
    (ok_q : IsStorable q) (scoped : IsScoped q) where
  -- the remote that a reconcile records
  abbrev recorded : HarnessGitopsProjectMappingRemoteStatus
  recorded = record (remote_status_for_request q) { mapping_id = id; ownership = ownership }

  -- every text of it is the request's own
  twice : (s : String) → trim_space s ≡ s → trim_space (trim_space s) ≡ s
  twice s e = ap trim_space e ∙ e

  scope-twice : to_upper (trim_space (to_upper (trim_space q.agent_scope))) ≡ q.agent_scope
  scope-twice = ap (λ s. to_upper (trim_space s)) ok_q.scope ∙ ok_q.scope

  target_nonempty :
      ((q.mapping.org_identifier == "") ≡ false) × ((q.mapping.project_identifier == "") ≡ false)
  target_nonempty = elim scoped [
    | inl (_, (org, project, same)) ↦ rw same (org, project)
    | inr (inl (_, (org, _, same, project))) ↦ (rw same org, project)
    | inr (inr (_, (_, _, org, project))) ↦ (org, project)
  ]

  no_part_empty : (trim_space id == "") ≡ false → empty_complaint recorded ≡ none
  unfolding empty_complaint remote_status_for_request
  no_part_empty nonempty =
      rw
        (
          nonempty,
          twice q.account_identifier ok_q.account,
          ok_q.has_account,
          twice q.agent_identifier ok_q.identifier,
          ok_q.has_identifier,
          twice q.mapping.org_identifier ok_q.target_org,
          target_nonempty.0,
          twice q.mapping.project_identifier ok_q.target_project,
          target_nonempty.1,
          twice q.argo_project_name ok_q.app_project,
          ok_q.has_app_project,
        )
        refl

  stored_request-recorded : stored_request recorded ≡ q
  unfolding stored_request remote_status_for_request
  stored_request-recorded i = record {
    account_identifier = twice q.account_identifier ok_q.account i;
    agent_identifier = twice q.agent_identifier ok_q.identifier i;
    agent_scope = scope-twice i;
    agent = record {
      org_identifier = twice q.agent.org_identifier ok_q.agent_org i;
      project_identifier = twice q.agent.project_identifier ok_q.agent_project i;
    };
    mapping = record {
      org_identifier = twice q.mapping.org_identifier ok_q.target_org i;
      project_identifier = twice q.mapping.project_identifier ok_q.target_project i;
    };
    argo_project_name = twice q.argo_project_name ok_q.app_project i;
    auto_create_service_env = q.auto_create_service_env;
  }

  no_scope_complaint :
      (text : String)
      → scope_complaint text q.agent_scope q.agent.org_identifier q.agent.project_identifier
          q.mapping.org_identifier q.mapping.project_identifier
        ≡ none
  no_scope_complaint text = elim scoped [
    | inl (e, (org, project, same)) ↦
        rw ((eq_iff q.agent_scope "PROJECT").0 e, same) (project_complaint text _ _ org project)
    | inr (inl (e, (org, empty, same, project))) ↦
        rw ((eq_iff q.agent_scope "ORG").0 e, empty, same) (org_complaint text _ _ org)
    | inr (inr (e, (empty_org, empty_project, org, project))) ↦
        rw ((eq_iff q.agent_scope "ACCOUNT").0 e, empty_org, empty_project)
          (account_complaint text _ _)
  ]

  no_recorded_complaint :
      scope_complaint recorded.agent.scope
        (to_upper (trim_space recorded.agent.scope))
        (trim_space recorded.agent.org_id)
        (trim_space recorded.agent.project_id)
        (trim_space recorded.target.org_id)
        (trim_space recorded.target.project_id)
      ≡ none
  unfolding remote_status_for_request
  no_recorded_complaint =
      (λ i.
        scope_complaint recorded.agent.scope (scope-twice i)
          (twice q.agent.org_identifier ok_q.agent_org i)
          (twice q.agent.project_identifier ok_q.agent_project i)
          (twice q.mapping.org_identifier ok_q.target_org i)
          (twice q.mapping.project_identifier ok_q.target_project i))
      ∙ no_scope_complaint recorded.agent.scope

  recorded-read :
      (trim_space id == "") ≡ false
      → project_mapping_cleanup_request recorded ≡ ok (q, trim_space id)
  recorded-read nonempty =
      cleanup_request-accepts recorded (no_part_empty nonempty) no_recorded_complaint
      ∙ ap (λ x. ok (x, trim_space id)) stored_request-recorded

-- The round trip of a request through the status: what a reconcile records for a resolved request,
-- with any ID that is not blank and any ownership, a cleanup reads back as the same request and the
-- trimmed ID, for Agents of every scope.
pub cleanup_request-recorded :
    (agent : HarnessGitopsAgent) (mapping : HarnessGitopsProjectMapping) (q : ProjectMappingRequest)
    (id : String) (ownership : ResourceOwnership)
    → resolve_project_mapping_request agent mapping ≡ ok q
    → (trim_space id == "") ≡ false
    → project_mapping_cleanup_request
        (record (remote_status_for_request q) { mapping_id = id; ownership = ownership })
      ≡ ok (q, trim_space id)
cleanup_request-recorded agent mapping q id ownership h nonempty =
    let (storable, scoped) = resolve-IsStorable agent mapping q h in
    recorded-read q id ownership storable scoped nonempty

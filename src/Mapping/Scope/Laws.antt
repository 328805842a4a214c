-- ===== src/Mapping/Scope/Laws.antt =====
-- What a resolved request looks like.
use harness_gitops_agent_ope.Common.{
  String, ◌≡◌, ◌⊎◌, refl, true, false, Result, ok, err, arith, inl, inr, sym, Bool-cases,
}
use harness_gitops_agent_ope.Text.{◌==◌, trim_space}
use harness_gitops_agent_ope.Text.Trim.{trim_space_idem}
use harness_gitops_agent_ope.Api.{HarnessGitopsAgent, HarnessGitopsProjectMapping}
use harness_gitops_agent_ope.Mapping.Types.{ProjectMappingRequest}
use harness_gitops_agent_ope.Mapping.Scope.{
  resolve_project_mapping_request, resolve_scope, resolve_project_scope, resolve_org_scope,
  resolve_account_scope, resolved_agent_identifier, scope_input, base_request, ScopeInput,
}

-- The table of the scopes: which target a mapping may have for an Agent of each scope.
abbrev pub IsProjectScoped : ProjectMappingRequest → Type 0
IsProjectScoped q =
    ((q.agent.org_identifier == "") ≡ false)
    × ((q.agent.project_identifier == "") ≡ false)
    × (q.mapping ≡ q.agent)

abbrev pub IsOrgScoped : ProjectMappingRequest → Type 0
IsOrgScoped q =
    ((q.agent.org_identifier == "") ≡ false)
    × (q.agent.project_identifier ≡ "")
    × (q.mapping.org_identifier ≡ q.agent.org_identifier)
    × ((q.mapping.project_identifier == "") ≡ false)

abbrev pub IsAccountScoped : ProjectMappingRequest → Type 0
IsAccountScoped q =
    (q.agent.org_identifier ≡ "")
    × (q.agent.project_identifier ≡ "")
    × ((q.mapping.org_identifier == "") ≡ false)
    × ((q.mapping.project_identifier == "") ≡ false)

abbrev pub IsScoped : ProjectMappingRequest → Type 0
IsScoped q =
    (((q.agent_scope == "PROJECT") ≡ true) × IsProjectScoped q)
    ⊎ (((q.agent_scope == "ORG") ≡ true) × IsOrgScoped q)
    ⊎ (((q.agent_scope == "ACCOUNT") ≡ true) × IsAccountScoped q)

-- the inputs of the switch are trimmed
abbrev TrimmedInput : ScopeInput → Type 0
TrimmedInput i =
    (trim_space i.agent_org_id ≡ i.agent_org_id)
    × (trim_space i.agent_project_id ≡ i.agent_project_id)
    × (trim_space i.target_org_id ≡ i.target_org_id)
    × (trim_space i.target_project_id ≡ i.target_project_id)

-- and so are the scopes that it sets
abbrev pub TrimmedScopes : ProjectMappingRequest → Type 0
TrimmedScopes q =
    (trim_space q.agent.org_identifier ≡ q.agent.org_identifier)
    × (trim_space q.agent.project_identifier ≡ q.agent.project_identifier)
    × (trim_space q.mapping.org_identifier ≡ q.mapping.org_identifier)
    × (trim_space q.mapping.project_identifier ≡ q.mapping.project_identifier)

-- the parts of a request that the switch does not set
abbrev pub SameBase : ProjectMappingRequest → ProjectMappingRequest → Type 0
SameBase base q =
    (q.account_identifier ≡ base.account_identifier)
    × (q.agent_identifier ≡ base.agent_identifier)
    × (q.agent_scope ≡ base.agent_scope)
    × (q.argo_project_name ≡ base.argo_project_name)
    × (q.auto_create_service_env ≡ base.auto_create_service_env)

ok-ne-err {ℓ κ} : {A : Type ℓ} {E : Type κ} {x : A} {e : E} → Path (Result E A) (ok x) (err e) → ⊥
ok-ne-err h = cc

module _ (i : ScopeInput) (base q : ProjectMappingRequest) where
  project-IsScoped : resolve_project_scope i base ≡ ok q → IsProjectScoped q × SameBase base q
  unfolding resolve_project_scope
  project-IsScoped h = ground arith

  org-IsScoped : resolve_org_scope i base ≡ ok q → IsOrgScoped q × SameBase base q
  unfolding resolve_org_scope
  org-IsScoped h = ground arith

  account-IsScoped : resolve_account_scope i base ≡ ok q → IsAccountScoped q × SameBase base q
  unfolding resolve_account_scope
  account-IsScoped h = ground arith

  pub resolve_scope-cases :
      (text : String)
      → resolve_scope text i base ≡ ok q
      → (((i.scope == "PROJECT") ≡ true) × (resolve_project_scope i base ≡ ok q))
        ⊎ (((i.scope == "ORG") ≡ true) × (resolve_org_scope i base ≡ ok q))
        ⊎ (((i.scope == "ACCOUNT") ≡ true) × (resolve_account_scope i base ≡ ok q))
  unfolding resolve_scope
  resolve_scope-cases text h = elim (Bool-cases (i.scope == "PROJECT")) [
    | inl e ↦ inl (e, rw e at h)
    | inr e ↦ elim (Bool-cases (i.scope == "ORG")) [
      | inl e' ↦ inr (inl (e', rw (e, e') at h))
      | inr e' ↦ elim (Bool-cases (i.scope == "ACCOUNT")) [
        | inl e'' ↦ inr (inr (e'', rw (e, e', e'') at h))
        | inr e'' ↦ absurd (ok-ne-err (sym (rw (e, e', e'') at h)))
      ]
    ]
  ]

  trimmed_empty : trim_space "" ≡ ""
  unfolding trim_space
  trimmed_empty = refl

  project-Trimmed : TrimmedInput i → resolve_project_scope i base ≡ ok q → TrimmedScopes q
  unfolding resolve_project_scope
  project-Trimmed trimmed h = ground arith

  org-Trimmed : TrimmedInput i → resolve_org_scope i base ≡ ok q → TrimmedScopes q
  unfolding resolve_org_scope
  org-Trimmed trimmed h = ground (arith, trimmed_empty)

  account-Trimmed : TrimmedInput i → resolve_account_scope i base ≡ ok q → TrimmedScopes q
  unfolding resolve_account_scope
  account-Trimmed trimmed h = ground (arith, trimmed_empty)

  scope_of :
      (text : String)
      → i.scope ≡ base.agent_scope
      → q.agent_scope ≡ base.agent_scope
      → (i.scope == text) ≡ true
      → (q.agent_scope == text) ≡ true
  scope_of text same same' e = rw same' (rw same at e)

  resolve_scope-IsScoped :
      (text : String)
      → i.scope ≡ base.agent_scope
      → TrimmedInput i
      → resolve_scope text i base ≡ ok q
      → IsScoped q × TrimmedScopes q × SameBase base q
  resolve_scope-IsScoped text same trimmed h = elim (resolve_scope-cases text h) [
    | inl (e, k) ↦
        let (scoped, base') = project-IsScoped k in
        (inl (scope_of _ same base'.2 e, scoped), project-Trimmed trimmed k, base')
    | inr (inl (e, k)) ↦
        let (scoped, base') = org-IsScoped k in
        (inr (inl (scope_of _ same base'.2 e, scoped)), org-Trimmed trimmed k, base')
    | inr (inr (e, k)) ↦
        let (scoped, base') = account-IsScoped k in
        (inr (inr (scope_of _ same base'.2 e, scoped)), account-Trimmed trimmed k, base')
  ]

-- the tests before the switch
abbrev pub Admitted : HarnessGitopsAgent → HarnessGitopsProjectMapping → Type 0
Admitted agent mapping =
    ((agent.metadata.namespace == mapping.metadata.namespace) ≡ true)
    × ((trim_space mapping.spec.agent_ref_name == agent.metadata.name) ≡ true)
    × ((resolved_agent_identifier agent == "") ≡ false)
    × ((trim_space agent.spec.account_id == "") ≡ false)
    × ((trim_space mapping.spec.app_project == "") ≡ false)

module _ (agent : HarnessGitopsAgent) (mapping : HarnessGitopsProjectMapping)
    (q : ProjectMappingRequest) where
  pub resolve-Admitted :
      resolve_project_mapping_request agent mapping ≡ ok q
      → Admitted agent mapping
        × (resolve_scope agent.spec.scope (scope_input agent mapping) (base_request agent mapping)
            ≡ ok q)
  unfolding resolve_project_mapping_request
  resolve-Admitted h = ground arith

  scope_input-Trimmed : TrimmedInput (scope_input agent mapping)
  unfolding scope_input
  scope_input-Trimmed = (
    trim_space_idem agent.spec.org_id,
    trim_space_idem agent.spec.project_id,
    trim_space_idem mapping.spec.org_id,
    trim_space_idem mapping.spec.project_id,
  )

  pub resolve-facts :
      resolve_project_mapping_request agent mapping ≡ ok q
      → Admitted agent mapping
        × IsScoped q
        × TrimmedScopes q
        × SameBase (base_request agent mapping) q
  unfolding scope_input base_request
  resolve-facts h =
      let (admitted, k) = resolve-Admitted h in
      let (scoped, trimmed, same) =
        resolve_scope-IsScoped (scope_input agent mapping) (base_request agent mapping) q
          agent.spec.scope refl scope_input-Trimmed k in
      (admitted, scoped, trimmed, same)

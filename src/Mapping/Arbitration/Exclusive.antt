-- ===== src/Mapping/Arbitration/Exclusive.antt =====
-- At most one of the owners of a Harness mapping wins it.
use mathlib.Core.List.{Memᴰ}
use mathlib.Core.Path.{subst}
use harness_gitops_agent_ope.Common.{
  ◌≡◌, inl, inr, sym, ◌∙◌, true, false, String, none, some, List, ok, arith, Result-cases,
}
use harness_gitops_agent_ope.Text.{◌==◌, trim_space, eq_iff}
use harness_gitops_agent_ope.Api.{HarnessGitopsProjectMapping}
use harness_gitops_agent_ope.Mapping.Types.{ProjectMappingRequest}
use harness_gitops_agent_ope.Mapping.Environment.{Reconciler, State, listed_claims, record_event}
use harness_gitops_agent_ope.Mapping.Claims.{
  claim_owned, ProjectMappingClaim, ProjectMappingClaimDecision, project_mapping_claim_less,
  same_project_mapping_resource, rank,
}
use harness_gitops_agent_ope.Mapping.Claims.Order.{less-tie}
use harness_gitops_agent_ope.Mapping.Claims.Laws.{IsLeast}
use harness_gitops_agent_ope.Mapping.Eligibility.{status_priority, collect_claims, current_seen}
use harness_gitops_agent_ope.Mapping.Arbitration.{
  decide_claims, decide_listed, resolve_project_mapping_claim,
}
use harness_gitops_agent_ope.Mapping.Arbitration.Collected.{
  owner, collect_complete, collect_sound, decide-winner,
}

owner-rank :
    (a : HarnessGitopsProjectMapping) (w : ProjectMappingClaim)
    → project_mapping_claim_less (owner a) w ≡ false
    → w.priority ≡ claim_owned
unfolding owner project_mapping_claim_less rank
owner-rank a w h = ground arith

IsLeast-owner :
    (a : HarnessGitopsProjectMapping) (claims : List ProjectMappingClaim) (w : ProjectMappingClaim)
    → Memᴰ (owner a) claims
    → Memᴰ w claims
    → IsLeast w claims
    → Memᴰ (owner w.resource) claims × IsLeast (owner w.resource) claims
unfolding owner
IsLeast-owner a claims w m inside least =
    let rank_of : w.priority ≡ claim_owned = owner-rank a w (least (owner a) m) in
    let same : w ≡ owner w.resource = λ i. record { resource = w.resource; priority = rank_of i } in
    (subst (λ x. Memᴰ x claims) same inside, subst (λ x. IsLeast x claims) same least)

same-names :
    (x a : HarnessGitopsProjectMapping)
    → same_project_mapping_resource x a ≡ true
    → ((x.metadata.namespace == a.metadata.namespace) ≡ true)
      × ((x.metadata.name == a.metadata.name) ≡ true)
unfolding same_project_mapping_resource
same-names x a h = ground arith

eq_trans :
    (s t u v : String) → (s == u) ≡ true → (t == v) ≡ true → (s == t) ≡ true → (u == v) ≡ true
eq_trans s t u v h k l =
    (eq_iff u v).1 (sym ((eq_iff s u).0 h) ∙ (eq_iff s t).0 l ∙ (eq_iff t v).0 k)

-- a decision for a resource that the list holds as an owner
Decides :
    HarnessGitopsProjectMapping
    → String
    → List HarnessGitopsProjectMapping
    → ProjectMappingClaimDecision
    → Type 0
Decides a id items d =
    (r : Reconciler) × (request : ProjectMappingRequest) × (s : State) × (claims : List
      ProjectMappingClaim)
    × ((collect_claims r a request id none items s).0 ≡ ok claims)
    × (decide_claims a id none (current_seen a items) claims ≡ ok d)

-- the winner of such a decision is an owner in the list, and no owner in the list claims before it
Decides-owner :
    (a : HarnessGitopsProjectMapping) (id : String) (items : List HarnessGitopsProjectMapping)
    (d : ProjectMappingClaimDecision)
    → Decides a id items d
    → Memᴰ a items
    → status_priority a id ≡ some claim_owned
    → Memᴰ d.winner.resource items
      × (status_priority d.winner.resource id ≡ some claim_owned)
      × ((b : HarnessGitopsProjectMapping)
          → Memᴰ b items
          → status_priority b id ≡ some claim_owned
          → project_mapping_claim_less (owner b) (owner d.winner.resource) ≡ false)
      × (d.current_wins ≡ same_project_mapping_resource d.winner.resource a)
unfolding Decides
Decides-owner a id items d (r, request, s, claims, collected, decided) m owned =
    let (inside, least, wins) =
      decide-winner r a request id (current_seen a items) claims d decided in
    let mine = collect_complete r a request id items s claims collected a m owned in
    let (inside', least') = IsLeast-owner a claims d.winner mine inside least in
    let (listed, is_owner) =
      collect_sound r a request id items s claims collected d.winner.resource inside' in
    (
      listed,
      is_owner,
      (λ b n owns.
          least' (owner b) (collect_complete r a request id items s claims collected b n owns)),
      wins,
    )

resolve-Decides :
    (r : Reconciler) (request : ProjectMappingRequest) (id : String) (s : State)
    (items : List HarnessGitopsProjectMapping) (d : ProjectMappingClaimDecision)
    → r.env.list_mappings s.trace ≡ ok items
    → (resolve_project_mapping_claim r request id none s).0 ≡ ok d
    → Decides s.mapping (trim_space id) items d
unfolding resolve_project_mapping_claim decide_listed Decides
resolve-Decides r request id s items d answer h =
    let s' = record_event listed_claims s in
    let collected = collect_claims r s.mapping request (trim_space id) none items s' in
    elim (Result-cases collected.0) [
      | inl (e, failed) ↦ grind (arith)
      | inr (claims, done) ↦ (r, request, s', claims, done, grind (arith))
    ]

-- Two resources whose statuses record Managed or Adopted ownership of one Harness ID, and that see
-- the same list of resources, both in it: if each wins its arbitration of the ID, whatever the
-- requests, the answers for Agents and the moments are, they have the same namespace and name.
pub one-owner-wins :
    (r₁ r₂ : Reconciler) (request₁ request₂ : ProjectMappingRequest) (id : String) (s₁ s₂ : State)
    (items : List HarnessGitopsProjectMapping) (d₁ d₂ : ProjectMappingClaimDecision)
    → r₁.env.list_mappings s₁.trace ≡ ok items
    → r₂.env.list_mappings s₂.trace ≡ ok items
    → Memᴰ s₁.mapping items
    → Memᴰ s₂.mapping items
    → status_priority s₁.mapping (trim_space id) ≡ some claim_owned
    → status_priority s₂.mapping (trim_space id) ≡ some claim_owned
    → (resolve_project_mapping_claim r₁ request₁ id none s₁).0 ≡ ok d₁
    → (resolve_project_mapping_claim r₂ request₂ id none s₂).0 ≡ ok d₂
    → d₁.current_wins ≡ true
    → d₂.current_wins ≡ true
    → ((s₁.mapping.metadata.namespace == s₂.mapping.metadata.namespace) ≡ true)
      × ((s₁.mapping.metadata.name == s₂.mapping.metadata.name) ≡ true)
unfolding owner
one-owner-wins r₁ r₂ request₁ request₂ id s₁ s₂ items d₁ d₂ answer₁ answer₂ in₁ in₂ owned₁ owned₂ h₁
      h₂ wins₁ wins₂ =
    let (listed₁, owns₁, least₁, same₁) =
      Decides-owner s₁.mapping (trim_space id) items d₁
        (resolve-Decides r₁ request₁ id s₁ items d₁ answer₁ h₁) in₁ owned₁ in
    let (listed₂, owns₂, least₂, same₂) =
      Decides-owner s₂.mapping (trim_space id) items d₂
        (resolve-Decides r₂ request₂ id s₂ items d₂ answer₂ h₂) in₂ owned₂ in
    let (namespaces, names) =
      less-tie (owner d₁.winner.resource) (owner d₂.winner.resource)
        (least₂ d₁.winner.resource listed₁ owns₁) (least₁ d₂.winner.resource listed₂ owns₂) in
    let (ns₁, n₁) = same-names d₁.winner.resource s₁.mapping (sym same₁ ∙ wins₁) in
    let (ns₂, n₂) = same-names d₂.winner.resource s₂.mapping (sym same₂ ∙ wins₂) in
    (eq_trans _ _ _ _ ns₁ ns₂ namespaces, eq_trans _ _ _ _ n₁ n₂ names)

-- ===== src/Mapping/Arbitration/Collected.antt =====
-- The claims that the loop over the listed resources collects for owners, and the decision between them.
use mathlib.Core.List.{Memᴰ}
use mathlib.Core.Path.{subst}
use harness_gitops_agent_ope.Common.{
  ◌≡◌, ◌⊎◌, inl, inr, sym, ap, ◌∙◌, Bool, String, Option, none, some, List, [], ◌∷◌, Result, ok,
  err, arith, Result-cases,
}
use harness_gitops_agent_ope.Api.{HarnessGitopsProjectMapping}
use harness_gitops_agent_ope.Mapping.Types.{ProjectMappingRequest}
use harness_gitops_agent_ope.Mapping.Environment.{Reconciler, State}
use harness_gitops_agent_ope.Mapping.Claims.{
  ClaimPriority, claim_owned, ProjectMappingClaim, ProjectMappingClaimDecision,
  same_project_mapping_resource, sort_claims,
}
use harness_gitops_agent_ope.Mapping.Claims.Laws.{IsLeast, sort-IsLeast}
use harness_gitops_agent_ope.Mapping.Eligibility.{
  status_priority, project_mapping_claim_priority, candidate_claim, equivalent_claim,
  provisional_claim, add_claim, collect_claims,
}
use harness_gitops_agent_ope.Mapping.Arbitration.{add_unseen, decide_sorted, decide_claims}

-- the claim of an owner
unfoldable pub owner : HarnessGitopsProjectMapping → ProjectMappingClaim
owner a = record { resource = a; priority = claim_owned }

pub ok-injective {ℓ κ} :
    {A : Type ℓ} {E : Type κ} {x y : A} → Path (Result E A) (ok x) (ok y) → x ≡ y
ok-injective h = cc

ok-ne-err {ℓ κ} : {A : Type ℓ} {E : Type κ} {x : A} {e : E} → Path (Result E A) (ok x) (err e) → ⊥
ok-ne-err h = cc

add_claim-tail :
    (b : HarnessGitopsProjectMapping) (claim : Option ClaimPriority)
    (rest : List ProjectMappingClaim) {c : ProjectMappingClaim}
    → Memᴰ c rest
    → Memᴰ c (add_claim b claim rest)
add_claim-tail b none rest m = m
add_claim-tail b (some priority) rest m = Memᴰ.tail m

add_claim-cases :
    (a b : HarnessGitopsProjectMapping) (claim : Option ClaimPriority)
    (rest : List ProjectMappingClaim)
    → Memᴰ (owner a) (add_claim b claim rest)
    → ((a ≡ b) × (claim ≡ some claim_owned)) ⊎ Memᴰ (owner a) rest
unfolding owner
add_claim-cases a b none rest m = inr m
add_claim-cases a b (some priority) rest m = elim m [
  | Memᴰ.head same ↦ inl (ap (λ c. c.resource) same, ap (λ c. some c.priority) (sym same))
  | Memᴰ.tail later ↦ inr later
]

module _ (r : Reconciler) (current : HarnessGitopsProjectMapping) (request : ProjectMappingRequest)
    (id : String) where
  priority-owned :
      (a : HarnessGitopsProjectMapping) (s : State)
      → status_priority a id ≡ some claim_owned
      → (candidate_claim r current a request id none s).0 ≡ ok (some claim_owned)
  unfolding candidate_claim project_mapping_claim_priority
  priority-owned a s owned = grind (arith)

  owned-priority :
      (a : HarnessGitopsProjectMapping) (s : State)
      → (candidate_claim r current a request id none s).0 ≡ ok (some claim_owned)
      → status_priority a id ≡ some claim_owned
  unfolding candidate_claim project_mapping_claim_priority equivalent_claim provisional_claim
  owned-priority a s claimed = grind (arith)

  -- a round of the loop that goes on
  Round :
      HarnessGitopsProjectMapping
      → List HarnessGitopsProjectMapping
      → State
      → List ProjectMappingClaim
      → Type 0
  Round a items s claims =
      (claim : Option ClaimPriority) × (rest : List ProjectMappingClaim) × ((candidate_claim r
          current a request id none s).0
        ≡ ok claim)
      × ((collect_claims r current request id none items
            (candidate_claim r current a request id none s).1).0
          ≡ ok rest)
      × (claims ≡ add_claim a claim rest)

  collect-Round :
      (a : HarnessGitopsProjectMapping) (items : List HarnessGitopsProjectMapping) (s : State)
      (claims : List ProjectMappingClaim)
      → (collect_claims r current request id none (a ∷ items) s).0 ≡ ok claims
      → Round a items s claims
  unfolding collect_claims Round
  collect-Round a items s claims h =
      let answer = candidate_claim r current a request id none s in
      elim (Result-cases answer.0) [
        | inl (e, failed) ↦ grind (arith)
        | inr (claim, answered) ↦
            elim (Result-cases (collect_claims r current request id none items answer.1).0) [
              | inl (e, failed) ↦ grind (arith)
              | inr (rest, collected) ↦ (claim, rest, answered, collected, grind (arith))
            ]
      ]

  -- an owner in the list claims
  pub collect_complete :
      (items : List HarnessGitopsProjectMapping) (s : State) (claims : List ProjectMappingClaim)
      → (collect_claims r current request id none items s).0 ≡ ok claims
      → (a : HarnessGitopsProjectMapping) → Memᴰ a items
      → status_priority a id ≡ some claim_owned
      → Memᴰ (owner a) claims
  unfolding owner Round collect_claims
  collect_complete [] s claims h a m owned = elim m [ ]
  collect_complete (b ∷ items) s claims h a m owned =
      let (claim, rest, answered, collected, e) = collect-Round b items s claims h in
      elim m [
        | Memᴰ.head same ↦
            let first : claim ≡ some claim_owned =
              ok-injective (sym answered ∙ priority-owned b s (rw (sym same) owned)) in
            rw (e, first) (Memᴰ.head (ap owner same))
        | Memᴰ.tail inside ↦
            let later = collect_complete items _ rest collected a inside owned in
            rw e (add_claim-tail b claim rest later)
      ]

  -- a claim as an owner comes from an owner in the list
  pub collect_sound :
      (items : List HarnessGitopsProjectMapping) (s : State) (claims : List ProjectMappingClaim)
      → (collect_claims r current request id none items s).0 ≡ ok claims
      → (a : HarnessGitopsProjectMapping) → Memᴰ (owner a) claims
      → Memᴰ a items × (status_priority a id ≡ some claim_owned)
  unfolding owner Round collect_claims
  collect_sound [] s claims h a m = elim (subst (Memᴰ (owner a)) (sym (ok-injective h)) m) [ ]
  collect_sound (b ∷ items) s claims h a m =
      let (claim, rest, answered, collected, e) = collect-Round b items s claims h in
      elim (add_claim-cases a b claim rest (subst (Memᴰ (owner a)) e m)) [
        | inl (same, first) ↦
            (Memᴰ.head same, rw same (owned-priority b s (answered ∙ ap ok first)))
        | inr later ↦
            let (inside, owned) = collect_sound items _ rest collected a later in
            (Memᴰ.tail inside, owned)
      ]

  pub decide-winner :
      (seen : Bool) (claims : List ProjectMappingClaim) (d : ProjectMappingClaimDecision)
      → decide_claims current id none seen claims ≡ ok d
      → Memᴰ d.winner claims
        × IsLeast d.winner claims
        × (d.current_wins ≡ same_project_mapping_resource d.winner.resource current)
  unfolding decide_claims add_unseen decide_sorted sort_claims
  decide-winner seen [] d h = absurd (ok-ne-err (sym h))
  decide-winner seen (c ∷ claims) d h =
      let (w, rest, e, m, least) = sort-IsLeast c claims in
      let same : Path ProjectMappingClaimDecision
          (record { current_wins = same_project_mapping_resource w.resource current; winner = w })
          d =
        ok-injective (rw e at h) in
      let winner : w ≡ d.winner = ap (λ x. x.winner) same in
      (
        subst (λ x. Memᴰ x (c ∷ claims)) winner m,
        subst (λ x. IsLeast x (c ∷ claims)) winner least,
        sym (ap (λ x. x.current_wins) same)
            ∙ ap (λ x. same_project_mapping_resource x.resource current) winner,
      )

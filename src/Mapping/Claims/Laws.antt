-- ===== src/Mapping/Claims/Laws.antt =====
-- Sorting claims puts a least one first.
use mathlib.Core.List.{Memᴰ}
use harness_gitops_agent_ope.Common.{
  ◌≡◌, inl, inr, refl, ap, ◌∙◌, false, List, [], ◌∷◌, Bool-cases, if◌then◌else◌,
}
use harness_gitops_agent_ope.Mapping.Claims.{
  ProjectMappingClaim, project_mapping_claim_less, insert_claim, sort_claims,
}
use harness_gitops_agent_ope.Mapping.Claims.Order.{not_less_trans, less_asym, less_irrefl}

-- no claim is less than the given one
abbrev pub IsLeast : ProjectMappingClaim → List ProjectMappingClaim → Type 0
IsLeast w claims =
    (c : ProjectMappingClaim) → Memᴰ c claims → project_mapping_claim_less c w ≡ false

-- the least of two claims of which the first is least in a list
choose-IsLeast :
    (c d : ProjectMappingClaim) (claims : List ProjectMappingClaim)
    → Memᴰ d claims
    → IsLeast d claims
    → let w = if project_mapping_claim_less d c then d else c in
      Memᴰ w (c ∷ claims) × IsLeast w (c ∷ claims)
choose-IsLeast c d claims m least = elim (Bool-cases (project_mapping_claim_less d c)) [
  | inl e ↦ rw e (
    Memᴰ.tail m,
    λ x n. elim n [ Memᴰ.head same ↦ rw same (less_asym d c e) | Memᴰ.tail n' ↦ least x n' ],
  )
  | inr e ↦ rw e (
    Memᴰ.head refl,
    λ x n. elim n [
      | Memᴰ.head same ↦ rw same (less_irrefl c)
      | Memᴰ.tail n' ↦ not_less_trans x d c (least x n') e
    ],
  )
]

insert-cons :
    (c w : ProjectMappingClaim) (rest : List ProjectMappingClaim)
    → insert_claim c (w ∷ rest)
      ≡ (if project_mapping_claim_less w c then w else c)
        ∷ (if project_mapping_claim_less w c then insert_claim c rest else w ∷ rest)
unfolding insert_claim
insert-cons c w rest = elim (Bool-cases (project_mapping_claim_less w c)) [
  | inl e ↦ rw e refl
  | inr e ↦ rw e refl
]

-- A sorted list of claims, if it is not empty, begins with a claim of the input that no claim of the input is less than.
pub sort-IsLeast :
    (c : ProjectMappingClaim) (claims : List ProjectMappingClaim)
    → (w : ProjectMappingClaim) × (rest : List ProjectMappingClaim) × (sort_claims (c ∷ claims)
        ≡ w ∷ rest)
      × Memᴰ w (c ∷ claims)
      × IsLeast w (c ∷ claims)
unfolding sort_claims insert_claim
sort-IsLeast c [] = (
  c,
  [],
  refl,
  Memᴰ.head refl,
  λ x n. elim n [ Memᴰ.head same ↦ rw same (less_irrefl c) | Memᴰ.tail n' ↦ elim n' [ ] ],
)
sort-IsLeast c (d ∷ claims) =
    let (w, rest, e, m, least) = sort-IsLeast d claims in
    let (inside, best) = choose-IsLeast c w (d ∷ claims) m least in
    (
      (if project_mapping_claim_less w c then w else c),
      (if project_mapping_claim_less w c then insert_claim c rest else w ∷ rest),
      ap (insert_claim c) e ∙ insert-cons c w rest,
      inside,
      best,
    )

-- ===== src/Mapping/Claims/Order.antt =====
-- The comparison of claims: a strict order, whose ties are one and the same resource.
use harness_gitops_agent_ope.Common.{
  ℕ, ◌≡◌, Bool, true, false, not, String, arith, if◌then◌else◌, nat_eq, ltb, Bool-cases, inl, inr,
}
use harness_gitops_agent_ope.Text.{◌==◌, str_lt}
use harness_gitops_agent_ope.Text.Order.{
  str_lt_trans, not_lt_trans, str_lt_asym, str_lt_total, lt-left, lt-right, eq-left, eq-right,
  lt-differ, eq_comm,
}
use harness_gitops_agent_ope.Mapping.Claims.{ProjectMappingClaim, project_mapping_claim_less, rank}

-- one level of the lexicographic order
abbrev by_number : ℕ → ℕ → Bool → Bool
by_number m n rest = if not (nat_eq m n) then ltb m n else rest

abbrev by_text : String → String → Bool → Bool
by_text s t rest = if not (s == t) then str_lt s t else rest

by_number-not_trans :
    (m n o : ℕ) (x y z : Bool)
    → (x ≡ false → y ≡ false → z ≡ false)
    → by_number m n x ≡ false
    → by_number n o y ≡ false
    → by_number m o z ≡ false
by_number-not_trans m n o x y z rest h k = ground arith

by_text-not_trans :
    (s t u : String) (x y z : Bool)
    → (x ≡ false → y ≡ false → z ≡ false)
    → by_text s t x ≡ false
    → by_text t u y ≡ false
    → by_text s u z ≡ false
by_text-not_trans s t u x y z rest h k = ground (
  arith,
  lt-left s t u,
  eq_comm s t,
  eq-left s t u,
  lt-right t u s,
  eq-right t u s,
  not_lt_trans s t u,
  lt-differ s u,
  lt-differ u s,
  str_lt_total s t,
  str_lt_total t u,
  eq_comm s u,
  str_lt_trans u t s,
  str_lt_asym s u,
  str_lt_asym u s,
)

by_number-asym :
    (m n : ℕ) (x y : Bool)
    → (x ≡ true → y ≡ false)
    → by_number m n x ≡ true
    → by_number n m y ≡ false
by_number-asym m n x y rest h = ground arith

by_text-asym :
    (s t : String) (x y : Bool)
    → (x ≡ true → y ≡ false)
    → by_text s t x ≡ true
    → by_text t s y ≡ false
by_text-asym s t x y rest h = ground (arith, eq_comm t s, eq_comm s t, str_lt_asym s t)

by_number-tie :
    (m n : ℕ) (x y : Bool)
    → by_number m n x ≡ false
    → by_number n m y ≡ false
    → (m ≡ n) × (x ≡ false) × (y ≡ false)
by_number-tie m n x y h k = ground arith

by_text-tie :
    (s t : String) (x y : Bool)
    → by_text s t x ≡ false
    → by_text t s y ≡ false
    → ((s == t) ≡ true) × (x ≡ false) × (y ≡ false)
by_text-tie s t x y h k = ground (arith, str_lt_total s t, eq_comm s t, eq_comm t s)

pub not_less_trans :
    (a b c : ProjectMappingClaim)
    → project_mapping_claim_less a b ≡ false
    → project_mapping_claim_less b c ≡ false
    → project_mapping_claim_less a c ≡ false
unfolding project_mapping_claim_less
not_less_trans a b c =
    let ma = a.resource.metadata in
    let mb = b.resource.metadata in
    let mc = c.resource.metadata in
    by_number-not_trans (rank a.priority) (rank b.priority) (rank c.priority) _ _ _ (
      by_number-not_trans ma.creation_timestamp mb.creation_timestamp mc.creation_timestamp _ _ _ (
        by_text-not_trans ma.namespace mb.namespace mc.namespace _ _ _
          (by_text-not_trans ma.name mb.name mc.name _ _ _ (not_lt_trans ma.uid mb.uid mc.uid))))

pub less_asym :
    (a b : ProjectMappingClaim)
    → project_mapping_claim_less a b ≡ true
    → project_mapping_claim_less b a ≡ false
unfolding project_mapping_claim_less
less_asym a b =
    let ma = a.resource.metadata in
    let mb = b.resource.metadata in
    by_number-asym (rank a.priority) (rank b.priority) _ _ (
      by_number-asym ma.creation_timestamp mb.creation_timestamp _ _ (
        by_text-asym ma.namespace mb.namespace _ _
          (by_text-asym ma.name mb.name _ _ (str_lt_asym ma.uid mb.uid))))

-- two claims of which neither is less are claims of one resource
pub less-tie :
    (a b : ProjectMappingClaim)
    → project_mapping_claim_less a b ≡ false
    → project_mapping_claim_less b a ≡ false
    → ((a.resource.metadata.namespace == b.resource.metadata.namespace) ≡ true)
      × ((a.resource.metadata.name == b.resource.metadata.name) ≡ true)
unfolding project_mapping_claim_less
less-tie a b h k =
    let ma = a.resource.metadata in
    let mb = b.resource.metadata in
    let (_, h₁, k₁) = by_number-tie (rank a.priority) (rank b.priority) _ _ h k in
    let (_, h₂, k₂) = by_number-tie ma.creation_timestamp mb.creation_timestamp _ _ h₁ k₁ in
    let (namespaces, h₃, k₃) = by_text-tie ma.namespace mb.namespace _ _ h₂ k₂ in
    let (names, h₄, k₄) = by_text-tie ma.name mb.name _ _ h₃ k₃ in (namespaces, names)

pub less_irrefl : (c : ProjectMappingClaim) → project_mapping_claim_less c c ≡ false
less_irrefl c = elim (Bool-cases (project_mapping_claim_less c c)) [
  | inl e ↦ less_asym c c e
  | inr e ↦ e
]

-- ===== src/Harness/Answers.antt =====
-- A Harness that answers from what it has, by the identifier in the path of a call, with the status 404 for
-- what it does not have. A specification that the adapters are compared with.
use harness_gitops_agent_ope.Common.{
  String, true, ◌≡◌, ◌⊎◌, inl, inr, refl, Option, none, some, List, [], ◌∷◌, ok, err,
}
use harness_gitops_agent_ope.Harness.Errors.{Error, classify_response}
use harness_gitops_agent_ope.Harness.Replies.{Reply, is_absent}

-- what is there for the first candidate for which something is
unfoldable pub first_of {ℓ} : {A : Type ℓ} → (String → Option A) → List String → Option A
first_of has [] = none
first_of has (candidate ∷ rest) = elim (has candidate) [
  | some value ↦ some value
  | none ↦ first_of has rest
]

-- the candidates up to the first for which something is there, and all if nothing is
unfoldable pub tried_of {ℓ} : {A : Type ℓ} → (String → Option A) → List String → List String
tried_of has [] = []
tried_of has (candidate ∷ rest) =
    candidate ∷ elim (has candidate) [ some value ↦ [] | none ↦ tried_of has rest ]

-- one call for each candidate, on top of the calls before: the latest is first
unfoldable pub sent_for {ℓ} : {C : Type ℓ} → (String → C) → List String → List C → List C
sent_for call [] calls = calls
sent_for call (candidate ∷ rest) calls = sent_for call rest (call candidate ∷ calls)

-- An answer for a value that is there, and one of status 404 for none.
abbrev pub Answers : {A : Type 0} → Option A → Reply A → Type 0
Answers (some value) reply = reply.answer ≡ ok value
Answers none reply = (e : Error) × (reply.answer ≡ err e) × (reply.http_response ≡ some 404)

missing-is_absent : (e : Error) → is_absent (classify_response (some 404) (some e)) ≡ true
unfolding classify_response is_absent
missing-is_absent e = refl

pub Answers-cases :
    {A : Type 0} (o : Option A) (reply : Reply A)
    → Answers o reply
    → ((a : A) × (o ≡ some a) × (reply.answer ≡ ok a))
      ⊎ ((e : Error) × (o ≡ none)
          × (reply.answer ≡ err e)
          × (is_absent (classify_response reply.http_response (some e)) ≡ true))
Answers-cases (some a) reply found = inl (a, refl, found)
Answers-cases none reply (e, failed, missing) =
    inr (e, refl, failed, rw missing (missing-is_absent e))

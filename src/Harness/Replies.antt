-- ===== src/Harness/Replies.antt =====
-- The answers of the Harness SDK: Go's (value, *http.Response, error), where the value counts only
-- without an error and of the response only the status code is read; and tests on verdicts, written out
-- where the adapters compare one with a constant.
use harness_gitops_agent_ope.Common.{
  ℕ, String, Bool, true, false, Option, none, some, List, [], ◌∷◌, Result, ok, err,
}
use harness_gitops_agent_ope.Harness.Errors.{Verdict, absent, conflict, transient, Error, plain}

pub record Reply (A : Type 0) : Type 0 where
  pub http_response : Option ℕ
  pub answer : Result Error A

unfoldable pub is_absent : Verdict → Bool
is_absent absent = true
is_absent _ = false

unfoldable pub is_conflict : Verdict → Bool
is_conflict conflict = true
is_conflict _ = false

unfoldable pub is_transient : Verdict → Bool
is_transient transient = true
is_transient _ = false

-- Go's `return value, err` with an error that may be nil
unfoldable pub returned {ℓ} : {A : Type ℓ} → A → Option Error → Result Error A
returned value none = ok value
returned value (some e) = err e

-- the guard of the adapters against an empty list of candidates
unfoldable pub with_candidates {ℓ κ} :
    {A : Type ℓ} {C : Type κ}
    → String
    → List String
    → (List String → C → Result Error A × C)
    → C
    → Result Error A × C
with_candidates complaint [] loop calls = (err (plain complaint), calls)
with_candidates complaint (candidate ∷ rest) loop calls = loop (candidate ∷ rest) calls

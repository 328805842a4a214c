-- ===== src/Harness/Errors/Laws.antt =====
-- Verdicts and wrapping.
use harness_gitops_agent_ope.Common.{ℕ, String, ◌≡◌, ◌↔◌, refl, Option, some, List, [], ◌∷◌, arith}
use harness_gitops_agent_ope.Harness.Errors.{
  Error, wrap, absent, classify_response, classify_status, verdict_of, retained_verdict, api_error,
}

-- An error under any number of `fmt.Errorf` with one %w.
unfoldable pub wraps : List (String × String) → Error → Error
wraps [] e = e
wraps ((p, s) ∷ texts) e = wrap p (wraps texts e) s

wraps-retained :
    (texts : List (String × String)) (e : Error)
    → retained_verdict (wraps texts e) ≡ retained_verdict e
unfolding wraps retained_verdict
wraps-retained [] e = refl
wraps-retained (text ∷ texts) e = wraps-retained texts e

pub classify-absent :
    (response : Option ℕ) (e : Option Error)
    → classify_response response e ≡ absent ↔ response ≡ some 404
unfolding classify_response classify_status
classify-absent response e = (λ h. ground arith, λ h. ground arith)

verdict_of-wraps :
    (operation resource : String) (response : Option ℕ) (e wrapped : Error)
    (texts : List (String × String))
    → api_error operation resource response (some e) ≡ some wrapped
    → verdict_of (some (wraps texts wrapped)) ≡ classify_response response (some e)
unfolding verdict_of api_error retained_verdict
verdict_of-wraps operation resource response e wrapped texts h =
    ground (arith, wraps-retained texts wrapped)

-- An error of the Harness API under any number of wrappers has the verdict Absent exactly if the
-- response had the status 404; no text or other cause makes an absence of it.
pub verdict-absent :
    (operation resource : String) (response : Option ℕ) (e wrapped : Error)
    (texts : List (String × String))
    → api_error operation resource response (some e) ≡ some wrapped
    → verdict_of (some (wraps texts wrapped)) ≡ absent ↔ response ≡ some 404
verdict-absent operation resource response e wrapped texts h =
    rw (verdict_of-wraps operation resource response e wrapped texts h)
      (classify-absent response (some e))

-- ===== src/Harness/Session/Laws.antt =====
-- When a Secret gives a session.
use harness_gitops_agent_ope.Common.{
  String, ◌≡◌, refl, false, some, Result, ok, err, arith, Option-cases, inl, inr,
}
use harness_gitops_agent_ope.Text.{◌==◌, trim_space}
use harness_gitops_agent_ope.Harness.Errors.{KubeError}
use harness_gitops_agent_ope.Harness.Session.{
  Session, Secret, lookup, new_session, session_from_secret,
}

-- If a session is made, the Secret could be read, it has an entry "api_key" that is not blank, and the
-- key of the session is that entry, trimmed.
pub session_from_secret-ok :
    (answer : Result KubeError Secret) (session : Session)
    → session_from_secret answer ≡ ok session
    → (secret : Secret) × (key : String) × (answer ≡ ok secret)
      × (lookup "api_key" secret.entries ≡ some key)
      × ((trim_space key == "") ≡ false)
      × (session.api_key ≡ trim_space key)
unfolding session_from_secret new_session
session_from_secret-ok (err e) session h = cc
session_from_secret-ok (ok secret) session h =
    elim (Option-cases (lookup "api_key" secret.entries)) [
      | inl missing ↦ grind (arith)
      | inr (key, found) ↦ (secret, key, refl, found, grind (arith), grind (arith))
    ]

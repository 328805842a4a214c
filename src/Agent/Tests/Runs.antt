-- ===== src/Agent/Tests/Runs.antt =====
-- Runs of the Agent controller, and its theorems at concrete inputs.
use mathlib.Core.List.{Memᴰ}
use harness_gitops_agent_ope.Common.{
  ◌<◌, ◌≤◌, none, ◌≡◌, ◌≢◌, refl, true, false, some, [], ◌∷◌, ok, arith,
}
use harness_gitops_agent_ope.Text.{◌==◌, trim_space, equal_fold}
use harness_gitops_agent_ope.Api.{settled, managed}
use harness_gitops_agent_ope.Harness.Session.{session_from_secret}
use harness_gitops_agent_ope.Harness.Errors.{
  errors_is, both, sentinel, agent_create_outcome_unknown,
}
use harness_gitops_agent_ope.Harness.Identifiers.{
  identifiers_equivalent, org_identifier_for_scope, project_identifier_for_scope,
}
use harness_gitops_agent_ope.Agent.Finalizers.{remove_finalizer}
use harness_gitops_agent_ope.Agent.Environment.{Trace, got_agent}
use harness_gitops_agent_ope.Agent.Identity.{
  harness_agent_for, uid_tag, agent_tuple_equal, agent_owned_by_cr, agent_creation_is_uncertain,
}
use harness_gitops_agent_ope.Agent.Status.{session_for_agent}
use harness_gitops_agent_ope.Agent.Calls.{
  posts, deletes, tokens, resolutions, writes, unguarded, persisted_state,
}
use harness_gitops_agent_ope.Agent.Registration.{
  create_agent_request, registered, reconcile_agent_registration,
}
use harness_gitops_agent_ope.Agent.Registration.Remembered.{
  is_ambiguous, IsRemembered, ambiguous_create-IsRemembered,
}
use harness_gitops_agent_ope.Agent.Registration.Recovery.{recovered, lost_create-is_recovered}
use harness_gitops_agent_ope.Agent.Dependencies.{
  refers_to, references_of, agent_mapping_dependency_retry_interval,
  reconcile_mapping_dependencies_for_deletion,
}
use harness_gitops_agent_ope.Agent.Dependencies.Laws.{IsDeleting, referenced_agent-waits}
use harness_gitops_agent_ope.Agent.Deletion.{
  lookup_agent_owned_by_cr, deletion_identifier, delete_agent, delete_verified, delete_independent,
  delete_finalized, reconcile_deletion,
}
use harness_gitops_agent_ope.Agent.Deletion.Proof.{Proven, agent_delete-needs-proof}
use harness_gitops_agent_ope.Agent.Token.{holds_token, token_secret_name, token_secret_exists}
use harness_gitops_agent_ope.Agent.Reconcile.{reconcile_agent}
use harness_gitops_agent_ope.Agent.Reconcile.Laws.{reconcile_all, agent_create-is_guarded}
use harness_gitops_agent_ope.Agent.Reconcile.Owners.{owner_of}
use harness_gitops_agent_ope.Agent.Reconcile.Tokens.{
  token_call-needs-ownership, failed_token_read-resolves,
}
use harness_gitops_agent_ope.Agent.Tests.{
  fresh, uncertain, owned, deleting, key, session, lost, reference, found, absent_agent, reconciler,
  at_start,
}

agent_create-is_guarded_example :
    unguarded (reconcile_all (reconciler fresh absent_agent []) (key ∷ key ∷ []) []) ≡ 0
agent_create-is_guarded_example =
    agent_create-is_guarded (reconciler fresh absent_agent []) (key ∷ key ∷ [])

lost_create-is_recovered_example :
    (let r = reconciler uncertain (found uncertain) [] in
      let after = reconcile_agent_registration r session "ns" (at_start uncertain) in
      (after.0 ≡ registered (trim_space "a") "")
      × (posts after.1.trace ≡ posts [])
      × (after.1.agent ≡ (recovered r session (at_start uncertain)).agent)
      × (persisted_state after.1.trace ≡ some settled))
unfolding agent_creation_is_uncertain trim_space create_agent_request
lost_create-is_recovered_example =
    lost_create-is_recovered (reconciler uncertain (found uncertain) []) session "ns"
      (at_start uncertain) (found uncertain) refl refl refl refl refl refl refl

ambiguous_create-IsRemembered_example :
    (let r = reconciler fresh absent_agent [] in
      let s = record (at_start fresh) { trace = got_agent key (ok fresh) ∷ [] } in
      IsRemembered r s (reconcile_agent_registration r session "ns" s).1)
unfolding is_ambiguous errors_is persisted_state
ambiguous_create-IsRemembered_example =
    ambiguous_create-IsRemembered (reconciler fresh absent_agent []) session "ns"
      (record (at_start fresh) { trace = got_agent key (ok fresh) ∷ [] })
      (λ t request. (both (sentinel agent_create_outcome_unknown) lost, refl, refl)) refl

owned_deletion-deletes :
    deletes
      (reconcile_deletion
        (reconciler deleting (found deleting) [])
        false
        (at_start deleting)).1.trace
    ≡ 1
unfolding deletes reconcile_deletion delete_finalized reconcile_mapping_dependencies_for_deletion
    references_of delete_independent delete_verified session_for_agent session_from_secret
    lookup_agent_owned_by_cr agent_owned_by_cr uid_tag agent_tuple_equal harness_agent_for
    delete_agent deletion_identifier trim_space identifiers_equivalent org_identifier_for_scope
    equal_fold project_identifier_for_scope remove_finalizer
owned_deletion-deletes = refl

owned_deletion-changes :
    deletes
      (reconcile_deletion
        (reconciler deleting (found deleting) [])
        false
        (at_start deleting)).1.trace
    ≢ deletes []
unfolding deletes
owned_deletion-changes same = ground (arith, owned_deletion-deletes, same)

agent_delete-needs-proof_example :
    Proven (reconciler deleting (found deleting) []) false (at_start deleting)
agent_delete-needs-proof_example =
    agent_delete-needs-proof (reconciler deleting (found deleting) []) false (at_start deleting)
      owned_deletion-changes

referenced_agent-waits_example :
    (let r = reconciler deleting (found deleting) (reference ∷ []) in
      let after = reconcile_deletion r false (at_start deleting) in
      (deletes after.1.trace ≡ deletes [])
      × (writes after.1.trace ≡ writes [])
      × (after.0.requeue_after ≡ agent_mapping_dependency_retry_interval)
      × IsDeleting r reference after.1)
unfolding refers_to trim_space
referenced_agent-waits_example =
    referenced_agent-waits (reconciler deleting (found deleting) (reference ∷ [])) reference false
      (at_start deleting) (reference ∷ []) refl refl refl (Memᴰ.head refl) refl

failed_token_read-resolves_example :
    resolutions []
    < resolutions (reconcile_agent (reconciler owned absent_agent []) "ns" (at_start owned)).1.trace
unfolding agent_creation_is_uncertain session_for_agent session_from_secret token_secret_exists
    token_secret_name trim_space
failed_token_read-resolves_example =
    failed_token_read-resolves (reconciler owned absent_agent []) "ns" (at_start owned)
      (record { not_found = false; text = "timeout" }) session refl refl refl refl refl refl refl
      refl

resolutions-le-tokens : (t : Trace) → resolutions t ≤ tokens t
unfolding resolutions tokens
resolutions-le-tokens [] = ground arith
resolutions-le-tokens (e ∷ t) = ground (arith, resolutions-le-tokens t)

owned_token-calls :
    tokens []
    < tokens (reconcile_agent (reconciler owned absent_agent []) "ns" (at_start owned)).1.trace
unfolding agent_creation_is_uncertain session_for_agent session_from_secret token_secret_exists
    token_secret_name trim_space resolutions tokens
owned_token-calls =
    let asked =
      failed_token_read-resolves (reconciler owned absent_agent []) "ns" (at_start owned)
        (record { not_found = false; text = "timeout" }) session refl refl refl refl refl refl refl
        refl in
    ground (
      arith,
      asked,
      resolutions-le-tokens
          (reconcile_agent (reconciler owned absent_agent []) "ns" (at_start owned)).1.trace,
    )

token_call-needs-ownership_example :
    (let r = reconciler owned absent_agent [] in
      let name = token_secret_name owned in
      (owned.metadata.deletion_timestamp ≡ none)
      × ((trim_space owned.spec.existing_agent_identifier == "") ≡ true)
      × (holds_token (r.env.read_secret [] (record { namespace = "ns"; name = name })) ≡ false)
      × (owner_of (reconcile_agent r "ns" (at_start owned)).1 ≡ managed))
token_call-needs-ownership_example =
    token_call-needs-ownership (reconciler owned absent_agent []) "ns" (at_start owned)
      owned_token-calls

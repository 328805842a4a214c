-- ===== src/Mapping/Events/Laws.antt =====
-- The requests of an Agent event, and the validated intervals.
use mathlib.Core.List.{Memᴰ}
use harness_gitops_agent_ope.Common.{true, ◌≡◌, inl, inr, none, List, [], ◌∷◌, arith, Bool-cases}
use harness_gitops_agent_ope.Text.{◌==◌, trim_space, eq_refl}
use harness_gitops_agent_ope.Agent.Dependencies.{refers_to}
use harness_gitops_agent_ope.Api.{HarnessGitopsAgent, HarnessGitopsProjectMapping}
use harness_gitops_agent_ope.Mapping.Environment.{Reconciler}
use harness_gitops_agent_ope.Mapping.Ready.{pending_retry_interval, resync_interval}
use harness_gitops_agent_ope.Mapping.Events.{
  validate_mapping_intervals, project_mapping_agent_ref_index_values,
}

-- Intervals that pass the validation are the ones that the controller uses: neither falls back to its
-- default.
pub validated_intervals_used :
    (r : Reconciler)
    → validate_mapping_intervals r.app_project_pending_retry_interval
        r.harness_mapping_resync_interval
      ≡ none
    → (pending_retry_interval r ≡ r.app_project_pending_retry_interval)
      × (resync_interval r ≡ r.harness_mapping_resync_interval)
unfolding validate_mapping_intervals pending_retry_interval resync_interval
validated_intervals_used r valid = ground arith

-- What the API server lists in the namespace of an Agent for its name in the index: of all mappings,
-- those of the namespace with the name among the index values.
pub record IsIndexed (agent : HarnessGitopsAgent) (every items : List HarnessGitopsProjectMapping)
    : Type 0 where
  pub lists :
      (m : HarnessGitopsProjectMapping)
      → Memᴰ m every
      → (m.metadata.namespace == agent.metadata.namespace) ≡ true
      → Memᴰ agent.metadata.name (project_mapping_agent_ref_index_values m)
      → Memᴰ m items
  pub listed :
      (m : HarnessGitopsProjectMapping)
      → Memᴰ m items
      → Memᴰ m every
        × ((m.metadata.namespace == agent.metadata.namespace) ≡ true)
        × Memᴰ agent.metadata.name (project_mapping_agent_ref_index_values m)

pub indexed-refers_to :
    (agent : HarnessGitopsAgent) (m : HarnessGitopsProjectMapping)
    → Memᴰ agent.metadata.name (project_mapping_agent_ref_index_values m)
    → refers_to agent m ≡ true
unfolding refers_to project_mapping_agent_ref_index_values
indexed-refers_to agent m indexed = elim (Bool-cases (trim_space m.spec.agent_ref_name == "")) [
  | inl blank ↦
      let none_there : Memᴰ agent.metadata.name [] = rw blank at indexed in elim none_there [ ]
  | inr has_ref ↦
      let there : Memᴰ agent.metadata.name (trim_space m.spec.agent_ref_name ∷ []) =
        rw has_ref at indexed in
      elim there [
        | Memᴰ.head same ↦ rw same (eq_refl (trim_space m.spec.agent_ref_name))
        | Memᴰ.tail later ↦ elim later [ ]
      ]
]

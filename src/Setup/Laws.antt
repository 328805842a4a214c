-- ===== src/Setup/Laws.antt =====
-- What the two controllers agree on once the manager is set up.
use harness_gitops_agent_ope.Common.{◌≡◌, refl, none, ◌∷◌, arith, if◌then◌else◌}
use harness_gitops_agent_ope.Text.{◌==◌, trim_space}
use harness_gitops_agent_ope.Api.{ObjectKey, HarnessGitopsAgent}
use harness_gitops_agent_ope.Mapping.Environment as MappingEnvironment
use harness_gitops_agent_ope.Agent.Environment as AgentEnvironment
use harness_gitops_agent_ope.Mapping.Events.{validate_mapping_intervals}
use harness_gitops_agent_ope.Mapping.Events.Laws.{validated_intervals_used}
use harness_gitops_agent_ope.Mapping.Ready as MappingReady
use harness_gitops_agent_ope.Mapping.Ready.{pending_retry_interval, resync_interval}
use harness_gitops_agent_ope.Agent.Status as AgentStatus
use harness_gitops_agent_ope.Setup.{Options, Manager, mapping_reconciler, agent_reconciler, set_up}

set_up-validated :
    (mgr : Manager) (options : Options)
    → set_up mgr options ≡ none
    → validate_mapping_intervals options.app_project_pending_retry_interval
        options.harness_mapping_resync_interval
      ≡ none
unfolding set_up
set_up-validated mgr options done = ground arith

-- Once the manager is set up, the mapping controller uses the two intervals of the flags as they are,
-- and for one Agent both controllers read the API key from the same Secret.
pub set_up-agrees :
    (mgr : Manager) (options : Options)
    → set_up mgr options ≡ none
    → (agent : HarnessGitopsAgent) (s : MappingEnvironment.State) (t : AgentEnvironment.State)
    → t.agent ≡ agent
    → (let m = mapping_reconciler mgr options in
        (pending_retry_interval m ≡ options.app_project_pending_retry_interval)
        × (resync_interval m ≡ options.harness_mapping_resync_interval)
        × ((key : ObjectKey) × ((MappingReady.session_for_agent m agent s).1.trace
              ≡ MappingEnvironment.read_secret key ∷ s.trace)
            × ((AgentStatus.session_for_agent (agent_reconciler mgr options) t).1.trace
                ≡ AgentEnvironment.read_secret key ∷ t.trace)))
unfolding mapping_reconciler agent_reconciler MappingReady.session_for_agent
    AgentStatus.session_for_agent
set_up-agrees mgr options done agent s t same =
    let (pending, resync) =
      validated_intervals_used (mapping_reconciler mgr options)
        (set_up-validated mgr options done) in
    (
      pending,
      resync,
      (
        record {
          name = agent.spec.api_key_secret_ref;
          namespace =
              if trim_space options.api_key_secret_namespace == ""
              then agent.metadata.namespace
              else trim_space options.api_key_secret_namespace;
        },
        refl,
        rw same refl,
      ),
    )

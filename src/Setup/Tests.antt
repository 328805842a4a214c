-- ===== src/Setup/Tests.antt =====
-- A manager that accepts both controllers.
use harness_gitops_agent_ope.Common.{◌≡◌, refl, none, [], ◌∷◌}
use harness_gitops_agent_ope.Api.{ObjectKey}
use harness_gitops_agent_ope.Mapping.Environment as MappingEnvironment
use harness_gitops_agent_ope.Agent.Environment as AgentEnvironment
use harness_gitops_agent_ope.Mapping.Events.{validate_mapping_intervals}
use harness_gitops_agent_ope.Mapping.Ready as MappingReady
use harness_gitops_agent_ope.Mapping.Ready.{pending_retry_interval, resync_interval}
use harness_gitops_agent_ope.Mapping.Tests as MappingTests
use harness_gitops_agent_ope.Agent.Status as AgentStatus
use harness_gitops_agent_ope.Agent.Tests as AgentTests
use harness_gitops_agent_ope.Setup.{
  Options, Manager, mapping_reconciler, agent_reconciler, setup_with_manager, set_up,
}
use harness_gitops_agent_ope.Setup.Laws.{set_up-agrees}

abbrev options : Options
options = record {
  api_key_secret_namespace = "keys";
  app_project_pending_retry_interval = 2_000_000_000;
  harness_mapping_resync_interval = 1_000_000_000;
}

abbrev manager : Manager
manager = record {
  mapping_env = MappingTests.answers MappingTests.owned_resource [];
  agent_env = AgentTests.answers AgentTests.owned AgentTests.absent_agent [];
  add_mapping_controller = λ r. none;
  add_agent_controller = λ r. none;
}

set_up-agrees_example :
    (let m = mapping_reconciler manager options in
      let s = MappingTests.start MappingTests.owned_resource in
      let t = AgentTests.at_start AgentTests.owned in
      (pending_retry_interval m ≡ options.app_project_pending_retry_interval)
      × (resync_interval m ≡ options.harness_mapping_resync_interval)
      × ((key : ObjectKey) × ((MappingReady.session_for_agent m AgentTests.owned s).1.trace
            ≡ MappingEnvironment.read_secret key ∷ s.trace)
          × ((AgentStatus.session_for_agent (agent_reconciler manager options) t).1.trace
              ≡ AgentEnvironment.read_secret key ∷ t.trace)))
unfolding set_up setup_with_manager validate_mapping_intervals
set_up-agrees_example =
    set_up-agrees manager options refl AgentTests.owned
      (MappingTests.start MappingTests.owned_resource) (AgentTests.at_start AgentTests.owned) refl

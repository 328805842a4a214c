-- ===== src/Setup.antt =====
-- internal/controller/setup.go, and what cmd/main.go does with the two intervals of its flags. The
-- manager of controller-runtime is a parameter: what its clients answer, and whether it accepts a
-- controller.
pub mod Laws
mod Tests
use harness_gitops_agent_ope.Common.{ℕ, String, true, Option, none, some, Result, ok, err}
use harness_gitops_agent_ope.Harness.Errors.{Error, wrap}
use harness_gitops_agent_ope.Mapping.Environment as MappingEnvironment
use harness_gitops_agent_ope.Agent.Environment as AgentEnvironment
use harness_gitops_agent_ope.Mapping.Events.{validate_mapping_intervals}

-- `Options`
pub record Options : Type 0 where
  pub api_key_secret_namespace : String
  pub app_project_pending_retry_interval : ℕ
  pub harness_mapping_resync_interval : ℕ

pub record Manager : Type 0 where
  pub mapping_env : MappingEnvironment.Environment
  pub agent_env : AgentEnvironment.Environment
  pub add_mapping_controller : MappingEnvironment.Reconciler → Option Error
  pub add_agent_controller : AgentEnvironment.Reconciler → Option Error

-- the reconcilers that `SetupWithManager` makes
unfoldable pub mapping_reconciler : Manager → Options → MappingEnvironment.Reconciler
mapping_reconciler mgr options = record {
  env = mgr.mapping_env;
  api_reader = true;
  api_key_secret_namespace = options.api_key_secret_namespace;
  app_project_pending_retry_interval = options.app_project_pending_retry_interval;
  harness_mapping_resync_interval = options.harness_mapping_resync_interval;
}

-- its AgentHealthResyncInterval is left at the zero value
unfoldable pub agent_reconciler : Manager → Options → AgentEnvironment.Reconciler
agent_reconciler mgr options = record {
  env = mgr.agent_env;
  api_reader = true;
  api_key_secret_namespace = options.api_key_secret_namespace;
  agent_health_resync_interval = 0;
}

-- `SetupWithManager`
unfoldable pub setup_with_manager : Manager → Options → Option Error
unfolding mapping_reconciler agent_reconciler
setup_with_manager mgr options =
    elim (mgr.add_mapping_controller (mapping_reconciler mgr options)) [
      | some e ↦ some (wrap "set up HarnessGitopsProjectMapping controller: " e "")
      | none ↦ elim (mgr.add_agent_controller (agent_reconciler mgr options)) [
        | some e ↦ some (wrap "set up HarnessGitopsAgent controller: " e "")
        | none ↦ none
      ]
    ]

-- `main`, up to the start of the manager: the options are those of the flags; an error ends the program
unfoldable pub set_up : Manager → Options → Option Error
unfolding setup_with_manager
set_up mgr options =
    elim (validate_mapping_intervals options.app_project_pending_retry_interval
      options.harness_mapping_resync_interval) [
        | some e ↦ some e
        | none ↦ setup_with_manager mgr options
      ]

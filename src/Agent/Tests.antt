-- ===== src/Agent/Tests.antt =====
-- Concrete resources, answers and SDK clients for runs of the Agent controller.
mod Runs
mod Adapter
use harness_gitops_agent_ope.Common.{
  String, Bool, true, false, Option, none, some, List, [], ◌∷◌, ok, err, if◌then◌else◌,
}
use harness_gitops_agent_ope.Text.{◌==◌}
use harness_gitops_agent_ope.Api.{
  ObjectKey, ObjectMeta, HarnessGitopsAgent, HarnessGitopsProjectMapping, settled, pending, unowned,
  managed,
}
use harness_gitops_agent_ope.Harness.Errors.{
  Error, sdk, both, sentinel, agent_create_outcome_unknown,
}
use harness_gitops_agent_ope.Harness.Session.{Session}
use harness_gitops_agent_ope.Agent.Types.{Agent, AgentLookupResult}
use harness_gitops_agent_ope.Agent.Identity.Laws.{tagged}
use harness_gitops_agent_ope.Agent.Environment.{Environment, Reconciler, State}
use harness_gitops_agent_ope.Agent.Client.{V1Agent, AgentClient}
use harness_gitops_agent_ope.Agent.Sdk.{no_agent}
use harness_gitops_agent_ope.Agent.Sdk.Readiness.{HealthStatuses}

abbrev pub meta : ObjectMeta
meta = record {
  namespace = "ns";
  name = "agent";
  uid = "u";
  generation = 1;
  creation_timestamp = 5;
  deletion_timestamp = none;
  finalizers = "infrastructure.harness.io/finalizer" ∷ [];
}

-- a resource that was just created
abbrev pub fresh : HarnessGitopsAgent
fresh = record {
  metadata = meta;
  spec = record {
    name = "agent";
    operator = "ARGO";
    identifier = "a";
    account_id = "acc";
    org_id = "";
    project_id = "";
    type = "MANAGED_ARGO_PROVIDER";
    scope = "ACCOUNT";
    existing_agent_identifier = "";
    api_key_secret_ref = "key";
    token_secret_ref = "token";
  };
  status = record {
    creation_state = settled;
    agent_identifier = "";
    agent_ownership = unowned;
    conditions = [];
  };
}

-- one whose create intent is persisted
abbrev pub uncertain : HarnessGitopsAgent
uncertain = record fresh { status = record (fresh.status) { creation_state = pending } }

-- one that is registered
abbrev pub owned : HarnessGitopsAgent
owned = record fresh {
  status = record (fresh.status) { agent_identifier = "a"; agent_ownership = managed };
}

abbrev pub deleting : HarnessGitopsAgent
deleting = record owned { metadata = record meta { deletion_timestamp = some 6 } }

abbrev pub key : ObjectKey
key = record { namespace = "ns"; name = "agent" }

abbrev pub session : Session
session = record { api_key = "secret" }

abbrev pub lost : Error
lost = sdk (record {
  text = "connection reset";
  deadline_exceeded = false;
  timeout = none;
  swagger_body = none;
  swagger_pointer_body = none;
})

-- a mapping that refers to the agent
abbrev pub reference : HarnessGitopsProjectMapping
reference = record {
  metadata = record meta { name = "m"; uid = "v"; finalizers = [] };
  spec = record {
    agent_ref_name = "agent";
    app_project = "app";
    org_id = "o";
    project_id = "p";
    auto_create_service_env = true;
    adopt_mapping_id = "";
  };
  status = record {
    observed_generation = 0;
    creation_state = settled;
    remote = none;
    conditions = [];
  };
}

abbrev pub found : HarnessGitopsAgent → AgentLookupResult
found cr = record { exists = true; agent = tagged cr }

abbrev pub absent_agent : AgentLookupResult
absent_agent = record { exists = false; agent = no_agent }

-- The API server reads one resource and lists the given mappings, the API-key Secret is there and the
-- token Secret is not, a lookup answers as given, and the answer to a create call is lost.
abbrev pub answers :
    HarnessGitopsAgent → AgentLookupResult → List HarnessGitopsProjectMapping → Environment
answers cr result mappings = record {
  get_agent = λ t k. ok cr;
  update = λ t a. none;
  update_status = λ t a. none;
  delete_mapping = λ t m. none;
  read_secret = λ t k.
      if k.name == "key"
      then ok (record { entries = ("api_key", "secret") ∷ [] })
      else err (record { not_found = false; text = "timeout" });
  list_mappings = λ t ns. ok mappings;
  create = λ t s q. err (both (sentinel agent_create_outcome_unknown) lost);
  lookup = λ t s a. ok result;
  delete = λ t s a. none;
  resolve_token = λ t s a i. ok "t";
  readiness = λ t s a. ok (record { exists = true; ready = true; message = "" });
  set_status_condition = λ t cs c. c ∷ [];
  contains_finalizer = λ fs f. true;
  add_finalizer = λ fs f. f ∷ fs;
  remove_finalizer = λ fs f. [];
  set_controller_reference = λ a s. ok s;
  create_or_update = λ t s f. none;
}

abbrev pub reconciler :
    HarnessGitopsAgent → AgentLookupResult → List HarnessGitopsProjectMapping → Reconciler
reconciler cr result mappings = record {
  env = answers cr result mappings;
  api_reader = true;
  api_key_secret_namespace = "";
  agent_health_resync_interval = 0;
}

abbrev pub at_start : HarnessGitopsAgent → State
at_start cr = record { agent = cr; trace = [] }

-- an agent that Harness has, under its raw identifier only
abbrev pub harness_agent : V1Agent
harness_agent = record {
  identifier = "a";
  prefixed_identifier = "account.a";
  name = "agent";
  account_identifier = "acc";
  org_identifier = "";
  project_identifier = "";
  scope = some "ACCOUNT";
  type = some "MANAGED_ARGO_PROVIDER";
  operator = some "ARGO";
  tags = ("hga_cr_uid", "u") ∷ [];
  credentials = none;
  health = some (record {
    connection_status = some "CONNECTED";
    harness_gitops_agent = some (record { status = some "HEALTHY"; message = "" });
  });
}

abbrev pub statuses : HealthStatuses
statuses = record {
  connected = "CONNECTED";
  connected_status_unset = "CONNECTED_STATUS_UNSET";
  healthy = "HEALTHY";
  health_status_unset = "HEALTH_STATUS_UNSET";
}

abbrev pub registry : String → Option V1Agent
registry id = if id == "a" then some harness_agent else none

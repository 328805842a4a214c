-- ===== src/Mapping/Tests.antt =====
-- Concrete resources and answers for runs of the mapping controller.
mod Runs
mod Rows
mod Adapter
use harness_gitops_agent_ope.Common.{none, some, String, true, List, [], ◌∷◌, ok}
use harness_gitops_agent_ope.Api.{
  condition_true, ObjectKey, ObjectMeta, HarnessGitopsAgent, HarnessGitopsProjectMapping,
  HarnessGitopsProjectMappingStatus, HarnessGitopsProjectMappingRemoteStatus, settled, pending,
  unowned, managed, Condition,
}
use harness_gitops_agent_ope.Harness.Session.{Session, Secret}
use harness_gitops_agent_ope.Mapping.Types.{ProjectMappingRequest, ProjectMapping}
use harness_gitops_agent_ope.Mapping.Environment.{Environment, Reconciler, State}

abbrev pub meta : ObjectMeta
meta = record {
  namespace = "ns";
  name = "m";
  uid = "u";
  generation = 1;
  creation_timestamp = 5;
  deletion_timestamp = none;
  finalizers = "f" ∷ [];
}

abbrev pub no_status : HarnessGitopsProjectMappingStatus
no_status = record {
  observed_generation = 0;
  creation_state = settled;
  remote = none;
  conditions = [];
}

abbrev pub resource : HarnessGitopsProjectMapping
resource = record {
  metadata = meta;
  spec = record {
    agent_ref_name = "agent";
    app_project = "app";
    org_id = "o";
    project_id = "p";
    auto_create_service_env = true;
    adopt_mapping_id = "";
  };
  status = no_status;
}

abbrev pub healthy : Condition
healthy = record {
  type = "Healthy";
  status = condition_true;
  observed_generation = 1;
  last_transition_time = 1;
  reason = "AgentHealthy";
  message = "";
}

abbrev pub agent : HarnessGitopsAgent
agent = record {
  metadata = record meta { name = "agent"; uid = "ua" };
  spec = record {
    name = "agent";
    operator = "ARGO";
    identifier = "a";
    account_id = "acc";
    org_id = "";
    project_id = "";
    type = "MANAGED_ARGO_PROVIDER";
    scope = "ACCOUNT";
    existing_agent_identifier = "";
    api_key_secret_ref = "key";
    token_secret_ref = "token";
  };
  status = record {
    creation_state = settled;
    agent_identifier = "a";
    agent_ownership = managed;
    conditions = healthy ∷ [];
  };
}

abbrev pub row : ProjectMapping
row = record {
  identifier = "id";
  agent_identifier = "account.a";
  account_identifier = "acc";
  org_identifier = "o";
  project_identifier = "p";
  argo_project_name = "app";
  auto_create_service_env = true;
}

-- the tuple of `request`, as a status records it
abbrev pub recorded : HarnessGitopsProjectMappingRemoteStatus
recorded = record {
  mapping_id = "id";
  ownership = managed;
  agent = record {
    identifier = "a";
    account_id = "acc";
    scope = "ACCOUNT";
    org_id = "";
    project_id = "";
  };
  target = record {
    org_id = "o";
    project_id = "p";
    app_project = "app";
    auto_create_service_env = true;
  };
}

abbrev pub request : ProjectMappingRequest
request = record {
  account_identifier = "acc";
  agent_identifier = "a";
  agent_scope = "ACCOUNT";
  agent = record { org_identifier = ""; project_identifier = "" };
  mapping = record { org_identifier = "o"; project_identifier = "p" };
  argo_project_name = "app";
  auto_create_service_env = true;
}

abbrev pub session : Session
session = record { api_key = "secret" }

abbrev pub owned_resource : HarnessGitopsProjectMapping
owned_resource = record resource { status = record no_status { remote = some recorded } }

abbrev pub pending_resource : HarnessGitopsProjectMapping
pending_resource = record resource {
  status = record no_status {
    creation_state = pending;
    remote = some (record recorded { mapping_id = ""; ownership = unowned });
  };
}

abbrev pub returned_resource : HarnessGitopsProjectMapping
returned_resource = record resource {
  status = record no_status {
    creation_state = pending;
    remote = some (record recorded { ownership = unowned });
  };
}

abbrev pub deleting_resource : HarnessGitopsProjectMapping
deleting_resource = record owned_resource { metadata = record meta { deletion_timestamp = some 6 } }

-- a younger resource that records the same row as its own
abbrev pub rival : HarnessGitopsProjectMapping
rival = record owned_resource {
  metadata = record meta { name = "n"; uid = "v"; creation_timestamp = 9 };
}

-- the owned row, with another target
abbrev pub drifted_row : ProjectMapping
drifted_row = record row { project_identifier = "other" }

abbrev pub other_row : ProjectMapping
other_row = record row { identifier = "other"; argo_project_name = "other" }

-- the API server reads one resource, Harness lists the given rows
abbrev pub answers : HarnessGitopsProjectMapping → List ProjectMapping → Environment
answers mapping rows = record {
  get_mapping = λ t k. ok mapping;
  get_agent = λ t k. ok agent;
  update = λ t m. none;
  update_status = λ t m. none;
  read_agent = λ t k. ok agent;
  read_secret = λ t k. ok (record { entries = ("api_key", "secret") ∷ [] });
  list_mappings = λ t. ok (mapping ∷ rival ∷ []);
  get_app_project = λ t ns n. none;
  list = λ t s q. ok rows;
  create = λ t s q. ok row;
  delete = λ t s q id. none;
  now = λ t. 7;
  set_status_condition = λ t cs c. c ∷ [];
  find_status_condition = λ cs type. some healthy;
  contains_finalizer = λ fs f. true;
  add_finalizer = λ fs f. f ∷ fs;
  remove_finalizer = λ fs f. [];
}

abbrev pub reconciler : HarnessGitopsProjectMapping → List ProjectMapping → Reconciler
reconciler mapping rows = record {
  env = answers mapping rows;
  api_reader = true;
  api_key_secret_namespace = "";
  app_project_pending_retry_interval = 0;
  harness_mapping_resync_interval = 0;
}

abbrev pub key : ObjectKey
key = record { namespace = "ns"; name = "m" }

abbrev pub start : HarnessGitopsProjectMapping → State
start mapping = record { mapping = mapping; trace = [] }

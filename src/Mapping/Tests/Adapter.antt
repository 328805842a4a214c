-- ===== src/Mapping/Tests/Adapter.antt =====
-- The mapping adapter at concrete answers.
use harness_gitops_agent_ope.Common.{
  ◌≡◌, refl, true, false, Option, none, some, [], ◌∷◌, ok, err, if◌then◌else◌,
}
use harness_gitops_agent_ope.Text.{◌==◌, trim_space}
use harness_gitops_agent_ope.Harness.Errors.{Error, sdk}
use harness_gitops_agent_ope.Harness.Replies.{Reply}
use harness_gitops_agent_ope.Harness.Answers.{Answers, first_of}
use harness_gitops_agent_ope.Harness.Identifiers.{scoped_identifier_candidates}
use harness_gitops_agent_ope.Mapping.Client.{V1AppProjectMapping, MappingClient}
use harness_gitops_agent_ope.Mapping.Sdk.{sdk_list, sdk_create, sdk_delete}
use harness_gitops_agent_ope.Mapping.Sdk.Failures.{IsCareful, mapping_create-IsCareful}
use harness_gitops_agent_ope.Mapping.Sdk.Directory.{
  Rows, Serves, deletion_of, IsListed, mapping_sdk-refines-directory,
}
use harness_gitops_agent_ope.Mapping.Tests.{request, session}

abbrev lost : Error
lost = sdk (record {
  text = "not found";
  deadline_exceeded = false;
  timeout = none;
  swagger_body = none;
  swagger_pointer_body = none;
})

abbrev replied : {A : Type 0} → Option A → Reply A
replied none = record { http_response = some 404; answer = err lost }
replied (some value) = record { http_response = some 200; answer = ok value }

abbrev sdk_row : V1AppProjectMapping
sdk_row = record {
  identifier = "id";
  agent_identifier = "a";
  account_identifier = "acc";
  org_identifier = "o";
  project_identifier = "p";
  argo_project_name = "app";
  auto_create_service_env = true;
}

-- Harness knows the agent under its raw identifier only.
abbrev rows : Rows
rows id = if id == "a" then some (sdk_row ∷ []) else none

abbrev client : MappingClient
client = record {
  list = λ calls s args. replied (rows args.agent);
  create = λ calls s args. replied (if args.agent == "a" then some sdk_row else none);
  delete = λ calls s args. replied (deletion_of (rows args.agent));
}

replied-Answers : {A : Type 0} (o : Option A) → Answers o (replied o)
replied-Answers none = (lost, refl, refl)
replied-Answers (some value) = refl

client-Serves : Serves client session rows
client-Serves = record {
  lists = λ calls args. replied-Answers (rows args.agent);
  deletes = λ calls args. replied-Answers (deletion_of (rows args.agent));
}

mapping_create-IsCareful_example :
    IsCareful client session [] (sdk_create client session request [])
mapping_create-IsCareful_example = mapping_create-IsCareful client session request []

mapping_sdk-refines-directory_example :
    IsListed
      (first_of rows (scoped_identifier_candidates request.agent_scope request.agent_identifier))
      (sdk_list client session request []).0
    × ((sdk_delete client session request "id" []).0 ≡ ok tt)
unfolding trim_space
mapping_sdk-refines-directory_example =
    mapping_sdk-refines-directory client session rows client-Serves request "id" [] refl

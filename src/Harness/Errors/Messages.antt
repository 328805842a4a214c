-- ===== src/Harness/Errors/Messages.antt =====
-- The texts of errors: the methods `Error` of ResponseError and of the wrappers of package fmt.
use harness_gitops_agent_ope.Common.{ℕ, String, if◌then◌else◌, nat_eq}
use harness_gitops_agent_ope.Text.{◌<>◌, decimal}
use harness_gitops_agent_ope.Harness.Errors.{
  Verdict, no_verdict, absent, conflict, denied, transient, failed, Sentinel,
  project_mapping_already_exists, project_mapping_create_outcome_unknown, agent_already_exists,
  agent_not_found, agent_create_outcome_unknown, harness_agent_already_exists,
  harness_agent_ownership_unknown, Error, plain, sentinel, kube, sdk, wrap, both, join,
  response_error,
}

unfoldable pub verdict_text : Verdict → String
verdict_text no_verdict = ""
verdict_text absent = "Absent"
verdict_text conflict = "Conflict"
verdict_text denied = "Denied"
verdict_text transient = "Transient"
verdict_text failed = "Failed"

unfoldable pub sentinel_text : Sentinel → String
sentinel_text project_mapping_already_exists = "app project mapping already exists"
sentinel_text project_mapping_create_outcome_unknown =
    "app project mapping create outcome is unknown"
sentinel_text agent_already_exists = "harness GitOps agent already exists"
sentinel_text agent_not_found = "harness GitOps agent not found"
sentinel_text agent_create_outcome_unknown = "harness GitOps agent create outcome is unknown"
sentinel_text harness_agent_already_exists = "harness GitOps agent already exists"
sentinel_text harness_agent_ownership_unknown = "harness GitOps agent ownership is not proven"

response_error_text : String → String → ℕ → Verdict → String → String
response_error_text operation resource status verdict inner =
    if nat_eq status 0
    then operation <> " for " <> resource <> " failed (" <> verdict_text verdict <> "): " <> inner
    else operation
      <> " for "
      <> resource
      <> " failed with HTTP "
      <> decimal status
      <> " ("
      <> verdict_text verdict
      <> "): "
      <> inner

unfoldable pub error_text : Error → String
unfolding response_error_text
error_text (plain text) = text
error_text (sentinel s) = sentinel_text s
error_text (kube e) = e.text
error_text (sdk e) = e.text
error_text (wrap p e s) = p <> error_text e <> s
error_text (both d e) = error_text d <> ": " <> error_text e
error_text (join d e) = error_text d <> "\n" <> error_text e
error_text (response_error o r c v e) = response_error_text o r c v (error_text e)

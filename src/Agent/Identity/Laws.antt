-- ===== src/Agent/Identity/Laws.antt =====
-- Ownership of a Harness agent: whose it is, and that a created one is owned.
use harness_gitops_agent_ope.Common.{true, false, ◌≡◌, [], ◌∷◌, arith}
use harness_gitops_agent_ope.Text.{◌==◌, trim_space, eq_refl, eq_iff}
use harness_gitops_agent_ope.Text.Trim.{trim_space_idem}
use harness_gitops_agent_ope.Api.{HarnessGitopsAgent}
use harness_gitops_agent_ope.Harness.Identifiers.Laws.{identifiers_equivalent_refl}
use harness_gitops_agent_ope.Agent.Types.{Agent}
use harness_gitops_agent_ope.Agent.Identity.{
  harness_agent_cr_uid_tag, harness_agent_for, uid_tag, agent_tuple_equal, agent_owned_by_cr,
}

-- An agent is owned by the resources of one UID at most.
pub agent_owner-is_unique :
    (a b : HarnessGitopsAgent) (expected_a expected_b observed : Agent)
    → agent_owned_by_cr a expected_a observed ≡ true
    → agent_owned_by_cr b expected_b observed ≡ true
    → trim_space a.metadata.uid ≡ trim_space b.metadata.uid
unfolding agent_owned_by_cr
agent_owner-is_unique a b expected_a expected_b observed own_a own_b = ground (
  arith,
  eq_iff (trim_space (uid_tag observed)) (trim_space a.metadata.uid),
  eq_iff (trim_space (uid_tag observed)) (trim_space b.metadata.uid),
)

-- the agent of a create request
abbrev pub tagged : HarnessGitopsAgent → Agent
tagged cr = record (harness_agent_for cr cr.spec.identifier) {
  tags = (harness_agent_cr_uid_tag, trim_space cr.metadata.uid) ∷ [];
}

tagged-tuple :
    (cr : HarnessGitopsAgent)
    → (trim_space cr.spec.identifier == "") ≡ false
    → agent_tuple_equal (harness_agent_for cr cr.spec.identifier) (tagged cr) ≡ true
unfolding agent_tuple_equal harness_agent_for
tagged-tuple cr has_id =
    let expected = harness_agent_for cr cr.spec.identifier in
    ground (
      arith,
      trim_space_idem cr.spec.identifier,
      identifiers_equivalent_refl expected.scope expected.identifier,
      eq_refl (trim_space expected.name),
      eq_refl (trim_space expected.account_identifier),
      eq_refl (trim_space expected.org_identifier),
      eq_refl (trim_space expected.project_identifier),
      eq_refl (trim_space expected.scope),
      eq_refl (trim_space expected.type),
      eq_refl (trim_space expected.operator),
    )

-- The agent that a create request sends is owned by the resource, if UID and identifier are not blank.
pub tagged-agent_owned_by_cr :
    (cr : HarnessGitopsAgent)
    → (trim_space cr.metadata.uid == "") ≡ false
    → (trim_space cr.spec.identifier == "") ≡ false
    → agent_owned_by_cr cr (harness_agent_for cr cr.spec.identifier) (tagged cr) ≡ true
unfolding agent_owned_by_cr uid_tag
tagged-agent_owned_by_cr cr has_uid has_id = ground (
  arith,
  tagged-tuple cr has_id,
  trim_space_idem cr.metadata.uid,
  eq_refl (trim_space cr.metadata.uid),
)

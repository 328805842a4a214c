-- ===== src/Agent/Dependencies/Listed.antt =====
-- The mappings that refer to an Agent are among those that are listed, in whatever order.
use mathlib.Core.List.{Memᴰ}
use mathlib.Core.Path.{subst}
use harness_gitops_agent_ope.Common.{true, ◌≡◌, inl, inr, List, [], ◌∷◌, Bool-cases}
use harness_gitops_agent_ope.Text.{str_lt}
use harness_gitops_agent_ope.Api.{HarnessGitopsAgent, HarnessGitopsProjectMapping}
use harness_gitops_agent_ope.Agent.Dependencies.{
  refers_to, references_of, insert_by_name, sort_by_name,
}

module _ (m : HarnessGitopsProjectMapping) where
  pub references_of-Mem :
      (cr : HarnessGitopsAgent) (items : List HarnessGitopsProjectMapping)
      → Memᴰ m items
      → refers_to cr m ≡ true
      → Memᴰ m (references_of cr items)
  unfolding references_of
  references_of-Mem cr [] inside refers = elim inside [ ]
  references_of-Mem cr (n ∷ items) inside refers = elim inside [
    | Memᴰ.head same ↦
        let found : refers_to cr n ≡ true =
          subst (λ (x : HarnessGitopsProjectMapping). refers_to cr x ≡ true) same refers in
        rw found (Memᴰ.head same)
    | Memᴰ.tail later ↦
        let rest = references_of-Mem cr items later refers in
        elim (Bool-cases (refers_to cr n)) [
          | inl found ↦ rw found (Memᴰ.tail rest)
          | inr other ↦ rw other rest
        ]
  ]

  insert_by_name-Mem :
      (n : HarnessGitopsProjectMapping) (ns : List HarnessGitopsProjectMapping)
      → Memᴰ m (n ∷ ns)
      → Memᴰ m (insert_by_name n ns)
  unfolding insert_by_name
  insert_by_name-Mem n [] inside = inside
  insert_by_name-Mem n (k ∷ ns) inside =
      elim (Bool-cases (str_lt k.metadata.name n.metadata.name)) [
        | inr later ↦ rw later inside
        | inl sooner ↦ rw sooner (elim inside [
          | Memᴰ.head same ↦ Memᴰ.tail (insert_by_name-Mem n ns (Memᴰ.head same))
          | Memᴰ.tail rest ↦ elim rest [
            | Memᴰ.head same ↦ Memᴰ.head same
            | Memᴰ.tail last ↦ Memᴰ.tail (insert_by_name-Mem n ns (Memᴰ.tail last))
          ]
        ])
      ]

  pub sort_by_name-Mem :
      (ns : List HarnessGitopsProjectMapping) → Memᴰ m ns → Memᴰ m (sort_by_name ns)
  unfolding sort_by_name
  sort_by_name-Mem [] inside = inside
  sort_by_name-Mem (n ∷ ns) inside = insert_by_name-Mem n (sort_by_name ns) (elim inside [
    | Memᴰ.head same ↦ Memᴰ.head same
    | Memᴰ.tail rest ↦ Memᴰ.tail (sort_by_name-Mem ns rest)
  ])

-- the status that `setAgentCondition` compares with the one before

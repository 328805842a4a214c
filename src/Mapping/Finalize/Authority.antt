-- ===== src/Mapping/Finalize/Authority.antt =====
-- When a cleanup deletes a row in Harness.
use harness_gitops_agent_ope.Common.{
  ◌≡◌, ◌⊎◌, inl, inr, true, false, none, some, List, ok, err, arith, Option-cases, Result-cases,
}
use harness_gitops_agent_ope.Harness.Errors.{Error}
use harness_gitops_agent_ope.Mapping.Types.{ProjectMapping}
use harness_gitops_agent_ope.Mapping.Remote.{project_mapping_matches}
use harness_gitops_agent_ope.Mapping.Environment.{Reconciler, State, listed, record_event}
use harness_gitops_agent_ope.Mapping.Quiet.{Measure}
use harness_gitops_agent_ope.Mapping.Selection.{project_mapping_with_id}
use harness_gitops_agent_ope.Mapping.Finalize.Laws.{cleanup_rules}
use harness_gitops_agent_ope.Mapping.Cleanup.{
  Cleanup, authorize_project_mapping_cleanup, cleanup_rows, is_recovery,
}
use harness_gitops_agent_ope.Mapping.Finalize.{cleanup_with_session}

module _ (r : Reconciler) where
  -- the cleanup with the list call at `s` leads to a delete call
  pub record Deletes (c : Cleanup) (s : State) : Type 0 where
    pub rows : List ProjectMapping
    pub row : ProjectMapping
    pub answer : r.env.list s.trace c.session c.request ≡ ok rows
    pub found : project_mapping_with_id rows c.mapping_id ≡ some row
    pub matches : project_mapping_matches row c.request ≡ true
    pub no_recovery : is_recovery c.identity.recovery_ownership ≡ false
    pub won :
        (authorize_project_mapping_cleanup r c.request c.mapping_id
          (record_event (listed c.request) s)).0.won
        ≡ true

  module _ (μ : Measure) where
    found-cases :
        (c : Cleanup) (rows : List ProjectMapping) (s : State) (row : ProjectMapping)
        → project_mapping_with_id rows c.mapping_id ≡ some row
        → (μ.of (cleanup_rows r c rows s).1.trace ≡ μ.of s.trace)
          ⊎ ((project_mapping_matches row c.request ≡ true)
              × (is_recovery c.identity.recovery_ownership ≡ false)
              × ((authorize_project_mapping_cleanup r c.request c.mapping_id s).0.won ≡ true))
    unfolding cleanup_rows
    found-cases c rows s row found = grind (arith, cleanup_rules)

    absent-same :
        (c : Cleanup) (rows : List ProjectMapping) (s : State)
        → project_mapping_with_id rows c.mapping_id ≡ none
        → μ.of (cleanup_rows r c rows s).1.trace ≡ μ.of s.trace
    unfolding cleanup_rows
    absent-same c rows s missing = grind (arith, cleanup_rules)

    listed-same :
        (c : Cleanup) (s : State) (rows : List ProjectMapping)
        → r.env.list s.trace c.session c.request ≡ ok rows
        → μ.of (cleanup_rows r c rows (record_event (listed c.request) s)).1.trace
          ≡ μ.of (record_event (listed c.request) s).trace
        → μ.of (cleanup_with_session r c s).1.trace ≡ μ.of s.trace
    unfolding cleanup_with_session
    listed-same c s rows answer same = grind (arith, μ.quiet)

    failed-same :
        (c : Cleanup) (s : State) (e : Error)
        → r.env.list s.trace c.session c.request ≡ err e
        → μ.of (cleanup_with_session r c s).1.trace ≡ μ.of s.trace
    unfolding cleanup_with_session
    failed-same c s e answer = grind (arith, cleanup_rules, μ.quiet)

    pub session-cases :
        (c : Cleanup) (s : State)
        → (μ.of (cleanup_with_session r c s).1.trace ≡ μ.of s.trace) ⊎ Deletes c s
    session-cases c s = elim (Result-cases (r.env.list s.trace c.session c.request)) [
      | inl (e, answer) ↦ inl (failed-same c s e answer)
      | inr (rows, answer) ↦
          let s' = record_event (listed c.request) s in
          elim (Option-cases (project_mapping_with_id rows c.mapping_id)) [
            | inl missing ↦ inl (listed-same c s rows answer (absent-same c rows s' missing))
            | inr (row, found) ↦ elim (found-cases c rows s' row found) [
              | inl same ↦ inl (listed-same c s rows answer same)
              | inr (matches, no_recovery, won) ↦ inr (record {
                rows = rows;
                row = row;
                answer = answer;
                found = found;
                matches = matches;
                no_recovery = no_recovery;
                won = won;
              })
            ]
          ]
    ]

-- ===== src/Agent/Dependencies/Laws.antt =====
-- An Agent under deletion waits for the mappings that refer to it.
use mathlib.Core.List.{Memᴰ}
use mathlib.Core.Option
use harness_gitops_agent_ope.Common.{
  String, Bool, true, false, ◌≡◌, ◌⊎◌, inl, inr, refl, ap, ◌∙◌, Option, none, some, List, [], ◌∷◌,
  ok, arith, ite, Bool-cases,
}
use harness_gitops_agent_ope.Api.{
  ConditionStatus, HarnessGitopsAgentStatus, HarnessGitopsAgentStatus-discrete,
  HarnessGitopsProjectMapping, is_zero,
}
use harness_gitops_agent_ope.Harness.Errors.{Error, kube}
use harness_gitops_agent_ope.Agent.Environment.{
  Reconciler, State, Outcome, Event, record_event, deleted_mapping, listed_mappings,
}
use harness_gitops_agent_ope.Agent.Calls.{writes, writes_measure, deletes, deletes_measure}
use harness_gitops_agent_ope.Agent.Calls.Quiet.{quiet-set_condition, quiet-dependencies}
use harness_gitops_agent_ope.Agent.Status.{set_agent_condition}
use harness_gitops_agent_ope.Agent.Finalizers.{harness_agent_finalizer}
use harness_gitops_agent_ope.Agent.Deletion.{delete_finalized, reconcile_deletion}
use harness_gitops_agent_ope.Agent.Dependencies.{
  add_delete_error, refers_to, references_of, sort_by_name, delete_references, wait_for_references,
  wait_unless_empty, set_agent_waiting_for_mappings, agent_mapping_dependency_retry_interval,
  reconcile_mapping_dependencies_for_deletion,
}
use harness_gitops_agent_ope.Agent.Dependencies.Listed.{references_of-Mem, sort_by_name-Mem}

abbrev after_condition :
    Reconciler → String → ConditionStatus → String → String → State → HarnessGitopsAgentStatus
after_condition r type status reason message s = record (s.agent.status) {
  conditions = r.env.set_status_condition s.trace s.agent.status.conditions (record {
    type = type;
    status = status;
    observed_generation = s.agent.metadata.generation;
    last_transition_time = 0;
    reason = reason;
    message = message;
  });
}

-- the error after one delete call
abbrev after_delete : Reconciler → Option Error → HarnessGitopsProjectMapping → State → Option Error
after_delete r e n s = add_delete_error e n (Option.map kube (r.env.delete_mapping s.trace n))

-- the calls made stay made
module _ (r : Reconciler) (event : Event) where
  kept-ite :
      {P : Type 0} (d : Dec P) (x y : Option Error × State)
      → Memᴰ event x.1.trace
      → Memᴰ event y.1.trace
      → Memᴰ event (ite d x y).1.trace
  kept-ite (yes p) x y h k = h
  kept-ite (no p) x y h k = k

  kept-set_condition :
      (type : String) (status : ConditionStatus) (reason message : String) (s : State)
      → Memᴰ event s.trace
      → Memᴰ event (set_agent_condition r type status reason message s).1.trace
  unfolding set_agent_condition
  kept-set_condition type status reason message s inside =
      kept-ite
        (HarnessGitopsAgentStatus-discrete s.agent.status
          (after_condition r type status reason message s))
        _ _ inside (Memᴰ.tail inside)

  kept-delete_references :
      (ms : List HarnessGitopsProjectMapping) (e : Option Error) (s : State)
      → Memᴰ event s.trace
      → Memᴰ event (delete_references r e ms s).1.trace
  unfolding delete_references
  kept-delete_references [] e s inside = inside
  kept-delete_references (n ∷ ms) e s inside =
      elim (Bool-cases (is_zero n.metadata.deletion_timestamp)) [
        | inl active ↦ rw active (
            kept-delete_references ms (after_delete r e n s) (record_event (deleted_mapping n) s)
              (Memᴰ.tail inside))
        | inr deleting ↦ rw deleting (kept-delete_references ms e s inside)
      ]

  kept-wait :
      (ms : List HarnessGitopsProjectMapping) (names : List String) (s : State)
      → Memᴰ event (delete_references r none ms s).1.trace
      → Memᴰ event (wait_for_references r ms s).1.trace
  unfolding wait_for_references set_agent_waiting_for_mappings
  kept-wait ms names s inside = kept-set_condition _ _ _ _ _ inside

module _ (r : Reconciler) (m : HarnessGitopsProjectMapping) where
  -- A mapping is being deleted, or its delete call was made.
  abbrev pub IsDeleting : State → Type 0
  IsDeleting s = (is_zero m.metadata.deletion_timestamp ≡ false) ⊎ Memᴰ (deleted_mapping m) s.trace

  IsDeleting-delete_references :
      (ms : List HarnessGitopsProjectMapping) (e : Option Error) (s : State)
      → Memᴰ m ms
      → IsDeleting (delete_references r e ms s).1
  unfolding delete_references
  IsDeleting-delete_references [] e s inside = elim inside [ ]
  IsDeleting-delete_references (n ∷ ms) e s inside =
      elim (Bool-cases (is_zero n.metadata.deletion_timestamp)) [
        | inl active ↦
            let s' = record_event (deleted_mapping n) s in
            let e' = after_delete r e n s in
            rw active (elim inside [
              | Memᴰ.head same ↦ inr (
                  kept-delete_references r (deleted_mapping m) ms e' s'
                    (Memᴰ.head (ap deleted_mapping same)))
              | Memᴰ.tail later ↦ IsDeleting-delete_references ms e' s' later
            ])
        | inr deleting ↦ rw deleting (elim inside [
          | Memᴰ.head same ↦ inl (
              ap (λ (x : HarnessGitopsProjectMapping). is_zero x.metadata.deletion_timestamp) same
              ∙ deleting)
          | Memᴰ.tail later ↦ IsDeleting-delete_references ms e s later
        ])
      ]

  IsDeleting-wait :
      (ms : List HarnessGitopsProjectMapping) (s : State)
      → Memᴰ m ms
      → IsDeleting (wait_for_references r ms s).1
  IsDeleting-wait ms s inside = elim (IsDeleting-delete_references ms none s inside) [
    | inl deleting ↦ inl deleting
    | inr called ↦ inr (kept-wait r (deleted_mapping m) ms [] s called)
  ]

  wait_unless_empty-wait :
      (references : List HarnessGitopsProjectMapping) (s : State)
      → Memᴰ m references
      → (outcome : Outcome) × ((wait_unless_empty r references s).0 ≡ some outcome)
        × (outcome.requeue_after ≡ agent_mapping_dependency_retry_interval)
        × IsDeleting (wait_unless_empty r references s).1
  unfolding wait_unless_empty wait_for_references
  wait_unless_empty-wait [] s inside = elim inside [ ]
  wait_unless_empty-wait (n ∷ references) s inside = (
    (wait_for_references r (sort_by_name (n ∷ references)) s).0,
    refl,
    refl,
    IsDeleting-wait (sort_by_name (n ∷ references)) s (sort_by_name-Mem m (n ∷ references) inside),
  )

  dependencies-eq-wait :
      (s : State) (items : List HarnessGitopsProjectMapping)
      → r.api_reader ≡ true
      → r.env.list_mappings s.trace s.agent.metadata.namespace ≡ ok items
      → reconcile_mapping_dependencies_for_deletion r s
        ≡ wait_unless_empty r
            (references_of s.agent items)
            (record_event (listed_mappings s.agent.metadata.namespace) s)
  unfolding reconcile_mapping_dependencies_for_deletion
  dependencies-eq-wait s items reader listed = ground arith

  deletion-eq-dependencies :
      (existing : Bool) (s : State) (outcome : Outcome)
      → r.env.contains_finalizer s.agent.metadata.finalizers harness_agent_finalizer ≡ true
      → (reconcile_mapping_dependencies_for_deletion r s).0 ≡ some outcome
      → reconcile_deletion r existing s
        ≡ (outcome, (reconcile_mapping_dependencies_for_deletion r s).1)
  unfolding reconcile_deletion delete_finalized
  deletion-eq-dependencies existing s outcome has waits = ground arith

  writes-delete_references :
      (ms : List HarnessGitopsProjectMapping) (e : Option Error) (s : State)
      → writes (delete_references r e ms s).1.trace ≡ writes s.trace
  unfolding delete_references writes
  writes-delete_references [] e s = refl
  writes-delete_references (n ∷ ms) e s = ground (
    arith,
    writes-delete_references ms (after_delete r e n s) (record_event (deleted_mapping n) s),
    writes-delete_references ms e s,
  )

  writes-wait_unless_empty :
      (references : List HarnessGitopsProjectMapping) (s : State)
      → writes (wait_unless_empty r references s).1.trace ≡ writes s.trace
  unfolding wait_unless_empty wait_for_references set_agent_waiting_for_mappings
  writes-wait_unless_empty references s =
      grind (arith, quiet-set_condition writes_measure r, writes-delete_references)

  writes-dependencies :
      (s : State)
      → writes (reconcile_mapping_dependencies_for_deletion r s).1.trace ≡ writes s.trace
  unfolding reconcile_mapping_dependencies_for_deletion writes
  writes-dependencies s = grind (arith, writes-wait_unless_empty)

  -- As long as the API reader lists a mapping that refers to it, the deletion of an Agent with the
  -- finalizer makes no delete call to Harness and no write that could remove the finalizer, returns the
  -- retry interval in the RequeueAfter of its result, and has that mapping deleted: it has a deletion
  -- timestamp, or its delete call was made. This holds whatever the calls answer.
  pub referenced_agent-waits :
      (existing : Bool) (s : State) (items : List HarnessGitopsProjectMapping)
      → r.env.contains_finalizer s.agent.metadata.finalizers harness_agent_finalizer ≡ true
      → r.api_reader ≡ true
      → r.env.list_mappings s.trace s.agent.metadata.namespace ≡ ok items
      → Memᴰ m items
      → refers_to s.agent m ≡ true
      → (let after = reconcile_deletion r existing s in
          (deletes after.1.trace ≡ deletes s.trace)
          × (writes after.1.trace ≡ writes s.trace)
          × (after.0.requeue_after ≡ agent_mapping_dependency_retry_interval)
          × IsDeleting after.1)
  referenced_agent-waits existing s items has reader listed inside refers =
      let same = dependencies-eq-wait s items reader listed in
      let (outcome, waits, delay, deleting) =
        wait_unless_empty-wait (references_of s.agent items)
          (record_event (listed_mappings s.agent.metadata.namespace) s)
          (references_of-Mem m s.agent items inside refers) in
      let waits' : (reconcile_mapping_dependencies_for_deletion r s).0 ≡ some outcome =
        rw same waits in
      rw (deletion-eq-dependencies existing s outcome has waits')
        (quiet-dependencies deletes_measure r s, writes-dependencies s, delay, rw same deleting)

-- ===== src/Docker/Ended.antt =====
-- How a task on docker ends.
use tkn_act.Base.{
  option_or, some, ◌≡◌, refl, sym, subst, not, arith, [], Result-cases, Option-cases, ◌⊎◌, inl, inr,
}
use tkn_act.Dag.{is_empty}
use tkn_act.Tekton.{Kube, TaskSpec}
use tkn_act.Resolver.Scope.{Json}
use tkn_act.Engine.Outcome.{
  Status, succeeded, failed, infrafailed, not_run, skipped, timeout, cancelled,
}
use tkn_act.Docker.{Fault, ends, TaskEnd, Host, check_docker_support, no_results}
use tkn_act.Docker.Loop.{set_up, if_remote, read_results, collect, run_task}
use tkn_act.Docker.Ran.{Ran, Ended, lost, read}
use tkn_act.Docker.Walk.{IsRight, run_steps-IsRight}

module _ {k : Kube} (json : Json) where
  module _ (h : Host k) where
    collect-cases :
        (spec : TaskSpec k) (r : TaskEnd) (s : Status)
        → r.status ≡ s
        → (r.status ≡ succeeded) ⊎ (collect h spec r ≡ r)
    unfolding collect
    collect-cases spec r succeeded e = inl e
    collect-cases spec r failed e = inr (ground (arith, e))
    collect-cases spec r infrafailed e = inr (ground (arith, e))
    collect-cases spec r not_run e = inr (ground (arith, e))
    collect-cases spec r skipped e = inr (ground (arith, e))
    collect-cases spec r timeout e = inr (ground (arith, e))
    collect-cases spec r cancelled e = inr (ground (arith, e))

    collect-Ended :
        (spec : TaskSpec k) (r : TaskEnd)
        → IsRight json h 0 spec.steps [] r
        → Ended json h spec (collect h spec r)
    unfolding collect
    collect-Ended spec r right =
        let ran = subst (λ l. Ran json h 0 spec.steps l r.status) (sym right.all) right.ran in
        elim (collect-cases spec r r.status refl) [
          | inr kept ↦
              subst (Ended json h spec) (sym kept)
                (record { ran_status = r.status; ran = ran; same = inl refl; why = right.why })
          | inl fine ↦
              let through = subst (Ran json h 0 spec.steps r.steps) fine ran in
              elim (Result-cases (if_remote h h.pull_task_results)) [
                | inr (message, bad) ↦
                    subst (Ended json h spec) (ground (arith, fine, bad))
                      (lost json h spec r through (no_results message) message bad)
                | inl (u, good) ↦
                    subst (Ended json h spec) (ground (arith, fine, good))
                      (read json h spec r through (read_results h spec.results []) fine)
              ]
        ]

    -- A task that is refused or cannot be set up runs no step, and ends infrafailed with that reason.
    -- Else its steps run one after the other from the first, each recorded under its name with
    -- the exit code that it came to, as far as they go on: a step that exits with 0 does, and one that
    -- fails does if its onError is continue. A step that fails otherwise is the last one and fails
    -- the task. Where a reference does not resolve, the backend fails around a step or the pause container
    -- is gone, at most the step at hand is recorded and the task is infrafailed with a reason. The task
    -- succeeds when every step has gone through, unless its results cannot be fetched.
    pub run_task-ends :
        (spec : TaskSpec k)
        → ((f : Fault) × (option_or (check_docker_support h spec) (set_up h spec) ≡ some f)
            × (run_task json h spec ≡ ends infrafailed (some f) []))
          ⊎ Ended json h spec (run_task json h spec)
    unfolding run_task
    run_task-ends spec = elim (Option-cases (check_docker_support h spec)) [
      | inr (f, refused) ↦ inl (f, ground (arith, refused), ground (arith, refused))
      | inl good ↦ elim (Option-cases (set_up h spec)) [
        | inr (f, bad) ↦ inl (f, ground (arith, good, bad), ground (arith, good, bad))
        | inl ready ↦ inr (
            subst (Ended json h spec) (ground (arith, good, ready)) (
              collect-Ended spec _
                (run_steps-IsRight json h (not (is_empty spec.sidecars)) 0 spec.steps [] [])))
      ]
    ]

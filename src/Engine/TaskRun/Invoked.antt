-- ===== src/Engine/TaskRun/Invoked.antt =====
-- What holds where the backend is called, and where it is not.
use tkn_act.Base.{
  ℕ, String, ◌≡◌, refl, sym, ◌∙◌, ap, subst, true, arith, Option, none, some, List, [], ◌∷◌,
  Option-cases, Map, ◌⊎◌, ok, err, Result-cases, bind_parts, inl, inr,
}
use tkn_act.Base.Integers.{ℤ}
use tkn_act.Tekton.{Kube, ParamValue, WhenExpression, TaskSpec, PipelineTask}
use tkn_act.Resolver.Scope.{Context}
use tkn_act.Engine.Outcome.{skipped, is_failure, TaskOutcome}
use tkn_act.Engine.When.{evaluate_when}
use tkn_act.Engine.TaskInput.{
  Stop, skips, fails, infra_fails, Invocation, FinallyStatus, RunInput, Reply,
}
use tkn_act.Engine.TaskScope.{task_context_vars, pipeline_scope}
use tkn_act.Engine.TaskRun.{
  pass_when, lazy_timeout, ready_task, prepare, stop_outcome, reply_outcome, run_one,
}
use tkn_act.Engine.TaskRun.Readied.{
  IsResolved, IsProvided, ready_task-IsResolved, provide-IsProvided,
}
use tkn_act.Engine.TaskRun.Stopped.{Obstacle, prepare-stops}
use tkn_act.Engine.TaskRun.Skipped.{skip_in, prepare-skip}

pass_when-skips :
    {k : Kube} (i : RunInput k) (ctx : Context) (pt : PipelineTask k) (w : WhenExpression)
    (input : String)
    → skip_in (pass_when i ctx pt) ≡ some (w, input)
    → evaluate_when i.json ctx pt.when ≡ ok (some (w, input))
unfolding pass_when
pass_when-skips i ctx pt w input h = elim (Result-cases (evaluate_when i.json ctx pt.when)) [
  | inr (e, bad) ↦ absurd (ground (arith, h, bad))
  | inl (o, good) ↦ elim (Option-cases o) [
    | inl nil ↦ absurd (ground (arith, h, good, nil))
    | inr ((v, text), there) ↦ ground (arith, h, good, there)
  ]
]

module _ {k : Kube} (i : RunInput k) (fin : Option FinallyStatus) (retry_count : ℕ)
    (pt : PipelineTask k) (results : Map (Map String)) where
  abbrev pub scope : Context
  scope = pipeline_scope i fin retry_count pt results

  -- An attempt that calls the backend, and how it ends.
  pub record Called (backend : ℤ → Invocation k → Reply) (r : TaskOutcome × List (ℤ × Invocation k))
      : Type 0 where
    pub deadline : ℤ
    pub call : Invocation k
    pub once : r.1 ≡ (deadline, call) ∷ []
    pub resolved : IsResolved i scope pt call.params call.task
    pub provided : IsProvided i (task_context_vars i retry_count pt) pt call.params call.task call
    pub limited : lazy_timeout i pt call.task ≡ ok deadline
    pub outcome : r.0 ≡ reply_outcome i deadline (backend deadline call)

  -- An attempt that ends before the backend: it was skipped by a `when` expression, or it failed.
  pub record NotCalled (r : TaskOutcome × List (ℤ × Invocation k)) : Type 0 where
    pub no_call : r.1 ≡ []
    pub no_results : r.0.results ≡ none
    pub why :
        (((is_failure r.0.status ≡ true) × Obstacle i scope pt)
          ⊎ ((r.0.status ≡ skipped)
              × ((w : WhenExpression) × (input : String) × (evaluate_when i.json scope pt.when
                    ≡ ok (some (w, input))))))

  stop_outcome-NotCalled :
      (stop : Stop)
      → prepare i fin retry_count pt results ≡ err stop
      → NotCalled (stop_outcome i stop, [])
  unfolding stop_outcome pass_when
  stop_outcome-NotCalled (skips w input) h =
      let skipped_by = sym (prepare-skip i fin retry_count pt results) ∙ ap skip_in h in
      record {
        no_call = refl;
        no_results = refl;
        why = inr (refl, (w, input, pass_when-skips i scope pt w input skipped_by));
      }
  stop_outcome-NotCalled (fails e) h =
      elim (prepare-stops i fin retry_count pt results (fails e) h) [
        | inl (w, input, other) ↦ absurd (cc)
        | inr obstacle ↦ record { no_call = refl; no_results = refl; why = inl (refl, obstacle) }
      ]
  stop_outcome-NotCalled (infra_fails e) h =
      elim (prepare-stops i fin retry_count pt results (infra_fails e) h) [
        | inl (w, input, other) ↦ absurd (cc)
        | inr obstacle ↦ record { no_call = refl; no_results = refl; why = inl (refl, obstacle) }
      ]

  prepared-Called :
      (backend : ℤ → Invocation k → Reply) (deadline : ℤ) (call : Invocation k)
      → prepare i fin retry_count pt results ≡ ok (deadline, call)
      → Called backend (reply_outcome i deadline (backend deadline call), (deadline, call) ∷ [])
  unfolding prepare pipeline_scope
  prepared-Called backend deadline call h =
      let ((params, task), made, h1) = bind_parts (ready_task i scope pt) _ (deadline, call) h in
      let (provided, limited) =
        provide-IsProvided i (task_context_vars i retry_count pt) pt params task deadline call h1 in
      let resolved = ready_task-IsResolved i scope pt params task made in
      record {
        deadline = deadline;
        call = call;
        once = refl;
        resolved =
            subst (λ ps. IsResolved i scope pt ps call.task) (sym provided.params)
              (subst (λ t. IsResolved i scope pt params t) (sym provided.task) resolved);
        provided =
            subst
              (λ (q : Map ParamValue × TaskSpec k).
                IsProvided i (task_context_vars i retry_count pt) pt q.0 q.1 call)
              (λ j. (sym provided.params j, sym provided.task j)) provided;
        limited = subst (λ t. lazy_timeout i pt t ≡ ok deadline) (sym provided.task) limited;
        outcome = refl;
      }

  -- An attempt at a task either calls the backend exactly once or not at all. It calls it only where
  -- the task's `when` expressions let it run, its spec was found and every action, param and text of
  -- it was resolved: with that spec, in which no step refers to an action any more, with the params
  -- bound last over the defaults, with every workspace mounted from where it is provisioned and every
  -- volume provided, under the deadline of a task that was fetched late; and the outcome is the
  -- backend's answer, or a timeout past that deadline. Else the attempt has no results, and it was
  -- skipped by one of its `when` expressions, or it failed for an obstacle: an expression that cannot be
  -- evaluated, a spec that is not found, an action, a param or a text that does not resolve, a workspace
  -- that is not provisioned, or a directory, a volume or a timeout that cannot be had.
  pub run_one-cases :
      (backend : ℤ → Invocation k → Reply)
      → Called backend (run_one i backend fin retry_count pt results)
        ⊎ NotCalled (run_one i backend fin retry_count pt results)
  unfolding run_one
  run_one-cases backend = elim (Result-cases (prepare i fin retry_count pt results)) [
    | inl ((deadline, call), made) ↦
        inl (
          subst (Called backend) (ground (arith, made))
            (prepared-Called backend deadline call made))
    | inr (stop, bad) ↦
        inr (subst NotCalled (ground (arith, bad)) (stop_outcome-NotCalled stop bad))
  ]

-- ===== src/Engine/Cluster/Bodies.antt =====
-- What the inlining of actions makes of a task that stands beside the pipeline or in it.
use tkn_act.Base.{
  String, ◌≡◌, refl, subst, Bool, true, not, arith, eq-cases, Option, none, some, [], ◌∷◌, any, all,
  is_some, Map, lookup, Result, ok, err, ◌>>=◌, Result-cases, Option-cases, bind_parts, ok_inj, inl,
  inr,
}
use tkn_act.Tekton.{Kube, Step, StepAction, TaskSpec, PipelineTask}
use tkn_act.Resolver.Scope.{Json}
use tkn_act.Engine.StepActions.{ActionError, resolve_step_actions}
use tkn_act.Engine.StepActions.Inlined.{resolve_step_actions-clean}
use tkn_act.Engine.TaskRun.{lookup_task_spec}
use tkn_act.Engine.Cluster.Expanding.{
  ExpandError, or_named, bad_task, bad_pipeline_task, expand_tasks, expand_pipeline_task,
}

abbrev pub value : {E A : Type 0} → Result E A → Option A
value (ok a) = some a
value (err _) = none

module _ {k : Kube} where
  -- no step of the task refers to an action any more
  abbrev pub is_clean : TaskSpec k → Bool
  is_clean spec = not (any (λ (s : Step k). is_some s.ref) spec.steps)

  module _ (json : Json) (actions : Map (StepAction k)) where
    abbrev pub expanded : Option (TaskSpec k) → Option (TaskSpec k)
    expanded none = none
    expanded (some spec) = value (resolve_step_actions json actions spec)

    -- the inlining of the actions went through, if there was anything
    abbrev pub Becomes : Option (TaskSpec k) → Option (TaskSpec k) → Type 0
    Becomes o o' = (o' ≡ expanded o) × (is_some o' ≡ is_some o)

    expanded_by :
        (f : ActionError → ExpandError) (spec s : TaskSpec k)
        → or_named f (resolve_step_actions json actions spec) ≡ ok s
        → resolve_step_actions json actions spec ≡ ok s
    expanded_by f spec s h = elim (Result-cases (resolve_step_actions json actions spec)) [
      | inr (e, bad) ↦ absurd (ground (arith, h, bad))
      | inl (t, good) ↦ ground (arith, h, good)
    ]

    pub expand_tasks-IsExpanded :
        (m out : Map (TaskSpec k))
        → expand_tasks json actions m ≡ ok out
        → (all (λ (e : String × TaskSpec k). is_clean e.1) out ≡ true)
          × ((n : String) → Becomes (lookup n m) (lookup n out))
    unfolding expand_tasks lookup
    expand_tasks-IsExpanded [] out h =
        subst
          (λ (o : Map (TaskSpec k)).
            (all (λ (e : String × TaskSpec k). is_clean e.1) o ≡ true)
            × ((n : String) → Becomes none (lookup n o)))
          (ok_inj [] out h) (refl, λ n. (refl, refl))
    expand_tasks-IsExpanded ((name, spec) ∷ m) out h =
        let (s, made, h1) =
          bind_parts (or_named (bad_task name) (resolve_step_actions json actions spec)) _ out h in
        let (rest, more, last) = bind_parts (expand_tasks json actions m) _ out h1 in
        let done = expanded_by (bad_task name) spec s made in
        let (clean, same) = expand_tasks-IsExpanded m rest more in
        let here = (resolve_step_actions-clean json actions spec s done).0 in
        subst
          (λ (o : Map (TaskSpec k)).
            (all (λ (e : String × TaskSpec k). is_clean e.1) o ≡ true)
            × ((n : String) → Becomes (lookup n ((name, spec) ∷ m)) (lookup n o)))
          (ok_inj ((name, s) ∷ rest) out last)
          (
            ground (arith, clean, here),
            λ n. (
              ground (arith, done, (same n).0, eq-cases name n),
              ground (arith, (same n).1, eq-cases name n),
            ),
          )

    -- A pipeline task without a reference to an action, whose body is what the other one's becomes.
    pub record Expands (tasks out : Map (TaskSpec k)) (pt pt' : PipelineTask k) : Type 0 where
      pub spec : Option (TaskSpec k)
      pub same : pt' ≡ record pt { task_spec = spec }
      pub clean : elim spec [ none ↦ true | some s ↦ is_clean s ] ≡ true
      pub becomes : Becomes pt.task_spec spec
      pub body : value (lookup_task_spec out pt') ≡ expanded (value (lookup_task_spec tasks pt))

    module _ (tasks out : Map (TaskSpec k))
        (known : (n : String) → Becomes (lookup n tasks) (lookup n out)) where
      body-same :
          (pt : PipelineTask k)
          → pt.task_spec ≡ none
          → value (lookup_task_spec out pt) ≡ expanded (value (lookup_task_spec tasks pt))
      unfolding lookup_task_spec
      body-same pt bare = elim (Option-cases pt.task_ref) [
        | inl none_here ↦ ground (arith, bare, none_here)
        | inr (ref, named) ↦ ground (
          arith,
          bare,
          named,
          (known ref.name).0,
          Option-cases (lookup ref.name tasks),
          Option-cases (lookup ref.name out),
        )
      ]

      pub expand_pipeline_task-Expands :
          (pt pt' : PipelineTask k)
          → expand_pipeline_task json actions pt ≡ ok pt'
          → Expands tasks out pt pt'
      unfolding expand_pipeline_task lookup_task_spec
      expand_pipeline_task-Expands pt pt' h = elim (Option-cases pt.task_spec) [
        | inl bare ↦
            let same : pt ≡ pt' = ground (arith, h, bare) in
            subst (Expands tasks out pt) same (record {
              spec = none;
              same = ground (arith, bare);
              clean = refl;
              becomes = (ground (arith, bare), ground (arith, bare));
              body = body-same pt bare;
            })
        | inr (spec, own) ↦
            let go : (or_named (bad_pipeline_task pt.name) (resolve_step_actions json actions spec)
                  >>= λ s. ok (record pt { task_spec = some s }))
                ≡ ok pt' =
              ground (arith, h, own) in
            let (s, made, last) =
              bind_parts
                (or_named (bad_pipeline_task pt.name) (resolve_step_actions json actions spec)) _
                pt' go in
            let done = expanded_by (bad_pipeline_task pt.name) spec s made in
            subst (Expands tasks out pt) (ok_inj _ pt' last) (record {
              spec = some s;
              same = refl;
              clean = ground (arith, (resolve_step_actions-clean json actions spec s done).0);
              becomes = (ground (arith, own, done), ground (arith, own));
              body = ground (arith, own, done);
            })
      ]

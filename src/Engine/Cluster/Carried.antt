-- ===== src/Engine/Cluster/Carried.antt =====
-- What becomes of the tasks that a pipeline backend is given, beside what an attempt at one of them
-- (Engine/TaskRun) runs.
use tkn_act.Base.{
  String, ◌≡◌, refl, subst, true, false, ◌==◌, arith, Option, none, some, List, Map, lookup, ok,
  ◌>>=◌, Result-cases, Option-cases, Bool-cases, bind_parts, ok_inj, Pairwise, traverse,
  traverse-Pairwise, Pairwise-trans, ap, ◌∙◌, inl, inr,
}
use tkn_act.Tekton.{Kube, TaskRef, TaskSpec, PipelineTask, Pipeline}
use tkn_act.Resolver.Scope.{Context}
use tkn_act.Engine.Lazy.{lookup_task_spec_lazy}
use tkn_act.Engine.TaskInput.{RunInput, is_lazy}
use tkn_act.Engine.TaskRun.{lookup_task_spec, find_spec}
use tkn_act.Engine.Cluster.Expanding.{
  inline_one_pipeline_task, inline_resolver_backed_tasks, expand_tasks, expand_pipeline_task,
  expand_bundle_step_actions,
}
use tkn_act.Engine.Cluster.Bodies.{
  Becomes, value, is_clean, expanded, Expands, expand_pipeline_task-Expands,
}

module _ {k : Kube} (i : RunInput k) where
  -- A pipeline task whose body stands beside the pipeline or in it.
  record Inlines (ctx : Context) (pt pt' : PipelineTask k) : Type 0 where
    ref : Option TaskRef
    spec : Option (TaskSpec k)
    same : pt' ≡ record pt { task_ref = ref; task_spec = spec }
    local : is_lazy ref ≡ false
    body : value (lookup_task_spec i.tasks pt') ≡ value (find_spec i ctx pt)

  inline_one_pipeline_task-Inlines :
      (ctx : Context) (pt pt' : PipelineTask k)
      → inline_one_pipeline_task i.json i.parse_duration i.registry ctx pt ≡ ok pt'
      → Inlines ctx pt pt'
  unfolding inline_one_pipeline_task find_spec lookup_task_spec
  inline_one_pipeline_task-Inlines ctx pt pt' h = elim (Option-cases pt.task_ref) [
    | inl none_here ↦
        let same : pt ≡ pt' = ground (arith, h, none_here) in
        subst (Inlines ctx pt) same (record {
          ref = none;
          spec = pt.task_spec;
          same = ground (arith, none_here);
          local = refl;
          body = ground (arith, none_here, Result-cases (lookup_task_spec i.tasks pt));
        })
    | inr (ref, named) ↦ elim (Bool-cases (ref.resolver == "")) [
      | inl near ↦
          let same : pt ≡ pt' = ground (arith, h, named, near) in
          subst (Inlines ctx pt) same (record {
            ref = some ref;
            spec = pt.task_spec;
            same = ground (arith, named);
            local = ground (arith, near);
            body = ground (arith, named, near, Result-cases (lookup_task_spec i.tasks pt));
          })
      | inr far ↦
          let fetch = lookup_task_spec_lazy i.json ctx i.parse_duration i.registry pt.name ref in
          let go : (fetch >>= λ spec. ok (record pt { task_spec = some spec; task_ref = none }))
              ≡ ok pt' =
            ground (arith, h, named, far) in
          let (spec, got, last) = bind_parts fetch _ pt' go in
          subst (Inlines ctx pt) (ok_inj _ pt' last) (record {
            ref = none;
            spec = some spec;
            same = refl;
            local = refl;
            body = ground (arith, named, far, got);
          })
    ]
  ]

  -- What a task of the pipeline becomes: all but its body is kept, the body stands beside it or in it,
  -- refers to no action, and is the one that an attempt at the task would inline the actions into.
  pub record Carries (ctx : Context) (out : Map (TaskSpec k)) (pt pt' : PipelineTask k)
      : Type 0 where
    pub ref : Option TaskRef
    pub spec : Option (TaskSpec k)
    pub same : pt' ≡ record pt { task_ref = ref; task_spec = spec }
    pub local : is_lazy ref ≡ false
    pub clean : elim spec [ none ↦ true | some s ↦ is_clean s ] ≡ true
    pub body :
        value (lookup_task_spec out pt')
        ≡ expanded i.json i.step_actions (value (find_spec i ctx pt))

  carries :
      (ctx : Context) (out : Map (TaskSpec k)) (pt mid pt' : PipelineTask k)
      → Inlines ctx pt mid
      → Expands i.json i.step_actions i.tasks out mid pt'
      → Carries ctx out pt pt'
  carries ctx out pt mid pt' a e = record {
    ref = a.ref;
    spec = e.spec;
    same = ground (arith, a.same, e.same);
    local = a.local;
    clean = e.clean;
    body = e.body ∙ ap (expanded i.json i.step_actions) a.body;
  }

  pub tasks-Carries :
      (ctx : Context) (out : Map (TaskSpec k))
      → ((n : String) → Becomes i.json i.step_actions (lookup n i.tasks) (lookup n out))
      → (pts mid pts' : List (PipelineTask k))
      → traverse (inline_one_pipeline_task i.json i.parse_duration i.registry ctx) pts ≡ ok mid
      → traverse (expand_pipeline_task i.json i.step_actions) mid ≡ ok pts'
      → Pairwise (Carries ctx out) pts pts'
  tasks-Carries ctx out known pts mid pts' h h' =
      Pairwise-trans _ _ (Carries ctx out)
        (λ x y z a e.
          carries ctx out x y z (inline_one_pipeline_task-Inlines ctx x y a)
            (expand_pipeline_task-Expands i.json i.step_actions i.tasks out known y z e))
        pts mid pts'
        (traverse-Pairwise (inline_one_pipeline_task i.json i.parse_duration i.registry ctx) pts mid
          h)
        (traverse-Pairwise (expand_pipeline_task i.json i.step_actions) mid pts' h')

  pub inlined_parts :
      (ctx : Context) (pl mid : Pipeline k)
      → inline_resolver_backed_tasks i.json i.parse_duration i.registry ctx pl ≡ ok mid
      → (mid ≡ record pl { tasks = mid.tasks; finally = mid.finally })
        × (traverse (inline_one_pipeline_task i.json i.parse_duration i.registry ctx) pl.tasks
            ≡ ok mid.tasks)
        × (traverse (inline_one_pipeline_task i.json i.parse_duration i.registry ctx) pl.finally
            ≡ ok mid.finally)
  unfolding inline_resolver_backed_tasks
  inlined_parts ctx pl mid h =
      let inline = inline_one_pipeline_task i.json i.parse_duration i.registry ctx in
      let (tasks, t, r) = bind_parts (traverse inline pl.tasks) _ mid h in
      let (finally, f, e) = bind_parts (traverse inline pl.finally) _ mid r in
      subst
        (λ (q : Pipeline k).
          (q ≡ record pl { tasks = q.tasks; finally = q.finally })
          × (traverse inline pl.tasks ≡ ok q.tasks)
          × (traverse inline pl.finally ≡ ok q.finally))
        (ok_inj (record pl { tasks = tasks; finally = finally }) mid e) (refl, t, f)

  pub expanded_parts :
      (mid last : Pipeline k) (out : Map (TaskSpec k))
      → expand_bundle_step_actions i.json i.step_actions i.tasks mid ≡ ok (out, last)
      → (last ≡ record mid { tasks = last.tasks; finally = last.finally })
        × (expand_tasks i.json i.step_actions i.tasks ≡ ok out)
        × (traverse (expand_pipeline_task i.json i.step_actions) mid.tasks ≡ ok last.tasks)
        × (traverse (expand_pipeline_task i.json i.step_actions) mid.finally ≡ ok last.finally)
  unfolding expand_bundle_step_actions
  expanded_parts mid last out h =
      let expand = expand_pipeline_task i.json i.step_actions in
      let (out', o, r) = bind_parts (expand_tasks i.json i.step_actions i.tasks) _ (out, last) h in
      let (tasks, t, r2) = bind_parts (traverse expand mid.tasks) _ (out, last) r in
      let (finally, f, e) = bind_parts (traverse expand mid.finally) _ (out, last) r2 in
      subst
        (λ (q : Map (TaskSpec k) × Pipeline k).
          (q.1 ≡ record mid { tasks = q.1.tasks; finally = q.1.finally })
          × (expand_tasks i.json i.step_actions i.tasks ≡ ok q.0)
          × (traverse expand mid.tasks ≡ ok q.1.tasks)
          × (traverse expand mid.finally ≡ ok q.1.finally))
        (ok_inj (out', record mid { tasks = tasks; finally = finally }) (out, last) e)
        (refl, o, t, f)

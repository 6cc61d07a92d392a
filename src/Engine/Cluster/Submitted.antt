-- ===== src/Engine/Cluster/Submitted.antt =====
-- What a pipeline backend is given to run, beside what an attempt at a task (Engine/TaskRun) runs.
use tkn_act.Base.{
  mem, Distinct, each, ◌++◌, String, ◌≡◌, refl, subst, true, arith, some, List, all, Map, Result,
  ok, err, Result-cases, Option-cases, Pairwise, inl, inr,
}
use tkn_act.Tekton.{Kube, ParamValue, TaskSpec, Pipeline}
use tkn_act.Engine.Params.{apply_defaults}
use tkn_act.Engine.TaskInput.{RunInput}
use tkn_act.Engine.Cluster.Expanding.{
  inline_resolver_backed_tasks, expand_bundle_step_actions, unique_images,
}
use tkn_act.Engine.Cluster.{Submission, Verdict, PipelineBackend}
use tkn_act.Engine.Cluster.Run.{
  conclude, run_context, submission, run_inlined, run_via_pipeline_backend,
}
use tkn_act.Engine.Cluster.Bodies.{is_clean, expand_tasks-IsExpanded}
use tkn_act.Engine.Cluster.Images.{handed_images, unique_images-handed}
use tkn_act.Engine.Cluster.Carried.{Carries, tasks-Carries, inlined_parts, expanded_parts}

module _ {k : Kube} (i : RunInput k) (b : PipelineBackend k) where
  -- What is handed over, and the images that have been handed over before.
  pub record IsSubmitted (pl : Pipeline k) (images : List String) (sub : Submission k)
      : Type 0 where
    pub params : Map ParamValue
    pub defaulted : apply_defaults pl.params i.params ≡ ok params
    pub clean : all (λ (e : String × TaskSpec k). is_clean e.1) sub.tasks ≡ true
    pub same :
        sub.pipeline ≡ record pl { tasks = sub.pipeline.tasks; finally = sub.pipeline.finally }
    pub handed : sub ≡ submission i b params sub.tasks sub.pipeline
    pub tasks :
        Pairwise (Carries i (run_context i b pl params) sub.tasks) pl.tasks sub.pipeline.tasks
    pub finally :
        Pairwise (Carries i (run_context i b pl params) sub.tasks) pl.finally sub.pipeline.finally
    pub once : Distinct images
    pub listed :
        (image : String)
        → mem image images
          ≡ mem image (
              each
                (handed_images i.json i.step_actions sub.tasks)
                (sub.pipeline.tasks ++ sub.pipeline.finally))

  conclude-submitted :
      (images : List String) (sub : Submission k) (pl : Pipeline k) (r : Result String Verdict)
      → ((conclude i b images sub pl r).submitted ≡ some sub)
        × ((conclude i b images sub pl r).prepared ≡ some images)
  unfolding conclude
  conclude-submitted images sub pl (ok v) = (refl, refl)
  conclude-submitted images sub pl (err message) = (refl, refl)

  run_inlined-submitted :
      (params : Map ParamValue) (mid : Pipeline k) (sub : Submission k)
      → (run_inlined i b params mid).submitted ≡ some sub
      → (out : Map (TaskSpec k)) × (pl : Pipeline k) × (expand_bundle_step_actions i.json
            i.step_actions i.tasks mid
          ≡ ok (out, pl))
        × (submission i b params out pl ≡ sub)
        × ((run_inlined i b params mid).prepared
            ≡ some (unique_images i.json i.step_actions i.tasks mid))
  unfolding run_inlined
  run_inlined-submitted params mid sub h =
      let images = unique_images i.json i.step_actions i.tasks mid in
      elim (Option-cases (b.prepare images)) [
        | inr (message, failed) ↦ absurd (ground (arith, h, failed))
        | inl ready ↦
            elim (Result-cases (expand_bundle_step_actions i.json i.step_actions i.tasks mid)) [
              | inr (e, bad) ↦ absurd (ground (arith, h, ready, bad))
              | inl ((out, pl), good) ↦
                  let handed = submission i b params out pl in
                  let (made, first) =
                    conclude-submitted images handed mid (b.run_pipeline handed) in
                  (
                    out,
                    pl,
                    good,
                    ground (arith, h, ready, good, made),
                    ground (arith, ready, good, first),
                  )
            ]
      ]

  -- the two passes over the pipeline, as what each does to its tasks
  handed_on :
      (params : Map ParamValue) (pl mid last : Pipeline k) (out : Map (TaskSpec k))
      → apply_defaults pl.params i.params ≡ ok params
      → inline_resolver_backed_tasks i.json i.parse_duration i.registry
          (run_context i b pl params)
          pl
        ≡ ok mid
      → expand_bundle_step_actions i.json i.step_actions i.tasks mid ≡ ok (out, last)
      → IsSubmitted pl
          (unique_images i.json i.step_actions i.tasks mid)
          (submission i b params out last)
  unfolding inline_resolver_backed_tasks expand_bundle_step_actions
  handed_on params pl mid last out defaulted inlined expands =
      let ctx = run_context i b pl params in
      let (kept, t1, f1) = inlined_parts i ctx pl mid inlined in
      let (kept', o2, t2, f2) = expanded_parts i mid last out expands in
      let (clean, known) = expand_tasks-IsExpanded i.json i.step_actions i.tasks out o2 in
      let (once, listed) =
        unique_images-handed i.json i.step_actions i.tasks out known mid last t2 f2 in
      record {
        params = params;
        defaulted = defaulted;
        clean = clean;
        same = ground (arith, kept, kept');
        handed = refl;
        tasks = tasks-Carries i ctx out known pl.tasks mid.tasks last.tasks t1 t2;
        finally = tasks-Carries i ctx out known pl.finally mid.finally last.finally f1 f2;
        once = once;
        listed = listed;
      }

  -- What a pipeline backend is given to run: the params with their defaults; the pipeline with each of
  -- its tasks in its place; and in each the very body that an attempt at the task on docker, asked in
  -- the same scope, would inline the actions into, if there is one. None refers to a resolver or to an
  -- action. The images that it was given before, to fetch ahead, are each once exactly those of what
  -- it is given to run, with the templates of the steps applied, that can be fetched as they stand.
  pub run_via_pipeline_backend-IsSubmitted :
      (pl : Pipeline k) (sub : Submission k)
      → (run_via_pipeline_backend i b pl).submitted ≡ some sub
      → (images : List String) × ((run_via_pipeline_backend i b pl).prepared ≡ some images)
        × IsSubmitted pl images sub
  unfolding run_via_pipeline_backend
  run_via_pipeline_backend-IsSubmitted pl sub h =
      elim (Result-cases (apply_defaults pl.params i.params)) [
        | inr (name, missing) ↦ absurd (ground (arith, h, missing))
        | inl (params, given) ↦
            let ctx = run_context i b pl params in
            elim (Result-cases
              (inline_resolver_backed_tasks i.json i.parse_duration i.registry ctx pl)) [
                | inr (e, bad) ↦ absurd (ground (arith, h, given, bad))
                | inl (mid, good) ↦
                    let images = unique_images i.json i.step_actions i.tasks mid in
                    let (out, last, expands, same, first) =
                      run_inlined-submitted params mid sub (ground (arith, h, given, good)) in
                    (
                      images,
                      ground (arith, given, good, first),
                      subst (IsSubmitted pl images) same
                          (handed_on params pl mid last out given good expands),
                    )
              ]
      ]

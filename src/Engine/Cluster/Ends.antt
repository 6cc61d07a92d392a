-- ===== src/Engine/Cluster/Ends.antt =====
-- How a run on a pipeline backend ends.
use tkn_act.Base.{
  String, ◌≡◌, refl, sym, ap, ◌∙◌, subst, false, not, ◌&&◌, arith, Option, none, some, List, [],
  ◌∷◌, ◌++◌, map, any, mem, any-append, keys, Map, Result, ok, err, Result-cases, Option-cases, ◌⊎◌,
  inl, inr,
}
use mathlib.Core.List.{append_assoc}
use tkn_act.Tekton.{Kube, ParamValue, PipelineResultSpec, Pipeline}
use tkn_act.Engine.Outcome.{failed}
use tkn_act.Engine.Params.{apply_defaults}
use tkn_act.Engine.Lazy.{LazyError}
use tkn_act.Engine.TaskInput.{RunInput}
use tkn_act.Engine.Cluster.Expanding.{
  inline_resolver_backed_tasks, expand_bundle_step_actions, unique_images,
}
use tkn_act.Engine.Cluster.Reporting.{emit_cluster_task_events, dropped_cluster_result_names}
use tkn_act.Engine.Cluster.Carried.{inlined_parts}
use tkn_act.Engine.Cluster.{
  Submission, Verdict, ClusterError, missing_param, not_inlined, not_prepared, not_expanded,
  not_run, RunEvent, of_task, result_dropped, run_failed, run_end, PipelineBackend, ClusterRun,
  end_message,
}
use tkn_act.Engine.Cluster.Run.{
  stops, started, cancelled_or, run_context, submission, conclude, run_inlined,
  run_via_pipeline_backend,
}
use tkn_act.Engine.Cluster.Told.{
  is_end, status_told, error_told, drops, no_end-tasks, no_end-dropped, answered, is_missing,
  mem-dropped, drops-report,
}

module _ {k : Kube} (i : RunInput k) (b : PipelineBackend k) where
  abbrev pub Inlines : Pipeline k → Result LazyError (Pipeline k) → Type 0
  Inlines pl r =
      (params : Map ParamValue) × (apply_defaults pl.params i.params ≡ ok params)
      × (inline_resolver_backed_tasks i.json i.parse_duration i.registry (run_context i b pl params)
            pl
          ≡ r)

  -- Why a run does not come to its backend.
  abbrev pub Stopped : Pipeline k → ClusterError → Type 0
  Stopped pl (missing_param name) = ⊥
  Stopped pl (not_inlined x) = Inlines pl (err x)
  Stopped pl (not_prepared message) =
      (mid : Pipeline k) × Inlines pl (ok mid)
      × (b.prepare (unique_images i.json i.step_actions i.tasks mid) ≡ some message)
  Stopped pl (not_expanded x) =
      (mid : Pipeline k) × Inlines pl (ok mid)
      × (expand_bundle_step_actions i.json i.step_actions i.tasks mid ≡ err x)
  Stopped pl (not_run message) = ⊥

  abbrev pub Told : Pipeline k → ClusterRun k → Option (Submission k) → Type 0
  Told pl c none =
      (e : ClusterError) × (c.result.error ≡ some e)
      × Stopped pl e
      × (c.result.status ≡ some failed)
      × (drops c.events ≡ [])
  Told pl c (some sub) =
      (c.result.status ≡ some (cancelled_or i b (answered (b.run_pipeline sub))))
      × ((n : String) → mem n (drops c.events) ≡ is_missing pl (b.run_pipeline sub) n)

  -- The end of the run is reported once, after everything else.
  pub record Ended (pl : Pipeline k) (c : ClusterRun k) : Type 0 where
    pub before : List RunEvent
    pub last : RunEvent
    pub all : c.events ≡ before ++ last ∷ []
    pub once : any is_end before ≡ false
    pub told : (status_told last ≡ c.result.status) × (error_told last ≡ c.result.error)
    pub outcome : Told pl c c.submitted

  conclude-Ended :
      (images : List String) (sub : Submission k) (pl mid : Pipeline k) (r : Result String Verdict)
      → r ≡ b.run_pipeline sub
      → mid.results ≡ pl.results
      → Ended pl (conclude i b images sub mid r)
  unfolding conclude
  conclude-Ended images sub pl mid (err message) e same = record {
    before = started i b mid ∷ [];
    last = run_failed (cancelled_or i b failed) (not_run message);
    all = refl;
    once = refl;
    told = (refl, refl);
    outcome = (ground (arith, e), λ n. ground (arith, e));
  }
  conclude-Ended images sub pl mid (ok v) e same =
      let events = emit_cluster_task_events mid v.tasks in
      let names = dropped_cluster_result_names mid v.results in
      let tasks = map of_task events in
      let lost = map result_dropped names in
      record {
        before = started i b mid ∷ (tasks ++ lost);
        last = run_end (cancelled_or i b v.status) (end_message v.reason v.message) v.results;
        all = ap (λ l. started i b mid ∷ l) (sym (append_assoc tasks lost _));
        once =
            any-append is_end tasks lost
            ∙ ground (arith, no_end-tasks events, no_end-dropped names);
        told = (refl, refl);
        outcome = (
          ground (arith, e),
          λ n.
              ap (λ l. mem n l) (drops-report events names _ refl)
              ∙ (mem-dropped mid v.results n
                  ∙ (ap
                        (λ l.
                          mem n (map (λ (r : PipelineResultSpec). r.name) l)
                          && not (mem n (keys v.results)))
                        same
                      ∙ ap (λ r. is_missing pl r n) e)),
        );
      }

  stops-Ended :
      (images : Option (List String)) (before : List RunEvent) (e : ClusterError) (pl : Pipeline k)
      → Stopped pl e
      → any is_end before ≡ false
      → drops (before ++ run_failed failed e ∷ []) ≡ []
      → Ended pl (stops i b images before e)
  stops-Ended images before e pl why once kept = record {
    before = before;
    last = run_failed failed e;
    all = refl;
    once = once;
    told = (refl, refl);
    outcome = (e, refl, why, refl, kept);
  }

  run_inlined-Ended :
      (params : Map ParamValue) (pl mid : Pipeline k)
      → Inlines pl (ok mid)
      → mid.results ≡ pl.results
      → Ended pl (run_inlined i b params mid)
  unfolding run_inlined
  run_inlined-Ended params pl mid inlined same =
      let images = unique_images i.json i.step_actions i.tasks mid in
      let run = run_inlined i b params mid in
      elim (Option-cases (b.prepare images)) [
        | inr (message, bad) ↦
            let e : stops i b (some images) [] (not_prepared message) ≡ run = ground (arith, bad) in
            subst (Ended pl) e
              (stops-Ended (some images) [] (not_prepared message) pl (mid, inlined, bad) refl refl)
        | inl ready ↦
            elim (Result-cases (expand_bundle_step_actions i.json i.step_actions i.tasks mid)) [
              | inr (x, bad) ↦
                  let e : stops i b (some images) (started i b mid ∷ []) (not_expanded x) ≡ run =
                    ground (arith, ready, bad) in
                  subst (Ended pl) e (
                    stops-Ended (some images) (started i b mid ∷ []) (not_expanded x) pl
                      (mid, inlined, bad) refl refl)
              | inl ((tasks, last), good) ↦
                  let sub = submission i b params tasks last in
                  let e : conclude i b images sub mid (b.run_pipeline sub) ≡ run =
                    ground (arith, ready, good) in
                  subst (Ended pl) e
                    (conclude-Ended images sub pl mid (b.run_pipeline sub) refl same)
            ]
      ]

  -- A run on a pipeline backend that lacks a required param reports nothing and has no status. Any other
  -- reports its end exactly once, after everything else, with the status and the error that it
  -- returns. It does not come to the backend only where a reference cannot be resolved, the preparation
  -- fails or an action cannot be inlined, and is then failed; else it has the backend's
  -- status, failed if it breaks, and cancelled if the run was cancelled by then; and exactly the
  -- results that were declared and not produced have been reported as dropped.
  pub run_via_pipeline_backend-ends :
      (pl : Pipeline k)
      → ((name : String) × (apply_defaults pl.params i.params ≡ err name)
          × ((run_via_pipeline_backend i b pl).events ≡ [])
          × ((run_via_pipeline_backend i b pl).result.status ≡ none)
          × ((run_via_pipeline_backend i b pl).result.error ≡ some (missing_param name)))
        ⊎ Ended pl (run_via_pipeline_backend i b pl)
  unfolding run_via_pipeline_backend
  run_via_pipeline_backend-ends pl = elim (Result-cases (apply_defaults pl.params i.params)) [
    | inr (name, bad) ↦
        inl (name, bad, ground (arith, bad), ground (arith, bad), ground (arith, bad))
    | inl (params, given) ↦
        let ctx = run_context i b pl params in
        let run = run_via_pipeline_backend i b pl in
        inr
          (elim (Result-cases
            (inline_resolver_backed_tasks i.json i.parse_duration i.registry ctx pl)) [
              | inr (x, bad) ↦
                  let e : stops i b none [] (not_inlined x) ≡ run = ground (arith, given, bad) in
                  subst (Ended pl) e
                    (stops-Ended none [] (not_inlined x) pl (params, given, bad) refl refl)
              | inl (mid, good) ↦
                  let e : run_inlined i b params mid ≡ run = ground (arith, given, good) in
                  let (kept, _, _) = inlined_parts i ctx pl mid good in
                  subst (Ended pl) e (
                    run_inlined-Ended params pl mid (params, given, good)
                      (ap (λ q. q.results) kept))
            ])
  ]

-- ===== src/Engine/Eager/Taken.antt =====
-- Which pipeline a run takes, with `registry.Resolve` behind it, and what has been reported by then.
use tkn_act.Base.{
  String, ◌≡◌, refl, subst, false, arith, Option, none, some, option_or, [], ◌∷◌, length, Map,
  lookup, nat_eq, Result, ok, err, Result-cases, Option-cases, ◌⊎◌, inl, inr,
}
use tkn_act.Tekton.{Kube, TaskSpec, Pipeline}
use tkn_act.Refresolver.{Resolved, Registry, World}
use tkn_act.Refresolver.Cached.{is_refused, resolve}
use tkn_act.Refresolver.Again.{answered-named}
use tkn_act.Engine.Eager.{
  PipelineRef, PipelineInput, EagerError, not_fetched, no_registry, resolver_failed, run_failed,
  over, not_decoded, not_one_pipeline, resolver_start, resolver_succeeded, Decoded, first_remote,
  merge_tasks, runs, Choice, go_on, fails, succeeds, request, accept,
  maybe_resolve_top_level_pipeline_ref, named, choose_pipeline,
}
use tkn_act.Engine.Eager.Chosen.{
  lookup-merge_tasks, IsLocal, look_up-remote, look_up-local, look_up-with_pipeline,
}

module _ {k : Kube} (sha : String → String) (w : World)
    (decode : String → Result String (Decoded k)) where
  -- Why a reference cannot be resolved.
  abbrev pub Reason : Option Registry → PipelineRef → EagerError → Type 0
  Reason registry ref no_registry = registry ≡ none
  Reason registry ref (not_fetched e) =
      (r : Registry) × (registry ≡ some r) × ((resolve sha w r (request ref)).answer ≡ err e)
  Reason registry ref (not_decoded message) =
      (r : Registry) × (out : Resolved) × (registry ≡ some r)
      × ((resolve sha w r (request ref)).answer ≡ ok out)
      × (decode out.bytes ≡ err message)
  Reason registry ref (not_one_pipeline n) =
      (r : Registry) × (out : Resolved) × (d : Decoded k) × (registry ≡ some r)
      × ((resolve sha w r (request ref)).answer ≡ ok out)
      × (decode out.bytes ≡ ok d)
      × (length d.pipelines ≡ n)
      × (nat_eq n 1 ≡ false)

  -- The resolution failed; the end of the run is reported, yet a pipeline that is loaded runs on.
  pub record IsFailed (i : PipelineInput k) (registry : Option Registry) (c : Choice k)
      : Type 0 where
    pub ref : PipelineRef
    pub why : EagerError
    pub remote : first_remote i.pipeline_runs ≡ some ref
    pub reason : Reason registry ref why
    pub told :
        c.events
        ≡ (resolver_start ref.resolver ∷ resolver_failed ref.resolver why ∷ run_failed why ∷ [])
    pub untouched : c.input ≡ i
    pub next : c.next ≡ elim (lookup i.name i.pipelines) [ none ↦ over | some pl ↦ runs pl ]

  -- The one pipeline in the bytes that an allowed resolver gave runs, under its name.
  pub record IsFetched (i : PipelineInput k) (registry : Option Registry) (c : Choice k)
      : Type 0 where
    pub ref : PipelineRef
    pub r : Registry
    pub out : Resolved
    pub name : String
    pub pl : Pipeline k
    pub fetched : Map (TaskSpec k)
    pub remote : first_remote i.pipeline_runs ≡ some ref
    pub there : registry ≡ some r
    pub allowed : is_refused sha r ref.resolver ≡ false
    pub answered : (resolve sha w r (request ref)).answer ≡ ok out
    pub decoded : decode out.bytes ≡ ok (record { pipelines = (name, pl) ∷ []; tasks = fetched })
    pub told : c.events ≡ (
        resolver_start ref.resolver
        ∷ resolver_succeeded ref.resolver out.sha256 out.source out.cached
        ∷ [])
    pub next : c.next ≡ runs (named pl)
    pub tasks :
        (task : String)
        → lookup task c.input.tasks ≡ option_or (lookup task i.tasks) (lookup task fetched)

  failed :
      (i : PipelineInput k) (registry : Option Registry) (ref : PipelineRef) (why : EagerError)
      → first_remote i.pipeline_runs ≡ some ref
      → Reason registry ref why
      → IsFailed i registry (go_on i (fails i ref.resolver why))
  unfolding go_on
  failed i registry ref why remote reason = record {
    ref = ref;
    why = why;
    remote = remote;
    reason = reason;
    told = refl;
    untouched = refl;
    next = look_up-remote i ref remote;
  }

  module _ (i : PipelineInput k) (r : Registry) (ref : PipelineRef) (out : Resolved)
      (remote : first_remote i.pipeline_runs ≡ some ref)
      (answered : (resolve sha w r (request ref)).answer ≡ ok out) where
    abbrev IsAccepted : Type 0
    IsAccepted =
        IsFailed i (some r) (go_on i (accept decode i ref.resolver out))
        ⊎ IsFetched i (some r) (go_on i (accept decode i ref.resolver out))

    fetches :
        (n : String) (pl : Pipeline k) (tasks : Map (TaskSpec k))
        → decode out.bytes ≡ ok (record { pipelines = (n, pl) ∷ []; tasks = tasks })
        → IsFetched i (some r) (go_on i (succeeds i ref.resolver out pl tasks))
    unfolding go_on
    fetches n pl tasks good = record {
      ref = ref;
      r = r;
      out = out;
      name = n;
      pl = pl;
      fetched = tasks;
      remote = remote;
      there = refl;
      allowed = (answered-named sha w r (request ref) out answered).1;
      answered = answered;
      decoded = good;
      told = refl;
      next = look_up-with_pipeline i (merge_tasks i.tasks tasks) pl;
      tasks = λ task. lookup-merge_tasks task i.tasks tasks;
    }

    refusal :
        (why : EagerError)
        → Reason (some r) ref why
        → fails i ref.resolver why ≡ accept decode i ref.resolver out
        → IsAccepted
    refusal why reason e =
        inl
          (subst (λ x. IsFailed i (some r) (go_on i x)) e (failed i (some r) ref why remote reason))

    accepted_of :
        (pipelines : Map (Pipeline k)) (tasks : Map (TaskSpec k))
        → decode out.bytes ≡ ok (record { pipelines = pipelines; tasks = tasks })
        → IsAccepted
    unfolding accept
    accepted_of [] tasks good =
        refusal (not_one_pipeline 0) (r, out, _, refl, answered, good, refl, refl)
          (ground (arith, good))
    accepted_of (one ∷ other ∷ rest) tasks good =
        refusal (not_one_pipeline (length (one ∷ other ∷ rest)))
          (r, out, _, refl, answered, good, refl, ground arith) (ground (arith, good))
    accepted_of ((n, pl) ∷ []) tasks good = inr (
        subst (λ e. IsFetched i (some r) (go_on i e)) (ground (arith, good))
          (fetches n pl tasks good))

    accepted : IsAccepted
    unfolding accept
    accepted = elim (Result-cases (decode out.bytes)) [
      | inr (message, bad) ↦
          refusal (not_decoded message) (r, out, refl, answered, bad) (ground (arith, bad))
      | inl (d, good) ↦ accepted_of d.pipelines d.tasks good
    ]

  from_remote :
      (i : PipelineInput k) (registry : Option Registry) (ref : PipelineRef)
      → first_remote i.pipeline_runs ≡ some ref
      → IsFailed i registry (choose_pipeline sha w decode i registry)
        ⊎ IsFetched i registry (choose_pipeline sha w decode i registry)
  unfolding choose_pipeline maybe_resolve_top_level_pipeline_ref
  from_remote i none ref remote =
      let resolved = maybe_resolve_top_level_pipeline_ref sha w decode i none in
      let same : fails i ref.resolver no_registry ≡ resolved = ground (arith, remote) in
      inl
        (subst (λ x. IsFailed i none (go_on i x)) same (failed i none ref no_registry remote refl))
  from_remote i (some r) ref remote =
      let resolved = maybe_resolve_top_level_pipeline_ref sha w decode i (some r) in
      elim (Result-cases (resolve sha w r (request ref)).answer) [
        | inr (e, bad) ↦
            let same : fails i ref.resolver (not_fetched e) ≡ resolved =
              ground (arith, remote, bad) in
            inl (
              subst (λ x. IsFailed i (some r) (go_on i x)) same
                (failed i (some r) ref (not_fetched e) remote (r, refl, bad)))
        | inl (out, answered) ↦
            let same : accept decode i ref.resolver out ≡ resolved =
              ground (arith, remote, answered) in
            subst (λ x. IsFailed i (some r) (go_on i x) ⊎ IsFetched i (some r) (go_on i x)) same
              (accepted i r ref out remote answered)
      ]

  -- A run takes the pipeline it names, without a report, where no PipelineRun has a resolver. Else the
  -- first such reference decides. If an allowed resolver answers with bytes that hold one pipeline, that
  -- pipeline runs, and the tasks that were loaded go before those that came with it. If not, the end of
  -- the run is reported as failed, with what went wrong first: no registry, no answer, bytes that do not
  -- decode, or another number of pipelines. Then the run is over only if none of its name was loaded.
  pub choose_pipeline-cases :
      (i : PipelineInput k) (registry : Option Registry)
      → IsLocal i (choose_pipeline sha w decode i registry)
        ⊎ (IsFailed i registry (choose_pipeline sha w decode i registry)
            ⊎ IsFetched i registry (choose_pipeline sha w decode i registry))
  unfolding choose_pipeline maybe_resolve_top_level_pipeline_ref
  choose_pipeline-cases i registry = elim (Option-cases (first_remote i.pipeline_runs)) [
    | inl local ↦ inl (record {
      local = local;
      silent = ground (arith, local);
      untouched = ground (arith, local);
      next = ground (arith, local, look_up-local i local);
    })
    | inr (ref, remote) ↦ inr (from_remote i registry ref remote)
  ]

-- ===== src/Engine/Lazy/Fetched.antt =====
-- lazy_resolve.go with the registry of internal/refresolver behind it: `registry.Resolve`, and the
-- decoding of the bytes, which is an argument.
use tkn_act.Base.{
  ◌↔◌, String, ◌≡◌, false, arith, Option, some, List, [], ◌∷◌, Map, Result, ok, err, Result-cases,
  List-cases, bind_parts, inl, inr, subst,
}
use tkn_act.Base.Integers.{ℤ}
use tkn_act.Tekton.{Kube, TaskRef, TaskSpec}
use tkn_act.Resolver.Scope.{Json, Context}
use tkn_act.Validator.Steps.{validate_task_spec}
use tkn_act.Refresolver.{kind_task, Request, Resolved, ResolveError, Registry, World}
use tkn_act.Refresolver.Cached.{is_refused, resolve}
use tkn_act.Refresolver.Again.{answered-named}
use tkn_act.Engine.Lazy.{resolver_params, lookup_task_spec_lazy}

module _ (sha : String → String) (w : World) (r : Registry) {k : Kube}
    (decode : String → Result String (List (TaskSpec k))) (describe : ResolveError → String) where
  abbrev pub request : String → Map String → Request
  request resolver params = record { kind = kind_task; resolver = resolver; params = params }

  unfoldable pub fetch_tasks : String → Map String → Result String (List (TaskSpec k))
  fetch_tasks resolver params = elim (resolve sha w r (request resolver params)).answer [
    | err e ↦ err (describe e)
    | ok out ↦ decode out.bytes
  ]

  -- A task that was fetched for a reference.
  pub record IsFetched (json : Json) (ctx : Context) (parse_duration : String → Option ℤ)
      (name : String) (ref : TaskRef) (spec : TaskSpec k) : Type 0 where
    pub params : Map String
    pub out : Resolved
    pub bound : resolver_params json ctx ref.resolver_params [] ≡ ok params
    pub allowed : is_refused sha r ref.resolver ≡ false
    pub answered : (resolve sha w r (request ref.resolver params)).answer ≡ ok out
    pub decoded : decode out.bytes ≡ ok (spec ∷ [])
    pub valid : validate_task_spec parse_duration name spec ≡ []

  fetch_tasks-parts :
      (resolver : String) (params : Map String) (specs : List (TaskSpec k))
      → fetch_tasks resolver params ≡ ok specs
      → (out : Resolved) × ((resolve sha w r (request resolver params)).answer ≡ ok out)
        × (decode out.bytes ≡ ok specs)
  unfolding fetch_tasks
  fetch_tasks-parts resolver params specs h =
      elim (Result-cases (resolve sha w r (request resolver params)).answer) [
        | inr (e, bad) ↦ absurd (ground (arith, h, bad))
        | inl (out, good) ↦ (out, good, ground (arith, h, good))
      ]

  lookup_task_spec_lazy-IsFetched :
      (json : Json) (ctx : Context) (parse_duration : String → Option ℤ) (name : String)
      (ref : TaskRef) (spec : TaskSpec k)
      → lookup_task_spec_lazy json ctx parse_duration (some fetch_tasks) name ref ≡ ok spec
      → IsFetched json ctx parse_duration name ref spec
  unfolding lookup_task_spec_lazy
  lookup_task_spec_lazy-IsFetched json ctx parse_duration name ref spec h =
      let (params, bound, h1) =
        bind_parts (resolver_params json ctx ref.resolver_params []) _ spec h in
      elim (Result-cases (fetch_tasks ref.resolver params)) [
        | inr (message, bad) ↦ absurd (ground (arith, h1, bad))
        | inl ([], good) ↦ absurd (ground (arith, h1, good))
        | inl (one ∷ other ∷ rest, good) ↦ absurd (ground (arith, h1, good))
        | inl (one ∷ [], good) ↦ elim (List-cases (validate_task_spec parse_duration name one)) [
          | inr (e, es, wrong) ↦ absurd (ground (arith, h1, good, wrong))
          | inl valid ↦
              let same : one ≡ spec = ground (arith, h1, good, valid) in
              let (out, answered, decoded) =
                fetch_tasks-parts ref.resolver params (one ∷ []) good in
              subst (IsFetched json ctx parse_duration name ref) same (record {
                params = params;
                out = out;
                bound = bound;
                allowed = (answered-named sha w r (request ref.resolver params) out answered).1;
                answered = answered;
                decoded = decoded;
                valid = valid;
              })
        ]
      ]

  IsFetched-lookup_task_spec_lazy :
      (json : Json) (ctx : Context) (parse_duration : String → Option ℤ) (name : String)
      (ref : TaskRef) (spec : TaskSpec k)
      → IsFetched json ctx parse_duration name ref spec
      → lookup_task_spec_lazy json ctx parse_duration (some fetch_tasks) name ref ≡ ok spec
  unfolding lookup_task_spec_lazy fetch_tasks
  IsFetched-lookup_task_spec_lazy json ctx parse_duration name ref spec f =
      ground (arith, f.bound, f.answered, f.decoded, f.valid)

  -- A remote reference gives a task exactly if the registry answers it, which it does through a resolver
  -- that the allow-list lets through, with bytes that hold this one task, every param of the
  -- reference resolves, and the task passes ValidateTaskSpec.
  pub lookup_task_spec_lazy_iff :
      (json : Json) (ctx : Context) (parse_duration : String → Option ℤ) (name : String)
      (ref : TaskRef) (spec : TaskSpec k)
      → (lookup_task_spec_lazy json ctx parse_duration (some fetch_tasks) name ref ≡ ok spec)
        ↔ IsFetched json ctx parse_duration name ref spec
  lookup_task_spec_lazy_iff json ctx parse_duration name ref spec = (
    lookup_task_spec_lazy-IsFetched json ctx parse_duration name ref spec,
    IsFetched-lookup_task_spec_lazy json ctx parse_duration name ref spec,
  )

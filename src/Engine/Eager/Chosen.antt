-- ===== src/Engine/Eager/Chosen.antt =====
-- What the head of RunPipeline comes to where nothing is to be resolved, and where a resolution fails.
use tkn_act.Base.{
  String, eq-cases, ◌≡◌, refl, arith, eq_refl, Option, none, some, option_or, List, [], ◌∷◌,
  is_some, any, Map, lookup, insert, lookup-insert, Option-cases, inl, inr,
}
use tkn_act.Tekton.{Kube, TaskSpec, Pipeline}
use tkn_act.Engine.Eager.{
  PipelineRef, PipelineInput, first_remote, is_remote, has_top_level_pipeline_ref_resolver,
  merge_tasks, runs, over, not_found, Choice, look_up, named, with_pipeline,
}

first_remote-any : (rs : List (Option PipelineRef)) → any is_remote rs ≡ is_some (first_remote rs)
unfolding first_remote
first_remote-any [] = refl
first_remote-any (none ∷ rs) = first_remote-any rs
first_remote-any (some ref ∷ rs) = ground (arith, first_remote-any rs)

pub lookup-merge_tasks :
    {A : Type 0} (name : String) (here more : Map A)
    → lookup name (merge_tasks here more) ≡ option_or (lookup name here) (lookup name more)
unfolding merge_tasks lookup
lookup-merge_tasks name here [] = ground (arith, Option-cases (lookup name here))
lookup-merge_tasks name here ((n, t) ∷ more) = elim (Option-cases (lookup n here)) [
  | inr (a, there) ↦ ground (
    arith,
    there,
    eq-cases n name,
    lookup-merge_tasks name here more,
    Option-cases (lookup name here),
  )
  | inl missing ↦ ground (
    arith,
    missing,
    eq-cases n name,
    lookup-insert n name t here,
    lookup-merge_tasks name (insert n t here) more,
    Option-cases (lookup name here),
  )
]

-- No reference has a resolver: nothing is reported, and the run takes the pipeline that it names.
pub record IsLocal {k : Kube} (i : PipelineInput k) (c : Choice k) : Type 0 where
  pub local : first_remote i.pipeline_runs ≡ none
  pub silent : c.events ≡ []
  pub untouched : c.input ≡ i
  pub next :
      c.next ≡ elim (lookup i.name i.pipelines) [ none ↦ not_found i.name | some pl ↦ runs pl ]

pub look_up-remote :
    {k : Kube} (i : PipelineInput k) (ref : PipelineRef)
    → first_remote i.pipeline_runs ≡ some ref
    → look_up i ≡ elim (lookup i.name i.pipelines) [ none ↦ over | some pl ↦ runs pl ]
unfolding look_up has_top_level_pipeline_ref_resolver
look_up-remote i ref h =
    ground (arith, first_remote-any i.pipeline_runs, h, Option-cases (lookup i.name i.pipelines))

pub look_up-local :
    {k : Kube} (i : PipelineInput k)
    → first_remote i.pipeline_runs ≡ none
    → look_up i ≡ elim (lookup i.name i.pipelines) [ none ↦ not_found i.name | some pl ↦ runs pl ]
unfolding look_up has_top_level_pipeline_ref_resolver
look_up-local i h =
    ground (arith, first_remote-any i.pipeline_runs, h, Option-cases (lookup i.name i.pipelines))

pub look_up-with_pipeline :
    {k : Kube} (i : PipelineInput k) (tasks : Map (TaskSpec k)) (pl : Pipeline k)
    → look_up (with_pipeline i tasks pl) ≡ runs (named pl)
unfolding look_up
look_up-with_pipeline i tasks pl = ground (
  arith,
  lookup-insert (named pl).name (named pl).name (named pl) i.pipelines,
  eq_refl (named pl).name,
)

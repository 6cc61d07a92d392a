-- ===== src/Engine/Eager.antt =====
-- eager_pipelineref.go, and the head of RunPipeline in engine.go that calls it: a PipelineRun that names
-- its pipeline by a resolver has it fetched before anything else. The decoding of the bytes is an
-- argument. Of the events, times are left out, and what a failed answer holds of a digest.
pub mod Taken
pub mod Chosen
use Prim.Native.String.{◌++◌ as str_append}
use tkn_act.Base.{
  ℕ, String, Bool, true, false, not, ◌==◌, Option, none, some, List, [], ◌∷◌, if◌then◌else◌, map,
  length, Map, lookup, insert, is_some, any, Result, ok, err,
}
use tkn_act.Base.Order.{sort}
use tkn_act.Tekton.{
  Kube, unset, string, array, object, Param, ParamValue, StepAction, TaskSpec, Pipeline,
}
use tkn_act.Engine.Lazy.{join}
use tkn_act.Refresolver.{kind_pipeline, Request, Resolved, ResolveError, Registry, World}
use tkn_act.Refresolver.Cached.{resolve}

pub record PipelineRef : Type 0 where
  pub name : String
  pub resolver : String
  pub resolver_params : List Param

-- Of a PipelineRun in the bundle, its `pipelineRef` is read.
pub record PipelineInput (k : Kube) : Type 0 where
  pub tasks : Map (TaskSpec k)
  pub step_actions : Map (StepAction k)
  pub pipelines : Map (Pipeline k)
  pub pipeline_runs : List (Option PipelineRef)
  pub name : String

pub data EagerError : Type 0 where
  no_registry : EagerError
  not_fetched : ResolveError → EagerError
  not_decoded : String → EagerError
  not_one_pipeline : ℕ → EagerError

pub data EagerEvent : Type 0 where
  resolver_start : String → EagerEvent
  resolver_succeeded : String → String → String → Bool → EagerEvent
  resolver_failed : String → EagerError → EagerEvent
  run_failed : EagerError → EagerEvent

-- the kinds of document that are read of what was decoded
pub record Decoded (k : Kube) : Type 0 where
  pub pipelines : Map (Pipeline k)
  pub tasks : Map (TaskSpec k)

-- the first reference that has a resolver
unfoldable pub first_remote : List (Option PipelineRef) → Option PipelineRef
first_remote [] = none
first_remote (none ∷ runs) = first_remote runs
first_remote (some ref ∷ runs) = if ref.resolver == "" then first_remote runs else some ref

abbrev pub is_remote : Option PipelineRef → Bool
is_remote none = false
is_remote (some ref) = not (ref.resolver == "")

unfoldable pub has_top_level_pipeline_ref_resolver : List (Option PipelineRef) → Bool
has_top_level_pipeline_ref_resolver runs = any is_remote runs

abbrev pub entry_text : String × String → String
entry_text (key, item) = str_append key (str_append "=" item)

-- a param as it is written
unfoldable pub literal_text : ParamValue → String
unfolding join sort
literal_text v = elim v.type [
  | string ↦ v.string_val
  | unset ↦ v.string_val
  | array ↦ join "," v.array_val
  | object ↦ join "," (sort (map entry_text v.object_val))
]

unfoldable pub top_level_params : List Param → Map String → Map String
unfolding literal_text
top_level_params [] params = params
top_level_params (p ∷ ps) params = top_level_params ps (insert p.name (literal_text p.value) params)

-- tasks that are there already stay
unfoldable pub merge_tasks : {A : Type 0} → Map A → Map A → Map A
merge_tasks here [] = here
merge_tasks here ((n, t) ∷ more) =
    merge_tasks (if is_some (lookup n here) then here else insert n t here) more

-- What the resolution leaves behind; no pipeline where it failed or nothing was to be resolved.
pub record Eager (k : Kube) : Type 0 where
  pub events : List EagerEvent
  pub pipeline : Option (Pipeline k)
  pub tasks : Map (TaskSpec k)

-- How the run goes on, which may be that it is over.
pub data Next (k : Kube) : Type 0 where
  runs : Pipeline k → Next k
  over : Next k
  not_found : String → Next k

pub record Choice (k : Kube) : Type 0 where
  pub events : List EagerEvent
  pub input : PipelineInput k
  pub next : Next k

abbrev pub request : PipelineRef → Request
request ref = record {
  kind = kind_pipeline;
  resolver = ref.resolver;
  params = top_level_params ref.resolver_params [];
}

module _ {k : Kube} where
  abbrev pub fails : PipelineInput k → String → EagerError → Eager k
  fails i name e = record {
    events = resolver_start name ∷ resolver_failed name e ∷ run_failed e ∷ [];
    pipeline = none;
    tasks = i.tasks;
  }

  abbrev pub succeeds :
      PipelineInput k → String → Resolved → Pipeline k → Map (TaskSpec k) → Eager k
  succeeds i name out pl fetched = record {
    events = resolver_start name ∷ resolver_succeeded name out.sha256 out.source out.cached ∷ [];
    pipeline = some pl;
    tasks = merge_tasks i.tasks fetched;
  }

  unfoldable pub look_up : PipelineInput k → Next k
  unfolding has_top_level_pipeline_ref_resolver
  look_up i = elim (lookup i.name i.pipelines) [
    | some pl ↦ runs pl
    | none ↦ if has_top_level_pipeline_ref_resolver i.pipeline_runs then over else not_found i.name
  ]

  abbrev pub named : Pipeline k → Pipeline k
  named pl = if pl.name == "" then record pl { name = "resolved" } else pl

  -- the input with a pipeline that was fetched
  abbrev pub with_pipeline : PipelineInput k → Map (TaskSpec k) → Pipeline k → PipelineInput k
  with_pipeline i tasks pl = record i {
    tasks = tasks;
    pipelines = insert (named pl).name (named pl) i.pipelines;
    name = (named pl).name;
  }

  unfoldable pub go_on : PipelineInput k → Eager k → Choice k
  unfolding look_up
  go_on i e = elim e.pipeline [
    | none ↦ record { events = e.events; input = i; next = look_up i }
    | some pl ↦
        let i' = with_pipeline i e.tasks pl in
        record { events = e.events; input = i'; next = look_up i' }
  ]

  -- from the bytes on
  unfoldable pub accept :
      (String → Result String (Decoded k)) → PipelineInput k → String → Resolved → Eager k
  unfolding merge_tasks
  accept decode i name out = elim (decode out.bytes) [
    | err message ↦ fails i name (not_decoded message)
    | ok d ↦ elim d.pipelines [
      | [] ↦ fails i name (not_one_pipeline 0)
      | (n, pl) ∷ [] ↦ succeeds i name out pl d.tasks
      | one ∷ other ∷ rest ↦ fails i name (not_one_pipeline (length (one ∷ other ∷ rest)))
    ]
  ]

  module _ (sha : String → String) (w : World) (decode : String → Result String (Decoded k)) where
    unfoldable pub maybe_resolve_top_level_pipeline_ref :
        PipelineInput k → Option Registry → Eager k
    unfolding accept first_remote top_level_params
    maybe_resolve_top_level_pipeline_ref i registry = elim (first_remote i.pipeline_runs) [
      | none ↦ record { events = []; pipeline = none; tasks = i.tasks }
      | some ref ↦ elim registry [
        | none ↦ fails i ref.resolver no_registry
        | some r ↦ elim (resolve sha w r (request ref)).answer [
          | err e ↦ fails i ref.resolver (not_fetched e)
          | ok out ↦ accept decode i ref.resolver out
        ]
      ]
    ]

    -- RunPipeline, up to the pipeline that is run
    unfoldable pub choose_pipeline : PipelineInput k → Option Registry → Choice k
    unfolding maybe_resolve_top_level_pipeline_ref go_on
    choose_pipeline i registry = go_on i (maybe_resolve_top_level_pipeline_ref i registry)

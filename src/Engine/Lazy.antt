-- ===== src/Engine/Lazy.antt =====
-- lazy_resolve.go: the task that a remote reference names, fetched when the pipeline task starts.
-- The registry with the decoding of its bytes is an argument: it gives the tasks that were decoded,
-- or a message.
pub mod Fetched
use Prim.Native.String.{◌++◌ as str_append}
use tkn_act.Base.{
  ℕ, String, Option, none, some, List, [], ◌∷◌, length, traverse, Map, insert, Result, ok, err,
  ◌>>=◌,
}
use tkn_act.Base.Order.{sort}
use tkn_act.Base.Integers.{ℤ}
use tkn_act.Tekton.{Kube, unset, string, array, object, Param, ParamValue, TaskRef, TaskSpec}
use tkn_act.Resolver.Scope.{Json, Context, LookupError}
use tkn_act.Resolver.{strict, substitute}
use tkn_act.Validator.Errors.{Invalid}
use tkn_act.Validator.Steps.{validate_task_spec}

pub data LazyError : Type 0 where
  no_registry : LazyError
  bad_param : String → LookupError → LazyError
  not_fetched : String → LazyError
  not_one_task : ℕ → LazyError
  invalid_task : List Invalid → LazyError

-- strings.Join
unfoldable pub join : String → List String → String
join sep [] = ""
join sep (s ∷ []) = s
join sep (s ∷ t ∷ ss) = str_append s (str_append sep (join sep (t ∷ ss)))

module _ (json : Json) (ctx : Context) where
  unfoldable pub entry_texts : Map String → Result LookupError (List String)
  entry_texts [] = ok []
  entry_texts ((key, item) ∷ m) = do
    s ← substitute json ctx strict item
    rest ← entry_texts m
    ok (str_append key (str_append "=" s) ∷ rest)

  -- one param, as the text that a resolver gets
  unfoldable pub resolver_param : ParamValue → Result LookupError String
  unfolding entry_texts join
  resolver_param v = elim v.type [
    | string ↦ substitute json ctx strict v.string_val
    | unset ↦ substitute json ctx strict v.string_val
    | array ↦ do parts ← traverse (substitute json ctx strict) v.array_val; ok (join "," parts)
    | object ↦ do parts ← entry_texts v.object_val; ok (join "," (sort parts))
  ]

  unfoldable pub resolver_params : List Param → Map String → Result LazyError (Map String)
  unfolding resolver_param
  resolver_params [] params = ok params
  resolver_params (p ∷ ps) params = elim (resolver_param p.value) [
    | err e ↦ err (bad_param p.name e)
    | ok s ↦ resolver_params ps (insert p.name s params)
  ]

  unfoldable pub lookup_task_spec_lazy :
      {k : Kube}
      → (String → Option ℤ)
      → Option (String → Map String → Result String (List (TaskSpec k)))
      → String
      → TaskRef
      → Result LazyError (TaskSpec k)
  unfolding resolver_params
  lookup_task_spec_lazy parse_duration none name ref = err no_registry
  lookup_task_spec_lazy parse_duration (some registry) name ref = do
    params ← resolver_params ref.resolver_params []
    elim (registry ref.resolver params) [
      | err message ↦ err (not_fetched message)
      | ok [] ↦ err (not_one_task 0)
      | ok (spec ∷ []) ↦ elim (validate_task_spec parse_duration name spec) [
        | [] ↦ ok spec
        | e ∷ es ↦ err (invalid_task (e ∷ es))
      ]
      | ok (spec ∷ other ∷ rest) ↦ err (not_one_task (length (spec ∷ other ∷ rest)))
    ]

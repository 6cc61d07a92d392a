-- ===== src/Examples/References.antt =====
-- References in a script and in a list of arguments.
use tkn_act.Base.{
  String, ◌≡◌, refl, ◌==◌, none, some, List, [], ◌∷◌, if◌then◌else◌, lookup as find, ok,
}
use tkn_act.Base.Text.{
  size, strip_prefix, has_prefix, strip_suffix, span, starts, all_codes, cut_first, cut_last,
  split_n, decimal,
}
use tkn_act.Resolver.Scope.{Context, Json, namespace_of, index_suffix, index_into}
use tkn_act.Resolver.Lookup.{lookup_param, lookup_tasks, lookup_task_result, dispatch, lookup}
use tkn_act.Resolver.{
  strict, defer_all, ref_at, replace_from, resolve, scan_refs, substitute, is_array_star_ref,
  expand_array_star, substitute_arg, substitute_args,
}
use tkn_act.Resolver.Modes.{substitute-strict}

-- It knows one list.
abbrev pub json : Json
json = record {
  list_of = λ s. if s == "[a,b]" then some ("a" ∷ "b" ∷ []) else none;
  map_of = λ s. none;
}

abbrev pub ctx : Context
ctx = record {
  params = ("who", "you") ∷ [];
  array_params = ("all", "x" ∷ "y" ∷ []) ∷ [];
  object_params = [];
  results = ("build", ("out", "[a,b]") ∷ []) ∷ [];
  context_vars = [];
  step_results = none;
  current_step = "";
  bound_workspaces = none;
  tasks_status = "";
  task_statuses = none;
  workspace_paths = [];
}

greeting :
    substitute json ctx strict "hi $(params.who), $$HOME is $(pwd)" ≡ ok "hi you, $HOME is $(pwd)"
unfolding substitute scan_refs resolve ref_at replace_from lookup dispatch namespace_of lookup_param
    find size strip_prefix has_prefix strip_suffix span starts
greeting = refl

element : substitute json ctx strict "$(tasks.build.results.out[1])" ≡ ok "b"
unfolding substitute scan_refs resolve ref_at replace_from lookup dispatch namespace_of lookup_tasks
    lookup_task_result index_suffix index_into find size strip_prefix has_prefix strip_suffix span
    starts split_n cut_first cut_last all_codes decimal
element = refl

abbrev arguments : List String
arguments = "$(params.all[*])" ∷ "$(params.who)" ∷ []

spliced : substitute_args json ctx strict arguments ≡ ok ("x" ∷ "y" ∷ "you" ∷ [])
unfolding substitute_args substitute_arg is_array_star_ref expand_array_star substitute scan_refs
    resolve ref_at replace_from lookup dispatch namespace_of lookup_param find size strip_prefix
    has_prefix strip_suffix span starts all_codes
spliced = refl

substitute-strict_example :
    substitute json ctx defer_all "hi $(params.who), $$HOME is $(pwd)"
    ≡ ok "hi you, $HOME is $(pwd)"
substitute-strict_example =
    substitute-strict json ctx defer_all "hi $(params.who), $$HOME is $(pwd)"
      "hi you, $HOME is $(pwd)" greeting

-- ===== src/Examples/Steps.antt =====
-- The params of a run, a task's `when` expressions, and a step that inherits.
use tkn_act.Base.{
  String, ◌≡◌, refl, Option, none, some, List, [], ◌∷◌, Map, lookup, insert, Result, ok,
}
use tkn_act.Base.Text.{
  size, strip_prefix, has_prefix, strip_suffix, span, starts, all_codes, lower_eq,
}
use tkn_act.Tekton.{EnvVar, StepTemplate, Step, WhenExpression, ParamValue, ParamSpec, string}
use tkn_act.Resolver.Scope.{namespace_of}
use tkn_act.Resolver.Lookup.{lookup_param, dispatch, lookup as look_up}
use tkn_act.Resolver.{
  ref_at, replace_from, resolve, scan_refs, substitute, is_array_star_ref, expand_array_star,
  substitute_arg, substitute_args,
}
use tkn_act.Engine.When.{evaluate_when, refuses}
use tkn_act.Engine.When.Verdict.{IsExplained, evaluate_when-IsExplained}
use tkn_act.Examples.Pipelines.{kube}
use tkn_act.Examples.References.{json, ctx}

abbrev pub variable : String → String → EnvVar kube
variable n v = record { name = n; value = v; value_from = none }

abbrev template : StepTemplate kube
template = record {
  image = "alpine";
  command = "sh" ∷ [];
  args = [];
  env = variable "CI" "1" ∷ variable "LANG" "C" ∷ [];
  working_dir = "";
  resources = none;
  image_pull_policy = "";
  security_context = none;
  env_from = [];
}

abbrev pub step : Step kube
step = record {
  name = "s";
  display_name = "";
  ref = none;
  params = [];
  image = "";
  command = [];
  args = "-c" ∷ [];
  script = "";
  env = variable "LANG" "en" ∷ [];
  working_dir = "";
  resources = none;
  image_pull_policy = "";
  security_context = none;
  env_from = [];
  timeout = "";
  on_error = "";
  results = [];
  volume_mounts = [];
}

abbrev greets : List WhenExpression
greets =
    record { input = "$(params.who)"; operator = "in"; values = "you" ∷ "them" ∷ [] }
    ∷ record { input = "x"; operator = "notin"; values = "$(params.all[*])" ∷ [] }
    ∷ []

greets-stops :
    evaluate_when json ctx greets
    ≡ ok (some (record { input = "x"; operator = "notin"; values = "$(params.all[*])" ∷ [] }, "x"))
unfolding evaluate_when refuses substitute_args substitute_arg is_array_star_ref expand_array_star
    substitute scan_refs resolve ref_at replace_from look_up dispatch namespace_of lookup_param
    tkn_act.Base.lookup size strip_prefix has_prefix strip_suffix span starts all_codes lower_eq
greets-stops = refl

evaluate_when-IsExplained_example : IsExplained json ctx greets (evaluate_when json ctx greets)
evaluate_when-IsExplained_example = evaluate_when-IsExplained json ctx greets

abbrev value : String → ParamValue
value s = record { type = string; string_val = s; array_val = []; object_val = [] }

abbrev declared : List ParamSpec
declared =
    record { name = "rev"; default = some (value "main") }
    ∷ record { name = "url"; default = none }
    ∷ []

abbrev given : Map ParamValue
given = ("url", value "here") ∷ []

-- ===== src/Examples/Actions.antt =====
-- A step that calls for an action.
use tkn_act.Base.{
  String, ◌≡◌, refl, Bool, false, Option, none, some, List, [], ◌∷◌, map, any, is_some, Map, lookup,
  insert, Result, ok,
}
use tkn_act.Base.Text.{size, strip_prefix, has_prefix, strip_suffix, span, starts, all_codes}
use tkn_act.Tekton.{Step, StepAction, TaskSpec, string}
use tkn_act.Resolver.Scope.{namespace_of}
use tkn_act.Resolver.Lookup.{
  lookup_param, dispatch, lookup as look_up, lookup_allow_defer, may_defer,
}
use tkn_act.Resolver.{
  strict, defer_all, ref_at, replace_from, resolve, scan_refs, substitute, is_array_star_ref,
  expand_array_star, substitute_arg, substitute_args,
}
use tkn_act.Engine.StepActions.{
  default_params, bind_params, inline_env, inline_step_action, resolve_step, resolve_steps,
  resolve_step_actions,
}
use tkn_act.Engine.StepActions.Failing.{Turns, inline_step_action-Turns}
use tkn_act.Examples.Pipelines.{kube}
use tkn_act.Examples.References.{json, ctx}
use tkn_act.Examples.Steps.{step, variable}

abbrev pub greet : StepAction kube
greet = record {
  name = "greet";
  params = record { name = "word"; default = none } ∷ [];
  results = record { name = "said"; type = "" } ∷ [];
  image = "alpine";
  command = [];
  args = [];
  script = "echo $(params.word)";
  env = variable "WORD" "$(params.word)" ∷ [];
  working_dir = "";
  image_pull_policy = "";
  resources = none;
  volume_mounts = [];
}

abbrev pub calling : Step kube
calling = record step {
  ref = some "greet";
  args = [];
  env = [];
  timeout = "5s";
  params =
      record {
        name = "word";
        value = record { type = string; string_val = "hi"; array_val = []; object_val = [] };
      }
      ∷ [];
}

abbrev pub called : Step kube
called = record step {
  ref = none;
  args = [];
  params = [];
  image = "alpine";
  script = "echo hi";
  env = variable "WORD" "hi" ∷ [];
  results = record { name = "said"; type = "" } ∷ [];
}

greet-inlined : inline_step_action json calling greet ≡ ok called
unfolding inline_step_action default_params bind_params inline_env substitute_args substitute_arg
    is_array_star_ref expand_array_star substitute scan_refs resolve ref_at replace_from
    lookup_allow_defer look_up may_defer dispatch namespace_of lookup_param tkn_act.Base.lookup
    insert size strip_prefix has_prefix strip_suffix span starts all_codes
greet-inlined = refl

inline_step_action-Turns_example : Turns json calling greet (inline_step_action json calling greet)
inline_step_action-Turns_example = inline_step_action-Turns json calling greet

abbrev pub spec_of : Step kube → TaskSpec kube
spec_of s = record {
  params = [];
  workspaces = [];
  steps = s ∷ [];
  timeout = "";
  step_template = none;
  sidecars = [];
  results = [];
  volumes = [];
}

greet-resolved :
    resolve_step_actions json (("greet", greet) ∷ []) (spec_of calling) ≡ ok (spec_of called)
unfolding resolve_step_actions resolve_steps resolve_step inline_step_action default_params
    bind_params inline_env substitute_args substitute_arg is_array_star_ref expand_array_star
    substitute scan_refs resolve ref_at replace_from lookup_allow_defer look_up may_defer dispatch
    namespace_of lookup_param tkn_act.Base.lookup insert size strip_prefix has_prefix strip_suffix
    span starts all_codes
greet-resolved = refl

-- In an action's body an escaped dollar is unescaped by the action's own pass, and the task's pass
-- then takes what is left for a reference.
unescaped_once : substitute json ctx defer_all "$$(params.who)" ≡ ok "$(params.who)"
unfolding substitute scan_refs resolve ref_at replace_from lookup_allow_defer look_up may_defer
    dispatch namespace_of lookup_param tkn_act.Base.lookup size strip_prefix has_prefix strip_suffix
    span starts
unescaped_once = refl

unescaped_twice : substitute json ctx strict "$(params.who)" ≡ ok "you"
unfolding substitute scan_refs resolve ref_at replace_from look_up dispatch namespace_of
    lookup_param tkn_act.Base.lookup size strip_prefix has_prefix strip_suffix span starts
unescaped_twice = refl

-- ===== src/Engine/StepTemplate.antt =====
-- step_template.go: what a step inherits from its task's template.
pub mod Inherited
use tkn_act.Base.{
  String, Bool, true, false, ◌==◌, Option, none, some, List, [], ◌∷◌, if◌then◌else◌, map, option_or,
}
use tkn_act.Tekton.{Kube, EnvVar, StepTemplate, Step, TaskSpec}
use tkn_act.Engine.Merge.{merge}

-- The first where it is set, and else the second.
abbrev pub text_or : String → String → String
text_or s t = if s == "" then t else s

abbrev pub list_or {ℓ} : {A : Type ℓ} → List A → List A → List A
list_or [] ys = ys
list_or (x ∷ xs) ys = x ∷ xs

module _ {k : Kube} where
  unfoldable pub merge_env : List (EnvVar k) → List (EnvVar k) → List (EnvVar k)
  unfolding merge
  merge_env tmpl step = merge (λ e. e.name) tmpl step

  -- one round of the loop over the steps
  unfoldable pub inherit : StepTemplate k → Step k → Step k
  unfolding merge_env
  inherit t st = record st {
    image = text_or st.image t.image;
    working_dir = text_or st.working_dir t.working_dir;
    image_pull_policy = text_or st.image_pull_policy t.image_pull_policy;
    command = list_or st.command t.command;
    args = list_or st.args t.args;
    resources = option_or st.resources t.resources;
    security_context = option_or st.security_context t.security_context;
    env_from = list_or st.env_from t.env_from;
    env = merge_env t.env st.env;
  }

  unfoldable pub apply_step_template : TaskSpec k → TaskSpec k
  unfolding inherit
  apply_step_template spec = elim spec.step_template [
    | none ↦ spec
    | some t ↦ record spec { steps = map (inherit t) spec.steps }
  ]

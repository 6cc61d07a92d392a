-- ===== src/Engine/Substitution.antt =====
-- engine.go and substitution.go: the texts of a task's steps and sidecars, and of a pipeline task's
-- params, with their references resolved.
pub mod Substituted
use tkn_act.Base.{
  ℕ, zero, suc, String, Bool, true, false, not, Option, none, some, List, [], ◌∷◌, ◌++◌,
  if◌then◌else◌, ◌==◌, map, traverse, Map, lookup, insert, Result, ok, err, ◌>>=◌,
}
use tkn_act.Tekton.{
  Kube, ParamType, unset, string, array, object, ParamValue, EnvVar, Step, Sidecar, TaskSpec,
  WorkspaceDecl, WorkspaceBinding, PipelineTask,
}
use tkn_act.Resolver.Scope.{Json, Context, LookupError}
use tkn_act.Resolver.{Mode, strict, defer_step, substitute, substitute_args, is_array_star_ref}

pub data Kind : Type 0 where
  a_step a_sidecar : Kind

pub data Field : Type 0 where
  image_field script_field working_dir_field command_field args_field : Field
  env_field : String → Field

-- what `wrap` adds to an error
pub record FieldError : Type 0 where
  pub kind : Kind
  pub name : String
  pub field : Field
  pub cause : LookupError

abbrev pub wrap : {A : Type 0} → Kind → String → Field → Result LookupError A → Result FieldError A
wrap kind name field (ok a) = ok a
wrap kind name field (err e) = err (record { kind = kind; name = name; field = field; cause = e })

pub record ContainerFields (k : Kube) : Type 0 where
  pub image : String
  pub script : String
  pub working_dir : String
  pub command : List String
  pub args : List String
  pub env : List (EnvVar k)

abbrev text_value : String → ParamValue
text_value s = record { type = string; string_val = s; array_val = []; object_val = [] }

abbrev list_value : List String → ParamValue
list_value l = record { type = array; string_val = ""; array_val = l; object_val = [] }

abbrev pub step_fields : {k : Kube} → Step k → ContainerFields k
step_fields st = record {
  image = st.image;
  script = st.script;
  working_dir = st.working_dir;
  command = st.command;
  args = st.args;
  env = st.env;
}

abbrev pub sidecar_fields : {k : Kube} → Sidecar k → ContainerFields k
sidecar_fields sc = record {
  image = sc.image;
  script = sc.script;
  working_dir = sc.working_dir;
  command = sc.command;
  args = sc.args;
  env = sc.env;
}

abbrev pub with_step_fields : {k : Kube} → Step k → ContainerFields k → Step k
with_step_fields st f = record st {
  image = f.image;
  script = f.script;
  working_dir = f.working_dir;
  command = f.command;
  args = f.args;
  env = f.env;
}

abbrev pub with_sidecar_fields : {k : Kube} → Sidecar k → ContainerFields k → Sidecar k
with_sidecar_fields sc f = record sc {
  image = f.image;
  script = f.script;
  working_dir = f.working_dir;
  command = f.command;
  args = f.args;
  env = f.env;
}

module _ (json : Json) where
  -- an empty list stays as it is
  abbrev pub sub_args : Context → Mode → List String → Result LookupError (List String)
  sub_args ctx mode [] = ok []
  sub_args ctx mode (a ∷ as') = substitute_args json ctx mode (a ∷ as')

  unfoldable pub bind_entries : Context → Map String → Map String → Result LookupError (Map String)
  bind_entries ctx [] out = ok out
  bind_entries ctx ((k, item) ∷ m) out = do
    s ← substitute json ctx strict item
    bind_entries ctx m (insert k s out)

  unfoldable pub bind_text : Context → String → Result LookupError ParamValue
  bind_text ctx s =
      if is_array_star_ref s
      then (substitute_args json ctx strict (s ∷ []) >>= λ l. ok (list_value l))
      else (substitute json ctx strict s >>= λ t. ok (text_value t))

  unfoldable pub bind_task_param_value : Context → ParamValue → Result LookupError ParamValue
  unfolding bind_entries bind_text
  bind_task_param_value ctx v = elim v.type [
    | array ↦ do l ← substitute_args json ctx strict v.array_val; ok (list_value l)
    | object ↦ do
      m ← bind_entries ctx v.object_val []
      ok (record { type = object; string_val = ""; array_val = []; object_val = m })
    | string ↦ bind_text ctx v.string_val
    | unset ↦ bind_text ctx v.string_val
  ]

  module _ {k : Kube} (ctx : Context) (mode : Mode) where
    unfoldable pub substitute_env :
        Kind → String → List (EnvVar k) → Result FieldError (List (EnvVar k))
    substitute_env kind name [] = ok []
    substitute_env kind name (e ∷ es) = do
      v ← wrap kind name (env_field e.name) (substitute json ctx mode e.value)
      rest ← substitute_env kind name es
      ok (record { name = e.name; value = v; value_from = none } ∷ rest)

    unfoldable pub substitute_container :
        Kind → String → ContainerFields k → Result FieldError (ContainerFields k)
    unfolding substitute_env
    substitute_container kind name f = do
      image ← wrap kind name image_field (substitute json ctx mode f.image)
      script ← wrap kind name script_field (substitute json ctx mode f.script)
      working_dir ← wrap kind name working_dir_field (substitute json ctx mode f.working_dir)
      command ← wrap kind name command_field (sub_args ctx mode f.command)
      args ← wrap kind name args_field (sub_args ctx mode f.args)
      env ← substitute_env kind name f.env
      ok (record {
        image = image;
        script = script;
        working_dir = working_dir;
        command = command;
        args = args;
        env = env;
      })

  module _ {k : Kube} (ctx : Context) where
    unfoldable pub substitute_step : Step k → Result FieldError (Step k)
    unfolding substitute_container
    substitute_step st = do
      f ← substitute_container ctx defer_step a_step st.name (step_fields st)
      ok (with_step_fields st f)

    unfoldable pub substitute_sidecar : Sidecar k → Result FieldError (Sidecar k)
    unfolding substitute_container
    substitute_sidecar sc = do
      f ← substitute_container ctx strict a_sidecar sc.name (sidecar_fields sc)
      ok (with_sidecar_fields sc f)

    unfoldable pub substitute_spec : TaskSpec k → Result FieldError (TaskSpec k)
    unfolding substitute_step substitute_sidecar
    substitute_spec spec = do
      steps ← traverse substitute_step spec.steps
      sidecars ← traverse substitute_sidecar spec.sidecars
      ok (record spec { steps = steps; sidecars = sidecars })

-- ===== src/Engine/Substitution/Substituted.antt =====
-- What substituteSpec leaves of a task: each text resolved, and all else as it was.
use tkn_act.Base.{
  String, ◌≡◌, refl, ap, subst, none, List, [], ◌∷◌, traverse, ok_inj, Pairwise, traverse-Pairwise,
  Pairwise-map, Result, ok, err, bind_parts,
}
use tkn_act.Tekton.{Kube, EnvVar, Step, Sidecar, TaskSpec}
use tkn_act.Resolver.Scope.{Json, Context, LookupError}
use tkn_act.Resolver.{Mode, strict, defer_step, substitute}
use tkn_act.Engine.Substitution.{
  Kind, a_step, a_sidecar, Field, wrap, image_field, script_field, working_dir_field, command_field,
  args_field, env_field, ContainerFields, sub_args, substitute_env, substitute_container,
  step_fields, sidecar_fields, with_step_fields, with_sidecar_fields, substitute_step,
  substitute_sidecar, substitute_spec,
}

unwrap :
    {A : Type 0} (kind : Kind) (name : String) (field : Field) (r : Result LookupError A) (a : A)
    → wrap kind name field r ≡ ok a
    → r ≡ ok a
unwrap kind name field (ok b) a h = ap ok (cc)
unwrap kind name field (err e) a h = absurd (cc)

module _ (json : Json) {k : Kube} (ctx : Context) (mode : Mode) where
  -- An environment entry keeps its name, and has its value resolved and nothing else.
  abbrev pub EnvResolved : EnvVar k → EnvVar k → Type 0
  EnvResolved e e' =
      (e'.name ≡ e.name) × (substitute json ctx mode e.value ≡ ok e'.value) × (e'.value_from ≡ none)

  pub record FieldsResolved (f f' : ContainerFields k) : Type 0 where
    pub image : substitute json ctx mode f.image ≡ ok f'.image
    pub script : substitute json ctx mode f.script ≡ ok f'.script
    pub working_dir : substitute json ctx mode f.working_dir ≡ ok f'.working_dir
    pub command : sub_args json ctx mode f.command ≡ ok f'.command
    pub args : sub_args json ctx mode f.args ≡ ok f'.args
    pub env : Pairwise EnvResolved f.env f'.env

  substitute_env-Pairwise :
      (kind : Kind) (name : String) (es es' : List (EnvVar k))
      → substitute_env json ctx mode kind name es ≡ ok es'
      → Pairwise EnvResolved es es'
  unfolding substitute_env
  substitute_env-Pairwise kind name [] es' h = subst (Pairwise EnvResolved []) (ok_inj [] es' h) tt
  substitute_env-Pairwise kind name (e ∷ es) es' h =
      let (v, ev, rest1) =
        bind_parts (wrap kind name (env_field e.name) (substitute json ctx mode e.value)) _ es' h in
      let (rest, er, done) = bind_parts (substitute_env json ctx mode kind name es) _ es' rest1 in
      subst (Pairwise EnvResolved (e ∷ es)) (ok_inj _ es' done) (
        (refl, unwrap kind name (env_field e.name) (substitute json ctx mode e.value) v ev, refl),
        substitute_env-Pairwise kind name es rest er,
      )

  substitute_container-FieldsResolved :
      (kind : Kind) (name : String) (f f' : ContainerFields k)
      → substitute_container json ctx mode kind name f ≡ ok f'
      → FieldsResolved f f'
  unfolding substitute_container
  substitute_container-FieldsResolved kind name f f' h =
      let (i, ei, h1) =
        bind_parts (wrap kind name image_field (substitute json ctx mode f.image)) _ f' h in
      let (s, es, h2) =
        bind_parts (wrap kind name script_field (substitute json ctx mode f.script)) _ f' h1 in
      let (w, ew, h3) =
        bind_parts (wrap kind name working_dir_field (substitute json ctx mode f.working_dir)) _ f'
          h2 in
      let (c, ec, h4) =
        bind_parts (wrap kind name command_field (sub_args json ctx mode f.command)) _ f' h3 in
      let (a, ea, h5) =
        bind_parts (wrap kind name args_field (sub_args json ctx mode f.args)) _ f' h4 in
      let (e, ee, done) = bind_parts (substitute_env json ctx mode kind name f.env) _ f' h5 in
      subst (FieldsResolved f) (ok_inj _ f' done) (record {
        image = unwrap kind name image_field (substitute json ctx mode f.image) i ei;
        script = unwrap kind name script_field (substitute json ctx mode f.script) s es;
        working_dir =
            unwrap kind name working_dir_field (substitute json ctx mode f.working_dir) w ew;
        command = unwrap kind name command_field (sub_args json ctx mode f.command) c ec;
        args = unwrap kind name args_field (sub_args json ctx mode f.args) a ea;
        env = substitute_env-Pairwise kind name f.env e ee;
      })

module _ (json : Json) {k : Kube} (ctx : Context) where
  -- A step with its fields resolved, references to other steps aside, and the rest as it was.
  abbrev pub StepResolved : Step k → Step k → Type 0
  StepResolved st st' =
      FieldsResolved json ctx defer_step (step_fields st) (step_fields st')
      × (st' ≡ with_step_fields st (step_fields st'))

  abbrev pub SidecarResolved : Sidecar k → Sidecar k → Type 0
  SidecarResolved sc sc' =
      FieldsResolved json ctx strict (sidecar_fields sc) (sidecar_fields sc')
      × (sc' ≡ with_sidecar_fields sc (sidecar_fields sc'))

  substitute_step-StepResolved :
      (st st' : Step k) → substitute_step json ctx st ≡ ok st' → StepResolved st st'
  unfolding substitute_step
  substitute_step-StepResolved st st' h =
      let (f, e, done) =
        bind_parts (substitute_container json ctx defer_step a_step st.name (step_fields st)) _ st'
          h in
      subst (StepResolved st) (ok_inj _ st' done) (
        substitute_container-FieldsResolved json ctx defer_step a_step st.name (step_fields st) f e,
        refl,
      )

  substitute_sidecar-SidecarResolved :
      (sc sc' : Sidecar k) → substitute_sidecar json ctx sc ≡ ok sc' → SidecarResolved sc sc'
  unfolding substitute_sidecar
  substitute_sidecar-SidecarResolved sc sc' h =
      let (f, e, done) =
        bind_parts (substitute_container json ctx strict a_sidecar sc.name (sidecar_fields sc)) _
          sc' h in
      subst (SidecarResolved sc) (ok_inj _ sc' done) (
        substitute_container-FieldsResolved json ctx strict a_sidecar sc.name (sidecar_fields sc) f
            e,
        refl,
      )

  pub record SpecResolved (spec out : TaskSpec k) : Type 0 where
    pub steps : Pairwise StepResolved spec.steps out.steps
    pub sidecars : Pairwise SidecarResolved spec.sidecars out.sidecars
    pub rest : out ≡ record spec { steps = out.steps; sidecars = out.sidecars }

  -- A substitution that succeeds keeps every step and sidecar of the task in its place, with image,
  -- script, working directory, command, arguments and the values of its environment resolved (in
  -- steps, but for references to results of steps), and changes nothing else but that an environment
  -- entry loses what it reads its value from.
  pub substitute_spec-SpecResolved :
      (spec out : TaskSpec k) → substitute_spec json ctx spec ≡ ok out → SpecResolved spec out
  unfolding substitute_spec
  substitute_spec-SpecResolved spec out h =
      let (steps, e1, h1) = bind_parts (traverse (substitute_step json ctx) spec.steps) _ out h in
      let (sidecars, e2, done) =
        bind_parts (traverse (substitute_sidecar json ctx) spec.sidecars) _ out h1 in
      subst (SpecResolved spec) (ok_inj _ out done) (record {
        steps =
            Pairwise-map _ _ spec.steps steps substitute_step-StepResolved
              (traverse-Pairwise (substitute_step json ctx) spec.steps steps e1);
        sidecars =
            Pairwise-map _ _ spec.sidecars sidecars substitute_sidecar-SidecarResolved
              (traverse-Pairwise (substitute_sidecar json ctx) spec.sidecars sidecars e2);
        rest = refl;
      })

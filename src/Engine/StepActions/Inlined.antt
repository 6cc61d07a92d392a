-- ===== src/Engine/StepActions/Inlined.antt =====
-- What is left of a step once its action is in.
use tkn_act.Base.{
  Pairwise, String, ◌≡◌, refl, subst, false, arith, none, List, [], ◌∷◌, ◌++◌, map, Map, lookup,
  is_some, any, Result, ok, err, bind_parts, ok_inj, Option-cases, Bool-cases, inl, inr,
}
use tkn_act.Tekton.{Kube, Step, StepAction, TaskSpec}
use tkn_act.Resolver.Scope.{Json, LookupError}
use tkn_act.Resolver.{defer_all, substitute, substitute_args}
use tkn_act.Engine.StepActions.Bound.{IsScope, bind_params-IsScope, IsResolved, inline_env-Pairwise}
use tkn_act.Engine.StepActions.{
  lift, scoped, default_params, bind_params, has_inline_body, inline_env, inline_step_action,
  resolve_step, resolve_steps, resolve_step_actions,
}

ok_of_lift : {A : Type 0} (r : Result LookupError A) (a : A) → lift r ≡ ok a → r ≡ ok a
ok_of_lift (ok b) a h = ground (arith, h)
ok_of_lift (err e) a h = absurd (cc)

module _ (json : Json) where
  -- a text of an action against what its names stand for
  abbrev pub resolves : Map String → String → Result LookupError String
  resolves params s = substitute json (scoped params) defer_all s

  abbrev pub resolves_all : Map String → List String → Result LookupError (List String)
  resolves_all params l = substitute_args json (scoped params) defer_all l

module _ {k : Kube} (json : Json) where
  -- What a step has of the step that calls for an action, and of the action.
  pub record IsInlined (st : Step k) (action : StepAction k) (out : Step k) : Type 0 where
    pub params : Map String
    pub scope : IsScope st action params
    pub image : resolves json params action.image ≡ ok out.image
    pub script : resolves json params action.script ≡ ok out.script
    pub working_dir : resolves json params action.working_dir ≡ ok out.working_dir
    pub args : resolves_all json params action.args ≡ ok out.args
    pub command : resolves_all json params action.command ≡ ok out.command
    pub name : out.name ≡ st.name
    pub on_error : out.on_error ≡ st.on_error
    pub no_ref : out.ref ≡ none
    pub results : out.results ≡ action.results
    pub mounts : out.volume_mounts ≡ action.volume_mounts ++ st.volume_mounts
    pub no_timeout : out.timeout ≡ ""
    pub no_security_context : out.security_context ≡ none
    pub no_env_from : out.env_from ≡ []
    pub pull_policy : out.image_pull_policy ≡ action.image_pull_policy
    pub resources : out.resources ≡ action.resources
    pub env : Pairwise (IsResolved json (scoped params)) action.env out.env

  pub inline_step_action-IsInlined :
      (st : Step k) (action : StepAction k) (out : Step k)
      → inline_step_action json st action ≡ ok out
      → IsInlined st action out
  unfolding inline_step_action
  inline_step_action-IsInlined st action out h =
      let (defaults, d0, h1) = bind_parts (default_params st.name action.params []) _ out h in
      let params = bind_params st.params defaults in
      let one = resolves json params in
      let all = resolves_all json params in
      let (image, d1, h2) = bind_parts (lift (one action.image)) _ out h1 in
      let (script, d2, h3) = bind_parts (lift (one action.script)) _ out h2 in
      let (dir, d3, h4) = bind_parts (lift (one action.working_dir)) _ out h3 in
      let (args, d4, h5) = bind_parts (lift (all action.args)) _ out h4 in
      let (command, d5, h6) = bind_parts (lift (all action.command)) _ out h5 in
      let (env, made, h7) =
        bind_parts (lift (inline_env json (scoped params) action.env)) _ out h6 in
      subst (λ q. IsInlined st action q) (ok_inj _ _ h7)
        (record {
          params = params;
          scope = bind_params-IsScope st action defaults d0;
          image = ok_of_lift _ image d1;
          script = ok_of_lift _ script d2;
          working_dir = ok_of_lift _ dir d3;
          args = ok_of_lift _ args d4;
          command = ok_of_lift _ command d5;
          name = refl;
          on_error = refl;
          no_ref = refl;
          results = refl;
          mounts = refl;
          no_timeout = refl;
          no_security_context = refl;
          no_env_from = refl;
          pull_policy = refl;
          resources = refl;
          env = inline_env-Pairwise json (scoped params) action.env env (ok_of_lift _ env made);
        })

  resolve_step-clean :
      (actions : Map (StepAction k)) (st out : Step k)
      → resolve_step json actions st ≡ ok out
      → (is_some out.ref ≡ false) × (out.name ≡ st.name)
  unfolding resolve_step
  resolve_step-clean actions st out h = elim (Option-cases st.ref) [
    | inl plain ↦
        let same : st ≡ out = ground (arith, h, plain) in
        subst (λ (q : Step k). (is_some q.ref ≡ false) × (q.name ≡ st.name)) same
          (ground (arith, plain), refl)
    | inr (name, here) ↦ elim (Bool-cases (has_inline_body st)) [
      | inl body ↦ absurd (ground (arith, h, here, body))
      | inr bare ↦ elim (Option-cases (lookup name actions)) [
        | inl missing ↦ absurd (ground (arith, h, here, bare, missing))
        | inr (action, found) ↦
            let inlined =
              inline_step_action-IsInlined st action out (ground (arith, h, here, bare, found)) in
            (ground (arith, inlined.no_ref), inlined.name)
      ]
    ]
  ]

  resolve_steps-clean :
      (actions : Map (StepAction k)) (steps out : List (Step k))
      → resolve_steps json actions steps ≡ ok out
      → (any (λ (s : Step k). is_some s.ref) out ≡ false)
        × (map (λ (s : Step k). s.name) out ≡ map (λ (s : Step k). s.name) steps)
  unfolding resolve_steps
  resolve_steps-clean actions [] out h =
      subst
        (λ (o : List (Step k)).
          (any (λ (s : Step k). is_some s.ref) o ≡ false) × (map (λ (s : Step k). s.name) o ≡ []))
        (ok_inj _ _ h) (refl, refl)
  resolve_steps-clean actions (st ∷ steps) out h =
      let (s, first, h1) = bind_parts (resolve_step json actions st) _ out h in
      let (rest, later, h2) = bind_parts (resolve_steps json actions steps) _ out h1 in
      let (a, b) = resolve_step-clean actions st s first in
      let (c, d) = resolve_steps-clean actions steps rest later in
      subst
        (λ (o : List (Step k)).
          (any (λ (s : Step k). is_some s.ref) o ≡ false)
          × (map (λ (s : Step k). s.name) o ≡ st.name ∷ map (λ (s : Step k). s.name) steps))
        (ok_inj _ _ h2) (ground (arith, a, c), rw (b, d) refl)

  -- No step of a task keeps a reference once the task's actions are resolved; the steps keep their
  -- number, their order and their names; and resolving again changes nothing.
  pub resolve_step_actions-clean :
      (actions : Map (StepAction k)) (spec out : TaskSpec k)
      → resolve_step_actions json actions spec ≡ ok out
      → (any (λ s. is_some s.ref) out.steps ≡ false)
        × (map (λ s. s.name) out.steps ≡ map (λ s. s.name) spec.steps)
        × (resolve_step_actions json actions out ≡ ok out)
  unfolding resolve_step_actions
  resolve_step_actions-clean actions spec out h =
      elim (Bool-cases (any (λ (s : Step k). is_some s.ref) spec.steps)) [
        | inr none_here ↦
            let same : spec ≡ out = ground (arith, h, none_here) in
            subst
              (λ (q : TaskSpec k).
                (any (λ (s : Step k). is_some s.ref) q.steps ≡ false)
                × (map (λ (s : Step k). s.name) q.steps ≡ map (λ (s : Step k). s.name) spec.steps)
                × (resolve_step_actions json actions q ≡ ok q))
              same (none_here, refl, ground (arith, none_here))
        | inl some_here ↦
            let (steps, made, last) =
              bind_parts (resolve_steps json actions spec.steps)
                (λ l. ok (record spec { steps = l })) out (ground (arith, h, some_here)) in
            let (clean, names) = resolve_steps-clean actions spec.steps steps made in
            subst
              (λ (q : TaskSpec k).
                (any (λ (s : Step k). is_some s.ref) q.steps ≡ false)
                × (map (λ (s : Step k). s.name) q.steps ≡ map (λ (s : Step k). s.name) spec.steps)
                × (resolve_step_actions json actions q ≡ ok q))
              (ok_inj _ _ last) (clean, names, ground (arith, clean))
      ]

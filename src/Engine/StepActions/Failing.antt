-- ===== src/Engine/StepActions/Failing.antt =====
-- How the inlining of an action comes out.
use tkn_act.Base.{
  ◌≡◌, refl, sym, subst, String, some, [], Map, Result, ok, err, Result-cases, bind_stops, ◌⊎◌, inl,
  inr,
}
use tkn_act.Tekton.{Kube, Step, StepAction}
use tkn_act.Resolver.Scope.{Json, LookupError}
use tkn_act.Engine.StepActions.{
  ActionError, bad_default, substitution, lift, scoped, default_params, bind_params, inline_env,
  inline_step_action,
}
use tkn_act.Engine.StepActions.Bound.{
  first_no_text, default_params-bad, IsScope, bind_params-IsScope, EnvFails, inline_env-fails,
}
use tkn_act.Engine.StepActions.Inlined.{
  resolves, resolves_all, IsInlined, inline_step_action-IsInlined,
}

lift-stops :
    {A : Type 0} (r : Result LookupError A) (e : ActionError)
    → lift r ≡ err e
    → (x : LookupError) × (e ≡ substitution x) × (r ≡ err x)
lift-stops (ok a) e h = absurd (cc)
lift-stops (err x) e h = (x, cc, refl)

module _ {k : Kube} (json : Json) (st : Step k) (action : StepAction k) where
  -- A text of the action does not resolve, with this error.
  pub data Unresolved (params : Map String) (x : LookupError) : Type 0 where
    of_image : resolves json params action.image ≡ err x → Unresolved params x
    of_script : resolves json params action.script ≡ err x → Unresolved params x
    of_working_dir : resolves json params action.working_dir ≡ err x → Unresolved params x
    of_args : resolves_all json params action.args ≡ err x → Unresolved params x
    of_command : resolves_all json params action.command ≡ err x → Unresolved params x
    of_env : EnvFails json (scoped params) action.env x → Unresolved params x

  abbrev pub Turns : Result ActionError (Step k) → Type 0
  Turns (ok out) = IsInlined json st action out
  Turns (err e) =
      ((name : String) × (first_no_text action.params ≡ some name) × (e ≡ bad_default st.name name))
      ⊎ ((params : Map String) × (x : LookupError) × IsScope st action params
          × (e ≡ substitution x)
          × Unresolved params x)

  inline_step_action-fails :
      (e : ActionError) → inline_step_action json st action ≡ err e → Turns (err e)
  unfolding inline_step_action
  inline_step_action-fails e h = elim (bind_stops (default_params st.name action.params []) _ e h) [
    | inl bad ↦ inl (default_params-bad st.name action.params [] e bad)
    | inr (defaults, d, h1) ↦
        let params = bind_params st.params defaults in
        let scope = bind_params-IsScope st action defaults d in
        let one = resolves json params in
        let all = resolves_all json params in
        elim (bind_stops (lift (one action.image)) _ e h1) [
          | inl bad ↦ let (x, q, w) = lift-stops _ e bad in inr (params, x, scope, q, of_image w)
          | inr (_, _, h2) ↦ elim (bind_stops (lift (one action.script)) _ e h2) [
            | inl bad ↦ let (x, q, w) = lift-stops _ e bad in inr (params, x, scope, q, of_script w)
            | inr (_, _, h3) ↦ elim (bind_stops (lift (one action.working_dir)) _ e h3) [
              | inl bad ↦
                  let (x, q, w) = lift-stops _ e bad in inr (params, x, scope, q, of_working_dir w)
              | inr (_, _, h4) ↦ elim (bind_stops (lift (all action.args)) _ e h4) [
                | inl bad ↦
                    let (x, q, w) = lift-stops _ e bad in inr (params, x, scope, q, of_args w)
                | inr (_, _, h5) ↦ elim (bind_stops (lift (all action.command)) _ e h5) [
                  | inl bad ↦
                      let (x, q, w) = lift-stops _ e bad in inr (params, x, scope, q, of_command w)
                  | inr (_, _, h6) ↦
                      let env = inline_env json (scoped params) action.env in
                      elim (bind_stops (lift env) _ e h6) [
                        | inl bad ↦
                            let (x, q, w) = lift-stops _ e bad in
                            inr (
                              params,
                              x,
                              scope,
                              q,
                              of_env (inline_env-fails json (scoped params) action.env x w),
                            )
                        | inr (_, _, h7) ↦ absurd (cc)
                      ]
                ]
              ]
            ]
          ]
        ]
  ]

  -- A step whose action is inlined has the action's image, script, directory, command and arguments,
  -- each resolved against a scope where a name stands for the text of its last binding in the step,
  -- and for the action's last default only where the step does not bind it. It keeps its name and
  -- its onError, has the action's results, pull policy and resources, the action's mounts before its
  -- own, and one variable for each of the action's, in order, of the same name, its value resolved
  -- against that scope. It has no reference any more. It has no timeout, no security context and no
  -- envFrom, whatever the calling step set, and no variable has a valueFrom, whatever the action set.
  -- It fails only with the error of the first default that is no text, or with that of a text of the
  -- action that does not resolve against the scope.
  pub inline_step_action-Turns : Turns (inline_step_action json st action)
  inline_step_action-Turns = elim (Result-cases (inline_step_action json st action)) [
    | inl (out, good) ↦
        subst Turns (sym good) (inline_step_action-IsInlined json st action out good)
    | inr (e, bad) ↦ subst Turns (sym bad) (inline_step_action-fails e bad)
  ]

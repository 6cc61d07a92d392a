-- ===== src/Engine/TaskRun/Bound.antt =====
-- What a task gets of its params and its workspaces.
use tkn_act.Base.{
  String, ◌≡◌, refl, Bool, true, false, arith, Option, none, some, List, [], ◌∷◌, if◌then◌else◌,
  ◌==◌, all, is_some, Option-cases, Map, lookup, insert, lookup-insert, Result, ok, err,
  Result-cases, inl, inr, option_or,
}
use tkn_act.Tekton.{ParamValue, Param, ParamSpec, WorkspaceBinding}
use tkn_act.Resolver.Scope.{Json, Context, LookupError}
use tkn_act.Engine.Substitution.{bind_task_param_value}
use tkn_act.Engine.TaskInput.{WorkspaceMount}
use tkn_act.Engine.TaskRun.{mount_workspaces, default_task_params, bind_task_params}

abbrev pub value_of : Result LookupError ParamValue → Option ParamValue
value_of (ok v) = some v
value_of (err _) = none

abbrev pub binds : Result LookupError ParamValue → Bool
binds (ok _) = true
binds (err _) = false

-- the default of the last declaration of a name that has one
abbrev pub last_default : String → List ParamSpec → Option ParamValue
last_default name [] = none
last_default name (d ∷ decls) =
    option_or (last_default name decls) (if d.name == name then d.default else none)

-- what the last binding of a name is resolved to
abbrev pub last_bound : Json → Context → String → List Param → Option ParamValue
last_bound json ctx name [] = none
last_bound json ctx name (p ∷ ps) =
    option_or (last_bound json ctx name ps)
      (if p.name == name then value_of (bind_task_param_value json ctx p.value) else none)

abbrev pub mount_of : Map String → WorkspaceBinding → Option WorkspaceMount
mount_of hosts w = elim (lookup w.workspace hosts) [
  | none ↦ none
  | some host ↦ some (record { host_path = host; sub_path = w.sub_path })
]

-- what the last binding of a name mounts
abbrev pub last_mount : Map String → String → List WorkspaceBinding → Option WorkspaceMount
last_mount hosts name [] = none
last_mount hosts name (w ∷ ws) =
    option_or (last_mount hosts name ws) (if w.name == name then mount_of hosts w else none)

pub default_task_params-last :
    (decls : List ParamSpec) (out : Map ParamValue) (name : String)
    → lookup name (default_task_params decls out)
      ≡ option_or (last_default name decls) (lookup name out)
unfolding default_task_params
default_task_params-last [] out name = refl
default_task_params-last (d ∷ decls) out name = elim (Option-cases d.default) [
  | inl e ↦ ground (arith, e, default_task_params-last decls out name)
  | inr (v, e) ↦ ground (
    arith,
    e,
    default_task_params-last decls (insert d.name v out) name,
    lookup-insert d.name name v out,
  )
]

module _ (json : Json) (ctx : Context) where
  pub bind_task_params-last :
      (ps : List Param) (out done : Map ParamValue)
      → bind_task_params json ctx ps out ≡ ok done
      → (all (λ p. binds (bind_task_param_value json ctx p.value)) ps ≡ true)
        × ((name : String)
            → lookup name done ≡ option_or (last_bound json ctx name ps) (lookup name out))
  unfolding bind_task_params
  bind_task_params-last [] out done h = (refl, λ name. ground (arith, h))
  bind_task_params-last (p ∷ ps) out done h =
      elim (Result-cases (bind_task_param_value json ctx p.value)) [
        | inr (e, bad) ↦ absurd (ground (arith, h, bad))
        | inl (v, good) ↦
            let (every, last) =
              bind_task_params-last ps (insert p.name v out) done (ground (arith, h, good)) in
            (
              ground (arith, good, every),
              λ name. ground (arith, good, last name, lookup-insert p.name name v out),
            )
      ]

module _ (hosts : Map String) where
  pub mount_workspaces-last :
      (ws : List WorkspaceBinding) (out done : Map WorkspaceMount)
      → mount_workspaces hosts ws out ≡ ok done
      → (all (λ w. is_some (lookup w.workspace hosts)) ws ≡ true)
        × ((name : String)
            → lookup name done ≡ option_or (last_mount hosts name ws) (lookup name out))
  unfolding mount_workspaces
  mount_workspaces-last [] out done h = (refl, λ name. ground (arith, h))
  mount_workspaces-last (w ∷ ws) out done h = elim (Option-cases (lookup w.workspace hosts)) [
    | inl missing ↦ absurd (ground (arith, h, missing))
    | inr (host, here) ↦
        let mount : WorkspaceMount = record { host_path = host; sub_path = w.sub_path } in
        let (every, last) =
          mount_workspaces-last ws (insert w.name mount out) done (ground (arith, h, here)) in
        (
          ground (arith, here, every),
          λ name. ground (arith, here, last name, lookup-insert w.name name mount out),
        )
  ]

-- ===== src/Resolver/Lookup.antt =====
-- resolver.go: what one reference stands for.
use Prim.Native.String.{◌++◌ as str_append}
use tkn_act.Base.{
  String, Bool, true, false, ◌&&◌, ◌||◌, not, ◌==◌, none, some, [], ◌∷◌, if◌then◌else◌, mem,
  lookup as find, Result, ok, err, or_else,
}
use tkn_act.Base.Text.{strip_prefix, has_prefix, strip_suffix, cut_last, cut_text, split_n}
use tkn_act.Resolver.Scope.{
  LookupError, step_ref_deferred, leave_literal, is_signal, Context, Json, known_namespaces,
  namespace_of, has_suffix, index_suffix, index_into, unknown_context, unknown_results,
  unknown_step_results, malformed_steps, no_step, unknown_reference, whole_array,
  unknown_array_param, unknown_object, unknown_param, finally_only, unknown_task, malformed_task,
  no_results, not_json_array, not_json_object, unknown_workspaces, no_binding_info, no_step_result,
  no_key, no_result, no_result_key,
}

module _ (json : Json) (ctx : Context) where
  unfoldable pub lookup_param : String → Result LookupError String
  unfolding index_suffix index_into cut_text strip_suffix find
  lookup_param rest =
      if has_suffix "[*]" rest then err (whole_array rest) else elim (find rest ctx.params) [
        | some v ↦ ok v
        | none ↦ elim (index_suffix rest) [
          | some (name, idx) ↦ elim (find name ctx.array_params) [
            | none ↦ err (unknown_array_param name)
            | some arr ↦ index_into arr idx name
          ]
          | none ↦ elim (cut_text "." rest) [
            | none ↦ err (unknown_param rest)
            | some (obj, k) ↦ elim (find obj ctx.object_params) [
              | none ↦ err (unknown_object obj)
              | some om ↦ elim (find k om) [ some v ↦ ok v | none ↦ err (no_key obj k) ]
            ]
          ]
        ]
      ]

  unfoldable pub lookup_task_result : String → String → Result LookupError String
  unfolding index_suffix index_into cut_text strip_suffix find
  lookup_task_result task sel = elim (find task ctx.results) [
    | none ↦ err (no_results task)
    | some rs ↦ elim (find sel rs) [
      | some v ↦ ok v
      | none ↦ if has_suffix "[*]" sel then err (whole_array sel) else elim (index_suffix sel) [
        | some (name, idx) ↦ elim (find name rs) [
          | none ↦ err (no_result task name)
          | some raw ↦ elim (json.list_of raw) [
            | none ↦ err (not_json_array name)
            | some arr ↦ index_into arr idx name
          ]
        ]
        | none ↦ elim (cut_text "." sel) [
          | none ↦ err (no_result task sel)
          | some (name, k) ↦ elim (find name rs) [
            | none ↦ err (no_result task name)
            | some raw ↦ elim (json.map_of raw) [
              | none ↦ err (not_json_object name)
              | some obj ↦ elim (find k obj) [ some v ↦ ok v | none ↦ err (no_result_key name k) ]
            ]
          ]
        ]
      ]
    ]
  ]

  abbrev pub status_of : String → String → Result LookupError String
  status_of key task = elim ctx.task_statuses [
    | none ↦ err (finally_only key)
    | some statuses ↦ elim (find task statuses) [ some v ↦ ok v | none ↦ err (unknown_task task) ]
  ]

  -- `key` without its `tasks.`
  unfoldable pub lookup_tasks : String → Result LookupError String
  unfolding lookup_task_result split_n find
  lookup_tasks rest =
      if rest == "status"
      then elim ctx.task_statuses [ none ↦ err (finally_only rest) | some _ ↦ ok ctx.tasks_status ]
      else elim (split_n 2 b'.' rest) [
        | [] ↦ err (malformed_task rest)
        | task ∷ more ↦ elim more [
          | [] ↦ err (malformed_task rest)
          | attr ∷ last ↦ elim last [
            | [] ↦ if attr == "status" then status_of rest task else err (malformed_task rest)
            | sel ∷ _ ↦
                if attr == "results" then lookup_task_result task sel else err (malformed_task rest)
          ]
        ]
      ]

  -- `key` without its `workspaces.`
  unfoldable pub lookup_workspace : String → Result LookupError String
  unfolding cut_last find
  lookup_workspace rest = elim (cut_last b'.' rest) [
    | none ↦ err (unknown_workspaces rest)
    | some (name, attr) ↦
        if attr == "path"
        then (let path = or_else (find name ctx.workspace_paths) "" in
            ok (if path == "" then str_append "/workspace/" name else path))
        else if attr == "bound"
        then (elim ctx.bound_workspaces [
          | none ↦ err (no_binding_info rest)
          | some bound ↦ ok (if or_else (find name bound) false then "true" else "false")
        ])
        else if attr == "claim"
        then ok ""
        else if attr == "volume"
        then ok name
        else err (unknown_workspaces rest)
  ]

  -- $(steps.<step>.results.<name>)
  unfoldable pub lookup_steps : String → Result LookupError String
  unfolding split_n find
  lookup_steps key = elim (split_n 3 b'.' key) [
    | _ ∷ step ∷ results ∷ name ∷ _ ↦
        if not (results == "results") then err (malformed_steps key) else elim ctx.step_results [
          | none ↦ err step_ref_deferred
          | some all ↦ elim (find step all) [
            | none ↦ err (no_step step)
            | some rs ↦ elim (find name rs) [
              | some v ↦ ok v
              | none ↦ err (no_step_result step name)
            ]
          ]
        ]
    | _ ↦ err (malformed_steps key)
  ]

  unfoldable pub lookup_results : String → Result LookupError String
  unfolding strip_suffix
  lookup_results rest = elim (strip_suffix ".path" rest) [
    | some name ↦ ok (str_append "/tekton/results/" name)
    | none ↦ err (unknown_results rest)
  ]

  unfoldable pub lookup_step_results : String → Result LookupError String
  unfolding strip_suffix
  lookup_step_results rest = elim (strip_suffix ".path" rest) [
    | none ↦ err (unknown_step_results rest)
    | some name ↦
        if ctx.current_step == ""
        then err step_ref_deferred
        else ok (
            str_append "/tekton/steps/" (str_append ctx.current_step (str_append "/results/" name)))
  ]

  -- the `switch`: the first prefix that the key has
  unfoldable pub dispatch : String → Result LookupError String
  unfolding strip_prefix lookup_param lookup_tasks lookup_results lookup_step_results lookup_steps
      lookup_workspace find
  dispatch key = elim (strip_prefix "params." key) [
    | some rest ↦ lookup_param rest
    | none ↦ elim (strip_prefix "tasks." key) [
      | some rest ↦ lookup_tasks rest
      | none ↦ elim (strip_prefix "context." key) [
        | some rest ↦ elim (find rest ctx.context_vars) [
          | some v ↦ ok v
          | none ↦ err (unknown_context rest)
        ]
        | none ↦ elim (strip_prefix "results." key) [
          | some rest ↦ lookup_results rest
          | none ↦ elim (strip_prefix "step.results." key) [
            | some rest ↦ lookup_step_results rest
            | none ↦
                if has_prefix "steps." key
                then lookup_steps key
                else elim (strip_prefix "workspaces." key) [
                  | some rest ↦ lookup_workspace rest
                  | none ↦ err (unknown_reference key)
                ]
          ]
        ]
      ]
    ]
  ]

  unfoldable pub lookup : String → Result LookupError String
  unfolding namespace_of dispatch
  lookup key = if mem (namespace_of key) known_namespaces then dispatch key else err leave_literal

  -- an error that the outer pass may still resolve
  unfoldable pub may_defer : String → Bool
  unfolding has_prefix strip_suffix split_n
  may_defer key =
      if has_prefix "params." key || has_prefix "context." key
      then true
      else if has_prefix "workspaces." key
          && has_suffix ".bound" key
          && (elim ctx.bound_workspaces [ none ↦ true | some _ ↦ false ])
      then true
      else has_prefix "tasks." key && (elim (split_n 3 b'.' key) [
        | _ ∷ _ ∷ results ∷ _ ∷ _ ↦ results == "results"
        | _ ↦ false
      ])

  unfoldable pub lookup_allow_defer : String → Result LookupError String
  unfolding lookup may_defer
  lookup_allow_defer key = elim (lookup key) [
    | ok v ↦ ok v
    | err e ↦ if is_signal e then err e else if may_defer key then err step_ref_deferred else err e
  ]

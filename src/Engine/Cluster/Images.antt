-- ===== src/Engine/Cluster/Images.antt =====
-- The images that a pipeline backend may fetch ahead, beside the tasks that it is given.
use tkn_act.Base.{
  String, ◌≡◌, refl, ap, ◌∙◌, true, ◌||◌, ◌==◌, arith, eq-cases, Option, none, some, List, [], ◌∷◌,
  ◌++◌, each, each-append, mem, mem-append, mem-add, Distinct, add-Distinct, is_some, Map, lookup,
  Result, ok, err, Result-cases, Option-cases, Bool-cases, Pairwise, traverse, traverse-Pairwise,
  sym, inl, inr,
}
use tkn_act.Resolver.Scope.{Json}
use tkn_act.Tekton.{Kube, StepAction, TaskSpec, PipelineTask, Pipeline}
use tkn_act.Engine.StepActions.{resolve_step_actions}
use tkn_act.Engine.StepTemplate.{apply_step_template}
use tkn_act.Engine.Cluster.Expanding.{
  expand_pipeline_task, add_all, local_spec, spec_images, task_images, unique_images,
}
use tkn_act.Engine.Cluster.Bodies.{Becomes, Expands, expand_pipeline_task-Expands}

mem-add_all :
    (image : String) (xs seen : List String)
    → mem image (add_all xs seen) ≡ (mem image seen || mem image xs)
unfolding add_all
mem-add_all image [] seen = ground arith
mem-add_all image (x ∷ xs) seen =
    ground (arith, mem-add_all image xs (tkn_act.Base.add x seen), mem-add x image seen)

add_all-Distinct : (xs seen : List String) → Distinct seen → Distinct (add_all xs seen)
unfolding add_all
add_all-Distinct [] seen d = d
add_all-Distinct (x ∷ xs) seen d = add_all-Distinct xs _ (add-Distinct x seen d)

module _ {k : Kube} (json : Json) (actions : Map (StepAction k)) where
  -- The images of a task as it is run, its template applied, that can be fetched as they stand.
  abbrev pub handed_images : Map (TaskSpec k) → PipelineTask k → List String
  handed_images out pt = elim (local_spec json actions out pt) [
    | none ↦ []
    | some spec ↦ spec_images json actions (apply_step_template spec)
  ]

  module _ (tasks out : Map (TaskSpec k))
      (known : (n : String) → Becomes json actions (lookup n tasks) (lookup n out)) where
    local_spec-Becomes :
        (pt pt' : PipelineTask k)
        → Expands json actions tasks out pt pt'
        → Becomes json actions (local_spec json actions tasks pt) (local_spec json actions out pt')
    local_spec-Becomes pt pt' e = elim (Option-cases pt.task_ref) [
      | inl none_here ↦ (
        ground (arith, e.same, none_here, e.becomes.0),
        ground (arith, e.same, none_here, e.becomes.1),
      )
      | inr (ref, named) ↦ elim (Bool-cases (ref.resolver == "")) [
        | inl near ↦
            let (same, there) = known ref.name in
            (ground (arith, e.same, named, near, same), ground (arith, e.same, named, near, there))
        | inr far ↦ (ground (arith, e.same, named, far), ground (arith, e.same, named, far))
      ]
    ]

    task_images-handed :
        (pt pt' : PipelineTask k)
        → Expands json actions tasks out pt pt'
        → task_images json actions tasks pt ≡ handed_images out pt'
    unfolding task_images
    task_images-handed pt pt' e =
        let (same, there) = local_spec-Becomes pt pt' e in
        elim (Option-cases (local_spec json actions tasks pt)) [
          | inl nothing ↦ ground (arith, nothing, same)
          | inr (spec, found) ↦ elim (Result-cases (resolve_step_actions json actions spec)) [
            | inl (s, good) ↦ ground (arith, found, good, same)
            | inr (x, bad) ↦ absurd (ground (arith, found, bad, same, there))
          ]
        ]

    each-handed :
        (pts pts' : List (PipelineTask k))
        → Pairwise (λ pt pt'. expand_pipeline_task json actions pt ≡ ok pt') pts pts'
        → each (task_images json actions tasks) pts ≡ each (handed_images out) pts'
    each-handed [] [] p = refl
    each-handed [] (pt' ∷ pts') p = absurd p
    each-handed (pt ∷ pts) [] p = absurd p
    each-handed (pt ∷ pts) (pt' ∷ pts') (here, more) =
        let e = expand_pipeline_task-Expands json actions tasks out known pt pt' here in
        ap (λ l. l ++ each (task_images json actions tasks) pts) (task_images-handed pt pt' e)
        ∙ ap (λ l. handed_images out pt' ++ l) (each-handed pts pts' more)

    -- What is listed before the actions are inlined is what is then there to be run.
    pub unique_images-handed :
        (pl last : Pipeline k)
        → traverse (expand_pipeline_task json actions) pl.tasks ≡ ok last.tasks
        → traverse (expand_pipeline_task json actions) pl.finally ≡ ok last.finally
        → Distinct (unique_images json actions tasks pl)
          × ((image : String)
              → mem image (unique_images json actions tasks pl)
                ≡ mem image (each (handed_images out) (last.tasks ++ last.finally)))
    unfolding unique_images
    unique_images-handed pl last t f =
        let listed = each (task_images json actions tasks) (pl.tasks ++ pl.finally) in
        let expand = expand_pipeline_task json actions in
        let same : listed ≡ each (handed_images out) (last.tasks ++ last.finally) =
          each-append (task_images json actions tasks) pl.tasks pl.finally
          ∙ (ap (λ l. l ++ each (task_images json actions tasks) pl.finally)
                (each-handed pl.tasks last.tasks (traverse-Pairwise expand pl.tasks last.tasks t))
              ∙ (ap (λ l. each (handed_images out) last.tasks ++ l)
                    (each-handed pl.finally last.finally
                      (traverse-Pairwise expand pl.finally last.finally f))
                  ∙ sym (each-append (handed_images out) last.tasks last.finally))) in
        (add_all-Distinct listed [] tt, λ image. mem-add_all image listed [] ∙ ap (mem image) same)

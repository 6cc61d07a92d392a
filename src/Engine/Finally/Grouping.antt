-- ===== src/Engine/Finally/Grouping.antt =====
-- The statuses that finally tasks see, from the outcomes of the main tasks.
use tkn_act.Base.{
  ℕ, zero, suc, ◌+◌, ◌≤◌, ◌<◌, String, ◌≡◌, refl, ◌∙◌, sym, ap, Bool, true, false, ◌&&◌, ◌||◌, not,
  arith, ◌==◌, eq_iff, Option, none, some, List, [], ◌∷◌, if◌then◌else◌, ltb, nat_eq, Map, lookup,
  insert, or_else, is_some, found_entry, entry_found, any, all, keys, Distinct, mem, lookup-insert,
  keys-Distinct-insert, mem-keys, Bool-cases, Option-cases, ◌⊎◌, inl, inr,
}
use tkn_act.Tekton.{Kube, PipelineTask}
use tkn_act.Engine.Outcome.{TaskOutcome}
use tkn_act.Engine.Finally.{
  exec_succeeded, exec_failed, exec_completed, exec_none, Agg, no_runs, is_bad, is_good, group_of,
  add_tasks, compute_finally_status,
}
use tkn_act.Engine.Finally.Counting.{
  is_done, ended, in_group, counted, add_tasks-lookup, add_tasks-keys, add_tasks-done, group_status,
  exec_of-counted, per_task-lookup, failed_entry, skipped_entry, per_task-flags, started,
}

module _ {k : Kube} (outcomes : Map TaskOutcome) where
  groups_lookup :
      (n : String) (pts : List (PipelineTask k))
      → lookup n (add_tasks outcomes pts started).groups
        ≡ (if any (in_group outcomes n) pts then some (counted outcomes n pts no_runs) else none)
  unfolding tkn_act.Base.lookup
  groups_lookup n pts = add_tasks-lookup outcomes n pts started

  some_group :
      (q : PipelineTask k → Bool) (pts : List (PipelineTask k))
      → any q pts ≡ true
      → (n : String) × (any (λ pt. in_group outcomes n pt && q pt) pts ≡ true)
        × (any (in_group outcomes n) pts ≡ true)
  some_group q [] h = absurd (cc)
  some_group q (pt ∷ pts) h = elim (Bool-cases (q pt)) [
    | inl e ↦ (
      group_of pt,
      ground (arith, eq_iff (group_of pt) (group_of pt)),
      ground (arith, eq_iff (group_of pt) (group_of pt)),
    )
    | inr e ↦ let (n, a, b) = some_group q pts (ground arith) in (n, ground arith, ground arith)
  ]

  some_ungood :
      (q : PipelineTask k → Bool) (pts : List (PipelineTask k))
      → all q pts ≡ false
      → (n : String) × (all (λ pt. not (in_group outcomes n pt) || q pt) pts ≡ false)
        × (any (in_group outcomes n) pts ≡ true)
  some_ungood q [] h = absurd (cc)
  some_ungood q (pt ∷ pts) h = elim (Bool-cases (q pt)) [
    | inl e ↦ let (n, a, b) = some_ungood q pts (ground arith) in (n, ground arith, ground arith)
    | inr e ↦ (
      group_of pt,
      ground (arith, eq_iff (group_of pt) (group_of pt)),
      ground (arith, eq_iff (group_of pt) (group_of pt)),
    )
  ]

  group_any :
      (n : String) (q : PipelineTask k → Bool) (pts : List (PipelineTask k))
      → any (λ pt. in_group outcomes n pt && q pt) pts ≡ true
      → any q pts ≡ true
  group_any n q [] h = cc
  group_any n q (pt ∷ pts) h = ground (arith, group_any n q pts)

  group_all :
      (n : String) (q : PipelineTask k → Bool) (pts : List (PipelineTask k))
      → all (λ pt. not (in_group outcomes n pt) || q pt) pts ≡ false
      → all q pts ≡ false
  group_all n q [] h = cc
  group_all n q (pt ∷ pts) h = ground (arith, group_all n q pts)

  module _ (pts : List (PipelineTask k)) where
    abbrev gs : Map Agg
    gs = (add_tasks outcomes pts started).groups

    gs-Distinct : Distinct (keys gs)
    gs-Distinct = add_tasks-keys outcomes pts started tt

    failed_iff : any (λ e. failed_entry e.1) gs ≡ any (ended outcomes is_bad) pts
    failed_iff = elim (Bool-cases (any (ended outcomes is_bad) pts)) [
      | inl h ↦
          let (n, a, b) = some_group (ended outcomes is_bad) pts h in
          entry_found failed_entry gs n (counted outcomes n pts no_runs)
            (ground (arith, groups_lookup n pts)) (ground (arith, exec_of-counted outcomes n pts))
          ∙ sym h
      | inr h ↦ elim (Bool-cases (any (λ e. failed_entry e.1) gs)) [
        | inr e ↦ e ∙ sym h
        | inl e ↦
            let (n, g, l, q) = found_entry failed_entry gs e gs-Distinct in
            absurd (
              ground (
                arith,
                groups_lookup n pts,
                exec_of-counted outcomes n pts,
                group_any n (ended outcomes is_bad) pts,
              ))
      ]
    ]

    skipped_iff :
        any (ended outcomes is_bad) pts ≡ false
        → any (λ e. skipped_entry e.1) gs ≡ not (all (ended outcomes is_good) pts)
    skipped_iff clean = elim (Bool-cases (all (ended outcomes is_good) pts)) [
      | inr h ↦
          let (n, a, b) = some_ungood (ended outcomes is_good) pts h in
          entry_found skipped_entry gs n (counted outcomes n pts no_runs)
            (ground (arith, groups_lookup n pts))
            (ground
              (arith, exec_of-counted outcomes n pts, group_any n (ended outcomes is_bad) pts))
          ∙ ap not (sym h)
      | inl h ↦ elim (Bool-cases (any (λ e. skipped_entry e.1) gs)) [
        | inr e ↦ e ∙ ap not (sym h)
        | inl e ↦
            let (n, g, l, q) = found_entry skipped_entry gs e gs-Distinct in
            absurd (
              ground (
                arith,
                groups_lookup n pts,
                exec_of-counted outcomes n pts,
                group_all n (ended outcomes is_good) pts,
              ))
      ]
    ]

-- `$(tasks.status)`: None while a main task has no outcome, else Failed if one ended badly, else
-- Succeeded if all succeeded, and Completed otherwise.
pub compute_finally_status-aggregate :
    {k : Kube} (pts : List (PipelineTask k)) (outcomes : Map TaskOutcome)
    → (compute_finally_status pts outcomes).0 ≡ (
        if not (all (is_done outcomes) pts)
        then exec_none
        else if any (ended outcomes is_bad) pts
        then exec_failed
        else if all (ended outcomes is_good) pts
        then exec_succeeded
        else exec_completed)
unfolding compute_finally_status
compute_finally_status-aggregate pts outcomes = ground (
  arith,
  add_tasks-done outcomes pts (record { groups = []; all_done = true }),
  per_task-flags (gs outcomes pts),
  failed_iff outcomes pts,
  skipped_iff outcomes pts,
)

-- `$(tasks.<t>.status)`: a task of the pipeline, or a matrix by its parent's name, is Failed if one
-- of its runs ended badly, Succeeded if all succeeded, and None otherwise; no other name has one.
pub compute_finally_status-per_task :
    {k : Kube} (pts : List (PipelineTask k)) (outcomes : Map TaskOutcome) (n : String)
    → lookup n (compute_finally_status pts outcomes).1
      ≡ (if any (in_group outcomes n) pts then some (group_status outcomes n pts) else none)
unfolding compute_finally_status
compute_finally_status-per_task pts outcomes n = ground (
  arith,
  per_task-lookup n (gs outcomes pts),
  groups_lookup outcomes n pts,
  exec_of-counted outcomes n pts,
)

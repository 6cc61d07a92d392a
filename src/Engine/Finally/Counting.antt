-- ===== src/Engine/Finally/Counting.antt =====
-- What the groups of `computeFinallyStatus` count.
use tkn_act.Base.{
  ℕ, zero, suc, ◌+◌, ◌≤◌, ◌<◌, String, ◌≡◌, refl, ◌∙◌, sym, ap, Bool, true, false, ◌&&◌, ◌||◌, not,
  arith, ◌==◌, eq_iff, Option, none, some, List, [], ◌∷◌, if◌then◌else◌, ltb, nat_eq, Map, lookup,
  insert, or_else, is_some, found_entry, entry_found, any, all, keys, Distinct, mem, lookup-insert,
  keys-Distinct-insert, mem-keys, Bool-cases, Option-cases, ◌⊎◌, inl, inr,
}
use tkn_act.Tekton.{Kube, PipelineTask}
use tkn_act.Engine.Outcome.{Status, TaskOutcome}
use tkn_act.Engine.Finally.{
  ExecStatus, exec_succeeded, exec_failed, exec_none, Agg, no_runs, is_bad, is_good, tally, Groups,
  group_of, add_task, add_tasks, exec_of, per_task,
}

module _ {k : Kube} (outcomes : Map TaskOutcome) where
  abbrev pub is_done : PipelineTask k → Bool
  is_done pt = is_some (lookup pt.name outcomes)

  -- The task has an outcome, and its status passes the test.
  abbrev pub ended : (Status → Bool) → PipelineTask k → Bool
  ended test pt = elim (lookup pt.name outcomes) [ none ↦ false | some oc ↦ test oc.status ]

  abbrev pub in_group : String → PipelineTask k → Bool
  in_group n pt = group_of pt == n

  pub count_tasks : (PipelineTask k → Bool) → List (PipelineTask k) → ℕ
  count_tasks p [] = 0
  count_tasks p (pt ∷ pts) = let rest = count_tasks p pts in if p pt then suc rest else rest

  abbrev pub counted : String → List (PipelineTask k) → Agg → Agg
  counted n pts g = record {
    total = g.total + count_tasks (in_group n) pts;
    good = g.good + count_tasks (λ pt. in_group n pt && ended is_good pt) pts;
    bad = g.bad + count_tasks (λ pt. in_group n pt && ended is_bad pt) pts;
  }

  pub add_task-lookup :
      (n : String) (pt : PipelineTask k) (gs : Groups)
      → lookup n (add_task outcomes pt gs).groups ≡ (
          if in_group n pt
          then some (counted n (pt ∷ []) (or_else (lookup n gs.groups) no_runs))
          else lookup n gs.groups)
  unfolding add_task tally count_tasks
  add_task-lookup n pt gs = elim (Option-cases (lookup pt.name outcomes)) [
    | inl e ↦ ground (
      arith,
      e,
      lookup-insert (group_of pt) n
          (record (or_else (lookup (group_of pt) gs.groups) no_runs) {
            total = (or_else (lookup (group_of pt) gs.groups) no_runs).total + 1;
          })
          gs.groups,
      eq_iff (group_of pt) n,
    )
    | inr (oc, e) ↦ ground (
      arith,
      e,
      lookup-insert (group_of pt) n
          (tally oc.status (record (or_else (lookup (group_of pt) gs.groups) no_runs) {
            total = (or_else (lookup (group_of pt) gs.groups) no_runs).total + 1;
          }))
          gs.groups,
      eq_iff (group_of pt) n,
    )
  ]

  pub count_tasks-zero :
      (n : String) (q : PipelineTask k → Bool) (pts : List (PipelineTask k))
      → any (in_group n) pts ≡ false
      → (count_tasks (in_group n) pts ≡ 0) × (count_tasks (λ pt. in_group n pt && q pt) pts ≡ 0)
  unfolding count_tasks
  count_tasks-zero n q [] h = (refl, refl)
  count_tasks-zero n q (pt ∷ pts) h = ground (arith, count_tasks-zero n q pts)

  pub add_tasks-lookup :
      (n : String) (pts : List (PipelineTask k)) (gs : Groups)
      → lookup n (add_tasks outcomes pts gs).groups ≡ (
          if any (in_group n) pts
          then some (counted n pts (or_else (lookup n gs.groups) no_runs))
          else lookup n gs.groups)
  unfolding add_tasks count_tasks
  add_tasks-lookup n [] gs = refl
  add_tasks-lookup n (pt ∷ pts) gs = ground (
    arith,
    add_tasks-lookup n pts (add_task outcomes pt gs),
    add_task-lookup n pt gs,
    count_tasks-zero n (ended is_good) pts,
    count_tasks-zero n (ended is_bad) pts,
  )

  pub add_task-keys :
      (pt : PipelineTask k) (gs : Groups)
      → Distinct (keys gs.groups)
      → Distinct (keys (add_task outcomes pt gs).groups)
  unfolding add_task
  add_task-keys pt gs d =
      let g = or_else (lookup (group_of pt) gs.groups) no_runs in
      let fresh = record g { total = g.total + 1 } in
      elim (Option-cases (lookup pt.name outcomes)) [
        | inl e ↦ ground (arith, e, keys-Distinct-insert (group_of pt) fresh gs.groups d)
        | inr (oc, e) ↦
            ground
              (arith, e, keys-Distinct-insert (group_of pt) (tally oc.status fresh) gs.groups d)
      ]

  pub add_tasks-keys :
      (pts : List (PipelineTask k)) (gs : Groups)
      → Distinct (keys gs.groups)
      → Distinct (keys (add_tasks outcomes pts gs).groups)
  unfolding add_tasks
  add_tasks-keys [] gs d = d
  add_tasks-keys (pt ∷ pts) gs d =
      add_tasks-keys pts (add_task outcomes pt gs) (add_task-keys pt gs d)

  pub add_tasks-done :
      (pts : List (PipelineTask k)) (gs : Groups)
      → (add_tasks outcomes pts gs).all_done ≡ (gs.all_done && all is_done pts)
  unfolding add_tasks add_task
  add_tasks-done [] gs = ground arith
  add_tasks-done (pt ∷ pts) gs = ground (arith, add_tasks-done pts (add_task outcomes pt gs))

  -- What the counts of a group decide.
  pub good-eq-total :
      (n : String) (pts : List (PipelineTask k))
      → nat_eq
          (count_tasks (λ pt. in_group n pt && ended is_good pt) pts)
          (count_tasks (in_group n) pts)
        ≡ all (λ pt. not (in_group n pt) || ended is_good pt) pts
  unfolding count_tasks
  good-eq-total n [] = refl
  good-eq-total n (pt ∷ pts) = ground (arith, good-eq-total n pts, count_le n pts)
    where
      count_le :
          (n : String) (pts : List (PipelineTask k))
          → count_tasks (λ pt. in_group n pt && ended is_good pt) pts ≤ count_tasks (in_group n) pts
      count_le n [] = omega arith
      count_le n (pt ∷ pts) = ground (arith, count_le n pts)

  pub bad-pos :
      (n : String) (pts : List (PipelineTask k))
      → ltb 0 (count_tasks (λ pt. in_group n pt && ended is_bad pt) pts)
        ≡ any (λ pt. in_group n pt && ended is_bad pt) pts
  unfolding count_tasks
  bad-pos n [] = refl
  bad-pos n (pt ∷ pts) = ground (arith, bad-pos n pts)

  -- A group's status, read off its tasks.
  abbrev pub group_status : String → List (PipelineTask k) → ExecStatus
  group_status n pts =
      if any (λ pt. in_group n pt && ended is_bad pt) pts
      then exec_failed
      else if all (λ pt. not (in_group n pt) || ended is_good pt) pts
      then exec_succeeded
      else exec_none

  pub exec_of-counted :
      (n : String) (pts : List (PipelineTask k))
      → exec_of (counted n pts no_runs) ≡ group_status n pts
  unfolding exec_of
  exec_of-counted n pts = ground (arith, good-eq-total n pts, bad-pos n pts)

pub per_task-lookup :
    (n : String) (gs : Map Agg)
    → lookup n (per_task gs).per ≡ elim (lookup n gs) [ none ↦ none | some g ↦ some (exec_of g) ]
unfolding per_task tkn_act.Base.lookup
per_task-lookup n [] = refl
per_task-lookup n ((m, g) ∷ gs) = ground (arith, per_task-lookup n gs)

abbrev pub failed_entry : Agg → Bool
failed_entry g = elim (exec_of g) [ exec_failed ↦ true | _ ↦ false ]

abbrev pub skipped_entry : Agg → Bool
skipped_entry g = elim (exec_of g) [ exec_none ↦ true | _ ↦ false ]

pub per_task-flags :
    (gs : Map Agg)
    → ((per_task gs).any_failed ≡ any (λ e. failed_entry e.1) gs)
      × ((per_task gs).any_skipped ≡ any (λ e. skipped_entry e.1) gs)
unfolding per_task
per_task-flags [] = (refl, refl)
per_task-flags ((m, g) ∷ gs) = ground (arith, per_task-flags gs)

abbrev pub started : Groups
started = record { groups = []; all_done = true }

-- ===== src/Engine/Blocking/Groups.antt =====
-- When a task's ancestors hold it back, in terms of the ancestors themselves.
use tkn_act.Base.{
  String, ◌≡◌, refl, ◌∙◌, sym, ap, Bool, true, false, ◌&&◌, ◌||◌, not, arith, ◌==◌, eq_iff, inl,
  inr, Option, none, some, List, [], ◌∷◌, if◌then◌else◌, Map, lookup, insert, lookup-insert, keys,
  keys-Distinct-insert, Distinct, or_else, any, found_entry, entry_found, Bool-cases, Option-cases,
}
use tkn_act.Dag.{Graph}
use tkn_act.Tekton.{Kube, PipelineTask}
use tkn_act.Engine.Outcome.{
  TaskOutcome, upstream_failure, parent_task_skipped, is_succeeded, is_skip_when, is_not_run,
}
use tkn_act.Engine.Blocking.{
  upstream, Group, no_group, judge, key_for, group_ancestors, blocks, blocks_failed,
  upstream_blocks_dispatch,
}

module _ (outcomes : Map TaskOutcome) where
  -- An ancestor that succeeded.
  abbrev pub went_well : String → Bool
  went_well a = elim (lookup a outcomes) [ none ↦ false | some oc ↦ is_succeeded oc.status ]

  -- An ancestor that has an outcome, neither success nor a skip by its own `when`.
  abbrev pub in_the_way : String → Bool
  in_the_way a = elim (lookup a outcomes) [
    | none ↦ false
    | some oc ↦ not (is_succeeded oc.status) && not (is_skip_when oc.skip)
  ]

  -- One of those that ran.
  abbrev pub broke : String → Bool
  broke a = elim (lookup a outcomes) [
    | none ↦ false
    | some oc ↦
        not (is_succeeded oc.status) && not (is_skip_when oc.skip) && not (is_not_run oc.status)
  ]

module _ {k : Kube} (main : Map (PipelineTask k)) (outcomes : Map TaskOutcome) where
  abbrev of_key : String → (String → Bool) → List String → Bool
  of_key q p = any (λ a. key_for main a == q && p a)

  abbrev gathered : String → List String → Group → Group
  gathered q names grp = record {
    any_ok = grp.any_ok || of_key q (went_well outcomes) names;
    blocking = grp.blocking || of_key q (in_the_way outcomes) names;
    any_failed = grp.any_failed || of_key q (broke outcomes) names;
  }

  judge-gathered :
      (q a : String) (grp : Group)
      → key_for main a ≡ q
      → judge (lookup a outcomes) grp ≡ gathered q (a ∷ []) grp
  unfolding judge
  judge-gathered q a grp e = ground (arith, eq_iff (key_for main a) q)

  none_of_key :
      (q : String) (p : String → Bool) (names : List String)
      → any (λ a. key_for main a == q) names ≡ false
      → of_key q p names ≡ false
  none_of_key q p [] h = refl
  none_of_key q p (a ∷ names) h = ground (arith, none_of_key q p names)

  group_ancestors-lookup :
      (q : String) (names : List String) (gs : Map Group)
      → lookup q (group_ancestors main outcomes names gs) ≡ (
          if any (λ a. key_for main a == q) names
          then some (gathered q names (or_else (lookup q gs) no_group))
          else lookup q gs)
  unfolding group_ancestors
  group_ancestors-lookup q [] gs = refl
  group_ancestors-lookup q (a ∷ names) gs =
      let grp = or_else (lookup (key_for main a) gs) no_group in
      let next = insert (key_for main a) (judge (lookup a outcomes) grp) gs in
      ground (
        arith,
        group_ancestors-lookup q names next,
        lookup-insert (key_for main a) q (judge (lookup a outcomes) grp) gs,
        judge-gathered q a grp,
        eq_iff (key_for main a) q,
        none_of_key q (went_well outcomes) names,
        none_of_key q (in_the_way outcomes) names,
        none_of_key q (broke outcomes) names,
      )

  group_ancestors-keys :
      (names : List String) (gs : Map Group)
      → Distinct (keys gs)
      → Distinct (keys (group_ancestors main outcomes names gs))
  unfolding group_ancestors
  group_ancestors-keys [] gs d = d
  group_ancestors-keys (a ∷ names) gs d =
      let grp = judge (lookup a outcomes) (or_else (lookup (key_for main a) gs) no_group) in
      group_ancestors-keys names (insert (key_for main a) grp gs)
        (keys-Distinct-insert (key_for main a) grp gs d)

  -- A member of a list passes `p`, and its key fails `w`.
  abbrev alone : (String → Bool) → (String → Bool) → List String → Bool
  alone p w = any (λ a. p a && not (w (key_for main a)))

  key_of_alone :
      (p w : String → Bool) (names : List String)
      → alone p w names ≡ true
      → (q : String) × (of_key q p names ≡ true) × (w q ≡ false)
  key_of_alone p w [] h = absurd (cc)
  key_of_alone p w (a ∷ names) h = elim (Bool-cases (p a && not (w (key_for main a)))) [
    | inl e ↦
        (key_for main a, ground (arith, eq_iff (key_for main a) (key_for main a)), ground arith)
    | inr e ↦ let (q, m, n) = key_of_alone p w names (ground arith) in (q, ground arith, n)
  ]

  alone-of_key :
      (p w : String → Bool) (q : String) (names : List String)
      → of_key q p names ≡ true
      → w q ≡ false
      → alone p w names ≡ true
  alone-of_key p w q [] h n = cc
  alone-of_key p w q (a ∷ names) h n =
      ground (arith, alone-of_key p w q names, eq_iff (key_for main a) q)

  of_key-any :
      (p : String → Bool) (q : String) (names : List String)
      → of_key q p names ≡ true
      → any (λ a. key_for main a == q) names ≡ true
  of_key-any p q [] h = cc
  of_key-any p q (a ∷ names) h = ground (arith, of_key-any p q names)

  broke-in_the_way :
      (q : String) (names : List String)
      → of_key q (broke outcomes) names ≡ true
      → of_key q (in_the_way outcomes) names ≡ true
  broke-in_the_way q [] h = cc
  broke-in_the_way q (a ∷ names) h = ground (arith, broke-in_the_way q names)

  module _ (ups : List String) where
    abbrev groups : Map Group
    groups = group_ancestors main outcomes ups []

    groups_lookup :
        (q : String)
        → lookup q groups
          ≡ (if any (λ a. key_for main a == q) ups then some (gathered q ups no_group) else none)
    unfolding tkn_act.Base.lookup
    groups_lookup q = group_ancestors-lookup q ups []

    abbrev redeemed : String → Bool
    redeemed q = of_key q (went_well outcomes) ups

    -- A test on groups comes to a test on ancestors, where the two agree on each key.
    groups_any :
        (test : Group → Bool) (p : String → Bool)
        → ((q : String) → test (gathered q ups no_group) ≡ (of_key q p ups && not (redeemed q)))
        → any (λ e. test e.1) groups ≡ alone p redeemed ups
    groups_any test p agree = elim (Bool-cases (alone p redeemed ups)) [
      | inl h ↦
          let (q, m, n) = key_of_alone p redeemed ups h in
          entry_found test groups q (gathered q ups no_group)
            (ground (arith, groups_lookup q, of_key-any p q ups)) (ground (arith, agree q))
          ∙ sym h
      | inr h ↦ elim (Bool-cases (any (λ e. test e.1) groups)) [
        | inr e ↦ e ∙ sym h
        | inl e ↦
            let (q, grp, l, t) = found_entry test groups e (group_ancestors-keys ups [] tt) in
            absurd (ground (arith, groups_lookup q, agree q, alone-of_key p redeemed q ups))
      ]
    ]

  -- A task is held back exactly by an ancestor that is in the way while no task of its key (its
  -- matrix, or itself) went well; the message is a failure's if such an ancestor broke, and that
  -- of a skipped parent otherwise.
  pub upstream_blocks_dispatch_iff :
      (g : Graph) (target : String)
      → upstream_blocks_dispatch main outcomes g target ≡ (
          if any
            (λ a.
              in_the_way outcomes a
              && not (
                  any
                    (λ b. key_for main b == key_for main a && went_well outcomes b)
                    (upstream g target)))
            (upstream g target)
          then (if any
                (λ a.
                  broke outcomes a
                  && not (
                      any
                        (λ b. key_for main b == key_for main a && went_well outcomes b)
                        (upstream g target)))
                (upstream g target)
              then some upstream_failure
              else some parent_task_skipped)
          else none)
  unfolding upstream_blocks_dispatch
  upstream_blocks_dispatch_iff g target =
      let ups = upstream g target in
      ground (
        arith,
        groups_any ups blocks (in_the_way outcomes) (λ q. ground arith),
        groups_any ups blocks_failed (broke outcomes) (λ q. ground (arith, broke-in_the_way q ups)),
      )

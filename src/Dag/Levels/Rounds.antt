-- ===== src/Dag/Levels/Rounds.antt =====
-- The rounds of `Levels`, over the closed form of the table.
use tkn_act.Base.{
  ℕ, zero, suc, ◌≤◌, String, ◌≡◌, refl, ◌∙◌, sym, true, not, ◌&&◌, arith, eq_iff, ◌⊎◌, inl, inr,
  List, [], ◌∷◌, ◌++◌, length, mem, mem-append, mem-keep, keep-Distinct, Distinct, Distinct-append,
  any, all, concat, any_congr, Result, ok, err, Bool-cases,
}
use tkn_act.Base.Order.{sort, mem-sort, sort-Distinct}
use tkn_act.Base.Integers.{pos}
use tkn_act.Dag.{Graph, DagError, cycle_detected, preds, ready, levels_loop, is_zero, is_empty}
use tkn_act.Dag.Build.{IsMirrored}
use tkn_act.Dag.Counts.{degree, keys-tabulate}
use tkn_act.Dag.Levels.Checks.{IsClosed}
use tkn_act.Dag.Levels.Rests.{
  table, ready-tabulate, minus, mem-minus, minus-Distinct, length-minus-lt, retire-table,
  zero-degree, mem_of_empty, some_left,
}

-- Level by level: the nodes, not yet done, all of whose dependencies are done.
abbrev pub IsLayered : Graph → List String → List (List String) → Type 0
IsLayered g done [] = Unit
IsLayered g done (l ∷ ls) =
    ((v : String)
      → mem v l ≡ (mem v g.nodes && not (mem v done) && all (λ u. mem u done) (preds g v)))
    × IsLayered g (done ++ l) ls

-- Nodes that all have a dependency among themselves.
pub record IsStuck (g : Graph) (c : List String) : Type 0 where
  pub some_node : (x : String) × (mem x c ≡ true)
  pub nodes : (x : String) → mem x c ≡ true → mem x g.nodes ≡ true
  pub held : (x : String) → mem x c ≡ true → any (λ u. mem u c) (preds g x) ≡ true

pub record Grouped (g : Graph) (done left : List String) (ls : List (List String)) : Type 0 where
  pub layered : IsLayered g done ls
  pub covers : (x : String) → mem x (concat ls) ≡ mem x left
  pub once : Distinct (concat ls)

abbrev pub Outcome :
    Graph → List String → List String → Result DagError (List (List String)) → Type 0
Outcome g done left r =
    ((ls : List (List String)) × (r ≡ ok ls) × Grouped g done left ls)
    ⊎ ((c : List String) × (r ≡ err (cycle_detected c)) × IsStuck g c)

module _ (g : Graph) (mir : IsMirrored g) (cl : IsClosed g) where
  preds_known : (v u : String) → mem u (preds g v) ≡ true → mem u g.nodes ≡ true
  preds_known v u m = (cl.known u v (mir.mirrored u v ∙ m)).0

  module _ (done left : List String)
      (part : (x : String) → mem x left ≡ (mem x g.nodes && not (mem x done))) where
    abbrev level : List String
    level = sort (ready (table g left))

    mem-level :
        (v : String)
        → mem v level ≡ (mem v g.nodes && not (mem v done) && all (λ u. mem u done) (preds g v))
    mem-level v = ground (
      arith,
      mem-sort v (ready (table g left)),
      ready-tabulate (λ k. pos (degree g left k)) left,
      mem-keep v (λ k. is_zero (pos (degree g left k))) left,
      zero-degree g mir done left (preds g v) part (preds_known v),
      part v,
    )

    level-Distinct : Distinct left → Distinct level
    level-Distinct d =
        sort-Distinct (ready (table g left))
          (rw ready-tabulate (keep-Distinct (λ k. is_zero (pos (degree g left k))) left d))

    level-sub : (v : String) → mem v level ≡ true → mem v left ≡ true
    level-sub v m = ground (arith, mem-level v, part v)

    part-next :
        (x : String) → mem x (minus level left) ≡ (mem x g.nodes && not (mem x (done ++ level)))
    part-next x = ground (arith, mem-minus x level left, mem-append x done level, part x)

    -- With nothing ready each node that is left waits for another one.
    held_back :
        (x : String)
        → mem x left ≡ true
        → is_empty level ≡ true
        → any (λ u. mem u left) (preds g x) ≡ true
    held_back x m e =
        some_left g done left (preds g x) part (preds_known x)
          (ground (arith, mem-level x, mem_of_empty level x e, part x))

    stuck : (n : String) → mem n left ≡ true → is_empty level ≡ true → IsStuck g (sort left)
    stuck n m e = record {
      some_node = (n, mem-sort n left ∙ m);
      nodes = λ x m. ground (arith, mem-sort x left, part x);
      held = λ x m.
          rw
            (any_congr (λ u. mem u (sort left)) (λ u. mem u left) (preds g x)
              (λ u. mem-sort u left))
            (held_back x (sym (mem-sort x left) ∙ m) e);
    }

    grouped :
        (ls : List (List String))
        → Distinct left
        → Grouped g (done ++ level) (minus level left) ls
        → Grouped g done left (level ∷ ls)
    grouped ls d h = record {
      layered = (mem-level, h.layered);
      covers = λ x.
          ground (
            arith,
            mem-append x level (concat ls),
            h.covers x,
            mem-minus x level left,
            level-sub x,
          );
      once =
          Distinct-append level (concat ls) (level-Distinct d) h.once
            (λ x m. ground (arith, h.covers x, mem-minus x level left));
    }

  -- On enough fuel the loop groups what is left, or finds nodes that wait for one another.
  pub levels_loop-Outcome :
      (fuel : ℕ) (done left : List String)
      → ((x : String) → mem x left ≡ (mem x g.nodes && not (mem x done)))
      → Distinct left
      → length left ≤ fuel
      → Outcome g done left (levels_loop g fuel (table g left))
  unfolding levels_loop
  levels_loop-Outcome zero done [] part d f =
      inl ([], refl, record { layered = tt; covers = λ x. refl; once = tt })
  levels_loop-Outcome zero done (n ∷ ns) part d f = absurd (omega arith)
  levels_loop-Outcome (suc fuel) done [] part d f =
      inl ([], refl, record { layered = tt; covers = λ x. refl; once = tt })
  levels_loop-Outcome (suc fuel) done (n ∷ ns) part d f =
      let left = n ∷ ns in
      let l = level done left part in
      elim (Bool-cases (is_empty l)) [
        | inl e ↦ inr (
          sort left,
          rw (e, levels_loop, keys-tabulate (λ k. pos (degree g left k)) left),
          stuck done left part n (ground (arith, eq_iff n n)) e,
        )
        | inr e ↦
            elim (levels_loop-Outcome fuel (done ++ l) (minus l left) (part-next done left part)
              (minus-Distinct l left d)
              (omega (arith, length-minus-lt l left e (level-sub done left part)))) [
                | inl (ls, r, h) ↦ inl (
                  l ∷ ls,
                  rw (
                    e,
                    levels_loop,
                    retire-table g mir l left (level-sub done left part)
                        (level-Distinct done left part d),
                    r,
                  ),
                  grouped done left part ls d h,
                )
                | inr (c, r, h) ↦ inr (
                  c,
                  rw (
                    e,
                    levels_loop,
                    retire-table g mir l left (level-sub done left part)
                        (level-Distinct done left part d),
                    r,
                  ),
                  h,
                )
              ]
      ]

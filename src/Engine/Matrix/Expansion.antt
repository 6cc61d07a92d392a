-- ===== src/Engine/Matrix/Expansion.antt =====
-- What the expansion of a pipeline leaves.
use tkn_act.Base.{
  ℕ, ◌+◌, String, ◌≡◌, refl, subst, true, false, arith, List, [], ◌∷◌, ◌++◌, map, Map, insert,
  length, any, any-append, Option-cases, Bool-cases, inl, inr, ok, Result-cases,
}
use tkn_act.Tekton.{Kube, PipelineTask, Pipeline}
use tkn_act.Engine.Matrix.{
  Row, materialize_rows, child, children, expand_list, has_matrix, has_any_matrix, rewire,
  expand_matrix,
}

module _ {k : Kube} where
  children-clean :
      (pt : PipelineTask k) (of i : ℕ) (rows : List Row)
      → any has_matrix (children pt of i rows) ≡ false
  unfolding children child
  children-clean pt of i [] = refl
  children-clean pt of i (row ∷ rows) = children-clean pt of (i + 1) rows

  expand_list-clean :
      (pts : List (PipelineTask k)) (rewrite : Map (List String))
      (r : List (PipelineTask k) × Map (List String))
      → expand_list pts rewrite ≡ ok r
      → any has_matrix r.0 ≡ false
  unfolding expand_list
  expand_list-clean [] rewrite r e = ground (arith, e)
  expand_list-clean (pt ∷ pts) rewrite r e = elim (Option-cases pt.matrix) [
    | inl none_here ↦ elim (Result-cases (expand_list pts rewrite)) [
      | inr (bad, f) ↦ absurd (ground (arith, e, none_here, f))
      | inl (rest, f) ↦
          let same : (pt ∷ rest.0, rest.1) ≡ r = ground (arith, e, none_here, f) in
          subst (λ (q : List (PipelineTask k) × Map (List String)). any has_matrix q.0 ≡ false) same
            (ground (arith, none_here, expand_list-clean pts rewrite rest f))
    ]
    | inr (m, some_here) ↦ elim (Result-cases (materialize_rows pt.name m)) [
      | inr (bad, f) ↦ absurd (ground (arith, e, some_here, f))
      | inl (rows, f) ↦
          let kids = children pt (length rows) 0 rows in
          let rewrite' = insert pt.name (map (λ c. c.name) kids) rewrite in
          elim (Result-cases (expand_list pts rewrite')) [
            | inr (bad, g) ↦ absurd (ground (arith, e, some_here, f, g))
            | inl (rest, g) ↦
                let same : (kids ++ rest.0, rest.1) ≡ r = ground (arith, e, some_here, f, g) in
                subst
                  (λ (q : List (PipelineTask k) × Map (List String)). any has_matrix q.0 ≡ false)
                  same
                  (ground (
                    arith,
                    any-append has_matrix kids rest.0,
                    children-clean pt (length rows) 0 rows,
                    expand_list-clean pts rewrite' rest g,
                  ))
          ]
    ]
  ]

  any-rewire :
      (w : Map (List String)) (pts : List (PipelineTask k))
      → any has_matrix (map (rewire w) pts) ≡ any has_matrix pts
  any-rewire w [] = refl
  any-rewire w (pt ∷ pts) = ground (arith, any-rewire w pts)

  expand_matrix-left :
      (pl out : Pipeline k)
      → expand_matrix pl ≡ ok out
      → has_any_matrix pl ≡ true
      → has_any_matrix out ≡ false
  unfolding expand_matrix
  expand_matrix-left pl out e h = elim (Result-cases (expand_list pl.tasks [])) [
    | inr (bad, f) ↦ absurd (ground (arith, e, h, f))
    | inl (tasks, f) ↦ elim (Result-cases (expand_list pl.finally tasks.1)) [
      | inr (bad, g) ↦ absurd (ground (arith, e, h, f, g))
      | inl (finally, g) ↦
          let same : record pl {
            tasks = map (rewire finally.1) tasks.0;
            finally = map (rewire finally.1) finally.0;
          }
              ≡ out =
            ground (arith, e, h, f, g) in
          subst (λ (q : Pipeline k). has_any_matrix q ≡ false) same
            (ground (
              arith,
              any-rewire finally.1 tasks.0,
              any-rewire finally.1 finally.0,
              expand_list-clean pl.tasks [] tasks f,
              expand_list-clean pl.finally tasks.1 finally g,
            ))
    ]
  ]

  expand_matrix-unchanged : (pl : Pipeline k) → has_any_matrix pl ≡ false → expand_matrix pl ≡ ok pl
  unfolding expand_matrix
  expand_matrix-unchanged pl h = rw (h, expand_matrix) refl

-- An expansion that succeeds leaves no matrix, in the main tasks or in the finally tasks, and
-- expanding its result again changes nothing.
pub expand_matrix-clean :
    {k : Kube} (pl out : Pipeline k)
    → expand_matrix pl ≡ ok out
    → (has_any_matrix out ≡ false) × (expand_matrix out ≡ ok out)
expand_matrix-clean pl out e = elim (Bool-cases (has_any_matrix pl)) [
  | inl h ↦ let clean = expand_matrix-left pl out e h in (clean, expand_matrix-unchanged out clean)
  | inr h ↦
      let same : pl ≡ out = ground (arith, e, expand_matrix-unchanged pl h) in
      let clean : has_any_matrix out ≡ false =
        subst (λ (q : Pipeline _). has_any_matrix q ≡ false) same h in
      (clean, expand_matrix-unchanged out clean)
]

-- ===== src/Engine/When/Verdict.antt =====
-- When the expressions let a task run, and which of them stops it.
use tkn_act.Base.{
  String, ◌≡◌, refl, subst, ap, Bool, true, false, arith, inl, inr, Option, none, some, List, [],
  ◌∷◌, ◌++◌, sym, Result, ok, err, ◌⊎◌, Result-cases, Bool-cases,
}
use tkn_act.Tekton.{WhenExpression}
use tkn_act.Resolver.Scope.{Json, Context, LookupError}
use tkn_act.Resolver.{strict, substitute, substitute_args}
use tkn_act.Engine.When.{refuses, evaluate_when}

module _ (json : Json) (ctx : Context) where
  -- The expression resolves, to an input and values that do or do not stop the task.
  pub record Resolves (w : WhenExpression) (stops : Bool) (input : String) : Type 0 where
    pub values : List String
    pub input_resolves : substitute json ctx strict w.input ≡ ok input
    pub values_resolve : substitute_args json ctx strict w.values ≡ ok values
    pub verdict : refuses w input values ≡ stops

  abbrev pub AllPass : List WhenExpression → Type 0
  AllPass [] = Unit
  AllPass (w ∷ ws) = ((input : String) × Resolves w false input) × AllPass ws

  abbrev pub Explains : List WhenExpression → Option (WhenExpression × String) → Type 0
  Explains ws none = AllPass ws
  Explains ws (some (w, input)) =
      (before : List WhenExpression) × (after : List WhenExpression) × (ws ≡ before ++ w ∷ after)
      × AllPass before
      × Resolves w true input

  Explains-later :
      (w : WhenExpression) (ws : List WhenExpression) (o : Option (WhenExpression × String))
      (input : String)
      → Resolves w false input
      → Explains ws o
      → Explains (w ∷ ws) o
  Explains-later w ws none input r e = ((input, r), e)
  Explains-later w ws (some (v, i)) input r (before, after, split, pass, stop) =
      (w ∷ before, after, ap (λ l. w ∷ l) split, ((input, r), pass), stop)

  evaluate_when-Explains :
      (ws : List WhenExpression) (o : Option (WhenExpression × String))
      → evaluate_when json ctx ws ≡ ok o
      → Explains ws o
  unfolding evaluate_when
  evaluate_when-Explains [] o e =
      let same : none ≡ o = ground (arith, e) in subst (λ q. Explains [] q) same tt
  evaluate_when-Explains (w ∷ ws) o e = elim (Result-cases (substitute json ctx strict w.input)) [
    | inr (bad, f) ↦ absurd (ground (arith, e, f))
    | inl (input, f) ↦ elim (Result-cases (substitute_args json ctx strict w.values)) [
      | inr (bad, g) ↦ absurd (ground (arith, e, f, g))
      | inl (values, g) ↦ elim (Bool-cases (refuses w input values)) [
        | inl stops ↦
            let same : some (w, input) ≡ o = ground (arith, e, f, g, stops) in
            subst (λ q. Explains (w ∷ ws) q) same
              (
                [],
                ws,
                refl,
                tt,
                record { values = values; input_resolves = f; values_resolve = g; verdict = stops },
              )
        | inr goes ↦
            Explains-later w ws o input
              (record { values = values; input_resolves = f; values_resolve = g; verdict = goes })
              (evaluate_when-Explains ws o (ground (arith, e, f, g, goes)))
      ]
    ]
  ]

  -- The input or the values of the expression do not resolve.
  abbrev pub Fails : WhenExpression → LookupError → Type 0
  Fails w e =
      (substitute json ctx strict w.input ≡ err e)
      ⊎ ((input : String) × (substitute json ctx strict w.input ≡ ok input)
          × (substitute_args json ctx strict w.values ≡ err e))

  abbrev pub IsExplained :
      List WhenExpression → Result LookupError (Option (WhenExpression × String)) → Type 0
  IsExplained ws (ok o) = Explains ws o
  IsExplained ws (err e) =
      (before : List WhenExpression) × (w : WhenExpression) × (after : List WhenExpression) × (ws
        ≡ before ++ w ∷ after)
      × AllPass before
      × Fails w e

  evaluate_when-fails :
      (ws : List WhenExpression) (e : LookupError)
      → evaluate_when json ctx ws ≡ err e
      → IsExplained ws (err e)
  unfolding evaluate_when
  evaluate_when-fails [] e h = absurd (cc)
  evaluate_when-fails (w ∷ ws) e h = elim (Result-cases (substitute json ctx strict w.input)) [
    | inr (bad, f) ↦
        let same : substitute json ctx strict w.input ≡ err e = ground (arith, h, f) in
        ([], w, ws, refl, tt, inl same)
    | inl (input, f) ↦ elim (Result-cases (substitute_args json ctx strict w.values)) [
      | inr (bad, g) ↦
          let same : substitute_args json ctx strict w.values ≡ err e = ground (arith, h, f, g) in
          ([], w, ws, refl, tt, inr (input, f, same))
      | inl (values, g) ↦ elim (Bool-cases (refuses w input values)) [
        | inl stops ↦ absurd (ground (arith, h, f, g, stops))
        | inr goes ↦
            let (before, v, after, split, pass, why) =
              evaluate_when-fails ws e (ground (arith, h, f, g, goes)) in
            let here : Resolves w false input = record {
              values = values;
              input_resolves = f;
              values_resolve = g;
              verdict = goes;
            } in
            (w ∷ before, v, after, ap (λ l. w ∷ l) split, ((input, here), pass), why)
      ]
    ]
  ]

  -- A task runs exactly if each of its `when` expressions resolves and lets it run. Otherwise the
  -- expression that is named is the first that stops it, or the error is that of the first that does
  -- not resolve, and all before it let the task run.
  pub evaluate_when-IsExplained :
      (ws : List WhenExpression) → IsExplained ws (evaluate_when json ctx ws)
  evaluate_when-IsExplained ws = elim (Result-cases (evaluate_when json ctx ws)) [
    | inl (o, good) ↦ subst (IsExplained ws) (sym good) (evaluate_when-Explains ws o good)
    | inr (e, bad) ↦ subst (IsExplained ws) (sym bad) (evaluate_when-fails ws e bad)
  ]

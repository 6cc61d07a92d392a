-- ===== src/Engine/PipelineResults/Resolved.antt =====
-- Which of a pipeline's results are delivered and which are reported as dropped.
use tkn_act.Base.{
  String, ◌≡◌, refl, sym, subst, arith, Bool, ◌&&◌, Option, none, some, List, [], ◌∷◌, ◌++◌,
  if◌then◌else◌, ◌==◌, all, each, is_ok, keys, Map, lookup, insert, lookup-insert, Result, ok, err,
  Result-cases, inl, inr, option_or, Pairwise,
}
use mathlib.Core.List.{append_assoc, append-nil}
use tkn_act.Base.Order.{sort, insert_sorted, mem-sort}
use tkn_act.Tekton.{ParamType, ParamValue, unset, string, array, object, PipelineResultSpec}
use tkn_act.Resolver.Scope.{Json, LookupError}
use tkn_act.Engine.PipelineResults.{
  ResultValue, resolve_items, resolve_fields, resolve_result, resolve_each,
  resolve_pipeline_results,
}
use tkn_act.Engine.PipelineResults.Declared.{
  field, Means, list, no_list, map_of, no_map, text-Means, resolve_items-parts, resolve_items-fails,
  resolve_fields-parts, resolve_fields-fails,
}

-- What became of each declaration, by its name.
abbrev pub Outcomes : Type 0
Outcomes = List (String × Result LookupError ResultValue)

abbrev delivered : Result LookupError ResultValue → Option ResultValue
delivered (ok v) = some v
delivered (err _) = none

abbrev error_of : String × Result LookupError ResultValue → List (String × LookupError)
error_of (name, ok _) = []
error_of (name, err e) = (name, e) ∷ []

abbrev pub dropped : Outcomes → List (String × LookupError)
dropped = each error_of

-- The value of the last declaration of a name that resolves.
abbrev pub last_delivered : String → Outcomes → Option ResultValue
last_delivered name [] = none
last_delivered name (o ∷ os) =
    option_or (last_delivered name os) (if o.0 == name then delivered o.1 else none)

all-insert_sorted :
    (p : String → Bool) (a : String) (xs : List String)
    → all p (insert_sorted a xs) ≡ (p a && all p xs)
unfolding insert_sorted
all-insert_sorted p a [] = refl
all-insert_sorted p a (x ∷ xs) = ground (arith, all-insert_sorted p a xs)

all-sort : (p : String → Bool) (xs : List String) → all p (sort xs) ≡ all p xs
unfolding sort
all-sort p [] = refl
all-sort p (x ∷ xs) = ground (arith, all-insert_sorted p x (sort xs), all-sort p xs)

module _ (json : Json) (results : Map (Map String)) where
  resolve_result-Means-of :
      (v : ParamValue) (t : ParamType)
      → v.type ≡ t
      → Means json results v (resolve_result json results v)
  unfolding resolve_result lookup
  resolve_result-Means-of v string e =
      text-Means json results v _ (ground (arith, e)) (ground (arith, e))
  resolve_result-Means-of v unset e =
      text-Means json results v _ (ground (arith, e)) (ground (arith, e))
  resolve_result-Means-of v array e = elim (Result-cases (resolve_items json results v.array_val)) [
    | inl (l, made) ↦
        let (parts, are, same) = resolve_items-parts json results v.array_val l made in
        subst (Means json results v) (ground (arith, e, made, same)) (list parts e are)
    | inr (x, bad) ↦
        subst (Means json results v) (ground (arith, e, bad))
          (no_list e (resolve_items-fails json results v.array_val x bad))
  ]
  resolve_result-Means-of v object e =
      let ks = sort (keys v.object_val) in
      elim (Result-cases (resolve_fields json results v.object_val ks [])) [
        | inl (m, made) ↦
            let (every, at) = resolve_fields-parts json results v.object_val ks [] m made in
            subst (Means json results v) (ground (arith, e, made)) (
              map_of {m = m} e
                (ground (
                  arith,
                  every,
                  all-sort (λ key. is_ok (field json results v.object_val key)) (keys v.object_val),
                ))
                (λ key. ground (arith, at key, mem-sort key (keys v.object_val))))
        | inr (x, bad) ↦
            subst (Means json results v) (ground (arith, e, bad))
              (no_map e (resolve_fields-fails json results v.object_val ks [] x bad))
      ]

  abbrev pub Speaks : PipelineResultSpec → String × Result LookupError ResultValue → Type 0
  Speaks spec o = (o.0 ≡ spec.name) × Means json results spec.value o.1

  abbrev outcomes_of : List PipelineResultSpec → Outcomes
  outcomes_of [] = []
  outcomes_of (spec ∷ specs) =
      (spec.name, resolve_result json results spec.value) ∷ outcomes_of specs

  outcomes_of-Pairwise :
      (specs : List PipelineResultSpec) → Pairwise Speaks specs (outcomes_of specs)
  outcomes_of-Pairwise [] = tt
  outcomes_of-Pairwise (spec ∷ specs) =
      ((refl, resolve_result-Means-of spec.value spec.value.type refl), outcomes_of-Pairwise specs)

  resolve_each-parts :
      (specs : List PipelineResultSpec) (out : Map ResultValue) (errs : List (String × LookupError))
      (name : String)
      → (lookup name (resolve_each json results specs out errs).0
          ≡ option_or (last_delivered name (outcomes_of specs)) (lookup name out))
        × ((resolve_each json results specs out errs).1 ≡ errs ++ dropped (outcomes_of specs))
  unfolding resolve_each
  resolve_each-parts [] out errs name = (refl, sym (append-nil errs))
  resolve_each-parts (spec ∷ specs) out errs name =
      elim (Result-cases (resolve_result json results spec.value)) [
        | inl (v, e) ↦ ground (
          arith,
          e,
          resolve_each-parts specs (insert spec.name v out) errs name,
          lookup-insert spec.name name v out,
        )
        | inr (x, e) ↦ ground (
          arith,
          e,
          resolve_each-parts specs out (errs ++ (spec.name, x) ∷ []) name,
          append_assoc errs ((spec.name, x) ∷ []) (dropped (outcomes_of specs)),
        )
      ]

  -- Each declared result comes out by the results of the tasks, and in the result a name stands for
  -- what its last declaration that comes out gives, and for nothing if none does; the errors are, in
  -- order, those of the declarations that do not come out. A text comes out as itself with every
  -- reference replaced, or, if it is one `$(...[*])`, as the list that this stands for; a list as its
  -- elements in order, where a sole `$(...[*])` gives all of its own; an object as its keys, each
  -- with its text. One reference that does not resolve is enough for a declaration not to come out,
  -- and its error is that of the first element, or of the first key in sorted order, that fails.
  pub resolve_pipeline_results-parts :
      (specs : List PipelineResultSpec)
      → (os : Outcomes) × Pairwise Speaks specs os
        × ((name : String)
            → lookup name (resolve_pipeline_results json results specs).0 ≡ last_delivered name os)
        × ((resolve_pipeline_results json results specs).1 ≡ dropped os)
  unfolding resolve_pipeline_results lookup
  resolve_pipeline_results-parts specs = (
    outcomes_of specs,
    outcomes_of-Pairwise specs,
    λ name. ground (arith, resolve_each-parts specs [] [] name),
    (resolve_each-parts specs [] [] "").1,
  )

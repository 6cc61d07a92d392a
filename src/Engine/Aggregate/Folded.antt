-- ===== src/Engine/Aggregate/Folded.antt =====
-- What the results of a matrix are once its expansions are folded into it.
use tkn_act.Base.{
  String, ◌≡◌, refl, ◌∙◌, ap, false, ◌||◌, arith, ◌==◌, eq_iff, some, List, [], ◌∷◌, if◌then◌else◌,
  map, Map, lookup, insert, lookup-insert, or_else, is_some, keys, mem, mem-keys, add, mem-add, any,
}
use tkn_act.Engine.Aggregate.{
  result_of, add_all, result_names, fold_names, aggregate_matrix_results,
}

-- results[n], where a missing key reads as the empty map
abbrev pub results_of : Map (Map String) → String → Map String
results_of results n = or_else (lookup n results) []

mem-add_all :
    (x : String) (ks seen : List String) → mem x (add_all ks seen) ≡ (mem x seen || mem x ks)
unfolding add_all
mem-add_all x [] seen = ground arith
mem-add_all x (k ∷ ks) seen = ground (arith, mem-add_all x ks (add k seen), mem-add k x seen)

mem-result_names :
    (results : Map (Map String)) (x : String) (names seen : List String)
    → mem x (result_names results names seen)
      ≡ (mem x seen || any (λ n. is_some (lookup x (results_of results n))) names)
unfolding result_names
mem-result_names results x [] seen = ground arith
mem-result_names results x (n ∷ names) seen = ground (
  arith,
  mem-result_names results x names (add_all (keys (results_of results n)) seen),
  mem-add_all x (keys (results_of results n)) seen,
  mem-keys x (results_of results n),
)

-- The entries that are folded are not those of the parent.
row_insert :
    (parent k : String) (m : Map String) (results : Map (Map String)) (names : List String)
    → mem parent names ≡ false
    → map (λ n. result_of (insert parent m results) n k) names
      ≡ map (λ n. result_of results n k) names
row_insert parent k m results [] h = refl
row_insert parent k m results (n ∷ names) h =
    rw (row_insert parent k m results names (ground arith)) (
      ap (λ v. v ∷ map (λ n. result_of results n k) names)
        (ground (arith, h, lookup-insert parent n m results, eq_iff n parent, eq_iff parent n)))

module _ (marshal : List String → String) (parent : String) (names : List String)
    (apart : mem parent names ≡ false) where
  fold_names-other :
      (t : String) (ks : List String) (results : Map (Map String))
      → (parent == t) ≡ false
      → lookup t (fold_names marshal parent names ks results) ≡ lookup t results
  unfolding fold_names
  fold_names-other t [] results h = refl
  fold_names-other t (k ∷ ks) results h =
      let m =
        insert k (marshal (map (λ n. result_of results n k) names)) (results_of results parent) in
      fold_names-other t ks (insert parent m results) h
      ∙ ground (arith, h, lookup-insert parent t m results)

  fold_names-parent :
      (x : String) (ks : List String) (results : Map (Map String))
      → lookup x (results_of (fold_names marshal parent names ks results) parent) ≡ (
          if mem x ks
          then some (marshal (map (λ n. result_of results n x) names))
          else lookup x (results_of results parent))
  unfolding fold_names
  fold_names-parent x [] results = refl
  fold_names-parent x (k ∷ ks) results =
      let encoded = marshal (map (λ n. result_of results n k) names) in
      let m = insert k encoded (results_of results parent) in
      fold_names-parent x ks (insert parent m results)
      ∙ ground (
        arith,
        row_insert parent x m results names apart,
        lookup-insert parent parent m results,
        eq_iff parent parent,
        lookup-insert k x encoded (results_of results parent),
        eq_iff k x,
      )

  -- Folding gives the parent of a matrix, under each name that one of its expansions has a result of,
  -- the encoded list of the expansions' results of that name, in order, with the empty text where
  -- an expansion has none; under any other name the parent keeps what it had, and no other task's
  -- results change. The parent is not one of its own expansions.
  pub aggregate_matrix_results-lookup :
      (results : Map (Map String)) (x t : String)
      → (lookup x (results_of (aggregate_matrix_results marshal parent names results) parent) ≡ (
          if any (λ n. is_some (lookup x (results_of results n))) names
          then some (marshal (map (λ n. result_of results n x) names))
          else lookup x (results_of results parent)))
        × ((parent == t) ≡ false
            → lookup t (aggregate_matrix_results marshal parent names results) ≡ lookup t results)
  unfolding aggregate_matrix_results
  aggregate_matrix_results-lookup results x t =
      let ks = result_names results names [] in
      (
        ground (arith, fold_names-parent x ks results, mem-result_names results x names []),
        fold_names-other t ks results,
      )

-- ===== src/Engine/Merge/Binding.antt =====
-- What a merged list binds: its readers take the last entry of a name.
use tkn_act.Base.{
  String, ◌≡◌, refl, ◌∙◌, arith, ◌==◌, eq_iff, Option, none, some, List, [], ◌∷◌, ◌++◌,
  if◌then◌else◌, Map, lookup, insert, lookup-insert, is_some, mem, Option-cases, inl, inr,
}
use tkn_act.Engine.Merge.{by_name, names_of, override, not_emitted, merge}

-- The first where there is one, and else the second.
abbrev pub first_of : {A : Type 0} → Option A → Option A → Option A
first_of (some p) o = some p
first_of none o = o

module _ {A : Type 0} (name : A → String) where
  abbrev pub last_named : String → List A → Option A
  last_named n [] = none
  last_named n (p ∷ ps) = elim (last_named n ps) [
    | some q ↦ some q
    | none ↦ if name p == n then some p else none
  ]

  last_named-append :
      (n : String) (ps qs : List A)
      → last_named n (ps ++ qs) ≡ first_of (last_named n qs) (last_named n ps)
  last_named-append n [] qs = elim (Option-cases (last_named n qs)) [
    | inl e ↦ rw (e) refl
    | inr (q, e) ↦ rw (e) refl
  ]
  last_named-append n (p ∷ ps) qs = elim (Option-cases (last_named n qs)) [
    | inl e ↦ rw (last_named-append n ps qs, e) refl
    | inr (q, e) ↦ rw (last_named-append n ps qs, e) refl
  ]

  lookup-by_name :
      (n : String) (ps : List A) (m : Map A)
      → lookup n (by_name name ps m) ≡ first_of (last_named n ps) (lookup n m)
  unfolding by_name
  lookup-by_name n [] m = refl
  lookup-by_name n (p ∷ ps) m =
      ground (arith, lookup-by_name n ps (insert (name p) p m), lookup-insert (name p) n p m)

  last_named-name : (n : String) (ps : List A) (p : A) → last_named n ps ≡ some p → name p ≡ n
  last_named-name n [] p e = absurd (cc)
  last_named-name n (q ∷ qs) p e = elim (Option-cases (last_named n qs)) [
    | inr (r, f) ↦ last_named-name n qs p (ground (arith, f))
    | inl f ↦ ground (arith, f, eq_iff (name q) n)
  ]

  mem-names_of : (n : String) (ps : List A) → mem n (names_of name ps) ≡ is_some (last_named n ps)
  mem-names_of n [] = refl
  mem-names_of n (p ∷ ps) = ground (arith, mem-names_of n ps)

  last_named-not_emitted :
      (n : String) (emitted : List String) (ps : List A)
      → last_named n (not_emitted name emitted ps)
        ≡ (if mem n emitted then none else last_named n ps)
  unfolding not_emitted
  last_named-not_emitted n emitted [] = ground arith
  last_named-not_emitted n emitted (p ∷ ps) =
      ground (arith, last_named-not_emitted n emitted ps, eq_iff (name p) n)

  last_named-override :
      (n : String) (m : Map A) (ps : List A)
      → ((k : String) (p : A) → lookup k m ≡ some p → name p ≡ k)
      → last_named n (override name m ps)
        ≡ (if is_some (last_named n ps) then first_of (lookup n m) (last_named n ps) else none)
  unfolding override
  last_named-override n m [] named = ground arith
  last_named-override n m (p ∷ ps) named =
      let later = last_named-override n m ps named in
      elim (Option-cases (lookup (name p) m)) [
        | inl e ↦ ground (arith, later, e, eq_iff (name p) n)
        | inr (q, e) ↦ ground (arith, later, e, named (name p) q e, eq_iff (name p) n)
      ]

  -- Whatever names the two lists repeat, what a merged list binds to a name is what the row binds to
  -- it, and what the base binds where the row has no such name.
  pub merge-last_named :
      (n : String) (base row : List A)
      → last_named n (merge name base row) ≡ first_of (last_named n row) (last_named n base)
  unfolding merge lookup
  merge-last_named n base row =
      last_named-append n (override name (by_name name row []) base)
        (not_emitted name (names_of name base) row)
      ∙ ground (
        arith,
        last_named-not_emitted n (names_of name base) row,
        mem-names_of n base,
        lookup-by_name n row [],
        last_named-override n (by_name name row []) base
            (λ k p e. last_named-name k row p (ground (arith, lookup-by_name k row [], e))),
      )

-- ===== src/Resolver/Arrays.antt =====
-- Lists of arguments are substituted item by item.
use mathlib.Core.List.{append_assoc}
use tkn_act.Base.{
  String, ◌≡◌, refl, sym, ap, arith, List, [], ◌∷◌, ◌++◌, ok, ◌>>=◌, Result-cases, Bool-cases, inl,
  inr,
}
use tkn_act.Resolver.Scope.{Context, Json}
use tkn_act.Resolver.{
  Mode, strict, substitute, is_array_star_ref, expand_array_star, substitute_arg, substitute_args,
}
use tkn_act.Resolver.Modes.{substitute-strict}

module _ (json : Json) (ctx : Context) where
  substitute_arg-strict :
      (mode : Mode) (a : String) (vals : List String)
      → substitute_arg json ctx strict a ≡ ok vals
      → substitute_arg json ctx mode a ≡ ok vals
  unfolding substitute_arg
  substitute_arg-strict mode a vals e = elim (Bool-cases (is_array_star_ref a)) [
    | inl star ↦ elim (Result-cases (expand_array_star json ctx a)) [
      | inr (bad, f) ↦ absurd (ground (arith, e, star, f))
      | inl (xs, f) ↦ ground (arith, e, star, f)
    ]
    | inr plain ↦ elim (Result-cases (substitute json ctx strict a)) [
      | inr (bad, f) ↦ absurd (ground (arith, e, plain, f))
      | inl (s, f) ↦ ground (arith, e, plain, f, substitute-strict json ctx mode a s f)
    ]
  ]

  -- Where the strictest mode substitutes a list of arguments, with whole-array references spliced
  -- in, the modes that defer references give the same list.
  pub substitute_args-strict :
      (mode : Mode) (args out : List String)
      → substitute_args json ctx strict args ≡ ok out
      → substitute_args json ctx mode args ≡ ok out
  unfolding substitute_args
  substitute_args-strict mode [] out e = e
  substitute_args-strict mode (a ∷ args) out e =
      elim (Result-cases (substitute_arg json ctx strict a)) [
        | inr (bad, f) ↦ absurd (ground (arith, e, f))
        | inl (vals, f) ↦ elim (Result-cases (substitute_args json ctx strict args)) [
          | inr (bad, g) ↦ absurd (ground (arith, e, f, g))
          | inl (rest, g) ↦ ground (
            arith,
            e,
            f,
            g,
            substitute_arg-strict mode a vals f,
            substitute_args-strict mode args rest g,
          )
        ]
      ]

  -- In every mode, substituting a list is substituting its parts: the results are joined in order,
  -- and the first error of the first part that fails is the error.
  pub substitute_args-append :
      (mode : Mode) (xs ys : List String)
      → substitute_args json ctx mode (xs ++ ys) ≡ (
          substitute_args json ctx mode xs >>= λ us.
          substitute_args json ctx mode ys >>= λ vs. ok (us ++ vs))
  unfolding substitute_args
  substitute_args-append mode [] ys = elim (Result-cases (substitute_args json ctx mode ys)) [
    | inl (vs, f) ↦ rw (f) refl
    | inr (bad, f) ↦ rw (f) refl
  ]
  substitute_args-append mode (a ∷ xs) ys = elim (Result-cases (substitute_arg json ctx mode a)) [
    | inr (bad, f) ↦ rw (f) refl
    | inl (vals, f) ↦ elim (Result-cases (substitute_args json ctx mode xs)) [
      | inr (bad, g) ↦ rw (f, substitute_args-append mode xs ys, g) refl
      | inl (us, g) ↦ elim (Result-cases (substitute_args json ctx mode ys)) [
        | inr (bad, h) ↦ rw (f, substitute_args-append mode xs ys, g, h) refl
        | inl (vs, h) ↦
            rw (f, substitute_args-append mode xs ys, g, h)
              (ap (λ l. ok l) (sym (append_assoc vals us vs)))
      ]
    ]
  ]

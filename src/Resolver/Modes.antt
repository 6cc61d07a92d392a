-- ===== src/Resolver/Modes.antt =====
-- The modes of a substitution differ only in which errors they let pass.
use tkn_act.Base.{
  ℕ, zero, suc, ◌+◌, String, ◌≡◌, refl, true, arith, Option, ok, err, Result-cases, Option-cases,
  Bool-cases, inl, inr,
}
use tkn_act.Base.Text.{size}
use tkn_act.Resolver.Scope.{Context, Json, LookupError, leave_literal}
use tkn_act.Resolver.Lookup.{lookup, lookup_allow_defer}
use tkn_act.Resolver.{
  Mode, strict, defer_step, defer_all, is_left, lookup_in, resolve, ref_at, scan_refs, replace_from,
  sentinel, substitute,
}

module _ (json : Json) (ctx : Context) where
  lookup_in-lookup :
      (mode : Mode) (key v : String)
      → lookup json ctx key ≡ ok v
      → lookup_in json ctx mode key ≡ ok v
  unfolding lookup_allow_defer
  lookup_in-lookup strict key v e = e
  lookup_in-lookup defer_step key v e = e
  lookup_in-lookup defer_all key v e = ground (arith, e)

  left_signal : (e : LookupError) → is_left strict e ≡ true → e ≡ leave_literal
  left_signal leave_literal h = refl
  left_signal e h = cc

  lookup_in-literal :
      (mode : Mode) (key : String)
      → lookup json ctx key ≡ err leave_literal
      → lookup_in json ctx mode key ≡ err leave_literal
  unfolding lookup_allow_defer
  lookup_in-literal strict key e = e
  lookup_in-literal defer_step key e = e
  lookup_in-literal defer_all key e = ground (arith, e)

  resolve-strict :
      (mode : Mode) (key : String) (o : Option String)
      → resolve json ctx strict key ≡ ok o
      → resolve json ctx mode key ≡ ok o
  unfolding resolve
  resolve-strict mode key o e = elim (Result-cases (lookup json ctx key)) [
    | inl (v, f) ↦ ground (arith, e, f, lookup_in-lookup mode key v f)
    | inr (bad, f) ↦ elim (Bool-cases (is_left strict bad)) [
      | inr g ↦ absurd (ground (arith, e, f, g))
      | inl g ↦
          let literal = left_signal bad g in
          ground (arith, e, f, g, literal, lookup_in-literal mode key (ground (arith, f, literal)))
    ]
  ]

  scan_refs-strict :
      (mode : Mode) (skip : ℕ) (s out : String)
      → scan_refs json ctx strict skip s ≡ ok out
      → scan_refs json ctx mode skip s ≡ ok out
  unfolding scan_refs
  scan_refs-strict mode skip String.[] out e = e
  scan_refs-strict mode zero (String.◌∷◌ c s) out e =
      elim (Option-cases (ref_at (String.◌∷◌ c s))) [
        | inl n ↦ elim (Result-cases (scan_refs json ctx strict 0 s)) [
          | inr (bad, f) ↦ absurd (ground (arith, e, n, f))
          | inl (r, f) ↦ ground (arith, e, n, f, scan_refs-strict mode 0 s r f)
        ]
        | inr (key, m) ↦ elim (Result-cases (resolve json ctx strict key)) [
          | inr (bad, f) ↦ absurd (ground (arith, e, m, f))
          | inl (v, f) ↦ elim (Result-cases (scan_refs json ctx strict (size key + 2) s)) [
            | inr (bad, g) ↦ absurd (ground (arith, e, m, f, g))
            | inl (r, g) ↦ ground (
              arith,
              e,
              m,
              f,
              g,
              resolve-strict mode key v f,
              scan_refs-strict mode (size key + 2) s r g,
            )
          ]
        ]
      ]
  scan_refs-strict mode (suc skip) (String.◌∷◌ c s) out e = scan_refs-strict mode skip s out e

  -- Where a substitution under the strictest mode succeeds, the modes that defer references give
  -- the same text.
  pub substitute-strict :
      (mode : Mode) (s out : String)
      → substitute json ctx strict s ≡ ok out
      → substitute json ctx mode s ≡ ok out
  unfolding substitute
  substitute-strict mode s out e =
      elim (Result-cases (scan_refs json ctx strict 0 (replace_from "$$" sentinel 0 s))) [
        | inr (bad, f) ↦ absurd (ground (arith, e, f))
        | inl (r, f) ↦
            ground (arith, e, f, scan_refs-strict mode 0 (replace_from "$$" sentinel 0 s) r f)
      ]

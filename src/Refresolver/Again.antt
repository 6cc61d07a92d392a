-- ===== src/Refresolver/Again.antt =====
-- A request that is served a second time.
use tkn_act.Base.{
  String, ◌≡◌, ap, true, false, ◌==◌, arith, some, lookup, ok, Bool-cases, Option-cases, inl, inr,
}
use tkn_act.Refresolver.{Request, Resolved, Registry, World}
use tkn_act.Refresolver.Cached.{serve, is_refused, resolve}
use tkn_act.Refresolver.Recalled.{key_of, resolve-IsServed}

module _ (sha : String → String) where
  pub answered-named :
      (w : World) (r : Registry) (req : Request) (out : Resolved)
      → (resolve sha w r req).answer ≡ ok out
      → ((req.resolver == "") ≡ false) × (is_refused sha r req.resolver ≡ false)
  unfolding resolve
  answered-named w r req out h = elim (Bool-cases (req.resolver == "")) [
    | inl nameless ↦ absurd (ground (arith, h, nameless))
    | inr named ↦ elim (Bool-cases (is_refused sha r req.resolver)) [
      | inl refused ↦ absurd (ground (arith, h, named, refused))
      | inr allowed ↦ (named, allowed)
    ]
  ]

  kept_allowed :
      (s r : Registry) (name : String)
      → s.allow ≡ r.allow
      → s.remote ≡ r.remote
      → is_refused sha r name ≡ false
      → is_refused sha s name ≡ false
  unfolding is_refused
  kept_allowed s r name a b h = elim (Option-cases r.allow) [
    | inl nil ↦ ground (arith, a, nil)
    | inr (ns, there) ↦ ground (arith, a, b, there, h)
  ]

  again_from :
      (s : Registry) (w : World) (req : Request) (hit out : Resolved)
      → (req.resolver == "") ≡ false
      → is_refused sha s req.resolver ≡ false
      → lookup (key_of sha req) s.per_run ≡ some hit
      → record hit { cached = true } ≡ record out { cached = true }
      → resolve sha w s req ≡ serve sha s (ok (record out { cached = true }))
  unfolding resolve
  again_from s w req hit out named allowed there same =
      rw (resolve, named, allowed, there) (ap (λ v. serve sha s (ok v)) same)

  -- What was resolved once is resolved again to the same resource, from the cache, without asking the
  -- outside, whatever the files and the outside then hold; the registry is not changed by that.
  pub resolve-again :
      (w w' : World) (r : Registry) (req : Request) (out : Resolved)
      → (resolve sha w r req).answer ≡ ok out
      → resolve sha w' (resolve sha w r req).registry req
        ≡ serve sha (resolve sha w r req).registry (ok (record out { cached = true }))
  resolve-again w w' r req out h =
      let s = resolve-IsServed sha w r req in
      let (hit, there, same) = s.recalls out h in
      let named = answered-named w r req out h in
      again_from (resolve sha w r req).registry w' req hit out named.0
        (kept_allowed (resolve sha w r req).registry r req.resolver s.allow s.remote named.1) there
        same

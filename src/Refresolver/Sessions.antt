-- ===== src/Refresolver/Sessions.antt =====
-- A run's requests, one after the other.
use tkn_act.Base.{
  String, ◌≡◌, refl, true, false, arith, none, some, List, [], ◌∷◌, ◌++◌, eq_iff, mem, lookup,
  is_some, Distinct, ok, err, Result-cases, Option-cases, ◌⊎◌, inl, inr, subst, sym,
}
use tkn_act.Refresolver.{Request, Resolved, Registry, World}
use tkn_act.Refresolver.Cached.{Served, resolve}
use tkn_act.Refresolver.Recalled.{key_of, resolve-IsServed}

module _ (sha : String → String) where
  -- the key of a resource that was fetched to serve a request
  abbrev pub fetched_key : Request → Served sha → List String
  fetched_key req s = elim s.called [
    | none ↦ []
    | some _ ↦ elim s.answer [ err _ ↦ [] | ok _ ↦ key_of sha req ∷ [] ]
  ]

  -- the keys that were fetched, in order, while the world answers each request in its own way
  abbrev pub fetched : List (World × Request) → Registry → List String
  fetched [] r = []
  fetched ((w, req) ∷ reqs) r =
      let s = resolve sha w r req in fetched_key req s ++ fetched reqs s.registry

  fetched_key-cases :
      (req : Request) (s : Served sha)
      → (fetched_key req s ≡ [])
        ⊎ ((fetched_key req s ≡ key_of sha req ∷ [])
            × (is_some s.called ≡ true)
            × ((out : Resolved) × (s.answer ≡ ok out)))
  fetched_key-cases req s = elim (Option-cases s.called) [
    | inl nil ↦ inl (ground (arith, nil))
    | inr (q, there) ↦ elim (Result-cases s.answer) [
      | inr (e, bad) ↦ inl (ground (arith, there, bad))
      | inl (out, good) ↦ inr (ground (arith, there, good), ground (arith, there), (out, good))
    ]
  ]

  fetched-new :
      (reqs : List (World × Request)) (r : Registry) (key : String)
      → is_some (lookup key r.per_run) ≡ true
      → mem key (fetched reqs r) ≡ false
  fetched-new [] r key h = refl
  fetched-new ((w, req) ∷ reqs) r key h =
      let s = resolve-IsServed sha w r req in
      let later =
        fetched-new reqs (resolve sha w r req).registry key (ground (arith, s.kept key h, h)) in
      elim (fetched_key-cases req (resolve sha w r req)) [
        | inl nil ↦ ground (arith, nil, later)
        | inr (one, called, _) ↦
            let (_, o) = s.opened called in
            ground (
              arith,
              one,
              later,
              h,
              o.new,
              eq_iff (key_of sha req) key,
              eq_iff key (key_of sha req),
            )
      ]

  -- While requests are served one after the other, no resource is fetched twice: the keys of those
  -- that were fetched with success all differ, however the files and the outside change meanwhile.
  pub fetched-Distinct : (reqs : List (World × Request)) (r : Registry) → Distinct (fetched reqs r)
  fetched-Distinct [] r = tt
  fetched-Distinct ((w, req) ∷ reqs) r =
      let s = resolve-IsServed sha w r req in
      let later = fetched-Distinct reqs (resolve sha w r req).registry in
      elim (fetched_key-cases req (resolve sha w r req)) [
        | inl nil ↦
            subst (λ l. Distinct (l ++ fetched reqs (resolve sha w r req).registry)) (sym nil) later
        | inr (one, _, (out, good)) ↦
            let (hit, there, _) = s.recalls out good in
            subst (λ l. Distinct (l ++ fetched reqs (resolve sha w r req).registry)) (sym one)
              (
                fetched-new reqs (resolve sha w r req).registry (key_of sha req)
                    (ground (arith, there)),
                later,
              )
      ]

-- ===== src/Refresolver/Recalled.antt =====
-- When the registry asks the outside, and what it answers from its caches.
use tkn_act.Base.{
  ◌⊎◌, String, ◌≡◌, refl, ap, true, false, ◌==◌, arith, eq_iff, none, some, lookup, insert,
  lookup-insert, is_some, Result, ok, err, Result-cases, Bool-cases, Option-cases, inl, inr, subst,
}
use tkn_act.Refresolver.{
  Request, Resolved, ResolveError, empty_name, not_allowed, not_registered, cache_miss,
  fetch_failed, Registry, World,
}
use tkn_act.Refresolver.Cached.{
  cache_key, from_disk, with_digest, remember, Served, serve, is_refused, has_route, dispatch,
  resolve_uncached, resolve,
}

module _ (sha : String → String) where
  abbrev pub key_of : Request → String
  key_of req = cache_key sha req.resolver req.params

  -- What lets a request through to the outside.
  pub record IsOpen (w : World) (r : Registry) (req : Request) : Type 0 where
    pub named : (req.resolver == "") ≡ false
    pub allowed : is_refused sha r req.resolver ≡ false
    pub new : lookup (key_of req) r.per_run ≡ none
    pub not_stored : from_disk sha w r req ≡ none
    pub online : r.offline ≡ false
    pub routed : has_route sha r req.resolver ≡ true

  module _ (w : World) (r : Registry) (req : Request) where
    -- a resource that is now in the cache of the run
    abbrev pub Recalls : Served sha → Type 0
    Recalls s =
        (out : Resolved)
        → s.answer ≡ ok out
        → (hit : Resolved) × (lookup (key_of req) s.registry.per_run ≡ some hit)
          × (record hit { cached = true } ≡ record out { cached = true })

    -- where an answer is from, or why there is none
    abbrev pub Origin : Result ResolveError Resolved → Type 0
    Origin (ok out) =
        ((hit : Resolved) × (lookup (key_of req) r.per_run ≡ some hit)
          × (out ≡ record hit { cached = true }))
        ⊎ (((lookup (key_of req) r.per_run ≡ none) × (from_disk sha w r req ≡ some out))
            ⊎ (IsOpen w r req
                × (fetched : Resolved) × (w.fetch req ≡ ok fetched)
                × (out ≡ with_digest sha fetched)))
    Origin (err empty_name) = (req.resolver == "") ≡ true
    Origin (err (not_allowed name)) = is_refused sha r req.resolver ≡ true
    Origin (err (cache_miss name)) =
        (r.offline ≡ true) × (lookup (key_of req) r.per_run ≡ none) × (from_disk sha w r req ≡ none)
    Origin (err (not_registered name)) = has_route sha r req.resolver ≡ false
    Origin (err (fetch_failed message)) = IsOpen w r req × (w.fetch req ≡ err message)

    -- how one request is served
    pub record IsServed (s : Served sha) : Type 0 where
      pub direct : s.registry.direct ≡ r.direct
      pub remote : s.registry.remote ≡ r.remote
      pub allow : s.registry.allow ≡ r.allow
      pub offline : s.registry.offline ≡ r.offline
      pub opened : is_some s.called ≡ true → (s.called ≡ some req) × IsOpen w r req
      pub origin : Origin s.answer
      pub recalls : Recalls s
      pub kept :
          (key : String)
          → is_some (lookup key r.per_run) ≡ true
          → lookup key s.registry.per_run ≡ lookup key r.per_run

    serve-IsServed :
        (a : Result ResolveError Resolved)
        → ((out : Resolved)
            → a ≡ ok out
            → (hit : Resolved) × (lookup (key_of req) r.per_run ≡ some hit)
              × (record hit { cached = true } ≡ record out { cached = true }))
        → Origin a
        → IsServed (serve sha r a)
    serve-IsServed a f from = record {
      direct = refl;
      remote = refl;
      allow = refl;
      offline = refl;
      opened = λ h. absurd (cc);
      origin = from;
      recalls = f;
      kept = λ key h. refl;
    }

    dispatch-IsServed : IsOpen w r req → IsServed (dispatch sha w r req)
    unfolding dispatch remember
    dispatch-IsServed o = elim (Result-cases (w.fetch req)) [
      | inr (message, bad) ↦
          let s : Served sha = record {
            registry = r;
            answer = err (fetch_failed message);
            called = some req;
          } in
          let same : s ≡ dispatch sha w r req = ground (arith, bad, o.routed) in
          subst IsServed same (record {
            direct = refl;
            remote = refl;
            allow = refl;
            offline = refl;
            opened = λ h. (refl, o);
            origin = (o, bad);
            recalls = λ out h. absurd (cc);
            kept = λ key h. refl;
          })
      | inl (fetched, good) ↦
          let out = with_digest sha fetched in
          let s : Served sha = record {
            registry = remember sha w.written req out r;
            answer = ok out;
            called = some req;
          } in
          let same : s ≡ dispatch sha w r req = ground (arith, good, o.routed) in
          subst IsServed same (record {
            direct = refl;
            remote = refl;
            allow = refl;
            offline = refl;
            opened = λ h. (refl, o);
            origin = inr (inr (o, fetched, good, refl));
            recalls = λ given h. (
              out,
              ground (
                arith,
                lookup-insert (key_of req) (key_of req) out r.per_run,
                eq_iff (key_of req) (key_of req),
              ),
              ap
                  (λ (a : Result ResolveError Resolved). elim a [
                    | ok v ↦ record v { cached = true }
                    | err e ↦ record out { cached = true }
                  ])
                  h,
            );
            kept = λ key h. ground (
              arith,
              lookup-insert (key_of req) key out r.per_run,
              o.new,
              eq_iff (key_of req) key,
              h,
            );
          })
    ]

    dispatch_nowhere :
        has_route sha r req.resolver ≡ false
        → serve sha r (err (not_registered req.resolver)) ≡ dispatch sha w r req
    unfolding dispatch
    dispatch_nowhere astray = ground (arith, astray)

    stored-IsServed :
        (hit : Resolved)
        → lookup (key_of req) r.per_run ≡ none
        → from_disk sha w r req ≡ some hit
        → IsServed (serve sha (record r { per_run = insert (key_of req) hit r.per_run }) (ok hit))
    stored-IsServed hit new there = record {
      direct = refl;
      remote = refl;
      allow = refl;
      offline = refl;
      opened = λ h. absurd (cc);
      origin = inr (inl (new, there));
      recalls = λ given h. (
        hit,
        ground (
          arith,
          lookup-insert (key_of req) (key_of req) hit r.per_run,
          eq_iff (key_of req) (key_of req),
        ),
        ap
            (λ (a : Result ResolveError Resolved). elim a [
              | ok v ↦ record v { cached = true }
              | err e ↦ record hit { cached = true }
            ])
            h,
      );
      kept = λ key h.
          ground
            (arith, lookup-insert (key_of req) key hit r.per_run, new, eq_iff (key_of req) key, h);
    }

    resolve_uncached-IsServed :
        (req.resolver == "") ≡ false
        → is_refused sha r req.resolver ≡ false
        → lookup (key_of req) r.per_run ≡ none
        → IsServed (resolve_uncached sha w r req)
    unfolding resolve_uncached
    resolve_uncached-IsServed named allowed new = elim (Option-cases (from_disk sha w r req)) [
      | inr (hit, e) ↦ subst IsServed (ground (arith, e)) (stored-IsServed hit new e)
      | inl e ↦ elim (Bool-cases r.offline) [
        | inl off ↦
            subst IsServed (ground (arith, e, off))
              (serve-IsServed (err (cache_miss req.resolver)) (λ out h. absurd (cc)) (off, new, e))
        | inr on ↦ elim (Bool-cases (has_route sha r req.resolver)) [
          | inl way ↦ subst IsServed (ground (arith, e, on)) (
              dispatch-IsServed (record {
                named = named;
                allowed = allowed;
                new = new;
                not_stored = e;
                online = on;
                routed = way;
              }))
          | inr astray ↦
              subst IsServed (ground (arith, e, on, dispatch_nowhere astray))
                (serve-IsServed (err (not_registered req.resolver)) (λ out h. absurd (cc)) astray)
        ]
      ]
    ]

    -- A request reaches the outside at most once, unchanged, and only if it names a resolver that is
    -- allowed and can be reached, the run is not offline, and neither cache has the resource. The
    -- resource is what the cache of the run has, marked as cached, or else what the cache on disk has, or
    -- else what the outside gave, with its digest; and each error is given for its reason only. The
    -- resource of a successful request is then in the cache of the run, which forgets and changes
    -- nothing that it holds; the configuration of the registry stays as it is.
    pub resolve-IsServed : IsServed (resolve sha w r req)
    unfolding resolve
    resolve-IsServed = elim (Bool-cases (req.resolver == "")) [
      | inl nameless ↦
          subst IsServed (ground (arith, nameless))
            (serve-IsServed (err empty_name) (λ out h. absurd (cc)) nameless)
      | inr named ↦ elim (Bool-cases (is_refused sha r req.resolver)) [
        | inl refused ↦
            subst IsServed (ground (arith, named, refused))
              (serve-IsServed (err (not_allowed req.resolver)) (λ out h. absurd (cc)) refused)
        | inr allowed ↦ elim (Option-cases (lookup (key_of req) r.per_run)) [
          | inl new ↦
              subst IsServed (ground (arith, named, allowed, new))
                (resolve_uncached-IsServed named allowed new)
          | inr (hit, there) ↦ subst IsServed (ground (arith, named, allowed, there)) (
              serve-IsServed (ok (record hit { cached = true }))
                (λ out h. (
                  hit,
                  there,
                  ap
                      (λ (a : Result ResolveError Resolved). elim a [
                        | ok v ↦ record v { cached = true }
                        | err e ↦ record hit { cached = true }
                      ])
                      h,
                ))
                (inl (hit, there, refl)))
        ]
      ]
    ]

-- ===== src/Refresolver/Cached.antt =====
-- refresolver.go and cache.go: the keys of the caches, Get and Put, and Resolve.
use Prim.Native.String.{◌++◌ as str_append}
use tkn_act.Base.{
  String, Bool, true, false, not, ◌&&◌, ◌||◌, ◌==◌, Option, none, some, if◌then◌else◌, Map, lookup,
  insert, mem, Result, ok, err,
}
use tkn_act.Refresolver.{
  Request, Resolved, ResolveError, Blob, Registry, Written, World, key_text, sanitize, empty_name,
  not_allowed, cache_miss, not_registered, fetch_failed, wrote_nothing, wrote_bytes, wrote_all,
}

module _ (sha : String → String) where
  unfoldable pub cache_key : String → Map String → String
  unfolding key_text
  cache_key resolver params = sha (key_text resolver params)

  -- path, below the cache's root and without the file's extension
  unfoldable pub path : Request → String
  unfolding cache_key sanitize
  path req = str_append (sanitize req.resolver) (str_append "/" (cache_key req.resolver req.params))

  -- Get: none on a miss, and where the file cannot be read
  unfoldable pub get : World → Map Blob → Request → Option Resolved
  unfolding path
  get w files req =
      if w.readable
      then elim (lookup (path req) files) [
        | none ↦ none
        | some b ↦ some (elim (if w.meta_readable then b.meta else none) [
          | none ↦ record { bytes = b.bytes; source = ""; sha256 = ""; cached = true }
          | some m ↦ record { bytes = b.bytes; source = m.0; sha256 = m.1; cached = true }
        ])
      ]
      else none

  -- Put; metadata that were there stay where only the bytes are written
  unfoldable pub put : Written → Map Blob → Request → Resolved → Map Blob
  unfolding path
  put wrote_nothing files req out = files
  put wrote_bytes files req out =
      let old : Option (String × String) = elim (lookup (path req) files) [
        | none ↦ none
        | some b ↦ b.meta
      ] in
      insert (path req) (record { bytes = out.bytes; meta = old }) files
  put wrote_all files req out =
      insert (path req) (record { bytes = out.bytes; meta = some (out.source, out.sha256) }) files

  abbrev pub with_digest : Resolved → Resolved
  with_digest out = if out.sha256 == "" then record out { sha256 = sha out.bytes } else out

  -- What is done with a fetched resource.
  unfoldable pub remember : Written → Request → Resolved → Registry → Registry
  unfolding put
  remember wrote req out r = record r {
    disk = elim r.disk [ none ↦ none | some files ↦ some (put wrote files req out) ];
    per_run = insert (cache_key req.resolver req.params) out r.per_run;
  }

  -- Resolve, with the request that it passes to a resolver or to the remote driver, if it does.
  pub record Served : Type 0 where
    pub registry : Registry
    pub answer : Result ResolveError Resolved
    pub called : Option Request

  abbrev pub serve : Registry → Result ResolveError Resolved → Served
  serve r a = record { registry = r; answer = a; called = none }

  unfoldable pub is_refused : Registry → String → Bool
  is_refused r name = elim r.allow [ none ↦ false | some ns ↦ not r.remote && not (mem name ns) ]

  abbrev pub has_route : Registry → String → Bool
  has_route r name = r.remote || mem name r.direct

  unfoldable pub dispatch : World → Registry → Request → Served
  unfolding remember
  dispatch w r req =
      if has_route r req.resolver
      then elim (w.fetch req) [
        | err message ↦ record {
          registry = r;
          answer = err (fetch_failed message);
          called = some req;
        }
        | ok fetched ↦
            let out = with_digest fetched in
            record { registry = remember w.written req out r; answer = ok out; called = some req }
      ]
      else serve r (err (not_registered req.resolver))

  unfoldable pub from_disk : World → Registry → Request → Option Resolved
  unfolding get
  from_disk w r req = elim r.disk [ none ↦ none | some files ↦ get w files req ]

  -- past the cache of the run
  unfoldable pub resolve_uncached : World → Registry → Request → Served
  unfolding dispatch from_disk
  resolve_uncached w r req = elim (from_disk w r req) [
    | some hit ↦
        serve (record r { per_run = insert (cache_key req.resolver req.params) hit r.per_run })
          (ok hit)
    | none ↦ if r.offline then serve r (err (cache_miss req.resolver)) else dispatch w r req
  ]

  unfoldable pub resolve : World → Registry → Request → Served
  unfolding resolve_uncached is_refused
  resolve w r req =
      if req.resolver == ""
      then serve r (err empty_name)
      else if is_refused r req.resolver
      then serve r (err (not_allowed req.resolver))
      else elim (lookup (cache_key req.resolver req.params) r.per_run) [
        | some hit ↦ serve r (ok (record hit { cached = true }))
        | none ↦ resolve_uncached w r req
      ]

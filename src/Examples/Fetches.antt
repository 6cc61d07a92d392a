-- ===== src/Examples/Fetches.antt =====
-- Requests for remote resources: one that is fetched, the same one again, and two that share a key.
use tkn_act.Base.{
  ◌↔◌, String, ◌≡◌, refl, List, true, false, [], ◌∷◌, lookup, ok, err, Distinct, Result, some,
}
use tkn_act.Base.Order.{sort, insert_sorted, str_le}
use tkn_act.Tekton.{TaskSpec}
use tkn_act.Validator.Steps.{validate_task_spec}
use tkn_act.Engine.Lazy.{lookup_task_spec_lazy, resolver_params}
use tkn_act.Engine.Lazy.Fetched.{fetch_tasks, IsFetched, lookup_task_spec_lazy_iff}
use tkn_act.Examples.Pipelines.{kube}
use tkn_act.Examples.References.{json, ctx}
use tkn_act.Examples.Checks.{minute, one_step, git}
use tkn_act.Refresolver.{
  kind_task, Request, Resolved, Registry, World, wrote_all, sanitize, key_text, key_fields,
  new_default_registry, register, not_allowed,
}
use tkn_act.Refresolver.Cached.{
  serve, resolve, resolve_uncached, dispatch, from_disk, get, path, cache_key, is_refused,
}
use tkn_act.Refresolver.Recalled.{IsServed, resolve-IsServed}
use tkn_act.Refresolver.Again.{resolve-again}
use tkn_act.Refresolver.Sessions.{fetched, fetched-Distinct}

abbrev pub sha : String → String
sha s = s

abbrev pub by_default : Registry
by_default =
    new_default_registry
      (record {
        allow = "git" ∷ [];
        cache_dir = "/cache";
        offline = false;
        allow_cluster = false;
        cluster_resolver_context = "";
      })
      []

abbrev lint : Request
lint = record { kind = kind_task; resolver = "git"; params = ("url", "u") ∷ [] }

abbrev body : Resolved
body = record { bytes = "kind: Task"; source = "u"; sha256 = "d"; cached = false }

abbrev pub online : World
online = record {
  readable = true;
  meta_readable = true;
  written = wrote_all;
  fetch = λ req. ok body;
}

abbrev down : World
down = record online { fetch = λ req. err "no route" }

lint-fetched : (resolve sha online by_default lint).answer ≡ ok body
unfolding resolve resolve_uncached dispatch from_disk get path sanitize cache_key key_text
    key_fields is_refused new_default_registry register lookup sort insert_sorted str_le
lint-fetched = refl

-- The allow-list comes before the caches.
hub-refused :
    (resolve sha online by_default (record lint { resolver = "hub" })).answer
    ≡ err (not_allowed "hub")
unfolding resolve is_refused new_default_registry register
hub-refused = refl

-- Params that differ and whose texts run together have one key.
shared_key : cache_key sha "http" (("a=b", "c") ∷ []) ≡ cache_key sha "http" (("a", "b=c") ∷ [])
unfolding cache_key key_text key_fields lookup sort insert_sorted
shared_key = refl

resolve-IsServed_example : IsServed sha online by_default lint (resolve sha online by_default lint)
resolve-IsServed_example = resolve-IsServed sha online by_default lint

resolve-again_example :
    resolve sha down (resolve sha online by_default lint).registry lint
    ≡ serve sha (resolve sha online by_default lint).registry (ok (record body { cached = true }))
resolve-again_example = resolve-again sha online down by_default lint body lint-fetched

fetched-Distinct_example : Distinct (fetched sha ((online, lint) ∷ (down, lint) ∷ []) by_default)
fetched-Distinct_example = fetched-Distinct sha ((online, lint) ∷ (down, lint) ∷ []) by_default

abbrev decode : String → Result String (List (TaskSpec kube))
decode bytes = ok (one_step ∷ [])

lint-looked_up :
    lookup_task_spec_lazy json ctx minute
      (some (fetch_tasks sha online by_default decode (λ e. "refused")))
      "build"
      git
    ≡ ok one_step
unfolding lookup_task_spec_lazy resolver_params fetch_tasks resolve resolve_uncached dispatch
    from_disk get path sanitize cache_key key_text key_fields is_refused new_default_registry
    register lookup sort insert_sorted str_le validate_task_spec
lint-looked_up = refl

lookup_task_spec_lazy_iff_example :
    (lookup_task_spec_lazy json ctx minute
        (some (fetch_tasks sha online by_default decode (λ e. "refused")))
        "build"
        git
      ≡ ok one_step)
    ↔ IsFetched sha online by_default decode (λ e. "refused") json ctx minute "build" git one_step
lookup_task_spec_lazy_iff_example =
    lookup_task_spec_lazy_iff sha online by_default decode (λ e. "refused") json ctx minute "build"
      git one_step

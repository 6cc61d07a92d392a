-- ===== src/Engine/Cluster/Told.antt =====
-- What the events of a run on a pipeline backend tell.
use tkn_act.Base.{
  String, ◌≡◌, refl, ap, ◌∙◌, Bool, true, false, not, ◌&&◌, Option, none, some, List, [], ◌∷◌, ◌++◌,
  map, any, mem, mem-keep, keys, Map, Result, ok, err,
}
use mathlib.Core.List.{append-nil}
use tkn_act.Base.Order.{mem-sort}
use tkn_act.Tekton.{Kube, PipelineResultSpec, Pipeline}
use tkn_act.Engine.Outcome.{Status, failed, Event}
use tkn_act.Engine.PipelineResults.{ResultValue}
use tkn_act.Engine.Cluster.Reporting.{dropped_cluster_result_names}
use tkn_act.Engine.Cluster.{
  Verdict, ClusterError, RunEvent, run_start, of_task, result_dropped, run_failed, run_end,
}

-- run-end
abbrev pub is_end : RunEvent → Bool
is_end (run_failed s e) = true
is_end (run_end s m r) = true
is_end (run_start r p) = false
is_end (of_task e) = false
is_end (result_dropped n) = false

abbrev pub status_told : RunEvent → Option Status
status_told (run_failed s e) = some s
status_told (run_end s m r) = some s
status_told (run_start r p) = none
status_told (of_task e) = none
status_told (result_dropped n) = none

abbrev pub error_told : RunEvent → Option ClusterError
error_told (run_failed s e) = some e
error_told (run_end s m r) = none
error_told (run_start r p) = none
error_told (of_task e) = none
error_told (result_dropped n) = none

-- the results that are reported as dropped
abbrev pub drops : List RunEvent → List String
drops [] = []
drops (result_dropped n ∷ es) = n ∷ drops es
drops (run_start r p ∷ es) = drops es
drops (of_task e ∷ es) = drops es
drops (run_failed s e ∷ es) = drops es
drops (run_end s m r ∷ es) = drops es

drops-end : (e : RunEvent) → is_end e ≡ true → drops (e ∷ []) ≡ []
drops-end (run_failed s e) h = refl
drops-end (run_end s m r) h = refl
drops-end (run_start r p) h = refl
drops-end (of_task e) h = refl
drops-end (result_dropped n) h = absurd (cc)

drops-append : (xs ys : List RunEvent) → drops (xs ++ ys) ≡ drops xs ++ drops ys
drops-append [] ys = refl
drops-append (run_start r p ∷ xs) ys = drops-append xs ys
drops-append (of_task e ∷ xs) ys = drops-append xs ys
drops-append (result_dropped n ∷ xs) ys = ap (λ l. n ∷ l) (drops-append xs ys)
drops-append (run_failed s e ∷ xs) ys = drops-append xs ys
drops-append (run_end s m r ∷ xs) ys = drops-append xs ys

drops-tasks : (es : List Event) → drops (map of_task es) ≡ []
drops-tasks [] = refl
drops-tasks (e ∷ es) = drops-tasks es

drops-dropped : (ns : List String) → drops (map result_dropped ns) ≡ ns
drops-dropped [] = refl
drops-dropped (n ∷ ns) = ap (λ l. n ∷ l) (drops-dropped ns)

pub no_end-tasks : (es : List Event) → any is_end (map of_task es) ≡ false
no_end-tasks [] = refl
no_end-tasks (e ∷ es) = no_end-tasks es

pub no_end-dropped : (ns : List String) → any is_end (map result_dropped ns) ≡ false
no_end-dropped [] = refl
no_end-dropped (n ∷ ns) = no_end-dropped ns

abbrev pub declared : {k : Kube} → Pipeline k → List String
declared pl = map (λ (r : PipelineResultSpec). r.name) pl.results

-- the status of a run by what its backend answered
abbrev pub answered : Result String Verdict → Status
answered (ok v) = v.status
answered (err message) = failed

-- a result that is declared and was not produced
abbrev pub is_missing : {k : Kube} → Pipeline k → Result String Verdict → String → Bool
is_missing pl (ok v) n = mem n (declared pl) && not (mem n (keys v.results))
is_missing pl (err message) n = false

pub mem-dropped :
    {k : Kube} (pl : Pipeline k) (produced : Map ResultValue) (n : String)
    → mem n (dropped_cluster_result_names pl produced)
      ≡ (mem n (declared pl) && not (mem n (keys produced)))
unfolding dropped_cluster_result_names
mem-dropped pl produced n =
    mem-sort n _ ∙ mem-keep n (λ m. not (mem m (keys produced))) (declared pl)

pub drops-report :
    (es : List Event) (ns : List String) (last : RunEvent)
    → is_end last ≡ true
    → drops (map of_task es ++ (map result_dropped ns ++ last ∷ [])) ≡ ns
drops-report es ns last h =
    drops-append (map of_task es) _
    ∙ (ap (λ l. l ++ drops (map result_dropped ns ++ last ∷ [])) (drops-tasks es)
        ∙ (drops-append (map result_dropped ns) (last ∷ [])
            ∙ (ap (λ l. l ++ drops (last ∷ [])) (drops-dropped ns)
                ∙ (ap (λ l. ns ++ l) (drops-end last h) ∙ append-nil ns))))

-- ===== src/Runstore/Retention/Kept.antt =====
-- Which runs gc.go deletes, said for each entry by itself.
use tkn_act.Base.{
  ℕ, ◌-◌, ◌≡◌, refl, ap, arith, String, Bool, true, not, ◌&&◌, ◌||◌, List, [], ◌∷◌, if◌then◌else◌,
  ltb, leb, length, keep, take, inl, inr, map,
}
use tkn_act.Runstore.{IndexEntry, Index, in_flight}
use tkn_act.Runstore.Valid.{IsIncreasing, IsValid, keep-IsIncreasing}
use tkn_act.Runstore.Retention.{
  PruneOptions, has_seq, drop_each, aged, Walk, prunable, kept_seqs, walk, prune,
}
use tkn_act.Runstore.Retention.Sorted.{
  In, newer, sort_entries_lem, drop_each_lem, has_seq-keep, has_seq-take, keep-keep, In-has_seq,
}

module _ (valid_ulid : String → Bool) (hostname : String) (process_alive : ℕ → Bool) where
  -- a well-formed entry that no live process may still write
  abbrev pub settled : PruneOptions → IndexEntry → Bool
  settled opts e = valid_ulid e.ulid && not (in_flight hostname process_alive opts.now e)

  -- Every run, or one that has `keep_runs` newer ones (less the reserve), or one that is too old.
  abbrev pub doomed : PruneOptions → List IndexEntry → IndexEntry → Bool
  doomed opts es e =
      opts.all
      || ltb 0 opts.keep_runs
        && leb (opts.keep_runs - opts.reserve) (newer e.seq (keep (settled opts) es))
      || ltb 0 opts.keep_days && aged opts e

  prunable_lem :
      (opts : PruneOptions) (es : List IndexEntry)
      → prunable valid_ulid hostname process_alive opts es ≡ keep (settled opts) es
  unfolding prunable
  prunable_lem opts es =
      keep-keep (λ e. valid_ulid e.ulid) (λ e. not (in_flight hostname process_alive opts.now e)) es

  kept_seqs_lem :
      (opts : PruneOptions) (es : List IndexEntry) (e : IndexEntry)
      → IsIncreasing es
      → In e es
      → kept_seqs valid_ulid hostname process_alive opts
          (keep (settled opts) es)
          (λ s. has_seq s es)
          e.seq
        ≡ not (settled opts e && doomed opts es e)
  unfolding kept_seqs
  kept_seqs_lem opts es e h m =
      let ps = keep (settled opts) es in
      let n = opts.keep_runs - opts.reserve in
      let all_kept = λ (s : ℕ). has_seq s es in
      let counted =
        (if ltb 0 opts.keep_runs then drop_each (take (length ps - n) ps) all_kept else all_kept) in
      ground (
        arith,
        drop_each_lem ps all_kept e.seq,
        drop_each_lem (take (length ps - n) ps) all_kept e.seq,
        drop_each_lem (keep (aged opts) ps) counted e.seq,
        has_seq-take e.seq n ps (keep-IsIncreasing (settled opts) es h),
        has_seq-keep (settled opts) e es h m,
        ap (has_seq e.seq) (keep-keep (settled opts) (aged opts) es),
        has_seq-keep (λ d. settled opts d && aged opts d) e es h m,
        In-has_seq e es m,
      )

  module _ (remove_all : String → Bool) where
    abbrev pub condemned : PruneOptions → List IndexEntry → IndexEntry → Bool
    condemned opts es e = settled opts e && doomed opts es e

    -- The run's entry goes when its directory does.
    abbrev pub deletes : PruneOptions → List IndexEntry → IndexEntry → Bool
    deletes opts es e = condemned opts es e && remove_all e.ulid

    module _ (kept : ℕ → Bool) (goes : IndexEntry → Bool)
        (well_formed : (e : IndexEntry) → goes e ≡ true → valid_ulid e.ulid ≡ true) where
      -- The walk under a table of the numbers that are kept.
      abbrev walked : List IndexEntry → Walk
      walked es = walk valid_ulid hostname process_alive remove_all kept es

      walk_lem :
          (es : List IndexEntry)
          → ((e : IndexEntry) → In e es → kept e.seq ≡ not (goes e))
          → ((walked es).survivors ≡ keep (λ e. not (goes e && remove_all e.ulid)) es)
            × ((walked es).deleted ≡ length (keep (λ e. goes e && remove_all e.ulid) es))
            × ((walked es).failed
                ≡ map (λ e. e.ulid) (keep (λ e. goes e && not (remove_all e.ulid)) es))
      unfolding walk
      walk_lem [] h = (refl, refl, refl)
      walk_lem (e ∷ es) h =
          ground (arith, h e (inl refl), well_formed e, walk_lem es (λ d m. h d (inr m)))

    keep_none :
        (p : IndexEntry → Bool) (es : List IndexEntry)
        → length (keep p es) ≡ 0
        → keep (λ e. not (p e)) es ≡ es
    keep_none p [] h = refl
    keep_none p (e ∷ es) h = ground (arith, keep_none p es)

    -- On a valid index Prune deletes exactly the well-formed runs that are not in flight, that all
    -- runs or one of the two gates condemns, and whose directory can be removed: these alone leave
    -- the index, in order, if it can be written. The gate of count condemns a run that has at least
    -- `keep_runs - reserve` newer ones among those that may be deleted, the gate of age one that
    -- ended (or started, without an end) longer ago than the span. The reported number is that of
    -- the runs deleted, the errors name the runs that are condemned and could not be removed, one
    -- more error tells that runs were deleted and the index could not be written, and the next
    -- number stays.
    pub prune-deletes :
        (written : Bool) (opts : PruneOptions) (i : Index)
        → IsValid i
        → ((prune valid_ulid hostname process_alive remove_all written opts i).0.entries
            ≡ (if written then keep (λ e. not (deletes opts i.entries e)) i.entries else i.entries))
          × ((prune valid_ulid hostname process_alive remove_all written opts i).0.next_seq
              ≡ i.next_seq)
          × ((prune valid_ulid hostname process_alive remove_all written opts i).1
              ≡ length (keep (deletes opts i.entries) i.entries))
          × ((prune valid_ulid hostname process_alive remove_all written opts i).2
              ≡ map
                  (λ e. e.ulid)
                  (keep (λ e. condemned opts i.entries e && not (remove_all e.ulid)) i.entries))
          × ((prune valid_ulid hostname process_alive remove_all written opts i).3
              ≡ (ltb 0 (length (keep (deletes opts i.entries) i.entries)) && not written))
    unfolding prune
    prune-deletes written opts i v =
        let es = i.entries in
        let sorted = sort_entries_lem es v.increasing in
        let kept =
          kept_seqs valid_ulid hostname process_alive opts (keep (settled opts) es)
            (λ s. has_seq s es) in
        let (survivors, deleted, failed) =
          walk_lem kept (condemned opts es) (λ e c. ground arith) es
            (λ e m. kept_seqs_lem opts es e v.increasing m) in
        rw (sorted, prunable_lem opts es)
          (ground (arith, survivors, deleted, failed, keep_none (deletes opts es) es))

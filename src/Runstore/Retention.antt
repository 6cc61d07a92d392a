-- ===== src/Runstore/Retention.antt =====
-- internal/runstore/gc.go: deleting old runs. Whether a run's directory could be removed, and whether
-- the index could be written, are arguments; the warning for a malformed entry is output.
pub mod Sorted
pub mod Kept
use tkn_act.Base.{
  ℕ, zero, suc, ◌+◌, ◌-◌, ◌*◌, ◌%◌, ◌≡◌, refl, arith, String, Bool, true, false, not, ◌&&◌, ◌||◌,
  List, [], ◌∷◌, if◌then◌else◌, ltb, leb, nat_eq, length, keep, take, any,
}
use tkn_act.Runstore.{IndexEntry, Index, in_flight}

pub record PruneOptions : Type 0 where
  pub keep_runs : ℕ
  pub keep_days : ℕ
  pub all : Bool
  pub now : ℕ
  pub reserve : ℕ

-- Some entry has the number.
abbrev pub has_seq : ℕ → List IndexEntry → Bool
has_seq s es = any (λ e. nat_eq e.seq s) es

unfoldable pub insert_entry : IndexEntry → List IndexEntry → List IndexEntry
insert_entry e [] = e ∷ []
insert_entry e (d ∷ ds) = if leb e.seq d.seq then e ∷ d ∷ ds else d ∷ insert_entry e ds

-- sort.SliceStable by the sequence number
unfoldable pub sort_entries : List IndexEntry → List IndexEntry
unfolding insert_entry
sort_entries [] = []
sort_entries (e ∷ es) = insert_entry e (sort_entries es)

-- keep[e.Seq] = false for each entry of a list
unfoldable pub drop_each : List IndexEntry → (ℕ → Bool) → ℕ → Bool
drop_each [] kept = kept
drop_each (e ∷ es) kept = drop_each es (λ s. if nat_eq e.seq s then false else kept s)

-- int64: `time.Duration(opts.KeepDays) * 24 * time.Hour`, as the bits of the product
abbrev pub keep_span : ℕ → ℕ
keep_span days = (days * 86400000000000) % 18446744073709551616

-- the end, or the start where there is none, lies before the present less the span
unfoldable pub aged : PruneOptions → IndexEntry → Bool
aged opts e =
    let ref = if nat_eq e.ended_at 0 then e.started_at else e.ended_at in
    let span = keep_span opts.keep_days in
    if leb span 9223372036854775808
    then ltb (ref + span) opts.now
    else ltb ref (opts.now + (18446744073709551616 - span))

-- what one walk over the entries leaves
pub record Walk : Type 0 where
  pub survivors : List IndexEntry
  pub deleted : ℕ
  pub failed : List String

module _ (valid_ulid : String → Bool) (hostname : String) (process_alive : ℕ → Bool) where
  unfoldable pub prunable : PruneOptions → List IndexEntry → List IndexEntry
  prunable opts es =
      keep (λ e. not (in_flight hostname process_alive opts.now e))
        (keep (λ e. valid_ulid e.ulid) es)

  -- the gates of count and of age, over the entries that may be deleted
  unfoldable pub kept_seqs : PruneOptions → List IndexEntry → (ℕ → Bool) → ℕ → Bool
  unfolding drop_each aged
  kept_seqs opts ps kept =
      if opts.all
      then drop_each ps kept
      else let n = opts.keep_runs - opts.reserve in
        let counted =
          if ltb 0 opts.keep_runs then drop_each (take (length ps - n) ps) kept else kept in
        if ltb 0 opts.keep_days then drop_each (keep (aged opts) ps) counted else counted

  module _ (remove_all : String → Bool) where
    unfoldable pub walk : (ℕ → Bool) → List IndexEntry → Walk
    walk kept [] = record { survivors = []; deleted = 0; failed = [] }
    walk kept (e ∷ es) =
        let rest = walk kept es in
        if kept e.seq || not (valid_ulid e.ulid)
        then record rest { survivors = e ∷ rest.survivors }
        else if not (remove_all e.ulid)
        then record rest { survivors = e ∷ rest.survivors; failed = e.ulid ∷ rest.failed }
        else record rest { deleted = rest.deleted + 1 }

    -- The index on disk, how many directories were removed, those that could not be, and whether the
    -- rewriting of the index is among the errors.
    unfoldable pub prune : Bool → PruneOptions → Index → Index × ℕ × List String × Bool
    unfolding sort_entries prunable kept_seqs walk
    prune written opts i =
        let es = sort_entries i.entries in
        let w = walk (kept_seqs opts (prunable opts es) (λ s. has_seq s es)) es in
        (
          if ltb 0 w.deleted && written then record i { entries = w.survivors } else i,
          w.deleted,
          w.failed,
          ltb 0 w.deleted && not written,
        )

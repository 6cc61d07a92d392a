-- ===== src/Runstore/View.antt =====
-- The steps that change the index, and what they do to it seen as a map from numbers to runs.
pub mod Found
use tkn_act.Base.{
  ℕ, zero, suc, ◌+◌, ◌≡◌, refl, ap, arith, String, Bool, true, false, not, ◌&&◌, Option, none, some,
  List, [], ◌∷◌, ◌++◌, if◌then◌else◌, nat_eq, ltb, keep, Result, ok, err,
}
use tkn_act.Base.Integers.{ℤ}
use tkn_act.Runstore.{
  IndexEntry, Index, open_index, append, update, started_entry, ended, in_flight, by_seq,
}
use tkn_act.Runstore.Valid.{IsValid, append-IsValid, update-IsValid, kept-IsValid}
use tkn_act.Runstore.Retention.{PruneOptions, prune}
use tkn_act.Runstore.Retention.Kept.{prune-deletes, deletes}

-- `NewRun` up to its meta.json: if the index cannot be written, the file stays.
unfoldable pub new_run : Bool → IndexEntry → Index → Index
new_run written e i = if written then (append e i).0 else i

-- `Finalize` after its meta.json
unfoldable pub finalize : Bool → ℕ → ℕ → ℤ → String → Index → Index
finalize written seq at code status i = if written then update seq (ended at code status) i else i

module _ (valid_ulid : String → Bool) where
  -- One operation of some process, under the lock. Every part of the environment may differ from
  -- step to step: the time, the host, the processes alive, which writes and removals succeed.
  pub data StoreStep : Index → Index → Type 0 where
    recording : {i : Index} (written : Bool) (e : IndexEntry) → StoreStep i (new_run written e i)
    finishing :
        {i : Index} (written : Bool) (seq at : ℕ) (code : ℤ) (status : String)
        → StoreStep i (finalize written seq at code status i)
    pruning :
        {i : Index} (hostname : String) (process_alive : ℕ → Bool) (remove_all : String → Bool)
        (written : Bool) (opts : PruneOptions)
        → StoreStep i (prune valid_ulid hostname process_alive remove_all written opts i).0

  pub data StoreReach : Index → Type 0 where
    fresh : StoreReach (open_index none)
    more : {i j : Index} → StoreReach i → StoreStep i j → StoreReach j

  prune-IsValid :
      (hostname : String) (process_alive : ℕ → Bool) (remove_all : String → Bool) (written : Bool)
      (opts : PruneOptions) (i : Index)
      → IsValid i
      → IsValid (prune valid_ulid hostname process_alive remove_all written opts i).0
  prune-IsValid hostname process_alive remove_all written opts i v =
      let (es, next, _, _, _) =
        prune-deletes valid_ulid hostname process_alive remove_all written opts i v in
      kept-IsValid
        (λ e. not (deletes valid_ulid hostname process_alive remove_all opts i.entries e)) written i
        (prune valid_ulid hostname process_alive remove_all written opts i).0 es next v

  pub step-IsValid : {i j : Index} → StoreStep i j → IsValid i → IsValid j
  unfolding new_run finalize ended
  step-IsValid (recording {i} true e) v = append-IsValid e i v
  step-IsValid (recording false e) v = v
  step-IsValid (finishing {i} true seq at code status) v =
      update-IsValid seq (ended at code status) (λ e. refl) i v
  step-IsValid (finishing false seq at code status) v = v
  step-IsValid (pruning {i} host alive remove written opts) v =
      prune-IsValid host alive remove written opts i v

  -- In every index that the store can come to, the numbers grow along the entries, and the next
  -- number is above all of them, whatever writes and removals fail on the way.
  pub reach-IsValid : {i : Index} → StoreReach i → IsValid i
  unfolding open_index
  reach-IsValid fresh = record { increasing = tt; next = refl; numbered = omega arith }
  reach-IsValid (more r s) = step-IsValid s (reach-IsValid r)

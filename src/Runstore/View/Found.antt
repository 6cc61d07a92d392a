-- ===== src/Runstore/View/Found.antt =====
-- The index as a ledger: what each number finds, forgetting how the entries are stored.
use tkn_act.Base.{
  ℕ, ◌+◌, ◌<◌, ◌≡◌, refl, ap, ◌∙◌, arith, String, Bool, true, false, not, ◌&&◌, Option, none, some,
  List, [], ◌∷◌, ◌++◌, if◌then◌else◌, nat_eq, keep, Result, ok, err, Bool-cases, eq_iff, inl, inr,
  ◌⊎◌,
}
use tkn_act.Base.Integers.{ℤ}
use tkn_act.Runstore.{
  IndexEntry, Index, append, update, update_first, find_seq, by_seq, ended, in_flight, last_entry,
  latest, resolve, resolve_id, ResolveError, looks_like_seq, unsigned, atoi,
}
use tkn_act.Runstore.Valid.{IsValid, IsIncreasing, below, above}
use tkn_act.Runstore.Retention.{PruneOptions, prune}
use tkn_act.Runstore.Retention.Kept.{prune-deletes, deletes}
use tkn_act.Runstore.View.{
  new_run, finalize, StoreStep, recording, finishing, pruning, StoreReach, reach-IsValid,
}

pub record Ledger : Type 0 where
  pub next : ℕ
  pub runs : ℕ → Option IndexEntry

abbrev pub found : Result ResolveError IndexEntry → Option IndexEntry
found (ok e) = some e
found (err _) = none

abbrev pub ledger : Index → Ledger
ledger i = record { next = i.next_seq; runs = λ n. found (by_seq n i) }

-- What a step does, with its own environment: the entry that it records, the end that it writes, or
-- the host, the processes alive and the options of a pruning. `written` tells whether the index
-- could be written.
pub data Event : Type 0 where
  started : (written : Bool) → IndexEntry → Event
  finished : (written : Bool) (seq at : ℕ) (code : ℤ) (status : String) → Event
  pruned :
      (hostname : String) (process_alive : ℕ → Bool) (written : Bool) (opts : PruneOptions) → Event

unfoldable pub written_of : Event → Bool
written_of (started written _) = written
written_of (finished written _ _ _ _) = written
written_of (pruned _ _ written _) = written

unfoldable pub event_of :
    {valid_ulid : String → Bool} {i j : Index} → StoreStep valid_ulid i j → Event
event_of (recording written e) = started written e
event_of (finishing written seq at code status) = finished written seq at code status
event_of (pruning hostname process_alive remove_all written opts) =
    pruned hostname process_alive written opts

-- What an event does to the ledger.
pub data Change (valid_ulid : String → Bool) (l : Ledger) : Event → Ledger → Type 0 where
  begins :
      {e : IndexEntry} {m : Ledger}
      → m.next ≡ l.next + 1
      → ((n : ℕ)
          → m.runs n ≡ (if nat_eq l.next n then some (record e { seq = l.next }) else l.runs n))
      → Change valid_ulid l (started true e) m
  ends :
      {seq at : ℕ} {code : ℤ} {status : String} {m : Ledger}
      → m.next ≡ l.next
      → ((n : ℕ)
          → m.runs n ≡ elim (l.runs n) [
            | none ↦ none
            | some e ↦ some (if nat_eq seq n then ended at code status e else e)
          ])
      → Change valid_ulid l (finished true seq at code status) m
  forgets :
      {hostname : String} {process_alive : ℕ → Bool} {opts : PruneOptions}
      (gone : IndexEntry → Bool) {m : Ledger}
      → ((e : IndexEntry)
          → gone e ≡ true
          → (valid_ulid e.ulid && not (in_flight hostname process_alive opts.now e)) ≡ true)
      → m.next ≡ l.next
      → ((n : ℕ)
          → m.runs n ≡ elim (l.runs n) [ none ↦ none | some e ↦ if gone e then none else some e ])
      → Change valid_ulid l (pruned hostname process_alive true opts) m
  fails :
      {event : Event} {m : Ledger}
      → written_of event ≡ false
      → m.next ≡ l.next
      → ((n : ℕ) → m.runs n ≡ l.runs n)
      → Change valid_ulid l event m

find_seq-append :
    (n : ℕ) (es : List IndexEntry) (e : IndexEntry)
    → above e.seq es ≡ true
    → found (find_seq n (es ++ e ∷ [])) ≡ (if nat_eq e.seq n then some e else found (find_seq n es))
unfolding find_seq
find_seq-append n [] e h = ground arith
find_seq-append n (d ∷ ds) e h = ground (arith, find_seq-append n ds e)

find_seq-update_first :
    (seq n : ℕ) (f : IndexEntry → IndexEntry) (es : List IndexEntry)
    → ((e : IndexEntry) → (f e).seq ≡ e.seq)
    → found (find_seq n (update_first seq f es)) ≡ elim (found (find_seq n es)) [
      | none ↦ none
      | some e ↦ some (if nat_eq seq n then f e else e)
    ]
unfolding find_seq update_first
find_seq-update_first seq n f [] h = refl
find_seq-update_first seq n f (e ∷ es) h = ground (arith, h e, find_seq-update_first seq n f es h)

find_seq-below : (n : ℕ) (es : List IndexEntry) → below n es ≡ true → found (find_seq n es) ≡ none
unfolding find_seq
find_seq-below n [] h = refl
find_seq-below n (e ∷ es) h = ground (arith, find_seq-below n es)

find_seq-keep :
    (p : IndexEntry → Bool) (n : ℕ) (es : List IndexEntry)
    → IsIncreasing es
    → found (find_seq n (keep (λ e. not (p e)) es))
      ≡ elim (found (find_seq n es)) [ none ↦ none | some e ↦ if p e then none else some e ]
unfolding find_seq
find_seq-keep p n [] h = refl
find_seq-keep p n (e ∷ es) h = elim (Bool-cases (nat_eq e.seq n)) [
  | inl q ↦ ground (arith, find_seq-keep p n es h.1, find_seq-below n es)
  | inr q ↦ ground (arith, find_seq-keep p n es h.1)
]

module _ (valid_ulid : String → Bool) where
  start-Change :
      (written : Bool) (e : IndexEntry) (i : Index)
      → IsValid i
      → Change valid_ulid (ledger i) (started written e) (ledger (new_run written e i))
  unfolding new_run append by_seq written_of
  start-Change true e i v =
      begins refl (λ n. find_seq-append n i.entries (record e { seq = i.next_seq }) v.next)
  start-Change false e i v = fails refl refl (λ n. refl)

  finish-Change :
      (written : Bool) (seq at : ℕ) (code : ℤ) (status : String) (i : Index)
      → Change valid_ulid
          (ledger i)
          (finished written seq at code status)
          (ledger (finalize written seq at code status i))
  unfolding finalize update by_seq ended written_of
  finish-Change true seq at code status i =
      ends refl (λ n. find_seq-update_first seq n (ended at code status) i.entries (λ e. refl))
  finish-Change false seq at code status i = fails refl refl (λ n. refl)

  prune-Change :
      (hostname : String) (process_alive : ℕ → Bool) (remove_all : String → Bool) (written : Bool)
      (opts : PruneOptions) (i : Index)
      → IsValid i
      → Change valid_ulid
          (ledger i)
          (pruned hostname process_alive written opts)
          (ledger (prune valid_ulid hostname process_alive remove_all written opts i).0)
  unfolding by_seq written_of
  prune-Change hostname process_alive remove_all true opts i v =
      let (es, next, _, _, _) =
        prune-deletes valid_ulid hostname process_alive remove_all true opts i v in
      let gone = deletes valid_ulid hostname process_alive remove_all opts i.entries in
      forgets gone (λ e g. ground arith) next
        (λ n. ap (λ ds. found (find_seq n ds)) es ∙ find_seq-keep gone n i.entries v.increasing)
  prune-Change hostname process_alive remove_all false opts i v =
      let (es, next, _, _, _) =
        prune-deletes valid_ulid hostname process_alive remove_all false opts i v in
      fails refl next (λ n. ap (λ ds. found (find_seq n ds)) es)

  -- Every step of the store, from an index that it can come to, changes the ledger that the index
  -- stands for as its own event says: the entry that is recorded enters under the next number, and
  -- no other number changes; a run's end is written under its own number alone; a pruning forgets
  -- only runs that are well formed and, by its own host, processes alive and time, not in flight;
  -- and a step whose write of the index fails changes nothing.
  pub step-Change :
      {i j : Index}
      → StoreReach valid_ulid i
      → (step : StoreStep valid_ulid i j) → Change valid_ulid (ledger i) (event_of step) (ledger j)
  unfolding event_of
  step-Change r (recording {i} written e) = start-Change written e i (reach-IsValid valid_ulid r)
  step-Change r (finishing {i} written seq at code status) =
      finish-Change written seq at code status i
  step-Change r (pruning {i} hostname process_alive remove_all written opts) =
      prune-Change hostname process_alive remove_all written opts i (reach-IsValid valid_ulid r)

last_entry-append : (es : List IndexEntry) (e : IndexEntry) → last_entry (es ++ e ∷ []) ≡ ok e
unfolding last_entry
last_entry-append [] e = refl
last_entry-append (d ∷ []) e = refl
last_entry-append (d ∷ c ∷ ds) e = last_entry-append (c ∷ ds) e

find_seq_new :
    (n : ℕ) (es : List IndexEntry) (e : IndexEntry)
    → above n es ≡ true
    → e.seq ≡ n
    → find_seq n (es ++ e ∷ []) ≡ ok e
unfolding find_seq
find_seq_new n [] e h q = ground arith
find_seq_new n (d ∷ ds) e h q = ground (arith, find_seq_new n ds e)

resolve_id_new :
    (i : Index) (e : IndexEntry) (id : String)
    → above i.next_seq i.entries ≡ true
    → 0 < i.next_seq
    → (id ≡ "")
      ⊎ (id ≡ "latest")
      ⊎ ((looks_like_seq id ≡ true) × ((unsigned id).0 ≡ false) × (atoi id ≡ i.next_seq))
    → resolve_id (append e i).0 id ≡ ok (record e { seq = i.next_seq })
unfolding append resolve_id latest by_seq
resolve_id_new i e id h p c =
    let new = record e { seq = i.next_seq } in
    ground (
      arith,
      c,
      eq_iff id "",
      eq_iff id "latest",
      last_entry-append i.entries new,
      find_seq_new i.next_seq i.entries new,
    )

-- A run whose entry was written is resolved, by "latest", by nothing, and by a text that reads as
-- its number without a sign, to the very entry that was written, if its ULID is well formed.
pub resolve-new_run :
    (valid_ulid : String → Bool) (i : Index) (e : IndexEntry) (id : String)
    → StoreReach valid_ulid i
    → valid_ulid e.ulid ≡ true
    → (id ≡ "")
      ⊎ (id ≡ "latest")
      ⊎ ((looks_like_seq id ≡ true) × ((unsigned id).0 ≡ false) × (atoi id ≡ i.next_seq))
    → resolve valid_ulid (new_run true e i) id ≡ ok (record e { seq = i.next_seq })
unfolding resolve new_run append
resolve-new_run valid_ulid i e id r w h =
    let v = reach-IsValid valid_ulid r in rw (resolve_id_new i e id v.next v.numbered h) (rw w)

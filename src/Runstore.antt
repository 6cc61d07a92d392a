-- ===== src/Runstore.antt =====
-- internal/runstore: the index of recorded runs (index.go), the state of a run (liveness.go) and the
-- look-up of a run by what a user types (store.go). A time is a number of nanoseconds since Go's zero
-- time, which is 0. The host, the processes that are alive and the check of a ULID are arguments;
-- the lock file is what makes each operation one step.
pub mod Valid
pub mod View
pub mod Retention
use tkn_act.Base.{
  ℕ, zero, suc, ◌+◌, ◌*◌, ◌≡◌, refl, arith, String, Bool, true, false, not, ◌&&◌, ◌||◌, Option,
  none, some, List, [], ◌∷◌, ◌++◌, if◌then◌else◌, ◌==◌, ltb, leb, nat_eq, length, keep, Result, ok,
  err, ◌>>=◌,
}
use tkn_act.Base.Integers.{ℤ, pos}
use tkn_act.Base.Text.{is_digit, decimal, all_codes, starts, upper_prefix, strip_prefix}

pub record IndexEntry : Type 0 where
  pub seq : ℕ
  pub ulid : String
  pub pipeline_ref : String
  pub started_at : ℕ
  pub ended_at : ℕ
  pub exit_code : ℤ
  pub status : String
  pub pid : ℕ
  pub host : String

-- `indexFile`, which an `Index` holds in memory
pub record Index : Type 0 where
  pub next_seq : ℕ
  pub entries : List IndexEntry

-- The file as it is read: none where index.json is absent or empty.
unfoldable pub open_index : Option Index → Index
open_index none = record { next_seq = 1; entries = [] }
open_index (some f) =
    if nat_eq f.next_seq 0 then record f { next_seq = length f.entries + 1 } else f

unfoldable pub append : IndexEntry → Index → Index × ℕ
append e i = (
  record { next_seq = i.next_seq + 1; entries = i.entries ++ record e { seq = i.next_seq } ∷ [] },
  i.next_seq,
)

unfoldable pub update_first : ℕ → (IndexEntry → IndexEntry) → List IndexEntry → List IndexEntry
update_first n mutator [] = []
update_first n mutator (e ∷ es) =
    if nat_eq e.seq n then mutator e ∷ es else e ∷ update_first n mutator es

unfoldable pub update : ℕ → (IndexEntry → IndexEntry) → Index → Index
unfolding update_first
update n mutator i = record i { entries = update_first n mutator i.entries }

pub data ResolveError : Type 0 where
  no_runs not_found ambiguous empty_prefix not_positive invalid_ulid : ResolveError

unfoldable pub find_seq : ℕ → List IndexEntry → Result ResolveError IndexEntry
find_seq n [] = err not_found
find_seq n (e ∷ es) = if nat_eq e.seq n then ok e else find_seq n es

unfoldable pub by_seq : ℕ → Index → Result ResolveError IndexEntry
unfolding find_seq
by_seq n i = find_seq n i.entries

abbrev sole : List IndexEntry → Result ResolveError IndexEntry
sole [] = err not_found
sole (e ∷ []) = ok e
sole (e ∷ d ∷ es) = err ambiguous

unfoldable pub by_ulid_prefix : String → Index → Result ResolveError IndexEntry
by_ulid_prefix prefix i =
    if prefix == ""
    then err empty_prefix
    else sole (keep (λ e. upper_prefix prefix e.ulid) i.entries)

unfoldable pub last_entry : List IndexEntry → Result ResolveError IndexEntry
last_entry [] = err no_runs
last_entry (e ∷ []) = ok e
last_entry (e ∷ d ∷ es) = last_entry (d ∷ es)

unfoldable pub latest : Index → Result ResolveError IndexEntry
unfolding last_entry
latest i = last_entry i.entries

-- The text after an optional minus sign, and whether there was one.
abbrev unsigned : String → Bool × String
unsigned s = elim (strip_prefix "-" s) [ none ↦ (false, s) | some rest ↦ (true, rest) ]

-- digits, with no leading zero but in "0" itself
abbrev is_numeral : String → Bool
is_numeral s =
    not (s == "") && not (starts (λ c. nat_eq c b'0') s && not (s == "0")) && all_codes is_digit s

unfoldable pub looks_like_seq : String → Bool
looks_like_seq s = is_numeral (unsigned s).1

-- 2^63 - 1: `strconv.Atoi` gives it, with an error that is dropped, for a larger number
abbrev max_int : ℕ
max_int = 9223372036854775807

abbrev atoi : String → ℕ
atoi s = let n = decimal 0 s in if ltb max_int n then max_int else n

unfoldable pub resolve_id : Index → String → Result ResolveError IndexEntry
unfolding latest looks_like_seq by_seq by_ulid_prefix
resolve_id i id =
    if id == "" || id == "latest"
    then latest i
    else if looks_like_seq id
    then (if (unsigned id).0 || nat_eq (atoi id) 0 then err not_positive else by_seq (atoi id) i)
    else by_ulid_prefix id i

module _ (valid_ulid : String → Bool) where
  unfoldable pub resolve : Index → String → Result ResolveError IndexEntry
  unfolding resolve_id
  resolve i id = do e ← resolve_id i id; if valid_ulid e.ulid then ok e else err invalid_ulid

-- 24 hours
abbrev pub abandon_after : ℕ
abandon_after = 86400000000000

unfoldable pub finalized : IndexEntry → Bool
finalized e = not (nat_eq e.ended_at 0)

module _ (hostname : String) (process_alive : ℕ → Bool) where
  unfoldable pub abandoned : ℕ → IndexEntry → Bool
  unfolding finalized
  abandoned now e =
      if finalized e
      then false
      else if ltb 0 e.pid && not (e.host == "") && e.host == hostname
      then not (process_alive e.pid)
      else nat_eq e.started_at 0 || ltb (e.started_at + abandon_after) now

  unfoldable pub in_flight : ℕ → IndexEntry → Bool
  unfolding finalized abandoned
  in_flight now e = not (finalized e) && not (abandoned now e)

  unfoldable pub effective_status : ℕ → IndexEntry → String
  unfolding finalized abandoned
  effective_status now e =
      if finalized e then e.status else if abandoned now e then "unknown" else "running"

-- The entry that `NewRun` appends. Its ULID, process and host are the caller's.
abbrev pub started_entry : String → String → ℕ → ℕ → String → IndexEntry
started_entry ulid pipeline_ref now pid host = record {
  seq = 0;
  ulid = ulid;
  pipeline_ref = pipeline_ref;
  started_at = now;
  ended_at = 0;
  exit_code = pos 0;
  status = "";
  pid = pid;
  host = host;
}

-- What `Finalize` writes into the entry of its run.
unfoldable pub ended : ℕ → ℤ → String → IndexEntry → IndexEntry
ended at code status e = record e { ended_at = at; exit_code = code; status = status }

-- ===== src/Examples/Runs.antt =====
-- A store with three runs: one that ended long ago, one that ended lately, and one in flight.
use tkn_act.Base.{
  ltb, ℕ, ◌+◌, ◌*◌, ◌≡◌, refl, String, Bool, true, false, not, ◌&&◌, none, [], ◌∷◌, ◌==◌, nat_eq,
  keep, length, map, ok, err, inr,
}
use tkn_act.Base.Integers.{pos}
use tkn_act.Base.Text.{decimal, all_codes, starts, upper_prefix, strip_prefix}
use tkn_act.Runstore.{
  IndexEntry, Index, open_index, append, update, update_first, started_entry, ended, in_flight,
  effective_status, resolve, find_seq, looks_like_seq, not_positive, ambiguous,
}
use tkn_act.Runstore.Valid.{IsValid}
use tkn_act.Runstore.Retention.{PruneOptions, insert_entry, aged, prune}
use tkn_act.Runstore.Retention.Kept.{deletes, condemned, prune-deletes}
use tkn_act.Runstore.View.{
  new_run, finalize, recording, finishing, pruning, StoreReach, fresh, more, reach-IsValid,
}
use tkn_act.Runstore.View.Found.{Change, pruned, event_of, ledger, step-Change, resolve-new_run}

abbrev day : ℕ
day = 86400000000000

abbrev well_formed : String → Bool
well_formed s = not (s == "../../x")

abbrev alive : ℕ → Bool
alive p = nat_eq p 7

abbrev first : IndexEntry
first = started_entry "01A" "build" day 5 "here"

abbrev second : IndexEntry
second = started_entry "01B" "build" (90 + 99 * day) 6 "here"

abbrev third : IndexEntry
third = started_entry "01C" "test" (100 * day) 7 "here"

-- Two runs were recorded and finalized, and a third one is on its way.
abbrev recorded : Index
recorded = new_run true third (
    finalize true 2 (99 * day + 95) (pos 0) "succeeded" (
      new_run true second
        (finalize true 1 (2 * day) (pos 1) "failed" (new_run true first (open_index none)))))

recorded-StoreReach : StoreReach well_formed recorded
recorded-StoreReach =
    more
      (more
        (more
          (more (more fresh (recording true first)) (finishing true 1 (2 * day) (pos 1) "failed"))
          (recording true second))
        (finishing true 2 (99 * day + 95) (pos 0) "succeeded"))
      (recording true third)

recorded_entries : map (λ e. e.seq) recorded.entries ≡ 1 ∷ 2 ∷ 3 ∷ []
unfolding new_run finalize append update update_first open_index ended
recorded_entries = refl

recorded_statuses :
    map (effective_status "here" alive (100 * day + 5)) recorded.entries
    ≡ "failed" ∷ "succeeded" ∷ "running" ∷ []
unfolding new_run finalize append update update_first open_index ended effective_status
recorded_statuses = refl

abbrev by_age : PruneOptions
by_age = record { keep_runs = 0; keep_days = 30; all = false; now = 100 * day + 5; reserve = 0 }

abbrev by_count : PruneOptions
by_count = record { keep_runs = 1; keep_days = 0; all = false; now = 100 * day + 5; reserve = 1 }

pruned_by_age :
    map (λ e. e.seq) (prune well_formed "here" alive (λ _. true) true by_age recorded).0.entries
    ≡ 2 ∷ 3 ∷ []
unfolding new_run finalize append update update_first open_index ended prune insert_entry in_flight
pruned_by_age = refl

-- The run in flight is no candidate, and the slot that is kept is reserved.
pruned_by_count :
    map (λ e. e.seq) (prune well_formed "here" alive (λ _. true) true by_count recorded).0.entries
    ≡ 3 ∷ []
unfolding new_run finalize append update update_first open_index ended prune insert_entry in_flight
pruned_by_count = refl

-- A span of 200000 days wraps around below zero, and even a run that ended just now is too old.
aged_by_wrap :
    aged (record by_age { keep_days = 200000 }) (ended (100 * day + 4) (pos 0) "succeeded" second)
    ≡ true
unfolding aged ended
aged_by_wrap = refl

resolved_by_number : resolve well_formed recorded "3" ≡ ok (record third { seq = 3 })
unfolding new_run finalize append update update_first open_index ended resolve find_seq strip_prefix
    starts all_codes decimal
resolved_by_number = refl

resolved_nothing : resolve well_formed recorded "-3" ≡ err not_positive
unfolding new_run finalize append update update_first open_index ended resolve strip_prefix starts
    all_codes decimal
resolved_nothing = refl

resolved_two : resolve well_formed recorded "01" ≡ err ambiguous
unfolding new_run finalize append update update_first open_index ended resolve strip_prefix starts
    all_codes decimal upper_prefix
resolved_two = refl

resolved_by_prefix :
    resolve well_formed recorded "01b"
    ≡ ok (record (ended (99 * day + 95) (pos 0) "succeeded" second) { seq = 2 })
unfolding new_run finalize append update update_first open_index ended resolve strip_prefix starts
    all_codes decimal upper_prefix
resolved_by_prefix = refl

reach-IsValid_example : IsValid recorded
reach-IsValid_example = reach-IsValid well_formed recorded-StoreReach

prune-deletes_example :
    ((prune well_formed "here" alive (λ _. true) true by_age recorded).0.entries
      ≡ keep
          (λ e. not (deletes well_formed "here" alive (λ _. true) by_age recorded.entries e))
          recorded.entries)
    × ((prune well_formed "here" alive (λ _. true) true by_age recorded).0.next_seq
        ≡ recorded.next_seq)
    × ((prune well_formed "here" alive (λ _. true) true by_age recorded).1
        ≡ length (
            keep
              (deletes well_formed "here" alive (λ _. true) by_age recorded.entries)
              recorded.entries))
    × ((prune well_formed "here" alive (λ _. true) true by_age recorded).2
        ≡ map
            (λ e. e.ulid)
            (keep
              (λ e.
                condemned well_formed "here" alive (λ _. true) by_age recorded.entries e
                && not true)
              recorded.entries))
    × ((prune well_formed "here" alive (λ _. true) true by_age recorded).3 ≡ (
        ltb 0 (
          length (
            keep
              (deletes well_formed "here" alive (λ _. true) by_age recorded.entries)
              recorded.entries))
        && not true))
prune-deletes_example =
    prune-deletes well_formed "here" alive (λ _. true) true by_age recorded
      (reach-IsValid well_formed recorded-StoreReach)

step-Change_example :
    Change well_formed
      (ledger recorded)
      (pruned "here" alive true by_age)
      (ledger (prune well_formed "here" alive (λ _. true) true by_age recorded).0)
unfolding event_of
step-Change_example =
    step-Change well_formed recorded-StoreReach (pruning "here" alive (λ _. true) true by_age)

resolve-new_run_example :
    resolve well_formed (new_run true first recorded) "4"
    ≡ ok (record first { seq = recorded.next_seq })
unfolding new_run finalize append update open_index looks_like_seq strip_prefix starts all_codes
    decimal
resolve-new_run_example =
    resolve-new_run well_formed recorded first "4" recorded-StoreReach refl
      (inr (inr (refl, refl, refl)))

-- ===== src/RowLocks/Tests.antt =====
-- server/internal/core/storage/lock_manager.go: runs of small schedules, and the theorems at them.
use pro_labs.Common.{◌≡◌, refl, false, List, [], ◌∷◌, All, arith}
use pro_labs.RowLocks.Modes.{share, update}
use pro_labs.RowLocks.{
  RowLock, new_lock_manager, release_all, Action, acquires, wakes, releases, run,
}
use pro_labs.RowLocks.Exclusion.{IsExclusive, run-new-IsExclusive}
use pro_labs.RowLocks.Orphan.{Clear, both_hold, both_hold-reachable, release_all-Clear}

abbrev readers : List Action
readers = acquires "t/0/1" 7 share ∷ acquires "t/0/1" 8 share ∷ acquires "t/0/1" 7 update ∷ []

abbrev two_readers : List RowLock
two_readers = record { mode = share; owner_tx = 7 } ∷ record { mode = share; owner_tx = 8 } ∷ []

-- An upgrade waits for the other reader.
readers-run : run readers new_lock_manager ≡ record {
  locks = ("t/0/1", 0) ∷ [];
  heap = two_readers ∷ [];
  waiting = record { entry = 0; tx = 7; wants = update; woken = false } ∷ [];
}
unfolding run new_lock_manager
readers-run = refl

run-new-IsExclusive_example : IsExclusive (run readers new_lock_manager)
run-new-IsExclusive_example = run-new-IsExclusive readers

release_all-Clear_example :
    All
      (Clear 7 (release_all 7 (run readers new_lock_manager)))
      (release_all 7 (run readers new_lock_manager)).locks
release_all-Clear_example = release_all-Clear 7 (run readers new_lock_manager)

both_hold-reachable_example :
    (run
        (acquires "t/0/1" 1 update
          ∷ acquires "t/0/1" 2 update
          ∷ releases 1
          ∷ wakes 0
          ∷ acquires "t/0/1" 3 update
          ∷ [])
        new_lock_manager
      ≡ both_hold "t/0/1" 2 3)
    × (release_all 2 (both_hold "t/0/1" 2 3) ≡ both_hold "t/0/1" 2 3)
both_hold-reachable_example = both_hold-reachable "t/0/1" 1 2 3 (omega arith) (omega arith)

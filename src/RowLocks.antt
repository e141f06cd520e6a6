-- ===== src/RowLocks.antt =====
-- server/internal/core/storage/lock_manager.go: row locks with waiting transactions.
--
-- An entry of the Go map is a pointer to a `rowLockEntry`, and a goroutine that waits keeps its
-- pointer: so entries stand in a heap, and keys and waiters hold addresses. `lm.mu` is held except
-- inside `cond.Wait`: so Acquire is one step up to its return or its wait (`acquire`), and one step
-- for each time that it wakes (`wake`). `woken` is set by Broadcast.
pub mod Modes
pub mod Exclusion
pub mod Orphan
mod Tests
use text.Mathlib.Text.{◌==◌ as str_eq}
use Prim.Native.String.{String}
use pro_labs.Common.{
  ℕ, zero, suc, ◌+◌, ◌≡◌, Bool, true, false, Option, none, some, List, [], ◌∷◌, ◌++◌, ◌||◌, map,
  length, get_or, get_elem?, set, ltb, ◌==◌, if◌then◌else◌,
}
use Modes.{LockMode, is_update, rank}

pub record RowLock : Type 0 where
  pub mode : LockMode
  pub owner_tx : ℕ

pub record Waiter : Type 0 where
  pub entry : ℕ
  pub tx : ℕ
  pub wants : LockMode
  pub woken : Bool

pub record LockManager : Type 0 where
  pub locks : List (String × ℕ)
  pub heap : List (List RowLock)
  pub waiting : List Waiter

pub new_lock_manager : LockManager
new_lock_manager = record { locks = []; heap = []; waiting = [] }

pub lookup : String → List (String × ℕ) → Option ℕ
lookup key [] = none
lookup key ((k, p) ∷ locks) = if str_eq k key then some p else lookup key locks

pub delete : String → List (String × ℕ) → List (String × ℕ)
delete key [] = []
delete key ((k, p) ∷ locks) =
    let rest = delete key locks in if str_eq k key then rest else (k, p) ∷ rest

-- canAcquire
pub can_acquire : List RowLock → ℕ → LockMode → Bool
can_acquire [] tx mode = true
can_acquire (o ∷ owners) tx mode =
    let rest = can_acquire owners tx mode in
    if o.owner_tx == tx then rest else if is_update o.mode || is_update mode then false else rest

-- The loop of Acquire that raises the lock of `tx`, or appends one.
pub grant : List RowLock → ℕ → LockMode → List RowLock
grant [] tx mode = record { mode = mode; owner_tx = tx } ∷ []
grant (o ∷ owners) tx mode =
    let rest = grant owners tx mode in
    if o.owner_tx == tx
    then (if ltb (rank o.mode) (rank mode) then record o { mode = mode } else o) ∷ owners
    else o ∷ rest

-- The part of Acquire behind the lookup, up to the return or the wait.
pub acquire_entry : ℕ → ℕ → LockMode → LockManager → LockManager
unfolding can_acquire grant
acquire_entry entry tx mode lm =
    let owners = get_or lm.heap entry [] in
    let waiter : Waiter = record { entry = entry; tx = tx; wants = mode; woken = false } in
    if can_acquire owners tx mode
    then record lm { heap = set lm.heap entry (grant owners tx mode) }
    else record lm { waiting = lm.waiting ++ waiter ∷ [] }

-- The entry for a key that has none.
pub add_entry : String → LockManager → LockManager
add_entry key lm = record lm { locks = (key, length lm.heap) ∷ lm.locks; heap = lm.heap ++ [] ∷ [] }

pub acquire : String → ℕ → LockMode → LockManager → LockManager
unfolding lookup acquire_entry add_entry
acquire key tx mode lm = elim (lookup key lm.locks) [
  | none ↦ acquire_entry (length lm.heap) tx mode (add_entry key lm)
  | some entry ↦ acquire_entry entry tx mode lm
]

remove_nth : List Waiter → ℕ → List Waiter
remove_nth [] i = []
remove_nth (w ∷ ws) zero = ws
remove_nth (w ∷ ws) (suc i) = w ∷ remove_nth ws i

rewait : Waiter → ℕ → LockManager → LockManager
unfolding can_acquire grant remove_nth
rewait w i lm =
    let owners = get_or lm.heap w.entry [] in
    if can_acquire owners w.tx w.wants
    then record lm {
      heap = set lm.heap w.entry (grant owners w.tx w.wants);
      waiting = remove_nth lm.waiting i;
    }
    else record lm { waiting = set lm.waiting i (record w { woken = false }) }

-- The `i`-th waiter goes on, if Broadcast has woken it.
pub wake : ℕ → LockManager → LockManager
unfolding rewait
wake i lm = elim (get_elem? lm.waiting i) [
  | none ↦ lm
  | some w ↦ if w.woken then rewait w i lm else lm
]

pub holds : List RowLock → ℕ → Bool
holds [] tx = false
holds (o ∷ owners) tx = o.owner_tx == tx || holds owners tx

pub without : List RowLock → ℕ → List RowLock
without [] tx = []
without (o ∷ owners) tx =
    let rest = without owners tx in if o.owner_tx == tx then rest else o ∷ rest

pub broadcast : ℕ → List Waiter → List Waiter
broadcast entry [] = []
broadcast entry (w ∷ ws) =
    (if w.entry == entry then record w { woken = true } else w) ∷ broadcast entry ws

delete_if_empty : List RowLock → String → List (String × ℕ) → List (String × ℕ)
unfolding delete
delete_if_empty [] key locks = delete key locks
delete_if_empty (o ∷ owners) key locks = locks

-- One round of the loop of ReleaseAll.
pub release_entry : ℕ → String → ℕ → LockManager → LockManager
unfolding holds without broadcast delete_if_empty
release_entry tx key entry lm =
    let owners = get_or lm.heap entry [] in
    if holds owners tx
    then record lm {
      heap = set lm.heap entry (without owners tx);
      locks = delete_if_empty (without owners tx) key lm.locks;
      waiting = broadcast entry lm.waiting;
    }
    else lm

pub release_entries : ℕ → List (String × ℕ) → LockManager → LockManager
unfolding release_entry
release_entries tx [] lm = lm
release_entries tx ((key, entry) ∷ locks) lm =
    release_entries tx locks (release_entry tx key entry lm)

pub release_all : ℕ → LockManager → LockManager
unfolding release_entries
release_all tx lm = release_entries tx lm.locks lm

-- What a schedule of transactions can do.
pub data Action : Type 0 where
  acquires : String → ℕ → LockMode → Action
  wakes : ℕ → Action
  releases : ℕ → Action

pub step : Action → LockManager → LockManager
unfolding acquire wake release_all
step (acquires key tx mode) lm = acquire key tx mode lm
step (wakes i) lm = wake i lm
step (releases tx) lm = release_all tx lm

pub run : List Action → LockManager → LockManager
unfolding step
run [] lm = lm
run (a ∷ as_) lm = run as_ (step a lm)

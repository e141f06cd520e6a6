-- ===== src/RowLocks/Exclusion.antt =====
-- server/internal/core/storage/lock_manager.go: no entry is ever held in conflicting modes.
use pro_labs.Common.{
  ℕ, ◌≡◌, ◌≢◌, ◌↔◌, ◌⊎◌, inl, inr, refl, true, false, List, [], ◌∷◌, arith, All, All-append,
  All-set, All-get_or, get_or, get_elem?, set, length, Option-cases, Bool-cases,
}
use Prim.Native.String.{String}
use pro_labs.RowLocks.Modes.{LockMode, is_update}
use pro_labs.RowLocks.{
  RowLock, Waiter, LockManager, new_lock_manager, can_acquire, grant, acquire_entry, add_entry,
  acquire, lookup, rewait, wake, holds, without, release_entry, release_entries, release_all,
  Action, acquires, wakes, releases, step, run,
}

-- Two locks on one entry that may be held together.
abbrev pub Compat : RowLock → RowLock → Type 0
Compat o p = (o.owner_tx ≢ p.owner_tx) × (is_update o.mode ≡ false) × (is_update p.mode ≡ false)

-- No transaction holds two locks on the entry, and an update lock stands alone.
abbrev pub Exclusive : List RowLock → Type 0
Exclusive [] = Unit
Exclusive (o ∷ owners) = All (Compat o) owners × Exclusive owners

abbrev lock : LockMode → ℕ → RowLock
lock mode tx = record { mode = mode; owner_tx = tx }

-- A lock that `tx` may hold in `mode` beside `o`.
abbrev pub Admits : ℕ → LockMode → RowLock → Type 0
Admits tx mode o = (o.owner_tx ≡ tx) ⊎ ((is_update o.mode ≡ false) × (is_update mode ≡ false))

can_acquire-Admits :
    (owners : List RowLock) (tx : ℕ) (mode : LockMode)
    → can_acquire owners tx mode ≡ true
    → All (Admits tx mode) owners
unfolding can_acquire
can_acquire-Admits [] tx mode h = tt
can_acquire-Admits (o ∷ owners) tx mode h = ground (arith, can_acquire-Admits owners tx mode)

grant-Compat :
    (o : RowLock) (owners : List RowLock) (tx : ℕ) (mode : LockMode)
    → All (Compat o) owners
    → o.owner_tx ≢ tx
    → is_update o.mode ≡ false
    → is_update mode ≡ false
    → All (Compat o) (grant owners tx mode)
unfolding grant
grant-Compat o [] tx mode h a b c = ((a, b, c), tt)
grant-Compat o (p ∷ owners) tx mode h a b c = ground (arith, grant-Compat o owners tx mode h.1)

raise-Compat :
    (o : RowLock) (owners : List RowLock) (tx : ℕ) (mode : LockMode)
    → o.owner_tx ≡ tx
    → All (Compat o) owners
    → All (Admits tx mode) owners
    → All (Compat (record o { mode = mode })) owners
raise-Compat o [] tx mode e h k = tt
raise-Compat o (p ∷ owners) tx mode e h k = ground (arith, raise-Compat o owners tx mode e h.1 k.1)

grant-Exclusive :
    (owners : List RowLock) (tx : ℕ) (mode : LockMode)
    → All (Admits tx mode) owners
    → Exclusive owners
    → Exclusive (grant owners tx mode)
unfolding grant
grant-Exclusive [] tx mode k h = (tt, tt)
grant-Exclusive (o ∷ owners) tx mode k h = ground (
  arith,
  raise-Compat o owners tx mode,
  grant-Compat o owners tx mode h.0,
  grant-Exclusive owners tx mode k.1 h.1,
)

without-Compat :
    (o : RowLock) (owners : List RowLock) (tx : ℕ)
    → All (Compat o) owners
    → All (Compat o) (without owners tx)
unfolding without
without-Compat o [] tx h = tt
without-Compat o (p ∷ owners) tx h = ground (arith, without-Compat o owners tx h.1)

without-Exclusive :
    (owners : List RowLock) (tx : ℕ) → Exclusive owners → Exclusive (without owners tx)
unfolding without
without-Exclusive [] tx h = tt
without-Exclusive (o ∷ owners) tx h =
    ground (arith, without-Compat o owners tx h.0, without-Exclusive owners tx h.1)

-- No entry, whether a key still leads to it or not, is held in conflicting modes.
abbrev pub IsExclusive : LockManager → Type 0
IsExclusive lm = All Exclusive lm.heap

entry-Exclusive : (lm : LockManager) (e : ℕ) → IsExclusive lm → Exclusive (get_or lm.heap e [])
entry-Exclusive lm e v = All-get_or Exclusive lm.heap e [] v tt

granted-Exclusive :
    (lm : LockManager) (e tx : ℕ) (mode : LockMode)
    → IsExclusive lm
    → can_acquire (get_or lm.heap e []) tx mode ≡ true
    → All Exclusive (set lm.heap e (grant (get_or lm.heap e []) tx mode))
granted-Exclusive lm e tx mode v c = All-set Exclusive lm.heap e _ v (
    grant-Exclusive (get_or lm.heap e []) tx mode
      (can_acquire-Admits (get_or lm.heap e []) tx mode c) (entry-Exclusive lm e v))

acquire_entry-IsExclusive :
    (e tx : ℕ) (mode : LockMode) (lm : LockManager)
    → IsExclusive lm
    → IsExclusive (acquire_entry e tx mode lm)
unfolding acquire_entry
acquire_entry-IsExclusive e tx mode lm v =
    elim (Bool-cases (can_acquire (get_or lm.heap e []) tx mode)) [
      | inl c ↦ rw c (granted-Exclusive lm e tx mode v c)
      | inr c ↦ rw c v
    ]

acquire-IsExclusive :
    (key : String) (tx : ℕ) (mode : LockMode) (lm : LockManager)
    → IsExclusive lm
    → IsExclusive (acquire key tx mode lm)
unfolding acquire add_entry
acquire-IsExclusive key tx mode lm v = elim (Option-cases (lookup key lm.locks)) [
  | inl e ↦
      rw (e, acquire)
        (acquire_entry-IsExclusive (length lm.heap) tx mode (add_entry key lm)
          (All-append Exclusive lm.heap ([] ∷ []) v (tt, tt)))
  | inr (p, e) ↦ rw (e, acquire) (acquire_entry-IsExclusive p tx mode lm v)
]

rewait-IsExclusive :
    (w : Waiter) (i : ℕ) (lm : LockManager) → IsExclusive lm → IsExclusive (rewait w i lm)
unfolding rewait
rewait-IsExclusive w i lm v =
    elim (Bool-cases (can_acquire (get_or lm.heap w.entry []) w.tx w.wants)) [
      | inl c ↦ rw c (granted-Exclusive lm w.entry w.tx w.wants v c)
      | inr c ↦ rw c v
    ]

wake-IsExclusive : (i : ℕ) (lm : LockManager) → IsExclusive lm → IsExclusive (wake i lm)
unfolding wake
wake-IsExclusive i lm v = elim (Option-cases (get_elem? lm.waiting i)) [
  | inl e ↦ rw (e, wake) v
  | inr (w, e) ↦ elim (Bool-cases w.woken) [
    | inl b ↦ rw (e, wake, b) (rewait-IsExclusive w i lm v)
    | inr b ↦ rw (e, wake, b) v
  ]
]

release_entry-IsExclusive :
    (tx : ℕ) (key : String) (e : ℕ) (lm : LockManager)
    → IsExclusive lm
    → IsExclusive (release_entry tx key e lm)
unfolding release_entry
release_entry-IsExclusive tx key e lm v = elim (Bool-cases (holds (get_or lm.heap e []) tx)) [
  | inl c ↦ rw c (
      All-set Exclusive lm.heap e _ v
        (without-Exclusive (get_or lm.heap e []) tx (entry-Exclusive lm e v)))
  | inr c ↦ rw c v
]

release_entries-IsExclusive :
    (tx : ℕ) (locks : List (String × ℕ)) (lm : LockManager)
    → IsExclusive lm
    → IsExclusive (release_entries tx locks lm)
unfolding release_entries
release_entries-IsExclusive tx [] lm v = v
release_entries-IsExclusive tx ((key, e) ∷ locks) lm v =
    release_entries-IsExclusive tx locks _ (release_entry-IsExclusive tx key e lm v)

step-IsExclusive : (a : Action) (lm : LockManager) → IsExclusive lm → IsExclusive (step a lm)
unfolding step release_all
step-IsExclusive (acquires key tx mode) lm v = acquire-IsExclusive key tx mode lm v
step-IsExclusive (wakes i) lm v = wake-IsExclusive i lm v
step-IsExclusive (releases tx) lm v = release_entries-IsExclusive tx lm.locks lm v

run-IsExclusive :
    (actions : List Action) (lm : LockManager) → IsExclusive lm → IsExclusive (run actions lm)
unfolding run
run-IsExclusive [] lm v = v
run-IsExclusive (a ∷ actions) lm v = run-IsExclusive actions (step a lm) (step-IsExclusive a lm v)

-- After any schedule from the empty manager no transaction holds two locks on an entry, and where
-- one holds an update lock no other holds any lock on that entry.
pub run-new-IsExclusive : (actions : List Action) → IsExclusive (run actions new_lock_manager)
unfolding new_lock_manager
run-new-IsExclusive actions = run-IsExclusive actions _ tt

Admits-can_acquire :
    (owners : List RowLock) (tx : ℕ) (mode : LockMode)
    → All (Admits tx mode) owners
    → can_acquire owners tx mode ≡ true
unfolding can_acquire
Admits-can_acquire [] tx mode h = refl
Admits-can_acquire (o ∷ owners) tx mode h = ground (arith, Admits-can_acquire owners tx mode h.1)

-- canAcquire allows a lock exactly when each lock on the entry is the transaction's own, or neither
-- that lock nor the wanted one is an update lock.
pub can_acquire_iff :
    (owners : List RowLock) (tx : ℕ) (mode : LockMode)
    → (can_acquire owners tx mode ≡ true) ↔ All (Admits tx mode) owners
can_acquire_iff owners tx mode =
    (can_acquire-Admits owners tx mode, Admits-can_acquire owners tx mode)

-- ===== src/RowLocks/Orphan.antt =====
-- server/internal/core/storage/lock_manager.go: ReleaseAll. It drops every lock that a key leads to;
-- but it deletes an emptied entry for which others wait, and they go on with the old one.
use text.Mathlib.Text.{◌==◌ as str_eq}
use text.Mathlib.TextPositions.{eq_refl}
use Prim.Native.String.{String}
use pro_labs.Common.{
  ℕ, zero, suc, ◌≡◌, ◌≢◌, ◌⊎◌, inl, inr, refl, Bool, true, false, List, [], ◌∷◌, arith, All, get_or,
  set, Bool-cases,
}
use pro_labs.RowLocks.Modes.{update}
use pro_labs.RowLocks.{
  RowLock, Waiter, LockManager, acquire, wake, new_lock_manager, holds, without, delete,
  delete_if_empty, release_entry, release_entries, release_all, acquires, wakes, releases, run,
}

holds-without : (owners : List RowLock) (tx : ℕ) → holds (without owners tx) tx ≡ false
unfolding holds without
holds-without [] tx = refl
holds-without (o ∷ owners) tx = ground (arith, holds-without owners tx)

-- The write of a round clears its own entry, and keeps a clear one clear.
clear-set :
    (heap : List (List RowLock)) (e p tx : ℕ)
    → (p ≡ e) ⊎ (holds (get_or heap p []) tx ≡ false)
    → holds (get_or (set heap e (without (get_or heap e []) tx)) p []) tx ≡ false
unfolding holds
clear-set [] e p tx h = refl
clear-set (x ∷ heap) zero zero tx h = holds-without x tx
clear-set (x ∷ heap) zero (suc p) tx h = ground arith
clear-set (x ∷ heap) (suc e) zero tx h = ground arith
clear-set (x ∷ heap) (suc e) (suc p) tx h = ground (arith, clear-set heap e p tx)

abbrev pub Clear : ℕ → LockManager → String × ℕ → Type 0
Clear tx lm (key, e) = holds (get_or lm.heap e []) tx ≡ false

release_entry-Clear :
    (tx : ℕ) (key : String) (e : ℕ) (lm : LockManager) (k : String) (p : ℕ)
    → (p ≡ e) ⊎ Clear tx lm (k, p)
    → Clear tx (release_entry tx key e lm) (k, p)
unfolding release_entry
release_entry-Clear tx key e lm k p h = elim (Bool-cases (holds (get_or lm.heap e []) tx)) [
  | inl c ↦ rw c (clear-set lm.heap e p tx h)
  | inr c ↦ rw c (elim h [ inl same ↦ rw same c | inr clear ↦ clear ])
]

release_entries-keeps :
    (tx : ℕ) (locks : List (String × ℕ)) (lm : LockManager) (k : String) (p : ℕ)
    → Clear tx lm (k, p)
    → Clear tx (release_entries tx locks lm) (k, p)
unfolding release_entries
release_entries-keeps tx [] lm k p h = h
release_entries-keeps tx ((key, e) ∷ locks) lm k p h =
    release_entries-keeps tx locks _ k p (release_entry-Clear tx key e lm k p (inr h))

release_entries-Clear :
    (tx : ℕ) (locks : List (String × ℕ)) (lm : LockManager)
    → All (Clear tx (release_entries tx locks lm)) locks
unfolding release_entries
release_entries-Clear tx [] lm = tt
release_entries-Clear tx ((key, e) ∷ locks) lm = (
  release_entries-keeps tx locks _ key e (release_entry-Clear tx key e lm key e (inl refl)),
  release_entries-Clear tx locks _,
)

module _ (P : String × ℕ → Type 0) where
  All-delete : (key : String) (locks : List (String × ℕ)) → All P locks → All P (delete key locks)
  unfolding delete
  All-delete key [] h = tt
  All-delete key ((k, p) ∷ locks) h = elim (Bool-cases (str_eq k key)) [
    | inl e ↦ rw e (All-delete key locks h.1)
    | inr e ↦ rw e (h.0, All-delete key locks h.1)
  ]

  All-delete_if_empty :
      (owners : List RowLock) (key : String) (locks : List (String × ℕ))
      → All P locks
      → All P (delete_if_empty owners key locks)
  unfolding delete_if_empty
  All-delete_if_empty [] key locks h = All-delete key locks h
  All-delete_if_empty (o ∷ owners) key locks h = h

  All-release_entries :
      (tx : ℕ) (locks : List (String × ℕ)) (lm : LockManager)
      → All P lm.locks
      → All P (release_entries tx locks lm).locks
  unfolding release_entries release_entry
  All-release_entries tx [] lm h = h
  All-release_entries tx ((key, e) ∷ locks) lm h =
      All-release_entries tx locks (release_entry tx key e lm)
        (elim (Bool-cases (holds (get_or lm.heap e []) tx)) [
          | inl c ↦ rw c (All-delete_if_empty (without (get_or lm.heap e []) tx) key lm.locks h)
          | inr c ↦ rw c h
        ])

-- After ReleaseAll the transaction holds no lock on any entry that a key leads to.
pub release_all-Clear :
    (tx : ℕ) (lm : LockManager) → All (Clear tx (release_all tx lm)) (release_all tx lm).locks
unfolding release_all
release_all-Clear tx lm =
    All-release_entries (Clear tx (release_entries tx lm.locks lm)) tx lm.locks lm
      (release_entries-Clear tx lm.locks lm)

abbrev update_lock : ℕ → RowLock
update_lock tx = record { mode = update; owner_tx = tx }

-- Two transactions hold an update lock for one key: `b` on an entry to which no key leads.
abbrev pub both_hold : String → ℕ → ℕ → LockManager
both_hold key b c = record {
  locks = (key, 1) ∷ [];
  heap = (update_lock b ∷ []) ∷ (update_lock c ∷ []) ∷ [];
  waiting = [];
}

-- The states on the way there.
module _ (key : String) (a b c : ℕ) (a_b : a ≢ b) where
  b_waits : Bool → Waiter
  b_waits woken = record { entry = 0; tx = b; wants = update; woken = woken }

  taken : LockManager
  taken = record { locks = (key, 0) ∷ []; heap = (update_lock a ∷ []) ∷ []; waiting = [] }

  contended : LockManager
  unfolding b_waits
  contended = record {
    locks = (key, 0) ∷ [];
    heap = (update_lock a ∷ []) ∷ [];
    waiting = b_waits false ∷ [];
  }

  released : LockManager
  unfolding b_waits
  released = record { locks = []; heap = [] ∷ []; waiting = b_waits true ∷ [] }

  resumed : LockManager
  resumed = record { locks = []; heap = (update_lock b ∷ []) ∷ []; waiting = [] }

  to_taken : acquire key a update new_lock_manager ≡ taken
  unfolding acquire taken new_lock_manager
  to_taken = refl

  to_contended : acquire key b update taken ≡ contended
  unfolding acquire taken contended
  to_contended = ground (arith, eq_refl key)

  to_released : release_all a contended ≡ released
  unfolding release_all contended released
  to_released = ground (arith, eq_refl key)

  to_resumed : wake 0 released ≡ resumed
  unfolding wake released resumed
  to_resumed = refl

  to_both : acquire key c update resumed ≡ both_hold key b c
  unfolding acquire resumed
  to_both = refl

-- For every key and transactions a, b, c: a takes the key, b waits for it, a releases, b goes on,
-- c takes the key. Then b and c both have an update lock for the key, and ReleaseAll of b does not
-- find its lock.
pub both_hold-reachable :
    (key : String) (a b c : ℕ)
    → a ≢ b
    → b ≢ c
    → (run
          (acquires key a update
            ∷ acquires key b update
            ∷ releases a
            ∷ wakes 0
            ∷ acquires key c update
            ∷ [])
          new_lock_manager
        ≡ both_hold key b c)
      × (release_all b (both_hold key b c) ≡ both_hold key b c)
unfolding run release_all
both_hold-reachable key a b c h k = (
  simp (
    to_taken key a b c h,
    to_contended key a b c h,
    to_released key a b c h,
    to_resumed key a b c h,
    to_both key a b c h,
  ),
  ground arith,
)

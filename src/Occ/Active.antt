-- ===== src/Occ/Active.antt =====
-- server/internal/core/txmanager/manager.go: the transactions that are active, and the oldest of them.
use pro_labs.Common.{
  ℕ, ◌+◌, ◌%◌, ◌≤◌, ◌<◌, ◌≡◌, ◌≢◌, refl, List, [], ◌∷◌, ◌==◌, map, All, if◌then◌else◌, arith, ltb,
  leb, if-cases,
}
use pro_labs.Occ.{
  Manager, u64, begin, deactivate, without_tx, oldest_of, oldest_active_xid,
  ensure_counter_at_least,
}

-- An active transaction began before the counter got past it, and its snapshot names older ones.
abbrev pub Began : ℕ → ℕ × List ℕ → Type 0
Began counter x = (x.0 ≤ counter) × All (λ s. s < x.0) x.1

-- No identifier is active twice.
abbrev pub Distinct : List (ℕ × List ℕ) → Type 0
Distinct [] = Unit
Distinct (x ∷ active) = All (λ (y : ℕ × List ℕ). y.0 ≢ x.0) active × Distinct active

pub record IsManager (m : Manager) : Type 0 where
  pub bound : m.counter < u64
  pub began : All (Began m.counter) m.active_txs
  pub distinct : Distinct m.active_txs

Began-mono :
    (c d : ℕ) (active : List (ℕ × List ℕ)) → c ≤ d → All (Began c) active → All (Began d) active
Began-mono c d [] h k = tt
Began-mono c d (x ∷ active) h k = ((omega (arith, k.0.0), k.0.1), Began-mono c d active h k.1)

All-without_tx :
    (P : ℕ × List ℕ → Type 0) (id : ℕ) (active : List (ℕ × List ℕ))
    → All P active
    → All P (without_tx id active)
All-without_tx P id [] k = tt
All-without_tx P id ((i, s) ∷ active) k =
    if-cases (All P) (i == id) (λ e. All-without_tx P id active k.1)
      (λ e. (k.0, All-without_tx P id active k.1))

without_tx-Distinct :
    (id : ℕ) (active : List (ℕ × List ℕ)) → Distinct active → Distinct (without_tx id active)
without_tx-Distinct id [] k = tt
without_tx-Distinct id ((i, s) ∷ active) k =
    if-cases Distinct (i == id) (λ e. without_tx-Distinct id active k.1)
      (λ e. (All-without_tx _ id active k.0, without_tx-Distinct id active k.1))

pub without_gone :
    (id : ℕ) (active : List (ℕ × List ℕ))
    → All (λ (x : ℕ × List ℕ). x.0 ≢ id) (without_tx id active)
without_gone id [] = tt
without_gone id ((i, s) ∷ active) =
    if-cases (All (λ (x : ℕ × List ℕ). x.0 ≢ id)) (i == id) (λ e. without_gone id active)
      (λ e. (λ same. absurd (ground (arith, e, same)), without_gone id active))

older :
    (c d : ℕ) (active : List (ℕ × List ℕ))
    → c < d
    → All (Began c) active
    → All (λ s. s < d) (map (λ x. x.0) active)
older c d [] h k = tt
older c d (x ∷ active) h k = (omega (arith, k.0.0), older c d active h k.1)

newer :
    (c d : ℕ) (active : List (ℕ × List ℕ))
    → c < d
    → All (Began c) active
    → All (λ (y : ℕ × List ℕ). y.0 ≢ d) active
newer c d [] h k = tt
newer c d (x ∷ active) h k = (λ e. absurd (omega (arith, k.0.0, e)), newer c d active h k.1)

-- Begin keeps a well-formed manager so, while the counter has not reached 2^64 - 1: the new
-- transaction gets the number behind the counter, which no active one has, and every transaction in
-- its snapshot has a smaller one.
pub begin-IsManager :
    (m : Manager)
    → IsManager m
    → m.counter + 1 < u64
    → IsManager (begin m).0
      × ((begin m).1.id ≡ m.counter + 1)
      × All (λ s. s < (begin m).1.id) (begin m).1.snapshot
unfolding begin
begin-IsManager m v h =
    let e : (m.counter + 1) % u64 ≡ m.counter + 1 = omega arith in
    let d = m.counter + 1 in
    let lt : m.counter < d = omega arith in
    let names = older m.counter d m.active_txs lt v.began in
    rw e (
      record {
        bound = h;
        began = ((omega arith, names), Began-mono m.counter d m.active_txs (omega arith) v.began);
        distinct = (newer m.counter d m.active_txs lt v.began, v.distinct);
      },
      refl,
      names,
    )

-- Taking a transaction out of the active ones, as Commit and Rollback do, keeps a manager well-formed,
-- and leaves no entry with its identifier.
pub deactivate-IsManager :
    (id : ℕ) (m : Manager)
    → IsManager m
    → IsManager (deactivate id m) × All (λ (x : ℕ × List ℕ). x.0 ≢ id) (deactivate id m).active_txs
unfolding deactivate
deactivate-IsManager id m v = (
  record {
    bound = v.bound;
    began = All-without_tx (Began m.counter) id m.active_txs v.began;
    distinct = without_tx-Distinct id m.active_txs v.distinct;
  },
  without_gone id m.active_txs,
)

-- EnsureCounterAtLeast raises the counter to the larger of both, and keeps a manager well-formed.
pub ensure_counter_at_least-IsManager :
    (n : ℕ) (m : Manager)
    → IsManager m
    → n < u64
    → IsManager (ensure_counter_at_least n m)
      × (n ≤ (ensure_counter_at_least n m).counter)
      × (m.counter ≤ (ensure_counter_at_least n m).counter)
unfolding ensure_counter_at_least
ensure_counter_at_least-IsManager n m v h =
    if-cases (λ (c : Manager). IsManager c × (n ≤ c.counter) × (m.counter ≤ c.counter))
      (leb n m.counter) (λ e. (v, ground (arith, e), omega arith))
      (λ e. (
        record {
          bound = h;
          began = Began-mono m.counter n m.active_txs (ground (arith, e)) v.began;
          distinct = v.distinct;
        },
        omega arith,
        ground (arith, e),
      ))

oldest_of-le :
    (o : ℕ) (active : List (ℕ × List ℕ))
    → (oldest_of o active ≤ o) × All (λ (x : ℕ × List ℕ). oldest_of o active ≤ x.0) active
unfolding oldest_of
oldest_of-le o [] = (omega arith, tt)
oldest_of-le o ((xid, s) ∷ active) =
    let rest = oldest_of-le (if ltb xid o then xid else o) active in
    (ground (arith, rest.0), (ground (arith, rest.0), rest.1))

-- OldestActiveXID is no larger than the counter or the identifier of any active transaction.
pub oldest_active_xid_lem :
    (m : Manager)
    → (oldest_active_xid m ≤ m.counter)
      × All (λ (x : ℕ × List ℕ). oldest_active_xid m ≤ x.0) m.active_txs
unfolding oldest_active_xid
oldest_active_xid_lem m = oldest_of-le m.counter m.active_txs

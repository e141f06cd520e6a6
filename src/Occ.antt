-- ===== src/Occ.antt =====
-- server/internal/core/txmanager: manager.go, predicate_lock.go and ssi.go, optimistic transactions.
--
-- Commit holds the commit locks of its tables while it validates and applies, so it is one step. The
-- key of a table is the text that tableKey makes of it, which has a slash, so that SplitN in
-- refreshSnapshots gives back its two parts. The operations that ReadOps returns, the function that
-- applies them to the store, the texts of its errors and strings.Contains are parameters. What other
-- sessions do while CommitWithRetry sleeps is a parameter too. The error of a failed ReadOps has only its
-- first words here.
pub mod Active
pub mod Events
pub mod Versions
pub mod Retry
pub mod Predicates
mod Tests
use Prim.Native.String.{String}
use text.Mathlib.Text.{◌==◌ as str_eq}
use pro_labs.Common.{
  ℕ, zero, suc, ◌+◌, ◌%◌, Bool, true, false, Option, none, some, List, [], ◌∷◌, ◌&&◌, ◌||◌, not,
  map, length, leb, ltb, ◌==◌, if◌then◌else◌, find, put,
}

abbrev pub u64 : ℕ
u64 = 18446744073709551616

pub record Transaction : Type 0 where
  pub id : ℕ
  pub table_snapshots : List (String × ℕ)
  pub snapshot : List ℕ
  pub has_dependent_reads : Bool

pub record SsiTracker : Type 0 where
  pub in_conflict : List ℕ
  pub out_conflict : List ℕ

-- `active_txs` gives for each active transaction its snapshot.
pub record Manager : Type 0 where
  pub counter : ℕ
  pub table_versions : List (String × ℕ)
  pub max_retries : ℕ
  pub active_txs : List (ℕ × List ℕ)
  pub ssi_tracker : SsiTracker

pub new_manager : Manager
new_manager = record {
  counter = 0;
  table_versions = [];
  max_retries = 3;
  active_txs = [];
  ssi_tracker = record { in_conflict = []; out_conflict = [] };
}

abbrev pub member : ℕ → List ℕ → Bool
member x [] = false
member x (y ∷ ys) = (y == x) || member x ys

abbrev pub or_zero : Option ℕ → ℕ
or_zero none = 0
or_zero (some v) = v

pub table_version : Manager → String → ℕ
table_version m table = or_zero (find table m.table_versions)

pub bump_table_version : Manager → String → Manager
bump_table_version m table = record m {
  table_versions = put table ((table_version m table + 1) % u64) m.table_versions;
}

pub begin : Manager → Manager × Transaction
begin m =
    let id = (m.counter + 1) % u64 in
    let tx : Transaction = record {
      id = id;
      table_snapshots = [];
      snapshot = map (λ x. x.0) m.active_txs;
      has_dependent_reads = false;
    } in
    (record m { counter = id; active_txs = (id, tx.snapshot) ∷ m.active_txs }, tx)

abbrev pub with_access : Option ℕ → Manager → Transaction → String → Transaction
with_access (some v) m tx table = tx
with_access none m tx table = record tx {
  table_snapshots = put table (table_version m table) tx.table_snapshots;
}

-- The table's version at the first access only.
pub record_access : Manager → Transaction → String → Transaction
record_access m tx table = with_access (find table tx.table_snapshots) m tx table

abbrev pub without_tx : ℕ → List (ℕ × List ℕ) → List (ℕ × List ℕ)
without_tx id [] = []
without_tx id ((i, s) ∷ active) =
    let rest = without_tx id active in if i == id then rest else (i, s) ∷ rest

-- `delete(m.ActiveTxs, id)`, the part of Rollback that the manager sees.
pub deactivate : ℕ → Manager → Manager
deactivate id m = record m { active_txs = without_tx id m.active_txs }

pub record_rw_conflict : ℕ → ℕ → SsiTracker → SsiTracker
record_rw_conflict reader writer t = record {
  in_conflict = writer ∷ t.in_conflict;
  out_conflict = reader ∷ t.out_conflict;
}

pub has_cycle : SsiTracker → ℕ → Bool
has_cycle t tx = member tx t.in_conflict && member tx t.out_conflict

-- The loop of Commit over the tables of the snapshot.
pub is_current : Manager → List (String × ℕ) → Bool
is_current m [] = true
is_current m ((table, v) ∷ snapshots) =
    let rest = is_current m snapshots in if table_version m table == v then rest else false

pub refresh_snapshots : Manager → Transaction → Transaction
refresh_snapshots m tx = record tx {
  table_snapshots = map (λ x. (x.0, table_version m x.0)) tx.table_snapshots;
}

pub oldest_of : ℕ → List (ℕ × List ℕ) → ℕ
oldest_of oldest [] = oldest
oldest_of oldest ((xid, s) ∷ active) = oldest_of (if ltb xid oldest then xid else oldest) active

pub oldest_active_xid : Manager → ℕ
oldest_active_xid m = oldest_of m.counter m.active_txs

pub is_committed : Manager → ℕ → Bool
is_committed m xid = ltb xid m.counter

pub ensure_counter_at_least : ℕ → Manager → Manager
ensure_counter_at_least n m = if leb n m.counter then m else record m { counter = n }

-- What Commit and CommitWithRetry return; an error is a conflict or another text.
pub data CommitOutcome : Type 0 where
  committed : CommitOutcome
  conflict : CommitOutcome
  error : String → CommitOutcome

-- The store, the function that applies operations to it and to the table versions, and the test of an
-- error's text for the words of a conflict.
pub record Applier (Op Store : Type 0) : Type 0 where
  pub apply : List Op → Store × Manager → (Store × Manager) × Option String
  pub mentions : String → Bool

module _ {Op Store : Type 0} (applier : Applier Op Store) where
  abbrev pub returned : (Store × Manager) × Option String → (Store × Manager) × CommitOutcome
  returned (s, none) = (s, committed)
  returned (s, some text) = (s, error text)

  abbrev pub apply_read : Option (List Op) → Store × Manager → (Store × Manager) × CommitOutcome
  apply_read none s = (s, error "read ops")
  apply_read (some ops) s = returned (applier.apply ops s)

  abbrev pub ended : ℕ → (Store × Manager) × CommitOutcome → (Store × Manager) × CommitOutcome
  ended id ((store, m), o) = ((store, deactivate id m), o)

  -- `ops` is what ReadOps returns.
  pub commit : Transaction → Option (List Op) → Store × Manager → (Store × Manager) × CommitOutcome
  commit tx ops (store, m) = ended tx.id (
      if has_cycle m.ssi_tracker tx.id
      then ((store, m), conflict)
      else if is_current m tx.table_snapshots
      then apply_read ops (store, m)
      else ((store, m), conflict))

  pub is_conflict_error : CommitOutcome → Bool
  is_conflict_error committed = false
  is_conflict_error conflict = true
  is_conflict_error (error text) = applier.mentions text

  -- The loop of CommitWithRetry with `left` attempts behind this one; `others` is what other sessions
  -- do in the pause before those.
  pub attempts :
      ℕ
      → (ℕ → Store × Manager → Store × Manager)
      → Transaction
      → Option (List Op)
      → Store × Manager
      → (Store × Manager) × CommitOutcome
  attempts zero others tx ops s =
      let r = commit tx ops s in if is_conflict_error r.1 then (r.0, conflict) else r
  attempts (suc left) others tx ops s =
      let r = commit tx ops s in
      let next = attempts left others (refresh_snapshots r.0.1 tx) ops (others left r.0) in
      if not (is_conflict_error r.1)
      then r
      else if tx.has_dependent_reads
      then (r.0, conflict)
      else next

  pub commit_with_retry :
      (ℕ → Store × Manager → Store × Manager)
      → Transaction
      → Option (List Op)
      → Store × Manager
      → (Store × Manager) × CommitOutcome
  commit_with_retry others tx ops s = attempts s.1.max_retries others tx ops s

-- ===== src/Occ/Retry.antt =====
-- server/internal/core/txmanager/manager.go: what CommitWithRetry comes to.
use Prim.Native.String.{String}
use pro_labs.Common.{
  ℕ, zero, suc, ◌<◌, ◌≡◌, refl, inl, inr, true, false, Option, none, some, List, [], ◌∷◌, ◌==◌, map,
  arith, if-cases, Bool-cases,
}
use pro_labs.Occ.{
  Manager, Transaction, deactivate, table_version, is_current, has_cycle, refresh_snapshots,
  Applier, CommitOutcome, conflict, committed, commit, is_conflict_error, attempts,
  commit_with_retry, returned,
}

-- Snapshots of the versions that stand are current.
is_current-map :
    (m : Manager) (snapshots : List (String × ℕ))
    → is_current m (map (λ x. (x.0, table_version m x.0)) snapshots) ≡ true
unfolding is_current
is_current-map m [] = refl
is_current-map m ((table, v) ∷ snapshots) =
    let now : (table_version m table == table_version m table) ≡ true = ground arith in
    rw now (is_current-map m snapshots)

-- Right behind refreshSnapshots the test of the versions passes.
pub is_current-refresh_snapshots :
    (m : Manager) (tx : Transaction) → is_current m (refresh_snapshots m tx).table_snapshots ≡ true
unfolding refresh_snapshots
is_current-refresh_snapshots m tx = is_current-map m tx.table_snapshots

module _ {Op Store : Type 0} (applier : Applier Op Store) where
  commit-stale :
      (tx : Transaction) (ops : Option (List Op)) (store : Store) (m : Manager)
      → is_current m tx.table_snapshots ≡ false
      → commit applier tx ops (store, m) ≡ ((store, deactivate tx.id m), conflict)
  unfolding commit
  commit-stale tx ops store m e = elim (Bool-cases (has_cycle m.ssi_tracker tx.id)) [
    | inl cycle ↦ rw cycle refl
    | inr free ↦ rw (free, e) refl
  ]

  attempts-dependent :
      (left : ℕ) (others : ℕ → Store × Manager → Store × Manager) (tx : Transaction)
      (ops : Option (List Op)) (store : Store) (m : Manager)
      → tx.has_dependent_reads ≡ true
      → is_current m tx.table_snapshots ≡ false
      → attempts applier left others tx ops (store, m) ≡ ((store, deactivate tx.id m), conflict)
  unfolding attempts is_conflict_error
  attempts-dependent zero others tx ops store m dep stale =
      rw (commit-stale tx ops store m stale) refl
  attempts-dependent (suc left) others tx ops store m dep stale =
      rw (commit-stale tx ops store m stale, dep) refl

  -- A transaction whose reads decided what it wrote is not tried again: if a version is out of date,
  -- CommitWithRetry returns a conflict, and the store is as it was.
  pub commit_with_retry-dependent :
      (others : ℕ → Store × Manager → Store × Manager) (tx : Transaction) (ops : Option (List Op))
      (store : Store) (m : Manager)
      → tx.has_dependent_reads ≡ true
      → is_current m tx.table_snapshots ≡ false
      → commit_with_retry applier others tx ops (store, m) ≡ ((store, deactivate tx.id m), conflict)
  unfolding commit_with_retry
  commit_with_retry-dependent others tx ops store m dep stale =
      attempts-dependent m.max_retries others tx ops store m dep stale

  returned_none :
      (r : (Store × Manager) × Option String) → r.1 ≡ none → (returned applier r).1 ≡ committed
  returned_none (s, none) e = refl
  returned_none (s, some text) e = absurd (cc e)

  commit-fresh :
      (tx : Transaction) (ops : List Op) (s : Store × Manager)
      → ((t : Store × Manager) → (applier.apply ops t).1 ≡ none)
      → has_cycle s.1.ssi_tracker tx.id ≡ false
      → is_current s.1 tx.table_snapshots ≡ true
      → (commit applier tx (some ops) s).1 ≡ committed
  unfolding commit
  commit-fresh tx ops s good free now =
      rw (free, now) (returned_none (applier.apply ops s) (good s))

  attempts-fresh :
      (left : ℕ) (others : ℕ → Store × Manager → Store × Manager) (tx : Transaction) (ops : List Op)
      (s : Store × Manager)
      → ((t : Store × Manager) → (applier.apply ops t).1 ≡ none)
      → has_cycle s.1.ssi_tracker tx.id ≡ false
      → is_current s.1 tx.table_snapshots ≡ true
      → (attempts applier left others tx (some ops) s).1 ≡ committed
  unfolding attempts is_conflict_error
  attempts-fresh zero others tx ops s good free now =
      let e = commit-fresh tx ops s good free now in rw e refl
  attempts-fresh (suc left) others tx ops s good free now =
      let e = commit-fresh tx ops s good free now in rw e refl

  attempts-second :
      (left : ℕ) (tx : Transaction) (ops : List Op) (s : Store × Manager)
      → ((t : Store × Manager) → (applier.apply ops t).1 ≡ none)
      → tx.has_dependent_reads ≡ false
      → has_cycle s.1.ssi_tracker tx.id ≡ false
      → is_current s.1 tx.table_snapshots ≡ false
      → (attempts applier (suc left) (λ n t. t) tx (some ops) s).1 ≡ committed
  unfolding attempts is_conflict_error deactivate refresh_snapshots
  attempts-second left tx ops s good reads free stale =
      let m = deactivate tx.id s.1 in
      rw (commit-stale tx (some ops) s.0 s.1 stale) (
        if-cases (λ (x : (Store × Manager) × CommitOutcome). x.1 ≡ committed) tx.has_dependent_reads
          (λ e. absurd (cc (e, reads)))
          (λ e.
            attempts-fresh left (λ n t. t) (refresh_snapshots m tx) ops (s.0, m) good free
              (is_current-refresh_snapshots m tx)))

  attempts-quiet :
      (left : ℕ) (tx : Transaction) (ops : List Op) (s : Store × Manager)
      → ((t : Store × Manager) → (applier.apply ops t).1 ≡ none)
      → 0 < left
      → tx.has_dependent_reads ≡ false
      → has_cycle s.1.ssi_tracker tx.id ≡ false
      → (attempts applier left (λ n t. t) tx (some ops) s).1 ≡ committed
  attempts-quiet zero tx ops s good more reads free = absurd (omega arith)
  attempts-quiet (suc left) tx ops s good more reads free =
      elim (Bool-cases (is_current s.1 tx.table_snapshots)) [
        | inl now ↦ attempts-fresh (suc left) (λ n t. t) tx ops s good free now
        | inr stale ↦ attempts-second left tx ops s good reads free stale
      ]

  -- With no session at work in the pauses, at least one retry allowed, no cycle of conflicts and no
  -- dependent reads, CommitWithRetry commits operations that apply without error, whether or not the
  -- versions were current.
  pub commit_with_retry-quiet :
      (tx : Transaction) (ops : List Op) (s : Store × Manager)
      → ((t : Store × Manager) → (applier.apply ops t).1 ≡ none)
      → 0 < s.1.max_retries
      → tx.has_dependent_reads ≡ false
      → has_cycle s.1.ssi_tracker tx.id ≡ false
      → (commit_with_retry applier (λ n t. t) tx (some ops) s).1 ≡ committed
  unfolding commit_with_retry
  commit_with_retry-quiet tx ops s good more reads free =
      attempts-quiet s.1.max_retries tx ops s good more reads free

-- ===== src/Occ/Tests.antt =====
-- server/internal/core/txmanager: a small manager, and the theorems at it.
use pro_labs.Common.{
  ℕ, ◌+◌, ◌≡◌, ◌≢◌, ◌↔◌, refl, true, false, none, some, List, [], ◌∷◌, All, length, arith,
}
use pro_labs.Occ.{
  Manager, Transaction, deactivate, record_access, Applier, conflict, committed, commit,
  commit_with_retry, has_cycle, is_current, table_version,
}
use pro_labs.Occ.Active.{IsManager}
use pro_labs.Occ.Events.{bumps, begins}
use pro_labs.Occ.Versions.{Step, others, accesses, step_all, commit-lost_update, commit_inactive}
use pro_labs.Occ.Retry.{commit_with_retry-quiet, commit_with_retry-dependent}
use pro_labs.Occ.Predicates.{
  PredicateLock, page_granularity, check_conflict, check_conflict_iff, Any, Blocks, record_all,
  Some, has_cycle_iff,
}

-- The store counts the operations.
abbrev counting : Applier ℕ ℕ
counting = record { apply = λ ops s. ((s.0 + length ops, s.1), none); mentions = λ text. false }

abbrev manager : Manager
manager = record {
  counter = 5;
  table_versions = ("db/t", 3) ∷ [];
  max_retries = 3;
  active_txs = (5, 4 ∷ []) ∷ (4, []) ∷ [];
  ssi_tracker = record { in_conflict = []; out_conflict = [] };
}

manager-IsManager : IsManager manager
manager-IsManager = record {
  bound = omega arith;
  began = ((omega arith, (omega arith, tt)), ((omega arith, tt), tt));
  distinct = ((omega arith, tt), (tt, tt));
}

abbrev writer : Transaction
writer = record { id = 5; table_snapshots = []; snapshot = 4 ∷ []; has_dependent_reads = false }

abbrev stale : Transaction
stale = record {
  id = 5;
  table_snapshots = ("db/t", 2) ∷ [];
  snapshot = [];
  has_dependent_reads = true;
}

version : table_version manager "db/t" ≡ 3
unfolding table_version
version = refl

-- Another session starts and writes the table; the transaction accesses it again, and another table.
abbrev steps : List Step
steps = others begins ∷ accesses "db/u" ∷ others (bumps "db/t") ∷ accesses "db/t" ∷ []

commit-lost_update_example :
    commit counting
      (step_all steps (manager, record_access manager writer "db/t")).1
      (some (1 ∷ []))
      (0, (step_all steps (manager, record_access manager writer "db/t")).0)
    ≡ (
      (
        0,
        deactivate
            (step_all steps (manager, record_access manager writer "db/t")).1.id
            (step_all steps (manager, record_access manager writer "db/t")).0,
      ),
      conflict,
    )
commit-lost_update_example =
    commit-lost_update counting manager writer "db/t" steps (some (1 ∷ [])) 0 refl
      (omega (arith, version)) (omega arith) (omega arith)

commit_inactive_example :
    All (λ (x : ℕ × List ℕ). x.0 ≢ 5) (commit counting stale none (0, manager)).0.1.active_txs
commit_inactive_example = commit_inactive counting stale none (0, manager)

stale_version : is_current manager stale.table_snapshots ≡ false
unfolding is_current table_version
stale_version = refl

commit_with_retry-dependent_example :
    commit_with_retry counting (λ n t. t) stale (some (1 ∷ [])) (0, manager)
    ≡ ((0, deactivate 5 manager), conflict)
commit_with_retry-dependent_example =
    commit_with_retry-dependent counting (λ n t. t) stale (some (1 ∷ [])) 0 manager refl
      stale_version

no_cycle : has_cycle manager.ssi_tracker 5 ≡ false
unfolding has_cycle
no_cycle = refl

commit_with_retry-quiet_example :
    (commit_with_retry counting
      (λ n t. t)
      (record stale { has_dependent_reads = false })
      (some (1 ∷ []))
      (0, manager)).1
    ≡ committed
commit_with_retry-quiet_example =
    commit_with_retry-quiet counting (record stale { has_dependent_reads = false }) (1 ∷ [])
      (0, manager) (λ t. refl) (omega arith) refl no_cycle

abbrev page_lock : PredicateLock
page_lock = record {
  tx_id = 4;
  granularity = page_granularity;
  db_name = "db";
  table_name = "t";
  page_id = 7;
  tuple_id = 0;
}

check_conflict_iff_example :
    (check_conflict (page_lock ∷ []) 5 "db" "t" 7 2 ≡ true)
    ↔ Any (Blocks 5 "db" "t" 7 2) (page_lock ∷ [])
check_conflict_iff_example = check_conflict_iff (page_lock ∷ []) 5 "db" "t" 7 2

has_cycle_iff_example :
    (has_cycle (record_all ((1, 2) ∷ (2, 3) ∷ [])) 2 ≡ true)
    ↔ (Some (λ c. c.1 ≡ 2) ((1, 2) ∷ (2, 3) ∷ []) × Some (λ c. c.0 ≡ 2) ((1, 2) ∷ (2, 3) ∷ []))
has_cycle_iff_example = has_cycle_iff ((1, 2) ∷ (2, 3) ∷ []) 2

-- ===== src/Occ/Versions.antt =====
-- server/internal/core/txmanager/manager.go: Commit sees every change of a table behind its first access.
use Prim.Native.String.{String}
use text.Mathlib.Text.{◌==◌ as str_eq}
use text.Mathlib.TextEquality.{eq_iff}
use mathlib.Core.Path.{subst}
use mathlib.Core.Option.{some_inj}
use pro_labs.Common.{
  ℕ, ◌<◌, ◌≡◌, ◌≢◌, inl, inr, refl, sym, ◌∙◌, ap, Bool, true, false, Option, none, some, List, [],
  ◌∷◌, ◌==◌, All, if◌then◌else◌, arith, Bool-cases, Option-cases, find, find-put, find-put_ne,
}
use pro_labs.Occ.{
  Manager, Transaction, u64, deactivate, table_version, record_access, is_current, has_cycle,
  Applier, conflict, commit,
}
use pro_labs.Occ.Active.{without_gone}
use pro_labs.Occ.Events.{Event, act, act_all, bump_count, table_version-act_all}

both : (c r : Bool) → (if c then r else false) ≡ true → (c ≡ true) × (r ≡ true)
both true r h = (refl, h)
both false r h = absurd (cc h)

is_current-find :
    (m : Manager) (snapshots : List (String × ℕ)) (table : String) (v : ℕ)
    → find table snapshots ≡ some v
    → is_current m snapshots ≡ true
    → table_version m table ≡ v
unfolding is_current
is_current-find m [] table v e h = absurd (cc e)
is_current-find m ((t, w) ∷ snapshots) table v e h =
    let (now, rest) = both (table_version m t == w) (is_current m snapshots) h in
    elim (Bool-cases (str_eq t table)) [
      | inl same ↦
          let k : w ≡ v =
            some_inj.0
              (subst (λ b. (if b then some w else find table snapshots) ≡ some v) same e) in
          ap (table_version m) (sym ((eq_iff t table).0 same)) ∙ ground (arith, now, k)
      | inr other ↦
          is_current-find m snapshots table v
            (subst (λ b. (if b then some w else find table snapshots) ≡ some v) other e) rest
    ]

record_access-find :
    (m : Manager) (tx : Transaction) (table : String)
    → find table tx.table_snapshots ≡ none
    → find table (record_access m tx table).table_snapshots ≡ some (table_version m table)
unfolding record_access
record_access-find m tx table e = rw e (find-put table (table_version m table) tx.table_snapshots)

-- A version that a transaction has recorded stays as it is at every later access, of any table.
record_access-find_kept :
    (m : Manager) (tx : Transaction) (table other : String) (v : ℕ)
    → find table tx.table_snapshots ≡ some v
    → find table (record_access m tx other).table_snapshots ≡ some v
unfolding record_access
record_access-find_kept m tx table other v e = elim (Option-cases (find other tx.table_snapshots)) [
  | inl absent ↦
      let ne : other ≢ table =
        λ same. absurd (cc (ap (λ x. find x tx.table_snapshots) same, absent, e)) in
      rw absent (find-put_ne other table (table_version m other) tx.table_snapshots ne ∙ e)
  | inr (w, present) ↦ rw present e
]

-- What happens between two calls of a transaction: another session does something, or the transaction
-- accesses a table, by RecordAccess or by AddOp.
pub data Step : Type 0 where
  others : Event → Step
  accesses : String → Step

abbrev pub step : Step → Manager × Transaction → Manager × Transaction
step (others e) (m, tx) = (act e m, tx)
step (accesses table) (m, tx) = (m, record_access m tx table)

abbrev pub step_all : List Step → Manager × Transaction → Manager × Transaction
step_all [] s = s
step_all (x ∷ steps) s = step_all steps (step x s)

abbrev pub events_of : List Step → List Event
events_of [] = []
events_of (others e ∷ steps) = e ∷ events_of steps
events_of (accesses table ∷ steps) = events_of steps

step_all-act_all :
    (steps : List Step) (m : Manager) (tx : Transaction)
    → (step_all steps (m, tx)).0 ≡ act_all (events_of steps) m
step_all-act_all [] m tx = refl
step_all-act_all (others e ∷ steps) m tx = step_all-act_all steps (act e m) tx
step_all-act_all (accesses table ∷ steps) m tx = step_all-act_all steps m (record_access m tx table)

step_all-find :
    (steps : List Step) (m : Manager) (tx : Transaction) (table : String) (v : ℕ)
    → find table tx.table_snapshots ≡ some v
    → find table (step_all steps (m, tx)).1.table_snapshots ≡ some v
step_all-find [] m tx table v e = e
step_all-find (others x ∷ steps) m tx table v e = step_all-find steps (act x m) tx table v e
step_all-find (accesses other ∷ steps) m tx table v e =
    step_all-find steps m (record_access m tx other) table v
      (record_access-find_kept m tx table other v e)

-- A transaction first accesses a table, whose version has 64 bits, and then the other sessions and the
-- transaction itself act in any order, the transaction with further accesses of this and of other tables. If
-- the version of the table was bumped meanwhile, less than 2^64 times, Commit returns a conflict and does
-- not change the store.
pub commit-lost_update :
    {Op Store : Type 0} (applier : Applier Op Store) (m : Manager) (tx : Transaction)
    (table : String) (steps : List Step) (ops : Option (List Op)) (store : Store)
    → find table tx.table_snapshots ≡ none
    → table_version m table < u64
    → 0 < bump_count table (events_of steps)
    → bump_count table (events_of steps) < u64
    → commit applier
        (step_all steps (m, record_access m tx table)).1
        ops
        (store, (step_all steps (m, record_access m tx table)).0)
      ≡ (
        (
          store,
          deactivate
              (step_all steps (m, record_access m tx table)).1.id
              (step_all steps (m, record_access m tx table)).0,
        ),
        conflict,
      )
unfolding commit
commit-lost_update applier m tx table steps ops store e h some_bump few =
    let own = record_access m tx table in
    let (later, end) = step_all steps (m, own) in
    let recorded =
      step_all-find steps m own table (table_version m table) (record_access-find m tx table e) in
    let version =
      ap (λ (x : Manager). table_version x table) (step_all-act_all steps m own)
      ∙ table_version-act_all (events_of steps) m table h in
    elim (Bool-cases (is_current later end.table_snapshots)) [
      | inl yes1 ↦
          let same = is_current-find later end.table_snapshots table _ recorded yes1 in
          absurd (omega (arith, same, version))
      | inr no1 ↦ elim (Bool-cases (has_cycle later.ssi_tracker end.id)) [
        | inl cycle ↦ rw (cycle) refl
        | inr free ↦ rw (free, no1) refl
      ]
    ]

-- After Commit, whatever it returns, the transaction is not active.
pub commit_inactive :
    {Op Store : Type 0} (applier : Applier Op Store) (tx : Transaction) (ops : Option (List Op))
    (s : Store × Manager)
    → All (λ (x : ℕ × List ℕ). x.0 ≢ tx.id) (commit applier tx ops s).0.1.active_txs
unfolding commit deactivate
commit_inactive applier tx ops s = without_gone tx.id _

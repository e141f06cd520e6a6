-- ===== src/Occ/Predicates.antt =====
-- server/internal/core/txmanager/predicate_lock.go and ssi.go: predicate locks and read-write conflicts.
use Prim.Native.String.{String}
use text.Mathlib.Text.{◌==◌ as str_eq}
use text.Mathlib.TextEquality.{eq_iff}
use pro_labs.Common.{
  and_iff, or_iff, ℕ, ◌≡◌, ◌≢◌, ◌↔◌, ◌⊎◌, inl, inr, refl, sym, ◌∙◌, Bool, true, false, List, [],
  ◌∷◌, ◌++◌, ◌&&◌, ◌||◌, not, ◌==◌, if◌then◌else◌, arith,
}
use pro_labs.Occ.{SsiTracker, record_rw_conflict, has_cycle, member}

pub data LockGranularity : Type 0 where
  tuple_granularity : LockGranularity
  page_granularity : LockGranularity
  relation_granularity : LockGranularity

pub record PredicateLock : Type 0 where
  pub tx_id : ℕ
  pub granularity : LockGranularity
  pub db_name : String
  pub table_name : String
  pub page_id : ℕ
  pub tuple_id : ℕ

pub acquire_siread_lock : ℕ → PredicateLock → List PredicateLock → List PredicateLock
acquire_siread_lock tx lock locks = locks ++ (record lock { tx_id = tx } ∷ [])

-- The switch of CheckConflict.
pub covers : LockGranularity → PredicateLock → ℕ → ℕ → Bool
covers relation_granularity lock page tuple = true
covers page_granularity lock page tuple = lock.page_id == page
covers tuple_granularity lock page tuple = (lock.page_id == page) && (lock.tuple_id == tuple)

pub check_conflict : List PredicateLock → ℕ → String → String → ℕ → ℕ → Bool
check_conflict [] tx db table page tuple = false
check_conflict (lock ∷ locks) tx db table page tuple =
    let rest = check_conflict locks tx db table page tuple in
    if lock.tx_id == tx
    then rest
    else if not (str_eq lock.db_name db) || not (str_eq lock.table_name table)
    then rest
    else if covers lock.granularity lock page tuple
    then true
    else rest

-- The places that a lock stands for.
abbrev pub Region : LockGranularity → PredicateLock → ℕ → ℕ → Type 0
Region relation_granularity lock page tuple = Unit
Region page_granularity lock page tuple = lock.page_id ≡ page
Region tuple_granularity lock page tuple = (lock.page_id ≡ page) × (lock.tuple_id ≡ tuple)

-- A lock of another transaction on a region of the table with the tuple in it.
pub record Blocks (tx : ℕ) (db table : String) (page tuple : ℕ) (lock : PredicateLock)
    : Type 0 where
  pub other : lock.tx_id ≢ tx
  pub in_db : lock.db_name ≡ db
  pub in_table : lock.table_name ≡ table
  pub region : Region lock.granularity lock page tuple

-- Some lock of a list does.
abbrev pub Any : (PredicateLock → Type 0) → List PredicateLock → Type 0
Any P [] = ⊥
Any P (lock ∷ locks) = P lock ⊎ Any P locks

covers_iff :
    (g : LockGranularity) (lock : PredicateLock) (page tuple : ℕ)
    → (covers g lock page tuple ≡ true) ↔ Region g lock page tuple
unfolding covers
covers_iff relation_granularity lock page tuple = (λ h. tt, λ h. refl)
covers_iff page_granularity lock page tuple = ground arith
covers_iff tuple_granularity lock page tuple = ground arith

-- The test for one lock.
abbrev blocks : ℕ → String → String → ℕ → ℕ → PredicateLock → Bool
blocks tx db table page tuple lock =
    not (lock.tx_id == tx)
    && (str_eq lock.db_name db
        && (str_eq lock.table_name table && covers lock.granularity lock page tuple))

blocks-Blocks :
    (tx : ℕ) (db table : String) (page tuple : ℕ) (lock : PredicateLock)
    → (blocks tx db table page tuple lock ≡ true) ↔ Blocks tx db table page tuple lock
blocks-Blocks tx db table page tuple lock =
    let own = not (lock.tx_id == tx) in
    let d = str_eq lock.db_name db in
    let t = str_eq lock.table_name table in
    let r = covers lock.granularity lock page tuple in
    let all = and_iff own (d && (t && r)) in
    let most = and_iff d (t && r) in
    let last = and_iff t r in
    (
      λ h.
          let (a, h1) = all.0 h in
          let (b, h2) = most.0 h1 in
          let (c, e) = last.0 h2 in
          record {
            other = ground (arith, a);
            in_db = (eq_iff lock.db_name db).0 b;
            in_table = (eq_iff lock.table_name table).0 c;
            region = (covers_iff lock.granularity lock page tuple).0 e;
          },
      λ v.
          let a : own ≡ true = ground (arith, v.other) in
          let b = (eq_iff lock.db_name db).1 v.in_db in
          let c = (eq_iff lock.table_name table).1 v.in_table in
          let e = (covers_iff lock.granularity lock page tuple).1 v.region in
          all.1 (a, most.1 (b, last.1 (c, e))),
    )

choice :
    (own no_db no_table hit rest : Bool)
    → (if own then rest else if not no_db || not no_table then rest else if hit then true else rest)
      ≡ ((not own && (no_db && (no_table && hit))) || rest)
choice true no_db no_table hit rest = refl
choice false false no_table hit rest = refl
choice false true false hit rest = refl
choice false true true true rest = refl
choice false true true false rest = refl

-- CheckConflict answers yes exactly if another transaction holds a lock on the table, the page or the
-- tuple.
pub check_conflict_iff :
    (locks : List PredicateLock) (tx : ℕ) (db table : String) (page tuple : ℕ)
    → (check_conflict locks tx db table page tuple ≡ true)
      ↔ Any (Blocks tx db table page tuple) locks
unfolding check_conflict
check_conflict_iff [] tx db table page tuple = (λ h. absurd (cc h), λ h. absurd h)
check_conflict_iff (lock ∷ locks) tx db table page tuple =
    let rest = check_conflict_iff locks tx db table page tuple in
    let here = blocks-Blocks tx db table page tuple lock in
    let e =
      choice (lock.tx_id == tx) (str_eq lock.db_name db) (str_eq lock.table_name table)
        (covers lock.granularity lock page tuple) (check_conflict locks tx db table page tuple) in
    let either =
      or_iff (blocks tx db table page tuple lock) (check_conflict locks tx db table page tuple) in
    (
      λ h. elim (either.0 (sym e ∙ h)) [ inl a ↦ inl (here.0 a) | inr b ↦ inr (rest.0 b) ],
      λ h. e ∙ either.1 (elim h [ inl a ↦ inl (here.1 a) | inr b ↦ inr (rest.1 b) ]),
    )

-- The calls of RecordRWConflict, reader first.
abbrev pub record_all : List (ℕ × ℕ) → SsiTracker
record_all [] = record { in_conflict = []; out_conflict = [] }
record_all ((reader, writer) ∷ conflicts) = record_rw_conflict reader writer (record_all conflicts)

-- `P` holds of some recorded conflict.
abbrev pub Some : (ℕ × ℕ → Type 0) → List (ℕ × ℕ) → Type 0
Some P [] = ⊥
Some P (c ∷ conflicts) = P c ⊎ Some P conflicts

in_conflict_iff :
    (conflicts : List (ℕ × ℕ)) (tx : ℕ)
    → (member tx (record_all conflicts).in_conflict ≡ true) ↔ Some (λ c. c.1 ≡ tx) conflicts
unfolding record_rw_conflict
in_conflict_iff [] tx = (λ h. absurd (cc h), λ h. absurd h)
in_conflict_iff ((reader, writer) ∷ conflicts) tx =
    let rest = in_conflict_iff conflicts tx in
    let either = or_iff (writer == tx) (member tx (record_all conflicts).in_conflict) in
    (
      λ h. elim (either.0 h) [ inl a ↦ inl (ground (arith, a)) | inr b ↦ inr (rest.0 b) ],
      λ h. either.1 (elim h [ inl a ↦ inl (ground (arith, a)) | inr b ↦ inr (rest.1 b) ]),
    )

out_conflict_iff :
    (conflicts : List (ℕ × ℕ)) (tx : ℕ)
    → (member tx (record_all conflicts).out_conflict ≡ true) ↔ Some (λ c. c.0 ≡ tx) conflicts
unfolding record_rw_conflict
out_conflict_iff [] tx = (λ h. absurd (cc h), λ h. absurd h)
out_conflict_iff ((reader, writer) ∷ conflicts) tx =
    let rest = out_conflict_iff conflicts tx in
    let either = or_iff (reader == tx) (member tx (record_all conflicts).out_conflict) in
    (
      λ h. elim (either.0 h) [ inl a ↦ inl (ground (arith, a)) | inr b ↦ inr (rest.0 b) ],
      λ h. either.1 (elim h [ inl a ↦ inl (ground (arith, a)) | inr b ↦ inr (rest.1 b) ]),
    )

-- HasCycle says yes exactly of a transaction that was the writer of one recorded conflict and the reader
-- of one.
pub has_cycle_iff :
    (conflicts : List (ℕ × ℕ)) (tx : ℕ)
    → (has_cycle (record_all conflicts) tx ≡ true)
      ↔ (Some (λ c. c.1 ≡ tx) conflicts × Some (λ c. c.0 ≡ tx) conflicts)
unfolding has_cycle
has_cycle_iff conflicts tx =
    let ins = in_conflict_iff conflicts tx in
    let outs = out_conflict_iff conflicts tx in
    (
      λ h. let (a, b) = (and_iff _ _).0 h in (ins.0 a, outs.0 b),
      λ h. (and_iff _ _).1 (ins.1 h.0, outs.1 h.1),
    )

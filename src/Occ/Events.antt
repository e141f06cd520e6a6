-- ===== src/Occ/Events.antt =====
-- server/internal/core/txmanager/manager.go: what other sessions do, and the versions of tables.
use Prim.Native.String.{String}
use text.Mathlib.Text.{◌==◌ as str_eq}
use text.Mathlib.TextEquality.{eq_iff}
use text.Mathlib.TextPositions.{eq_refl}
use pro_labs.Common.{
  ℕ, ◌+◌, ◌%◌, ◌<◌, ◌≡◌, ◌≢◌, inl, inr, refl, List, [], ◌∷◌, if◌then◌else◌, leb, arith, Bool-cases,
  if-cases, find, find-put, find-put_ne,
}
use pro_labs.Occ.{
  Manager, u64, begin, deactivate, bump_table_version, table_version, or_zero,
  ensure_counter_at_least, record_rw_conflict,
}

-- What other sessions do to the manager.
pub data Event : Type 0 where
  begins : Event
  bumps : String → Event
  leaves : ℕ → Event
  ensures : ℕ → Event
  conflicts : ℕ → ℕ → Event

abbrev pub act : Event → Manager → Manager
act begins m = (begin m).0
act (bumps table) m = bump_table_version m table
act (leaves id) m = deactivate id m
act (ensures n) m = ensure_counter_at_least n m
act (conflicts reader writer) m = record m {
  ssi_tracker = record_rw_conflict reader writer m.ssi_tracker;
}

abbrev pub act_all : List Event → Manager → Manager
act_all [] m = m
act_all (e ∷ events) m = act_all events (act e m)

-- How often a table is bumped.
abbrev pub bump : String → Event → ℕ
bump table (bumps t) = if str_eq t table then 1 else 0
bump table _ = 0

abbrev pub bump_count : String → List Event → ℕ
bump_count table [] = 0
bump_count table (e ∷ events) = bump table e + bump_count table events

table_version-bump :
    (m : Manager) (t table : String)
    → table_version m table < u64
    → table_version (bump_table_version m t) table
      ≡ (table_version m table + (if str_eq t table then 1 else 0)) % u64
unfolding table_version bump_table_version
table_version-bump m t table h = elim (Bool-cases (str_eq t table)) [
  | inl same ↦
      let e : t ≡ table = (eq_iff t table).0 same in
      rw e (
        rw
          (
            find-put table ((or_zero (find table m.table_versions) + 1) % u64) m.table_versions,
            eq_refl table,
          )
          refl)
  | inr other ↦
      let ne : t ≢ table = λ e. absurd (cc (other, (eq_iff t table).1 e)) in
      rw
        (
          find-put_ne t table ((or_zero (find t m.table_versions) + 1) % u64) m.table_versions ne,
          other,
        )
        (omega arith)
]

table_version-act :
    (e : Event) (m : Manager) (table : String)
    → table_version m table < u64
    → table_version (act e m) table ≡ (table_version m table + bump table e) % u64
unfolding table_version begin deactivate ensure_counter_at_least
table_version-act begins m table h = omega arith
table_version-act (bumps t) m table h = table_version-bump m t table h
table_version-act (leaves id) m table h = omega arith
table_version-act (ensures n) m table h =
    if-cases (λ (c : Manager). table_version c table ≡ (table_version m table + 0) % u64)
      (leb n m.counter) (λ e. omega arith) (λ e. omega arith)
table_version-act (conflicts reader writer) m table h = omega arith

-- The version of a table counts the bumps of it, and wraps at 2^64.
pub table_version-act_all :
    (events : List Event) (m : Manager) (table : String)
    → table_version m table < u64
    → table_version (act_all events m) table
      ≡ (table_version m table + bump_count table events) % u64
table_version-act_all [] m table h = omega arith
table_version-act_all (e ∷ events) m table h =
    let one = table_version-act e m table h in
    omega (arith, one, table_version-act_all events (act e m) table (omega (arith, one)))

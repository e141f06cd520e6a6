-- ===== src/Deadlock/Detect.antt =====
-- server/internal/core/storage/deadlock.go: detectCycle decides whether there is a deadlock that the
-- start is in or waits for; so the detector keeps its graph free of deadlocks.
use pro_labs.Common.{
  ℕ, ◌+◌, ◌≤◌, ◌≡◌, ◌↔◌, ◌⊎◌, inl, inr, refl, Bool, true, false, Option, none, some, length, arith,
}
use mathlib.Core.Path.{subst}
use pro_labs.Deadlock.{Graph, Marks, dfs, unmarked, targets, detect_cycle, add_edge}
use pro_labs.Deadlock.Walks.{Waits, Walk, start, onward, Deadlocked, IsAcyclic}
use pro_labs.Deadlock.Edges.{Waits-add_edge}
use pro_labs.Deadlock.Dfs.{Settled, Ranked, Inv, Kept, Outcome}
use pro_labs.Deadlock.Settle.{dfs_outcome}
use pro_labs.Deadlock.Fuel.{Ends, dfs-start-Ends}

unmarked-Inv : (g : Graph) (root : ℕ) → Inv g root root unmarked
unfolding unmarked
unmarked-Inv g root = record {
  came = start;
  stack_seen = λ u h. h;
  stack_waits = λ u h. cc;
  ranked = record {
    rank = λ u. 0;
    next = 0;
    below = λ u s. cc s.seen;
    closed = λ u v s e. cc s.seen;
    falls = λ u v s e. cc s.seen;
  };
}

-- From a settled node every walk goes down to settled nodes.
Walk-down :
    (g : Graph) (m : Marks) (r : Ranked g m) (u v : ℕ)
    → Settled m u
    → Walk g u v
    → Settled m v × (r.rank v ≤ r.rank u)
Walk-down g m r u v s start = (s, omega arith)
Walk-down g m r u v s (onward {v = w} p e) =
    let d = Walk-down g m r u w s p in (r.closed w v d.0 e, omega (arith, d.1, r.falls w v d.0 e))

Ranked-not-Deadlocked :
    (g : Graph) (m : Marks) (root : ℕ) → Ranked g m → Settled m root → ¬ Deadlocked g root
Ranked-not-Deadlocked g m root r s d =
    let at = (Walk-down g m r root d.at s d.reached).0 in
    let next = r.closed d.at d.next at d.waits in
    omega (arith, r.falls d.at d.next at d.waits, (Walk-down g m r d.next d.at next d.back).1)

-- What detectCycle answers, from what its search leaves.
abbrev pub Decides : Graph → ℕ → Option Bool → Type 0
Decides g root none = ⊥
Decides g root (some found) = (found ≡ true) ↔ Deadlocked g root

answer : Option (Bool × Marks) → Option Bool
answer r = elim r [ none ↦ none | some (found, m) ↦ some found ]

answer-Decides :
    (g : Graph) (root : ℕ) (r : Option (Bool × Marks))
    → Ends unmarked r
    → Outcome g root (λ m. Kept g unmarked m × Settled m root) r
    → Decides g root (answer r)
unfolding answer
answer-Decides g root none e o = e
answer-Decides g root (some (true, m)) e o = (λ _. o, λ _. refl)
answer-Decides g root (some (false, m)) e o =
    (λ h. cc, λ d. absurd (Ranked-not-Deadlocked g m root o.0.ranked o.1 d))

-- detectCycle ends, and answers true exactly when the start is in a deadlock or waits for one.
pub detect_cycle-Decides : (g : Graph) (root : ℕ) → Decides g root (detect_cycle g root)
unfolding detect_cycle answer unmarked
detect_cycle-Decides g root =
    answer-Decides g root (dfs (length (targets g) + 2) g root unmarked) (dfs-start-Ends g root)
      (dfs_outcome (length (targets g) + 2) g root root unmarked (unmarked-Inv g root) fresh)
  where
    fresh : unmarked.visited root ≡ false
    fresh = refl

-- In the graph with one more wait, a walk is one of the old graph or passes through the waiter.
old_or_through :
    (g : Graph) (waiter holder u v : ℕ)
    → Walk (add_edge g waiter holder) u v
    → Walk g u v ⊎ Walk (add_edge g waiter holder) waiter v
old_or_through g waiter holder u v start = inl start
old_or_through g waiter holder u v (onward {v = w} p e) =
    elim ((Waits-add_edge g waiter holder w v).0 e) [
      | inl old ↦ elim (old_or_through g waiter holder u w p) [
        | inl q ↦ inl (onward q old)
        | inr q ↦ inr (onward q e)
      ]
      | inr new ↦ inr (onward start (subst (λ x. Waits (add_edge g waiter holder) x v) new.0 e))
    ]

-- A deadlock of the new graph is an old one, or the waiter is in it or waits for it.
add_edge-Deadlocked :
    (g : Graph) (waiter holder u : ℕ)
    → IsAcyclic g
    → Deadlocked (add_edge g waiter holder) u
    → Deadlocked (add_edge g waiter holder) waiter
add_edge-Deadlocked g waiter holder u none_before d =
    elim (old_or_through g waiter holder d.next d.at d.back) [
      | inr through ↦ through_waiter through
      | inl old ↦ elim ((Waits-add_edge g waiter holder d.at d.next).0 d.waits) [
        | inl e ↦ absurd (
            none_before d.at
              (record { at = d.at; next = d.next; reached = start; waits = e; back = old }))
        | inr new ↦ through_waiter (subst (λ x. Walk (add_edge g waiter holder) x d.at) new.0 start)
      ]
    ]
  where
    through_waiter :
        Walk (add_edge g waiter holder) waiter d.at → Deadlocked (add_edge g waiter holder) waiter
    through_waiter w = record {
      at = d.at;
      next = d.next;
      reached = w;
      waits = d.waits;
      back = d.back;
    }

-- While the graph has no deadlock, AddEdge answers false only if the new graph has none either.
pub add_edge-IsAcyclic :
    (g : Graph) (waiter holder : ℕ)
    → IsAcyclic g
    → detect_cycle (add_edge g waiter holder) waiter ≡ some false
    → IsAcyclic (add_edge g waiter holder)
add_edge-IsAcyclic g waiter holder none_before e u d =
    let decides =
      subst (Decides (add_edge g waiter holder) waiter) e
        (detect_cycle-Decides (add_edge g waiter holder) waiter) in
    let clash : false ≡ true = decides.1 (add_edge-Deadlocked g waiter holder u none_before d) in
    cc clash

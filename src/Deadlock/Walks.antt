-- ===== src/Deadlock/Walks.antt =====
-- server/internal/core/storage/deadlock.go: what a wait and a deadlock are, independent of the search.
use pro_labs.Common.{ℕ, ◌≡◌, refl, Bool, true, false, List, [], ◌∷◌, ◌++◌, ◌||◌, ◌==◌, arith}
use pro_labs.Deadlock.{Graph, edges}

abbrev pub elem : ℕ → List ℕ → Bool
elem v [] = false
elem v (h ∷ hs) = h == v || elem v hs

-- `u` waits for `v`.
abbrev pub Waits : Graph → ℕ → ℕ → Type 0
Waits g u v = elem v (edges g u) ≡ true

-- `u` waits for `v` through any number of others, or is `v`.
pub data Walk (g : Graph) (u : ℕ) : ℕ → Type 0 where
  start : Walk g u u
  onward : {v w : ℕ} → Walk g u v → Waits g v w → Walk g u w

-- A deadlock that `u` is in or waits for: a transaction that waits for itself.
pub record Deadlocked (g : Graph) (u : ℕ) : Type 0 where
  pub at : ℕ
  pub next : ℕ
  pub reached : Walk g u at
  pub waits : Waits g at next
  pub back : Walk g next at

pub Walk-trans : {g : Graph} {u v w : ℕ} → Walk g u v → Walk g v w → Walk g u w
Walk-trans p start = p
Walk-trans p (onward q e) = onward (Walk-trans p q) e

abbrev pub IsAcyclic : Graph → Type 0
IsAcyclic g = (u : ℕ) → ¬ Deadlocked g u

pub elem-append : (v : ℕ) (xs ys : List ℕ) → elem v (xs ++ ys) ≡ (elem v xs || elem v ys)
elem-append v [] ys = refl
elem-append v (x ∷ xs) ys = ground (arith, elem-append v xs ys)

-- ===== src/Fsm/Tree.antt =====
-- server/internal/core/storage/fsm/fsm.go: the invariant of the tree, and what it says of the root.
use pro_labs.Common.{
  ℕ, zero, suc, ◌+◌, ◌-◌, ◌*◌, ◌/◌, ◌≤◌, ◌<◌, ◌≡◌, ◌≢◌, ◌⊎◌, inl, inr, ap, List, arith, length, set,
  get_or-set, length-set,
}
use native.Mathlib.Decide.{dec_lt}
use pro_labs.Fsm.{Fsm, at, leaf_start, max8, rebuild_from, rebuild_internal, u32}
use pro_labs.Fsm.Arith.{le-max8_left, le-max8_right}

-- Node `i` holds the larger value of its children.
abbrev pub IsMax : List ℕ → ℕ → Type 0
IsMax nodes i = at nodes i ≡ max8 (at nodes (2 * i)) (at nodes (2 * i + 1))

-- The slice has two halves: node 0 and the inner nodes, then the leaves.
abbrev pub Halves : List ℕ → ℕ → Type 0
Halves nodes capacity = (length nodes ≡ 2 * capacity) × (1 ≤ capacity)

abbrev pub AllMax : List ℕ → ℕ → Type 0
AllMax nodes capacity = (i : ℕ) → 1 ≤ i → i < capacity → IsMax nodes i

pub record IsTree (f : Fsm) : Type 0 where
  pub halves : Halves f.nodes (leaf_start f.nodes)
  pub short : length f.nodes < u32
  pub inner : AllMax f.nodes (leaf_start f.nodes)
  pub tracked : f.n_pages ≤ leaf_start f.nodes
  pub vacant :
      (p : ℕ) → f.n_pages ≤ p → p < leaf_start f.nodes → at f.nodes (leaf_start f.nodes + p) ≡ 0

-- A write at node `i` leaves every node alone whose own place and children are elsewhere.
pub set-IsMax :
    (nodes : List ℕ) (i j v : ℕ)
    → i < length nodes
    → 1 ≤ j
    → i ≢ j
    → i ≢ 2 * j
    → i ≢ 2 * j + 1
    → IsMax nodes j
    → IsMax (set nodes i v) j
set-IsMax nodes i j v hi hj a b c e = ground (
  arith,
  get_or-set nodes i j v 0 hi,
  get_or-set nodes i (2 * j) v 0 hi,
  get_or-set nodes i (2 * j + 1) v 0 hi,
)

-- The write that mends node `i`.
pub mend-IsMax :
    (nodes : List ℕ) (i : ℕ)
    → 1 ≤ i
    → i < length nodes
    → IsMax (set nodes i (max8 (at nodes (2 * i)) (at nodes (2 * i + 1)))) i
mend-IsMax nodes i h hi =
    let v = max8 (at nodes (2 * i)) (at nodes (2 * i + 1)) in
    ground (
      arith,
      get_or-set nodes i i v 0 hi,
      get_or-set nodes i (2 * i) v 0 hi,
      get_or-set nodes i (2 * i + 1) v 0 hi,
    )

pub length-rebuild_from : (i : ℕ) (nodes : List ℕ) → length (rebuild_from i nodes) ≡ length nodes
unfolding rebuild_from
length-rebuild_from zero nodes = omega arith
length-rebuild_from (suc i) nodes =
    let v = max8 (at nodes (2 * suc i)) (at nodes (2 * suc i + 1)) in
    omega (arith, length-rebuild_from i (set nodes (suc i) v), length-set nodes (suc i) v)

pub rebuild_from-keeps :
    (i : ℕ) (nodes : List ℕ) (j : ℕ)
    → i < length nodes
    → i < j
    → at (rebuild_from i nodes) j ≡ at nodes j
unfolding rebuild_from
rebuild_from-keeps zero nodes j h k = omega arith
rebuild_from-keeps (suc i) nodes j h k =
    let v = max8 (at nodes (2 * suc i)) (at nodes (2 * suc i + 1)) in
    ground (
      arith,
      length-set nodes (suc i) v,
      rebuild_from-keeps i (set nodes (suc i) v) j,
      get_or-set nodes (suc i) j v 0 h,
    )

pub rebuild_from-IsMax :
    (i : ℕ) (nodes : List ℕ) (capacity : ℕ)
    → Halves nodes capacity
    → i < capacity
    → ((j : ℕ) → i < j → j < capacity → IsMax nodes j)
    → AllMax (rebuild_from i nodes) capacity
unfolding rebuild_from
rebuild_from-IsMax zero nodes capacity h lt done = done
rebuild_from-IsMax (suc i) nodes capacity h lt done =
    let v = max8 (at nodes (2 * suc i)) (at nodes (2 * suc i + 1)) in
    let size = length-set nodes (suc i) v in
    rebuild_from-IsMax i (set nodes (suc i) v) capacity (omega (arith, size), h.1) (omega arith)
      (λ j p q. grind (
        arith,
        mend-IsMax nodes (suc i) (omega arith) (omega arith),
        set-IsMax nodes (suc i) j v (omega arith),
        done j,
      ))

-- A node is at most its parent.
child-le : (nodes : List ℕ) (i : ℕ) → IsMax nodes (i / 2) → at nodes i ≤ at nodes (i / 2)
child-le nodes i m =
    let j = i / 2 in
    let whole : (i ≡ 2 * j) ⊎ (i ≡ 2 * j + 1) = omega arith in
    elim whole [
      | inl e ↦
          omega (arith, ap (at nodes) e, m, le-max8_left (at nodes (2 * j)) (at nodes (2 * j + 1)))
      | inr e ↦
          omega (arith, ap (at nodes) e, m, le-max8_right (at nodes (2 * j)) (at nodes (2 * j + 1)))
    ]

-- Walking up from any node, the values only grow: the root holds the largest.
root_largest_below :
    (k : ℕ) (nodes : List ℕ) (capacity i : ℕ)
    → AllMax nodes capacity
    → i < k
    → 1 ≤ i
    → i < 2 * capacity
    → at nodes i ≤ at nodes 1
root_largest_below zero nodes capacity i h f p q = absurd (omega arith)
root_largest_below (suc k) nodes capacity i h f p q = elim (dec_lt 1 i) [
  | yes more ↦ omega (
    arith,
    child-le nodes i (h (i / 2) (omega arith) (omega arith)),
    root_largest_below k nodes capacity (i / 2) h (omega arith) (omega arith) (omega arith),
  )
  | no one ↦ let e : i ≡ 1 = omega arith in omega (arith, ap (at nodes) e)
]

pub root_largest :
    (nodes : List ℕ) (capacity i : ℕ)
    → AllMax nodes capacity
    → 1 ≤ i
    → i < 2 * capacity
    → at nodes i ≤ at nodes 1
root_largest nodes capacity i h p q =
    root_largest_below (suc i) nodes capacity i h (omega arith) p q

-- What rebuildInternal makes of a slice of two halves.
pub record Rebuilt (nodes : List ℕ) (capacity : ℕ) : Type 0 where
  pub size : length (rebuild_internal nodes) ≡ 2 * capacity
  pub half : leaf_start (rebuild_internal nodes) ≡ capacity
  pub inner : AllMax (rebuild_internal nodes) capacity
  pub leaves : (j : ℕ) → capacity ≤ j → at (rebuild_internal nodes) j ≡ at nodes j

pub rebuild_internal-Rebuilt :
    (nodes : List ℕ) (capacity : ℕ) → Halves nodes capacity → Rebuilt nodes capacity
unfolding rebuild_internal
rebuild_internal-Rebuilt nodes capacity h =
    let top = leaf_start nodes - 1 in
    let size = length-rebuild_from top nodes in
    record {
      size = omega (arith, size);
      half = omega (arith, size);
      inner = rebuild_from-IsMax top nodes capacity h (omega arith) (λ j p q. absurd (omega arith));
      leaves = λ j p. rebuild_from-keeps top nodes j (omega arith) (omega arith);
    }

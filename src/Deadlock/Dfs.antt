-- ===== src/Deadlock/Dfs.antt =====
-- server/internal/core/storage/deadlock.go: what the depth-first search of detectCycle knows, and
-- what its loop over the neighbors keeps. A node
-- is settled when it is visited and no longer on the stack. Settled nodes wait for settled nodes of
-- a lower rank only: so no deadlock is among them.
use pro_labs.Common.{
  ℕ, ◌<◌, ◌≡◌, inl, inr, refl, sym, ◌∙◌, Bool, true, false, Option, none, some, List, [], ◌∷◌,
  arith, Bool-cases,
}
use mathlib.Core.Path.{subst}
use native.Mathlib.Decide.{ℕ_discrete}
use pro_labs.Deadlock.{Graph, Marks, proceed, scan}
use pro_labs.Deadlock.Walks.{Waits, Walk, onward, Deadlocked, elem}

-- A settled node.
pub record Settled (m : Marks) (u : ℕ) : Type 0 where
  pub seen : m.visited u ≡ true
  pub off : m.stacked u ≡ false

pub record Ranked (g : Graph) (m : Marks) : Type 0 where
  pub rank : ℕ → ℕ
  pub next : ℕ
  pub below : (u : ℕ) → Settled m u → rank u < next
  pub closed : (u v : ℕ) → Settled m u → Waits g u v → Settled m v
  pub falls : (u v : ℕ) → Settled m u → Waits g u v → rank v < rank u

-- What holds while the search stands at `node`, having come from `root`.
pub record Inv (g : Graph) (root node : ℕ) (m : Marks) : Type 0 where
  pub came : Walk g root node
  pub stack_seen : (u : ℕ) → m.stacked u ≡ true → m.visited u ≡ true
  pub stack_waits : (u : ℕ) → m.stacked u ≡ true → Walk g u node
  pub ranked : Ranked g m

-- What a search that finds nothing leaves: the same stack, and at least the same visits.
pub record Kept (g : Graph) (m m' : Marks) : Type 0 where
  pub same_stack : (u : ℕ) → m'.stacked u ≡ m.stacked u
  pub more_seen : (u : ℕ) → m.visited u ≡ true → m'.visited u ≡ true
  pub ranked : Ranked g m'
  pub stack_seen : (u : ℕ) → m'.stacked u ≡ true → m'.visited u ≡ true

-- The outcomes of a search that has not run out of fuel; `Q` is what is known of the marks if it
-- found nothing.
abbrev pub Outcome : Graph → ℕ → (Marks → Type 0) → Option (Bool × Marks) → Type 0
Outcome g root Q none = Unit
Outcome g root Q (some (true, m')) = Deadlocked g root
Outcome g root Q (some (false, m')) = Q m'

Outcome-map :
    (g : Graph) (root : ℕ) (Q R : Marks → Type 0)
    → ((m : Marks) → Q m → R m)
    → (r : Option (Bool × Marks)) → Outcome g root Q r
    → Outcome g root R r
Outcome-map g root Q R f none o = tt
Outcome-map g root Q R f (some (true, m)) o = o
Outcome-map g root Q R f (some (false, m)) o = f m o

pub Kept-trans : {g : Graph} {a b c : Marks} → Kept g a b → Kept g b c → Kept g a c
Kept-trans p q = record {
  same_stack = λ u. q.same_stack u ∙ p.same_stack u;
  more_seen = λ u h. q.more_seen u (p.more_seen u h);
  ranked = q.ranked;
  stack_seen = q.stack_seen;
}

refl-Kept : {g : Graph} {root node : ℕ} {m : Marks} → Inv g root node m → Kept g m m
refl-Kept v = record {
  same_stack = λ u. refl;
  more_seen = λ u h. h;
  ranked = v.ranked;
  stack_seen = v.stack_seen;
}

Kept-Inv :
    {g : Graph} {root node : ℕ} {m m' : Marks}
    → Inv g root node m
    → Kept g m m'
    → Inv g root node m'
Kept-Inv v k = record {
  came = v.came;
  stack_seen = k.stack_seen;
  stack_waits = λ u h. v.stack_waits u (sym (k.same_stack u) ∙ h);
  ranked = k.ranked;
}

Kept-Settled : {g : Graph} {m m' : Marks} → Kept g m m' → (u : ℕ) → Settled m u → Settled m' u
Kept-Settled k u s = record { seen = k.more_seen u s.seen; off = k.same_stack u ∙ s.off }

-- What `dfs` does for one node: the hypothesis about the calls of the loop.
abbrev pub Searches : Graph → ℕ → (ℕ → Marks → Option (Bool × Marks)) → Type 0
Searches g root go =
    (n : ℕ) (m : Marks)
    → Inv g root n m
    → m.visited n ≡ false
    → Outcome g root (λ m'. Kept g m m' × Settled m' n) (go n m)

abbrev pub AllSettled : Marks → List ℕ → Type 0
AllSettled m ns = (n : ℕ) → elem n ns ≡ true → Settled m n

grow-Settled :
    (m : Marks) (n : ℕ) (ns : List ℕ) → Settled m n → AllSettled m ns → AllSettled m (n ∷ ns)
grow-Settled m n ns s all k h = elim (ℕ_discrete n k) [
  | yes e ↦ subst (Settled m) e s
  | no e ↦ all k (ground arith)
]

-- What the loop does for a list of neighbors, from any marks that satisfy the invariant.
abbrev pub Scans : Graph → ℕ → ℕ → (ℕ → Marks → Option (Bool × Marks)) → List ℕ → Type 0
Scans g root node go ns =
    (m : Marks)
    → Inv g root node m
    → Outcome g root (λ m'. Kept g m m' × AllSettled m' ns) (scan go ns m)

module _ (g : Graph) (root node : ℕ) (go : ℕ → Marks → Option (Bool × Marks)) (n : ℕ) (ns : List ℕ)
    (tail : Scans g root node go ns) (wait : Waits g node n) (m : Marks)
    (v : Inv g root node m) where
  down : Inv g root n m
  down = record {
    came = onward v.came wait;
    stack_seen = v.stack_seen;
    stack_waits = λ u h. onward (v.stack_waits u h) wait;
    ranked = v.ranked;
  }

  -- The loop behind a neighbor that is settled when the loop comes to the marks `m'`.
  resume-Settled :
      (m' : Marks)
      → Kept g m m'
      → Settled m' n
      → Outcome g root (λ m''. Kept g m m'' × AllSettled m'' (n ∷ ns)) (scan go ns m')
  resume-Settled m' k s =
      Outcome-map g root (λ m''. Kept g m' m'' × AllSettled m'' ns)
        (λ m''. Kept g m m'' × AllSettled m'' (n ∷ ns))
        (λ m'' t. (Kept-trans k t.0, grow-Settled m'' n ns (Kept-Settled t.0 n s) t.1))
        (scan go ns m') (tail m' (Kept-Inv v k))

  resume :
      (r : Option (Bool × Marks))
      → Outcome g root (λ m'. Kept g m m' × Settled m' n) r
      → Outcome g root (λ m'. Kept g m m' × AllSettled m' (n ∷ ns)) (proceed (scan go ns) r)
  resume none o = tt
  resume (some (true, m')) o = o
  resume (some (false, m')) o = resume-Settled m' o.0 o.1

module _ (g : Graph) (root node : ℕ) (go : ℕ → Marks → Option (Bool × Marks))
    (each : Searches g root go) where
  pub scan_outcome :
      (ns : List ℕ) → ((n : ℕ) → elem n ns ≡ true → Waits g node n) → Scans g root node go ns
  unfolding scan
  scan_outcome [] sub m v = (refl-Kept v, λ n h. cc)
  scan_outcome (n ∷ ns) sub m v =
      let wait = sub n (ground arith) in
      let tail = scan_outcome ns (λ k h. sub k (ground arith)) in
      elim (Bool-cases (m.visited n)) [
        | inl seen ↦ elim (Bool-cases (m.stacked n)) [
          | inl on ↦
              rw (seen, on)
                (record {
                  at = node;
                  next = n;
                  reached = v.came;
                  waits = wait;
                  back = v.stack_waits n on;
                })
          | inr off ↦
              rw (seen, off)
                (resume-Settled g root node go n ns tail wait m v m (refl-Kept v)
                  (record { seen = seen; off = off }))
        ]
        | inr fresh ↦ rw fresh (
            resume g root node go n ns tail wait m v (go n m)
              (each n m (down g root node go n ns tail wait m v) fresh))
      ]

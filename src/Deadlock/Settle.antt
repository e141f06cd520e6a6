-- ===== src/Deadlock/Settle.antt =====
-- server/internal/core/storage/deadlock.go: what it does to the settled nodes to enter a node and to
-- leave it, and with that what a call of dfs does.
use pro_labs.Common.{
  ℕ, zero, suc, ◌+◌, ◌<◌, ◌≡◌, ◌≢◌, inl, inr, sym, ◌∙◌, ap, Bool, true, false, Option, none, some,
  ◌==◌, if◌then◌else◌, arith, Bool-cases,
}
use mathlib.Core.Path.{subst}
use native.Mathlib.Decide.{ℕ_discrete}
use pro_labs.Deadlock.{Graph, Marks, edges, update, enter, leave, finish, scan, dfs}
use pro_labs.Deadlock.Walks.{Waits, Walk, start}
use pro_labs.Deadlock.Dfs.{Settled, AllSettled, Ranked, Inv, Kept, Outcome, Searches, scan_outcome}

update_self : (f : ℕ → Bool) (k : ℕ) (b : Bool) → update f k b k ≡ b
update_self f k b = ground arith

update_ne : (f : ℕ → Bool) (k : ℕ) (b : Bool) (j : ℕ) → k ≢ j → update f k b j ≡ f j
update_ne f k b j h = ground arith

update-true : (f : ℕ → Bool) (k j : ℕ) → f j ≡ true → update f k true j ≡ true
update-true f k j h = ground arith

-- Entering a node that was not visited settles and unsettles none.
module _ (node : ℕ) (m : Marks) (fresh : m.visited node ≡ false) where
  enter-Settled : (u : ℕ) → Settled m u → Settled (enter node m) u
  enter-Settled u s =
      let other : node ≢ u = λ e. cc (ap m.visited e, s.seen) in
      record {
        seen = update-true m.visited node u s.seen;
        off = update_ne m.stacked node true u other ∙ s.off;
      }

  Settled-enter : (u : ℕ) → Settled (enter node m) u → Settled m u
  Settled-enter u s = elim (ℕ_discrete node u) [
    | yes e ↦
        let clash : true ≡ false =
          sym (update_self m.stacked node true) ∙ ap (update m.stacked node true) e ∙ s.off in
        absurd (cc clash)
    | no other ↦ record {
      seen = sym (update_ne m.visited node true u other) ∙ s.seen;
      off = sym (update_ne m.stacked node true u other) ∙ s.off;
    }
  ]

enter-Inv :
    (g : Graph) (root node : ℕ) (m : Marks)
    → Inv g root node m
    → m.visited node ≡ false
    → Inv g root node (enter node m)
enter-Inv g root node m v fresh =
    let old = Settled-enter node m fresh in
    record {
      came = v.came;
      stack_seen = λ u h. elim (ℕ_discrete node u) [
        | yes e ↦
            subst (λ x. update m.visited node true x ≡ true) e (update_self m.visited node true)
        | no other ↦
            update-true m.visited node u
              (v.stack_seen u (sym (update_ne m.stacked node true u other) ∙ h))
      ];
      stack_waits = λ u h. elim (ℕ_discrete node u) [
        | yes e ↦ subst (λ x. Walk g x node) e start
        | no other ↦ v.stack_waits u (sym (update_ne m.stacked node true u other) ∙ h)
      ];
      ranked = record {
        rank = v.ranked.rank;
        next = v.ranked.next;
        below = λ u s. v.ranked.below u (old u s);
        closed = λ u w s e. enter-Settled node m fresh w (v.ranked.closed u w (old u s) e);
        falls = λ u w s e. v.ranked.falls u w (old u s) e;
      };
    }

-- Leaving a node settles it, above all that was settled before.
module _ (g : Graph) (node : ℕ) (m m' : Marks) (k : Kept g (enter node m) m')
    (all : AllSettled m' (edges g node)) where
  on_stack : m'.stacked node ≡ true
  on_stack = k.same_stack node ∙ update_self m.stacked node true

  Settled-ne : (u : ℕ) → Settled m' u → node ≢ u
  Settled-ne u s e = cc (ap m'.stacked e, on_stack, s.off)

  Settled-stays : (u : ℕ) → Settled m' u → Settled (leave node m') u
  Settled-stays u s = record {
    seen = s.seen;
    off = update_ne m'.stacked node false u (Settled-ne u s) ∙ s.off;
  }

  Settled-before : (u : ℕ) → node ≢ u → Settled (leave node m') u → Settled m' u
  Settled-before u other s = record {
    seen = s.seen;
    off = sym (update_ne m'.stacked node false u other) ∙ s.off;
  }

  Settled-now : Settled (leave node m') node
  Settled-now = record {
    seen = k.more_seen node (update_self m.visited node true);
    off = update_self m'.stacked node false;
  }

  new_rank : ℕ → ℕ
  new_rank u = if node == u then k.ranked.next else k.ranked.rank u

  new_rank_old :
      (u : ℕ) → Settled m' u → (new_rank u ≡ k.ranked.rank u) × (new_rank u < k.ranked.next)
  unfolding new_rank
  new_rank_old u s =
      let other = Settled-ne u s in let low = k.ranked.below u s in (ground arith, ground arith)

  new_rank_node : new_rank node ≡ k.ranked.next
  unfolding new_rank
  new_rank_node = ground arith

  -- What a settled node waits for was settled before, and has a lower rank.
  below_new :
      (u w : ℕ) → Settled (leave node m') u → Waits g u w → Settled m' w × (new_rank w < new_rank u)
  below_new u w s e = elim (ℕ_discrete node u) [
    | yes same ↦
        let t = all w (subst (λ x. Waits g x w) (sym same) e) in
        (t, omega (arith, (new_rank_old w t).1, new_rank_node, ap new_rank same))
    | no other ↦
        let t = Settled-before u other s in
        let t' = k.ranked.closed u w t e in
        (t', omega (arith, (new_rank_old w t').0, (new_rank_old u t).0, k.ranked.falls u w t e))
  ]

  leave-Ranked : Ranked g (leave node m')
  leave-Ranked = record {
    rank = new_rank;
    next = k.ranked.next + 1;
    below = λ u s. elim (ℕ_discrete node u) [
      | yes same ↦ omega (arith, new_rank_node, ap new_rank same)
      | no other ↦ omega (arith, (new_rank_old u (Settled-before u other s)).1)
    ];
    closed = λ u w s e. Settled-stays w (below_new u w s e).0;
    falls = λ u w s e. (below_new u w s e).1;
  }

  leave-Kept : m.visited node ≡ false → m.stacked node ≡ false → Kept g m (leave node m')
  leave-Kept fresh off = record {
    same_stack = λ u. elim (ℕ_discrete node u) [
      | yes e ↦
          subst (λ x. update m'.stacked node false x ≡ m.stacked x) e
            (update_self m'.stacked node false ∙ sym off)
      | no other ↦
          update_ne m'.stacked node false u other
          ∙ k.same_stack u
          ∙ update_ne m.stacked node true u other
    ];
    more_seen = λ u h. k.more_seen u (update-true m.visited node u h);
    ranked = leave-Ranked;
    stack_seen = λ u h. elim (ℕ_discrete node u) [
      | yes e ↦ subst (λ x. m'.visited x ≡ true) e Settled-now.seen
      | no other ↦ k.stack_seen u (sym (update_ne m'.stacked node false u other) ∙ h)
    ];
  }

-- The search from a node that was not visited finds a deadlock, or keeps the stack and settles it.
pub dfs_outcome : (fuel : ℕ) (g : Graph) (root : ℕ) → Searches g root (dfs fuel g)
unfolding dfs
dfs_outcome zero g root node m v fresh = tt
dfs_outcome (suc fuel) g root node m v fresh =
    finished (scan (dfs fuel g) (edges g node) (enter node m)) (
      scan_outcome g root node (dfs fuel g) (dfs_outcome fuel g root) (edges g node) (λ n h. h)
        (enter node m) (enter-Inv g root node m v fresh))
  where
    off : m.stacked node ≡ false
    off = elim (Bool-cases (m.stacked node)) [
      | inl on ↦ cc (v.stack_seen node on)
      | inr clear ↦ clear
    ]

    finished :
        (r : Option (Bool × Marks))
        → Outcome g root (λ m'. Kept g (enter node m) m' × AllSettled m' (edges g node)) r
        → Outcome g root (λ m'. Kept g m m' × Settled m' node) (finish node r)
    finished none o = tt
    finished (some (true, m')) o = o
    finished (some (false, m')) o =
        (leave-Kept g node m m' o.0 o.1 fresh off, Settled-now g node m m' o.0 o.1)

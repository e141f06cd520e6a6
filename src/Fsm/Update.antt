-- ===== src/Fsm/Update.antt =====
-- server/internal/core/storage/fsm/fsm.go: Update records the space of one page and mends the
-- ancestors of its leaf, stopping at the first that needs no change.
use pro_labs.Common.{
  ℕ, zero, suc, ◌+◌, ◌*◌, ◌/◌, ◌%◌, ◌≤◌, ◌<◌, ◌≡◌, ◌≢◌, ◌⊎◌, inl, inr, refl, sym, ap, ◌∙◌, List,
  arith, some, length, set, get_or-set, length-set,
}
use Prim.Native.Nat.{max}
use mathlib.Core.Path.{subst}
use native.Mathlib.Decide.{dec_lt, ℕ_discrete}
use pro_labs.Fsm.{Fsm, at, leaf_start, max8, category, fix_up, track, record_free, update, u32}
use pro_labs.Fsm.Tree.{IsTree, AllMax, IsMax, Halves, mend-IsMax, set-IsMax}
use pro_labs.Fsm.Resize.{leaf, max_pages, Extends, refl-Extends, widen-Extends, resize-Extends}

abbrev larger : List ℕ → ℕ → ℕ
larger nodes node = max8 (at nodes (2 * node)) (at nodes (2 * node + 1))

length-fix_up : (k node : ℕ) (nodes : List ℕ) → length (fix_up k node nodes) ≡ length nodes
unfolding fix_up
length-fix_up zero node nodes = refl
length-fix_up (suc k) node nodes = ground (
  arith,
  length-fix_up k (node / 2) (set nodes node (larger nodes node)),
  length-set nodes node (larger nodes node),
)

-- The loop writes inner nodes only.
fix_up-leaves :
    (k node : ℕ) (nodes : List ℕ) (j : ℕ)
    → node < length nodes
    → node < j
    → at (fix_up k node nodes) j ≡ at nodes j
unfolding fix_up
fix_up-leaves zero node nodes j h q = refl
fix_up-leaves (suc k) node nodes j h q = ground (
  arith,
  fix_up-leaves k (node / 2) (set nodes node (larger nodes node)) j,
  length-set nodes node (larger nodes node),
  get_or-set nodes node j (larger nodes node) 0 h,
)

fix_up-stop :
    (k node : ℕ) (nodes : List ℕ)
    → (node ≡ 0) ⊎ (at nodes node ≡ larger nodes node)
    → fix_up (suc k) node nodes ≡ nodes
unfolding fix_up
fix_up-stop k node nodes stop = ground arith

fix_up-go :
    (k node : ℕ) (nodes : List ℕ)
    → node ≢ 0
    → at nodes node ≢ larger nodes node
    → fix_up (suc k) node nodes ≡ fix_up k (node / 2) (set nodes node (larger nodes node))
unfolding fix_up
fix_up-go k node nodes p q = ground arith

-- If only the node where the loop stands may be wrong, the loop leaves no node wrong.
fix_up-AllMax :
    (k node : ℕ) (nodes : List ℕ) (capacity : ℕ)
    → Halves nodes capacity
    → node < k
    → node < capacity
    → ((i : ℕ) → 1 ≤ i → i < capacity → i ≢ node → IsMax nodes i)
    → AllMax (fix_up k node nodes) capacity
fix_up-AllMax zero node nodes capacity h f q others = absurd (omega arith)
fix_up-AllMax (suc k) node nodes capacity h f q others = elim (ℕ_discrete node 0) [
  | yes top ↦
      subst (λ r. AllMax r capacity) (sym (fix_up-stop k node nodes (inl top)))
        (λ i a b. others i a b (omega arith))
  | no inner ↦ elim (ℕ_discrete (at nodes node) (larger nodes node)) [
    | yes right ↦
        subst (λ r. AllMax r capacity) (sym (fix_up-stop k node nodes (inr right)))
          (λ i a b. elim (ℕ_discrete i node) [
            | yes e ↦ subst (IsMax nodes) (sym e) right
            | no e ↦ others i a b e
          ])
    | no wrong ↦
        subst (λ r. AllMax r capacity) (sym (fix_up-go k node nodes inner wrong))
          (fix_up-AllMax k (node / 2) (set nodes node (larger nodes node)) capacity
            (omega (arith, length-set nodes node (larger nodes node)), h.1) (omega arith)
            (omega arith)
            (λ i a b e. elim (ℕ_discrete i node) [
              | yes same ↦
                  subst (IsMax (set nodes node (larger nodes node))) (sym same)
                    (mend-IsMax nodes node (omega arith) (omega arith))
              | no other ↦
                  set-IsMax nodes node i (larger nodes node) (omega arith) a (λ w. other (sym w))
                    (omega arith) (omega arith) (others i a b other)
            ]))
  ]
]

-- What Update promises: page `p` is tracked with the category of its bytes, and the other pages keep
-- what was recorded of them.
pub record Updated (f : Fsm) (page_no free_bytes : ℕ) (g : Fsm) : Type 0 where
  pub tree : IsTree g
  pub pages : g.n_pages ≡ max f.n_pages (page_no + 1)
  pub recorded : leaf g page_no ≡ category free_bytes
  pub kept : (p : ℕ) → p < f.n_pages → p ≢ page_no → leaf g p ≡ leaf f p
  pub blank : (p : ℕ) → f.n_pages ≤ p → p ≢ page_no → p < leaf_start g.nodes → leaf g p ≡ 0
  pub same_path : g.path ≡ f.path

track-Extends :
    (f : Fsm) (page_no : ℕ)
    → IsTree f
    → page_no < max_pages
    → (g : Fsm) × (track f page_no ≡ some g) × Extends f (max f.n_pages (page_no + 1)) g
unfolding track
track-Extends f page_no t small = elim (dec_lt page_no f.n_pages) [
  | yes old ↦
      let e : max f.n_pages (page_no + 1) ≡ f.n_pages = omega arith in
      (f, ground arith, subst (λ k. Extends f k f) (sym e) (refl-Extends f t))
  | no more ↦
      let e : max f.n_pages (page_no + 1) ≡ page_no + 1 = omega arith in
      elim (dec_lt page_no (leaf_start f.nodes)) [
        | yes room ↦
            let g : Fsm = record f { n_pages = page_no + 1 } in
            (
              g,
              ground arith,
              subst (λ k. Extends f k g) (sym e)
                  (widen-Extends f (page_no + 1) t (omega arith) (omega arith)),
            )
        | no full ↦
            let w : (page_no + 1) % u32 ≡ page_no + 1 = omega arith in
            let (g, run, x) = resize-Extends f (page_no + 1) (omega arith) (omega arith) in
            (g, ground (arith, run, w), subst (λ k. Extends f k g) (sym e) x)
      ]
]

record_free-Updated :
    (f g : Fsm) (page_no free_bytes : ℕ)
    → Extends f (max f.n_pages (page_no + 1)) g
    → Updated f page_no free_bytes (record_free g page_no free_bytes)
unfolding record_free
record_free-Updated f g page_no free_bytes x =
    let start = leaf_start g.nodes in
    let leaf_idx = start + page_no in
    let inside : leaf_idx < length g.nodes =
      omega (arith, x.tree.halves.0, x.tree.tracked, x.pages) in
    let written = set g.nodes leaf_idx (category free_bytes) in
    let write = λ (j : ℕ). get_or-set g.nodes leaf_idx j (category free_bytes) 0 inside in
    let size = length-set g.nodes leaf_idx (category free_bytes) in
    let fixed = fix_up (leaf_idx + 1) (leaf_idx / 2) written in
    let fixed_size = length-fix_up (leaf_idx + 1) (leaf_idx / 2) written in
    let half : leaf_start fixed ≡ start = omega (arith, size, fixed_size) in
    let leaves : (p : ℕ) → at fixed (start + p) ≡ at written (start + p) = λ p.
      fix_up-leaves (leaf_idx + 1) (leaf_idx / 2) written (start + p) (omega (arith, size))
        (omega (arith, x.tree.halves.0, x.tree.tracked, x.pages)) in
    let other : (p : ℕ) → p ≢ page_no → at fixed (start + p) ≡ leaf g p =
      λ p ne. leaves p ∙ ground (arith, write (start + p)) in
    let place : (p : ℕ) → at fixed (leaf_start fixed + p) ≡ at fixed (start + p) =
      λ p. ap (λ (s : ℕ). at fixed (s + p)) half in
    record {
      tree = record {
        halves = (
          omega (arith, half, size, fixed_size, x.tree.halves.0),
          omega (arith, half, x.tree.halves.1),
        );
        short = omega (arith, size, fixed_size, x.tree.short);
        inner = subst (AllMax fixed) (sym half) (
            fix_up-AllMax (leaf_idx + 1) (leaf_idx / 2) written start
              (omega (arith, size, x.tree.halves.0), x.tree.halves.1) (omega arith)
              (omega (arith, x.tree.halves.0, x.tree.tracked, x.pages))
              (λ i a b ne.
                set-IsMax g.nodes leaf_idx i (category free_bytes) inside a (omega arith)
                  (omega arith) (omega arith) (x.tree.inner i a b)));
        tracked = omega (arith, half, x.tree.tracked);
        vacant = λ p out ins.
            place p ∙ other p (omega (arith, x.pages)) ∙ x.tree.vacant p out (omega (arith, half));
      };
      pages = x.pages;
      recorded = place page_no ∙ leaves page_no ∙ ground (arith, write leaf_idx);
      kept = λ p ins ne. place p ∙ other p ne ∙ x.kept p ins;
      blank = λ p out ne ins. place p ∙ other p ne ∙ x.blank p out (omega (arith, half));
      same_path = x.same_path;
    }

-- Update of a well-formed map at a page below 2^30 returns a well-formed map of the page count
-- raised to take the page in. It records the category of the bytes for that page, keeps what was
-- recorded of the other pages, and records nothing for the pages between.
pub update-Updated :
    (f : Fsm) (page_no free_bytes : ℕ)
    → IsTree f
    → page_no < max_pages
    → (g : Fsm) × (update f page_no free_bytes ≡ some g) × Updated f page_no free_bytes g
unfolding update
update-Updated f page_no free_bytes t small =
    let (g, run, x) = track-Extends f page_no t small in
    (
      record_free g page_no free_bytes,
      rw (run, update),
      record_free-Updated f g page_no free_bytes x,
    )

-- ===== src/Fsm/Resize.antt =====
-- server/internal/core/storage/fsm/fsm.go: resize, New and Grow keep what is recorded, and return
-- for up to 2^30 pages (8 TB); past 2^31 pages the doubling loop of resize wraps to 0 and spins.
use pro_labs.Common.{
  ℕ, zero, suc, ◌+◌, ◌*◌, ◌%◌, ◌≤◌, ◌<◌, ◌≡◌, ◌⊎◌, inl, inr, refl, sym, ◌∙◌, List, arith, none,
  some, [], length, set, replicate, get_or-set, length-set, length-replicate, get_or-replicate,
  lt→ltb, le→ltb,
}
use Prim.Native.Nat.{max}
use mathlib.Core.Path.{subst}
use native.Mathlib.Decide.{dec_lt, dec_le}
use Prim.Native.String.{String}
use pro_labs.Fsm.{
  Fsm, at, leaf_start, rebuild_internal, u32, grow_capacity, copy_leaves, resize_to, resize, new,
  grow,
}
use pro_labs.Fsm.Tree.{IsTree, rebuild_internal-Rebuilt}

abbrev pub max_pages : ℕ
max_pages = 1073741824

abbrev pow2 : ℕ → ℕ
pow2 zero = 1
pow2 (suc k) = 2 * pow2 k

pow2-pos : (k : ℕ) → 1 ≤ pow2 k
pow2-pos zero = omega arith
pow2-pos (suc k) = omega (arith, pow2-pos k)

-- What the loop returns: room for the pages, in a slice that a uint32 can size.
record IsCapacity (n r : ℕ) : Type 0 where
  holds : n ≤ r
  positive : 1 ≤ r
  sized : 2 * r < u32

grow_capacity_doubles :
    (k c n : ℕ) → c < n → 2 * c < u32 → grow_capacity (suc k) c n ≡ grow_capacity k (c * 2) n
unfolding grow_capacity
grow_capacity_doubles k c n less sized =
    let e : c * 2 % u32 ≡ c * 2 = omega arith in rw (lt→ltb c n less, e)

grow_capacity_total :
    (k c n : ℕ)
    → n ≤ c * pow2 k
    → n ≤ max_pages
    → 1 ≤ c
    → 2 * c < u32
    → (r : ℕ) × (grow_capacity (suc k) c n ≡ some r) × IsCapacity n r
unfolding grow_capacity
grow_capacity_total zero c n h small p q =
    (c, ground arith, record { holds = omega arith; positive = p; sized = q })
grow_capacity_total (suc k) c n h small p q = elim (dec_lt c n) [
  | yes less ↦
      let (r, run, good) =
        grow_capacity_total k (c * 2) n (omega arith) small (omega arith) (omega arith) in
      (r, grow_capacity_doubles (suc k) c n less q ∙ run, good)
  | no enough ↦
      (c, rw (le→ltb c n (omega arith)), record { holds = omega arith; positive = p; sized = q })
]

grow_capacity_zero : (k n : ℕ) → 0 < n → grow_capacity k 0 n ≡ none
unfolding grow_capacity
grow_capacity_zero zero n h = refl
grow_capacity_zero (suc k) n h = rw (lt→ltb 0 n h) (grow_capacity_zero k n h)

grow_capacity_endless :
    (j k c n : ℕ) → c * pow2 (suc j) ≡ u32 → u32 < 2 * n → grow_capacity k c n ≡ none
unfolding grow_capacity
grow_capacity_endless j zero c n e h = refl
grow_capacity_endless zero (suc k) c n e h =
    let wrapped : c * 2 % u32 ≡ 0 = omega arith in
    rw (lt→ltb c n (omega arith), wrapped) (grow_capacity_zero k n (omega arith))
grow_capacity_endless (suc j) (suc k) c n e h =
    let q : c ≤ c * pow2 j = grind (arith, pow2-pos j) in
    let plain : c * 2 % u32 ≡ c * 2 = omega arith in
    rw (lt→ltb c n (omega arith), plain) (grow_capacity_endless j k (c * 2) n (omega arith) h)

-- With more than 2^31 pages the loop of resize never ends, however long it is given.
pub resize_endless : (k n : ℕ) → u32 < 2 * n → grow_capacity k 1 n ≡ none
resize_endless k n h = grow_capacity_endless 31 k 1 n refl h

length-copy_leaves :
    (k p capacity : ℕ) (old nodes : List ℕ)
    → length (copy_leaves k p capacity old nodes) ≡ length nodes
unfolding copy_leaves
length-copy_leaves zero p capacity old nodes = refl
length-copy_leaves (suc k) p capacity old nodes =
    let v = at old (leaf_start old + p) in
    omega (
      arith,
      length-copy_leaves k (p + 1) capacity old (set nodes (capacity + p) v),
      length-set nodes (capacity + p) v,
    )

copy_leaves-keeps :
    (k p capacity : ℕ) (old nodes : List ℕ) (j : ℕ)
    → capacity + p + k ≤ length nodes
    → (j < capacity + p) ⊎ (capacity + p + k ≤ j)
    → at (copy_leaves k p capacity old nodes) j ≡ at nodes j
unfolding copy_leaves
copy_leaves-keeps zero p capacity old nodes j h o = refl
copy_leaves-keeps (suc k) p capacity old nodes j h o =
    let v = at old (leaf_start old + p) in
    ground (
      arith,
      length-set nodes (capacity + p) v,
      get_or-set nodes (capacity + p) j v 0 (omega arith),
      copy_leaves-keeps k (p + 1) capacity old (set nodes (capacity + p) v) j,
    )

copy_leaves-copies :
    (k p capacity : ℕ) (old nodes : List ℕ) (q : ℕ)
    → capacity + p + k ≤ length nodes
    → p ≤ q
    → q < p + k
    → at (copy_leaves k p capacity old nodes) (capacity + q) ≡ at old (leaf_start old + q)
unfolding copy_leaves
copy_leaves-copies zero p capacity old nodes q h a b = absurd (omega arith)
copy_leaves-copies (suc k) p capacity old nodes q h a b = elim (dec_lt p q) [
  | yes later ↦
      copy_leaves-copies k (p + 1) capacity old
        (set nodes (capacity + p) (at old (leaf_start old + p))) q
        (omega (arith, length-set nodes (capacity + p) (at old (leaf_start old + p)))) (omega arith)
        (omega arith)
  | no now ↦
      let v = at old (leaf_start old + p) in
      let e : q ≡ p = omega arith in
      rw e (
        copy_leaves-keeps k (p + 1) capacity old (set nodes (capacity + p) v) (capacity + p)
          (omega (arith, length-set nodes (capacity + p) v)) (inl (omega arith))
        ∙ ground (arith, get_or-set nodes (capacity + p) (capacity + p) v 0 (omega arith)))
]

-- The leaf of page `p`.
abbrev pub leaf : Fsm → ℕ → ℕ
leaf f p = at f.nodes (leaf_start f.nodes + p)

-- `g` tracks `n` pages, among them those of `f` with what `f` records of them, and nothing of others.
pub record Extends (f : Fsm) (n : ℕ) (g : Fsm) : Type 0 where
  pub tree : IsTree g
  pub pages : g.n_pages ≡ n
  pub kept : (p : ℕ) → p < f.n_pages → leaf g p ≡ leaf f p
  pub blank : (p : ℕ) → f.n_pages ≤ p → p < leaf_start g.nodes → leaf g p ≡ 0
  pub same_path : g.path ≡ f.path

abbrev copied : Fsm → ℕ → List ℕ
copied f r = copy_leaves f.n_pages 0 r f.nodes (replicate (2 * r % u32) 0)

length-copied : (f : Fsm) (r : ℕ) → 2 * r < u32 → length (copied f r) ≡ 2 * r
length-copied f r h =
    let fresh : List ℕ = replicate (2 * r % u32) 0 in
    omega (
      arith,
      length-copy_leaves f.n_pages 0 r f.nodes fresh,
      length-replicate {A = ℕ} (2 * r % u32) 0,
    )

resize_to-Extends :
    (f : Fsm) (n r : ℕ) → f.n_pages ≤ n → IsCapacity n r → Extends f n (resize_to f n r)
unfolding resize_to
resize_to-Extends f n r more c =
    let fresh : List ℕ = replicate (2 * r % u32) 0 in
    let size = length-copied f r c.sized in
    let full = length-replicate {A = ℕ} (2 * r % u32) 0 in
    let built = rebuild_internal-Rebuilt (copied f r) r (size, c.positive) in
    let keeps = copy_leaves-keeps f.n_pages 0 r f.nodes fresh in
    let copies = copy_leaves-copies f.n_pages 0 r f.nodes fresh in
    let zeros = λ (j : ℕ). get_or-replicate {A = ℕ} (2 * r % u32) j 0 in
    let blank : (p : ℕ) → f.n_pages ≤ p → at (rebuild_internal (copied f r)) (r + p) ≡ 0 = λ p out.
      built.leaves (r + p) (omega arith)
      ∙ keeps (r + p) (omega (arith, full)) (inr (omega arith))
      ∙ zeros (r + p) in
    record {
      tree = record {
        halves = (omega (arith, built.size, built.half), omega (arith, built.half, c.positive));
        short = omega (arith, built.size, c.sized);
        inner = rw built.half built.inner;
        tracked = omega (arith, built.half, c.holds);
        vacant = λ p out inside. rw built.half (blank p (omega arith));
      };
      pages = refl;
      kept = λ p inside. rw built.half (
          built.leaves (r + p) (omega arith)
          ∙ copies p (omega (arith, full, c.sized)) (omega arith) (omega arith));
      blank = λ p out inside. rw built.half (blank p out);
      same_path = refl;
    }

-- resize returns for up to 2^30 pages.
pub resize-Extends :
    (f : Fsm) (n : ℕ)
    → f.n_pages ≤ n
    → n ≤ max_pages
    → (g : Fsm) × (resize f n ≡ some g) × Extends f n g
unfolding resize
resize-Extends f n more small =
    let (r, run, c) = grow_capacity_total 32 1 n (omega arith) small (omega arith) (omega arith) in
    (resize_to f n r, rw (run, resize), resize_to-Extends f n r more c)

pub refl-Extends : (f : Fsm) → IsTree f → Extends f f.n_pages f
refl-Extends f t = record {
  tree = t;
  pages = refl;
  kept = λ p inside. refl;
  blank = t.vacant;
  same_path = refl;
}

-- A map may take in pages that its slice has room for.
pub widen-Extends :
    (f : Fsm) (n : ℕ)
    → IsTree f
    → f.n_pages ≤ n
    → n ≤ leaf_start f.nodes
    → Extends f n (record f { n_pages = n })
widen-Extends f n t more room = record {
  tree = record {
    halves = t.halves;
    short = t.short;
    inner = t.inner;
    tracked = room;
    vacant = λ p out inside. t.vacant p (omega arith) inside;
  };
  pages = refl;
  kept = λ p inside. refl;
  blank = t.vacant;
  same_path = refl;
}

-- Grow of a well-formed map to at most 2^30 pages returns a well-formed map of the larger of the
-- two page counts, with the recorded space of the old pages and none for the new ones.
pub grow-Extends :
    (f : Fsm) (n : ℕ)
    → IsTree f
    → n ≤ max_pages
    → (g : Fsm) × (grow f n ≡ some g) × Extends f (max n f.n_pages) g
unfolding grow
grow-Extends f n t small = elim (dec_le n f.n_pages) [
  | yes old ↦
      let e : max n f.n_pages ≡ f.n_pages = omega arith in
      (f, ground arith, subst (λ k. Extends f k f) (sym e) (refl-Extends f t))
  | no more ↦
      let e : max n f.n_pages ≡ n = omega arith in
      elim (dec_le n (leaf_start f.nodes)) [
        | yes room ↦ (
          record f { n_pages = n },
          ground arith,
          subst (λ k. Extends f k (record f { n_pages = n })) (sym e)
              (widen-Extends f n t (omega arith) room),
        )
        | no full ↦
            let (g, run, x) = resize-Extends f n (omega arith) small in
            (g, ground (arith, run), subst (λ k. Extends f k g) (sym e) x)
      ]
]

-- New gives a well-formed map of up to 2^30 pages, none of which has recorded space.
pub new-IsTree :
    (path : String) (n : ℕ)
    → n ≤ max_pages
    → (f : Fsm) × (new path n ≡ some f)
      × IsTree f
      × (f.n_pages ≡ n)
      × (f.path ≡ path)
      × ((p : ℕ) → p < leaf_start f.nodes → leaf f p ≡ 0)
unfolding new
new-IsTree path n small =
    let empty : Fsm = record { path = path; nodes = []; n_pages = 0 } in
    let (f, run, x) = resize-Extends empty n (omega arith) small in
    (f, run, x.tree, x.pages, x.same_path, λ p inside. x.blank p (omega arith) inside)

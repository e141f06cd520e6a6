-- ===== src/Fsm/File.antt =====
-- server/internal/core/storage/fsm/fsm.go: what Save writes, Load reads back.
use pro_labs.Common.{
  ℕ, zero, suc, ◌+◌, ◌≤◌, ◌<◌, ◌≡◌, refl, sym, ap, ◌∙◌, List, [], ◌∷◌, ◌++◌, arith, some, length,
  set, take, drop, get_or-set, length-set, get_or-take, get_or-drop, length-take, length-drop,
  take_of_length_le, ◌⊎◌, inl, inr,
}
use mathlib.Core.Path.{subst}
use Prim.Native.String.{String}
use pro_labs.Common.Words.{le_bytes, le_value, le_value-le_bytes}
use pro_labs.Fsm.{
  Fsm, at, leaf_start, rebuild_internal, copy_at, fill, backed, save, load, new, ok, magic, u32,
  bytes_eq,
}
use pro_labs.Fsm.Tree.{IsTree, AllMax, rebuild_internal-Rebuilt}
use pro_labs.Fsm.Resize.{leaf, max_pages, new-IsTree}

length-copy_at : (src nodes : List ℕ) (i : ℕ) → length (copy_at nodes i src) ≡ length nodes
unfolding copy_at
length-copy_at [] nodes i = refl
length-copy_at (b ∷ src) nodes i =
    omega (arith, length-copy_at src (set nodes i b) (i + 1), length-set nodes i b)

copy_at-keeps :
    (src nodes : List ℕ) (i j : ℕ)
    → i + length src ≤ length nodes
    → (j < i) ⊎ (i + length src ≤ j)
    → at (copy_at nodes i src) j ≡ at nodes j
unfolding copy_at
copy_at-keeps [] nodes i j h o = refl
copy_at-keeps (b ∷ src) nodes i j h o = ground (
  arith,
  length-set nodes i b,
  get_or-set nodes i j b 0 (omega arith),
  copy_at-keeps src (set nodes i b) (i + 1) j,
)

copy_at-copies :
    (src nodes : List ℕ) (i k : ℕ)
    → i + length src ≤ length nodes
    → k < length src
    → at (copy_at nodes i src) (i + k) ≡ at src k
unfolding copy_at
copy_at-copies [] nodes i k h q = absurd (omega arith)
copy_at-copies (b ∷ src) nodes i zero h q =
    let here : i + 0 ≡ i = omega arith in
    ap (at (copy_at (set nodes i b) (i + 1) src)) here
    ∙ copy_at-keeps src (set nodes i b) (i + 1) i (omega (arith, length-set nodes i b))
        (inl (omega arith))
    ∙ ground (arith, get_or-set nodes i i b 0 (omega arith))
copy_at-copies (b ∷ src) nodes i (suc k) h q =
    let next : i + suc k ≡ i + 1 + k = omega arith in
    ap (at (copy_at (set nodes i b) (i + 1) src)) next
    ∙ copy_at-copies src (set nodes i b) (i + 1) k (omega (arith, length-set nodes i b))
        (omega arith)

-- `g` records what `f` does.
pub record SameMap (f g : Fsm) : Type 0 where
  pub tree : IsTree g
  pub pages : g.n_pages ≡ f.n_pages
  pub leaves : (p : ℕ) → p < f.n_pages → leaf g p ≡ leaf f p

saved_leaves : Fsm → List ℕ
saved_leaves f = take f.n_pages (drop (leaf_start f.nodes) f.nodes)

length-saved_leaves : (f : Fsm) → IsTree f → length (saved_leaves f) ≡ f.n_pages
unfolding saved_leaves
length-saved_leaves f t = omega (
  arith,
  length-take f.n_pages (drop (leaf_start f.nodes) f.nodes),
  length-drop (leaf_start f.nodes) f.nodes,
  t.tracked,
  t.halves.0,
)

at-saved_leaves : (f : Fsm) (p : ℕ) → p < f.n_pages → at (saved_leaves f) p ≡ leaf f p
unfolding saved_leaves
at-saved_leaves f p h =
    get_or-take f.n_pages (drop (leaf_start f.nodes) f.nodes) p 0 h
    ∙ get_or-drop (leaf_start f.nodes) f.nodes p 0

fill-SameMap :
    (f g : Fsm) → IsTree f → IsTree g → g.n_pages ≡ f.n_pages → SameMap f (fill g (saved_leaves f))
unfolding fill
fill-SameMap f g t u same =
    let start = leaf_start g.nodes in
    let src = saved_leaves f in
    let size = length-saved_leaves f t in
    let written = copy_at g.nodes start src in
    let full = length-copy_at src g.nodes start in
    let built =
      rebuild_internal-Rebuilt written start (omega (arith, full, u.halves.0), u.halves.1) in
    let fits : start + length src ≤ length g.nodes = omega (arith, u.halves.0, u.tracked) in
    let place : (p : ℕ)
        → at (rebuild_internal written) (leaf_start (rebuild_internal written) + p)
          ≡ at written (start + p) =
      λ p.
        ap (λ (s : ℕ). at (rebuild_internal written) (s + p)) built.half
        ∙ built.leaves (start + p) (omega arith) in
    record {
      tree = record {
        halves = (omega (arith, built.size, built.half), omega (arith, built.half, u.halves.1));
        short = omega (arith, built.size, u.halves.0, u.short);
        inner = subst (AllMax (rebuild_internal written)) (sym built.half) built.inner;
        tracked = omega (arith, built.half, u.tracked);
        vacant = λ p out ins.
            place p
            ∙ copy_at-keeps src g.nodes start (start + p) fits (inr (omega arith))
            ∙ u.vacant p out (omega (arith, built.half));
      };
      pages = same;
      leaves = λ p ins.
          place p ∙ copy_at-copies src g.nodes start p fits (omega arith) ∙ at-saved_leaves f p ins;
    }

backed-some : (path : String) (a b : List ℕ) → backed path a ≡ some b → a ≡ b
unfolding backed
backed-some String.[] a b e = cc
backed-some (String.◌∷◌ c path) a b e = cc

save-bytes :
    (f : Fsm) (bytes : List ℕ)
    → save f ≡ some bytes
    → magic ++ (le_bytes 4 f.n_pages ++ saved_leaves f) ≡ bytes
unfolding save saved_leaves
save-bytes f bytes e = backed-some f.path _ bytes e

load-written :
    (path : String) (n : ℕ) (leaves : List ℕ) (f : Fsm)
    → n < u32
    → length leaves ≡ n
    → new path n ≡ some f
    → load path (magic ++ (le_bytes 4 n ++ leaves)) ≡ ok (fill f leaves)
unfolding load le_bytes bytes_eq
load-written path n leaves f small size fresh =
    let read : le_value 4 (le_bytes 4 n ++ leaves) ≡ n = le_value-le_bytes 4 n leaves small in
    ground (arith, read, fresh, take_of_length_le n leaves (omega arith))

-- What Save writes of a well-formed map with a path, of at most 2^30 pages, Load reads without an
-- error into a well-formed map of the same pages with the same recorded space.
pub load-save :
    (f : Fsm) (path : String) (bytes : List ℕ)
    → IsTree f
    → f.n_pages ≤ max_pages
    → save f ≡ some bytes
    → (g : Fsm) × (load path bytes ≡ ok g) × SameMap f g
load-save f path bytes t small e =
    let (g, fresh, u, same, _, _) = new-IsTree path f.n_pages small in
    (
      fill g (saved_leaves f),
      subst (λ b. load path b ≡ ok (fill g (saved_leaves f))) (save-bytes f bytes e)
          (load-written path f.n_pages (saved_leaves f) g (omega arith) (length-saved_leaves f t)
            fresh),
      fill-SameMap f g t u same,
    )

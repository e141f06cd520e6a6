-- ===== src/Fsm/Search.antt =====
-- server/internal/core/storage/fsm/fsm.go: Search finds a page exactly when one has the space.
use pro_labs.Common.{
  ℕ, zero, suc, ◌+◌, ◌-◌, ◌*◌, ◌≤◌, ◌<◌, ◌≡◌, List, arith, Option, none, some, ap, leb, ap, sym,
  if◌then◌else◌, lt→ltb,
}
use native.Mathlib.Decide.{dec_lt, dec_le}
use mathlib.Core.Path.{subst}
use pro_labs.Fsm.{
  Fsm, at, leaf_start, max8, descend, request_category, category, search_for, search_pages,
}
use pro_labs.Fsm.Arith.{request_category-covers, request_category-pos, request_category_top}
use pro_labs.Fsm.Tree.{IsTree, AllMax, IsMax, root_largest}
use pro_labs.Fsm.Resize.{leaf}

-- One of the children of a node has what the node promises.
branch : (nodes : List ℕ) (want node : ℕ) → ℕ
branch nodes want node = if leb want (at nodes (2 * node)) then 2 * node else 2 * node + 1

branch_lem :
    (nodes : List ℕ) (want node : ℕ)
    → IsMax nodes node
    → want ≤ at nodes node
    → (want ≤ at nodes (branch nodes want node))
      × (2 * node ≤ branch nodes want node)
      × (branch nodes want node ≤ 2 * node + 1)
unfolding branch max8
branch_lem nodes want node m h = ground arith

-- The descent ends at a leaf that has the wanted category.
descend_lem :
    (k : ℕ) (nodes : List ℕ) (want node : ℕ)
    → AllMax nodes (leaf_start nodes)
    → 1 ≤ node
    → node < 2 * leaf_start nodes
    → leaf_start nodes < k + node
    → want ≤ at nodes node
    → (leaf_start nodes ≤ descend k nodes want node)
      × (descend k nodes want node < 2 * leaf_start nodes)
      × (want ≤ at nodes (descend k nodes want node))
unfolding descend branch
descend_lem zero nodes want node t p q f h = (omega arith, q, h)
descend_lem (suc k) nodes want node t p q f h = elim (dec_lt node (leaf_start nodes)) [
  | yes above ↦
      let b = branch_lem nodes want node (t node p above) h in
      rw (lt→ltb _ _ above) (
        descend_lem k nodes want (branch nodes want node) t (omega arith) (omega arith)
          (omega arith) b.0)
  | no at_leaf ↦ ground arith
]

-- What Search promises of its answer: the page it names is tracked and its leaf has the category
-- of the request, and it names none only if no tracked page has it.
abbrev pub Answers : Fsm → ℕ → Option ℕ → Type 0
Answers f want (some p) = (p < f.n_pages) × (want ≤ leaf f p)
Answers f want none = (p : ℕ) → p < f.n_pages → leaf f p < want

leaf-le-root : (f : Fsm) (p : ℕ) → IsTree f → p < f.n_pages → leaf f p ≤ at f.nodes 1
leaf-le-root f p t h =
    root_largest f.nodes (leaf_start f.nodes) (leaf_start f.nodes + p) t.inner
      (omega (arith, t.halves.1)) (omega (arith, t.tracked))

search_for-Answers : (f : Fsm) (want : ℕ) → IsTree f → 0 < want → Answers f want (search_for f want)
unfolding search_for
search_for-Answers f want t pos = elim (dec_le want (at f.nodes 1)) [
  | no low ↦
      let none_has : Answers f want none = λ p h. omega (arith, leaf-le-root f p t h) in
      ground (arith, none_has)
  | yes high ↦
      let d =
        descend_lem (leaf_start f.nodes) f.nodes want 1 t.inner (omega arith)
          (omega (arith, t.halves.1)) (omega arith) high in
      let q = descend (leaf_start f.nodes) f.nodes want 1 - leaf_start f.nodes in
      let same : leaf f q ≡ at f.nodes (descend (leaf_start f.nodes) f.nodes want 1) =
        ap (at f.nodes) (omega (arith, d.0)) in
      let inside : q < f.n_pages = ground (arith, t.vacant q, same) in
      let found : search_for f want ≡ some q = ground arith in
      subst (Answers f want) (sym found) (inside, omega (arith, same, d.2))
]

-- On a well-formed map Search, asked for at least one byte, answers exactly: it names a tracked page
-- whose recorded category reaches that of the request, and none only if no tracked page reaches it.
pub search_pages-Answers :
    (f : Fsm) (min_free : ℕ)
    → IsTree f
    → 0 < min_free
    → Answers f (request_category min_free) (search_pages f min_free)
unfolding search_pages
search_pages-Answers f min_free t h =
    search_for-Answers f (request_category min_free) t (request_category-pos min_free h)

-- After that, a page that Search names for up to 8160 bytes has the room, if its leaf was recorded
-- from its free space.
pub search_pages-room :
    (f : Fsm) (min_free free_bytes p : ℕ)
    → IsTree f
    → 0 < min_free
    → min_free ≤ 8160
    → search_pages f min_free ≡ some p
    → leaf f p ≡ category free_bytes
    → min_free ≤ free_bytes
search_pages-room f min_free free_bytes p t pos small e recorded =
    let a =
      subst (Answers f (request_category min_free)) e (search_pages-Answers f min_free t pos) in
    request_category-covers min_free free_bytes small (omega (arith, a.1))

-- Search treats every request above 8160 bytes as one for 8160 bytes, so that for a request of more
-- it may name a page that has 8160 bytes only.
pub search_pages_top :
    (f : Fsm) (min_free : ℕ) → 8160 < min_free → search_pages f min_free ≡ search_pages f 8160
unfolding search_pages
search_pages_top f min_free h = ap (search_for f) (request_category_top min_free h)

-- ===== src/Fsm.antt =====
-- server/internal/core/storage/fsm/fsm.go: the Free Space Map of one table, a tree of maxima over
-- its pages, kept in a slice. The mutex of the struct makes each method one step, and is left out.
--
-- `nodes` is the slice of uint8, `n_pages` the uint32 nPages. A slice has fewer than 2^32 entries
-- here, so the uint32 sums `2*node+1` and `leafStart+pageNo` over it do not wrap and are plain; the
-- other uint32 results are reduced. `none` from `resize` and its callers: the loop that doubles the
-- capacity does not end.
pub mod Arith
pub mod Tree
pub mod Resize
pub mod Search
pub mod Update
pub mod File
mod Tests
use Prim.Native.String
use Prim.Native.String.{String}
use pro_labs.Common.{
  ℕ, zero, suc, ◌+◌, ◌-◌, ◌*◌, ◌/◌, ◌%◌, ◌≡◌, Bool, true, false, Option, none, some, List, [], ◌∷◌,
  ◌++◌, ◌&&◌, ◌||◌, not, length, get_or, set, take, drop, replicate, ltb, leb, ◌==◌, if◌then◌else◌,
}
use pro_labs.Common.Words.{le_bytes, le_value}

abbrev pub u32 : ℕ
u32 = 4294967296

abbrev pub category_granularity : ℕ
category_granularity = 32

pub record Fsm : Type 0 where
  pub path : String
  pub nodes : List ℕ
  pub n_pages : ℕ

-- `f.nodes[i]`
abbrev pub at : List ℕ → ℕ → ℕ
at nodes i = get_or nodes i 0

-- `len(f.nodes) / 2`
abbrev pub leaf_start : List ℕ → ℕ
leaf_start nodes = length nodes / 2

pub max8 : ℕ → ℕ → ℕ
max8 a b = if ltb b a then a else b

pub category : ℕ → ℕ
category free_bytes = let c = free_bytes / category_granularity in if ltb 255 c then 255 else c

pub request_category : ℕ → ℕ
request_category min_free =
    let c = (min_free + category_granularity - 1) / category_granularity in
    if ltb 255 c then 255 else c

-- The loop of rebuildInternal, from node `i` down to node 1.
pub rebuild_from : ℕ → List ℕ → List ℕ
rebuild_from zero nodes = nodes
rebuild_from (suc i) nodes =
    rebuild_from i (set nodes (suc i) (max8 (at nodes (2 * suc i)) (at nodes (2 * suc i + 1))))

pub rebuild_internal : List ℕ → List ℕ
unfolding rebuild_from
rebuild_internal nodes = rebuild_from (leaf_start nodes - 1) nodes

-- `for capacity < nPages { capacity *= 2 }`
pub grow_capacity : ℕ → ℕ → ℕ → Option ℕ
grow_capacity zero capacity n_pages = none
grow_capacity (suc fuel) capacity n_pages =
    let more = grow_capacity fuel (capacity * 2 % u32) n_pages in
    if ltb capacity n_pages then more else some capacity

-- `k` rounds of the copy loop of resize, from page `p` on.
pub copy_leaves : ℕ → ℕ → ℕ → List ℕ → List ℕ → List ℕ
copy_leaves zero p capacity old nodes = nodes
copy_leaves (suc k) p capacity old nodes =
    copy_leaves k (p + 1) capacity old (set nodes (capacity + p) (at old (leaf_start old + p)))

pub resize_to : Fsm → ℕ → ℕ → Fsm
unfolding rebuild_internal copy_leaves
resize_to f n_pages capacity =
    let fresh = replicate (2 * capacity % u32) 0 in
    let nodes = copy_leaves f.n_pages 0 capacity f.nodes fresh in
    record f { nodes = rebuild_internal nodes; n_pages = n_pages }

-- 33 rounds reach 2^32, which wraps to 0: what has not ended by then never ends.
pub resize : Fsm → ℕ → Option Fsm
unfolding grow_capacity resize_to
resize f n_pages = elim (grow_capacity 33 1 n_pages) [
  | none ↦ none
  | some capacity ↦ some (resize_to f n_pages capacity)
]

pub new : String → ℕ → Option Fsm
unfolding resize
new path n_pages = resize (record { path = path; nodes = []; n_pages = 0 }) n_pages

pub page_count : Fsm → ℕ
page_count f = f.n_pages

pub grow : Fsm → ℕ → Option Fsm
unfolding resize
grow f n_pages =
    if leb n_pages f.n_pages
    then some f
    else if leb n_pages (leaf_start f.nodes)
    then some (record f { n_pages = n_pages })
    else resize f n_pages

-- The descent of Search.
pub descend : ℕ → List ℕ → ℕ → ℕ → ℕ
descend zero nodes want node = node
descend (suc fuel) nodes want node =
    let next =
      descend fuel nodes want (if leb want (at nodes (2 * node)) then 2 * node else 2 * node + 1) in
    if ltb node (leaf_start nodes) then next else node

-- Search, behind the category of the request.
pub search_for : Fsm → ℕ → Option ℕ
unfolding descend
search_for f want =
    let page_no = descend (leaf_start f.nodes) f.nodes want 1 - leaf_start f.nodes in
    if f.n_pages == 0
    then none
    else if ltb (at f.nodes 1) want
    then none
    else if leb f.n_pages page_no
    then none
    else some page_no

pub search_pages : Fsm → ℕ → Option ℕ
unfolding search_for request_category
search_pages f min_free = search_for f (request_category min_free)

-- The loop of Update over the ancestors.
pub fix_up : ℕ → ℕ → List ℕ → List ℕ
fix_up zero node nodes = nodes
fix_up (suc fuel) node nodes =
    let new_val = max8 (at nodes (2 * node)) (at nodes (2 * node + 1)) in
    let rest = fix_up fuel (node / 2) (set nodes node new_val) in
    if node == 0 then nodes else if at nodes node == new_val then nodes else rest

pub track : Fsm → ℕ → Option Fsm
unfolding resize
track f page_no =
    if leb f.n_pages page_no
    then (if leb (leaf_start f.nodes) page_no
        then resize f ((page_no + 1) % u32)
        else some (record f { n_pages = page_no + 1 }))
    else some f

pub record_free : Fsm → ℕ → ℕ → Fsm
unfolding fix_up category
record_free f page_no free_bytes =
    let leaf_idx = leaf_start f.nodes + page_no in
    record f {
      nodes = fix_up (leaf_idx + 1) (leaf_idx / 2) (set f.nodes leaf_idx (category free_bytes));
    }

pub update : Fsm → ℕ → ℕ → Option Fsm
unfolding track record_free
update f page_no free_bytes = elim (track f page_no) [
  | none ↦ none
  | some g ↦ some (record_free g page_no free_bytes)
]

-- "VFSM"
abbrev pub magic : List ℕ
magic = b'V' ∷ b'F' ∷ b'S' ∷ b'M' ∷ []

backed : String → List ℕ → Option (List ℕ)
backed String.[] bytes = none
backed (String.◌∷◌ c path) bytes = some bytes

-- What Save writes to the file; `none` is the error for a map with no path.
pub save : Fsm → Option (List ℕ)
unfolding le_bytes backed
save f =
    backed f.path
      (magic ++ (le_bytes 4 f.n_pages ++ take f.n_pages (drop (leaf_start f.nodes) f.nodes)))

pub data LoadError : Type 0 where
  bad_header truncated endless : LoadError

pub data Loaded : Type 0 where
  ok : Fsm → Loaded
  err : LoadError → Loaded

bytes_eq : List ℕ → List ℕ → Bool
bytes_eq [] [] = true
bytes_eq (a ∷ as_) (b ∷ bs) = a == b && bytes_eq as_ bs
bytes_eq _ _ = false

-- `copy(nodes[i:], src)`
pub copy_at : List ℕ → ℕ → List ℕ → List ℕ
copy_at nodes i [] = nodes
copy_at nodes i (b ∷ src) = copy_at (set nodes i b) (i + 1) src

pub fill : Fsm → List ℕ → Fsm
unfolding copy_at rebuild_internal
fill f leaves = record f { nodes = rebuild_internal (copy_at f.nodes (leaf_start f.nodes) leaves) }

-- Load, from the bytes that ReadFile gives.
pub load : String → List ℕ → Loaded
unfolding bytes_eq fill
load path buf =
    let n_pages = le_value 4 (drop 4 buf) in
    if ltb (length buf) 8 || not (bytes_eq (take 4 buf) magic)
    then err bad_header
    else if ltb ((length buf - 8) % u32) n_pages
    then err truncated
    else elim (new path n_pages) [
      | none ↦ err endless
      | some f ↦ ok (fill f (take n_pages (drop 8 buf)))
    ]

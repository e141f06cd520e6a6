-- ===== src/Deadlock.antt =====
-- server/internal/core/storage/deadlock.go: the wait-for graph and the search for a cycle in it.
-- The mutex makes each method one step, and is left out. A Go map with list values is a list of
-- keys with their lists; a key that is missing has the nil list.
pub mod Walks
pub mod Edges
pub mod Dfs
pub mod Settle
pub mod Fuel
pub mod Detect
mod Tests
use pro_labs.Common.{
  ℕ, zero, suc, ◌+◌, Bool, true, false, Option, none, some, List, [], ◌∷◌, ◌++◌, ◌==◌,
  if◌then◌else◌, length,
}

-- wfg
abbrev pub Graph : Type 0
Graph = List (ℕ × List ℕ)

-- `d.wfg[tx]`
pub edges : Graph → ℕ → List ℕ
edges [] tx = []
edges ((w, hs) ∷ g) tx = if w == tx then hs else edges g tx

-- `d.wfg[tx] = holders`
pub put_edges : Graph → ℕ → List ℕ → Graph
put_edges [] tx holders = (tx, holders) ∷ []
put_edges ((w, hs) ∷ g) tx holders =
    if w == tx then (tx, holders) ∷ g else (w, hs) ∷ put_edges g tx holders

-- What the local variables `visited` and `recursionStack` of detectCycle hold.
pub record Marks : Type 0 where
  pub visited : ℕ → Bool
  pub stacked : ℕ → Bool

abbrev pub update : (ℕ → Bool) → ℕ → Bool → ℕ → Bool
update m k v j = if k == j then v else m j

abbrev pub enter : ℕ → Marks → Marks
enter node m = record { visited = update m.visited node true; stacked = update m.stacked node true }

abbrev pub leave : ℕ → Marks → Marks
leave node m = record m { stacked = update m.stacked node false }

-- `if dfs(neighbor) { return true }`, then the rest of the loop. `none` is a search out of fuel.
abbrev pub proceed : (Marks → Option (Bool × Marks)) → Option (Bool × Marks) → Option (Bool × Marks)
proceed rest none = none
proceed rest (some (true, m)) = some (true, m)
proceed rest (some (false, m)) = rest m

-- The loop over the neighbors, with `dfs` for an unvisited one.
pub scan : (ℕ → Marks → Option (Bool × Marks)) → List ℕ → Marks → Option (Bool × Marks)
scan dfs [] m = some (false, m)
scan dfs (n ∷ ns) m =
    let rest = scan dfs ns in
    let down = proceed rest (dfs n m) in
    if m.visited n then (if m.stacked n then some (true, m) else rest m) else down

-- `recursionStack[node] = false` before the `return false`.
abbrev pub finish : ℕ → Option (Bool × Marks) → Option (Bool × Marks)
finish node none = none
finish node (some (true, m)) = some (true, m)
finish node (some (false, m)) = some (false, leave node m)

pub dfs : ℕ → Graph → ℕ → Marks → Option (Bool × Marks)
dfs zero g node m = none
dfs (suc fuel) g node m = finish node (scan (dfs fuel g) (edges g node) (enter node m))

pub unmarked : Marks
unmarked = record { visited = λ n. false; stacked = λ n. false }

-- Every node of the graph but the start, with repetitions.
pub targets : Graph → List ℕ
targets [] = []
targets ((w, hs) ∷ g) = hs ++ targets g

-- The depth of the recursion is at most the number of nodes.
pub detect_cycle : Graph → ℕ → Option Bool
unfolding dfs scan edges targets unmarked
detect_cycle g start = elim (dfs (length (targets g) + 2) g start unmarked) [
  | none ↦ none
  | some (found, m) ↦ some found
]

-- AddEdge: the new graph, and what detectCycle says of it.
pub add_edge : Graph → ℕ → ℕ → Graph
unfolding put_edges edges
add_edge g waiter holder = put_edges g waiter (edges g waiter ++ holder ∷ [])

-- The list without its first `holder`.
pub drop_first : ℕ → List ℕ → List ℕ
drop_first holder [] = []
drop_first holder (h ∷ hs) = if h == holder then hs else h ∷ drop_first holder hs

has : ℕ → List ℕ → Bool
has holder [] = false
has holder (h ∷ hs) = if h == holder then true else has holder hs

-- RemoveEdge writes the list back only if it found the holder.
pub remove_edge : Graph → ℕ → ℕ → Graph
unfolding put_edges edges drop_first has
remove_edge g waiter holder =
    if has holder (edges g waiter)
    then put_edges g waiter (drop_first holder (edges g waiter))
    else g

pub drop_all : ℕ → List ℕ → List ℕ
drop_all tx [] = []
drop_all tx (h ∷ hs) = let rest = drop_all tx hs in if h == tx then rest else h ∷ rest

pub remove_node : Graph → ℕ → Graph
unfolding drop_all
remove_node [] tx = []
remove_node ((w, hs) ∷ g) tx =
    let rest = remove_node g tx in if w == tx then rest else (w, drop_all tx hs) ∷ rest

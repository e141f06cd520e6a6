-- ===== src/Deadlock/Edges.antt =====
-- server/internal/core/storage/deadlock.go: which waits AddEdge, RemoveEdge and RemoveNode leave.
use pro_labs.Common.{
  ℕ, ◌≡◌, ◌≢◌, ◌↔◌, ◌⊎◌, refl, true, List, [], ◌∷◌, ◌++◌, ◌==◌, if◌then◌else◌, arith,
}
use pro_labs.Deadlock.{Graph, edges, put_edges, add_edge, remove_node, drop_all}
use pro_labs.Deadlock.Walks.{Waits, elem, elem-append}

pub edges-put_edges :
    (g : Graph) (tx : ℕ) (hs : List ℕ) (u : ℕ)
    → edges (put_edges g tx hs) u ≡ (if tx == u then hs else edges g u)
unfolding edges put_edges
edges-put_edges [] tx hs u = refl
edges-put_edges ((w, ws) ∷ g) tx hs u = ground (arith, edges-put_edges g tx hs u)

-- AddEdge adds the one wait and nothing else.
pub Waits-add_edge :
    (g : Graph) (waiter holder u v : ℕ)
    → Waits (add_edge g waiter holder) u v ↔ (Waits g u v ⊎ ((u ≡ waiter) × (v ≡ holder)))
unfolding add_edge
Waits-add_edge g waiter holder u v = ground (
  arith,
  edges-put_edges g waiter (edges g waiter ++ holder ∷ []) u,
  elem-append v (edges g waiter) (holder ∷ []),
)

elem-drop_all :
    (tx v : ℕ) (hs : List ℕ) → (elem v (drop_all tx hs) ≡ true) ↔ ((elem v hs ≡ true) × (v ≢ tx))
unfolding drop_all
elem-drop_all tx v [] = ground arith
elem-drop_all tx v (h ∷ hs) = ground (arith, elem-drop_all tx v hs)

edges-remove_node :
    (g : Graph) (tx u : ℕ)
    → edges (remove_node g tx) u ≡ (if u == tx then [] else drop_all tx (edges g u))
unfolding edges remove_node
edges-remove_node [] tx u = ground arith
edges-remove_node ((w, hs) ∷ g) tx u = ground (arith, edges-remove_node g tx u)

-- RemoveNode leaves exactly the waits between other transactions.
pub Waits-remove_node :
    (g : Graph) (tx u v : ℕ) → Waits (remove_node g tx) u v ↔ (Waits g u v × (u ≢ tx) × (v ≢ tx))
Waits-remove_node g tx u v =
    ground (arith, edges-remove_node g tx u, elem-drop_all tx v (edges g u))

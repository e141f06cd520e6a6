-- ===== src/Deadlock/Tests.antt =====
-- server/internal/core/storage/deadlock.go: small graphs, and the theorems at them.
use pro_labs.Common.{◌≡◌, refl, true, false, some, [], ◌∷◌}
use pro_labs.Deadlock.{Graph, detect_cycle, add_edge, remove_edge, remove_node, edges}
use pro_labs.Deadlock.Walks.{IsAcyclic}
use pro_labs.Deadlock.Detect.{Decides, detect_cycle-Decides, add_edge-IsAcyclic}

abbrev chain : Graph
chain = (1, 2 ∷ []) ∷ (2, 3 ∷ []) ∷ []

closing : detect_cycle (add_edge chain 3 1) 3 ≡ some true
unfolding detect_cycle add_edge
closing = refl

harmless : detect_cycle (add_edge chain 3 4) 3 ≡ some false
unfolding detect_cycle add_edge
harmless = refl

removed :
    (remove_edge ((1, 2 ∷ 3 ∷ 2 ∷ []) ∷ []) 1 2 ≡ (1, 3 ∷ 2 ∷ []) ∷ [])
    × (remove_node chain 2 ≡ (1, []) ∷ [])
unfolding remove_edge remove_node
removed = (refl, refl)

detect_cycle-Decides_example : Decides chain 1 (detect_cycle chain 1)
detect_cycle-Decides_example = detect_cycle-Decides chain 1

no_walks : IsAcyclic []
unfolding edges
no_walks u d = cc d.waits

add_edge-IsAcyclic_example : IsAcyclic (add_edge [] 1 2)
unfolding detect_cycle add_edge
add_edge-IsAcyclic_example = add_edge-IsAcyclic [] 1 2 no_walks refl

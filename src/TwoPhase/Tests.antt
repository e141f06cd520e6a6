-- ===== src/TwoPhase/Tests.antt =====
-- server/internal/cluster/tx2pc/2pc.go: a small schedule, and the theorem at it.
use pro_labs.Common.{◌≡◌, refl, some, [], ◌∷◌, find}
use pro_labs.TwoPhase.{
  tx_state_aborted, tx_state_committed, new_two_phase_coordinator, prepares, commits, rolls_back,
  handle, handle_all,
}
use pro_labs.TwoPhase.Decided.{handle_all-final}

-- A transaction that rolled back first does not commit later.
decides :
    find "a" (
      handle_all
        (prepares "a" ∷ prepares "b" ∷ rolls_back "a" ∷ commits "a" ∷ commits "b" ∷ [])
        new_two_phase_coordinator)
    ≡ some tx_state_aborted
unfolding handle handle_all
decides = refl

handle_all-final_example :
    find "a" (handle_all (rolls_back "a" ∷ prepares "a" ∷ []) (("a", tx_state_committed) ∷ []))
    ≡ some tx_state_committed
handle_all-final_example =
    handle_all-final (rolls_back "a" ∷ prepares "a" ∷ []) "a" (("a", tx_state_committed) ∷ [])
      tx_state_committed tt refl

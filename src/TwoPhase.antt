-- ===== src/TwoPhase.antt =====
-- server/internal/cluster/tx2pc/2pc.go: the coordinator of distributed transactions.
--
-- Each method holds the coordinator's lock, so it is one step. The three errors of the code that leave
-- the coordinator as it was are `refused`.
pub mod Decided
mod Tests
use Prim.Native.String.{String}
use pro_labs.Common.{Option, none, some, List, [], ◌∷◌, find, put}

pub data TransactionState : Type 0 where
  tx_state_init : TransactionState
  tx_state_prepared : TransactionState
  tx_state_committed : TransactionState
  tx_state_aborted : TransactionState

-- `TwoPhaseCoordinator`: the state of each transaction.
abbrev pub TwoPhaseCoordinator : Type 0
TwoPhaseCoordinator = List (String × TransactionState)

abbrev pub new_two_phase_coordinator : TwoPhaseCoordinator
new_two_phase_coordinator = []

pub data Answer : Type 0 where
  accepted : TransactionState → Answer
  refused : Answer

-- What each method makes of the state that the map has for the transaction.
abbrev pub prepare_from : Option TransactionState → Answer
prepare_from none = accepted tx_state_prepared
prepare_from (some tx_state_init) = accepted tx_state_prepared
prepare_from (some tx_state_prepared) = refused
prepare_from (some tx_state_committed) = refused
prepare_from (some tx_state_aborted) = refused

abbrev pub commit_from : Option TransactionState → Answer
commit_from none = refused
commit_from (some tx_state_init) = refused
commit_from (some tx_state_prepared) = accepted tx_state_committed
commit_from (some tx_state_committed) = refused
commit_from (some tx_state_aborted) = refused

abbrev pub rollback_from : Option TransactionState → Answer
rollback_from none = refused
rollback_from (some tx_state_init) = accepted tx_state_aborted
rollback_from (some tx_state_prepared) = accepted tx_state_aborted
rollback_from (some tx_state_committed) = refused
rollback_from (some tx_state_aborted) = accepted tx_state_aborted

abbrev pub store : String → TwoPhaseCoordinator → Answer → TwoPhaseCoordinator
store tx c (accepted s) = put tx s c
store tx c refused = c

pub data Request : Type 0 where
  prepares : String → Request
  commits : String → Request
  rolls_back : String → Request

unfoldable pub handle : Request → TwoPhaseCoordinator → TwoPhaseCoordinator
handle (prepares tx) c = store tx c (prepare_from (find tx c))
handle (commits tx) c = store tx c (commit_from (find tx c))
handle (rolls_back tx) c = store tx c (rollback_from (find tx c))

unfoldable pub handle_all : List Request → TwoPhaseCoordinator → TwoPhaseCoordinator
handle_all [] c = c
handle_all (r ∷ requests) c = handle_all requests (handle r c)

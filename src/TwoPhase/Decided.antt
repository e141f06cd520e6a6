-- ===== src/TwoPhase/Decided.antt =====
-- server/internal/cluster/tx2pc/2pc.go: a decision on a transaction stands.
use Prim.Native.String.{String}
use text.Mathlib.Text.{◌==◌ as str_eq}
use text.Mathlib.TextEquality.{eq_iff}
use mathlib.Core.Path.{subst}
use pro_labs.Common.{
  ◌≡◌, ◌≢◌, inl, inr, refl, sym, ◌∙◌, ap, Option, some, List, [], ◌∷◌, Bool-cases, find, find-put,
  find-put_ne,
}
use pro_labs.TwoPhase.{
  TransactionState, tx_state_init, tx_state_prepared, tx_state_committed, tx_state_aborted,
  TwoPhaseCoordinator, Answer, accepted, refused, prepare_from, commit_from, rollback_from, store,
  Request, prepares, commits, rolls_back, handle, handle_all,
}

abbrev pub IsFinal : TransactionState → Type 0
IsFinal tx_state_init = ⊥
IsFinal tx_state_prepared = ⊥
IsFinal tx_state_committed = Unit
IsFinal tx_state_aborted = Unit

-- An answer that leaves this state as it is.
abbrev Leaves : TransactionState → Answer → Type 0
Leaves s (accepted t) = t ≡ s
Leaves s refused = Unit

prepare_from-Leaves : (s : TransactionState) → IsFinal s → Leaves s (prepare_from (some s))
prepare_from-Leaves tx_state_init h = absurd h
prepare_from-Leaves tx_state_prepared h = tt
prepare_from-Leaves tx_state_committed h = tt
prepare_from-Leaves tx_state_aborted h = tt

commit_from-Leaves : (s : TransactionState) → IsFinal s → Leaves s (commit_from (some s))
commit_from-Leaves tx_state_init h = tt
commit_from-Leaves tx_state_prepared h = absurd h
commit_from-Leaves tx_state_committed h = tt
commit_from-Leaves tx_state_aborted h = tt

rollback_from-Leaves : (s : TransactionState) → IsFinal s → Leaves s (rollback_from (some s))
rollback_from-Leaves tx_state_init h = absurd h
rollback_from-Leaves tx_state_prepared h = absurd h
rollback_from-Leaves tx_state_committed h = tt
rollback_from-Leaves tx_state_aborted h = refl

find-store_same :
    (tx : String) (c : TwoPhaseCoordinator) (s : TransactionState) (a : Answer)
    → find tx c ≡ some s
    → Leaves s a
    → find tx (store tx c a) ≡ some s
find-store_same tx c s (accepted t) e h = find-put tx t c ∙ ap some h
find-store_same tx c s refused e h = e

find-store_ne :
    (tx other : String) (c : TwoPhaseCoordinator) (a : Answer)
    → tx ≢ other
    → find other (store tx c a) ≡ find other c
find-store_ne tx other c (accepted t) h = find-put_ne tx other t c h
find-store_ne tx other c refused h = refl

-- A method that leaves the state of the transaction it is called for leaves that of any.
stands :
    (from : Option TransactionState → Answer) (called tx : String) (c : TwoPhaseCoordinator)
    (s : TransactionState)
    → find tx c ≡ some s
    → Leaves s (from (some s))
    → find tx (store called c (from (find called c))) ≡ some s
stands from called tx c s e h = elim (Bool-cases (str_eq called tx)) [
  | inl same ↦
      let k : called ≡ tx = (eq_iff called tx).0 same in
      subst (λ (x : String). find tx (store x c (from (find x c))) ≡ some s) (sym k)
        (subst (λ x. find tx (store tx c (from x)) ≡ some s) (sym e)
          (find-store_same tx c s (from (some s)) e h))
  | inr other ↦
      let ne : called ≢ tx = λ k. absurd (cc (other, (eq_iff called tx).1 k)) in
      find-store_ne called tx c (from (find called c)) ne ∙ e
]

handle-final :
    (r : Request) (tx : String) (c : TwoPhaseCoordinator) (s : TransactionState)
    → IsFinal s
    → find tx c ≡ some s
    → find tx (handle r c) ≡ some s
unfolding handle
handle-final (prepares called) tx c s f e =
    stands prepare_from called tx c s e (prepare_from-Leaves s f)
handle-final (commits called) tx c s f e =
    stands commit_from called tx c s e (commit_from-Leaves s f)
handle-final (rolls_back called) tx c s f e =
    stands rollback_from called tx c s e (rollback_from-Leaves s f)

-- A transaction that is committed or aborted stays so, whatever Prepare, Commit and Rollback are called
-- with from then on, in any order and for any transactions.
pub handle_all-final :
    (requests : List Request) (tx : String) (c : TwoPhaseCoordinator) (s : TransactionState)
    → IsFinal s
    → find tx c ≡ some s
    → find tx (handle_all requests c) ≡ some s
unfolding handle_all
handle_all-final [] tx c s f e = e
handle_all-final (r ∷ requests) tx c s f e =
    handle_all-final requests tx (handle r c) s f (handle-final r tx c s f e)

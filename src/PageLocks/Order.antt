-- ===== src/PageLocks/Order.antt =====
-- server/internal/core/storage/page_lock.go: tables that are locked at the same time.
use mathlib.Core.Path.{subst}
use pro_labs.Common.{
  ℕ, ◌<◌, ◌≡◌, arith, true, List, [], ◌∷◌, ◌++◌, ◌==◌, ==_iff, Bool-cases, inl, inr, All,
}
use pro_labs.Bitmap.Slots.{Ascending, among}
use pro_labs.PageLocks.{PageId, stripes_of}
use pro_labs.PageLocks.Stripes.{stripes_of_lem}

-- A goroutine within LockTable: it has the stripes in `held`, and waits for the next one.
pub record Waiting : Type 0 where
  pub pids : List PageId
  pub held : List ℕ
  pub wanted : ℕ
  pub left : List ℕ
  pub split : stripes_of pids ≡ held ++ (wanted ∷ left)

-- A goroutine waits for one that has its stripe.
abbrev pub WaitsFor : Waiting → Waiting → Type 0
WaitsFor t u = among t.wanted u.held ≡ true

-- Each waits for the next one.
abbrev pub WaitChain : Waiting → List Waiting → Waiting → Type 0
WaitChain t [] u = WaitsFor t u
WaitChain t (v ∷ vs) u = WaitsFor t v × WaitChain v vs u

among_below :
    (x w : ℕ) (held left : List ℕ) → Ascending (held ++ (w ∷ left)) → among x held ≡ true → x < w
among_below x w [] left a h = absurd (cc h)
among_below x w (y ∷ held) left a h = elim (Bool-cases (y == x)) [
  | inl here ↦ subst (λ (z : ℕ). z < w) ((==_iff y x).0 here) (first_below y w held left a.0)
  | inr other ↦ among_below x w held left a.1 (ground (arith, other, h))
]
  where
    first_below : (y w : ℕ) (held left : List ℕ) → All (λ z. y < z) (held ++ (w ∷ left)) → y < w
    first_below y w [] left a = a.0
    first_below y w (z ∷ held) left a = first_below y w held left a.1

waits_below : (t u : Waiting) → WaitsFor t u → t.wanted < u.wanted
waits_below t u h =
    among_below t.wanted u.wanted u.held u.left (subst Ascending u.split (stripes_of_lem u.pids).0)
      h

chain_below :
    (t : Waiting) (vs : List Waiting) (u : Waiting) → WaitChain t vs u → t.wanted < u.wanted
chain_below t [] u h = waits_below t u h
chain_below t (v ∷ vs) u h = omega (arith, waits_below t v h.0, chain_below v vs u h.1)

-- Goroutines that lock tables, whichever pages these have, never wait for one another in a circle, however
-- many they are.
pub WaitChain-acyclic : (t : Waiting) (vs : List Waiting) → ¬ WaitChain t vs t
WaitChain-acyclic t vs h = omega (arith, chain_below t vs t h)

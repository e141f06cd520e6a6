-- ===== src/Deadlock/Fuel.antt =====
-- server/internal/core/storage/deadlock.go: the search ends. Every call of dfs marks one more node
-- of a finite graph, so that the calls are no deeper than the graph has nodes.
use pro_labs.Common.{
  ℕ, zero, suc, ◌+◌, ◌≤◌, ◌<◌, ◌≡◌, inl, inr, refl, sym, ◌∙◌, ap, Bool, true, false, Option, none,
  some, List, [], ◌∷◌, if◌then◌else◌, arith, Bool-cases, length,
}
use native.Mathlib.Decide.{ℕ_discrete}
use pro_labs.Deadlock.{
  Graph, Marks, edges, targets, update, enter, proceed, finish, scan, dfs, unmarked,
}
use pro_labs.Deadlock.Walks.{Waits, elem, elem-append}

-- How many entries of a list of nodes are not visited.
pub fresh : (ℕ → Bool) → List ℕ → ℕ
fresh visited [] = 0
fresh visited (u ∷ us) = (if visited u then 0 else 1) + fresh visited us

abbrev More : (ℕ → Bool) → (ℕ → Bool) → Type 0
More a b = (u : ℕ) → a u ≡ true → b u ≡ true

fresh_mono : (a b : ℕ → Bool) (us : List ℕ) → More a b → fresh b us ≤ fresh a us
unfolding fresh
fresh_mono a b [] h = omega arith
fresh_mono a b (u ∷ us) h = ground (arith, h u, fresh_mono a b us h)

fresh-update :
    (a : ℕ → Bool) (n : ℕ) (us : List ℕ)
    → elem n us ≡ true
    → a n ≡ false
    → fresh (update a n true) us < fresh a us
unfolding fresh
fresh-update a n [] e f = cc
fresh-update a n (u ∷ us) e f =
    let rest = fresh_mono a (update a n true) us (λ j h. ground arith) in
    elim (ℕ_discrete n u) [
      | yes same ↦ let here : a u ≡ false = ap a (sym same) ∙ f in ground (arith, here, rest)
      | no other ↦ let deep = fresh-update a n us (ground arith) f in ground (arith, deep)
    ]

-- A search that does not run out of fuel, and forgets no visit.
abbrev pub Ends : Marks → Option (Bool × Marks) → Type 0
Ends m none = ⊥
Ends m (some (found, m')) = More m.visited m'.visited

Ends-trans :
    (m m' : Marks) (r : Option (Bool × Marks)) → More m.visited m'.visited → Ends m' r → Ends m r
Ends-trans m m' none h e = e
Ends-trans m m' (some (found, m'')) h e = λ u x. e u (h u x)

proceed-Ends :
    (rest : Marks → Option (Bool × Marks)) (m : Marks) (r : Option (Bool × Marks))
    → Ends m r
    → ((m' : Marks) → More m.visited m'.visited → Ends m' (rest m'))
    → Ends m (proceed rest r)
proceed-Ends rest m none e f = e
proceed-Ends rest m (some (true, m')) e f = e
proceed-Ends rest m (some (false, m')) e f = Ends-trans m m' (rest m') e (f m' e)

finish-Ends : (node : ℕ) (m : Marks) (r : Option (Bool × Marks)) → Ends m r → Ends m (finish node r)
finish-Ends node m none e = e
finish-Ends node m (some (true, m')) e = e
finish-Ends node m (some (false, m')) e = e

-- The calls of dfs that the loop makes end, while fewer than `k` nodes are not visited.
abbrev CallsEnd : List ℕ → ℕ → (ℕ → Marks → Option (Bool × Marks)) → Type 0
CallsEnd us k go =
    (n : ℕ) (m : Marks)
    → elem n us ≡ true
    → m.visited n ≡ false
    → fresh m.visited us < k
    → Ends m (go n m)

scan-Ends :
    (us : List ℕ) (k : ℕ) (go : ℕ → Marks → Option (Bool × Marks))
    → CallsEnd us k go
    → (ns : List ℕ) (m : Marks) → ((n : ℕ) → elem n ns ≡ true → elem n us ≡ true)
    → fresh m.visited us < k
    → Ends m (scan go ns m)
unfolding scan
scan-Ends us k go ends [] m sub h = λ u e. e
scan-Ends us k go ends (n ∷ ns) m sub h =
    let tail : (m' : Marks) → More m.visited m'.visited → Ends m' (scan go ns m') = λ m' mono.
      scan-Ends us k go ends ns m' (λ j e. sub j (ground arith))
        (omega (arith, fresh_mono m.visited m'.visited us mono)) in
    elim (Bool-cases (m.visited n)) [
      | inl seen ↦ elim (Bool-cases (m.stacked n)) [
        | inl on ↦ rw (seen, on) (λ u e. e)
        | inr off ↦ rw (seen, off) (tail m (λ u e. e))
      ]
      | inr unseen ↦
          rw unseen
            (proceed-Ends (scan go ns) m (go n m) (ends n m (sub n (ground arith)) unseen h) tail)
    ]

dfs-Ends :
    (g : Graph) (us : List ℕ)
    → ((u v : ℕ) → Waits g u v → elem v us ≡ true)
    → (k : ℕ) → CallsEnd us k (dfs k g)
unfolding dfs
dfs-Ends g us all zero n m e f h = absurd (omega arith)
dfs-Ends g us all (suc k) n m e f h = finish-Ends n m (scan (dfs k g) (edges g n) (enter n m)) (
    Ends-trans m (enter n m) (scan (dfs k g) (edges g n) (enter n m)) (λ u x. ground arith)
      (scan-Ends us k (dfs k g) (dfs-Ends g us all k) (edges g n) (enter n m) (all n)
        (omega (arith, fresh-update m.visited n us e f))))

elem-targets : (g : Graph) (u v : ℕ) → Waits g u v → elem v (targets g) ≡ true
unfolding edges targets
elem-targets [] u v e = cc
elem-targets ((w, hs) ∷ g) u v e = ground (arith, elem-targets g u v, elem-append v hs (targets g))

fresh-none : (us : List ℕ) → fresh (λ n. false) us ≡ length us
unfolding fresh
fresh-none [] = refl
fresh-none (u ∷ us) = omega (arith, fresh-none us)

-- With one call more than the graph has nodes the search from any start ends.
pub dfs-start-Ends :
    (g : Graph) (start : ℕ) → Ends unmarked (dfs (length (targets g) + 2) g start unmarked)
unfolding unmarked
dfs-start-Ends g start =
    dfs-Ends g (start ∷ targets g) (λ u v e. ground (arith, elem-targets g u v e))
      (length (targets g) + 2) start _ (ground arith) refl
      (omega (arith, fresh-none (start ∷ targets g)))

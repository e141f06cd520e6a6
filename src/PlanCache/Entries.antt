-- ===== src/PlanCache/Entries.antt =====
-- server/internal/core/executor/plan_cache.go: the map of plans, and its oldest entry.
use mathlib.Core.Option.{some_inj}
use mathlib.Core.List.{head-eq_of_cons-eq, tail-eq_of_cons-eq}
use pro_labs.Common.{
  ℕ, suc, ◌≤◌, ◌<◌, ◌≡◌, refl, sym, ap, ◌∙◌, arith, Bool, true, some, List, [], ◌∷◌, ◌++◌, length,
  ltb, ◌==◌, if◌then◌else◌, if-cases, Bool-cases, inl, inr, All,
}
use pro_labs.PlanCache.{CachedPlan, plan_at, without_plan, with_plan, plans_if, oldest_from}

module _ {Plan : Type 0} where
  pub plan_at-with_plan :
      (hash : ℕ) (p : CachedPlan Plan) (plans : List (ℕ × CachedPlan Plan))
      → plan_at hash (with_plan hash p plans) ≡ some p
  unfolding plan_at with_plan
  plan_at-with_plan hash p [] = ground arith
  plan_at-with_plan hash p ((h, q) ∷ plans) = elim (Bool-cases (h == hash)) [
    | inl here ↦ rw (here) (rw here refl)
    | inr other ↦ rw other (rw other (plan_at-with_plan hash p plans))
  ]

  pub length-with_plan :
      (hash : ℕ) (p : CachedPlan Plan) (plans : List (ℕ × CachedPlan Plan))
      → length (with_plan hash p plans) ≤ suc (length plans)
  unfolding with_plan
  length-with_plan hash p [] = omega arith
  length-with_plan hash p ((h, q) ∷ plans) = ground (arith, length-with_plan hash p plans)

  pub length-with_plan_at :
      (hash : ℕ) (p q : CachedPlan Plan) (plans : List (ℕ × CachedPlan Plan))
      → plan_at hash plans ≡ some q
      → length (with_plan hash p plans) ≡ length plans
  unfolding with_plan plan_at
  length-with_plan_at hash p q [] e = absurd (cc e)
  length-with_plan_at hash p q ((h, r) ∷ plans) e = elim (Bool-cases (h == hash)) [
    | inl here ↦ rw here refl
    | inr other ↦
        let k : plan_at hash plans ≡ some q =
          sym (ap (λ (b : Bool). if b then some r else plan_at hash plans) other) ∙ e in
        rw other (ap suc (length-with_plan_at hash p q plans k))
  ]

  pub length-without_plan :
      (hash : ℕ) (plans : List (ℕ × CachedPlan Plan))
      → length (without_plan hash plans) ≤ length plans
  unfolding without_plan
  length-without_plan hash [] = omega arith
  length-without_plan hash ((h, q) ∷ plans) = ground (arith, length-without_plan hash plans)

  pub length-plans_if :
      (test : CachedPlan Plan → Bool) (plans : List (ℕ × CachedPlan Plan))
      → length (plans_if test plans) ≤ length plans
  unfolding plans_if
  length-plans_if test [] = omega arith
  length-plans_if test ((h, q) ∷ plans) = ground (arith, length-plans_if test plans)

  -- What is left of a map passes the test.
  pub plan_at-plans_if :
      (test : CachedPlan Plan → Bool) (hash : ℕ) (p : CachedPlan Plan)
      (plans : List (ℕ × CachedPlan Plan))
      → plan_at hash (plans_if test plans) ≡ some p
      → test p ≡ true
  unfolding plan_at plans_if
  plan_at-plans_if test hash p [] e = absurd (cc e)
  plan_at-plans_if test hash p ((h, q) ∷ plans) e = elim (Bool-cases (test q)) [
    | inl passed ↦
        let k : plan_at hash ((h, q) ∷ plans_if test plans) ≡ some p =
          sym (
            ap
              (λ (b : Bool).
                plan_at hash (if b then (h, q) ∷ plans_if test plans else plans_if test plans))
              passed)
          ∙ e in
        elim (Bool-cases (h == hash)) [
          | inl here ↦
              let same : q ≡ p = some_inj.0 (
                sym
                  (ap (λ (b : Bool). if b then some q else plan_at hash (plans_if test plans)) here)
                ∙ k) in
              ap test (sym same) ∙ passed
          | inr other ↦ plan_at-plans_if test hash p plans (
              sym
                (ap (λ (b : Bool). if b then some q else plan_at hash (plans_if test plans)) other)
              ∙ k)
        ]
    | inr failed ↦ plan_at-plans_if test hash p plans (
        sym (
          ap
            (λ (b : Bool).
              plan_at hash (if b then (h, q) ∷ plans_if test plans else plans_if test plans))
            failed)
        ∙ e)
  ]

  -- Where an entry stands.
  abbrev pub Stands : ℕ → CachedPlan Plan → List (ℕ × CachedPlan Plan) → Type 0
  Stands hash p plans =
      (before : List (ℕ × CachedPlan Plan)) × (after : List (ℕ × CachedPlan Plan)) × (plans
        ≡ before ++ ((hash, p) ∷ after))

  -- Deleting an entry that stands in the map makes it shorter.
  pub length-without_plan_at :
      (hash : ℕ) (p : CachedPlan Plan) (before after : List (ℕ × CachedPlan Plan))
      → length (without_plan hash (before ++ ((hash, p) ∷ after)))
        < length (before ++ ((hash, p) ∷ after))
  unfolding without_plan
  length-without_plan_at hash p [] after = ground (arith, length-without_plan hash after)
  length-without_plan_at hash p ((h, q) ∷ before) after =
      ground (arith, length-without_plan_at hash p before after)

  -- A hash and a time that are those of an entry, none of which is older.
  abbrev pub IsOldest : List (ℕ × CachedPlan Plan) → ℕ × ℕ → Type 0
  IsOldest plans o =
      (p : CachedPlan Plan) × Stands o.0 p plans
      × (p.created_at ≡ o.1)
      × All (λ (f : ℕ × CachedPlan Plan). o.1 ≤ f.1.created_at) plans

  Stands-insert :
      (hash : ℕ) (p : CachedPlan Plan) (e f : ℕ × CachedPlan Plan)
      (plans : List (ℕ × CachedPlan Plan))
      → Stands hash p (e ∷ plans)
      → Stands hash p (e ∷ f ∷ plans)
  Stands-insert hash p e f plans ([], after, h) =
      ([], f ∷ after, λ i. head-eq_of_cons-eq h i ∷ f ∷ tail-eq_of_cons-eq h i)
  Stands-insert hash p e f plans (x ∷ before, after, h) =
      (x ∷ f ∷ before, after, λ i. head-eq_of_cons-eq h i ∷ f ∷ tail-eq_of_cons-eq h i)

  -- The loop over the plans, from one of them on, ends with the oldest of all.
  pub oldest_from-IsOldest :
      (plans : List (ℕ × CachedPlan Plan)) (h : ℕ) (p : CachedPlan Plan)
      → IsOldest ((h, p) ∷ plans) (oldest_from (h, p.created_at) plans)
  unfolding oldest_from
  oldest_from-IsOldest [] h p = (p, ([], [], refl), refl, (omega arith, tt))
  oldest_from-IsOldest ((k, q) ∷ plans) h p =
      if-cases (λ (f : ℕ × ℕ). IsOldest ((h, p) ∷ (k, q) ∷ plans) (oldest_from f plans))
        (ltb q.created_at p.created_at)
        (λ older.
          let (r, (before, after, e), t, (a, rest)) = oldest_from-IsOldest plans k q in
          (
            r,
            ((h, p) ∷ before, after, ap (◌∷◌ (h, p)) e),
            t,
            (ground (arith, older, a), (a, rest)),
          ))
        (λ not_older.
          let (r, stands, t, (a, rest)) = oldest_from-IsOldest plans h p in
          (
            r,
            Stands-insert _ r (h, p) (k, q) plans stands,
            t,
            (a, (ground (arith, not_older, a), rest)),
          ))

-- ===== src/PlanCache/Answers.antt =====
-- server/internal/core/executor/plan_cache.go: what Get answers, and what Put evicts.
use mathlib.Core.Path.{subst}
use mathlib.Core.Option.{some_inj}
use mathlib.Core.List.{append_assoc}
use pro_labs.Common.{
  ℕ, ◌+◌, ◌-◌, ◌≤◌, ◌<◌, ◌≡◌, ◌≢◌, refl, sym, ap, ◌∙◌, arith, Bool, false, not, Option, none, some,
  List, [], ◌∷◌, ◌++◌, length, ltb, leb, ◌==◌, if◌then◌else◌, if-cases, Bool-cases, inl, inr, Text,
  same_text, same_text_iff,
}
use pro_labs.PlanCache.{
  CachedPlan, PlanCache, plan_at, without_plan, with_plan, plans_if, plan_with, get_plan, hit,
  oldest_from, evicted, evict_oldest, put_plan, invalidate_plans, invalidate_by_version, query_hash,
  written, drop_plan,
}
use pro_labs.PlanCache.Entries.{
  plan_at-with_plan, length-with_plan, length-without_plan_at, plan_at-plans_if, IsOldest,
  oldest_from-IsOldest,
}

-- QueryHash does not separate what it writes: a query with a parameter has the hash of the query with the
-- text of the parameter behind it.
pub query_hash_joined :
    {Param : Type 0} (fnv : Text → ℕ) (format : Param → Text) (query : Text) (p : Param)
    (params : List Param)
    → query_hash fnv format query (p ∷ params) ≡ query_hash fnv format (query ++ format p) params
query_hash_joined fnv format query p params =
    ap fnv (sym (append_assoc query (format p) (written format params)))

module _ {Plan : Type 0} where
  -- No more plans than the size, which is at least one.
  abbrev pub IsPlanCache : PlanCache Plan → Type 0
  IsPlanCache c = (length c.plans ≤ c.max_size) × (1 ≤ c.max_size)

  evicted_max_size :
      (c : PlanCache Plan) (plans : List (ℕ × CachedPlan Plan))
      → (evicted plans c).max_size ≡ c.max_size
  evicted_max_size c [] = refl
  evicted_max_size c ((h, p) ∷ plans) = refl

  evict_oldest_lem :
      (c : PlanCache Plan) (plans : List (ℕ × CachedPlan Plan))
      → c.plans ≡ plans
      → 1 ≤ length plans
      → (victim : ℕ × ℕ) × IsOldest c.plans victim
        × ((evicted plans c).plans ≡ without_plan victim.0 c.plans)
        × (length (evicted plans c).plans < length c.plans)
  evict_oldest_lem c [] e h = absurd (omega arith)
  evict_oldest_lem c ((h, p) ∷ plans) e k =
      let victim = oldest_from (h, p.created_at) plans in
      let oldest = oldest_from-IsOldest plans h p in
      let (q, (before, after, stands), t, all) = oldest in
      let all_of : c.plans ≡ before ++ ((victim.0, q) ∷ after) = e ∙ stands in
      (
        victim,
        subst (λ (xs : List (ℕ × CachedPlan Plan)). IsOldest xs victim) (sym e) oldest,
        refl,
        subst (λ (xs : List (ℕ × CachedPlan Plan)). length (without_plan victim.0 xs) < length xs)
            (sym all_of) (length-without_plan_at victim.0 q before after),
      )

  -- Put into a full cache, of at least one place and no more plans than places, keeps the new plan
  -- and no more plans than places. It deletes the entries of one hash first, which is that of a
  -- plan that none is older than, whether or not the hash of the new plan is in the cache.
  pub put_plan-full :
      (hash : ℕ) (p : CachedPlan Plan) (c : PlanCache Plan)
      → IsPlanCache c
      → c.max_size ≤ length c.plans
      → IsPlanCache (put_plan hash p c)
        × (plan_at hash (put_plan hash p c).plans ≡ some p)
        × ((victim : ℕ × ℕ) × IsOldest c.plans victim
            × ((put_plan hash p c).plans ≡ with_plan hash p (without_plan victim.0 c.plans)))
  unfolding put_plan
  put_plan-full hash p c v full =
      let (victim, oldest, rest, shorter) =
        evict_oldest_lem c c.plans refl (omega (arith, v.0, v.1)) in
      let size : length (evict_oldest c).plans < c.max_size = omega (arith, v.0) in
      let most : (evict_oldest c).max_size ≡ c.max_size = evicted_max_size c c.plans in
      if-cases
        (λ (room : PlanCache Plan).
          IsPlanCache (record room { plans = with_plan hash p room.plans })
          × (plan_at hash (with_plan hash p room.plans) ≡ some p)
          × ((w : ℕ × ℕ) × IsOldest c.plans w
              × (with_plan hash p room.plans ≡ with_plan hash p (without_plan w.0 c.plans))))
        (leb c.max_size (length c.plans))
        (λ is_full. (
          (
            omega (arith, size, most, length-with_plan hash p (evict_oldest c).plans),
            omega (arith, most, v.1),
          ),
          plan_at-with_plan hash p (evict_oldest c).plans,
          (victim, oldest, ap (with_plan hash p) rest),
        ))
        (λ not_full. absurd (ground (arith, not_full, full)))

  -- Put of a cache that is not full deletes nothing, and keeps it within its size.
  put_plan-room :
      (hash : ℕ) (p : CachedPlan Plan) (c : PlanCache Plan)
      → length c.plans < c.max_size
      → IsPlanCache (put_plan hash p c) × ((put_plan hash p c).plans ≡ with_plan hash p c.plans)
  unfolding put_plan
  put_plan-room hash p c room =
      if-cases
        (λ (r : PlanCache Plan).
          IsPlanCache (record r { plans = with_plan hash p r.plans })
          × (with_plan hash p r.plans ≡ with_plan hash p c.plans))
        (leb c.max_size (length c.plans)) (λ is_full. absurd (ground (arith, is_full, room)))
        (λ not_full. ((omega (arith, length-with_plan hash p c.plans), omega arith), refl))

  plan_with_fresh :
      (now hash schema_ver : ℕ) (c : PlanCache Plan) (q : CachedPlan Plan)
      (o : Option (CachedPlan Plan))
      → (plan_with now hash schema_ver o c).1 ≡ some q
      → (p : CachedPlan Plan) × (o ≡ some p)
        × (hit p ≡ q)
        × (p.schema_ver ≡ schema_ver)
        × (now - p.created_at ≤ c.ttl)
  plan_with_fresh now hash schema_ver c q none e = absurd (cc e)
  plan_with_fresh now hash schema_ver c q (some p) e =
      let gone : PlanCache Plan × Option (CachedPlan Plan) = (drop_plan hash c, none) in
      let found : PlanCache Plan × Option (CachedPlan Plan) =
        (record c { plans = with_plan hash (hit p) c.plans; hits = c.hits + 1 }, some (hit p)) in
      let age = ltb c.ttl (now - p.created_at) in
      elim (Bool-cases (not (p.schema_ver == schema_ver))) [
        | inl changed ↦ absurd (
            cc (
              sym (ap (λ (b : Bool). (if b then gone else if age then gone else found).1) changed)
              ∙ e))
        | inr same ↦
            let k : (if age then gone else found).1 ≡ some q =
              sym (ap (λ (b : Bool). (if b then gone else if age then gone else found).1) same)
              ∙ e in
            elim (Bool-cases age) [
              | inl old ↦
                  absurd (cc (sym (ap (λ (b : Bool). (if b then gone else found).1) old) ∙ k))
              | inr fresh ↦ (
                p,
                refl,
                some_inj.0 (sym (ap (λ (b : Bool). (if b then gone else found).1) fresh) ∙ k),
                ground (arith, same),
                ground (arith, fresh),
              )
            ]
      ]

  -- What Get answers after InvalidateByVersion is of the schema version that was asked for, which is later
  -- than the version that was invalidated, and no older than the time to live.
  pub get_plan-invalidate_by_version :
      (now hash schema_ver version : ℕ) (c : PlanCache Plan) (q : CachedPlan Plan)
      → (get_plan now hash schema_ver (invalidate_by_version version c)).1 ≡ some q
      → (q.schema_ver ≡ schema_ver) × (version < schema_ver) × (now - q.created_at ≤ c.ttl)
  unfolding get_plan invalidate_by_version
  get_plan-invalidate_by_version now hash schema_ver version c q e =
      let newer : CachedPlan Plan → Bool =
        λ (p : CachedPlan Plan). not (leb p.schema_ver version) in
      let a : PlanCache Plan = record c { plans = plans_if newer c.plans } in
      let (p, at_p, hit_p, ver_p, age_p) =
        plan_with_fresh now hash schema_ver a q (plan_at hash a.plans) e in
      let later = plan_at-plans_if newer hash p c.plans at_p in
      (
        sym (ap (λ (x : CachedPlan Plan). x.schema_ver) hit_p) ∙ ver_p,
        ground (arith, later, ver_p),
        subst (λ (x : CachedPlan Plan). now - x.created_at ≤ c.ttl) hit_p age_p,
      )

  -- What Get answers after Invalidate of a table is a plan of another table.
  pub get_plan-invalidate_plans :
      (now hash schema_ver : ℕ) (table : Text) (c : PlanCache Plan) (q : CachedPlan Plan)
      → (get_plan now hash schema_ver (invalidate_plans table c)).1 ≡ some q
      → q.table_name ≢ table
  unfolding get_plan invalidate_plans
  get_plan-invalidate_plans now hash schema_ver table c q e =
      let others : CachedPlan Plan → Bool =
        λ (p : CachedPlan Plan). not (same_text p.table_name table) in
      let b : PlanCache Plan = record c { plans = plans_if others c.plans } in
      let (p, at_p, hit_p, ver_p, age_p) =
        plan_with_fresh now hash schema_ver b q (plan_at hash b.plans) e in
      let differs = plan_at-plans_if others hash p c.plans at_p in
      λ k. cc (
        differs,
        (same_text_iff p.table_name table).1 (ap (λ (x : CachedPlan Plan). x.table_name) hit_p ∙ k),
      )

  evicted_ttl :
      (c : PlanCache Plan) (plans : List (ℕ × CachedPlan Plan)) → (evicted plans c).ttl ≡ c.ttl
  evicted_ttl c [] = refl
  evicted_ttl c ((h, p) ∷ plans) = refl

  found_with_plan :
      (now hash : ℕ) (p : CachedPlan Plan) (room : PlanCache Plan)
      → now - p.created_at ≤ room.ttl
      → (get_plan now hash p.schema_ver (record room { plans = with_plan hash p room.plans })).1
        ≡ some (hit p)
  unfolding get_plan
  found_with_plan now hash p room h =
      let c : PlanCache Plan = record room { plans = with_plan hash p room.plans } in
      let same : not (p.schema_ver == p.schema_ver) ≡ false = ground arith in
      let fresh : ltb room.ttl (now - p.created_at) ≡ false = ground arith in
      ap (λ (o : Option (CachedPlan Plan)). (plan_with now hash p.schema_ver o c).1)
        (plan_at-with_plan hash p room.plans)
      ∙ rw (same, fresh) refl

  -- What is put is found by the next Get of the hash, if it is asked for with its schema version and within
  -- the time to live.
  pub get_plan-put_plan :
      (now hash : ℕ) (p : CachedPlan Plan) (c : PlanCache Plan)
      → now - p.created_at ≤ c.ttl
      → (get_plan now hash p.schema_ver (put_plan hash p c)).1 ≡ some (hit p)
  unfolding put_plan
  get_plan-put_plan now hash p c h =
      if-cases
        (λ (room : PlanCache Plan).
          (get_plan now hash p.schema_ver (record room { plans = with_plan hash p room.plans })).1
          ≡ some (hit p))
        (leb c.max_size (length c.plans))
        (λ full.
          found_with_plan now hash p (evict_oldest c) (omega (arith, h, evicted_ttl c c.plans)))
        (λ room. found_with_plan now hash p c h)

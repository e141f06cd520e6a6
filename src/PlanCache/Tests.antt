-- ===== src/PlanCache/Tests.antt =====
-- server/internal/core/executor/plan_cache.go: runs on small caches, and the theorems at them.
use pro_labs.Common.{ℕ, ◌-◌, ◌≤◌, ◌<◌, ◌≡◌, refl, arith, none, some, [], ◌∷◌, same_text}
use pro_labs.PlanCache.{
  CachedPlan, PlanCache, plan_at, without_plan, with_plan, plans_if, get_plan, hit, oldest_from,
  put_plan, invalidate_plans, invalidate_by_version, plan_stats, reset,
}
use pro_labs.PlanCache.Entries.{IsOldest}
use pro_labs.PlanCache.Answers.{IsPlanCache, put_plan-full, get_plan-invalidate_by_version}

abbrev plan_of : ℕ → ℕ → ℕ → CachedPlan ℕ
plan_of p schema_ver created_at = record {
  plan = p;
  schema_ver = schema_ver;
  created_at = created_at;
  hit_count = 0;
  query_str = [];
  table_name = 116 ∷ [];
}

-- Two places, both taken.
abbrev sample : PlanCache ℕ
sample = record {
  plans = (7, plan_of 1 3 40) ∷ (8, plan_of 2 4 30) ∷ [];
  max_size = 2;
  ttl = 100;
  hits = 0;
  misses = 0;
  evictions = 0;
}

-- The oldest plan goes; also if the new plan has the place of another.
put_plan_runs :
    (plan_at 8 (put_plan 9 (plan_of 5 3 50) sample).plans ≡ none)
    × (plan_at 8 (put_plan 7 (plan_of 5 3 50) sample).plans ≡ none)
    × (plan_stats (put_plan 7 (plan_of 5 3 50) sample) ≡ (0, 0, 1, 1))
    × (plan_stats (reset sample) ≡ (0, 0, 0, 0))
unfolding put_plan oldest_from without_plan with_plan plan_at
put_plan_runs = (refl, refl, refl, refl)

get_plan_runs :
    ((get_plan 60 7 3 sample).1 ≡ some (hit (plan_of 1 3 40)))
    × ((get_plan 60 7 4 sample).1 ≡ none)
    × ((get_plan 160 7 3 sample).1 ≡ none)
    × ((get_plan 60 8 4 (invalidate_by_version 3 sample)).1 ≡ some (hit (plan_of 2 4 30)))
    × ((get_plan 60 8 4 (invalidate_plans (116 ∷ []) sample)).1 ≡ none)
unfolding get_plan plan_at with_plan without_plan plans_if invalidate_by_version invalidate_plans
    same_text
get_plan_runs = (refl, refl, refl, refl, refl)

put_plan-full_example :
    IsPlanCache (put_plan 9 (plan_of 5 3 50) sample)
    × (plan_at 9 (put_plan 9 (plan_of 5 3 50) sample).plans ≡ some (plan_of 5 3 50))
    × ((victim : ℕ × ℕ) × IsOldest sample.plans victim
        × ((put_plan 9 (plan_of 5 3 50) sample).plans
            ≡ with_plan 9 (plan_of 5 3 50) (without_plan victim.0 sample.plans)))
put_plan-full_example =
    put_plan-full 9 (plan_of 5 3 50) sample (omega arith, omega arith) (omega arith)

get_plan-invalidate_by_version_example :
    ((hit (plan_of 2 4 30)).schema_ver ≡ 4)
    × (3 < 4)
    × (60 - (hit (plan_of 2 4 30)).created_at ≤ sample.ttl)
get_plan-invalidate_by_version_example =
    get_plan-invalidate_by_version 60 8 4 3 sample (hit (plan_of 2 4 30)) (get_plan_runs.3)

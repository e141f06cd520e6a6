-- ===== src/PlanCache.antt =====
-- server/internal/core/executor/plan_cache.go: the cache of plans.
--
-- The map from hashes to plans is an association list; a range over it visits the entries in the order of
-- the list. Times are numbers, and the time of a call an argument. A size or a time to live of zero stands
-- for one that is not positive. The hash is a parameter: `fnv` of the bytes that were written, and `format`
-- is how fmt prints a parameter of the query.
pub mod Entries
pub mod Answers
mod Tests
use pro_labs.Common.{
  ℕ, zero, suc, ◌+◌, ◌-◌, Bool, true, false, not, Option, none, some, List, [], ◌∷◌, ◌++◌, ◌||◌,
  length, ltb, leb, ◌==◌, if◌then◌else◌, Text, same_text,
}

pub record CachedPlan (Plan : Type 0) : Type 0 where
  pub plan : Plan
  pub schema_ver : ℕ
  pub created_at : ℕ
  pub hit_count : ℕ
  pub query_str : Text
  pub table_name : Text

abbrev pub default_plan_cache_size : ℕ
default_plan_cache_size = 1000

-- In nanoseconds.
abbrev pub default_plan_cache_ttl : ℕ
default_plan_cache_ttl = 300000000000

pub record PlanCache (Plan : Type 0) : Type 0 where
  pub plans : List (ℕ × CachedPlan Plan)
  pub max_size : ℕ
  pub ttl : ℕ
  pub hits : ℕ
  pub misses : ℕ
  pub evictions : ℕ

abbrev pub written : {Param : Type 0} → (Param → Text) → List Param → Text
written format [] = []
written format (p ∷ params) = format p ++ written format params

abbrev pub query_hash : {Param : Type 0} → (Text → ℕ) → (Param → Text) → Text → List Param → ℕ
query_hash fnv format query params = fnv (query ++ written format params)

module _ {Plan : Type 0} where
  abbrev pub new_plan_cache_with_ttl : ℕ → ℕ → PlanCache Plan
  new_plan_cache_with_ttl max_size ttl = record {
    plans = [];
    max_size = if max_size == 0 then default_plan_cache_size else max_size;
    ttl = if ttl == 0 then default_plan_cache_ttl else ttl;
    hits = 0;
    misses = 0;
    evictions = 0;
  }

  abbrev pub new_plan_cache : ℕ → PlanCache Plan
  new_plan_cache max_size = new_plan_cache_with_ttl max_size default_plan_cache_ttl

  unfoldable pub plan_at : ℕ → List (ℕ × CachedPlan Plan) → Option (CachedPlan Plan)
  plan_at hash [] = none
  plan_at hash ((h, p) ∷ plans) =
      let rest = plan_at hash plans in if h == hash then some p else rest

  -- `delete(plans, hash)`
  unfoldable pub without_plan : ℕ → List (ℕ × CachedPlan Plan) → List (ℕ × CachedPlan Plan)
  without_plan hash [] = []
  without_plan hash ((h, p) ∷ plans) =
      let rest = without_plan hash plans in if h == hash then rest else (h, p) ∷ rest

  -- `plans[hash] = plan`
  unfoldable pub with_plan :
      ℕ → CachedPlan Plan → List (ℕ × CachedPlan Plan) → List (ℕ × CachedPlan Plan)
  with_plan hash plan [] = (hash, plan) ∷ []
  with_plan hash plan ((h, p) ∷ plans) =
      let rest = with_plan hash plan plans in if h == hash then (h, plan) ∷ plans else (h, p) ∷ rest

  -- Deletes the plans that fail a test.
  unfoldable pub plans_if :
      (CachedPlan Plan → Bool) → List (ℕ × CachedPlan Plan) → List (ℕ × CachedPlan Plan)
  plans_if test [] = []
  plans_if test ((h, p) ∷ plans) =
      let rest = plans_if test plans in if test p then (h, p) ∷ rest else rest

  abbrev pub drop_plan : ℕ → PlanCache Plan → PlanCache Plan
  drop_plan hash c = record c { plans = without_plan hash c.plans; misses = c.misses + 1 }

  -- The plan of a hit counts it.
  abbrev pub hit : CachedPlan Plan → CachedPlan Plan
  hit p = record p { hit_count = p.hit_count + 1 }

  abbrev pub plan_with :
      ℕ
      → ℕ
      → ℕ
      → Option (CachedPlan Plan)
      → PlanCache Plan
      → PlanCache Plan × Option (CachedPlan Plan)
  plan_with now hash schema_ver none c = (record c { misses = c.misses + 1 }, none)
  plan_with now hash schema_ver (some p) c =
      if not (p.schema_ver == schema_ver)
      then (drop_plan hash c, none)
      else if ltb c.ttl (now - p.created_at)
      then (drop_plan hash c, none)
      else (record c { plans = with_plan hash (hit p) c.plans; hits = c.hits + 1 }, some (hit p))

  unfoldable pub get_plan : ℕ → ℕ → ℕ → PlanCache Plan → PlanCache Plan × Option (CachedPlan Plan)
  get_plan now hash schema_ver c = plan_with now hash schema_ver (plan_at hash c.plans) c

  -- The loop that looks for the oldest plan: its hash and its time.
  unfoldable pub oldest_from : ℕ × ℕ → List (ℕ × CachedPlan Plan) → ℕ × ℕ
  oldest_from found [] = found
  oldest_from found ((h, p) ∷ plans) =
      oldest_from (if ltb p.created_at found.1 then (h, p.created_at) else found) plans

  abbrev pub evicted : List (ℕ × CachedPlan Plan) → PlanCache Plan → PlanCache Plan
  evicted [] c = c
  evicted ((h, p) ∷ plans) c = record c {
    plans = without_plan (oldest_from (h, p.created_at) plans).0 c.plans;
    evictions = c.evictions + 1;
  }

  abbrev pub evict_oldest : PlanCache Plan → PlanCache Plan
  evict_oldest c = evicted c.plans c

  unfoldable pub put_plan : ℕ → CachedPlan Plan → PlanCache Plan → PlanCache Plan
  put_plan hash plan c =
      let room = if leb c.max_size (length c.plans) then evict_oldest c else c in
      record room { plans = with_plan hash plan room.plans }

  unfoldable pub invalidate_plans : Text → PlanCache Plan → PlanCache Plan
  invalidate_plans table c = record c {
    plans = plans_if (λ (p : CachedPlan Plan). not (same_text p.table_name table)) c.plans;
  }

  unfoldable pub invalidate_by_version : ℕ → PlanCache Plan → PlanCache Plan
  invalidate_by_version schema_ver c = record c {
    plans = plans_if (λ (p : CachedPlan Plan). not (leb p.schema_ver schema_ver)) c.plans;
  }

  abbrev pub plan_stats : PlanCache Plan → ℕ × ℕ × ℕ × ℕ
  plan_stats c = (c.hits, c.misses, c.evictions, length c.plans)

  abbrev pub reset : PlanCache Plan → PlanCache Plan
  reset c = record c { plans = []; hits = 0; misses = 0; evictions = 0 }

  abbrev pub plan_count : PlanCache Plan → ℕ
  plan_count c = length c.plans

-- ===== src/ResultCache.antt =====
-- server/internal/core/executor/result_cache.go: the cache of the results of queries.
--
-- The list `lru`, the front first, is the cache; the map from keys to elements is the search in it. Times
-- are numbers, and the time of a call an argument. A size or a time to live of zero stands for one that is
-- not positive. The set of tables is a test on names.
pub mod Refines
pub mod Answers
mod Tests
use pro_labs.Common.{
  ℕ, zero, suc, ◌+◌, ◌-◌, Bool, true, false, not, Option, none, some, List, [], ◌∷◌, length, ltb,
  leb, ◌==◌, if◌then◌else◌, Text,
}
use pro_labs.Common.Recent.{entry_of, remove_entry, drop_back, keep_if}

abbrev pub default_size : ℕ
default_size = 256

-- In nanoseconds.
abbrev pub default_ttl : ℕ
default_ttl = 30000000000

pub record CachedResult (Result : Type 0) : Type 0 where
  pub result : Result
  pub tables : Text → Bool
  pub created_at : ℕ

pub record ResultCache (Result : Type 0) : Type 0 where
  pub lru : List (Text × CachedResult Result)
  pub max_size : ℕ
  pub ttl : ℕ
  pub hit_count : ℕ
  pub miss_count : ℕ

module _ {Result : Type 0} where
  abbrev pub new_result_cache : ℕ → ℕ → ResultCache Result
  new_result_cache max_size ttl = record {
    lru = [];
    max_size = if max_size == 0 then default_size else max_size;
    ttl = if ttl == 0 then default_ttl else ttl;
    hit_count = 0;
    miss_count = 0;
  }

  abbrev pub missed : ResultCache Result → ResultCache Result
  missed c = record c { miss_count = c.miss_count + 1 }

  -- `time.Since(createdAt) > ttl`
  abbrev pub is_expired : ℕ → ResultCache Result → CachedResult Result → Bool
  is_expired now c v = ltb c.ttl (now - v.created_at)

  abbrev pub answer_with :
      ℕ
      → Text
      → Option (CachedResult Result)
      → ResultCache Result
      → ResultCache Result × Option Result
  answer_with now key none c = (missed c, none)
  answer_with now key (some v) c =
      if is_expired now c v then (missed (record c { lru = remove_entry key c.lru }), none) else (
        record c { lru = (key, v) ∷ remove_entry key c.lru; hit_count = c.hit_count + 1 },
        some v.result,
      )

  unfoldable pub get_result : ℕ → Text → ResultCache Result → ResultCache Result × Option Result
  get_result now key c = answer_with now key (entry_of key c.lru) c

  -- The loop that evicts, as long as there is a back; `fuel` is the length of the list.
  unfoldable pub evict_back :
      ℕ → ℕ → List (Text × CachedResult Result) → List (Text × CachedResult Result)
  evict_back zero max_size lru = lru
  evict_back (suc fuel) max_size lru =
      let rest = evict_back fuel max_size (drop_back lru) in
      if leb max_size (length lru) then rest else lru

  abbrev pub put_with :
      Text
      → CachedResult Result
      → Option (CachedResult Result)
      → ResultCache Result
      → ResultCache Result
  put_with key v (some old) c = record c { lru = (key, v) ∷ remove_entry key c.lru }
  put_with key v none c = record c { lru = (key, v) ∷ evict_back (length c.lru) c.max_size c.lru }

  unfoldable pub put_result :
      ℕ → Text → Result → (Text → Bool) → ResultCache Result → ResultCache Result
  put_result now key result tables c =
      put_with key (record { result = result; tables = tables; created_at = now })
        (entry_of key c.lru) c

  unfoldable pub invalidate_table : Text → ResultCache Result → ResultCache Result
  invalidate_table table c = record c {
    lru = keep_if (λ (v : CachedResult Result). not (v.tables table)) c.lru;
  }

  abbrev pub invalidate_all : ResultCache Result → ResultCache Result
  invalidate_all c = record c { lru = [] }

  abbrev pub stats : ResultCache Result → ℕ × ℕ × ℕ
  stats c = (c.hit_count, c.miss_count, length c.lru)

-- The calls of a cache.
pub data Call (Result : Type 0) : Type 0 where
  call_get : ℕ → Text → Call Result
  call_put : ℕ → Text → Result → (Text → Bool) → Call Result
  call_invalidate : Text → Call Result
  call_invalidate_all : Call Result

module _ {Result : Type 0} where
  abbrev pub handle_call : Call Result → ResultCache Result → ResultCache Result
  handle_call (call_get now key) c = (get_result now key c).0
  handle_call (call_put now key result tables) c = put_result now key result tables c
  handle_call (call_invalidate table) c = invalidate_table table c
  handle_call call_invalidate_all c = invalidate_all c

  abbrev pub run_calls : List (Call Result) → ResultCache Result → ResultCache Result
  run_calls [] c = c
  run_calls (call ∷ calls) c = run_calls calls (handle_call call c)

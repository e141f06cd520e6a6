-- ===== src/ResultCache/Tests.antt =====
-- server/internal/core/executor/result_cache.go: runs on small caches, and the theorems at them.
use pro_labs.Common.{
  ℕ, ◌-◌, ◌≤◌, ◌≡◌, refl, Bool, false, none, some, List, [], ◌∷◌, ◌==◌, Text, same_text,
}
use pro_labs.Common.Recent.{entry_of, remove_entry, drop_back, keep_if}
use pro_labs.ResultCache.{
  CachedResult, new_result_cache, get_result, put_result, evict_back, invalidate_table, stats, Call,
  call_get, call_put, run_calls,
}
use pro_labs.ResultCache.Refines.{remembered}
use pro_labs.ResultCache.Answers.{get_result-remembered}

abbrev key_a : Text
key_a = 97 ∷ []

abbrev key_b : Text
key_b = 98 ∷ []

abbrev key_c : Text
key_c = 99 ∷ []

abbrev users : Text
users = 117 ∷ []

-- The result depends on the table `u`.
abbrev of_users : Text → Bool
of_users (c ∷ []) = c == 117
of_users _ = false

-- Two places: the entry of b goes, as a was used after it.
abbrev calls : List (Call ℕ)
calls =
    call_put 10 key_a 1 of_users
    ∷ call_put 11 key_b 2 of_users
    ∷ call_get 12 key_a
    ∷ call_put 13 key_c 3 of_users
    ∷ []

calls_run :
    ((get_result 20 key_a (run_calls calls (new_result_cache 2 100))).1 ≡ some 1)
    × ((get_result 20 key_b (run_calls calls (new_result_cache 2 100))).1 ≡ none)
    × ((get_result 200 key_a (run_calls calls (new_result_cache 2 100))).1 ≡ none)
    × ((get_result 20 key_a (invalidate_table users (run_calls calls (new_result_cache 2 100)))).1
        ≡ none)
    × (stats (run_calls calls (new_result_cache 2 100)) ≡ (1, 0, 2))
unfolding get_result put_result invalidate_table evict_back entry_of remove_entry drop_back keep_if
    same_text
calls_run = (refl, refl, refl, refl, refl)

get_result-remembered_example :
    (v : CachedResult ℕ) × (remembered calls (λ k. none) key_a ≡ some v)
    × (v.result ≡ 1)
    × (20 - v.created_at ≤ (new_result_cache {Result = ℕ} 2 100).ttl)
get_result-remembered_example = get_result-remembered 2 100 20 key_a calls 1 calls_run.0

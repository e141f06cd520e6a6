-- ===== src/ResultCache/Answers.antt =====
-- server/internal/core/executor/result_cache.go: what Get answers after any calls of a cache.
use mathlib.Core.Option.{some_inj}
use pro_labs.Common.{
  ℕ, ◌+◌, ◌-◌, ◌≤◌, ◌≡◌, refl, sym, ap, ◌∙◌, arith, Bool, false, Option, none, some, List, [], ◌∷◌,
  length, if◌then◌else◌, if-cases, Bool-cases, Option-cases, inl, inr, Text, same_text_iff,
}
use pro_labs.Common.Recent.{entry_of, remove_entry, entry_of_here}
use pro_labs.ResultCache.Refines.{remembered, run_calls-Refines, new_result_cache-Refines}
use pro_labs.ResultCache.{
  CachedResult, ResultCache, new_result_cache, missed, is_expired, answer_with, get_result,
  evict_back, put_with, put_result, invalidate_table, Call, call_get, call_put, call_invalidate,
  call_invalidate_all, handle_call, run_calls,
}

module _ {Result : Type 0} where
  answer_with-fresh :
      (now : ℕ) (key : Text) (c : ResultCache Result) (r : Result)
      (o : Option (CachedResult Result))
      → (answer_with now key o c).1 ≡ some r
      → (v : CachedResult Result) × (o ≡ some v) × (v.result ≡ r) × (now - v.created_at ≤ c.ttl)
  answer_with-fresh now key c r none e = absurd (cc e)
  answer_with-fresh now key c r (some v) e =
      let expire : ResultCache Result × Option Result =
        (missed (record c { lru = remove_entry key c.lru }), none) in
      let hit : ResultCache Result × Option Result = (
        record c { lru = (key, v) ∷ remove_entry key c.lru; hit_count = c.hit_count + 1 },
        some v.result,
      ) in
      elim (Bool-cases (is_expired now c v)) [
        | inl expired ↦
            absurd (cc (sym (ap (λ (b : Bool). (if b then expire else hit).1) expired) ∙ e))
        | inr fresh ↦ (
          v,
          refl,
          some_inj.0 (sym (ap (λ (b : Bool). (if b then expire else hit).1) fresh) ∙ e),
          ground (arith, fresh),
        )
      ]

  answer_with_ttl :
      (now : ℕ) (key : Text) (c : ResultCache Result) (o : Option (CachedResult Result))
      → (answer_with now key o c).0.ttl ≡ c.ttl
  answer_with_ttl now key c none = refl
  answer_with_ttl now key c (some v) =
      if-cases (λ (q : ResultCache Result × Option Result). q.0.ttl ≡ c.ttl) (is_expired now c v)
        (λ e. refl) (λ e. refl)

  put_with_ttl :
      (key : Text) (v : CachedResult Result) (c : ResultCache Result)
      (o : Option (CachedResult Result))
      → (put_with key v o c).ttl ≡ c.ttl
  put_with_ttl key v c none = refl
  put_with_ttl key v c (some old) = refl

  handle_call_ttl : (call : Call Result) (c : ResultCache Result) → (handle_call call c).ttl ≡ c.ttl
  unfolding get_result put_result invalidate_table
  handle_call_ttl (call_get now key) c = answer_with_ttl now key c (entry_of key c.lru)
  handle_call_ttl (call_put now key result tables) c =
      put_with_ttl key (record { result = result; tables = tables; created_at = now }) c
        (entry_of key c.lru)
  handle_call_ttl (call_invalidate table) c = refl
  handle_call_ttl call_invalidate_all c = refl

  run_calls_ttl :
      (calls : List (Call Result)) (c : ResultCache Result) → (run_calls calls c).ttl ≡ c.ttl
  run_calls_ttl [] c = refl
  run_calls_ttl (call ∷ calls) c = run_calls_ttl calls (handle_call call c) ∙ handle_call_ttl call c

  -- After any calls of a new cache, in any order, with any times: what Get answers is the result that was put
  -- last under the key, no table of it has been invalidated since, and it is no older than the time to live.
  pub get_result-remembered :
      (max_size ttl now : ℕ) (key : Text) (calls : List (Call Result)) (r : Result)
      → (get_result now key (run_calls calls (new_result_cache max_size ttl))).1 ≡ some r
      → (v : CachedResult Result) × (remembered calls (λ k. none) key ≡ some v)
        × (v.result ≡ r)
        × (now - v.created_at ≤ (new_result_cache {Result = Result} max_size ttl).ttl)
  unfolding get_result
  get_result-remembered max_size ttl now key calls r e =
      let start : ResultCache Result = new_result_cache max_size ttl in
      let c = run_calls calls start in
      let kept =
        run_calls-Refines calls (λ k. none) start (new_result_cache-Refines max_size ttl) in
      let (v, found, same, fresh) = answer_with-fresh now key c r (entry_of key c.lru) e in
      (v, kept.agrees key v found, same, omega (arith, fresh, run_calls_ttl calls start))

  -- After any calls of a new cache no more entries are kept than its size, which is at least one.
  pub run_calls_full :
      (max_size ttl : ℕ) (calls : List (Call Result))
      → (length (run_calls calls (new_result_cache max_size ttl)).lru
          ≤ (run_calls calls (new_result_cache max_size ttl)).max_size)
        × (1 ≤ (run_calls calls (new_result_cache max_size ttl)).max_size)
  run_calls_full max_size ttl calls =
      let kept =
        run_calls-Refines calls (λ k. none) (new_result_cache max_size ttl)
          (new_result_cache-Refines max_size ttl) in
      (kept.full, kept.positive)

  front_answers :
      (now : ℕ) (key : Text) (v : CachedResult Result) (c : ResultCache Result)
      (xs : List (Text × CachedResult Result))
      → c.lru ≡ (key, v) ∷ xs
      → now - v.created_at ≤ c.ttl
      → (get_result now key c).1 ≡ some v.result
  unfolding get_result
  front_answers now key v c xs e h =
      let found : entry_of key c.lru ≡ some v =
        ap (entry_of key) e ∙ entry_of_here key key v xs ((same_text_iff key key).1 refl) in
      let fresh : is_expired now c v ≡ false = ground arith in rw (found, fresh) refl

  -- What is put is found by the next Get of the key, if it comes within the time to live.
  pub get_result-put_result :
      (now later : ℕ) (key : Text) (r : Result) (tables : Text → Bool) (c : ResultCache Result)
      → later - now ≤ c.ttl
      → (get_result later key (put_result now key r tables c)).1 ≡ some r
  unfolding put_result
  get_result-put_result now later key r tables c h =
      let v : CachedResult Result = record { result = r; tables = tables; created_at = now } in
      elim (Option-cases (entry_of key c.lru)) [
        | inl absent ↦
            ap (λ (o : Option (CachedResult Result)). (get_result later key (put_with key v o c)).1)
              absent
            ∙ front_answers later key v (put_with key v none c)
                (evict_back (length c.lru) c.max_size c.lru) refl h
        | inr (old, found) ↦
            ap (λ (o : Option (CachedResult Result)). (get_result later key (put_with key v o c)).1)
              found
            ∙ front_answers later key v (put_with key v (some old) c) (remove_entry key c.lru) refl
                h
      ]

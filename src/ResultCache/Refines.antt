-- ===== src/ResultCache/Refines.antt =====
-- server/internal/core/executor/result_cache.go: the cache answers only with what was put last under a key
-- and not invalidated since.
use pro_labs.Common.{
  ℕ, zero, suc, ◌≤◌, ◌<◌, ◌≡◌, refl, sym, ap, ◌∙◌, arith, Bool, true, false, not, Option, none,
  some, List, [], ◌∷◌, length, leb, if◌then◌else◌, if-cases, Bool-cases, inl, inr, Text, same_text,
  same_text_iff,
}
use pro_labs.Common.Recent.{
  entry_of, remove_entry, drop_back, keep_if, Sub, Sub-refl, Sub-trans, entry_of_here,
  entry_of_there, Distinct, Sub-remove_entry, Sub-drop_back, Sub-keep_if, Sub-length, Sub-none,
  Sub-Distinct, Sub-entry_of, entry_of-remove_entry, entry_of-keep_if, length-drop_back,
  length-remove_entry,
}
use pro_labs.ResultCache.{
  CachedResult, ResultCache, new_result_cache, is_expired, answer_with, get_result, evict_back,
  put_with, put_result, invalidate_table, Call, call_get, call_put, call_invalidate,
  call_invalidate_all, handle_call, run_calls,
}

-- What was put last under each key and not invalidated since: a cache that forgets nothing.
abbrev pub Memory : Type 0 → Type 0
Memory Result = Text → Option (CachedResult Result)

module _ {Result : Type 0} where
  abbrev pub unless : Option (CachedResult Result) → Text → Option (CachedResult Result)
  unless none table = none
  unless (some v) table = if v.tables table then none else some v

  abbrev pub remember : Call Result → Memory Result → Memory Result
  remember (call_get now key) m = m
  remember (call_put now key result tables) m = λ k.
      if same_text key k
      then some (record { result = result; tables = tables; created_at = now })
      else m k
  remember (call_invalidate table) m = λ k. unless (m k) table
  remember call_invalidate_all m = λ k. none

  abbrev pub remembered : List (Call Result) → Memory Result → Memory Result
  remembered [] m = m
  remembered (call ∷ calls) m = remembered calls (remember call m)

  -- One entry for a key, each as it is in the memory, and no more than the cache may hold.
  pub record Holds (m : Memory Result) (max_size : ℕ) (lru : List (Text × CachedResult Result))
      : Type 0 where
    pub distinct : Distinct lru
    pub agrees : (k : Text) (v : CachedResult Result) → entry_of k lru ≡ some v → m k ≡ some v
    pub positive : 1 ≤ max_size
    pub full : length lru ≤ max_size

  abbrev pub Refines : Memory Result → ResultCache Result → Type 0
  Refines m c = Holds m c.max_size c.lru

  Sub-evict_back :
      (fuel n : ℕ) (xs : List (Text × CachedResult Result)) → Sub (evict_back fuel n xs) xs
  unfolding evict_back
  Sub-evict_back zero n xs = Sub-refl xs
  Sub-evict_back (suc fuel) n xs =
      if-cases (λ (ys : List (Text × CachedResult Result)). Sub ys xs) (leb n (length xs))
        (λ e. Sub-trans (Sub-drop_back xs) (Sub-evict_back fuel n (drop_back xs)))
        (λ e. Sub-refl xs)

  length-evict_back :
      (fuel n : ℕ) (xs : List (Text × CachedResult Result))
      → length xs ≤ fuel
      → 1 ≤ n
      → length (evict_back fuel n xs) < n
  unfolding evict_back
  length-evict_back zero n xs h k = omega arith
  length-evict_back (suc fuel) n [] h k =
      if-cases (λ (ys : List (Text × CachedResult Result)). length ys < n) (leb n 0)
        (λ e. absurd (ground (arith, e))) (λ e. omega arith)
  length-evict_back (suc fuel) n (x ∷ xs) h k =
      let l = length-drop_back x xs in
      if-cases (λ (ys : List (Text × CachedResult Result)). length ys < n) (leb n (length (x ∷ xs)))
        (λ e. length-evict_back fuel n (drop_back (x ∷ xs)) (omega arith) k)
        (λ e. ground (arith, e))

  -- An entry put in front of others that agree with the memory but for its key.
  Holds-front :
      (m n : Memory Result) (most : ℕ) (key : Text) (v : CachedResult Result)
      (lru xs : List (Text × CachedResult Result))
      → Holds m most lru
      → Sub xs lru
      → entry_of key xs ≡ none
      → length xs < most
      → n key ≡ some v
      → ((k : Text) → same_text key k ≡ false → n k ≡ m k)
      → Holds n most ((key, v) ∷ xs)
  Holds-front m n most key v lru xs r s absent room here other = record {
    distinct = (absent, Sub-Distinct s r.distinct);
    agrees = λ k w e. elim (Bool-cases (same_text key k)) [
      | inl found ↦
          ap n (sym ((same_text_iff key k).0 found))
          ∙ here
          ∙ sym (entry_of_here k key v xs found)
          ∙ e
      | inr no_key ↦
          other k no_key
          ∙ r.agrees k w
              (Sub-entry_of k w s r.distinct (sym (entry_of_there k key v xs no_key) ∙ e))
    ];
    positive = r.positive;
    full = omega arith;
  }

  Holds-Sub :
      (m n : Memory Result) (most : ℕ) (lru xs : List (Text × CachedResult Result))
      → Holds m most lru
      → Sub xs lru
      → ((k : Text) (v : CachedResult Result)
          → entry_of k xs ≡ some v
          → m k ≡ some v
          → n k ≡ some v)
      → Holds n most xs
  Holds-Sub m n most lru xs r s keep = record {
    distinct = Sub-Distinct s r.distinct;
    agrees = λ k v e. keep k v e (r.agrees k v (Sub-entry_of k v s r.distinct e));
    positive = r.positive;
    full = omega (arith, Sub-length s, r.full);
  }

  -- The entry of a key moved to the front, or replaced there.
  Holds-replace :
      (m n : Memory Result) (most : ℕ) (key : Text) (old v : CachedResult Result)
      (lru : List (Text × CachedResult Result))
      → Holds m most lru
      → entry_of key lru ≡ some old
      → n key ≡ some v
      → ((k : Text) → same_text key k ≡ false → n k ≡ m k)
      → Holds n most ((key, v) ∷ remove_entry key lru)
  Holds-replace m n most key old v lru r found here other =
      Holds-front m n most key v lru (remove_entry key lru) r (Sub-remove_entry key lru)
        (entry_of-remove_entry key lru r.distinct)
        (omega (arith, length-remove_entry key old lru found, r.full)) here other

  answer_with-Refines :
      (now : ℕ) (key : Text) (m : Memory Result) (c : ResultCache Result)
      (o : Option (CachedResult Result))
      → Refines m c
      → entry_of key c.lru ≡ o
      → Refines m (answer_with now key o c).0
  answer_with-Refines now key m c none r e = r
  answer_with-Refines now key m c (some v) r e =
      if-cases (λ (q : ResultCache Result × Option Result). Refines m q.0) (is_expired now c v)
        (λ expired.
          Holds-Sub m m c.max_size c.lru (remove_entry key c.lru) r (Sub-remove_entry key c.lru)
            (λ k w a b. b))
        (λ fresh. Holds-replace m m c.max_size key v v c.lru r e (r.agrees key v e) (λ k h. refl))

  put_with-Refines :
      (m n : Memory Result) (key : Text) (v : CachedResult Result) (c : ResultCache Result)
      (o : Option (CachedResult Result))
      → Refines m c
      → entry_of key c.lru ≡ o
      → n key ≡ some v
      → ((k : Text) → same_text key k ≡ false → n k ≡ m k)
      → Refines n (put_with key v o c)
  put_with-Refines m n key v c none r e here other =
      let part = Sub-evict_back (length c.lru) c.max_size c.lru in
      Holds-front m n c.max_size key v c.lru (evict_back (length c.lru) c.max_size c.lru) r part
        (Sub-none key part e)
        (length-evict_back (length c.lru) c.max_size c.lru (omega arith) r.positive) here other
  put_with-Refines m n key v c (some old) r e here other =
      Holds-replace m n c.max_size key old v c.lru r e here other

  unless_kept :
      (v : CachedResult Result) (table : Text)
      → not (v.tables table) ≡ true
      → unless (some v) table ≡ some v
  unless_kept v table h = elim (Bool-cases (v.tables table)) [
    | inl listed ↦ absurd (cc (sym (ap not listed) ∙ h))
    | inr free ↦ ap (λ (b : Bool). if b then none else some v) free
  ]

  Holds-empty : (m : Memory Result) (most : ℕ) → 1 ≤ most → Holds m most []
  unfolding entry_of
  Holds-empty m most h = record {
    distinct = tt;
    agrees = λ k v e. absurd (cc e);
    positive = h;
    full = omega arith;
  }

  -- Each call does to the cache what it does to the memory.
  handle_call-Refines :
      (call : Call Result) (m : Memory Result) (c : ResultCache Result)
      → Refines m c
      → Refines (remember call m) (handle_call call c)
  unfolding get_result put_result invalidate_table
  handle_call-Refines (call_get now key) m c r =
      answer_with-Refines now key m c (entry_of key c.lru) r refl
  handle_call-Refines (call_put now key result tables) m c r =
      let v : CachedResult Result = record { result = result; tables = tables; created_at = now } in
      put_with-Refines m (remember (call_put now key result tables) m) key v c (entry_of key c.lru)
        r refl (ap (λ (b : Bool). if b then some v else m key) ((same_text_iff key key).1 refl))
        (λ k h. ap (λ (b : Bool). if b then some v else m k) h)
  handle_call-Refines (call_invalidate table) m c r =
      let test : CachedResult Result → Bool = λ (v : CachedResult Result). not (v.tables table) in
      Holds-Sub m (remember (call_invalidate table) m) c.max_size c.lru (keep_if test c.lru) r
        (Sub-keep_if test c.lru)
        (λ k v e a.
          ap (λ (o : Option (CachedResult Result)). unless o table) a
          ∙ unless_kept v table (entry_of-keep_if test k v c.lru e))
  handle_call-Refines call_invalidate_all m c r = Holds-empty (λ k. none) c.max_size r.positive

  pub run_calls-Refines :
      (calls : List (Call Result)) (m : Memory Result) (c : ResultCache Result)
      → Refines m c
      → Refines (remembered calls m) (run_calls calls c)
  run_calls-Refines [] m c r = r
  run_calls-Refines (call ∷ calls) m c r =
      run_calls-Refines calls (remember call m) (handle_call call c)
        (handle_call-Refines call m c r)

  pub new_result_cache-Refines :
      (max_size ttl : ℕ) → Refines (λ k. none) (new_result_cache max_size ttl)
  new_result_cache-Refines max_size ttl =
      Holds-empty (λ k. none) (new_result_cache {Result = Result} max_size ttl).max_size
        (ground arith)

-- ===== src/Like/Transparent.antt =====
-- server/internal/core/executor/eval/like.go: the cache changes no answer, and EvalLike means LIKE.
use pro_labs.Common.{
  ℕ, ◌≤◌, ◌≡◌, ◌↔◌, refl, sym, ap, ◌∙◌, arith, Bool, true, false, Option, none, some, List, [], ◌∷◌,
  ltb, length, All, if◌then◌else◌, if-cases, Bool-cases, inl, inr, Text, same_text, same_text_iff,
}
use mathlib.Core.Path.{subst}
use mathlib.Core.Option.{some_inj}
use pro_labs.Like.{
  CompiledPattern, simple, compile_pattern, match, match_segments, contains, underscore, split,
}
use pro_labs.Like.Pattern.{Like, Like→Fits, Fits→Like}
use pro_labs.Like.Greedy.{match_segments_iff}
use pro_labs.Common.Recent.{
  entry_of, remove_entry, drop_back, length-remove_entry, length-drop_back,
}
use pro_labs.Like.Cache.{
  LikePatternCache, Entry, move_to_front, add_or_get, cached, add_compiled, get_or_else,
  get_or_compile, matched, eval_like,
}

module _ {Regexp : Type 0} (compile : Text → Option Regexp) (quote_meta : ℕ → Text) where
  -- The entry is what its pattern compiles to.
  abbrev pub Right : Entry Regexp → Type 0
  Right e = compile_pattern compile quote_meta e.0 ≡ some e.1

  -- Every entry is right, and no more are cached than the capacity.
  pub record IsCache (c : LikePatternCache Regexp) : Type 0 where
    pub right : All Right c.order
    pub full : length c.order ≤ c.capacity

  Right-entry_of :
      (p : Text) (cp : CompiledPattern Regexp) (order : List (Entry Regexp))
      → All Right order
      → entry_of p order ≡ some cp
      → compile_pattern compile quote_meta p ≡ some cp
  unfolding entry_of
  Right-entry_of p cp [] h e = absurd (cc e)
  Right-entry_of p cp ((q, found) ∷ order) h e = elim (Bool-cases (same_text q p)) [
    | inl same ↦
        let k : some found ≡ some cp =
          subst (λ b. (if b then some found else entry_of p order) ≡ some cp) same e in
        ap (compile_pattern compile quote_meta) (sym ((same_text_iff q p).0 same)) ∙ h.0 ∙ k
    | inr other ↦
        Right-entry_of p cp order h.1
          (subst (λ b. (if b then some found else entry_of p order) ≡ some cp) other e)
  ]

  All-remove_entry :
      (p : Text) (order : List (Entry Regexp)) → All Right order → All Right (remove_entry p order)
  unfolding remove_entry
  All-remove_entry p [] h = tt
  All-remove_entry p ((q, found) ∷ order) h =
      if-cases (All Right) (same_text q p) (λ e. h.1) (λ e. (h.0, All-remove_entry p order h.1))

  All-drop_back : (order : List (Entry Regexp)) → All Right order → All Right (drop_back order)
  unfolding drop_back
  All-drop_back [] h = tt
  All-drop_back (e ∷ []) h = tt
  All-drop_back (e ∷ f ∷ order) h = (h.0, All-drop_back (f ∷ order) h.1)

  move_to_front-IsCache :
      (p : Text) (cp : CompiledPattern Regexp) (c : LikePatternCache Regexp)
      → IsCache c
      → entry_of p c.order ≡ some cp
      → IsCache (move_to_front p cp c)
  unfolding move_to_front
  move_to_front-IsCache p cp c v e = record {
    right = (Right-entry_of p cp c.order v.right e, All-remove_entry p c.order v.right);
    full = omega (arith, length-remove_entry p cp c.order e, v.full);
  }

  -- What a part of getOrCompile must give.
  abbrev Gets : Text → LikePatternCache Regexp × Option (CompiledPattern Regexp) → Type 0
  Gets p r = (r.1 ≡ compile_pattern compile quote_meta p) × IsCache r.0

  add_or_get-Gets :
      (p : Text) (cp : CompiledPattern Regexp) (c : LikePatternCache Regexp)
      → IsCache c
      → compile_pattern compile quote_meta p ≡ some cp
      → (o : Option (CompiledPattern Regexp)) → entry_of p c.order ≡ o
      → Gets p (cached (add_or_get p cp o c))
  unfolding add_or_get
  add_or_get-Gets p cp c v k (some found) e =
      (sym (Right-entry_of p found c.order v.right e), move_to_front-IsCache p found c v e)
  add_or_get-Gets p cp c v k none e = (
    sym k,
    record {
      right =
          if-cases (All Right) (ltb c.capacity (length ((p, cp) ∷ c.order)))
            (λ h. All-drop_back ((p, cp) ∷ c.order) (k, v.right)) (λ h. (k, v.right));
      full =
          if-cases (λ (x : List (Entry Regexp)). length x ≤ c.capacity)
            (ltb c.capacity (length ((p, cp) ∷ c.order)))
            (λ h. omega (arith, length-drop_back (p, cp) c.order, v.full)) (λ h. ground (arith, h));
    },
  )

  add_compiled-Gets :
      (p : Text) (c : LikePatternCache Regexp)
      → IsCache c
      → (o : Option (CompiledPattern Regexp)) → compile_pattern compile quote_meta p ≡ o
      → Gets p (add_compiled compile quote_meta p o c)
  unfolding add_compiled
  add_compiled-Gets p c v none k = (sym k, v)
  add_compiled-Gets p c v (some cp) k = add_or_get-Gets p cp c v k (entry_of p c.order) refl

  get_or_else-Gets :
      (others : LikePatternCache Regexp → LikePatternCache Regexp) (p : Text)
      (c : LikePatternCache Regexp)
      → ((d : LikePatternCache Regexp) → IsCache d → IsCache (others d))
      → IsCache c
      → (o : Option (CompiledPattern Regexp)) → entry_of p c.order ≡ o
      → Gets p (get_or_else compile quote_meta p others o c)
  unfolding get_or_else
  get_or_else-Gets others p c keep v (some cp) e =
      (sym (Right-entry_of p cp c.order v.right e), move_to_front-IsCache p cp c v e)
  get_or_else-Gets others p c keep v none e =
      add_compiled-Gets p (others c) (keep c v) (compile_pattern compile quote_meta p) refl

  -- getOrCompile gives what compilePattern gives, and keeps the cache well-formed, if other goroutines
  -- keep it so while it compiles.
  pub get_or_compile_lem :
      (others : LikePatternCache Regexp → LikePatternCache Regexp) (p : Text)
      (c : LikePatternCache Regexp)
      → ((d : LikePatternCache Regexp) → IsCache d → IsCache (others d))
      → IsCache c
      → ((get_or_compile compile quote_meta others p c).1 ≡ compile_pattern compile quote_meta p)
        × IsCache (get_or_compile compile quote_meta others p c).0
  unfolding get_or_compile
  get_or_compile_lem others p c keep v =
      get_or_else-Gets others p c keep v (entry_of p c.order) refl

  -- EvalLike of a pattern without `_` answers true exactly for the texts that are like the pattern,
  -- whatever well-formed cache it finds, if other goroutines keep the cache well-formed while it
  -- compiles.
  pub eval_like_iff :
      (matches : Regexp → Text → Bool) (others : LikePatternCache Regexp → LikePatternCache Regexp)
      (text pattern : Text) (c : LikePatternCache Regexp)
      → ((d : LikePatternCache Regexp) → IsCache d → IsCache (others d))
      → IsCache c
      → contains underscore pattern ≡ false
      → ((eval_like compile quote_meta matches others text pattern c).1 ≡ some true)
        ↔ Like pattern text
  unfolding eval_like compile_pattern match
  eval_like_iff matches others text pattern c keep v plain =
      let e = (get_or_compile_lem others pattern c keep v).0 in
      let k : compile_pattern compile quote_meta pattern ≡ some (simple (split pattern)) =
        rw plain refl in
      let m : (eval_like compile quote_meta matches others text pattern c).1
          ≡ some (match_segments text (split pattern)) =
        ap (matched compile quote_meta matches text) (e ∙ k) in
      let fits = match_segments_iff text (split pattern) in
      (
        λ h. Fits→Like pattern text (fits.0 (some_inj.0 (sym m ∙ h))),
        λ h. m ∙ ap some (fits.1 (Like→Fits h)),
      )

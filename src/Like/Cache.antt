-- ===== src/Like/Cache.antt =====
-- server/internal/core/executor/eval/like.go: the cache of compiled patterns, and EvalLike with it.
--
-- The list `order` is the cache, the front first; the map `entries` finds an element of it by its
-- pattern, so it is the search in the list. getOrCompile lets go of the lock while it compiles: what
-- other goroutines do to the cache then is an argument.
use pro_labs.Common.{ℕ, Bool, Option, none, some, List, ◌∷◌, ltb, length, if◌then◌else◌, Text}
use pro_labs.Common.Recent.{entry_of, remove_entry, drop_back}
use pro_labs.Like.{CompiledPattern, compile_pattern, match}

pub record LikePatternCache (Regexp : Type 0) : Type 0 where
  pub capacity : ℕ
  pub order : List (Text × CompiledPattern Regexp)

abbrev pub Entry : Type 0 → Type 0
Entry Regexp = Text × CompiledPattern Regexp

module _ {Regexp : Type 0} where
  unfoldable pub move_to_front :
      Text → CompiledPattern Regexp → LikePatternCache Regexp → LikePatternCache Regexp
  move_to_front p cp c = record c { order = (p, cp) ∷ remove_entry p c.order }

  -- The part under the second lock.
  unfoldable pub add_or_get :
      Text
      → CompiledPattern Regexp
      → Option (CompiledPattern Regexp)
      → LikePatternCache Regexp
      → LikePatternCache Regexp × CompiledPattern Regexp
  add_or_get p cp (some found) c = (move_to_front p found c, found)
  add_or_get p cp none c =
      let order = (p, cp) ∷ c.order in
      (record c { order = if ltb c.capacity (length order) then drop_back order else order }, cp)

  abbrev pub cached :
      LikePatternCache Regexp × CompiledPattern Regexp
      → LikePatternCache Regexp × Option (CompiledPattern Regexp)
  cached (c, cp) = (c, some cp)

module _ {Regexp : Type 0} (compile : Text → Option Regexp) (quote_meta : ℕ → Text) where
  unfoldable pub add_compiled :
      Text
      → Option (CompiledPattern Regexp)
      → LikePatternCache Regexp
      → LikePatternCache Regexp × Option (CompiledPattern Regexp)
  add_compiled p none c = (c, none)
  add_compiled p (some cp) c = cached (add_or_get p cp (entry_of p c.order) c)

  unfoldable pub get_or_else :
      Text
      → (LikePatternCache Regexp → LikePatternCache Regexp)
      → Option (CompiledPattern Regexp)
      → LikePatternCache Regexp
      → LikePatternCache Regexp × Option (CompiledPattern Regexp)
  get_or_else p others (some cp) c = (move_to_front p cp c, some cp)
  get_or_else p others none c = add_compiled p (compile_pattern compile quote_meta p) (others c)

  -- none is the error.
  unfoldable pub get_or_compile :
      (LikePatternCache Regexp → LikePatternCache Regexp)
      → Text
      → LikePatternCache Regexp
      → LikePatternCache Regexp × Option (CompiledPattern Regexp)
  get_or_compile others p c = get_or_else p others (entry_of p c.order) c

  abbrev pub matched : (Regexp → Text → Bool) → Text → Option (CompiledPattern Regexp) → Option Bool
  matched matches text none = none
  matched matches text (some cp) = some (match matches cp text)

  -- EvalLike of two strings; none is the error.
  unfoldable pub eval_like :
      (Regexp → Text → Bool)
      → (LikePatternCache Regexp → LikePatternCache Regexp)
      → Text
      → Text
      → LikePatternCache Regexp
      → LikePatternCache Regexp × Option Bool
  eval_like matches others text pattern c =
      let r = get_or_compile others pattern c in (r.0, matched matches text r.1)

-- ===== src/Like/Tests.antt =====
-- server/internal/core/executor/eval/like.go: runs on small patterns, and the theorems at them.
use pro_labs.Common.{
  ℕ, ◌≡◌, ◌↔◌, refl, arith, Bool, true, false, Option, none, some, [], ◌∷◌, Text, same_text,
  has_prefix, has_suffix, index_of, length,
}
use pro_labs.Like.{
  simple, split, compile_pattern, match_segments, match_middle, middle_of, last_of, match_behind,
  match,
}
use pro_labs.Like.Pattern.{Like}
use pro_labs.Common.Recent.{entry_of, remove_entry, drop_back}
use pro_labs.Like.Cache.{
  LikePatternCache, get_or_compile, eval_like, move_to_front, add_or_get, add_compiled, get_or_else,
}
use pro_labs.Like.Transparent.{IsCache, get_or_compile_lem, eval_like_iff}

-- No expression compiles, and no expression matches.
abbrev compile : Text → Option (Unit {0})
compile text = none

abbrev quote_meta : ℕ → Text
quote_meta c = c ∷ []

abbrev matches : Unit {0} → Text → Bool
matches r text = false

-- The pattern a%b%, and a text that is like it.
abbrev pattern_ab : Text
pattern_ab = 97 ∷ 37 ∷ 98 ∷ 37 ∷ []

abbrev text_ab : Text
text_ab = 97 ∷ 99 ∷ 98 ∷ 98 ∷ []

abbrev sample : LikePatternCache (Unit {0})
unfolding split
sample = record {
  capacity = 1;
  order = (99 ∷ [], simple (record { first = 99 ∷ []; rest = [] })) ∷ [];
}

sample-IsCache : IsCache compile quote_meta sample
unfolding compile_pattern split
sample-IsCache = record { right = (refl, tt); full = omega arith }

abbrev idle : LikePatternCache (Unit {0}) → LikePatternCache (Unit {0})
idle c = c

-- The pattern takes the place of the one that was used last, and the text is like it.
eval_like_runs :
    ((eval_like compile quote_meta matches idle text_ab pattern_ab sample).1 ≡ some true)
    × ((eval_like compile quote_meta matches idle (98 ∷ []) pattern_ab sample).1 ≡ some false)
    × (length (eval_like compile quote_meta matches idle text_ab pattern_ab sample).0.order ≡ 1)
unfolding eval_like get_or_compile get_or_else add_compiled add_or_get drop_back remove_entry
    entry_of same_text compile_pattern split match match_segments match_behind match_middle
    middle_of last_of has_prefix has_suffix index_of move_to_front
eval_like_runs = (refl, refl, refl)

eval_like_iff_example :
    ((eval_like compile quote_meta matches idle text_ab pattern_ab sample).1 ≡ some true)
    ↔ Like pattern_ab text_ab
eval_like_iff_example =
    eval_like_iff compile quote_meta matches idle text_ab pattern_ab sample (λ d h. h)
      sample-IsCache refl

get_or_compile_lem_example :
    ((get_or_compile compile quote_meta idle pattern_ab sample).1
      ≡ compile_pattern compile quote_meta pattern_ab)
    × IsCache compile quote_meta (get_or_compile compile quote_meta idle pattern_ab sample).0
get_or_compile_lem_example =
    get_or_compile_lem compile quote_meta idle pattern_ab sample (λ d h. h) sample-IsCache

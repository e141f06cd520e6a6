-- ===== src/Like.antt =====
-- server/internal/core/executor/eval/like.go: LIKE.
--
-- A string is the list of its code points. The code compares bytes; on valid UTF-8 the tests for a
-- prefix, a suffix and the first occurrence give the same, since no encoding starts inside another.
-- The package regexp is a parameter, and so is regexp.QuoteMeta.
pub mod Pattern
pub mod Greedy
pub mod Cache
pub mod Transparent
mod Tests
use pro_labs.Common.{
  ℕ, ◌+◌, ◌-◌, Bool, true, false, Option, none, some, List, [], ◌∷◌, ◌++◌, ◌||◌, not, length, take,
  drop, ltb, ◌==◌, if◌then◌else◌, Text, same_text, has_prefix, has_suffix, index_of,
}

abbrev pub percent : ℕ
percent = 37

abbrev pub underscore : ℕ
underscore = 95

-- What strings.Split gives: never empty, so the first segment is apart.
pub record Segments : Type 0 where
  pub first : Text
  pub rest : List Text

-- The two cases of compiledPattern: segments, or what regexp.Compile gives.
pub data CompiledPattern (Regexp : Type 0) : Type 0 where
  simple : Segments → CompiledPattern Regexp
  re : Regexp → CompiledPattern Regexp

-- `text[i+len(mid):]`
abbrev pub text_behind : Text → Text → Option ℕ → Option Text
text_behind text mid none = none
text_behind text mid (some i) = some (drop (i + length mid) text)

abbrev pub or_false : Option Text → (Text → Bool) → Bool
or_false none go = false
or_false (some text) go = go text

-- The loop over the segments between the first and the last.
unfoldable pub match_middle : Text → List Text → Bool
match_middle text [] = true
match_middle text (mid ∷ mids) =
    let go_on = match_middle text mids in
    let found = or_false (text_behind text mid (index_of text mid)) (λ t. match_middle t mids) in
    if same_text mid [] then go_on else found

-- `segs[1 : len(segs)-1]` and the last segment, of `segs[1:]`.
unfoldable pub middle_of : Text → List Text → List Text
middle_of s [] = []
middle_of s (t ∷ segs) = s ∷ middle_of t segs

unfoldable pub last_of : Text → List Text → Text
last_of s [] = s
last_of s (t ∷ segs) = last_of t segs

-- The text behind the first segment, against the others.
pub match_behind : Text → Text → List Text → Bool
match_behind text s segs =
    let end = last_of s segs in
    if ltb (length text) (length end) || not (has_suffix text end)
    then false
    else match_middle (take (length text - length end) text) (middle_of s segs)

abbrev pub match_rest : Text → Text → List Text → Bool
match_rest text first [] = same_text text first
match_rest text first (s ∷ segs) =
    if not (has_prefix text first) then false else match_behind (drop (length first) text) s segs

pub match_segments : Text → Segments → Bool
match_segments text segs = match_rest text segs.first segs.rest

-- strings.Contains of one code point.
abbrev pub contains : ℕ → Text → Bool
contains c [] = false
contains c (x ∷ xs) = let rest = contains c xs in (x == c) || rest

abbrev pub add_to_first : ℕ → Segments → Segments
add_to_first c segs = record { first = c ∷ segs.first; rest = segs.rest }

-- strings.Split at `%`.
unfoldable pub split : Text → Segments
split [] = record { first = []; rest = [] }
split (c ∷ p) =
    let segs = split p in
    if c == percent
    then (record { first = []; rest = segs.first ∷ segs.rest })
    else add_to_first c segs

module _ {Regexp : Type 0} (compile : Text → Option Regexp) (quote_meta : ℕ → Text) where
  -- The body of the regular expression that compilePattern writes.
  abbrev pub regexp_body : Text → Text
  regexp_body [] = []
  regexp_body (c ∷ p) =
      let rest = regexp_body p in
      (if c == percent then 46 ∷ 42 ∷ [] else if c == underscore then 46 ∷ [] else quote_meta c)
      ++ rest

  abbrev pub compiled : Option Regexp → Option (CompiledPattern Regexp)
  compiled none = none
  compiled (some r) = some (re r)

  -- `(?s)^`, the body and `$`; none is the error.
  unfoldable pub compile_pattern : Text → Option (CompiledPattern Regexp)
  compile_pattern pattern =
      if not (contains underscore pattern)
      then some (simple (split pattern))
      else compiled (compile ((40 ∷ 63 ∷ 115 ∷ 41 ∷ 94 ∷ []) ++ (regexp_body pattern ++ (36 ∷ []))))

-- `matches` is MatchString.
unfoldable pub match :
    {Regexp : Type 0} → (Regexp → Text → Bool) → CompiledPattern Regexp → Text → Bool
match matches (simple segs) text = match_segments text segs
match matches (re r) text = matches r text

-- ===== src/Common/Codes.antt =====
-- Strings as lists of code points: equality, prefixes, suffixes and the first occurrence of a string.
use Prim.Native.Nat.{ℕ, zero, suc, ◌+◌, ◌-◌, ◌≤◌}
use mathlib.Core.Path.{◌≡◌, refl, sym, ap, ◌∙◌}
use mathlib.Core.Logic.{◌↔◌}
use mathlib.Core.Bool.{Bool, true, false, ◌&&◌}
use mathlib.Core.Option.{Option, none, some}
use mathlib.Core.List.{List, [], ◌∷◌, ◌++◌, tail-eq_of_cons-eq, head-eq_of_cons-eq}
use native.Mathlib.Omega.{arith}
use pro_labs.Common.Tests.{and_iff, ==_iff, if-cases, leb, ◌==◌, if◌then◌else◌}
use pro_labs.Common.Arrays.{length, drop, take, length-append}

abbrev pub Text : Type 0
Text = List ℕ

-- `a == b` on strings
unfoldable pub same_text : Text → Text → Bool
same_text [] [] = true
same_text [] (y ∷ ys) = false
same_text (x ∷ xs) [] = false
same_text (x ∷ xs) (y ∷ ys) = x == y && same_text xs ys

-- strings.HasPrefix
unfoldable pub has_prefix : Text → Text → Bool
has_prefix text [] = true
has_prefix [] (y ∷ ys) = false
has_prefix (x ∷ xs) (y ∷ ys) = x == y && has_prefix xs ys

-- strings.HasSuffix
unfoldable pub has_suffix : Text → Text → Bool
unfolding same_text
has_suffix text end =
    leb (length end) (length text) && same_text (drop (length text - length end) text) end

abbrev pub next_index : Option ℕ → Option ℕ
next_index none = none
next_index (some i) = some (suc i)

-- strings.Index, where -1 is none
unfoldable pub index_of : Text → Text → Option ℕ
unfolding has_prefix
index_of [] sub = if has_prefix [] sub then some 0 else none
index_of (x ∷ xs) sub =
    let rest = index_of xs sub in if has_prefix (x ∷ xs) sub then some 0 else next_index rest

cong_cons : {x y : ℕ} {xs ys : Text} → x ≡ y → xs ≡ ys → Path Text (x ∷ xs) (y ∷ ys)
cong_cons e f i = e i ∷ f i

pub same_text_iff : (a b : Text) → (same_text a b ≡ true) ↔ (a ≡ b)
unfolding same_text
same_text_iff [] [] = (λ h. refl, λ h. refl)
same_text_iff [] (y ∷ ys) = (λ h. absurd (cc h), λ h. absurd (cc h))
same_text_iff (x ∷ xs) [] = (λ h. absurd (cc h), λ h. absurd (cc h))
same_text_iff (x ∷ xs) (y ∷ ys) =
    let rest = same_text_iff xs ys in
    let both = and_iff (x == y) (same_text xs ys) in
    (
      λ h. let (a, b) = both.0 h in cong_cons ((==_iff x y).0 a) (rest.0 b),
      λ h. both.1 ((==_iff x y).1 (head-eq_of_cons-eq h), rest.1 (tail-eq_of_cons-eq h)),
    )

pub has_prefix_iff :
    (text start : Text) → (has_prefix text start ≡ true) ↔ ((rest : Text) × (text ≡ start ++ rest))
unfolding has_prefix
has_prefix_iff text [] = (λ h. (text, refl), λ h. refl)
has_prefix_iff [] (y ∷ ys) = (λ h. absurd (cc h), λ (rest, e). absurd (cc e))
has_prefix_iff (x ∷ xs) (y ∷ ys) =
    let more = has_prefix_iff xs ys in
    let both = and_iff (x == y) (has_prefix xs ys) in
    (
      λ h.
          let (a, b) = both.0 h in
          let (rest, e) = more.0 b in (rest, cong_cons ((==_iff x y).0 a) e),
      λ (rest, e).
          both.1 ((==_iff x y).1 (head-eq_of_cons-eq e), more.1 (rest, tail-eq_of_cons-eq e)),
    )

pub drop-append : (a b : Text) → drop (length a) (a ++ b) ≡ b
drop-append [] b = refl
drop-append (x ∷ a) b = drop-append a b

pub take-append : (a b : Text) → take (length a) (a ++ b) ≡ a
take-append [] b = refl
take-append (x ∷ a) b = cong_cons refl (take-append a b)

-- Two ways to split a text: the shorter end is a suffix of the longer one.
pub suffix_of : (a b c d : Text) → a ++ b ≡ c ++ d → length d ≤ length b → (w : Text) × (b ≡ w ++ d)
suffix_of [] b c d e h = (c, e)
suffix_of (x ∷ a) b [] d e h = absurd (omega (arith, ap length e, length-append a b))
suffix_of (x ∷ a) b (y ∷ c) d e h = suffix_of a b c d (tail-eq_of_cons-eq e) h

pub take-drop : (n : ℕ) (text : Text) → take n text ++ drop n text ≡ text
take-drop zero text = refl
take-drop (suc n) [] = refl
take-drop (suc n) (x ∷ xs) = cong_cons refl (take-drop n xs)

pub has_suffix_iff :
    (text end : Text) → (has_suffix text end ≡ true) ↔ ((start : Text) × (text ≡ start ++ end))
unfolding has_suffix
has_suffix_iff text end =
    let n = length text - length end in
    let both = and_iff (leb (length end) (length text)) (same_text (drop n text) end) in
    (
      λ h.
          let e = (same_text_iff (drop n text) end).0 (both.0 h).1 in
          (take n text, sym (take-drop n text) ∙ ap (λ (x : Text). take n text ++ x) e),
      λ (start, e).
          let size : length text ≡ length start + length end =
            ap length e ∙ length-append start end in
          let k : n ≡ length start = omega arith in
          let d : drop n text ≡ end =
            ap (λ (x : ℕ). drop x text) k ∙ ap (drop (length start)) e ∙ drop-append start end in
          both.1 (ground arith, (same_text_iff (drop n text) end).1 d),
    )

-- `sub` stands in the text at `i`, with `rest` behind it, and nowhere before.
pub record Found (text sub : Text) (i : ℕ) : Type 0 where
  pub before : Text
  pub rest : Text
  pub split : text ≡ before ++ (sub ++ rest)
  pub at : length before ≡ i
  pub first : (u v : Text) → text ≡ u ++ (sub ++ v) → length v ≤ length rest

-- What an index says of the text.
abbrev pub Locates : Text → Text → Option ℕ → Type 0
Locates text sub none = (u v : Text) → ¬ (text ≡ u ++ (sub ++ v))
Locates text sub (some i) = Found text sub i

at_empty : (u w : Text) → [] ≡ u ++ w → [] ≡ w
at_empty [] w h = h
at_empty (x ∷ u) w h = absurd (cc h)

skip_first :
    (x : ℕ) (xs sub u v : Text)
    → has_prefix (x ∷ xs) sub ≡ false
    → x ∷ xs ≡ u ++ (sub ++ v)
    → (u' : Text) × (xs ≡ u' ++ (sub ++ v))
skip_first x xs sub [] v no_prefix h =
    absurd (cc (no_prefix, (has_prefix_iff (x ∷ xs) sub).1 (v, h)))
skip_first x xs sub (y ∷ u) v no_prefix h = (u, tail-eq_of_cons-eq h)

Found-here : (text sub : Text) → has_prefix text sub ≡ true → Found text sub 0
Found-here text sub h =
    let (rest, e) = (has_prefix_iff text sub).0 h in
    record {
      before = [];
      rest = rest;
      split = e;
      at = refl;
      first = λ u v k. omega (
        arith,
        ap length e,
        ap length k,
        length-append sub rest,
        length-append u (sub ++ v),
        length-append sub v,
      );
    }

Locates-next :
    (x : ℕ) (xs sub : Text) (o : Option ℕ)
    → has_prefix (x ∷ xs) sub ≡ false
    → Locates xs sub o
    → Locates (x ∷ xs) sub (next_index o)
Locates-next x xs sub none no_prefix h =
    λ u v e. let (u', k) = skip_first x xs sub u v no_prefix e in h u' v k
Locates-next x xs sub (some i) no_prefix h = record {
  before = x ∷ h.before;
  rest = h.rest;
  split = cong_cons refl h.split;
  at = ap suc h.at;
  first = λ u v e. let (u', k) = skip_first x xs sub u v no_prefix e in h.first u' v k;
}

-- Index gives the first place where the string stands, and none only if it stands nowhere.
pub index_of-Locates : (text sub : Text) → Locates text sub (index_of text sub)
unfolding index_of
index_of-Locates [] sub =
    if-cases (Locates [] sub) (has_prefix [] sub) (Found-here [] sub)
      (λ e u v h. cc (e, (has_prefix_iff [] sub).1 (v, at_empty u (sub ++ v) h)))
index_of-Locates (x ∷ xs) sub =
    if-cases (Locates (x ∷ xs) sub) (has_prefix (x ∷ xs) sub) (Found-here (x ∷ xs) sub)
      (λ e. Locates-next x xs sub (index_of xs sub) e (index_of-Locates xs sub))

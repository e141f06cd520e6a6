-- ===== src/Like/Greedy.antt =====
-- server/internal/core/executor/eval/like.go: taking the first occurrence of each segment is enough.
use mathlib.Core.Path.{subst}
use mathlib.Core.List.{append_assoc, append-nil}
use pro_labs.Common.{
  ℕ, ◌+◌, ◌-◌, ◌≡◌, ◌↔◌, refl, sym, ap, ◌∙◌, arith, Bool, true, false, Option, none, some, List, [],
  ◌∷◌, ◌++◌, ◌||◌, not, ltb, if-cases, inl, inr, or_iff, Text, length, take, drop, take-append,
  length-append, same_text, same_text_iff, has_prefix, has_prefix_iff, has_suffix, has_suffix_iff,
  index_of, index_of-Locates, Locates, suffix_of, drop-append,
}
use pro_labs.Like.{
  Segments, match_segments, match_rest, match_behind, match_middle, middle_of, last_of, text_behind,
  or_false,
}
use pro_labs.Like.Pattern.{Gaps, Fits}

-- The segments stand in the text one behind the other, and anything may follow.
abbrev Runs : List Text → Text → Type 0
Runs [] t = Unit
Runs (s ∷ segs) t = (u : Text) × (v : Text) × (t ≡ u ++ (s ++ v)) × Runs segs v

-- They still do with more text in front.
Runs-longer : (segs : List Text) (w t : Text) → Runs segs t → Runs segs (w ++ t)
Runs-longer [] w t h = tt
Runs-longer (s ∷ segs) w t (u, v, e, g) =
    (w ++ u, v, ap (λ (x : Text). w ++ x) e ∙ sym (append_assoc w u (s ++ v)), g)

-- Behind the first occurrence there is the most text.
found_iff :
    (s : Text) (segs : List Text) (t : Text) (o : Option ℕ)
    → ((v : Text) → (match_middle v segs ≡ true) ↔ Runs segs v)
    → Locates t s o
    → (or_false (text_behind t s o) (λ v. match_middle v segs) ≡ true) ↔ Runs (s ∷ segs) t
found_iff s segs t none rest h = (λ e. absurd (cc e), λ (u, v, e, g). absurd (h u v e))
found_iff s segs t (some i) rest h =
    let join : t ≡ (h.before ++ s) ++ h.rest = h.split ∙ sym (append_assoc h.before s h.rest) in
    let size : i + length s ≡ length (h.before ++ s) =
      omega (arith, h.at, length-append h.before s) in
    let cut : drop (i + length s) t ≡ h.rest =
      ap (λ (n : ℕ). drop n t) size
      ∙ ap (drop (length (h.before ++ s))) join
      ∙ drop-append (h.before ++ s) h.rest in
    (
      λ e. (h.before, h.rest, h.split, subst (Runs segs) cut ((rest (drop (i + length s) t)).0 e)),
      λ (u, v, e, g).
          let (w, k) =
            suffix_of (h.before ++ s) h.rest (u ++ s) v (sym join ∙ e ∙ sym (append_assoc u s v))
              (h.first u v e) in
          (rest (drop (i + length s) t)).1
            (subst (Runs segs) (sym (cut ∙ k)) (Runs-longer segs w v g)),
    )

match_middle_iff : (segs : List Text) (t : Text) → (match_middle t segs ≡ true) ↔ Runs segs t
unfolding match_middle
match_middle_iff [] t = (λ h. tt, λ h. refl)
match_middle_iff (s ∷ segs) t =
    if-cases (λ (b : Bool). (b ≡ true) ↔ Runs (s ∷ segs) t) (same_text s [])
      (λ e.
        let k : s ≡ [] = (same_text_iff s []).0 e in
        subst (λ (x : Text). (match_middle t segs ≡ true) ↔ Runs (x ∷ segs) t) (sym k)
          (
            λ h. ([], t, refl, (match_middle_iff segs t).0 h),
            λ (u, v, f, g).
                (match_middle_iff segs t).1 (subst (Runs segs) (sym f) (Runs-longer segs u v g)),
          ))
      (λ e. found_iff s segs t (index_of t s) (match_middle_iff segs) (index_of-Locates t s))

three : (u s v w : Text) → u ++ (s ++ (v ++ w)) ≡ (u ++ (s ++ v)) ++ w
three u s v w =
    ap (λ (x : Text). u ++ x) (sym (append_assoc s v w)) ∙ sym (append_assoc u (s ++ v) w)

-- The last segment stands at the end, the others before it.
Gaps-last :
    (s : Text) (segs : List Text) (t : Text)
    → Gaps (s ∷ segs) t ↔ ((u : Text) × (t ≡ u ++ last_of s segs) × Runs (middle_of s segs) u)
unfolding last_of middle_of
Gaps-last s [] t = (
  λ (u, v, e, k).
      (u, e ∙ ap (λ (x : Text). u ++ (s ++ x)) k ∙ ap (λ (x : Text). u ++ x) (append-nil s), tt),
  λ (u, e, n). (u, [], e ∙ ap (λ (x : Text). u ++ x) (sym (append-nil s)), refl),
)
Gaps-last s (r ∷ segs) t =
    let end = last_of r segs in
    (
      λ (u, v, e, g).
          let (u', e', m) = (Gaps-last r segs v).0 g in
          (
            u ++ (s ++ u'),
            e ∙ ap (λ (x : Text). u ++ (s ++ x)) e' ∙ three u s u' end,
            (u, u', refl, m),
          ),
      λ (x, e, (u, v, k, m)). (
        u,
        v ++ end,
        e ∙ ap (λ (y : Text). y ++ end) k ∙ sym (three u s v end),
        (Gaps-last r segs (v ++ end)).1 (v, refl, m),
      ),
    )

neither : (a b : Bool) → (a || not b) ≡ false → b ≡ true
neither a true h = refl
neither true false h = absurd (cc h)
neither false false h = absurd (cc h)

before_end : (t u end : Text) → t ≡ u ++ end → take (length t - length end) t ≡ u
before_end t u end e =
    let n : length t - length end ≡ length u = omega (arith, ap length e, length-append u end) in
    ap (λ (x : ℕ). take x t) n ∙ ap (take (length u)) e ∙ take-append u end

short : (u end t : Text) → t ≡ u ++ end → ¬ (ltb (length t) (length end) ≡ true)
short u end t e h = ground (arith, ap length e, length-append u end, h)

match_behind_iff :
    (t s : Text) (segs : List Text) → (match_behind t s segs ≡ true) ↔ Gaps (s ∷ segs) t
unfolding match_behind
match_behind_iff t s segs =
    let end = last_of s segs in
    let early = ltb (length t) (length end) in
    let other = not (has_suffix t end) in
    let whole = Gaps-last s segs t in
    if-cases (λ (b : Bool). (b ≡ true) ↔ Gaps (s ∷ segs) t) (early || other)
      (λ e. (
        λ h. absurd (cc h),
        λ g.
            let (u, k, m) = whole.0 g in
            let suffix = (has_suffix_iff t end).1 (u, k) in
            absurd (elim ((or_iff early other).0 e) [
              | inl a ↦ short u end t k a
              | inr b ↦ cc (suffix, b)
            ]),
      ))
      (λ e.
        let (start, k) = (has_suffix_iff t end).0 (neither early (has_suffix t end) e) in
        let cut = before_end t start end k in
        let middle = match_middle_iff (middle_of s segs) (take (length t - length end) t) in
        (
          λ h. whole.1 (start, k, subst (Runs (middle_of s segs)) cut (middle.0 h)),
          λ g.
              let (u, l, m) = whole.0 g in
              middle.1 (subst (Runs (middle_of s segs)) (sym (before_end t u end l)) m),
        ))

match_rest_iff :
    (t first : Text) (rest : List Text)
    → (match_rest t first rest ≡ true) ↔ ((v : Text) × (t ≡ first ++ v) × Gaps rest v)
match_rest_iff t first [] =
    let both = same_text_iff t first in
    (
      λ h. ([], both.0 h ∙ sym (append-nil first), refl),
      λ (v, e, k). both.1 (e ∙ ap (λ (x : Text). first ++ x) k ∙ append-nil first),
    )
match_rest_iff t first (s ∷ segs) =
    let start = has_prefix_iff t first in
    if-cases (λ (b : Bool). (b ≡ true) ↔ ((v : Text) × (t ≡ first ++ v) × Gaps (s ∷ segs) v))
      (not (has_prefix t first))
      (λ e. (λ h. absurd (cc h), λ (v, k, g). absurd (cc (e, start.1 (v, k)))))
      (λ e.
        let cut =
          λ (v : Text) (k : t ≡ first ++ v). ap (drop (length first)) k ∙ drop-append first v in
        let (v, k) = start.0 (neither false (has_prefix t first) e) in
        (
          λ h. (
            v,
            k,
            subst (Gaps (s ∷ segs)) (cut v k)
                ((match_behind_iff (drop (length first) t) s segs).0 h),
          ),
          λ (u, l, g).
              (match_behind_iff (drop (length first) t) s segs).1
                (subst (Gaps (s ∷ segs)) (sym (cut u l)) g),
        ))

-- matchSegments accepts exactly the texts in which the segments stand in order, the first at the start
-- and the last at the end.
pub match_segments_iff : (t : Text) (segs : Segments) → (match_segments t segs ≡ true) ↔ Fits segs t
unfolding match_segments
match_segments_iff t segs = match_rest_iff t segs.first segs.rest

-- ===== src/Like/Pattern.antt =====
-- server/internal/core/executor/eval/like.go: what LIKE means, and patterns cut at `%`.
use mathlib.Core.Path.{subst}
use pro_labs.Common.{
  ℕ, ◌≡◌, ◌≢◌, refl, sym, ◌∙◌, Bool, List, [], ◌∷◌, ◌++◌, ==_iff, Bool-cases, inl, inr, ◌==◌,
  if◌then◌else◌, if-cases, Text,
}
use pro_labs.Like.{percent, Segments, split, add_to_first}

-- A text is like a pattern: `%` stands for any text, everything else for itself.
pub data Like : Text → Text → Type 0 where
  empty : Like [] []
  same : {c : ℕ} {p t : Text} → c ≢ percent → Like p t → Like (c ∷ p) (c ∷ t)
  none_left : {p t : Text} → Like p t → Like (percent ∷ p) t
  one_more : {c : ℕ} {p t : Text} → Like (percent ∷ p) t → Like (percent ∷ p) (c ∷ t)

-- The segments stand in the text one behind the other, the last at its end.
abbrev pub Gaps : List Text → Text → Type 0
Gaps [] t = t ≡ []
Gaps (s ∷ segs) t = (u : Text) × (v : Text) × (t ≡ u ++ (s ++ v)) × Gaps segs v

-- The text starts with the first segment, and the others stand behind it.
abbrev pub Fits : Segments → Text → Type 0
Fits segs t = (v : Text) × (t ≡ segs.first ++ v) × Gaps segs.rest v

more : {a b : Text} (c : ℕ) → a ≡ b → Path Text (c ∷ a) (c ∷ b)
more c e i = c ∷ e i

pub Like→Fits : {p t : Text} → Like p t → Fits (split p) t
unfolding split
Like→Fits empty = ([], refl, refl)
Like→Fits (same {c} {p} {t} other h) =
    if-cases (λ s. Fits s (c ∷ t)) (c == percent) (λ e. absurd (other ((==_iff c percent).0 e)))
      (λ e. let (v, k, g) = Like→Fits h in (v, more c k, g))
Like→Fits (none_left {p} {t} h) = let (v, k, g) = Like→Fits h in (t, refl, ([], v, k, g))
Like→Fits (one_more {c} {p} {t} h) =
    let (w, k, (u, v, e, g)) = Like→Fits h in (c ∷ t, refl, (c ∷ u, v, more c (k ∙ e), g))

skip_text : (p u x : Text) → Like p x → Like (percent ∷ p) (u ++ x)
skip_text p [] x h = none_left h
skip_text p (c ∷ u) x h = one_more (skip_text p u x h)

pub Fits→Like : (p t : Text) → Fits (split p) t → Like p t
unfolding split
Fits→Like [] t (v, e, g) = subst (Like []) (sym (e ∙ g)) empty
Fits→Like (c ∷ p) t f =
    let wild : Segments = record { first = []; rest = (split p).first ∷ (split p).rest } in
    let choose = λ (b : Bool). if b then wild else add_to_first c (split p) in
    elim (Bool-cases (c == percent)) [
      | inl e ↦
          let (w, k, (u, v, l, g)) = subst (λ b. Fits (choose b) t) e f in
          let inner = Fits→Like p ((split p).first ++ v) (v, refl, g) in
          subst (λ x. Like (x ∷ p) t) (sym ((==_iff c percent).0 e))
            (subst (Like (percent ∷ p)) (sym (k ∙ l)) (skip_text p u ((split p).first ++ v) inner))
      | inr e ↦
          let (v, k, g) = subst (λ b. Fits (choose b) t) e f in
          let other : c ≢ percent = λ q. absurd (cc (e, (==_iff c percent).1 q)) in
          subst (Like (c ∷ p)) (sym k)
            (same other (Fits→Like p ((split p).first ++ v) (v, refl, g)))
    ]

-- ===== src/Bitmap/Pages.antt =====
-- server/internal/core/storage/bitmap.go: Add, And and Or as operations on sets of positions.
use mathlib.Core.Path.{subst}
use native.Mathlib.Decide.{ℕ_discrete}
use pro_labs.Common.{
  ℕ, ◌≡◌, ◌≢◌, refl, ap, ◌∙◌, Bool, false, Option, none, some, List, [], ◌∷◌, ◌&&◌, ◌||◌, ◌==◌,
  if◌then◌else◌, if-cases, arith,
}
use pro_labs.Bitmap.{
  PageBitmap, slots_of, set_slots, slots_with, add, common_of, with_common, and_pages, united,
  or_pages,
}
use pro_labs.Bitmap.Slots.{
  Ascending, among, insert_slot-Ascending, among-insert_slot, intersect-Ascending, among-intersect,
  unite-Ascending, among-unite,
}

-- The slots of each page are in ascending order, and each page has one entry.
abbrev pub IsBitmap : PageBitmap → Type 0
IsBitmap [] = Unit
IsBitmap ((page, slots) ∷ b) = Ascending slots × (slots_of page b ≡ none) × IsBitmap b

abbrev pub in_slots : Option (List ℕ) → ℕ → Bool
in_slots none slot = false
in_slots (some slots) slot = among slot slots

-- Whether a position is in the set.
abbrev pub holds : PageBitmap → ℕ → ℕ → Bool
holds b page slot = in_slots (slots_of page b) slot

slots_of-set_slots :
    (page q : ℕ) (slots : List ℕ) (b : PageBitmap)
    → slots_of q (set_slots page slots b) ≡ (if page == q then some slots else slots_of q b)
slots_of-set_slots page q slots [] = ground arith
slots_of-set_slots page q slots ((p, s) ∷ b) = ground (arith, slots_of-set_slots page q slots b)

abbrev AscendingIn : Option (List ℕ) → Type 0
AscendingIn none = Unit
AscendingIn (some slots) = Ascending slots

slots_of-Ascending : (page : ℕ) (b : PageBitmap) → IsBitmap b → AscendingIn (slots_of page b)
slots_of-Ascending page [] h = tt
slots_of-Ascending page ((p, s) ∷ b) h =
    if-cases AscendingIn (p == page) (λ e. h.0) (λ e. slots_of-Ascending page b h.2)

set_slots-IsBitmap :
    (page : ℕ) (slots : List ℕ) (b : PageBitmap)
    → Ascending slots
    → IsBitmap b
    → IsBitmap (set_slots page slots b)
set_slots-IsBitmap page slots [] a h = (a, refl, tt)
set_slots-IsBitmap page slots ((p, s) ∷ b) a h =
    if-cases IsBitmap (p == page) (λ e. (a, h.1, h.2))
      (λ e. (
        h.0,
        slots_of-set_slots page p slots b ∙ ground (arith, e, h.1),
        set_slots-IsBitmap page slots b a h.2,
      ))

slots_with-Ascending :
    (o : Option (List ℕ)) (slot : ℕ) → AscendingIn o → Ascending (slots_with o slot)
slots_with-Ascending none slot h = (tt, tt)
slots_with-Ascending (some slots) slot h = insert_slot-Ascending slots slot h

among-slots_with :
    (x : ℕ) (o : Option (List ℕ)) (slot : ℕ)
    → among x (slots_with o slot) ≡ ((slot == x) || in_slots o x)
among-slots_with x none slot = refl
among-slots_with x (some slots) slot = among-insert_slot x slots slot

holds-set_slots :
    (b : PageBitmap) (page : ℕ) (slots : List ℕ) (q x : ℕ) (c : Bool)
    → among x slots ≡ (c || holds b page x)
    → holds (set_slots page slots b) q x ≡ (((page == q) && c) || holds b q x)
holds-set_slots b page slots q x c h =
    ap (λ o. in_slots o x) (slots_of-set_slots page q slots b) ∙ (elim (ℕ_discrete page q) [
      | yes same ↦
          subst
            (λ (r : ℕ).
              in_slots (if page == r then some slots else slots_of r b) x
              ≡ (((page == r) && c) || holds b r x))
            same (ground (arith, h))
      | no other ↦ ground arith
    ])

-- Add keeps the slots in order, and adds the one position and no other.
pub holds-add :
    (b : PageBitmap) (page slot q x : ℕ)
    → IsBitmap b
    → IsBitmap (add b page slot)
      × (holds (add b page slot) q x ≡ (((page == q) && (slot == x)) || holds b q x))
unfolding add
holds-add b page slot q x h = (
  set_slots-IsBitmap page (slots_with (slots_of page b) slot) b
      (slots_with-Ascending (slots_of page b) slot (slots_of-Ascending page b h)) h,
  holds-set_slots b page (slots_with (slots_of page b) slot) q x (slot == x)
      (among-slots_with x (slots_of page b) slot),
)

common_of-Ascending :
    (slots : List ℕ) (o : Option (List ℕ)) → Ascending slots → Ascending (common_of slots o)
common_of-Ascending slots none h = tt
common_of-Ascending slots (some others) h = intersect-Ascending slots others h

among-common_of :
    (x : ℕ) (slots : List ℕ) (o : Option (List ℕ))
    → Ascending slots
    → AscendingIn o
    → among x (common_of slots o) ≡ (among x slots && in_slots o x)
among-common_of x slots none h k = ground arith
among-common_of x slots (some others) h k = among-intersect x slots others h k

slots_of-with_common :
    (page q : ℕ) (slots : List ℕ) (b : PageBitmap)
    → slots_of page b ≡ none
    → (x : ℕ)
    → holds (with_common page slots b) q x ≡ (if page == q then among x slots else holds b q x)
slots_of-with_common page q [] b h x = elim (ℕ_discrete page q) [
  | yes same ↦
      subst (λ (r : ℕ). holds b r x ≡ (if page == r then false else holds b r x)) same
        (ground (arith, h))
  | no other ↦ ground arith
]
slots_of-with_common page q (s ∷ slots) b h x = ground arith

absent-and_pages :
    (page : ℕ) (b other : PageBitmap)
    → slots_of page b ≡ none
    → slots_of page (and_pages b other) ≡ none
unfolding and_pages
absent-and_pages page [] other h = refl
absent-and_pages page ((p, s) ∷ b) other h =
    absent-with_common page p (common_of s (slots_of p other)) (and_pages b other)
      (ground (arith, h)) (absent-and_pages page b other (ground (arith, h)))
  where
    absent-with_common :
        (page p : ℕ) (slots : List ℕ) (b : PageBitmap)
        → p ≢ page
        → slots_of page b ≡ none
        → slots_of page (with_common p slots b) ≡ none
    absent-with_common page p [] b other h = h
    absent-with_common page p (s ∷ slots) b other h = ground arith

with_common-IsBitmap :
    (page : ℕ) (slots : List ℕ) (b : PageBitmap)
    → Ascending slots
    → slots_of page b ≡ none
    → IsBitmap b
    → IsBitmap (with_common page slots b)
with_common-IsBitmap page [] b a h k = k
with_common-IsBitmap page (s ∷ slots) b a h k = (a, h, k)

pub and_pages-IsBitmap : (b other : PageBitmap) → IsBitmap b → IsBitmap (and_pages b other)
unfolding and_pages
and_pages-IsBitmap [] other h = tt
and_pages-IsBitmap ((p, s) ∷ b) other h =
    with_common-IsBitmap p (common_of s (slots_of p other)) (and_pages b other)
      (common_of-Ascending s (slots_of p other) h.0) (absent-and_pages p b other h.1)
      (and_pages-IsBitmap b other h.2)

-- And of two well-formed bitmaps holds a position exactly if both do.
pub holds-and_pages :
    (b other : PageBitmap) (q x : ℕ)
    → IsBitmap b
    → IsBitmap other
    → holds (and_pages b other) q x ≡ (holds b q x && holds other q x)
unfolding and_pages
holds-and_pages [] other q x h k = refl
holds-and_pages ((p, s) ∷ b) other q x h k =
    let slots = common_of s (slots_of p other) in
    slots_of-with_common p q slots (and_pages b other) (absent-and_pages p b other h.1) x
    ∙ (elim (ℕ_discrete p q) [
      | yes same ↦
          subst
            (λ (r : ℕ).
              (if p == r then among x slots else holds (and_pages b other) r x)
              ≡ (in_slots (if p == r then some s else slots_of r b) x && holds other r x))
            same
            (ground
              (arith, among-common_of x s (slots_of p other) h.0 (slots_of-Ascending p other k)))
      | no differ ↦ ground (arith, holds-and_pages b other q x h.2 k)
    ])

united-Ascending :
    (o : Option (List ℕ)) (slots : List ℕ)
    → AscendingIn o
    → Ascending slots
    → Ascending (united o slots)
united-Ascending none slots h k = k
united-Ascending (some others) slots h k = unite-Ascending others slots h k

among-united :
    (x : ℕ) (o : Option (List ℕ)) (slots : List ℕ)
    → among x (united o slots) ≡ (among x slots || in_slots o x)
among-united x none slots = ground arith
among-united x (some others) slots = among-unite x others slots ∙ ground arith

pub or_pages-IsBitmap :
    (b other : PageBitmap) → IsBitmap b → IsBitmap other → IsBitmap (or_pages b other)
unfolding or_pages
or_pages-IsBitmap b [] h k = h
or_pages-IsBitmap b ((p, s) ∷ other) h k =
    or_pages-IsBitmap (set_slots p (united (slots_of p b) s) b) other
      (set_slots-IsBitmap p (united (slots_of p b) s) b
        (united-Ascending (slots_of p b) s (slots_of-Ascending p b h) k.0) h)
      k.2

-- Or with a well-formed bitmap holds a position exactly if one of the two does.
pub holds-or_pages :
    (b other : PageBitmap) (q x : ℕ)
    → IsBitmap other
    → holds (or_pages b other) q x ≡ (holds b q x || holds other q x)
unfolding or_pages
holds-or_pages b [] q x k = ground arith
holds-or_pages b ((p, s) ∷ other) q x k =
    holds-or_pages (set_slots p (united (slots_of p b) s) b) other q x k.2
    ∙ ap (λ c. c || holds other q x)
        (holds-set_slots b p (united (slots_of p b) s) q x (among x s)
          (among-united x (slots_of p b) s))
    ∙ (elim (ℕ_discrete p q) [
      | yes same ↦
          subst
            (λ (r : ℕ).
              ((((p == r) && among x s) || holds b r x) || holds other r x)
              ≡ (holds b r x || in_slots (if p == r then some s else slots_of r other) x))
            same (ground (arith, k.1))
      | no differ ↦ ground arith
    ])

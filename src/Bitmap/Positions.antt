-- ===== src/Bitmap/Positions.antt =====
-- server/internal/core/storage/bitmap.go: ToPositions lists the set in order, each position once.
use native.Mathlib.Decide.{ℕ_discrete}
use pro_labs.Common.{
  ℕ, ◌<◌, ◌≡◌, ◌⊎◌, inl, inr, refl, sym, ap, ◌∙◌, Bool, false, none, some, List, [], ◌∷◌, ◌++◌,
  ◌&&◌, ◌||◌, leb, ◌==◌, if◌then◌else◌, if-cases, arith, All, All-append,
}
use pro_labs.Bitmap.{
  PageBitmap, RowPosition, slots_of, sorted_with, sort_pages, positions_of, all_positions,
  to_positions,
}
use pro_labs.Bitmap.Slots.{Ascending, among}
use pro_labs.Bitmap.Pages.{IsBitmap, in_slots, holds}

abbrev pub listed : ℕ → ℕ → List RowPosition → Bool
listed page slot [] = false
listed page slot (r ∷ rs) = ((r.page_id == page) && (r.slot == slot)) || listed page slot rs

-- By page, and on one page by slot.
abbrev pub Before : RowPosition → RowPosition → Type 0
Before r s = (r.page_id < s.page_id) ⊎ ((r.page_id ≡ s.page_id) × (r.slot < s.slot))

abbrev pub InOrder : List RowPosition → Type 0
InOrder [] = Unit
InOrder (r ∷ rs) = All (Before r) rs × InOrder rs

abbrev PagesAscending : PageBitmap → Type 0
PagesAscending [] = Unit
PagesAscending ((page, s) ∷ b) = All (λ (e : ℕ × List ℕ). page < e.0) b × PagesAscending b

slots_of-sorted_with :
    (page q : ℕ) (s : List ℕ) (b : PageBitmap)
    → slots_of page b ≡ none
    → slots_of q (sorted_with (page, s) b) ≡ (if page == q then some s else slots_of q b)
slots_of-sorted_with page q s [] h = refl
slots_of-sorted_with page q s ((p, t) ∷ b) h = ground (arith, slots_of-sorted_with page q s b, h)

sorted_with-IsBitmap :
    (page : ℕ) (s : List ℕ) (b : PageBitmap)
    → Ascending s
    → slots_of page b ≡ none
    → IsBitmap b
    → IsBitmap (sorted_with (page, s) b)
sorted_with-IsBitmap page s [] a h k = (a, refl, tt)
sorted_with-IsBitmap page s ((p, t) ∷ b) a h k =
    if-cases IsBitmap (leb page p) (λ e. (a, h, k))
      (λ e. (
        k.0,
        slots_of-sorted_with page p s b (ground (arith, h)) ∙ ground (arith, h, k.1),
        sorted_with-IsBitmap page s b a (ground (arith, h)) k.2,
      ))

sorted_with-All :
    (P : ℕ × List ℕ → Type 0) (e : ℕ × List ℕ) (b : PageBitmap)
    → P e
    → All P b
    → All P (sorted_with e b)
sorted_with-All P e [] h k = (h, tt)
sorted_with-All P e (f ∷ b) h k =
    if-cases (All P) (leb e.0 f.0) (λ l. (h, k)) (λ l. (k.0, sorted_with-All P e b h k.1))

All-page_lt :
    (x y : ℕ) (b : PageBitmap)
    → x < y
    → All (λ (e : ℕ × List ℕ). y < e.0) b
    → All (λ (e : ℕ × List ℕ). x < e.0) b
All-page_lt x y [] h k = tt
All-page_lt x y (e ∷ b) h k = (omega (arith, k.0), All-page_lt x y b h k.1)

sorted_with-PagesAscending :
    (page : ℕ) (s : List ℕ) (b : PageBitmap)
    → slots_of page b ≡ none
    → PagesAscending b
    → PagesAscending (sorted_with (page, s) b)
sorted_with-PagesAscending page s [] h k = (tt, tt)
sorted_with-PagesAscending page s ((p, t) ∷ b) h k =
    if-cases PagesAscending (leb page p)
      (λ e. let lt : page < p = ground (arith, e, h) in ((lt, All-page_lt page p b lt k.0), k))
      (λ e. (
        sorted_with-All (λ (f : ℕ × List ℕ). p < f.0) (page, s) b (ground (arith, e)) k.0,
        sorted_with-PagesAscending page s b (ground (arith, h)) k.1,
      ))

-- What sorting the pages gives.
record IsSorted (b sorted : PageBitmap) : Type 0 where
  bitmap : IsBitmap sorted
  pages : PagesAscending sorted
  same : (q : ℕ) → slots_of q sorted ≡ slots_of q b

sort_pages-IsSorted : (b : PageBitmap) → IsBitmap b → IsSorted b (sort_pages b)
unfolding sort_pages
sort_pages-IsSorted [] h = record { bitmap = tt; pages = tt; same = λ q. refl }
sort_pages-IsSorted ((page, s) ∷ b) h =
    let rest = sort_pages-IsSorted b h.2 in
    let absent = rest.same page ∙ h.1 in
    record {
      bitmap = sorted_with-IsBitmap page s (sort_pages b) h.0 absent rest.bitmap;
      pages = sorted_with-PagesAscending page s (sort_pages b) absent rest.pages;
      same = λ q.
          slots_of-sorted_with page q s (sort_pages b) absent
          ∙ ap (λ o. if page == q then some s else o) (rest.same q);
    }

listed-append :
    (q x : ℕ) (rs ss : List RowPosition) → listed q x (rs ++ ss) ≡ (listed q x rs || listed q x ss)
listed-append q x [] ss = refl
listed-append q x (r ∷ rs) ss = ground (arith, listed-append q x rs ss)

listed-positions_of :
    (q x page : ℕ) (slots : List ℕ)
    → listed q x (positions_of page slots) ≡ ((page == q) && among x slots)
unfolding positions_of
listed-positions_of q x page [] = ground arith
listed-positions_of q x page (s ∷ slots) = ground (arith, listed-positions_of q x page slots)

listed-all_positions :
    (q x : ℕ) (b : PageBitmap) → IsBitmap b → listed q x (all_positions b) ≡ holds b q x
unfolding all_positions
listed-all_positions q x [] h = refl
listed-all_positions q x ((page, s) ∷ b) h =
    listed-append q x (positions_of page s) (all_positions b) ∙ (elim (ℕ_discrete page q) [
      | yes same ↦
          let gone : holds b q x ≡ false =
            ap (λ (r : ℕ). holds b r x) (sym same) ∙ ap (λ o. in_slots o x) h.1 in
          ground (arith, listed-positions_of q x page s, listed-all_positions q x b h.2, gone)
      | no other ↦ ground (arith, listed-positions_of q x page s, listed-all_positions q x b h.2)
    ])

positions_of-All :
    (P : RowPosition → Type 0) (page : ℕ) (slots : List ℕ)
    → All (λ s. P (record { page_id = page; slot = s })) slots
    → All P (positions_of page slots)
unfolding positions_of
positions_of-All P page [] h = tt
positions_of-All P page (s ∷ slots) h = (h.0, positions_of-All P page slots h.1)

All-weaken :
    {A : Type 0} (P Q : A → Type 0) (xs : List A) → ((a : A) → P a → Q a) → All P xs → All Q xs
All-weaken P Q [] f h = tt
All-weaken P Q (x ∷ xs) f h = (f x h.0, All-weaken P Q xs f h.1)

All-true : {A : Type 0} (P : A → Type 0) (xs : List A) → ((a : A) → P a) → All P xs
All-true P [] f = tt
All-true P (x ∷ xs) f = (f x, All-true P xs f)

all_positions-All :
    (page : ℕ) (b : PageBitmap)
    → All (λ (e : ℕ × List ℕ). page < e.0) b
    → All (λ (r : RowPosition). page < r.page_id) (all_positions b)
unfolding all_positions
all_positions-All page [] h = tt
all_positions-All page ((p, s) ∷ b) h =
    All-append (λ (r : RowPosition). page < r.page_id) (positions_of p s) (all_positions b)
      (positions_of-All _ p s (All-true _ s (λ x. h.0))) (all_positions-All page b h.1)

page_InOrder :
    (page : ℕ) (slots : List ℕ) (later : List RowPosition)
    → Ascending slots
    → All (λ (r : RowPosition). page < r.page_id) later
    → InOrder later
    → InOrder (positions_of page slots ++ later)
unfolding positions_of
page_InOrder page [] later a h k = k
page_InOrder page (s ∷ slots) later a h k =
    let first : RowPosition = record { page_id = page; slot = s } in
    (
      All-append (Before first) (positions_of page slots) later
          (positions_of-All (Before first) page slots
            (All-weaken _ _ slots (λ x l. inr (refl, l)) a.0))
          (All-weaken _ _ later (λ r l. inl l) h),
      page_InOrder page slots later a.1 h k,
    )

all_positions-InOrder : (b : PageBitmap) → IsBitmap b → PagesAscending b → InOrder (all_positions b)
unfolding all_positions
all_positions-InOrder [] h k = tt
all_positions-InOrder ((page, s) ∷ b) h k =
    page_InOrder page s (all_positions b) h.0 (all_positions-All page b k.0)
      (all_positions-InOrder b h.2 k.1)

-- ToPositions of a well-formed bitmap lists the positions that it holds and no other, each once, by page
-- and on a page by slot.
pub to_positions-InOrder :
    (b : PageBitmap)
    → IsBitmap b
    → InOrder (to_positions b) × ((q x : ℕ) → listed q x (to_positions b) ≡ holds b q x)
unfolding to_positions
to_positions-InOrder b h =
    let s = sort_pages-IsSorted b h in
    (
      all_positions-InOrder (sort_pages b) s.bitmap s.pages,
      λ q x. listed-all_positions q x (sort_pages b) s.bitmap ∙ ap (λ o. in_slots o x) (s.same q),
    )

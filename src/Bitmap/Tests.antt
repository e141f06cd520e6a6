-- ===== src/Bitmap/Tests.antt =====
-- server/internal/core/storage/bitmap.go: runs on small sets, and the theorems at them.
use pro_labs.Common.{ℕ, ◌≡◌, refl, arith, [], ◌∷◌, ◌&&◌, ◌||◌}
use pro_labs.Bitmap.{
  PageBitmap, add, and_pages, or_pages, to_positions, search, insert_slot, intersect, unite,
}
use pro_labs.Bitmap.Pages.{IsBitmap, holds, holds-and_pages, holds-or_pages}
use pro_labs.Bitmap.Positions.{InOrder, listed, to_positions-InOrder}

abbrev left : PageBitmap
left = (7, 1 ∷ 4 ∷ []) ∷ (2, 3 ∷ []) ∷ []

abbrev right : PageBitmap
right = (2, 0 ∷ 3 ∷ []) ∷ (7, 2 ∷ []) ∷ []

left-IsBitmap : IsBitmap left
left-IsBitmap = (((omega arith, tt), (tt, tt)), refl, ((tt, tt), refl, tt))

right-IsBitmap : IsBitmap right
right-IsBitmap = (((omega arith, tt), (tt, tt)), refl, ((tt, tt), refl, tt))

pages_run :
    (add left 7 2 ≡ (7, 1 ∷ 2 ∷ 4 ∷ []) ∷ (2, 3 ∷ []) ∷ [])
    × (and_pages left right ≡ (2, 3 ∷ []) ∷ [])
    × (or_pages left right ≡ (7, 1 ∷ 2 ∷ 4 ∷ []) ∷ (2, 0 ∷ 3 ∷ []) ∷ [])
unfolding add and_pages or_pages search insert_slot intersect unite
pages_run = (refl, refl, refl)

holds-and_pages_example : holds (and_pages left right) 2 3 ≡ (holds left 2 3 && holds right 2 3)
holds-and_pages_example = holds-and_pages left right 2 3 left-IsBitmap right-IsBitmap

holds-or_pages_example : holds (or_pages left right) 7 2 ≡ (holds left 7 2 || holds right 7 2)
holds-or_pages_example = holds-or_pages left right 7 2 right-IsBitmap

to_positions-InOrder_example :
    InOrder (to_positions left) × ((q x : ℕ) → listed q x (to_positions left) ≡ holds left q x)
to_positions-InOrder_example = to_positions-InOrder left left-IsBitmap

-- ===== src/Bitmap.antt =====
-- server/internal/core/storage/bitmap.go: sets of row positions, page by page.
--
-- The map from pages to slots is an association list. A range over it visits the entries in the order
-- of the list; the results hold for every order. sort.Search is the first index whose test is true.
pub mod Slots
pub mod Pages
pub mod Positions
mod Tests
use Prim.Native.Nat.{compare, Ordering}
use pro_labs.Common.{
  ℕ, zero, suc, ◌+◌, Bool, true, false, Option, none, some, List, [], ◌∷◌, ◌++◌, ◌&&◌, length, take,
  drop, get_or, ltb, leb, ◌==◌, if◌then◌else◌,
}

pub record RowPosition : Type 0 where
  pub page_id : ℕ
  pub slot : ℕ

abbrev pub PageBitmap : Type 0
PageBitmap = List (ℕ × List ℕ)

abbrev pub new_page_bitmap : PageBitmap
new_page_bitmap = []

abbrev pub slots_of : ℕ → PageBitmap → Option (List ℕ)
slots_of page [] = none
slots_of page ((p, slots) ∷ b) =
    let rest = slots_of page b in if p == page then some slots else rest

-- `b.Pages[page] = slots`
abbrev pub set_slots : ℕ → List ℕ → PageBitmap → PageBitmap
set_slots page slots [] = (page, slots) ∷ []
set_slots page slots ((p, s) ∷ b) =
    let rest = set_slots page slots b in if p == page then (p, slots) ∷ b else (p, s) ∷ rest

-- `sort.Search(len(slots), func(i int) bool { return slots[i] >= slot })`
unfoldable pub search : List ℕ → ℕ → ℕ
search [] slot = 0
search (s ∷ slots) slot = let rest = search slots slot in if leb slot s then 0 else suc rest

-- The part of Add for a page with slots.
unfoldable pub insert_slot : List ℕ → ℕ → List ℕ
unfolding search
insert_slot slots slot =
    let i = search slots slot in
    if ltb i (length slots) && (get_or slots i 0 == slot)
    then slots
    else take i slots ++ (slot ∷ drop i slots)

abbrev pub slots_with : Option (List ℕ) → ℕ → List ℕ
slots_with none slot = slot ∷ []
slots_with (some slots) slot = insert_slot slots slot

unfoldable pub add : PageBitmap → ℕ → ℕ → PageBitmap
add b page slot = set_slots page (slots_with (slots_of page b) slot) b

-- The loop of And over two slices.
unfoldable pub intersect : List ℕ → List ℕ → List ℕ
intersect [] ys = []
intersect (x ∷ xs) [] = []
intersect (x ∷ xs) (y ∷ ys) = elim (compare x y) [
  | Ordering.eq ↦ x ∷ intersect xs ys
  | Ordering.lt ↦ intersect xs (y ∷ ys)
  | Ordering.gt ↦ intersect (x ∷ xs) ys
]

-- `if len(common) > 0`
abbrev pub with_common : ℕ → List ℕ → PageBitmap → PageBitmap
with_common page [] b = b
with_common page (s ∷ slots) b = (page, s ∷ slots) ∷ b

abbrev pub common_of : List ℕ → Option (List ℕ) → List ℕ
common_of slots none = []
common_of slots (some others) = intersect slots others

unfoldable pub and_pages : PageBitmap → PageBitmap → PageBitmap
and_pages [] other = []
and_pages ((page, slots) ∷ b) other =
    with_common page (common_of slots (slots_of page other)) (and_pages b other)

-- The loops of Or over two slices.
unfoldable pub unite : List ℕ → List ℕ → List ℕ
unite [] ys = ys
unite (x ∷ xs) [] = x ∷ xs
unite (x ∷ xs) (y ∷ ys) = elim (compare x y) [
  | Ordering.eq ↦ x ∷ unite xs ys
  | Ordering.lt ↦ x ∷ unite xs (y ∷ ys)
  | Ordering.gt ↦ y ∷ unite (x ∷ xs) ys
]

abbrev pub united : Option (List ℕ) → List ℕ → List ℕ
united none slots = slots
united (some others) slots = unite others slots

unfoldable pub or_pages : PageBitmap → PageBitmap → PageBitmap
or_pages result [] = result
or_pages result ((page, slots) ∷ other) =
    or_pages (set_slots page (united (slots_of page result) slots) result) other

-- `sort.Slice(pageIDs, ...)`
abbrev pub sorted_with : ℕ × List ℕ → PageBitmap → PageBitmap
sorted_with e [] = e ∷ []
sorted_with e (f ∷ b) = let rest = sorted_with e b in if leb e.0 f.0 then e ∷ f ∷ b else f ∷ rest

unfoldable pub sort_pages : PageBitmap → PageBitmap
sort_pages [] = []
sort_pages (e ∷ b) = sorted_with e (sort_pages b)

unfoldable pub positions_of : ℕ → List ℕ → List RowPosition
positions_of page [] = []
positions_of page (s ∷ slots) = record { page_id = page; slot = s } ∷ positions_of page slots

unfoldable pub all_positions : PageBitmap → List RowPosition
unfolding positions_of
all_positions [] = []
all_positions ((page, slots) ∷ b) = positions_of page slots ++ all_positions b

unfoldable pub to_positions : PageBitmap → List RowPosition
to_positions b = all_positions (sort_pages b)

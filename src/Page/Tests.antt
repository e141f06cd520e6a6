-- ===== src/Page/Tests.antt =====
-- server/internal/core/storage/page/page.go: small pages, and the theorems at them.
use pro_labs.Common.{
  ℕ, if◌then◌else◌, leb, ◌%◌, ◌+◌, ◌<◌, ◌≡◌, ap, true, some, none, List, [], ◌∷◌, arith, length,
}
use pro_labs.Page.Bytes.{Page, page_size}
use pro_labs.Page.Outcome.{ok, page_full, panic, Gives}
use pro_labs.Common.{none, some, true, false, refl}
use pro_labs.Page.Tuple.{
  TupleHeader, IsTupleHeader, serialize, is_null, set_not_null, has_bit, with_bit,
}
use pro_labs.Page.{PageHeader, init, insert_tuple}
use pro_labs.Page.Slots.{items, lower, upper, IsPage, init-IsPage, header-init}
use pro_labs.Page.Insert.{
  inserted, HasRoom, insert_tuple_lem, inserted-IsPage, lower-inserted, upper-inserted,
}
use pro_labs.Page.Compact.{compact}
use pro_labs.Page.Alike.{IsCompact, compact-IsCompact}
use pro_labs.Page.Gap.{insert_tuple_at, insert_tuple_at_wrap}
use pro_labs.Page.Trip.{IsUpdated, get_tuple-insert_tuple}

abbrev hello : List ℕ
hello = 104 ∷ 105 ∷ []

abbrev first : Page
first = init 1

first-IsPage : IsPage first
first-IsPage = init-IsPage 1 (omega arith)

first-items : items first ≡ 0
first-items = ap (λ (h : PageHeader). h.n_items) (header-init 1 (omega arith))

first-lower : lower first ≡ 28
first-lower = ap (λ (h : PageHeader). h.lower) (header-init 1 (omega arith))

first-upper : upper first ≡ page_size
first-upper = ap (λ (h : PageHeader). h.upper) (header-init 1 (omega arith))

first-HasRoom : HasRoom first hello
first-HasRoom = omega (arith, first-lower, first-upper)

-- A page with one tuple.
abbrev second : Page
second = inserted first hello

second-IsPage : IsPage second
second-IsPage = inserted-IsPage first hello first-IsPage first-HasRoom (omega arith)

second-HasRoom : HasRoom second hello
second-HasRoom = omega (
  arith,
  first-lower,
  first-upper,
  lower-inserted first hello first-IsPage first-HasRoom,
  upper-inserted first hello first-IsPage first-HasRoom,
)

abbrev sum : List ℕ → ℕ
sum [] = 0
sum (b ∷ bytes) = (b + sum bytes) % 4294967296

sum-lt : (bytes : List ℕ) → sum bytes < 4294967296
sum-lt [] = omega arith
sum-lt (b ∷ bytes) = omega arith

insert_tuple_lem_example : insert_tuple second hello ≡ (
    if leb (lower second + length hello + 4) (upper second)
    then ok (inserted second hello, items second)
    else page_full)
insert_tuple_lem_example = insert_tuple_lem second hello second-IsPage

get_tuple-insert_tuple_example :
    Gives
      (λ r. (r.1 ≡ items second) × IsUpdated second (items second) (some hello) r.0)
      (insert_tuple second hello)
get_tuple-insert_tuple_example =
    get_tuple-insert_tuple second hello second-IsPage (omega arith) second-HasRoom

compact-IsCompact_example : Gives (IsCompact second) (compact second)
compact-IsCompact_example = compact-IsCompact second second-IsPage

insert_tuple_at_wrap_example : insert_tuple_at first 16383 hello ≡ panic
insert_tuple_at_wrap_example =
    insert_tuple_at_wrap first 16383 hello first-IsPage (omega (arith, first-items)) (omega arith)
      (omega arith) (omega (arith, first-items, first-lower, first-upper))
      (omega (arith, first-items, first-lower, first-upper))

abbrev tuple_header : TupleHeader
tuple_header = record { x_min = 513; x_max = 0; c_min = 3; info_mask = 33; n_attributes = 9 }

tuple_header-IsTupleHeader : IsTupleHeader tuple_header
tuple_header-IsTupleHeader = record {
  x_min_lt = omega arith;
  x_max_lt = omega arith;
  c_min_lt = omega arith;
  info_mask_lt = omega arith;
  n_attributes_lt = omega arith;
}

serialize_short : serialize tuple_header (1 ∷ 2 ∷ []) ≡ none
unfolding serialize
serialize_short = refl

is_null_runs :
    (is_null (0 ∷ 2 ∷ []) 9 ≡ false)
    × (is_null (0 ∷ 2 ∷ []) 8 ≡ true)
    × (set_not_null (0 ∷ 2 ∷ []) 3 ≡ 8 ∷ 2 ∷ [])
unfolding is_null set_not_null has_bit with_bit
is_null_runs = (refl, refl, refl)

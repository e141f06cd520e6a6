-- ===== src/Page/Trip.antt =====
-- server/internal/core/storage/page/page.go: what GetTuple gives after InsertTuple and MarkDead.
use pro_labs.Common.{
  ℕ, ◌<◌, ◌≡◌, refl, ap, Option, none, some, List, All, arith, ◌==◌, if◌then◌else◌,
}
use native.Mathlib.Decide.{ℕ_discrete, dec_lt}
use pro_labs.Page.Bytes.{Page}
use pro_labs.Page.Outcome.{ok, Gives}
use pro_labs.Page.{PageHeader, insert_tuple, get_tuple, mark_dead}
use pro_labs.Page.Slots.{items, IsPage, get_tuple_lem}
use pro_labs.Page.Insert.{
  inserted, HasRoom, insert_tuple_lem, items-inserted, tuple_at-inserted, tuple_at-new,
  inserted-IsPage,
}
use pro_labs.Page.Dead.{buried, mark_dead_lem, header-buried, tuple_at-buried, buried-IsPage}

-- A well-formed page where one slot holds a tuple, or nothing, and each other slot what it held before.
pub record IsUpdated (p : Page) (slot : ℕ) (content : Option (List ℕ)) (q : Page) : Type 0 where
  pub page : IsPage q
  pub got : (i : ℕ) → get_tuple q i ≡ (if i == slot then ok content else get_tuple p i)

-- InsertTuple of bytes for which a well-formed page has room gives a well-formed page: GetTuple then
-- returns the bytes for the new slot, and for every other slot what it returned before.
pub get_tuple-insert_tuple :
    (p : Page) (bytes : List ℕ)
    → IsPage p
    → All (λ b. b < 256) bytes
    → HasRoom p bytes
    → Gives (λ r. (r.1 ≡ items p) × IsUpdated p (items p) (some bytes) r.0) (insert_tuple p bytes)
get_tuple-insert_tuple p bytes v small room =
    let e : insert_tuple p bytes ≡ ok (inserted p bytes, items p) =
      ground (arith, insert_tuple_lem p bytes v) in
    let page = inserted-IsPage p bytes v room small in
    let more = items-inserted p bytes v room in
    let got = λ (i : ℕ). get_tuple_lem (inserted p bytes) i page in
    rw e (
      refl,
      record {
        page = page;
        got = λ i. elim (ℕ_discrete i (items p)) [
          | yes new ↦ rw new (
              ground (
                arith,
                get_tuple_lem (inserted p bytes) (items p) page,
                more,
                tuple_at-new p bytes v room,
              ))
          | no old ↦ elim (dec_lt i (items p)) [
            | yes ins ↦
                ground
                  (arith, got i, get_tuple_lem p i v, more, tuple_at-inserted p bytes v room i ins)
            | no out ↦ ground (arith, got i, get_tuple_lem p i v, more)
          ]
        ];
      },
    )

-- MarkDead of a slot of a well-formed page gives a well-formed page: GetTuple then returns nothing for
-- that slot, and for every other slot what it returned before.
pub get_tuple-mark_dead :
    (p : Page) (slot : ℕ) → IsPage p → Gives (IsUpdated p slot none) (mark_dead p slot)
get_tuple-mark_dead p slot v = elim (dec_lt slot (items p)) [
  | no out ↦
      let e : mark_dead p slot ≡ ok p = ground (arith, mark_dead_lem p slot v) in
      rw e (record { page = v; got = λ i. ground (arith, get_tuple_lem p i v) })
  | yes ins ↦
      let e : mark_dead p slot ≡ ok (buried p slot) = ground (arith, mark_dead_lem p slot v) in
      let page = buried-IsPage p slot v ins in
      let n : items (buried p slot) ≡ items p =
        ap (λ (h : PageHeader). h.n_items) (header-buried p slot v ins) in
      rw e (record {
        page = page;
        got = λ i. elim (dec_lt i (items p)) [
          | yes old ↦ ground (
            arith,
            get_tuple_lem (buried p slot) i page,
            get_tuple_lem p i v,
            n,
            tuple_at-buried p slot v ins i old,
          )
          | no out ↦ ground (arith, get_tuple_lem (buried p slot) i page, get_tuple_lem p i v, n)
        ];
      })
]

-- ===== src/Page/Gap.antt =====
-- server/internal/core/storage/page/page.go: InsertTupleAt, which recovery places tuples with.
use pro_labs.Common.{
  ℕ, zero, suc, ◌+◌, ◌-◌, ◌*◌, ◌%◌, ◌≤◌, ◌<◌, ◌≡◌, Bool, true, false, List, [], ◌∷◌, ◌&&◌, not,
  arith, length, take, take_of_length_le, drop, leb, ltb, ◌==◌, if◌then◌else◌,
}
use native.Mathlib.Decide.{dec_le}
use pro_labs.Page.Bytes.{Page, page_size, write_field}
use pro_labs.Page.Outcome.{Run, ok, page_full, panic, ◌>>=◌}
use pro_labs.Page.{
  PageHeader, header, write_header, new_item_pointer, ip_offset, ip_length, ip_flags,
  item_flag_dead, item_flag_normal, item_pointer_size, max_tuple_length, copy_in, put_uint32,
  insert_tuple, u16, free_space, item_pointer, item_pointer_offset, slice_of,
}
use pro_labs.Page.Slots.{items, lower, upper, IsPage}
use pro_labs.Page.Insert.{inserted, HasRoom, free_space_lem, insert_tuple_lem}

-- `bytes.Equal`
pub same_bytes : List ℕ → List ℕ → Bool
same_bytes [] [] = true
same_bytes [] (y ∷ ys) = false
same_bytes (x ∷ xs) [] = false
same_bytes (x ∷ xs) (y ∷ ys) = x == y && same_bytes xs ys

-- The test for a tuple that is on the page already: bytes 8 to 15, the deleting transaction, may differ.
pub same_tuple : List ℕ → List ℕ → Bool
same_tuple existing bytes =
    if leb 16 (length existing) && leb 16 (length bytes)
    then same_bytes (take 8 existing) (take 8 bytes)
      && same_bytes (drop 16 existing) (drop 16 bytes)
    else same_bytes existing bytes

pub is_present : Page → ℕ → List ℕ → Run Bool
is_present p slot bytes = do
  ip ← item_pointer p slot
  if not (ip_flags ip == item_flag_dead) && (ip_length ip == length bytes % u16)
      then (do existing ← slice_of p (ip_offset ip) (ip_length ip); ok (same_tuple existing bytes))
      else ok false

-- A slot that exists gets a new tuple and pointer.
pub replace_tuple : Page → ℕ → List ℕ → Run Page
replace_tuple p slot bytes =
    let h = header p in
    let len = length bytes % u16 in
    let offset = (h.upper + u16 - len) % u16 in
    if ltb (free_space p) len then page_full else do
      p1 ← copy_in p offset bytes
      p2 ← put_uint32 p1 (item_pointer_offset slot) (new_item_pointer offset len item_flag_normal)
      ok (
          write_header p2
            (record h { upper = offset; free_space = (offset + u16 - h.lower) % u16 }))

-- The part of InsertTupleAt for a slot that exists.
pub overwrite : Page → ℕ → List ℕ → Run Page
overwrite p slot bytes = do
  present ← is_present p slot bytes
  if present then ok p else replace_tuple p slot bytes

-- The loop that makes `gap` dead slots.
pub pad : ℕ → Page → PageHeader → Run (Page × PageHeader)
pad zero p h = ok (p, h)
pad (suc gap) p h = do
  p1 ← put_uint32 p h.lower (new_item_pointer 0 0 item_flag_dead)
  pad gap p1
      (record h { lower = (h.lower + item_pointer_size) % u16; n_items = (h.n_items + 1) % u16 })

-- The tuple behind the dead slots.
pub append_tuple : List ℕ → Page × PageHeader → Run Page
append_tuple bytes (p, h) =
    let len = length bytes % u16 in
    let offset = (h.upper + u16 - len) % u16 in
    let lower = (h.lower + item_pointer_size) % u16 in
    do
      p1 ← copy_in p offset bytes
      p2 ← put_uint32 p1 h.lower (new_item_pointer offset len item_flag_normal)
      ok (
          write_header p2 (record h {
            upper = offset;
            lower = lower;
            n_items = (h.n_items + 1) % u16;
            free_space = (offset + u16 - lower) % u16;
          }))

pub insert_tuple_at : Page → ℕ → List ℕ → Run Page
insert_tuple_at p slot bytes =
    let h = header p in
    let gap = ((slot + 1) % u16 + u16 - h.n_items) % u16 in
    let needed = (length bytes % u16 + gap * item_pointer_size % u16) % u16 in
    if ltb max_tuple_length (length bytes)
    then page_full
    else if ltb slot h.n_items
    then overwrite p slot bytes
    else if ltb (free_space p) needed
    then page_full
    else do padded ← pad (slot - h.n_items) p h; append_tuple bytes padded

pad-panic :
    (gap : ℕ) (p : Page) (h : PageHeader)
    → h.lower ≤ page_size
    → page_size < h.lower + item_pointer_size * gap
    → pad gap p h ≡ panic
unfolding pad put_uint32
pad-panic zero p h inside past = absurd (omega arith)
pad-panic (suc gap) p h inside past = elim (dec_le (h.lower + 4) page_size) [
  | yes fits ↦
      let e : (h.lower + 4) % u16 ≡ h.lower + 4 = omega arith in
      let rest =
        pad-panic gap
          (write_field p
            (record { place = h.lower; width = 4; value = new_item_pointer 0 0 item_flag_dead }))
          (record h {
            lower = (h.lower + item_pointer_size) % u16;
            n_items = (h.n_items + 1) % u16;
          })
          (omega (arith, e)) (omega (arith, e)) in
      ground (arith, rest)
  | no over ↦ ground arith
]

-- On a well-formed page InsertTupleAt panics for a slot behind the last one whenever the tuple and the
-- dead slots before it do not fit, but their size reduced to 16 bits does.
pub insert_tuple_at_wrap :
    (p : Page) (slot : ℕ) (bytes : List ℕ)
    → IsPage p
    → items p ≤ slot
    → slot < 65535
    → length bytes ≤ max_tuple_length
    → upper p - lower p < length bytes + item_pointer_size * (slot + 1 - items p)
    → (length bytes + item_pointer_size * (slot + 1 - items p)) % u16 ≤ upper p - lower p
    → insert_tuple_at p slot bytes ≡ panic
unfolding insert_tuple_at
insert_tuple_at_wrap p slot bytes v new small short tight wraps =
    let gap : ((slot + 1) % u16 + u16 - items p) % u16 ≡ slot + 1 - items p = omega arith in
    let need : (length bytes % u16 + (slot + 1 - items p) * 4 % u16) % u16
        ≡ (length bytes + 4 * (slot + 1 - items p)) % u16 =
      omega arith in
    let over : page_size < lower p + 4 * (slot - items p) = omega (arith, v.inside, v.ordered) in
    let e = pad-panic (slot - items p) p (header p) (omega (arith, v.ordered, v.inside)) over in
    ground (arith, gap, need, e, free_space_lem p v)

append_tuple-ok :
    (p : Page) (bytes : List ℕ)
    → IsPage p
    → HasRoom p bytes
    → append_tuple bytes (p, header p) ≡ ok (inserted p bytes)
unfolding append_tuple copy_in put_uint32 inserted
append_tuple-ok p bytes v room =
    let offset = upper p - length bytes in
    let e1 : length bytes % u16 ≡ length bytes = omega (arith, v.inside) in
    let e2 : (upper p + u16 - length bytes) % u16 ≡ offset = omega (arith, v.inside) in
    let e3 : (lower p + 4) % u16 ≡ lower p + 4 = omega (arith, v.inside) in
    let e4 : (offset + u16 - (lower p + 4)) % u16 ≡ offset - (lower p + 4) =
      omega (arith, v.inside) in
    let e5 : take (page_size - offset) bytes ≡ bytes =
      take_of_length_le (page_size - offset) bytes (omega (arith, v.inside)) in
    let e6 : (items p + 1) % u16 ≡ items p + 1 = omega (arith, v.pointers, v.ordered, v.inside) in
    rw (e1, e2, e3, e4, e5, e6) (ground (arith, v.inside, v.pointers, v.ordered))

-- For the next slot of a well-formed page InsertTupleAt does what InsertTuple does.
pub insert_tuple_at-insert_tuple :
    (p : Page) (bytes : List ℕ)
    → IsPage p
    → insert_tuple_at p (items p) bytes ≡ (do r ← insert_tuple p bytes; ok r.0)
unfolding insert_tuple_at pad
insert_tuple_at-insert_tuple p bytes v =
    let gap : ((items p + 1) % u16 + u16 - items p) % u16 ≡ 1 =
      omega (arith, v.pointers, v.ordered, v.inside) in
    let e : length bytes < 16384 → (length bytes % u16 + 1 * 4 % u16) % u16 ≡ length bytes + 4 =
      λ h. omega arith in
    let none_before : items p - items p ≡ 0 = omega arith in
    rw (gap, none_before, insert_tuple_lem p bytes v)
      (elim (dec_le (lower p + length bytes + item_pointer_size) (upper p)) [
        | yes room ↦ ground (
          arith,
          e (omega (arith, v.inside)),
          append_tuple-ok p bytes v room,
          free_space_lem p v,
          v.inside,
        )
        | no tight ↦ ground (arith, e, free_space_lem p v, v.inside, v.ordered)
      ])

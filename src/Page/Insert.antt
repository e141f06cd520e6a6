-- ===== src/Page/Insert.antt =====
-- server/internal/core/storage/page/page.go: InsertTuple appends one slot, and touches no other.
use pro_labs.Common.{
  ℕ, zero, suc, ◌+◌, ◌-◌, ◌*◌, ◌%◌, ◌≤◌, ◌<◌, ◌≡◌, inr, refl, sym, ◌∙◌, ap, some, List, arith,
  length, take, take_of_length_le, All, leb, if◌then◌else◌,
}
use native.Mathlib.Decide.{ℕ_discrete, dec_lt, dec_le}
use pro_labs.Page.Bytes.{
  Page, read, slice, write, write_field, page_size, read-Apart, slice-Apart, slice_written,
  read_field, read_field-Apart, slice_field-Apart, write-IsBytes, write_field-IsBytes, Apart,
}
use pro_labs.Page.Outcome.{ok, page_full}
use pro_labs.Page.{
  PageHeader, header, write_header, new_item_pointer, ip_offset, ip_length, ip_flags,
  item_flag_dead, item_flag_normal, item_pointer_size, copy_in, put_uint32, place_tuple,
  insert_tuple, u16, free_space,
}
use pro_labs.Page.Pointer.{new_item_pointer_fields}
use pro_labs.Page.Header.{
  Fits, header-Fits, header-write_header, read-write_header, slice-write_header,
  write_header-IsBytes,
}
use pro_labs.Page.Slots.{items, lower, upper, pointer, held, used, Placed, IsPage, tuple_at}

-- What InsertTuple makes of a page with room.
unfoldable pub inserted : Page → List ℕ → Page
inserted p bytes =
    let h = header p in
    let offset = h.upper - length bytes in
    let ip = new_item_pointer offset (length bytes) item_flag_normal in
    write_header
      (write_field (write p offset bytes) (record { place = h.lower; width = 4; value = ip }))
      (record h {
        upper = offset;
        lower = h.lower + item_pointer_size;
        n_items = h.n_items + 1;
        free_space = offset - (h.lower + item_pointer_size);
      })

abbrev pub HasRoom : Page → List ℕ → Type 0
HasRoom p bytes = lower p + length bytes + item_pointer_size ≤ upper p

pub free_space_lem : (p : Page) → IsPage p → free_space p ≡ upper p - lower p
unfolding free_space
free_space_lem p v = ground (arith, v.ordered)

place_tuple-ok :
    (p : Page) (bytes : List ℕ)
    → IsPage p
    → HasRoom p bytes
    → place_tuple p (header p) bytes ≡ ok (inserted p bytes, items p)
unfolding place_tuple copy_in put_uint32 inserted
place_tuple-ok p bytes v room =
    let size = length bytes in
    let offset = upper p - size in
    let e1 : size % u16 ≡ size = omega (arith, v.inside) in
    let e2 : (upper p + u16 - size) % u16 ≡ offset = omega (arith, v.inside) in
    let e3 : (lower p + 4) % u16 ≡ lower p + 4 = omega (arith, v.inside) in
    let e4 : (offset + u16 - (lower p + 4)) % u16 ≡ offset - (lower p + 4) =
      omega (arith, v.inside) in
    let e5 : take (page_size - offset) bytes ≡ bytes =
      take_of_length_le (page_size - offset) bytes (omega (arith, v.inside)) in
    rw (e1, e2, e3, e4, e5) (ground (arith, v.inside, v.pointers, v.ordered))

-- On a well-formed page InsertTuple succeeds exactly when the tuple and its pointer fit between Lower
-- and Upper; then it returns the next slot number, else the page is full.
pub insert_tuple_lem :
    (p : Page) (bytes : List ℕ)
    → IsPage p
    → insert_tuple p bytes ≡ (
        if leb (lower p + length bytes + item_pointer_size) (upper p)
        then ok (inserted p bytes, items p)
        else page_full)
unfolding insert_tuple
insert_tuple_lem p bytes v = elim (dec_le (lower p + length bytes + item_pointer_size) (upper p)) [
  | yes room ↦
      let e : (length bytes % u16 + item_pointer_size) % u16 ≡ length bytes + 4 =
        omega (arith, v.inside) in
      ground (arith, e, free_space_lem p v, place_tuple-ok p bytes v room, v.inside)
  | no tight ↦
      let e : length bytes < 16384
          → (length bytes % u16 + item_pointer_size) % u16 ≡ length bytes + 4 =
        λ h. omega arith in
      ground (arith, e, free_space_lem p v, v.inside, v.ordered)
]

-- The page after an insertion, against the page before it.
module _ (p : Page) (bytes : List ℕ) (v : IsPage p) (room : HasRoom p bytes) where
  new_header : PageHeader
  new_header = record (header p) {
    upper = upper p - length bytes;
    lower = lower p + item_pointer_size;
    n_items = items p + 1;
    free_space = upper p - length bytes - (lower p + item_pointer_size);
  }

  header-inserted : header (inserted p bytes) ≡ new_header
  unfolding inserted new_header
  header-inserted = header-write_header _ _ (record {
    lsn = fits.lsn;
    checksum = fits.checksum;
    flags = fits.flags;
    lower = omega (arith, v.inside);
    upper = omega (arith, v.inside);
    special = fits.special;
    page_type = fits.page_type;
    n_items = omega (arith, v.pointers, v.ordered, v.inside);
    free_space = omega (arith, v.inside);
  })
    where
      fits : Fits (header p)
      fits = header-Fits p v.bytes

  pub items-inserted : items (inserted p bytes) ≡ items p + 1
  unfolding new_header
  items-inserted = ap (λ (h : PageHeader). h.n_items) header-inserted

  pub lower-inserted : lower (inserted p bytes) ≡ lower p + 4
  unfolding new_header
  lower-inserted = ap (λ (h : PageHeader). h.lower) header-inserted

  pub upper-inserted : upper (inserted p bytes) ≡ upper p - length bytes
  unfolding new_header
  upper-inserted = ap (λ (h : PageHeader). h.upper) header-inserted

  pub page_type-inserted : (header (inserted p bytes)).page_type ≡ (header p).page_type
  unfolding new_header
  page_type-inserted = ap (λ (h : PageHeader). h.page_type) header-inserted

  -- Reads outside the header, the new pointer and the new tuple.
  read-inserted :
      (off n : ℕ)
      → 25 ≤ off
      → Apart (lower p) 4 off n
      → Apart (upper p - length bytes) (length bytes) off n
      → read (inserted p bytes) off n ≡ read p off n
  unfolding inserted
  read-inserted off n past a b =
      read-write_header _ _ off n past ∙ read_field-Apart _ _ off n a ∙ read-Apart p _ bytes off n b

  slice-inserted :
      (off n : ℕ)
      → 25 ≤ off
      → Apart (lower p) 4 off n
      → Apart (upper p - length bytes) (length bytes) off n
      → slice (inserted p bytes) off n ≡ slice p off n
  unfolding inserted
  slice-inserted off n past a b =
      slice-write_header _ _ off n past
      ∙ slice_field-Apart _ _ off n a
      ∙ slice-Apart p _ bytes off n b

  pub pointer-inserted : (i : ℕ) → i < items p → pointer (inserted p bytes) i ≡ pointer p i
  unfolding pointer
  pointer-inserted i h =
      read-inserted (28 + 4 * i) 4 (omega arith) (omega (arith, v.pointers))
        (omega (arith, v.pointers))

  new_pointer :
      pointer (inserted p bytes) (items p)
      ≡ new_item_pointer (upper p - length bytes) (length bytes) item_flag_normal
  unfolding pointer inserted
  new_pointer =
      let ip = new_item_pointer (upper p - length bytes) (length bytes) item_flag_normal in
      let place : 28 + 4 * items p ≡ lower p = sym v.pointers in
      let fields =
        new_item_pointer_fields (upper p - length bytes) (length bytes) 0 (omega (arith, v.inside))
          (omega (arith, v.inside)) (omega arith) in
      rw (place) (
        read-write_header _ _ (lower p) 4 (omega (arith, v.pointers))
        ∙ read_field _ (record { place = lower p; width = 4; value = ip }) (omega (arith, fields)))

  new_fields :
      (ip_offset (pointer (inserted p bytes) (items p)) ≡ upper p - length bytes)
      × (ip_length (pointer (inserted p bytes) (items p)) ≡ length bytes)
      × (ip_flags (pointer (inserted p bytes) (items p)) ≡ 0)
  new_fields =
      let fields =
        new_item_pointer_fields (upper p - length bytes) (length bytes) 0 (omega (arith, v.inside))
          (omega (arith, v.inside)) (omega arith) in
      rw new_pointer (fields.0, fields.1, fields.2)

  pub tuple_at-inserted : (i : ℕ) → i < items p → tuple_at (inserted p bytes) i ≡ tuple_at p i
  unfolding tuple_at
  tuple_at-inserted i h =
      rw (pointer-inserted i h) (elim (ℕ_discrete (ip_flags (pointer p i)) item_flag_dead) [
        | yes dead ↦ ground (arith, dead)
        | no live ↦
            let far = v.placed i h in
            let e =
              slice-inserted (ip_offset (pointer p i)) (ip_length (pointer p i))
                (ground (arith, v.pointers, v.ordered)) (ground (arith, v.pointers, v.ordered))
                (ground arith) in
            ground (arith, e)
      ])

  new_slice : slice (inserted p bytes) (upper p - length bytes) (length bytes) ≡ bytes
  unfolding inserted
  new_slice =
      slice-write_header _ _ _ _ (omega (arith, v.pointers))
      ∙ slice_field-Apart _ _ _ _ (omega arith)
      ∙ slice_written p (upper p - length bytes) bytes

  pub tuple_at-new : tuple_at (inserted p bytes) (items p) ≡ some bytes
  unfolding tuple_at
  tuple_at-new = rw (new_fields.0, new_fields.1, new_fields.2) (ap some new_slice)

  used-inserted : (n : ℕ) → n ≤ items p → used (inserted p bytes) n ≡ used p n
  unfolding used
  used-inserted zero h = refl
  used-inserted (suc n) h =
      omega (arith, used-inserted n (omega arith), ap held (pointer-inserted n h))

  inserted-Placed :
      (i : ℕ)
      → i < items (inserted p bytes)
      → Placed (upper (inserted p bytes)) (pointer (inserted p bytes) i)
  inserted-Placed i h = elim (dec_lt i (items p)) [
    | yes old ↦ rw (pointer-inserted i old, upper-inserted) (ground (arith, v.placed i old))
    | no new ↦
        let e : i ≡ items p = omega (arith, items-inserted) in
        rw (e, upper-inserted)
          (inr (omega (arith, new_fields), omega (arith, new_fields, v.inside)))
  ]

  inserted_room :
      used (inserted p bytes) (items (inserted p bytes)) + upper (inserted p bytes) ≤ page_size
  unfolding used
  inserted_room =
      let more : items (inserted p bytes) ≡ suc (items p) = omega (arith, items-inserted) in
      rw (more, upper-inserted)
        (ground (arith, new_fields, used-inserted (items p) (omega arith), v.room))

  pub inserted-IsPage : All (λ b. b < 256) bytes → IsPage (inserted p bytes)
  unfolding inserted
  inserted-IsPage small = record {
    bytes =
        write_header-IsBytes _ _
          (write_field-IsBytes _ _ (write-IsBytes p (upper p - length bytes) bytes v.bytes small));
    pointers = omega (arith, lower-inserted, items-inserted, v.pointers);
    ordered = omega (arith, lower-inserted, upper-inserted);
    inside = omega (arith, upper-inserted, v.inside);
    placed = inserted-Placed;
    room = inserted_room;
  }

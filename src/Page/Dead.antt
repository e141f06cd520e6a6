-- ===== src/Page/Dead.antt =====
-- server/internal/core/storage/page/page.go: MarkDead empties one slot and touches no other.
use pro_labs.Common.{
  ℕ, zero, suc, ◌+◌, ◌*◌, ◌%◌, ◌≤◌, ◌<◌, ◌≡◌, ◌≢◌, inl, ◌∙◌, ap, none, arith, ltb, ◌==◌,
  if◌then◌else◌,
}
use native.Mathlib.Decide.{ℕ_discrete, dec_lt}
use pro_labs.Page.Bytes.{
  Page, read, slice, write_field, page_size, read_field, read_field-Apart, slice_field-Apart,
  write_field-IsBytes,
}
use pro_labs.Page.Outcome.{ok}
use pro_labs.Page.{
  PageHeader, header, new_item_pointer, ip_offset, ip_length, ip_flags, item_flag_dead,
  item_pointer_offset, put_uint32, mark_dead, u16,
}
use pro_labs.Page.Header.{header_cong}
use pro_labs.Page.Pointer.{new_item_pointer-lt}
use pro_labs.Page.Slots.{
  items, lower, upper, pointer, held, used, IsPage, tuple_at, item_pointer-ok,
}

-- What MarkDead makes of a slot that exists.
pub buried : Page → ℕ → Page
buried p slot =
    let ip = pointer p slot in
    write_field p (record {
      place = 28 + 4 * slot;
      width = 4;
      value = new_item_pointer (ip_offset ip) (ip_length ip) item_flag_dead;
    })

-- On a well-formed page MarkDead does not panic, and leaves a page without the slot alone.
pub mark_dead_lem :
    (p : Page) (slot : ℕ)
    → IsPage p
    → mark_dead p slot ≡ ok (if ltb slot (items p) then buried p slot else p)
unfolding mark_dead buried put_uint32 item_pointer_offset
mark_dead_lem p slot v = elim (dec_lt slot (items p)) [
  | no out ↦ ground arith
  | yes ins ↦
      let e : (28 + slot * 4 % u16) % u16 ≡ 28 + 4 * slot =
        omega (arith, v.pointers, v.ordered, v.inside) in
      let fits : 28 + 4 * slot + 4 ≤ page_size = omega (arith, v.pointers, v.ordered, v.inside) in
      rw (item_pointer-ok p slot v ins, e) (ground arith)
]

module _ (p : Page) (slot : ℕ) (v : IsPage p) (ins : slot < items p) where
  pub header-buried : header (buried p slot) ≡ header p
  unfolding buried
  header-buried = header_cong p _ (λ off n h. read_field-Apart p _ off n (omega arith))

  flags_dead : ip_flags (pointer (buried p slot) slot) ≡ item_flag_dead
  unfolding buried pointer ip_flags new_item_pointer
  flags_dead =
      let ip = pointer p slot in
      let dead = new_item_pointer (ip_offset ip) (ip_length ip) item_flag_dead in
      let e : read (buried p slot) (28 + 4 * slot) 4 ≡ dead =
        read_field p (record { place = 28 + 4 * slot; width = 4; value = dead })
          (new_item_pointer-lt (ip_offset ip) (ip_length ip) item_flag_dead) in
      rw e (omega arith)

  flags_same : (i : ℕ) → i ≡ slot → ip_flags (pointer (buried p slot) i) ≡ item_flag_dead
  flags_same i same = ap (λ (k : ℕ). ip_flags (pointer (buried p slot) k)) same ∙ flags_dead

  pointer-buried : (i : ℕ) → i ≢ slot → pointer (buried p slot) i ≡ pointer p i
  unfolding buried pointer
  pointer-buried i far = read_field-Apart p _ (28 + 4 * i) 4 (omega arith)

  -- The tuple zone is as it was.
  slice-buried : (off n : ℕ) → upper p ≤ off → slice (buried p slot) off n ≡ slice p off n
  unfolding buried
  slice-buried off n h = slice_field-Apart p _ off n (omega (arith, v.pointers, v.ordered))

  -- The slot holds nothing after MarkDead, and every other slot of a well-formed page what it held.
  pub tuple_at-buried :
      (i : ℕ)
      → i < items p
      → tuple_at (buried p slot) i ≡ (if i == slot then none else tuple_at p i)
  unfolding tuple_at
  tuple_at-buried i h = elim (ℕ_discrete i slot) [
    | yes same ↦ ground (arith, flags_same i same)
    | no far ↦
        rw (pointer-buried i far) (elim (ℕ_discrete (ip_flags (pointer p i)) item_flag_dead) [
          | yes dead ↦ ground (arith, dead)
          | no live ↦
              let e =
                slice-buried (ip_offset (pointer p i)) (ip_length (pointer p i))
                  (ground (arith, v.placed i h)) in
              ground (arith, e)
        ])
  ]

  held-buried : (i : ℕ) → held (pointer (buried p slot) i) ≤ held (pointer p i)
  held-buried i = elim (ℕ_discrete i slot) [
    | yes same ↦ ground (arith, flags_same i same)
    | no far ↦ omega (arith, ap held (pointer-buried i far))
  ]

  used-buried : (n : ℕ) → used (buried p slot) n ≤ used p n
  unfolding used
  used-buried zero = omega arith
  used-buried (suc n) = omega (arith, used-buried n, held-buried n)

  pub buried-IsPage : IsPage (buried p slot)
  unfolding buried
  buried-IsPage =
      let n : items (buried p slot) ≡ items p = ap (λ (h : PageHeader). h.n_items) header-buried in
      let lo : lower (buried p slot) ≡ lower p = ap (λ (h : PageHeader). h.lower) header-buried in
      let up : upper (buried p slot) ≡ upper p = ap (λ (h : PageHeader). h.upper) header-buried in
      record {
        bytes = write_field-IsBytes p _ v.bytes;
        pointers = omega (arith, n, lo, v.pointers);
        ordered = omega (arith, lo, up, v.ordered);
        inside = omega (arith, up, v.inside);
        placed = λ i h. elim (ℕ_discrete i slot) [
          | yes same ↦ inl (flags_same i same)
          | no far ↦ rw (pointer-buried i far, up) (v.placed i (omega (arith, n)))
        ];
        room = rw (n, up) (omega (arith, used-buried (items p), v.room));
      }

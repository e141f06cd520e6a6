-- ===== src/Page/Slots.antt =====
-- server/internal/core/storage/page/page.go: when a page is well-formed, and what GetTuple gives then.
use pro_labs.Common.{
  ℕ, zero, suc, ◌+◌, ◌-◌, ◌*◌, ◌%◌, ◌≤◌, ◌<◌, ◌≡◌, ◌⊎◌, ap, Option, none, some, List, arith, ltb,
  ◌==◌, if◌then◌else◌,
}
use native.Mathlib.Decide.{ℕ_discrete, dec_lt}
use pro_labs.Page.Bytes.{Page, IsBytes, read, slice, page_size}
use pro_labs.Page.Outcome.{ok}
use pro_labs.Page.{
  PageHeader, header, ip_offset, ip_length, ip_flags, item_flag_dead, item_pointer,
  item_pointer_offset, slice_of, get_tuple, u16, init, init_header,
}
use pro_labs.Page.Header.{header-write_header, write_header-IsBytes, Fits}

abbrev pub items : Page → ℕ
items p = (header p).n_items

abbrev pub lower : Page → ℕ
lower p = (header p).lower

abbrev pub upper : Page → ℕ
upper p = (header p).upper

-- The item pointer of a slot.
unfoldable pub pointer : Page → ℕ → ℕ
pointer p slot = read p (28 + 4 * slot) 4

-- The bytes that a slot keeps from being free.
abbrev pub held : ℕ → ℕ
held ip = if ip_flags ip == item_flag_dead then 0 else ip_length ip

unfoldable pub used : Page → ℕ → ℕ
used p zero = 0
used p (suc n) = used p n + held (pointer p n)

-- A dead slot, or one whose tuple lies in the tuple zone.
abbrev pub Placed : ℕ → ℕ → Type 0
Placed top ip =
    (ip_flags ip ≡ item_flag_dead)
    ⊎ ((top ≤ ip_offset ip) × (ip_offset ip + ip_length ip ≤ page_size))

-- The slot pointers end at Lower, the tuples begin at Upper, and those that are not dead hold no more
-- bytes than lie behind Upper.
pub record IsPage (p : Page) : Type 0 where
  pub bytes : IsBytes p
  pub pointers : lower p ≡ 28 + 4 * items p
  pub ordered : lower p ≤ upper p
  pub inside : upper p ≤ page_size
  pub placed : (i : ℕ) → i < items p → Placed (upper p) (pointer p i)
  pub room : used p (items p) + upper p ≤ page_size

-- What a slot holds.
unfoldable pub tuple_at : Page → ℕ → Option (List ℕ)
tuple_at p slot =
    let ip = pointer p slot in
    if ip_flags ip == item_flag_dead then none else some (slice p (ip_offset ip) (ip_length ip))

pub item_pointer-ok :
    (p : Page) (slot : ℕ) → IsPage p → slot < items p → item_pointer p slot ≡ ok (pointer p slot)
unfolding item_pointer item_pointer_offset pointer
item_pointer-ok p slot v h =
    let e : (28 + slot * 4 % u16) % u16 ≡ 28 + 4 * slot =
      omega (arith, v.pointers, v.ordered, v.inside) in
    let fits : 28 + 4 * slot + 4 ≤ page_size = omega (arith, v.pointers, v.ordered, v.inside) in
    rw e (ground arith)

slice_of-ok :
    (p : Page) (off len : ℕ) → off + len ≤ page_size → slice_of p off len ≡ ok (slice p off len)
unfolding slice_of
slice_of-ok p off len h =
    let e : (off + len) % u16 ≡ off + len = omega arith in
    let d : off + len - off ≡ len = omega arith in rw (e, d) (ground arith)

-- On a well-formed page GetTuple does not panic: it gives what the slot holds, and nothing for a slot
-- that does not exist.
pub get_tuple_lem :
    (p : Page) (slot : ℕ)
    → IsPage p
    → get_tuple p slot ≡ ok (if ltb slot (items p) then tuple_at p slot else none)
unfolding get_tuple tuple_at
get_tuple_lem p slot v = elim (dec_lt slot (items p)) [
  | no out ↦ ground arith
  | yes ins ↦ elim (ℕ_discrete (ip_flags (pointer p slot)) item_flag_dead) [
    | yes dead ↦ ground (arith, item_pointer-ok p slot v ins)
    | no live ↦
        let s =
          slice_of-ok p (ip_offset (pointer p slot)) (ip_length (pointer p slot))
            (ground (arith, v.placed slot ins)) in
        ground (arith, item_pointer-ok p slot v ins, s)
  ]
]

init-Fits : (page_type : ℕ) → page_type < 256 → Fits (init_header page_type)
init-Fits page_type h = omega arith

pub header-init :
    (page_type : ℕ) → page_type < 256 → header (init page_type) ≡ init_header page_type
unfolding init
header-init page_type h =
    header-write_header (λ i. 0) (init_header page_type) (init-Fits page_type h)

-- Init makes a well-formed page with no slot.
pub init-IsPage : (page_type : ℕ) → page_type < 256 → IsPage (init page_type)
unfolding init used
init-IsPage page_type h =
    let e = header-init page_type h in
    let n : items (init page_type) ≡ 0 = ap (λ (x : PageHeader). x.n_items) e in
    let lo : lower (init page_type) ≡ 28 = ap (λ (x : PageHeader). x.lower) e in
    let up : upper (init page_type) ≡ page_size = ap (λ (x : PageHeader). x.upper) e in
    record {
      bytes = write_header-IsBytes (λ i. 0) (init_header page_type) (λ i. omega arith);
      pointers = omega (arith, n, lo);
      ordered = omega (arith, lo, up);
      inside = omega (arith, up);
      placed = λ i q. absurd (omega (arith, n));
      room = omega (arith, up, ap (used (init page_type)) n);
    }

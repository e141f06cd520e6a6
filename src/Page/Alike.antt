-- ===== src/Page/Alike.antt =====
-- server/internal/core/storage/page/page.go: Compact as a whole.
use pro_labs.Common.{ℕ, zero, suc, ◌+◌, ◌*◌, ◌≤◌, ◌<◌, ◌≡◌, refl, ◌∙◌, ap, arith}
use native.Mathlib.Decide.{ℕ_discrete}
use pro_labs.Page.Bytes.{
  Page, IsBytes, read, slice, page_size, read_field, read_field-Apart, slice_field-Apart,
  write_field-IsBytes,
}
use pro_labs.Page.Outcome.{Gives, Gives-bind}
use pro_labs.Page.{PageHeader, header, set_lsn, ip_offset, ip_length, ip_flags, item_flag_dead}
use pro_labs.Page.Header.{
  header-Fits, header-write_header, read-write_header, slice-write_header, write_header-IsBytes,
}
use pro_labs.Page.Slots.{items, lower, upper, pointer, held, used, IsPage, tuple_at}
use pro_labs.Page.Compact.{set_flags, compact, tuples_of, live}
use pro_labs.Page.Copy.{Copied, copy_live-Copied}

-- A page that differs from another at most in header fields other than the three that bound the zones.
record Alike (p q : Page) : Type 0 where
  bytes : IsBytes q
  count : items q ≡ items p
  low : lower q ≡ lower p
  high : upper q ≡ upper p
  reads : (off n : ℕ) → 25 ≤ off → read q off n ≡ read p off n
  slices : (off n : ℕ) → 25 ≤ off → slice q off n ≡ slice p off n

pointer-Alike : (p q : Page) → Alike p q → (i : ℕ) → pointer q i ≡ pointer p i
unfolding pointer
pointer-Alike p q a i = a.reads (28 + 4 * i) 4 (omega arith)

used-Alike : (p q : Page) → Alike p q → (n : ℕ) → used q n ≡ used p n
unfolding used
used-Alike p q a zero = refl
used-Alike p q a (suc n) = cc (used-Alike p q a n, ap held (pointer-Alike p q a n))

Alike-IsPage : (p q : Page) → Alike p q → IsPage p → IsPage q
Alike-IsPage p q a v = record {
  bytes = a.bytes;
  pointers = omega (arith, a.count, a.low, v.pointers);
  ordered = omega (arith, a.low, a.high, v.ordered);
  inside = omega (arith, a.high, v.inside);
  placed = λ i h. rw (a.high, pointer-Alike p q a i) (v.placed i (omega (arith, a.count)));
  room = rw (a.count, a.high, used-Alike p q a (items p)) v.room;
}

tuple_at-Alike :
    (p q : Page) → Alike p q → IsPage p → (i : ℕ) → i < items p → tuple_at q i ≡ tuple_at p i
unfolding tuple_at
tuple_at-Alike p q a v i h =
    rw (pointer-Alike p q a i) (elim (ℕ_discrete (ip_flags (pointer p i)) item_flag_dead) [
      | yes dead ↦ ground (arith, dead)
      | no alive ↦
          let e =
            a.slices (ip_offset (pointer p i)) (ip_length (pointer p i))
              (ground (arith, v.placed i h, v.pointers, v.ordered)) in
          ground (arith, e)
    ])

live-Alike : (p q : Page) → Alike p q → IsPage p → (n : ℕ) → n ≤ items p → live q n ≡ live p n
unfolding live
live-Alike p q a v zero h = refl
live-Alike p q a v (suc n) h =
    cc (live-Alike p q a v n (omega arith), ap tuples_of (tuple_at-Alike p q a v n h))

set_lsn-Alike : (p : Page) (lsn : ℕ) → IsPage p → Alike p (set_lsn p lsn)
unfolding set_lsn header
set_lsn-Alike p lsn v = record {
  bytes = write_field-IsBytes p _ v.bytes;
  count = read_field-Apart p _ 21 2 (omega arith);
  low = read_field-Apart p _ 14 2 (omega arith);
  high = read_field-Apart p _ 16 2 (omega arith);
  reads = λ off n h. read_field-Apart p _ off n (omega arith);
  slices = λ off n h. slice_field-Apart p _ off n (omega arith);
}

header-set_flags :
    (p : Page) (flags : ℕ)
    → IsBytes p
    → flags < 65536
    → header (set_flags p flags) ≡ record (header p) { flags = flags }
unfolding set_flags
header-set_flags p flags b h =
    let fits = header-Fits p b in
    header-write_header p _ (record {
      lsn = fits.lsn;
      checksum = fits.checksum;
      flags = h;
      lower = fits.lower;
      upper = fits.upper;
      special = fits.special;
      page_type = fits.page_type;
      n_items = fits.n_items;
      free_space = fits.free_space;
    })

set_flags-Alike : (p : Page) (flags : ℕ) → IsPage p → flags < 65536 → Alike p (set_flags p flags)
unfolding set_flags
set_flags-Alike p flags v h =
    let e = header-set_flags p flags v.bytes h in
    record {
      bytes = write_header-IsBytes p _ v.bytes;
      count = ap (λ (x : PageHeader). x.n_items) e;
      low = ap (λ (x : PageHeader). x.lower) e;
      high = ap (λ (x : PageHeader). x.upper) e;
      reads = λ off n past. read-write_header p _ off n past;
      slices = λ off n past. slice-write_header p _ off n past;
    }

-- A page that holds the tuples of another in their order, in no more bytes than they take, with its
-- LSN, flags and type.
pub record IsCompact (p q : Page) : Type 0 where
  pub page : IsPage q
  pub tuples : live q (items q) ≡ live p (items p)
  pub tight : used p (items p) + upper q ≡ page_size
  pub lsn : (header q).lsn ≡ (header p).lsn
  pub flags : (header q).flags ≡ (header p).flags
  pub page_type : (header q).page_type ≡ (header p).page_type

lsn-set_lsn : (p : Page) (lsn : ℕ) → lsn < 18446744073709551616 → (header (set_lsn p lsn)).lsn ≡ lsn
unfolding set_lsn header
lsn-set_lsn p lsn h = read_field p (record { place = 0; width = 8; value = lsn }) h

page_type-set_lsn : (p : Page) (lsn : ℕ) → (header (set_lsn p lsn)).page_type ≡ (header p).page_type
unfolding set_lsn header
page_type-set_lsn p lsn = read_field-Apart p _ 20 1 (omega arith)

finish-IsCompact :
    (p t : Page)
    → IsPage p
    → Copied p (items p) t
    → IsCompact p (set_flags (set_lsn t (header p).lsn) (header p).flags)
finish-IsCompact p t v c =
    let fits = header-Fits p v.bytes in
    let s = set_lsn t (header p).lsn in
    let a = set_lsn-Alike t (header p).lsn c.page in
    let s-page = Alike-IsPage t s a c.page in
    let b = set_flags-Alike s (header p).flags s-page fits.flags in
    let e = header-set_flags s (header p).flags s-page.bytes fits.flags in
    let q = set_flags s (header p).flags in
    record {
      page = Alike-IsPage s q b s-page;
      tuples =
          ap (live q) (b.count ∙ a.count)
          ∙ live-Alike s q b s-page (items t) (omega (arith, a.count))
          ∙ live-Alike t s a c.page (items t) (omega arith)
          ∙ c.same;
      tight = omega (arith, b.high, a.high, c.top);
      lsn = ap (λ (x : PageHeader). x.lsn) e ∙ lsn-set_lsn t (header p).lsn fits.lsn;
      flags = ap (λ (x : PageHeader). x.flags) e;
      page_type =
          ap (λ (x : PageHeader). x.page_type) e ∙ page_type-set_lsn t (header p).lsn ∙ c.kind;
    }

-- On a well-formed page Compact does not panic. It gives a well-formed page with the tuples of the
-- slots that are not dead, in the same order, whose tuple zone is as long as those tuples together,
-- and with the LSN, the flags and the type of the page.
pub compact-IsCompact : (p : Page) → IsPage p → Gives (IsCompact p) (compact p)
unfolding compact
compact-IsCompact p v =
    Gives-bind (Copied p (items p)) (IsCompact p) _ _ (copy_live-Copied p v (items p) (omega arith))
      (λ t c. finish-IsCompact p t v c)

-- ===== src/Page/Copy.antt =====
-- server/internal/core/storage/page/page.go: the loop of Compact copies what is not dead.
use pro_labs.Common.{
  ℕ, zero, suc, ◌+◌, ◌≤◌, ◌<◌, ◌≡◌, ◌≢◌, refl, sym, ◌∙◌, ap, none, some, List, ◌++◌, arith, length,
  All,
}
use mathlib.Core.List.{append-nil}
use native.Mathlib.Decide.{ℕ_discrete, dec_le}
use pro_labs.Page.Bytes.{Page, IsBytes, slice, page_size}
use pro_labs.Page.Outcome.{ok, Gives, Gives-bind}
use pro_labs.Page.{
  PageHeader, header, init, ip_offset, ip_length, ip_flags, item_flag_dead, insert_tuple, get_tuple,
}
use pro_labs.Page.Header.{header-Fits}
use pro_labs.Page.Slots.{
  items, upper, pointer, used, IsPage, tuple_at, get_tuple_lem, init-IsPage, header-init,
}
use pro_labs.Page.Insert.{
  inserted, HasRoom, insert_tuple_lem, items-inserted, upper-inserted, page_type-inserted,
  tuple_at-inserted, tuple_at-new, inserted-IsPage,
}
use pro_labs.Page.Compact.{keep, copy_slot, copy_live, tuples_of, live}

-- What the loop has made of the new page behind `n` slots.
pub record Copied (p : Page) (n : ℕ) (t : Page) : Type 0 where
  pub page : IsPage t
  pub count : items t ≤ n
  pub top : used p n + upper t ≡ page_size
  pub kind : (header t).page_type ≡ (header p).page_type
  pub same : live t (items t) ≡ live p n

live-inserted :
    (t : Page) (bytes : List ℕ)
    → IsPage t
    → HasRoom t bytes
    → (n : ℕ) → n ≤ items t
    → live (inserted t bytes) n ≡ live t n
unfolding live
live-inserted t bytes v room zero h = refl
live-inserted t bytes v room (suc n) h =
    cc (live-inserted t bytes v room n (omega arith), tuple_at-inserted t bytes v room n h)

length-slice : (p : Page) (off n : ℕ) → length (slice p off n) ≡ n
unfolding slice
length-slice p off zero = refl
length-slice p off (suc n) = ap suc (length-slice p (off + 1) n)

slice-All : (p : Page) (off n : ℕ) → IsBytes p → All (λ b. b < 256) (slice p off n)
unfolding slice
slice-All p off zero b = tt
slice-All p off (suc n) b = (b off, slice-All p (off + 1) n b)

-- The bytes that the pointer of a slot leads to.
abbrev stored : Page → ℕ → List ℕ
stored p i = slice p (ip_offset (pointer p i)) (ip_length (pointer p i))

tuple_at-dead : (p : Page) (i : ℕ) → ip_flags (pointer p i) ≡ item_flag_dead → tuple_at p i ≡ none
unfolding tuple_at
tuple_at-dead p i e = ground (arith, e)

tuple_at-alive :
    (p : Page) (i : ℕ) → ip_flags (pointer p i) ≢ item_flag_dead → tuple_at p i ≡ some (stored p i)
unfolding tuple_at
tuple_at-alive p i e = ground (arith, e)

used_le : (p : Page) (n m : ℕ) → n ≤ m → used p n ≤ used p m
unfolding used
used_le p n zero h = let e : n ≡ 0 = omega arith in rw e (omega arith)
used_le p n (suc m) h = elim (dec_le n m) [
  | yes below ↦ omega (arith, used_le p n m below)
  | no same ↦ let e : n ≡ suc m = omega arith in rw e (omega arith)
]

Copied-skip :
    (p t : Page) (n : ℕ)
    → ip_flags (pointer p n) ≡ item_flag_dead
    → Copied p n t
    → Copied p (suc n) t
unfolding live used
Copied-skip p t n dead c = record {
  page = c.page;
  count = omega (arith, c.count);
  kind = c.kind;
  top = ground (arith, c.top, dead);
  same =
      c.same
      ∙ sym (ap (λ x. live p n ++ tuples_of x) (tuple_at-dead p n dead) ∙ append-nil (live p n));
}

Copied-room :
    (p t : Page) (n : ℕ)
    → IsPage p
    → n < items p
    → ip_flags (pointer p n) ≢ item_flag_dead
    → Copied p n t
    → HasRoom t (stored p n)
unfolding used
Copied-room p t n v h alive c = ground (
  arith,
  length-slice p (ip_offset (pointer p n)) (ip_length (pointer p n)),
  used_le p (suc n) (items p) h,
  c.top,
  c.count,
  c.page.pointers,
  v.pointers,
  v.ordered,
  v.room,
)

Copied-insert :
    (p t : Page) (n : ℕ)
    → IsPage p
    → n < items p
    → ip_flags (pointer p n) ≢ item_flag_dead
    → Copied p n t
    → Copied p (suc n) (inserted t (stored p n))
unfolding live used
Copied-insert p t n v h alive c =
    let room = Copied-room p t n v h alive c in
    let len = length-slice p (ip_offset (pointer p n)) (ip_length (pointer p n)) in
    let small = slice-All p (ip_offset (pointer p n)) (ip_length (pointer p n)) v.bytes in
    let more : items (inserted t (stored p n)) ≡ suc (items t) =
      omega (arith, items-inserted t (stored p n) c.page room) in
    record {
      page = inserted-IsPage t (stored p n) c.page room small;
      count = omega (arith, more, c.count);
      kind = page_type-inserted t (stored p n) c.page room ∙ c.kind;
      top = ground (arith, upper-inserted t (stored p n) c.page room, len, c.top, alive, room);
      same = rw more (
          cc (
            live-inserted t (stored p n) c.page room (items t) (omega arith),
            tuple_at-new t (stored p n) c.page room,
            tuple_at-alive p n alive,
            c.same,
          ));
    }

copy_one :
    (p t : Page) (n : ℕ)
    → IsPage p
    → n < items p
    → Copied p n t
    → Gives (Copied p (suc n)) (copy_slot t (tuple_at p n))
unfolding copy_slot keep
copy_one p t n v h c = elim (ℕ_discrete (ip_flags (pointer p n)) item_flag_dead) [
  | yes dead ↦ rw (tuple_at-dead p n dead) (Copied-skip p t n dead c)
  | no alive ↦
      let e : insert_tuple t (stored p n) ≡ ok (inserted t (stored p n), items t) =
        ground (arith, insert_tuple_lem t (stored p n) c.page, Copied-room p t n v h alive c) in
      rw (tuple_at-alive p n alive, e) (Copied-insert p t n v h alive c)
]

init-Copied : (p : Page) → IsPage p → Copied p 0 (init (header p).page_type)
unfolding live used
init-Copied p v =
    let small = (header-Fits p v.bytes).page_type in
    let e = header-init (header p).page_type small in
    let n : items (init (header p).page_type) ≡ 0 = ap (λ (h : PageHeader). h.n_items) e in
    record {
      page = init-IsPage (header p).page_type small;
      count = omega (arith, n);
      kind = ap (λ (h : PageHeader). h.page_type) e;
      top = omega (arith, ap (λ (h : PageHeader). h.upper) e);
      same = ap (live (init (header p).page_type)) n;
    }

pub copy_live-Copied :
    (p : Page)
    → IsPage p
    → (n : ℕ) → n ≤ items p
    → Gives (Copied p n) (copy_live p n (init (header p).page_type))
unfolding copy_live
copy_live-Copied p v zero h = init-Copied p v
copy_live-Copied p v (suc n) h =
    Gives-bind (Copied p n) (Copied p (suc n)) _ _ (copy_live-Copied p v n (omega arith)) (λ t c.
      let e : get_tuple p n ≡ ok (tuple_at p n) = ground (arith, get_tuple_lem p n v) in
      rw e (copy_one p t n v h c))

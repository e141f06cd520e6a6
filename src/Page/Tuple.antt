-- ===== src/Page/Tuple.antt =====
-- server/internal/core/storage/page/tuple.go: the header of a tuple and the bitmap of its nulls.
--
-- A bit of a byte is read and set by halving. An index of an attribute is not negative.
use pro_labs.Common.{
  ℕ, zero, suc, ◌+◌, ◌*◌, ◌/◌, ◌%◌, ◌<◌, ◌≤◌, ◌≡◌, refl, sym, ap, ◌∙◌, arith, Bool, false, not,
  Option, none, some, List, ◌++◌, ◌&&◌, ◌||◌, length, drop, set, get_or, get_or-set, length-set,
  le→ltb, ltb, ◌==◌, if◌then◌else◌, Bool-cases, inl, inr,
}
use mathlib.Core.Path.{subst}
use mathlib.Core.Option.{some_inj}
use pro_labs.Common.Words.{le_bytes, le_value, length-field, le_value_at}

abbrev pub tuple_header_size : ℕ
tuple_header_size = 24

pub record TupleHeader : Type 0 where
  pub x_min : ℕ
  pub x_max : ℕ
  pub c_min : ℕ
  pub info_mask : ℕ
  pub n_attributes : ℕ

-- The fields have the widths of the header.
pub record IsTupleHeader (h : TupleHeader) : Type 0 where
  pub x_min_lt : h.x_min < 18446744073709551616
  pub x_max_lt : h.x_max < 18446744073709551616
  pub c_min_lt : h.c_min < 4294967296
  pub info_mask_lt : h.info_mask < 65536
  pub n_attributes_lt : h.n_attributes < 65536

-- The bytes in the order of the fields; what is behind them stays.
abbrev pub serialized : TupleHeader → List ℕ → List ℕ
serialized h buf =
    le_bytes 8 h.x_min
    ++ (le_bytes 8 h.x_max
        ++ (le_bytes 4 h.c_min
            ++ (le_bytes 2 h.info_mask ++ (le_bytes 2 h.n_attributes ++ drop 24 buf))))

-- None is the error.
unfoldable pub serialize : TupleHeader → List ℕ → Option (List ℕ)
serialize h buf = if ltb (length buf) tuple_header_size then none else some (serialized h buf)

unfoldable pub parse_tuple_header : List ℕ → Option TupleHeader
parse_tuple_header buf =
    if ltb (length buf) tuple_header_size
    then none
    else some (record {
      x_min = le_value 8 buf;
      x_max = le_value 8 (drop 8 buf);
      c_min = le_value 4 (drop 16 buf);
      info_mask = le_value 2 (drop 20 buf);
      n_attributes = le_value 2 (drop 22 buf);
    })

abbrev pub null_bitmap_size : ℕ → ℕ
null_bitmap_size n = (n + 7) / 8

-- `b & (1 << k) != 0`
unfoldable pub has_bit : ℕ → ℕ → Bool
has_bit b zero = b % 2 == 1
has_bit b (suc k) = has_bit (b / 2) k

-- `b | 1 << k`
unfoldable pub with_bit : ℕ → ℕ → ℕ
with_bit b zero = if b % 2 == 1 then b else b + 1
with_bit b (suc k) = b % 2 + 2 * with_bit (b / 2) k

unfoldable pub is_null : List ℕ → ℕ → Bool
is_null bitmap i =
    if ltb (i / 8) (length bitmap) then not (has_bit (get_or bitmap (i / 8) 0) (i % 8)) else false

unfoldable pub set_not_null : List ℕ → ℕ → List ℕ
set_not_null bitmap i =
    if ltb (i / 8) (length bitmap)
    then set bitmap (i / 8) (with_bit (get_or bitmap (i / 8) 0) (i % 8))
    else bitmap

has_bit-with_bit : (b k j : ℕ) → has_bit (with_bit b k) j ≡ (has_bit b j || (k == j))
unfolding has_bit with_bit
has_bit-with_bit b zero zero = ground arith
has_bit-with_bit b zero (suc j) =
    let e : (if b % 2 == 1 then b else b + 1) / 2 ≡ b / 2 = ground arith in
    ap (λ (n : ℕ). has_bit n j) e ∙ ground arith
has_bit-with_bit b (suc k) zero = ground arith
has_bit-with_bit b (suc k) (suc j) =
    let e : (b % 2 + 2 * with_bit (b / 2) k) / 2 ≡ with_bit (b / 2) k = omega arith in
    ap (λ (n : ℕ). has_bit n j) e ∙ has_bit-with_bit (b / 2) k j ∙ ground arith

-- SetNotNull makes the one attribute of the bitmap not null, and leaves what IsNull says of all others.
pub is_null-set_not_null :
    (bitmap : List ℕ) (i j : ℕ)
    → i / 8 < length bitmap
    → is_null (set_not_null bitmap i) j ≡ (is_null bitmap j && not (i == j))
unfolding is_null set_not_null
is_null-set_not_null bitmap i j h =
    let b = get_or bitmap (i / 8) 0 in
    let got = get_or-set bitmap (i / 8) (j / 8) (with_bit b (i % 8)) 0 h in
    let l = length-set bitmap (i / 8) (with_bit b (i % 8)) in
    ground (arith, got, l, has_bit-with_bit b (i % 8) (j % 8))

-- A bitmap of NullBitmapSize bytes has a bit for every attribute, and one byte less has not.
pub null_bitmap_size_lem :
    (n i : ℕ) → i < n → (i / 8 < null_bitmap_size n) × (8 * null_bitmap_size n < n + 8)
null_bitmap_size_lem n i h = (omega arith, omega arith)

parse_tuple_header_lem :
    (h : TupleHeader) (buf : List ℕ)
    → IsTupleHeader h
    → parse_tuple_header (serialized h buf) ≡ some h
unfolding parse_tuple_header
parse_tuple_header_lem h buf v =
    let t5 = drop 24 buf in
    let t4 = le_bytes 2 h.n_attributes ++ t5 in
    let t3 = le_bytes 2 h.info_mask ++ t4 in
    let t2 = le_bytes 4 h.c_min ++ t3 in
    let t1 = le_bytes 8 h.x_max ++ t2 in
    let out = serialized h buf in
    let (f0, d0) = le_value_at 8 h.x_min 0 t1 out refl v.x_min_lt in
    let (f1, d1) = le_value_at 8 h.x_max 8 t2 out d0 v.x_max_lt in
    let (f2, d2) = le_value_at 4 h.c_min 16 t3 out d1 v.c_min_lt in
    let (f3, d3) = le_value_at 2 h.info_mask 20 t4 out d2 v.info_mask_lt in
    let (f4, d4) = le_value_at 2 h.n_attributes 22 t5 out d3 v.n_attributes_lt in
    let long : tuple_header_size ≤ length out = omega (
      arith,
      length-field 8 h.x_min t1,
      length-field 8 h.x_max t2,
      length-field 4 h.c_min t3,
      length-field 2 h.info_mask t4,
      length-field 2 h.n_attributes t5,
    ) in
    let short = le→ltb (length out) tuple_header_size long in rw (short, f0, f1, f2, f3, f4) refl

-- ParseTupleHeader reads the header that Serialize wrote, what stood in the buffer before being of no
-- account; a buffer that is too short is refused by both.
pub parse_tuple_header-serialize :
    (h : TupleHeader) (buf out : List ℕ)
    → IsTupleHeader h
    → serialize h buf ≡ some out
    → parse_tuple_header out ≡ some h
unfolding parse_tuple_header serialize
parse_tuple_header-serialize h buf out v e =
    elim (Bool-cases (ltb (length buf) tuple_header_size)) [
      | inl short ↦
          absurd (cc (sym e ∙ ap (λ (c : Bool). if c then none else some (serialized h buf)) short))
      | inr enough ↦
          let written : serialized h buf ≡ out =
            some_inj.0
              (sym (ap (λ (c : Bool). if c then none else some (serialized h buf)) enough) ∙ e) in
          subst (λ (t : List ℕ). parse_tuple_header t ≡ some h) written
            (parse_tuple_header_lem h buf v)
    ]

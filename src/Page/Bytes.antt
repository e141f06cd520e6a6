-- ===== src/Page/Bytes.antt =====
-- server/internal/core/storage/page/page.go: the bytes of a page, and reads after writes.
use pro_labs.Common.{
  ℕ, zero, suc, ◌+◌, ◌-◌, ◌*◌, ◌≤◌, ◌<◌, ◌≡◌, ◌⊎◌, refl, ◌∙◌, ap, List, [], ◌∷◌, ◌&&◌, length,
  get_or, All, All-get_or, ltb, leb, if◌then◌else◌, arith,
}
use pro_labs.Common.Words.{le_bytes, le_value, bound, length-le_bytes, le_value_exact, le_bytes-lt}
use mathlib.Core.Path.{subst}

abbrev pub page_size : ℕ
page_size = 8192

-- `Page`: the byte at each place.
abbrev pub Page : Type 0
Page = ℕ → ℕ

unfoldable pub read : Page → ℕ → ℕ → ℕ
read p off zero = 0
read p off (suc w) = p off + 256 * read p (off + 1) w

unfoldable pub slice : Page → ℕ → ℕ → List ℕ
slice p off zero = []
slice p off (suc n) = p off ∷ slice p (off + 1) n

unfoldable pub write : Page → ℕ → List ℕ → Page
write p off bytes i =
    if leb off i && ltb i (off + length bytes) then get_or bytes (i - off) 0 else p i

-- A little-endian number of `width` bytes at `place`.
pub record Field : Type 0 where
  pub place : ℕ
  pub width : ℕ
  pub value : ℕ

unfoldable pub write_field : Page → Field → Page
unfolding write
write_field p f = write p f.place (le_bytes f.width f.value)

unfoldable pub write_all : Page → List Field → Page
unfolding write_field
write_all p [] = p
write_all p (f ∷ fs) = write_all (write_field p f) fs

-- The bytes from `off` on, `n` of them, are outside those from `a` on, `k` of them.
abbrev pub Apart : ℕ → ℕ → ℕ → ℕ → Type 0
Apart a k off n = (off + n ≤ a) ⊎ (a + k ≤ off)

write_outside :
    (p : Page) (a : ℕ) (bytes : List ℕ) (i : ℕ)
    → (i < a) ⊎ (a + length bytes ≤ i)
    → write p a bytes i ≡ p i
unfolding write
write_outside p a bytes i h = ground arith

write_inside :
    (p : Page) (a : ℕ) (bytes : List ℕ) (i : ℕ)
    → i < length bytes
    → write p a bytes (a + i) ≡ get_or bytes i 0
unfolding write
write_inside p a bytes i h =
    let e : a + i - a ≡ i = omega arith in ground (arith, e, ap (λ (k : ℕ). get_or bytes k 0) e)

pub read-Apart :
    (p : Page) (a : ℕ) (bytes : List ℕ) (off n : ℕ)
    → Apart a (length bytes) off n
    → read (write p a bytes) off n ≡ read p off n
unfolding read
read-Apart p a bytes off zero h = refl
read-Apart p a bytes off (suc n) h = omega (
  arith,
  write_outside p a bytes off (omega arith),
  read-Apart p a bytes (off + 1) n (omega arith),
)

pub slice-Apart :
    (p : Page) (a : ℕ) (bytes : List ℕ) (off n : ℕ)
    → Apart a (length bytes) off n
    → slice (write p a bytes) off n ≡ slice p off n
unfolding slice
slice-Apart p a bytes off zero h = refl
slice-Apart p a bytes off (suc n) h =
    cc (write_outside p a bytes off (omega arith), slice-Apart p a bytes (off + 1) n (omega arith))

-- Places that hold given bytes are read as those.
read_bytes :
    (p : Page) (off : ℕ) (bytes : List ℕ)
    → ((i : ℕ) → i < length bytes → p (off + i) ≡ get_or bytes i 0)
    → read p off (length bytes) ≡ le_value (length bytes) bytes
unfolding read le_value
read_bytes p off [] h = refl
read_bytes p off (b ∷ bytes) h =
    let first : p off ≡ b = ap p (omega arith) ∙ h 0 (omega arith) in
    omega (
      arith,
      first,
      read_bytes p (off + 1) bytes (λ i hi. ap p (omega arith) ∙ h (suc i) (omega arith)),
    )

slice_bytes :
    (p : Page) (off : ℕ) (bytes : List ℕ)
    → ((i : ℕ) → i < length bytes → p (off + i) ≡ get_or bytes i 0)
    → slice p off (length bytes) ≡ bytes
unfolding slice
slice_bytes p off [] h = refl
slice_bytes p off (b ∷ bytes) h =
    let first : p off ≡ b = ap p (omega arith) ∙ h 0 (omega arith) in
    cc (first, slice_bytes p (off + 1) bytes (λ i hi. ap p (omega arith) ∙ h (suc i) (omega arith)))

pub slice_written :
    (p : Page) (a : ℕ) (bytes : List ℕ) → slice (write p a bytes) a (length bytes) ≡ bytes
slice_written p a bytes = slice_bytes (write p a bytes) a bytes (write_inside p a bytes)

-- A field is read back, if its value fits its width; and the other fields are as before.
pub read_field :
    (p : Page) (f : Field)
    → f.value < bound f.width
    → read (write_field p f) f.place f.width ≡ f.value
unfolding write_field
read_field p f h =
    let bytes = le_bytes f.width f.value in
    subst (λ n. read (write p f.place bytes) f.place n ≡ le_value n bytes)
      (length-le_bytes f.width f.value)
      (read_bytes (write p f.place bytes) f.place bytes (write_inside p f.place bytes))
    ∙ le_value_exact f.width f.value h

pub read_field-Apart :
    (p : Page) (f : Field) (off n : ℕ)
    → Apart f.place f.width off n
    → read (write_field p f) off n ≡ read p off n
unfolding write_field
read_field-Apart p f off n h =
    read-Apart p f.place (le_bytes f.width f.value) off n
      (omega (arith, length-le_bytes f.width f.value))

pub slice_field-Apart :
    (p : Page) (f : Field) (off n : ℕ)
    → Apart f.place f.width off n
    → slice (write_field p f) off n ≡ slice p off n
unfolding write_field
slice_field-Apart p f off n h =
    slice-Apart p f.place (le_bytes f.width f.value) off n
      (omega (arith, length-le_bytes f.width f.value))

abbrev pub AllApart : List Field → ℕ → ℕ → Type 0
AllApart fs off n = All (λ (f : Field). Apart f.place f.width off n) fs

pub read-AllApart :
    (p : Page) (fs : List Field) (off n : ℕ)
    → AllApart fs off n
    → read (write_all p fs) off n ≡ read p off n
unfolding write_all
read-AllApart p [] off n h = refl
read-AllApart p (f ∷ fs) off n h =
    read-AllApart (write_field p f) fs off n h.1 ∙ read_field-Apart p f off n h.0

pub slice-AllApart :
    (p : Page) (fs : List Field) (off n : ℕ)
    → AllApart fs off n
    → slice (write_all p fs) off n ≡ slice p off n
unfolding write_all
slice-AllApart p [] off n h = refl
slice-AllApart p (f ∷ fs) off n h =
    slice-AllApart (write_field p f) fs off n h.1 ∙ slice_field-Apart p f off n h.0

-- A field with others written behind it.
pub read_among :
    (p : Page) (f : Field) (fs : List Field)
    → f.value < bound f.width
    → AllApart fs f.place f.width
    → read (write_all p (f ∷ fs)) f.place f.width ≡ f.value
unfolding write_all
read_among p f fs h a = read-AllApart (write_field p f) fs f.place f.width a ∙ read_field p f h

-- Every place holds a byte.
abbrev pub IsBytes : Page → Type 0
IsBytes p = (i : ℕ) → p i < 256

pub read-lt : (p : Page) (off w : ℕ) → IsBytes p → read p off w < bound w
unfolding read
read-lt p off zero h = omega arith
read-lt p off (suc w) h = omega (arith, h off, read-lt p (off + 1) w h)

pub write-IsBytes :
    (p : Page) (a : ℕ) (bytes : List ℕ)
    → IsBytes p
    → All (λ b. b < 256) bytes
    → IsBytes (write p a bytes)
unfolding write
write-IsBytes p a bytes h k i =
    ground (arith, h i, All-get_or (λ b. b < 256) bytes (i - a) 0 k (omega arith))

pub write_field-IsBytes : (p : Page) (f : Field) → IsBytes p → IsBytes (write_field p f)
unfolding write_field
write_field-IsBytes p f h =
    write-IsBytes p f.place (le_bytes f.width f.value) h (le_bytes-lt f.width f.value)

pub write_all-IsBytes : (p : Page) (fs : List Field) → IsBytes p → IsBytes (write_all p fs)
unfolding write_all
write_all-IsBytes p [] h = h
write_all-IsBytes p (f ∷ fs) h = write_all-IsBytes (write_field p f) fs (write_field-IsBytes p f h)

-- ===== src/Row/Columns.antt =====
-- server/internal/core/storage/binary_encoding.go: a value is decoded from the bytes that it is encoded to.
use pro_labs.Common.{
  ℕ, ◌+◌, ◌*◌, ◌≤◌, ◌<◌, ◌≡◌, refl, sym, ap, ◌∙◌, arith, Bool, true, false, Option, some, List, [],
  ◌∷◌, ◌++◌, length, ltb, if◌then◌else◌, length-append, take_of_length_le, Option-cases, inl, inr,
  All,
}
use pro_labs.Common.Words.{
  drop-le_bytes, le_bytes, le_value-le_bytes, le_value_exact, length-le_bytes,
}
use pro_labs.Row.Result.{Encoded, encoded, bind_encoded, too_long, decoded}
use pro_labs.Row.{
  Value, nil, int64, float64, bool, string, vector, object, other, floats, read_floats,
  column_bytes, encode_column_value, column_size, with_length, json_size, object_or_text, read_text,
  read_vector, decode_tagged, decode_column_value,
}

-- The numbers fit in 64 bits, and the objects are fit.
abbrev pub IsValue : {Object : Type 0} → (Object → Type 0) → Value Object → Type 0
IsValue IsFit (int64 v) = v < 18446744073709551616
IsValue IsFit (float64 v) = v < 18446744073709551616
IsValue IsFit (vector fs) = All (λ f. f < 18446744073709551616) fs
IsValue IsFit (object o) = IsFit o
IsValue IsFit _ = Unit

-- `back` says what is read from the text that is written for a fit object.
abbrev pub IsReadBack :
    {Object : Type 0}
    → (Object → Option (List ℕ))
    → (List ℕ → Option Object)
    → (Object → Type 0)
    → (Object → Value Object)
    → Type 0
IsReadBack marshal decode_object IsFit back =
    (o : _) (text : List ℕ)
    → IsFit o
    → marshal o ≡ some text
    → object_or_text decode_object (decode_object text) text ≡ back o

-- Values other than objects are read as they were.
abbrev pub read_back : {Object : Type 0} → (Object → Value Object) → Value Object → Value Object
read_back back (object o) = back o
read_back back v = v

length-floats : (fs : List ℕ) → length (floats fs) ≡ length fs * 8
unfolding floats
length-floats [] = refl
length-floats (f ∷ fs) =
    omega (arith, length-append (le_bytes 8 f) (floats fs), length-le_bytes 8 f, length-floats fs)

read_floats-floats :
    (fs : List ℕ)
    → All (λ f. f < 18446744073709551616) fs
    → read_floats (length fs) (floats fs) ≡ fs
unfolding floats read_floats
read_floats-floats [] h = refl
read_floats-floats (f ∷ fs) h = cc (
  le_value-le_bytes 8 f (floats fs) h.0,
  drop-le_bytes 8 f (floats fs),
  read_floats-floats fs h.1,
)

abbrev or_else : {A : Type 0} → A → Encoded A → A
or_else a (encoded b) = b
or_else a _ = a

pub encoded_inj : {A : Type 0} {a b : A} → encoded a ≡ encoded b → a ≡ b
encoded_inj {A} {a} {b} e = ap (or_else a) e

within :
    (c : Bool) (a n : ℕ) → (if c then too_long else encoded a) ≡ encoded n → (c ≡ false) × (a ≡ n)
within true a n e = absurd (cc e)
within false a n e = (refl, encoded_inj e)

module _ {Object : Type 0} (marshal : Object → Option (List ℕ))
    (decode_object : List ℕ → Option Object) where
  read_text-with_length :
      (value : List ℕ → Value Object) (bytes : List ℕ)
      → length bytes < 65536
      → read_text decode_object value (le_bytes 2 (length bytes) ++ bytes) ≡ decoded (value bytes)
  read_text-with_length value bytes h =
      let n = le_value-le_bytes 2 (length bytes) bytes h in
      let d = drop-le_bytes 2 (length bytes) bytes in
      let l = length-append (le_bytes 2 (length bytes)) bytes in
      let t = take_of_length_le (length bytes) bytes (omega arith) in
      rw (n, d, t) (ground (arith, l, length-le_bytes 2 (length bytes)))

  read_vector-with_length :
      (fs : List ℕ)
      → length fs < 65536
      → All (λ f. f < 18446744073709551616) fs
      → read_vector decode_object (le_bytes 2 (length fs) ++ floats fs) ≡ decoded (vector fs)
  read_vector-with_length fs h k =
      let n = le_value-le_bytes 2 (length fs) (floats fs) h in
      let d = drop-le_bytes 2 (length fs) (floats fs) in
      let l = length-append (le_bytes 2 (length fs)) (floats fs) in
      rw (n, d, read_floats-floats fs k)
        (ground (arith, l, length-le_bytes 2 (length fs), length-floats fs))

  length-with_length :
      (tag count : ℕ) (bytes : List ℕ) → length (with_length tag count bytes) ≡ 3 + length bytes
  length-with_length tag count bytes =
      omega (arith, length-append (le_bytes 2 count) bytes, length-le_bytes 2 count)

  -- A value that the first pass accepts takes the bytes that it counts, and is decoded from them.
  pub decode_column_value-column_bytes :
      {IsFit : Object → Type 0} {back : Object → Value Object} (v : Value Object) (n : ℕ)
      → IsReadBack marshal decode_object IsFit back
      → IsValue IsFit v
      → column_size marshal v ≡ encoded n
      → n ≤ 65535
      → (length (column_bytes marshal v) ≡ n)
        × (decode_column_value decode_object (column_bytes marshal v) ≡ decoded (read_back back v))
  unfolding column_bytes column_size decode_column_value decode_tagged
  decode_column_value-column_bytes nil n j h e k = (encoded_inj e, refl)
  decode_column_value-column_bytes (int64 v) n j h e k =
      let l = length-le_bytes 8 v in
      let d = le_value_exact 8 v h in (omega (arith, l, encoded_inj e), rw d (ground (arith, l)))
  decode_column_value-column_bytes (float64 v) n j h e k =
      let l = length-le_bytes 8 v in
      let d = le_value_exact 8 v h in (omega (arith, l, encoded_inj e), rw d (ground (arith, l)))
  decode_column_value-column_bytes (bool true) n j h e k = (encoded_inj e, refl)
  decode_column_value-column_bytes (bool false) n j h e k = (encoded_inj e, refl)
  decode_column_value-column_bytes (string s) n j h e k =
      let (fits, size) = within (ltb 65535 (length s)) (3 + length s) n e in
      (
        length-with_length 115 (length s) s ∙ size,
        read_text-with_length string s (ground (arith, fits)),
      )
  decode_column_value-column_bytes (vector fs) n j h e k =
      let size = encoded_inj e in
      (
        omega (arith, length-with_length 118 (length fs) (floats fs), length-floats fs, size),
        read_vector-with_length fs (omega (arith, size)) h,
      )
  decode_column_value-column_bytes (object o) n j h e k = elim (Option-cases (marshal o)) [
    | inl none_at ↦ absurd (cc (sym (ap (json_size marshal) none_at) ∙ e))
    | inr (text, t) ↦
        let (fits, size) =
          within (ltb 65535 (length text)) (3 + length text) n
            (sym (ap (json_size marshal) t) ∙ e) in
        let read =
          read_text-with_length (λ x. object_or_text decode_object (decode_object x) x) text
            (ground (arith, fits)) in
        rw t (length-with_length 106 (length text) text ∙ size, read ∙ ap decoded (j o text h t))
  ]
  decode_column_value-column_bytes other n j h e k = absurd (cc e)

  counted :
      (c : Bool) (n : ℕ) (bytes : List ℕ)
      → (if c then too_long else encoded bytes)
        ≡ bind_encoded (if c then too_long else encoded n) (λ k. encoded bytes)
  counted true n bytes = refl
  counted false n bytes = refl

  -- The two encoders agree: encodeColumnValue refuses the values that the first pass of EncodeRow refuses,
  -- with the same error, and gives the bytes that the second pass writes of all others.
  pub encode_column_value-column_bytes :
      (v : Value Object)
      → encode_column_value marshal v
        ≡ bind_encoded (column_size marshal v) (λ n. encoded (column_bytes marshal v))
  unfolding encode_column_value column_size column_bytes
  encode_column_value-column_bytes nil = refl
  encode_column_value-column_bytes (int64 v) = refl
  encode_column_value-column_bytes (float64 v) = refl
  encode_column_value-column_bytes (bool b) = refl
  encode_column_value-column_bytes (string s) =
      counted (ltb 65535 (length s)) (3 + length s) (with_length 115 (length s) s)
  encode_column_value-column_bytes (vector fs) = refl
  encode_column_value-column_bytes (object o) = elim (Option-cases (marshal o)) [
    | inl none_at ↦ rw none_at refl
    | inr (text, t) ↦
        rw t
          (counted (ltb 65535 (length text)) (3 + length text) (with_length 106 (length text) text))
  ]
  encode_column_value-column_bytes other = refl

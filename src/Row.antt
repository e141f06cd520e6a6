-- ===== src/Row.antt =====
-- server/internal/core/storage/binary_encoding.go: rows as bytes.
--
-- A value is one of the types that the encoder knows, or another; an int64 and a float64 are their 64
-- bits. Here objects are of any type: `marshal` stands for json.Marshal, and `decode_object` for DecodeJSON
-- with the type assertion behind it, which gives nothing if the text is no object; Row/Json has both for the
-- maps of Go.
-- EncodeRow fills its buffer by two cursors, one for the offsets and one for the values, that leave no
-- gap; so `fill_columns` gives the bytes of both. The offset of a float in a vector is below 2^16, as the row is.
-- A slice whose bounds are out of order or behind the end is the panic of Go.
pub mod Result
pub mod Columns
pub mod Trip
pub mod Flags
pub mod Json
pub mod Objects
mod Tests
use pro_labs.Common.{
  ℕ, zero, suc, ◌+◌, ◌-◌, ◌*◌, ◌%◌, Bool, true, false, Option, none, some, List, [], ◌∷◌, ◌++◌,
  ◌&&◌, ◌||◌, length, take, drop, ltb, leb, ◌==◌, if◌then◌else◌,
}
use pro_labs.Common.Words.{le_bytes, le_value}
use Result.{
  bind_encoded, Encoded, encoded, empty_row, too_long, bad_json, unsupported, tuple_too_large,
  Decoded, decoded, truncated, unknown_tag, panic, ◌>>=◌,
}

pub data Value (Object : Type 0) : Type 0 where
  nil : Value Object
  int64 : ℕ → Value Object
  float64 : ℕ → Value Object
  bool : Bool → Value Object
  string : List ℕ → Value Object
  vector : List ℕ → Value Object
  object : Object → Value Object
  other : Value Object

abbrev pub header_bytes : ℕ
header_bytes = 18

abbrev pub u16_max : ℕ
u16_max = 65535

-- The bytes of the floats of a vector.
unfoldable pub floats : List ℕ → List ℕ
floats [] = []
floats (f ∷ fs) = le_bytes 8 f ++ floats fs

-- A tag, a length of two bytes, and the content.
abbrev pub with_length : ℕ → ℕ → List ℕ → List ℕ
with_length tag count bytes = tag ∷ (le_bytes 2 count ++ bytes)

module _ {Object : Type 0} (marshal : Object → Option (List ℕ)) where
  -- The text of an object, if it can be written, else nothing.
  abbrev pub or_empty : Option (List ℕ) → List ℕ
  or_empty none = []
  or_empty (some bytes) = bytes

  -- What the second pass writes for a value.
  unfoldable pub column_bytes : Value Object → List ℕ
  column_bytes nil = 255 ∷ []
  column_bytes (int64 v) = 105 ∷ le_bytes 8 v
  column_bytes (float64 v) = 102 ∷ le_bytes 8 v
  column_bytes (bool b) = 98 ∷ (if b then 1 else 0) ∷ []
  column_bytes (string s) = with_length 115 (length s) s
  column_bytes (vector fs) = with_length 118 (length fs) (floats fs)
  column_bytes (object o) = let text = or_empty (marshal o) in with_length 106 (length text) text
  column_bytes other = []

  abbrev pub json_size : Option (List ℕ) → Encoded ℕ
  json_size none = bad_json
  json_size (some text) = if ltb u16_max (length text) then too_long else encoded (3 + length text)

  -- What the first pass adds for a value.
  unfoldable pub column_size : Value Object → Encoded ℕ
  column_size nil = encoded 1
  column_size (int64 v) = encoded 9
  column_size (float64 v) = encoded 9
  column_size (bool b) = encoded 2
  column_size (string s) = if ltb u16_max (length s) then too_long else encoded (3 + length s)
  column_size (vector fs) = encoded (3 + length fs * 8)
  column_size (object o) = json_size (marshal o)
  column_size other = unsupported

  unfoldable pub columns_size : List (Value Object) → Encoded ℕ
  columns_size [] = encoded 0
  columns_size (v ∷ row) =
      bind_encoded (column_size v) (λ n. bind_encoded (columns_size row) (λ m. encoded (n + m)))

  abbrev pub encode_json : Option (List ℕ) → Encoded (List ℕ)
  encode_json none = bad_json
  encode_json (some text) =
      if ltb u16_max (length text) then too_long else encoded (with_length 106 (length text) text)

  -- EncodeColumnValue, for one value apart from a row.
  unfoldable pub encode_column_value : Value Object → Encoded (List ℕ)
  encode_column_value nil = encoded (255 ∷ [])
  encode_column_value (int64 v) = encoded (105 ∷ le_bytes 8 v)
  encode_column_value (float64 v) = encoded (102 ∷ le_bytes 8 v)
  encode_column_value (bool b) = encoded (98 ∷ (if b then 1 else 0) ∷ [])
  encode_column_value (string s) =
      if ltb u16_max (length s) then too_long else encoded (with_length 115 (length s) s)
  encode_column_value (object o) = encode_json (marshal o)
  encode_column_value (vector fs) = encoded (with_length 118 (length fs) (floats fs))
  encode_column_value other = unsupported

  -- The offsets and the values, the first value at `offset`.
  unfoldable pub fill_columns : ℕ → List (Value Object) → List ℕ × List ℕ
  fill_columns offset [] = ([], [])
  fill_columns offset (v ∷ row) =
      let bytes = column_bytes v in
      let rest = fill_columns ((offset + length bytes) % 65536) row in
      (le_bytes 2 offset ++ rest.0, bytes ++ rest.1)

  unfoldable pub tuple_of : ℕ → ℕ → List (Value Object) → List ℕ
  tuple_of created_tx deleted_tx row =
      let filled = fill_columns (header_bytes + length row * 2) row in
      le_bytes 8 created_tx
      ++ (le_bytes 8 deleted_tx ++ (le_bytes 2 (length row) ++ (filled.0 ++ filled.1)))

  unfoldable pub encode_row : ℕ → ℕ → List (Value Object) → Encoded (List ℕ)
  encode_row created_tx deleted_tx row =
      if length row == 0
      then empty_row
      else bind_encoded (columns_size row) (λ n.
        if ltb u16_max (header_bytes + length row * 2 + n)
        then tuple_too_large
        else encoded (tuple_of created_tx deleted_tx row))

-- `data[from:to]`, and the panic.
unfoldable pub slice : List ℕ → ℕ → ℕ → Decoded (List ℕ)
slice bytes from to =
    if leb from to && leb to (length bytes)
    then decoded (take (to - from) (drop from bytes))
    else panic

unfoldable pub read_floats : ℕ → List ℕ → List ℕ
read_floats zero bytes = []
read_floats (suc n) bytes = le_value 8 bytes ∷ read_floats n (drop 8 bytes)

module _ {Object : Type 0} (decode_object : List ℕ → Option Object) where
  abbrev pub object_or_text : Option Object → List ℕ → Value Object
  object_or_text none text = string text
  object_or_text (some o) text = object o

  abbrev pub read_text : (List ℕ → Value Object) → List ℕ → Decoded (Value Object)
  read_text value bytes =
      if ltb (length bytes) 2
      then truncated
      else if ltb (length bytes) (2 + le_value 2 bytes)
      then truncated
      else decoded (value (take (le_value 2 bytes) (drop 2 bytes)))

  abbrev pub read_vector : List ℕ → Decoded (Value Object)
  read_vector bytes =
      if ltb (length bytes) 2
      then truncated
      else if ltb (length bytes) (2 + le_value 2 bytes * 8)
      then truncated
      else decoded (vector (read_floats (le_value 2 bytes) (drop 2 bytes)))

  abbrev pub read_bool : List ℕ → Decoded (Value Object)
  read_bool [] = truncated
  read_bool (b ∷ bytes) = decoded (bool (b == 1))

  -- The bytes are what follows the tag.
  unfoldable pub decode_tagged : ℕ → List ℕ → Decoded (Value Object)
  unfolding read_floats
  decode_tagged tag bytes =
      if tag == 255
      then decoded nil
      else if tag == 105
      then if ltb (length bytes) 8 then truncated else decoded (int64 (le_value 8 bytes))
      else if tag == 102
      then if ltb (length bytes) 8 then truncated else decoded (float64 (le_value 8 bytes))
      else if tag == 98
      then read_bool bytes
      else if tag == 115
      then read_text string bytes
      else if tag == 106
      then read_text (λ text. object_or_text (decode_object text) text) bytes
      else if tag == 118
      then read_vector bytes
      else unknown_tag

  unfoldable pub decode_column_value : List ℕ → Decoded (Value Object)
  decode_column_value [] = decoded nil
  decode_column_value (tag ∷ bytes) = decode_tagged tag bytes

  -- The offset of column `i`.
  abbrev pub offset_at : List ℕ → ℕ → ℕ
  offset_at tuple i = le_value 2 (drop (header_bytes + i * 2) tuple)

  -- The loop over the columns; `left` of them from `i` on.
  unfoldable pub decode_columns : List ℕ → ℕ → ℕ → Decoded (List (Value Object))
  decode_columns tuple i zero = decoded []
  decode_columns tuple i (suc left) =
      let end = if left == 0 then length tuple % 65536 else offset_at tuple (i + 1) in
      let rest = decode_columns tuple (i + 1) left in
      slice tuple (offset_at tuple i) end >>= λ bytes.
      decode_column_value bytes >>= λ v. rest >>= λ row. decoded (v ∷ row)

  unfoldable pub decode_row : List ℕ → Decoded (ℕ × ℕ × List (Value Object))
  decode_row tuple =
      let count = le_value 2 (drop 16 tuple) in
      if ltb (length tuple) header_bytes
      then truncated
      else if ltb (length tuple) (header_bytes + count * 2)
      then truncated
      else decode_columns tuple 0 count >>= λ row.
          decoded (le_value 8 tuple, le_value 8 (drop 8 tuple), row)

-- ===== src/Row/Trip.antt =====
-- server/internal/core/storage/binary_encoding.go: DecodeRow gives back the row that EncodeRow wrote.
use mathlib.Core.Path.{subst}
use mathlib.Core.List.{append_assoc}
use pro_labs.Common.{
  ℕ, ◌+◌, ◌-◌, ◌*◌, ◌%◌, ◌≤◌, ◌<◌, ◌≡◌, refl, sym, ap, ◌∙◌, arith, Bool, true, false, Option, List,
  [], ◌∷◌, ◌++◌, length, map, take, drop, ltb, ◌==◌, if◌then◌else◌, length-append, take-append,
  drop-append, All,
}
use pro_labs.Common.Words.{drop-drop, le_bytes, le_value, le_value-le_bytes, length-le_bytes}
use pro_labs.Row.Result.{
  Encoded, encoded, bind_encoded, tuple_too_large, empty_row, too_long, bad_json, unsupported,
  decoded,
}
use pro_labs.Row.{
  Value, column_bytes, column_size, columns_size, fill_columns, tuple_of, encode_row, header_bytes,
  u16_max, slice, offset_at, decode_columns, decode_row,
}
use pro_labs.Row.Columns.{
  IsValue, IsReadBack, read_back, decode_column_value-column_bytes, encoded_inj,
}

bind_cases :
    {A B : Type 0} (r : Encoded A) (f : A → Encoded B) (b : B)
    → bind_encoded r f ≡ encoded b
    → (a : A) × (r ≡ encoded a) × (f a ≡ encoded b)
bind_cases (encoded a) f b h = (a, refl, h)
bind_cases empty_row f b h = absurd (cc h)
bind_cases too_long f b h = absurd (cc h)
bind_cases bad_json f b h = absurd (cc h)
bind_cases unsupported f b h = absurd (cc h)
bind_cases tuple_too_large f b h = absurd (cc h)

when_not :
    {A : Type 0} (c : Bool) (bad good : Encoded A) (b : A)
    → ¬ (bad ≡ encoded b)
    → (if c then bad else good) ≡ encoded b
    → (c ≡ false) × (good ≡ encoded b)
when_not true bad good b h e = absurd (h e)
when_not false bad good b h e = (refl, e)

-- A slice of known bounds.
slice_at :
    (tuple part rest : List ℕ) (from to : ℕ)
    → drop from tuple ≡ part ++ rest
    → to ≡ from + length part
    → to ≤ length tuple
    → slice tuple from to ≡ decoded part
unfolding slice
slice_at tuple part rest from to h e k =
    let n : to - from ≡ length part = omega arith in
    let t : take (to - from) (drop from tuple) ≡ part =
      ap (λ (x : ℕ). take x (drop from tuple)) n
      ∙ ap (take (length part)) h
      ∙ take-append part rest in
    rw t (ground arith)

module _ {Object : Type 0} (marshal : Object → Option (List ℕ))
    (decode_object : List ℕ → Option Object) where
  -- The offset that was written for a column is read.
  offset_at-fill_columns :
      (o i : ℕ) (rest tuple : List ℕ)
      → drop (header_bytes + i * 2) tuple ≡ le_bytes 2 o ++ rest
      → o < 65536
      → offset_at decode_object tuple i ≡ o
  offset_at-fill_columns o i rest tuple h small =
      ap (le_value 2) h ∙ le_value-le_bytes 2 o rest small

  -- A column ends where the next one starts, the last one where the tuple ends.
  end_of :
      (row : List (Value Object)) (m i o : ℕ) (tuple after : List ℕ)
      → columns_size marshal row ≡ encoded m
      → drop (header_bytes + i * 2) tuple ≡ (fill_columns marshal o row).0 ++ after
      → o + m ≡ length tuple
      → length tuple ≤ 65535
      → (if length row == 0 then length tuple % 65536 else offset_at decode_object tuple i) ≡ o
  unfolding columns_size fill_columns
  end_of [] m i o tuple after e h size small = omega (arith, encoded_inj e)
  end_of (x ∷ row) m i o tuple after e h size small =
      let rest = fill_columns marshal ((o + length (column_bytes marshal x)) % 65536) row in
      let read =
        offset_at-fill_columns o i (rest.0 ++ after) tuple
          (h ∙ append_assoc (le_bytes 2 o) rest.0 after) (omega arith) in
      rw read (ground arith)

  skip :
      (a b : ℕ) (part rest tuple : List ℕ)
      → drop a tuple ≡ part ++ rest
      → a + length part ≡ b
      → drop b tuple ≡ rest
  skip a b part rest tuple h e =
      ap (λ (n : ℕ). drop n tuple) (sym e)
      ∙ drop-drop a (length part) tuple
      ∙ ap (drop (length part)) h
      ∙ drop-append part rest

  module _ {IsFit : Object → Type 0} {back : Object → Value Object}
      (json : IsReadBack marshal decode_object IsFit back) where
    length-fill_columns :
        (o n : ℕ) (row : List (Value Object))
        → All (IsValue IsFit) row
        → columns_size marshal row ≡ encoded n
        → n ≤ 65535
        → (length (fill_columns marshal o row).0 ≡ length row * 2)
          × (length (fill_columns marshal o row).1 ≡ n)
    unfolding fill_columns columns_size
    length-fill_columns o n [] v e h = (refl, encoded_inj e)
    length-fill_columns o n (x ∷ row) v e h =
        let (s, size_x, e1) = bind_cases (column_size marshal x) _ n e in
        let (m, size_row, e2) = bind_cases (columns_size marshal row) _ n e1 in
        let total : s + m ≡ n = encoded_inj e2 in
        let bytes = column_bytes marshal x in
        let len =
          (decode_column_value-column_bytes marshal decode_object x s json v.0 size_x
            (omega arith)).0 in
        let next = (o + length bytes) % 65536 in
        let (a, b) = length-fill_columns next m row v.1 size_row (omega arith) in
        (
          omega (
            arith,
            length-append (le_bytes 2 o) (fill_columns marshal next row).0,
            length-le_bytes 2 o,
          ),
          omega (arith, length-append bytes (fill_columns marshal next row).1),
        )

    decode_columns-fill_columns :
        (row : List (Value Object)) (n i o : ℕ) (tuple after : List ℕ)
        → All (IsValue IsFit) row
        → columns_size marshal row ≡ encoded n
        → drop (header_bytes + i * 2) tuple ≡ (fill_columns marshal o row).0 ++ after
        → drop o tuple ≡ (fill_columns marshal o row).1
        → o + n ≡ length tuple
        → length tuple ≤ 65535
        → decode_columns decode_object tuple i (length row) ≡ decoded (map (read_back back) row)
    unfolding decode_columns fill_columns columns_size
    decode_columns-fill_columns [] n i o tuple after v e h k size small = refl
    decode_columns-fill_columns (x ∷ row) n i o tuple after v e h k size small =
        let bytes = column_bytes marshal x in
        let (s, size_x, e1) = bind_cases (column_size marshal x) _ n e in
        let (m, size_row, e2) = bind_cases (columns_size marshal row) _ n e1 in
        let total : s + m ≡ n = encoded_inj e2 in
        let (len, dec) =
          decode_column_value-column_bytes marshal decode_object x s json v.0 size_x
            (omega arith) in
        let next : (o + length bytes) % 65536 ≡ o + s = omega arith in
        let rest = fill_columns marshal (o + s) row in
        let next_rest = ap (λ (q : ℕ). fill_columns marshal q row) next in
        let h1 : drop (header_bytes + i * 2) tuple ≡ le_bytes 2 o ++ (rest.0 ++ after) =
          h
          ∙ append_assoc (le_bytes 2 o) _ after
          ∙ ap (λ (q : List ℕ × List ℕ). le_bytes 2 o ++ (q.0 ++ after)) next_rest in
        let k1 : drop o tuple ≡ bytes ++ rest.1 =
          k ∙ ap (λ (q : List ℕ × List ℕ). bytes ++ q.1) next_rest in
        let h2 =
          skip (header_bytes + i * 2) (header_bytes + (i + 1) * 2) (le_bytes 2 o) (rest.0 ++ after)
            tuple h1 (omega (arith, length-le_bytes 2 o)) in
        let k2 = skip o (o + s) bytes rest.1 tuple k1 (omega arith) in
        let from = offset_at-fill_columns o i (rest.0 ++ after) tuple h1 (omega arith) in
        let to = end_of row m (i + 1) (o + s) tuple after size_row h2 (omega arith) small in
        let cut = slice_at tuple bytes rest.1 o (o + s) k1 (omega arith) (omega arith) in
        let more =
          decode_columns-fill_columns row m (i + 1) (o + s) tuple after v.1 size_row h2 k2
            (omega arith) small in
        rw (from, to, cut, dec, more) refl

    decode_row-tuple_of :
        (created_tx deleted_tx n : ℕ) (row : List (Value Object))
        → created_tx < 18446744073709551616
        → deleted_tx < 18446744073709551616
        → All (IsValue IsFit) row
        → columns_size marshal row ≡ encoded n
        → header_bytes + length row * 2 + n ≤ 65535
        → decode_row decode_object (tuple_of marshal created_tx deleted_tx row)
          ≡ decoded (created_tx, deleted_tx, map (read_back back) row)
    unfolding decode_row tuple_of
    decode_row-tuple_of created_tx deleted_tx n row hc hd v size fits =
        let (offsets, values) = fill_columns marshal (header_bytes + length row * 2) row in
        let tuple = tuple_of marshal created_tx deleted_tx row in
        let count = le_bytes 2 (length row) ++ (offsets ++ values) in
        let both = le_bytes 8 deleted_tx ++ count in
        let d8 =
          skip 0 8 (le_bytes 8 created_tx) both tuple refl
            (omega (arith, length-le_bytes 8 created_tx)) in
        let d16 =
          skip 8 16 (le_bytes 8 deleted_tx) count tuple d8
            (omega (arith, length-le_bytes 8 deleted_tx)) in
        let d18 =
          skip 16 18 (le_bytes 2 (length row)) (offsets ++ values) tuple d16
            (omega (arith, length-le_bytes 2 (length row))) in
        let l0 =
          (length-fill_columns (header_bytes + length row * 2) n row v size (omega arith)).0 in
        let l1 =
          (length-fill_columns (header_bytes + length row * 2) n row v size (omega arith)).1 in
        let d = skip 18 (header_bytes + length row * 2) offsets values tuple d18 (omega arith) in
        let len : length tuple ≡ header_bytes + length row * 2 + n = omega (
          arith,
          l0,
          l1,
          length-append offsets values,
          length-append (le_bytes 2 (length row)) (offsets ++ values),
          length-append (le_bytes 8 deleted_tx) count,
          length-append (le_bytes 8 created_tx) both,
          length-le_bytes 2 (length row),
          length-le_bytes 8 deleted_tx,
          length-le_bytes 8 created_tx,
        ) in
        let cols =
          decode_columns-fill_columns row n 0 (header_bytes + length row * 2) tuple values v size
            d18 d (omega arith) (omega arith) in
        let c = le_value-le_bytes 8 created_tx both hc in
        let x = ap (le_value 8) d8 ∙ le_value-le_bytes 8 deleted_tx count hd in
        let k =
          ap (le_value 2) d16
          ∙ le_value-le_bytes 2 (length row) (offsets ++ values) (omega arith) in
        rw (k, cols, c, x) (ground (arith, len))

    -- DecodeRow of what EncodeRow writes, with each object as it is read from its text.
    pub decode_row-encode_row_back :
        (created_tx deleted_tx : ℕ) (row : List (Value Object)) (tuple : List ℕ)
        → created_tx < 18446744073709551616
        → deleted_tx < 18446744073709551616
        → All (IsValue IsFit) row
        → encode_row marshal created_tx deleted_tx row ≡ encoded tuple
        → decode_row decode_object tuple
          ≡ decoded (created_tx, deleted_tx, map (read_back back) row)
    unfolding encode_row
    decode_row-encode_row_back created_tx deleted_tx row tuple hc hd v e =
        let (some_row, e1) = when_not (length row == 0) empty_row _ tuple (λ h. absurd (cc h)) e in
        let (n, size, e2) = bind_cases (columns_size marshal row) _ tuple e1 in
        let (fits, e3) =
          when_not (ltb u16_max (header_bytes + length row * 2 + n)) tuple_too_large _ tuple
            (λ h. absurd (cc h)) e2 in
        subst
          (λ (t : List ℕ).
            decode_row decode_object t ≡ decoded (created_tx, deleted_tx, map (read_back back) row))
          (encoded_inj e3)
          (decode_row-tuple_of created_tx deleted_tx n row hc hd v size (ground (arith, fits)))

-- ===== src/Row/Objects.antt =====
-- server/internal/core/storage/binary_encoding.go and json_decode.go: rows with objects of JSON.
--
-- json.Marshal, utf8.Valid and the texts of the numbers are parameters. What is asked of encoding/json and
-- strconv is that the parser reads what Marshal writes: the same tree, with each number as its text.
use pro_labs.Common.{
  ℕ, ◌-◌, ◌/◌, ◌%◌, ◌<◌, ◌≡◌, refl, ap, arith, Bool, true, false, not, Option, none, some, List, [],
  ◌∷◌, ◌&&◌, map, ltb, ◌==◌, and_iff, All, if◌then◌else◌,
}
use pro_labs.Row.Result.{encoded, decoded}
use pro_labs.Row.{Value, object, string, encode_row, decode_row, object_or_text}
use pro_labs.Row.Columns.{IsValue, IsReadBack, read_back}
use pro_labs.Row.Trip.{decode_row-encode_row_back}
use pro_labs.Row.Json.{
  Json, null, boolean, whole, floating, number, text, array, fields, Elements, no_elements, element,
  Fields, no_fields, field, GoMap, nil_map, made, Parser, int_or_else, convert_json_numbers,
  convert_elements, convert_fields, decode_json, as_map, decode_map,
}

pub record Printer : Type 0 where
  pub marshal : GoMap → Option (List ℕ)
  pub format_int : ℕ → List ℕ
  pub format_float : ℕ → List ℕ
  pub valid_utf8 : List ℕ → Bool

-- The text of a nil map.
abbrev pub null_text : List ℕ
null_text = 110 ∷ 117 ∷ 108 ∷ 108 ∷ []

-- The order of the bytes.
abbrev pub key_before : List ℕ → List ℕ → Bool
key_before k [] = false
key_before [] (b ∷ l) = true
key_before (a ∷ k) (b ∷ l) =
    let rest = key_before k l in if ltb a b then true else if a == b then rest else false

abbrev pub is_first : List ℕ → Fields → Bool
is_first k no_fields = true
is_first k (field l v fs) = key_before k l

-- The float is a number: its exponent is not the one of infinities and NaN.
abbrev pub is_finite : ℕ → Bool
is_finite f = ltb f 18446744073709551616 && not ((f / 4503599627370496) % 2048 == 2047)

module _ (printer : Printer) where
  -- Numbers have 64 bits and floats are finite, strings and keys are UTF-8, keys are distinct, no value is
  -- a json.Number, and no value is nested deeper than `depth`.
  unfoldable mutual
    pub fits : ℕ → Json → Bool
    fits depth null = true
    fits depth (boolean b) = true
    fits depth (whole i) = ltb i 18446744073709551616
    fits depth (floating f) = is_finite f
    fits depth (number t) = false
    fits depth (text t) = printer.valid_utf8 t
    fits depth (array xs) = ltb 0 depth && fits_elements (depth - 1) xs
    fits depth (fields fs) = ltb 0 depth && fits_fields (depth - 1) fs

    pub fits_elements : ℕ → Elements → Bool
    fits_elements depth no_elements = true
    fits_elements depth (element v xs) = fits depth v && fits_elements depth xs

    pub fits_fields : ℕ → Fields → Bool
    fits_fields depth no_fields = true
    fits_fields depth (field k v fs) =
        (printer.valid_utf8 k && is_first k fs) && (fits depth v && fits_fields depth fs)

  -- The tree of a text that Marshal writes, each number as a json.Number.
  unfoldable mutual
    pub written : Json → Json
    written null = null
    written (boolean b) = boolean b
    written (whole i) = number (printer.format_int i)
    written (floating f) = number (printer.format_float f)
    written (number t) = number t
    written (text t) = text t
    written (array xs) = array (written_elements xs)
    written (fields fs) = fields (written_fields fs)

    pub written_elements : Elements → Elements
    written_elements no_elements = no_elements
    written_elements (element v xs) = element (written v) (written_elements xs)

    pub written_fields : Fields → Fields
    written_fields no_fields = no_fields
    written_fields (field k v fs) = field k (written v) (written_fields fs)

  -- The deepest nesting that the parser of encoding/json accepts.
  abbrev pub max_depth : ℕ
  max_depth = 10000

  abbrev pub IsFit : GoMap → Type 0
  IsFit nil_map = Unit
  IsFit (made fs) = fits max_depth (fields fs) ≡ true

  module _ (parser : Parser) where
    pub record IsEncodingJson : Type 0 where
      pub fit_map :
          (fs : Fields) (t : List ℕ)
          → fits max_depth (fields fs) ≡ true
          → printer.marshal (made fs) ≡ some t
          → (parser.is_blank t ≡ false) × (parser.parse t ≡ some (written (fields fs)))
      pub nil_null : (t : List ℕ) → printer.marshal nil_map ≡ some t → t ≡ null_text
      pub null_read : (parser.is_blank null_text ≡ false) × (parser.parse null_text ≡ some null)
      pub int64_read :
          (i : ℕ) → i < 18446744073709551616 → parser.int64_of (printer.format_int i) ≡ some i
      pub float64_read :
          (f : ℕ) → is_finite f ≡ true → parser.float64_of (printer.format_float f) ≡ some f

    abbrev pub whole_or : ℕ → Option ℕ → Json
    whole_or f (some i) = whole i
    whole_or f none = floating f

    -- A float whose text is one of an int64 is that int64; all else is as it was.
    unfoldable mutual
      pub settled : Json → Json
      settled null = null
      settled (boolean b) = boolean b
      settled (whole i) = whole i
      settled (floating f) = whole_or f (parser.int64_of (printer.format_float f))
      settled (number t) = number t
      settled (text t) = text t
      settled (array xs) = array (settled_elements xs)
      settled (fields fs) = fields (settled_fields fs)

      pub settled_elements : Elements → Elements
      settled_elements no_elements = no_elements
      settled_elements (element v xs) = element (settled v) (settled_elements xs)

      pub settled_fields : Fields → Fields
      settled_fields no_fields = no_fields
      settled_fields (field k v fs) = field k (settled v) (settled_fields fs)

    -- A nil map comes back as a text.
    abbrev pub back : GoMap → Value GoMap
    back nil_map = string null_text
    back (made fs) = object (made (settled_fields fs))

    int_or_else-float :
        (i : Option ℕ) (f : ℕ) (t : List ℕ) → int_or_else parser i (some f) t ≡ whole_or f i
    int_or_else-float (some i) f t = refl
    int_or_else-float none f t = refl

    module _ (laws : IsEncodingJson) where
      mutual
        unfolding convert_json_numbers written settled fits

        convert_json_numbers-written :
            (v : Json) (depth : ℕ)
            → fits depth v ≡ true
            → convert_json_numbers parser (written v) ≡ settled v
        convert_json_numbers-written null depth h = refl
        convert_json_numbers-written (boolean b) depth h = refl
        convert_json_numbers-written (whole i) depth h =
            rw (laws.int64_read i (ground (arith, h))) refl
        convert_json_numbers-written (floating f) depth h =
            rw (laws.float64_read f h) (int_or_else-float _ f _)
        convert_json_numbers-written (number t) depth h = absurd (cc h)
        convert_json_numbers-written (text t) depth h = refl
        convert_json_numbers-written (array xs) depth h = ap array (
            convert_elements-written xs (depth - 1)
              ((and_iff (ltb 0 depth) (fits_elements (depth - 1) xs)).0 h).1)
        convert_json_numbers-written (fields fs) depth h = ap fields (
            convert_fields-written fs (depth - 1)
              ((and_iff (ltb 0 depth) (fits_fields (depth - 1) fs)).0 h).1)

        convert_elements-written :
            (xs : Elements) (depth : ℕ)
            → fits_elements depth xs ≡ true
            → convert_elements parser (written_elements xs) ≡ settled_elements xs
        convert_elements-written no_elements depth h = refl
        convert_elements-written (element v xs) depth h =
            let (hv, hxs) = (and_iff (fits depth v) (fits_elements depth xs)).0 h in
            cc (convert_json_numbers-written v depth hv, convert_elements-written xs depth hxs)

        convert_fields-written :
            (fs : Fields) (depth : ℕ)
            → fits_fields depth fs ≡ true
            → convert_fields parser (written_fields fs) ≡ settled_fields fs
        convert_fields-written no_fields depth h = refl
        convert_fields-written (field k v fs) depth h =
            let (hv, hfs) =
              (and_iff (fits depth v) (fits_fields depth fs)).0
                ((and_iff (printer.valid_utf8 k && is_first k fs) _).0 h).1 in
            cc (convert_json_numbers-written v depth hv, convert_fields-written fs depth hfs)

      decode_map-marshal : IsReadBack printer.marshal (decode_map parser) IsFit back
      unfolding decode_map decode_json settled convert_json_numbers
      decode_map-marshal nil_map t h e =
          let same = laws.nil_null t e in
          let (blank, read) = laws.null_read in rw (same, blank, read) refl
      decode_map-marshal (made fs) t h e =
          let (blank, read) = laws.fit_map fs t h e in
          rw (blank, read)
            (ap (λ v. object_or_text (decode_map parser) (as_map parser (some v)) t)
              (convert_json_numbers-written (fields fs) max_depth h))

      -- If EncodeRow accepts a row, DecodeRow of the tuple gives both transactions and the row back, but
      -- in its objects each float whose text is a whole number of 64 bits is that int64, and a nil
      -- object is the text "null". The numbers of the row and the transactions have 64 bits, and its
      -- objects have finite floats, strings and distinct keys in UTF-8, no json.Number and
      -- a depth of at most 10000.
      pub decode_row-encode_row :
          (created_tx deleted_tx : ℕ) (row : List (Value GoMap)) (tuple : List ℕ)
          → created_tx < 18446744073709551616
          → deleted_tx < 18446744073709551616
          → All (IsValue IsFit) row
          → encode_row printer.marshal created_tx deleted_tx row ≡ encoded tuple
          → decode_row (decode_map parser) tuple
            ≡ decoded (created_tx, deleted_tx, map (read_back back) row)
      decode_row-encode_row =
          decode_row-encode_row_back printer.marshal (decode_map parser) decode_map-marshal

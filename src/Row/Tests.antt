-- ===== src/Row/Tests.antt =====
-- server/internal/core/storage/binary_encoding.go: runs on small rows, and the theorems at them.
use mathlib.Core.Path.{subst}
use mathlib.Core.Option.{some_inj}
use pro_labs.Common.{
  ℕ, ◌<◌, ◌+◌, ◌≡◌, refl, sym, ap, arith, true, false, Option, none, some, List, [], ◌∷◌, ◌++◌, All,
  map, Bool, ◌==◌, if◌then◌else◌, Bool-cases, inl, inr,
}
use pro_labs.Common.Words.{le_bytes, le_value}
use pro_labs.Row.Result.{encoded, empty_row, unsupported, decoded, truncated, panic, ◌>>=◌}
use pro_labs.Row.{
  Value, nil, int64, bool, string, vector, object, other, floats, column_bytes, column_size,
  columns_size, fill_columns, tuple_of, encode_row, slice, decode_tagged, decode_column_value,
  decode_columns, decode_row,
}
use pro_labs.Row.Columns.{read_back}
use pro_labs.Row.Json.{
  Json, null, boolean, whole, floating, number, text, array, fields, Fields, no_fields, field,
  GoMap, nil_map, made, Parser, decode_map,
}
use pro_labs.Row.Objects.{
  Printer, null_text, written, fits, IsFit, IsEncodingJson, settled, back, decode_row-encode_row,
}
use pro_labs.Row.Flags.{
  set_hot_updated, get_forward_slot, is_hot_heap_tuple, set_hot_heap_tuple, set_xmin_committed,
  is_xmin_committed, set_xmax_committed, is_xmax_committed, set_xmin_committed_overlap, read_word,
  change_word,
}

-- The text of a number has one digit for it; 42.0 is written as 42, as strconv does.
abbrev float_text : ℕ → List ℕ
float_text f = if f == 4631107791820423168 then 105 ∷ 42 ∷ [] else 102 ∷ f ∷ []

abbrev int_value : List ℕ → Option ℕ
int_value (tag ∷ i ∷ []) = if tag == 105 then some i else none
int_value _ = none

abbrev float_value : List ℕ → Option ℕ
float_value (tag ∷ f ∷ []) =
    if tag == 102 then some f else if f == 42 then some 4631107791820423168 else none
float_value _ = none

-- The nil map and maps of one float can be written.
abbrev marshal : GoMap → Option (List ℕ)
marshal nil_map = some null_text
marshal (made (field k (floating f) no_fields)) = some (123 ∷ f ∷ k)
marshal (made _) = none

abbrev parse : List ℕ → Option Json
parse (tag ∷ f ∷ k) =
    if tag == 123 then some (fields (field k (number (float_text f)) no_fields)) else some null
parse _ = none

abbrev printer : Printer
printer = record {
  marshal = marshal;
  format_int = λ i. 105 ∷ i ∷ [];
  format_float = float_text;
  valid_utf8 = λ t. true;
}

abbrev is_empty : List ℕ → Bool
is_empty [] = true
is_empty (b ∷ t) = false

abbrev parser : Parser
parser = record {
  is_blank = is_empty;
  parse = parse;
  int64_of = int_value;
  float64_of = float_value;
}

fit_map-parser :
    (fs : Fields) (t : List ℕ)
    → marshal (made fs) ≡ some t
    → (parser.is_blank t ≡ false) × (parser.parse t ≡ some (written printer (fields fs)))
unfolding written
fit_map-parser no_fields t e = absurd (cc e)
fit_map-parser (field k (floating f) no_fields) t e =
    subst
      (λ x.
        (parser.is_blank x ≡ false)
        × (parser.parse x ≡ some (written printer (fields (field k (floating f) no_fields)))))
      (some_inj.0 e) (refl, refl)
fit_map-parser (field k (floating f) (field l v fs)) t e = absurd (cc e)
fit_map-parser (field k null fs) t e = absurd (cc e)
fit_map-parser (field k (boolean b) fs) t e = absurd (cc e)
fit_map-parser (field k (whole i) fs) t e = absurd (cc e)
fit_map-parser (field k (number x) fs) t e = absurd (cc e)
fit_map-parser (field k (text x) fs) t e = absurd (cc e)
fit_map-parser (field k (array xs) fs) t e = absurd (cc e)
fit_map-parser (field k (fields gs) fs) t e = absurd (cc e)

float_value-float_text : (f : ℕ) → float_value (float_text f) ≡ some f
float_value-float_text f = elim (Bool-cases (f == 4631107791820423168)) [
  | inl yes1 ↦ let same : 4631107791820423168 ≡ f = ground (arith, yes1) in rw yes1 (ap some same)
  | inr no1 ↦ rw no1 refl
]

parser-IsEncodingJson : IsEncodingJson printer parser
parser-IsEncodingJson = record {
  fit_map = λ fs t h e. fit_map-parser fs t e;
  nil_null = λ t e. sym (some_inj.0 e);
  null_read = (refl, refl);
  int64_read = λ i h. refl;
  float64_read = λ f h. float_value-float_text f;
}

abbrev answer : GoMap
answer = made (field (110 ∷ []) (floating 4631107791820423168) no_fields)

answer-IsFit : IsFit printer answer
unfolding fits
answer-IsFit = refl

abbrev sample : List (Value GoMap)
sample =
    int64 300
    ∷ nil
    ∷ string (97 ∷ 98 ∷ [])
    ∷ bool true
    ∷ vector (4607182418800017408 ∷ [])
    ∷ object answer
    ∷ object nil_map
    ∷ []

abbrev sample_tuple : List ℕ
unfolding tuple_of fill_columns column_bytes floats le_bytes
sample_tuple = tuple_of marshal 5 0 sample

encode_row_runs :
    (encode_row marshal 5 0 sample ≡ encoded sample_tuple)
    × (encode_row marshal 5 0 [] ≡ empty_row)
    × (encode_row marshal 5 0 (nil ∷ other ∷ []) ≡ unsupported)
unfolding encode_row columns_size column_size sample_tuple tuple_of fill_columns column_bytes floats
    le_bytes
encode_row_runs = (refl, refl, refl)

-- A tuple whose second offset is before the first panics, one of ten bytes is refused.
decode_row_runs :
    (decode_row (decode_map parser) (5 ∷ 0 ∷ []) ≡ truncated)
    × (decode_row (decode_map parser) (
          le_bytes 8 5
          ++ (le_bytes 8 0
              ++ (le_bytes 2 2 ++ (le_bytes 2 23 ++ (le_bytes 2 22 ++ (255 ∷ 255 ∷ []))))))
        ≡ panic)
unfolding decode_row decode_columns slice decode_column_value decode_tagged le_bytes le_value
decode_row_runs = (refl, refl)

decode_row-encode_row_example :
    decode_row (decode_map parser) sample_tuple
    ≡ decoded (5, 0, map (read_back (back printer parser)) sample)
decode_row-encode_row_example =
    decode_row-encode_row printer parser parser-IsEncodingJson 5 0 sample sample_tuple (omega arith)
      (omega arith) (omega arith, (tt, (tt, (tt, ((omega arith, tt), (answer-IsFit, (tt, tt)))))))
      encode_row_runs.0

-- The float 42.0 of the object is an int64 now, and the nil object a text.
objects_change :
    map (read_back (back printer parser)) (object answer ∷ object nil_map ∷ [])
    ≡ object (made (field (110 ∷ []) (whole 42) no_fields)) ∷ string null_text ∷ []
unfolding settled
objects_change = refl

abbrev first_bytes : List ℕ
first_bytes = 9 ∷ 0 ∷ 0 ∷ 0 ∷ 0 ∷ 0 ∷ 2 ∷ 0 ∷ 77 ∷ []

first_bytes-IsBytes : All (λ b. b < 256) first_bytes
first_bytes-IsBytes = (
  omega arith,
  (
    omega arith,
    (
      omega arith,
      (omega arith, (omega arith, (omega arith, (omega arith, (omega arith, (omega arith, tt)))))),
    ),
  ),
)

-- The commit flags of a tuple without a link are kept apart.
flags_run :
    ((set_xmin_committed first_bytes >>= is_xmin_committed) ≡ decoded true)
    × ((set_xmin_committed first_bytes >>= is_xmax_committed) ≡ decoded false)
    × ((set_xmax_committed first_bytes >>= is_xmax_committed) ≡ decoded true)
    × ((set_hot_heap_tuple first_bytes >>= is_hot_heap_tuple) ≡ decoded true)
unfolding read_word change_word le_bytes le_value
flags_run = (refl, refl, refl, refl)

set_xmin_committed_overlap_example :
    ((set_hot_updated 12 first_bytes >>= set_xmin_committed >>= get_forward_slot)
      ≡ decoded (12 + 4096))
    × ((set_xmin_committed first_bytes >>= set_hot_updated 12 >>= is_xmin_committed)
        ≡ decoded false)
set_xmin_committed_overlap_example =
    set_xmin_committed_overlap 12 first_bytes first_bytes-IsBytes (omega arith) (omega arith)

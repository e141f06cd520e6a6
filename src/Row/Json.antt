-- ===== src/Row/Json.antt =====
-- server/internal/core/storage/json_decode.go: DecodeJSON, and the objects of a row.
--
-- A map is the list of its fields in the order of their keys, as encoding/json writes them. Strings are
-- their bytes, an int64 and a float64 their 64 bits. Inside a map there are the values that DecodeJSON
-- makes and a json.Number; nil maps and slices there, and values of other types, are left out. The parser of
-- encoding/json with UseNumber, the test of bytes.TrimSpace for a text of blanks only, and Int64 and
-- Float64 of a json.Number are parameters.
use pro_labs.Common.{ℕ, Option, none, some, List, Bool, if◌then◌else◌}

mutual
  pub data Json : Type 0 where
    null : Json
    boolean : Bool → Json
    whole : ℕ → Json
    floating : ℕ → Json
    number : List ℕ → Json
    text : List ℕ → Json
    array : Elements → Json
    fields : Fields → Json

  pub data Elements : Type 0 where
    no_elements : Elements
    element : Json → Elements → Elements

  pub data Fields : Type 0 where
    no_fields : Fields
    field : List ℕ → Json → Fields → Fields

-- A map[string]interface{}, which may be nil.
pub data GoMap : Type 0 where
  nil_map : GoMap
  made : Fields → GoMap

pub record Parser : Type 0 where
  pub is_blank : List ℕ → Bool
  pub parse : List ℕ → Option Json
  pub int64_of : List ℕ → Option ℕ
  pub float64_of : List ℕ → Option ℕ

module _ (parser : Parser) where
  abbrev pub float_or_text : Option ℕ → List ℕ → Json
  float_or_text (some f) t = floating f
  float_or_text none t = text t

  abbrev pub int_or_else : Option ℕ → Option ℕ → List ℕ → Json
  int_or_else (some i) f t = whole i
  int_or_else none f t = float_or_text f t

  unfoldable mutual
    pub convert_json_numbers : Json → Json
    convert_json_numbers (number t) = int_or_else (parser.int64_of t) (parser.float64_of t) t
    convert_json_numbers (fields fs) = fields (convert_fields fs)
    convert_json_numbers (array xs) = array (convert_elements xs)
    convert_json_numbers null = null
    convert_json_numbers (boolean b) = boolean b
    convert_json_numbers (whole i) = whole i
    convert_json_numbers (floating f) = floating f
    convert_json_numbers (text t) = text t

    pub convert_elements : Elements → Elements
    convert_elements no_elements = no_elements
    convert_elements (element v xs) = element (convert_json_numbers v) (convert_elements xs)

    pub convert_fields : Fields → Fields
    convert_fields no_fields = no_fields
    convert_fields (field k v fs) = field k (convert_json_numbers v) (convert_fields fs)

  abbrev pub converted : Option Json → Option Json
  converted none = none
  converted (some v) = some (convert_json_numbers v)

  unfoldable pub decode_json : List ℕ → Option Json
  decode_json data_bytes =
      if parser.is_blank data_bytes then some null else converted (parser.parse data_bytes)

  abbrev pub as_map : Option Json → Option GoMap
  as_map (some (fields fs)) = some (made fs)
  as_map _ = none

  -- DecodeJSON with the type assertion behind it.
  unfoldable pub decode_map : List ℕ → Option GoMap
  decode_map data_bytes = as_map (decode_json data_bytes)

-- ===== src/Wire.antt =====
-- talon_query.go: the typed values of the embedded path and their binary wire form.
-- A float is its bit pattern, as `math.Float64bits` gives it; a `[16]byte` is a list of bytes. The
-- strict JSON check is a parameter of the encoder and of the decoder.
pub mod Scalar
pub mod Decode
pub mod Stored
pub mod Values
pub mod Rows
mod Tests
use talon_sdk_go.Base.{
  ℕ, zero, suc, ◌+◌, ◌-◌, ◌*◌, ◌^◌, Bool, true, false, not, ◌&&◌, ◌||◌, List, [], ◌∷◌, ◌++◌, Bytes,
  Result, ok, err, plain, new_error, guard, ErrorCode, some, ◌>>=◌, ◌>>◌, ltb, ◌==◌, if◌then◌else◌,
  length,
}
use talon_sdk_go.Base.Int.{ℤ, pos, negsuc}
use talon_sdk_go.Base.Words.{put_le, to_unsigned}
use talon_sdk_go.Base.Utf8.{valid_utf8}
use talon_sdk_go.Decimal.{decimal_precision}
use Scalar.{
  finite32, finite64, outside, in_one_day, decode_i128, max_decimal_precision, degrees_90,
  degrees_180,
}

-- GeoPoint, two float64 bit patterns.
pub record GeoPoint : Type 0 where
  pub latitude : ℕ
  pub longitude : ℕ

-- Value, with the payload that its kind uses. The fields of the Go struct are private and each
-- constructor sets those of one kind. A boolean keeps its integer, and a decimal its 16 bytes.
pub data Value : Type 0 where
  null : Value
  integer : ℤ → Value
  float : ℕ → Value
  text : Bytes → Value
  blob : Bytes → Value
  boolean : ℤ → Value
  json : Bytes → Value
  vector : List ℕ → Value
  timestamp : ℤ → Value
  geo_point : GeoPoint → Value
  date : ℤ → Value
  time : ℤ → Value
  decimal : Bytes → ℕ → Value

-- ValueKind, the tag byte.
pub kind : Value → ℕ
kind null = 0
kind (integer _) = 1
kind (float _) = 2
kind (text _) = 3
kind (blob _) = 4
kind (boolean _) = 5
kind (json _) = 6
kind (vector _) = 7
kind (timestamp _) = 8
kind (geo_point _) = 9
kind (date _) = 10
kind (time _) = 11
kind (decimal _ _) = 12

abbrev pub max_vector_dimensions : ℕ
max_vector_dimensions = 4096

abbrev pub max_uint32 : ℕ
max_uint32 = 2 ^ 32 - 1

-- The tests of GeoPointValue.
pub valid_point : GeoPoint → Bool
valid_point p =
    finite64 p.latitude
    && finite64 p.longitude
    && not (outside degrees_90 p.latitude)
    && not (outside degrees_180 p.longitude)

-- appendLengthBytes: the bytes that it appends.
pub length_bytes : Bytes → Result Bytes
length_bytes value =
    if ltb max_uint32 (length value) then err plain else ok (put_le 4 (length value) ++ value)

-- The loop over the elements of a vector.
pub vector_bytes : List ℕ → Result Bytes
vector_bytes [] = ok []
vector_bytes (item ∷ items) = do
  guard (finite32 item) plain
  rest ← vector_bytes items
  ok (put_le 4 item ++ rest)

module _ (strict_json : Bytes → Bool) where
  -- What `appendWireValue` appends behind the tag byte.
  pub payload : Value → Result Bytes
  payload null = ok []
  payload (integer v) = ok (put_le 8 (to_unsigned (2 ^ 63) v))
  payload (timestamp v) = ok (put_le 8 (to_unsigned (2 ^ 63) v))
  payload (time v) = do guard (in_one_day v) plain; ok (put_le 8 (to_unsigned (2 ^ 63) v))
  payload (float bits) = do guard (finite64 bits) plain; ok (put_le 8 bits)
  payload (text s) = do guard (valid_utf8 s) plain; length_bytes s
  payload (blob s) = length_bytes s
  payload (boolean (pos zero)) = ok (0 ∷ [])
  payload (boolean (pos (suc zero))) = ok (1 ∷ [])
  payload (boolean _) = err plain
  payload (json s) = do guard (strict_json s) plain; length_bytes s
  payload (vector items) = do
    guard (not (length items == 0) && not (ltb max_vector_dimensions (length items))) plain
    elements ← vector_bytes items
    ok (put_le 4 (length items) ++ elements)
  payload (geo_point p) = do
    guard (valid_point p) plain
    ok (put_le 8 p.latitude ++ put_le 8 p.longitude)
  payload (date v) = ok (put_le 4 (to_unsigned (2 ^ 31) v))
  payload (decimal bytes scale) = do
    guard
        (not (ltb max_decimal_precision scale)
          && not (ltb max_decimal_precision (decimal_precision (some (decode_i128 bytes)))))
        plain
    ok (bytes ++ scale ∷ [])

  -- appendWireValue
  pub append_wire_value : Bytes → Value → Result Bytes
  append_wire_value buffer value = do rest ← payload value; ok (buffer ++ kind value ∷ rest)

  -- The loop of `encodeParameters`, which wraps each error.
  pub append_values : Bytes → List Value → Result Bytes
  append_values buffer [] = ok buffer
  append_values buffer (value ∷ values) = elim (append_wire_value buffer value) [
    | ok longer ↦ append_values longer values
    | err _ ↦ err (new_error ErrorCode.invalid_argument)
  ]

  pub encode_parameters : List Value → Result Bytes
  encode_parameters params =
      if ltb max_uint32 (length params)
      then err (new_error ErrorCode.invalid_argument)
      else append_values (put_le 4 (length params)) params

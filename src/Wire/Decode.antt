-- ===== src/Wire/Decode.antt =====
-- talon_query.go: `decodeWireValue` and `decodeRows`. A decoder takes the bytes from the position
-- on, `wire[position:]`, and returns those behind what it read.
use talon_sdk_go.Base.{
  ℕ, zero, suc, ◌*◌, ◌/◌, ◌^◌, Bool, not, ◌&&◌, ◌||◌, none, some, List, [], ◌∷◌, Bytes, Result, ok,
  err, plain, new_error, guard, ErrorCode, ◌>>=◌, ◌>>◌, ltb, ◌==◌, if◌then◌else◌, length, take,
  drop,
}
use talon_sdk_go.Base.Int.{ℤ, pos}
use talon_sdk_go.Base.Words.{get_le, from_unsigned}
use talon_sdk_go.Base.Utf8.{valid_utf8}
use talon_sdk_go.Decimal.{decimal_precision}
use talon_sdk_go.Wire.{
  Value, GeoPoint, null, integer, float, text, blob, boolean, json, vector, timestamp, geo_point,
  date, time, decimal, valid_point, max_vector_dimensions,
}
use talon_sdk_go.Wire.Scalar.{
  finite32, finite64, in_one_day, encode_i128, decode_i128, max_decimal_precision,
}

-- maxWireItems and maxWireCellBytes
abbrev pub max_wire_items : ℕ
max_wire_items = 2 ^ 20

abbrev pub max_wire_cell_bytes : ℕ
max_wire_cell_bytes = 2 ^ 20

-- The closure `require` of decodeWireValue.
unfoldable pub require : ℕ → Bytes → Result (Bytes × Bytes)
require n wire = if ltb (length wire) n then err plain else ok (take n wire, drop n wire)

-- DecimalValue
unfoldable pub decimal_value : ℤ → ℕ → Result Value
decimal_value coefficient scale =
    if ltb max_decimal_precision scale
      || ltb max_decimal_precision (decimal_precision (some coefficient))
    then err (new_error ErrorCode.invalid_argument)
    else elim (encode_i128 coefficient) [
      | none ↦ err (new_error ErrorCode.invalid_argument)
      | some bytes ↦ ok (decimal bytes scale)
    ]

-- GeoPointValue
unfoldable pub geo_point_value : GeoPoint → Result Value
geo_point_value p =
    if valid_point p then ok (geo_point p) else err (new_error ErrorCode.invalid_argument)

-- A payload with a length in front: text, blob or JSON.
unfoldable pub read_payload : Bytes → Result (Bytes × Bytes)
read_payload wire = do
  (header, rest) ← require 4 wire
  guard (not (ltb max_wire_cell_bytes (get_le header)) && not (ltb (length rest) (get_le header)))
      plain
  require (get_le header) rest

-- The loop over the elements of a vector.
unfoldable pub read_vector : ℕ → Bytes → Result (List ℕ × Bytes)
read_vector zero wire = ok ([], wire)
read_vector (suc n) wire = do
  (item, rest) ← require 4 wire
  guard (finite32 (get_le item)) plain
  (items, rest') ← read_vector n rest
  ok (get_le item ∷ items, rest')

read_boolean : Bytes → Result Value
read_boolean (zero ∷ _) = ok (boolean (pos 0))
read_boolean (suc zero ∷ _) = ok (boolean (pos 1))
read_boolean _ = err plain

-- The tests of decodeRows on the two counts, `size` being len(wire)-8.
unfoldable pub valid_counts : ℕ → ℕ → ℕ → Bool
valid_counts rows columns size =
    not (
      ltb max_wire_items rows
      || ltb max_wire_items columns
      || (not (rows == 0) && ltb (max_wire_items / rows) columns)
      || ltb size (rows * columns))
    && not (rows == 0 && not (columns == 0))

unfoldable pub finish_rows : List (List Value) × Bytes → Result (List (List Value))
finish_rows (rows, []) = ok rows
finish_rows (rows, _ ∷ _) = err plain

module _ (strict_json : Bytes → Bool) where
  -- The cases of the switch over the kind, behind the tag byte.
  unfoldable pub read_value : ℕ → Bytes → Result (Value × Bytes)
  unfolding read_boolean
  read_value tag wire =
      if tag == 0
      then ok (null, wire)
      else if tag == 1
      then (do (p, rest) ← require 8 wire; ok (integer (from_unsigned (2 ^ 63) (get_le p)), rest))
      else if tag == 8
      then (do (p, rest) ← require 8 wire; ok (timestamp (from_unsigned (2 ^ 63) (get_le p)), rest))
      else if tag == 11
      then (do
        (p, rest) ← require 8 wire
        guard (in_one_day (from_unsigned (2 ^ 63) (get_le p))) plain
        ok (time (from_unsigned (2 ^ 63) (get_le p)), rest))
      else if tag == 2
      then (do
        (p, rest) ← require 8 wire
        guard (finite64 (get_le p)) plain
        ok (float (get_le p), rest))
      else if tag == 3
      then (do (p, rest) ← read_payload wire; guard (valid_utf8 p) plain; ok (text p, rest))
      else if tag == 4
      then (do (p, rest) ← read_payload wire; ok (blob p, rest))
      else if tag == 6
      then (do (p, rest) ← read_payload wire; guard (strict_json p) plain; ok (json p, rest))
      else if tag == 5
      then (do (p, rest) ← require 1 wire; v ← read_boolean p; ok (v, rest))
      else if tag == 7
      then (do
        (header, rest) ← require 4 wire
        guard
            (not (get_le header == 0)
              && not (ltb max_vector_dimensions (get_le header))
              && not (ltb (length rest / 4) (get_le header)))
            plain
        (items, rest') ← read_vector (get_le header) rest
        ok (vector items, rest'))
      else if tag == 9
      then (do
        (p, rest) ← require 16 wire
        v ← geo_point_value (record { latitude = get_le (take 8 p); longitude = get_le (drop 8 p) })
        ok (v, rest))
      else if tag == 10
      then (do (p, rest) ← require 4 wire; ok (date (from_unsigned (2 ^ 31) (get_le p)), rest))
      else if tag == 12
      then (do
        (p, rest) ← require 17 wire
        v ← decimal_value (decode_i128 (take 16 p)) (get_le (drop 16 p))
        ok (v, rest))
      else err plain

  -- decodeWireValue
  unfoldable pub decode_wire_value : Bytes → Result (Value × Bytes)
  decode_wire_value [] = err plain
  decode_wire_value (tag ∷ wire) = read_value tag wire

  -- The inner loop of decodeRows, over the columns of one row.
  unfoldable pub read_row : ℕ → Bytes → Result (List Value × Bytes)
  read_row zero wire = ok ([], wire)
  read_row (suc columns) wire = do
    (value, rest) ← decode_wire_value wire
    (values, rest') ← read_row columns rest
    ok (value ∷ values, rest')

  unfoldable pub read_rows : ℕ → ℕ → Bytes → Result (List (List Value) × Bytes)
  read_rows zero columns wire = ok ([], wire)
  read_rows (suc rows) columns wire = do
    (row, rest) ← read_row columns wire
    (more, rest') ← read_rows rows columns rest
    ok (row ∷ more, rest')

  unfoldable pub decode_rows : Bytes → Result (List (List Value))
  decode_rows wire =
      if ltb (length wire) 8
      then err plain
      else let rows = get_le (take 4 wire) in
        let columns = get_le (take 4 (drop 4 wire)) in
        let body = drop 8 wire in
        guard (valid_counts rows columns (length body)) plain
        >> (read_rows rows columns body >>= finish_rows)

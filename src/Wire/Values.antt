-- ===== src/Wire/Values.antt =====
-- talon_query.go: `decodeWireValue` on what `appendWireValue` writes, kind by kind.
use talon_sdk_go.Base.{
  ℕ, zero, suc, ◌+◌, ◌*◌, ◌/◌, ◌^◌, ◌≤◌, ◌<◌, ◌≡◌, refl, Bool, true, not, ◌&&◌, some, List, [], ◌∷◌,
  ◌++◌, append_assoc, Bytes, AllBytes, ok, All, ltb, ◌==◌, length, length-append, take-append_at,
  drop-append_at, arith,
}
use talon_sdk_go.Base.Int.{ℤ, pos, negsuc}
use talon_sdk_go.Base.Words.{put_le, get_le, to_unsigned, IsSigned, length-put_le, get_le-put_le}
use talon_sdk_go.Base.Utf8.{valid_utf8}
use talon_sdk_go.Decimal.{decimal_precision}
use talon_sdk_go.Wire.{
  Value, GeoPoint, null, integer, float, text, blob, boolean, json, vector, timestamp, geo_point,
  date, time, decimal, kind, payload, length_bytes, vector_bytes, valid_point,
  max_vector_dimensions,
}
use talon_sdk_go.Wire.Scalar.{
  finite64, in_one_day, decode_i128, encode_i128, encode_i128-decode_i128, max_decimal_precision,
}
use talon_sdk_go.Wire.Decode.{require, read_value, decimal_value, geo_point_value}
use talon_sdk_go.Wire.Stored.{
  IsStored, require-append, require-put_le, signed_word, read_payload-length_bytes,
  read_vector-vector_bytes, length-vector_bytes,
}

length-pair : (p : GeoPoint) → length (put_le 8 p.latitude ++ put_le 8 p.longitude) ≡ 16
length-pair p = omega (
  arith,
  length-append (put_le 8 p.latitude) (put_le 8 p.longitude),
  length-put_le 8 p.latitude,
  length-put_le 8 p.longitude,
)

-- The tests on a dimension pass for what the encoder wrote.
vector_guard :
    (items : List ℕ) (bytes rest : Bytes)
    → (not (length items == 0) && not (ltb max_vector_dimensions (length items))) ≡ true
    → vector_bytes items ≡ ok bytes
    → (not (length items == 0)
        && not (ltb max_vector_dimensions (length items))
        && not (ltb (length (bytes ++ rest) / 4) (length items)))
      ≡ true
vector_guard items bytes rest d e =
    let n : length (bytes ++ rest) ≡ 4 * length items + length rest =
      omega (arith, length-append bytes rest, length-vector_bytes items bytes e) in
    ground arith

get_le_one : (b : ℕ) → get_le (b ∷ []) ≡ b
unfolding get_le
get_le_one b = omega arith

decimal_value_ok :
    (c : ℤ) (scale : ℕ) (bytes : Bytes)
    → (not (ltb max_decimal_precision scale)
        && not (ltb max_decimal_precision (decimal_precision (some c))))
      ≡ true
    → encode_i128 c ≡ some bytes
    → decimal_value c scale ≡ ok (decimal bytes scale)
unfolding decimal_value
decimal_value_ok c scale bytes g e = ground arith

module _ (strict_json : Bytes → Bool) (rest : Bytes) where
  read_integer :
      (z : ℤ)
      → IsSigned (2 ^ 63) z
      → read_value strict_json 1 (put_le 8 (to_unsigned (2 ^ 63) z) ++ rest) ≡ ok (integer z, rest)
  unfolding read_value
  read_integer z h =
      rw (require-put_le 8 (to_unsigned (2 ^ 63) z) rest) (rw (signed_word 8 (2 ^ 63) z refl h))

  read_timestamp :
      (z : ℤ)
      → IsSigned (2 ^ 63) z
      → read_value strict_json 8 (put_le 8 (to_unsigned (2 ^ 63) z) ++ rest)
        ≡ ok (timestamp z, rest)
  unfolding read_value
  read_timestamp z h =
      rw (require-put_le 8 (to_unsigned (2 ^ 63) z) rest) (rw (signed_word 8 (2 ^ 63) z refl h))

  read_time :
      (z : ℤ)
      → IsSigned (2 ^ 63) z
      → in_one_day z ≡ true
      → read_value strict_json 11 (put_le 8 (to_unsigned (2 ^ 63) z) ++ rest) ≡ ok (time z, rest)
  unfolding read_value
  read_time z h d =
      rw (require-put_le 8 (to_unsigned (2 ^ 63) z) rest)
        (rw (signed_word 8 (2 ^ 63) z refl h) (rw d))

  read_float :
      (bits : ℕ)
      → bits < 2 ^ 64
      → finite64 bits ≡ true
      → read_value strict_json 2 (put_le 8 bits ++ rest) ≡ ok (float bits, rest)
  unfolding read_value
  read_float bits h f = rw (require-put_le 8 bits rest) (rw (get_le-put_le 8 bits h) (rw f))

  read_date :
      (z : ℤ)
      → IsSigned (2 ^ 31) z
      → read_value strict_json 10 (put_le 4 (to_unsigned (2 ^ 31) z) ++ rest) ≡ ok (date z, rest)
  unfolding read_value
  read_date z h =
      rw (require-put_le 4 (to_unsigned (2 ^ 31) z) rest) (rw (signed_word 4 (2 ^ 31) z refl h))

  read_text :
      (s bytes : Bytes)
      → length s ≤ 2 ^ 20
      → valid_utf8 s ≡ true
      → length_bytes s ≡ ok bytes
      → read_value strict_json 3 (bytes ++ rest) ≡ ok (text s, rest)
  unfolding read_value
  read_text s bytes h v e = rw (read_payload-length_bytes s bytes rest h e) (rw v)

  read_blob :
      (s bytes : Bytes)
      → length s ≤ 2 ^ 20
      → length_bytes s ≡ ok bytes
      → read_value strict_json 4 (bytes ++ rest) ≡ ok (blob s, rest)
  unfolding read_value
  read_blob s bytes h e = rw (read_payload-length_bytes s bytes rest h e)

  read_json :
      (s bytes : Bytes)
      → length s ≤ 2 ^ 20
      → strict_json s ≡ true
      → length_bytes s ≡ ok bytes
      → read_value strict_json 6 (bytes ++ rest) ≡ ok (json s, rest)
  unfolding read_value
  read_json s bytes h v e = rw (read_payload-length_bytes s bytes rest h e) (rw v)

  read_geo_point :
      (p : GeoPoint)
      → p.latitude < 2 ^ 64
      → p.longitude < 2 ^ 64
      → valid_point p ≡ true
      → read_value strict_json 9 ((put_le 8 p.latitude ++ put_le 8 p.longitude) ++ rest)
        ≡ ok (geo_point p, rest)
  unfolding read_value geo_point_value
  read_geo_point p h k v =
      rw (require-append (put_le 8 p.latitude ++ put_le 8 p.longitude) rest 16 (length-pair p)) (
        rw
          (take-append_at (put_le 8 p.latitude) (put_le 8 p.longitude) 8
            (length-put_le 8 p.latitude))
          (rw
            (drop-append_at (put_le 8 p.latitude) (put_le 8 p.longitude) 8
              (length-put_le 8 p.latitude))
            (rw (get_le-put_le 8 p.latitude h) (rw (get_le-put_le 8 p.longitude k) (rw v)))))

  read_vector_value :
      (items : List ℕ) (bytes : Bytes)
      → All (λ x. x < 2 ^ 32) items
      → (not (length items == 0) && not (ltb max_vector_dimensions (length items))) ≡ true
      → vector_bytes items ≡ ok bytes
      → read_value strict_json 7 ((put_le 4 (length items) ++ bytes) ++ rest)
        ≡ ok (vector items, rest)
  unfolding read_value
  read_vector_value items bytes h d e =
      let n = length items in
      let short : n < 256 ^ 4 = ground arith in
      rw (append_assoc (put_le 4 n) bytes rest) (
        rw (require-put_le 4 n (bytes ++ rest)) (
          rw (get_le-put_le 4 n short) (
            rw (vector_guard items bytes rest d e)
              (rw (read_vector-vector_bytes items bytes rest h e)))))

  read_decimal :
      (bytes : Bytes) (scale : ℕ)
      → length bytes ≡ 16
      → AllBytes bytes
      → (not (ltb max_decimal_precision scale)
          && not (ltb max_decimal_precision (decimal_precision (some (decode_i128 bytes)))))
        ≡ true
      → read_value strict_json 12 ((bytes ++ scale ∷ []) ++ rest) ≡ ok (decimal bytes scale, rest)
  unfolding read_value
  read_decimal bytes scale n h g =
      rw
        (require-append (bytes ++ scale ∷ []) rest 17
          (omega (arith, length-append bytes (scale ∷ []))))
        (rw (take-append_at bytes (scale ∷ []) 16 n) (
          rw (drop-append_at bytes (scale ∷ []) 16 n) (
            rw (get_le_one scale) (
              rw (
                decimal_value_ok (decode_i128 bytes) scale bytes g
                  (encode_i128-decode_i128 bytes n h))))))

module _ (sj : Bytes → Bool) (bytes rest : Bytes) where
  -- To read what the encoder made, read the bytes that it made.
  given :
      (tag : ℕ) (v : Value) {made : Bytes}
      → bytes ≡ made
      → read_value sj tag (made ++ rest) ≡ ok (v, rest)
      → read_value sj tag (bytes ++ rest) ≡ ok (v, rest)
  given tag v e r = rw e r

  float_payload :
      (bits : ℕ)
      → payload sj (float bits) ≡ ok bytes
      → (finite64 bits ≡ true) × (bytes ≡ put_le 8 bits)
  unfolding payload
  float_payload bits e = ground arith

  time_payload :
      (z : ℤ)
      → payload sj (time z) ≡ ok bytes
      → (in_one_day z ≡ true) × (bytes ≡ put_le 8 (to_unsigned (2 ^ 63) z))
  unfolding payload
  time_payload z e = ground arith

  text-payload :
      (s : Bytes)
      → payload sj (text s) ≡ ok bytes
      → (valid_utf8 s ≡ true) × (length_bytes s ≡ ok bytes)
  unfolding payload
  text-payload s e = ground arith

  json_payload :
      (s : Bytes) → payload sj (json s) ≡ ok bytes → (sj s ≡ true) × (length_bytes s ≡ ok bytes)
  unfolding payload
  json_payload s e = ground arith

  vector_payload :
      (items : List ℕ)
      → payload sj (vector items) ≡ ok bytes
      → ((not (length items == 0) && not (ltb max_vector_dimensions (length items))) ≡ true)
        × ((elements : Bytes) × (vector_bytes items ≡ ok elements)
            × (bytes ≡ put_le 4 (length items) ++ elements))
  unfolding payload
  vector_payload items e = ground arith

  point_payload :
      (p : GeoPoint)
      → payload sj (geo_point p) ≡ ok bytes
      → (valid_point p ≡ true) × (bytes ≡ put_le 8 p.latitude ++ put_le 8 p.longitude)
  unfolding payload
  point_payload p e = ground arith

  decimal_payload :
      (b : Bytes) (scale : ℕ)
      → payload sj (decimal b scale) ≡ ok bytes
      → ((not (ltb max_decimal_precision scale)
            && not (ltb max_decimal_precision (decimal_precision (some (decode_i128 b)))))
          ≡ true)
        × (bytes ≡ b ++ scale ∷ [])
  unfolding payload
  decimal_payload b scale e = ground arith

  read_boolean_payload :
      (z : ℤ)
      → payload sj (boolean z) ≡ ok bytes
      → read_value sj 5 (bytes ++ rest) ≡ ok (boolean z, rest)
  unfolding payload read_value require
  read_boolean_payload (pos zero) e = given 5 (boolean (pos 0)) {made = 0 ∷ []} (cc) (ground arith)
  read_boolean_payload (pos (suc zero)) e =
      given 5 (boolean (pos 1)) {made = 1 ∷ []} (cc) (ground arith)
  read_boolean_payload (pos (suc (suc n))) e = cc
  read_boolean_payload (negsuc n) e = cc

  -- What the encoder writes for a value within the ranges of Go's types, whose text, blob or JSON has at
  -- most the 1 MiB that the decoder takes, is read back as that value, and the rest is left.
  pub read_value-payload :
      (v : Value)
      → IsStored v
      → payload sj v ≡ ok bytes
      → read_value sj (kind v) (bytes ++ rest) ≡ ok (v, rest)
  unfolding kind
  read_value-payload null h e = unfold payload read_value in given 0 null {made = []} (cc) refl
  read_value-payload (integer z) h e =
      given 1 (integer z) {made = put_le 8 (to_unsigned (2 ^ 63) z)} (unfold payload in cc)
        (read_integer sj rest z h)
  read_value-payload (float bits) h e =
      let (finite, made) = float_payload bits e in
      given 2 (float bits) made (read_float sj rest bits h finite)
  read_value-payload (text s) h e =
      let (valid, made) = text-payload s e in read_text sj rest s bytes h valid made
  read_value-payload (blob s) h e = read_blob sj rest s bytes h (unfold payload in e)
  read_value-payload (boolean z) h e = read_boolean_payload z e
  read_value-payload (json s) h e =
      let (valid, made) = json_payload s e in read_json sj rest s bytes h valid made
  read_value-payload (vector items) h e =
      let (fits, (elements, written, made)) = vector_payload items e in
      given 7 (vector items) made (read_vector_value sj rest items elements h fits written)
  read_value-payload (timestamp z) h e =
      given 8 (timestamp z) {made = put_le 8 (to_unsigned (2 ^ 63) z)} (unfold payload in cc)
        (read_timestamp sj rest z h)
  read_value-payload (geo_point p) h e =
      let (valid, made) = point_payload p e in
      given 9 (geo_point p) made (read_geo_point sj rest p h.0 h.1 valid)
  read_value-payload (date z) h e =
      given 10 (date z) {made = put_le 4 (to_unsigned (2 ^ 31) z)} (unfold payload in cc)
        (read_date sj rest z h)
  read_value-payload (time z) h e =
      let (day, made) = time_payload z e in given 11 (time z) made (read_time sj rest z h day)
  read_value-payload (decimal b scale) h e =
      let (fits, made) = decimal_payload b scale e in
      given 12 (decimal b scale) made (read_decimal sj rest b scale h.0 h.1 fits)

-- ===== src/Wire/Stored.antt =====
-- Stored values: the ranges of Go's types and the bound of the decoder on a cell; and reading back words, payloads and vectors.
use talon_sdk_go.Base.{
  ℕ, ◌*◌, ◌^◌, ◌≤◌, ◌<◌, ◌≡◌, refl, ap, subst, ◌∙◌, true, List, [], ◌∷◌, ◌++◌, append_assoc, Bytes,
  AllBytes, ok, All, length, length-append, take-length_append, drop-length_append, arith,
}
use talon_sdk_go.Base.Int.{ℤ}
use talon_sdk_go.Base.Words.{
  put_le, get_le, to_unsigned, from_unsigned, IsSigned, length-put_le, get_le-put_le,
  from_unsigned-to_unsigned, to_unsigned-lt,
}
use talon_sdk_go.Wire.{
  Value, null, integer, float, text, blob, boolean, json, vector, timestamp, geo_point, date, time,
  decimal, length_bytes, vector_bytes,
}
use talon_sdk_go.Wire.Scalar.{finite32}
use talon_sdk_go.Wire.Decode.{require, read_payload, read_vector, max_wire_cell_bytes}

-- The ranges of int64, int32, float64, float32 and [16]byte, and, of text, blobs and JSON, the 1 MiB at most
-- that the decoder takes; the encoder writes larger ones.
abbrev pub IsStored : Value → Type 0
IsStored null = Unit
IsStored (integer v) = IsSigned (2 ^ 63) v
IsStored (float bits) = bits < 2 ^ 64
IsStored (text s) = length s ≤ max_wire_cell_bytes
IsStored (blob s) = length s ≤ max_wire_cell_bytes
IsStored (boolean v) = Unit
IsStored (json s) = length s ≤ max_wire_cell_bytes
IsStored (vector items) = All (λ x. x < 2 ^ 32) items
IsStored (timestamp v) = IsSigned (2 ^ 63) v
IsStored (geo_point p) = (p.latitude < 2 ^ 64) × (p.longitude < 2 ^ 64)
IsStored (date v) = IsSigned (2 ^ 31) v
IsStored (time v) = IsSigned (2 ^ 63) v
IsStored (decimal bytes scale) = (length bytes ≡ 16) × AllBytes bytes × (scale < 256)

require_whole : (xs rest : Bytes) → require (length xs) (xs ++ rest) ≡ ok (xs, rest)
unfolding require
require_whole xs rest =
    rw (length-append xs rest)
      (rw (take-length_append xs rest) (rw (drop-length_append xs rest) (ground arith)))

pub require-append :
    (xs rest : Bytes) (n : ℕ) → length xs ≡ n → require n (xs ++ rest) ≡ ok (xs, rest)
require-append xs rest n e =
    subst (λ k. require k (xs ++ rest) ≡ ok (xs, rest)) e (require_whole xs rest)

-- A word of `k` bytes is read back.
pub require-put_le :
    (k w : ℕ) (rest : Bytes) → require k (put_le k w ++ rest) ≡ ok (put_le k w, rest)
require-put_le k w rest = require-append (put_le k w) rest k (length-put_le k w)

pub signed_word :
    (k half : ℕ) (z : ℤ)
    → 2 * half ≡ 256 ^ k
    → IsSigned half z
    → from_unsigned half (get_le (put_le k (to_unsigned half z))) ≡ z
signed_word k half z e h =
    ap (from_unsigned half) (
      get_le-put_le k (to_unsigned half z)
        (subst (λ b. to_unsigned half z < b) e (to_unsigned-lt half z h)))
    ∙ from_unsigned-to_unsigned half z h

length_bytes_ok : (s bytes : Bytes) → length_bytes s ≡ ok bytes → bytes ≡ put_le 4 (length s) ++ s
unfolding length_bytes
length_bytes_ok s bytes e = ground arith

read_payload_put :
    (s rest : Bytes)
    → length s ≤ max_wire_cell_bytes
    → read_payload (put_le 4 (length s) ++ (s ++ rest)) ≡ ok (s, rest)
unfolding read_payload
read_payload_put s rest h = rw (require-put_le 4 (length s) (s ++ rest)) (
    rw (get_le-put_le 4 (length s) (omega arith))
      (rw (length-append s rest) (rw (require-append s rest (length s) refl) (ground arith))))

pub read_payload-length_bytes :
    (s bytes rest : Bytes)
    → length s ≤ max_wire_cell_bytes
    → length_bytes s ≡ ok bytes
    → read_payload (bytes ++ rest) ≡ ok (s, rest)
read_payload-length_bytes s bytes rest h e =
    ap (λ b. read_payload (b ++ rest)) (length_bytes_ok s bytes e)
    ∙ (ap read_payload (append_assoc (put_le 4 (length s)) s rest) ∙ read_payload_put s rest h)

vector_bytes_cons :
    (item : ℕ) (items : List ℕ) (bytes : Bytes)
    → vector_bytes (item ∷ items) ≡ ok bytes
    → (tail : Bytes) × (vector_bytes items ≡ ok tail)
      × (finite32 item ≡ true)
      × (bytes ≡ put_le 4 item ++ tail)
unfolding vector_bytes
vector_bytes_cons item items bytes e = ground arith

pub read_vector-vector_bytes :
    (items : List ℕ) (bytes rest : Bytes)
    → All (λ x. x < 2 ^ 32) items
    → vector_bytes items ≡ ok bytes
    → read_vector (length items) (bytes ++ rest) ≡ ok (items, rest)
unfolding read_vector vector_bytes
read_vector-vector_bytes [] bytes rest h e = ground arith
read_vector-vector_bytes (item ∷ items) bytes rest h e =
    let (tail, tail_ok, finite, joined) = vector_bytes_cons item items bytes e in
    rw joined (
      rw (append_assoc (put_le 4 item) tail rest) (
        rw (require-put_le 4 item (tail ++ rest)) (
          rw (get_le-put_le 4 item h.0)
            (rw finite (rw (read_vector-vector_bytes items tail rest h.1 tail_ok))))))

pub length-vector_bytes :
    (items : List ℕ) (bytes : Bytes)
    → vector_bytes items ≡ ok bytes
    → length bytes ≡ 4 * length items
unfolding vector_bytes
length-vector_bytes [] bytes e = ground arith
length-vector_bytes (item ∷ items) bytes e =
    let (tail, tail_ok, finite, joined) = vector_bytes_cons item items bytes e in
    omega (
      arith,
      ap length joined,
      length-append (put_le 4 item) tail,
      length-put_le 4 item,
      length-vector_bytes items tail tail_ok,
    )

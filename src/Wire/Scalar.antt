-- ===== src/Wire/Scalar.antt =====
-- talon_query.go: the tests on single numbers, and the signed 128-bit coefficient of a decimal.
use talon_sdk_go.Base.{
  ℕ, ◌*◌, ◌/◌, ◌%◌, ◌^◌, ◌<◌, ◌≡◌, ap, subst, ◌∙◌, Bool, false, not, Option, none, some, Bytes,
  AllBytes, ltb, leb, ◌==◌, if◌then◌else◌, length, lt→ltb,
}
use talon_sdk_go.Base.Int.{ℤ, pos, negsuc}
use talon_sdk_go.Base.Words.{
  put_le, get_le, to_unsigned, from_unsigned, IsSigned, put_le-get_le, get_le-lt,
  to_unsigned-from_unsigned, from_unsigned-IsSigned,
}

abbrev pub max_decimal_precision : ℕ
max_decimal_precision = 38

-- maxTimeNanos
abbrev pub max_time_nanos : ℕ
max_time_nanos = 86_399_999_999_999

-- Neither math.IsNaN nor math.IsInf: the exponent is not all ones.
unfoldable pub finite64 : ℕ → Bool
finite64 bits = not ((bits / 2 ^ 52) % 2 ^ 11 == 2047)

unfoldable pub finite32 : ℕ → Bool
finite32 bits = not ((bits / 2 ^ 23) % 2 ^ 8 == 255)

-- 90.0 and 180.0. For a finite number `x < -limit || x > limit` compares the bits below the sign.
abbrev pub degrees_90 : ℕ
degrees_90 = 0x4056_8000_0000_0000

abbrev pub degrees_180 : ℕ
degrees_180 = 0x4066_8000_0000_0000

unfoldable pub outside : ℕ → ℕ → Bool
outside limit bits = ltb limit (bits % 2 ^ 63)

-- Not `value < 0 || value > maxTimeNanos`.
unfoldable pub in_one_day : ℤ → Bool
in_one_day (pos n) = leb n max_time_nanos
in_one_day (negsuc n) = false

-- encodeI128LittleEndian: the range test, and the two's complement bytes.
unfoldable pub encode_i128 : ℤ → Option Bytes
encode_i128 (pos n) =
    if ltb n (2 ^ 127) then some (put_le 16 (to_unsigned (2 ^ 127) (pos n))) else none
encode_i128 (negsuc n) =
    if ltb n (2 ^ 127) then some (put_le 16 (to_unsigned (2 ^ 127) (negsuc n))) else none

-- decodeI128LittleEndian: the sign bit is the top bit of the last byte.
unfoldable pub decode_i128 : Bytes → ℤ
decode_i128 bytes = from_unsigned (2 ^ 127) (get_le bytes)

encode_i128_signed :
    (z : ℤ) → IsSigned (2 ^ 127) z → encode_i128 z ≡ some (put_le 16 (to_unsigned (2 ^ 127) z))
unfolding encode_i128
encode_i128_signed (pos n) h = rw (lt→ltb n (2 ^ 127) h)
encode_i128_signed (negsuc n) h = rw (lt→ltb n (2 ^ 127) h)

-- The 16 bytes of a coefficient are those that it is encoded to.
pub encode_i128-decode_i128 :
    (bytes : Bytes)
    → length bytes ≡ 16
    → AllBytes bytes
    → encode_i128 (decode_i128 bytes) ≡ some bytes
unfolding decode_i128
encode_i128-decode_i128 bytes n h =
    let bound : get_le bytes < 2 * 2 ^ 127 =
      subst (λ k. get_le bytes < 256 ^ k) n (get_le-lt bytes h) in
    encode_i128_signed (from_unsigned (2 ^ 127) (get_le bytes))
      (from_unsigned-IsSigned (2 ^ 127) (get_le bytes) bound)
    ∙ (ap (λ w. some (put_le 16 w)) (to_unsigned-from_unsigned (2 ^ 127) (get_le bytes) bound)
        ∙ ap some (subst (λ k. put_le k (get_le bytes) ≡ bytes) n (put_le-get_le bytes h)))

-- ===== src/Decimal.antt =====
-- internal/serverprotocol/sql.go: `Decimal`, the exact fixed-point number, with its constructor,
-- its parser and its printer. A `*big.Int` is an integer, and a nil one is `none`.
pub mod Digits
mod Scanning
pub mod RoundTrip
pub mod Embedded
pub mod Bounds
mod Tests
use talon_sdk_go.Base.{
  ℕ, zero, suc, ◌+◌, ◌-◌, ◌≤◌, Bool, true, false, not, ◌&&◌, ◌||◌, Option, none, some, List, [],
  ◌∷◌, ◌++◌, Bytes, Result, ok, err, new_error, guard, ◌>>=◌, ◌>>◌, ErrorCode, ltb, leb, ◌==◌,
  if◌then◌else◌, length, take, drop, replicate, bytes_equal,
}
use talon_sdk_go.Base.Int.{ℤ, pos, negsuc}
use talon_sdk_go.Base.Text.{trim_space}
use Digits.{is_digit, number_text, magnitude, is_negative, negate, value_from}

-- MaxDecimalPrecision
abbrev pub max_decimal_precision : ℕ
max_decimal_precision = 38

pub record Decimal : Type 0 where
  pub coefficient : Option ℤ
  pub scale : ℕ

-- decimalPrecision: the number of decimal digits, at least 1.
pub decimal_precision : Option ℤ → ℕ
decimal_precision none = 1
decimal_precision (some c) = if magnitude c == 0 then 1 else length (number_text (magnitude c))

pub new_decimal : Option ℤ → ℕ → Result Decimal
new_decimal none scale = err (new_error ErrorCode.invalid_argument)
new_decimal (some c) scale =
    if ltb max_decimal_precision scale || ltb max_decimal_precision (decimal_precision (some c))
    then err (new_error ErrorCode.invalid_argument)
    else ok (record { coefficient = some c; scale = scale })

-- The variables of the loop of `scanDecimalLiteral`.
pub record Scan : Type 0 where
  pub digits : Bytes
  pub seen_point : Bool
  pub fraction_digits : ℕ

pub scan_step : Scan → ℕ → Result Scan
scan_step s c =
    if is_digit c
    then ok (record s {
      digits = s.digits ++ c ∷ [];
      fraction_digits = if s.seen_point then s.fraction_digits + 1 else s.fraction_digits;
    })
    else if c == b'.' && not s.seen_point
    then ok (record s { seen_point = true })
    else err (new_error ErrorCode.invalid_argument)

pub scan_loop : Bytes → Scan → Result Scan
scan_loop [] s = ok s
scan_loop (c ∷ rest) s = scan_step s c >>= scan_loop rest

abbrev pub scan_start : Scan
scan_start = record { digits = []; seen_point = false; fraction_digits = 0 }

pub record Literal : Type 0 where
  pub digits : Bytes
  pub negative : Bool
  pub fraction_digits : ℕ

pub scan_body : Bool → Bytes → Result Literal
scan_body negative [] = err (new_error ErrorCode.invalid_argument)
scan_body negative (c ∷ body) = do
  s ← scan_loop (c ∷ body) scan_start
  guard (not (length s.digits == 0)) (new_error ErrorCode.invalid_argument)
  ok (record { digits = s.digits; negative = negative; fraction_digits = s.fraction_digits })

-- `body[0]` of an empty text panics in Go; the one caller has excluded it.
pub scan_decimal_literal : Bytes → Result Literal
unfolding scan_body
scan_decimal_literal [] = err (new_error ErrorCode.invalid_argument)
scan_decimal_literal (c ∷ rest) =
    if c == b'-'
    then scan_body true rest
    else if c == b'+'
    then scan_body false rest
    else scan_body false (c ∷ rest)

-- strings.TrimLeft(digits, "0")
pub trim_zeros : Bytes → Bytes
trim_zeros [] = []
trim_zeros (c ∷ rest) = let less = trim_zeros rest in if c == b'0' then less else c ∷ rest

-- `trimmed` holds digits alone, so SetString succeeds unless it is empty.
pub finish_literal : Literal → Result Decimal
finish_literal l =
    if ltb max_decimal_precision l.fraction_digits
    then err (new_error ErrorCode.invalid_argument)
    else if ltb max_decimal_precision (length (trim_zeros l.digits))
    then err (new_error ErrorCode.invalid_argument)
    else ok (record {
      coefficient = some (
          if l.negative
          then negate (pos (value_from 0 (trim_zeros l.digits)))
          else pos (value_from 0 (trim_zeros l.digits)));
      scale = l.fraction_digits;
    })

pub parse_decimal : Bytes → Result Decimal
parse_decimal text =
    if length text == 0 || not (bytes_equal (trim_space text) text)
    then err (new_error ErrorCode.invalid_argument)
    else scan_decimal_literal text >>= finish_literal

abbrev pub or_zero : Option ℤ → ℤ
or_zero none = pos 0
or_zero (some c) = c

abbrev pub sign_text : Bool → Bytes
sign_text b = if b then b'-' ∷ [] else []

-- The digits with the point put in: `Text` behind the sign.
pub point_text : Bytes → ℕ → Bytes
point_text digits scale =
    if scale == 0
    then digits
    else if leb (length digits) scale
    then b'0' ∷ b'.' ∷ (replicate (scale - length digits) b'0' ++ digits)
    else take (length digits - scale) digits ++ b'.' ∷ drop (length digits - scale) digits

-- Decimal.Text
pub text : Decimal → Bytes
unfolding point_text
text d =
    let c = or_zero d.coefficient in
    sign_text (is_negative c) ++ point_text (number_text (magnitude c)) d.scale

-- ===== src/Decimal/Tests.antt =====
-- Runs of the decimal code at fixed inputs, and the theorems at inputs that meet their hypotheses.
use talon_sdk_go.Base.{◌≡◌, refl, some, codes, ok, err, new_error, ErrorCode, bytes_equal}
use talon_sdk_go.Base.Int.{ℤ, pos, negsuc}
use talon_sdk_go.Base.Text.{trim_space}
use talon_sdk_go.Decimal.{
  Decimal, text, parse_decimal, new_decimal, decimal_precision, scan_decimal_literal, scan_body,
  scan_loop, scan_step, finish_literal, trim_zeros, point_text,
}
use talon_sdk_go.Decimal.Digits.{number_text, magnitude, is_negative, value_from, is_digit}
use talon_sdk_go.Decimal.RoundTrip.{parse-text}
use talon_sdk_go.Decimal.Bounds.{parse_decimal-new_decimal}
use talon_sdk_go.Decimal.Embedded.{format_decimal-eq-text, format_decimal, decimal_text}

abbrev cents : Decimal
cents = record { coefficient = some (negsuc 4); scale = 2 }

text-cents : text cents ≡ codes "-0.05"
unfolding text point_text number_text magnitude is_negative
text-cents = refl

text_of_large : text (record { coefficient = some (pos 99_999); scale = 4 }) ≡ codes "9.9999"
unfolding text point_text number_text magnitude is_negative
text_of_large = refl

new_cents : new_decimal (some (negsuc 4)) 2 ≡ ok cents
unfolding new_decimal decimal_precision number_text magnitude
new_cents = refl

parse_padded : parse_decimal (codes " 1") ≡ err (new_error ErrorCode.invalid_argument)
unfolding parse_decimal trim_space bytes_equal
parse_padded = refl

parse_plus : parse_decimal (codes "+.50") ≡ ok (record { coefficient = some (pos 50); scale = 2 })
unfolding parse_decimal scan_decimal_literal scan_body scan_loop scan_step finish_literal trim_zeros
    trim_space value_from is_digit bytes_equal
parse_plus = refl

parse-text_example : parse_decimal (text cents) ≡ ok cents
parse-text_example = parse-text (negsuc 4) 2 new_cents

parse_decimal-new_decimal_example :
    (c : ℤ) × (new_decimal (some c) 2 ≡ ok (record { coefficient = some (pos 50); scale = 2 }))
    × (parse_decimal (text (record { coefficient = some (pos 50); scale = 2 }))
        ≡ ok (record { coefficient = some (pos 50); scale = 2 }))
parse_decimal-new_decimal_example = parse_decimal-new_decimal (codes "+.50") parse_plus

format_decimal-eq-text_example :
    (format_decimal (negsuc 4) 2 ≡ text cents) × (decimal_text (negsuc 4) 2 ≡ text cents)
format_decimal-eq-text_example = format_decimal-eq-text (negsuc 4) 2

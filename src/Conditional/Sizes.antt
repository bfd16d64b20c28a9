-- ===== src/Conditional/Sizes.antt =====
-- conditional.go: `wireByteArrayJSONSize` beside `wireBytes.MarshalJSON`.
use talon_sdk_go.Base.{
  ◌≡◌, refl, Bool, true, false, some, [], ◌∷◌, Bytes, AllBytes, length, length-append, arith,
}
use talon_sdk_go.Decimal.Digits.{number_text, length-number_text_below}
use talon_sdk_go.Conditional.{
  digits_size, items_size, byte_array_json_size, items_json, marshal_bytes,
}

length-items_json :
    (later : Bool) (value : Bytes)
    → AllBytes value
    → length (items_json later value) ≡ items_size later value
unfolding items_json items_size digits_size
length-items_json later [] h = refl
length-items_json true (item ∷ items) h = omega (
  arith,
  length-append (number_text item) (items_json true items),
  length-number_text_below item (omega (arith, h.0)),
  length-items_json true items h.1,
)
length-items_json false (item ∷ items) h = omega (
  arith,
  length-append (number_text item) (items_json true items),
  length-number_text_below item (omega (arith, h.0)),
  length-items_json true items h.1,
)

-- The size that `wireByteArrayJSONSize` counts is the length of what `MarshalJSON` writes.
pub length-marshal_bytes :
    (value : Bytes)
    → AllBytes value
    → length (marshal_bytes (some value)) ≡ byte_array_json_size value
unfolding marshal_bytes byte_array_json_size
length-marshal_bytes value h =
    omega (arith, length-append (items_json false value) (93 ∷ []), length-items_json false value h)

-- ===== src/Wire/Tests.antt =====
-- Runs of the encoder and the decoder at fixed inputs, and the theorems at inputs that meet their
-- hypotheses. Every text passes for JSON here.
use talon_sdk_go.Base.{
  take, drop, ◌≡◌, refl, Bool, true, List, [], ◌∷◌, ◌++◌, Bytes, AllBytes, codes, ok, err, plain,
  arith,
}
use talon_sdk_go.Base.Int.{negsuc}
use talon_sdk_go.Base.Words.{get_le, put_le}
use talon_sdk_go.Wire.{
  encode_parameters, Value, integer, text, null, vector, blob, decimal, payload, append_values,
  append_wire_value, length_bytes, vector_bytes, kind,
}
use talon_sdk_go.Wire.Decode.{read_row, read_value, decode_rows}
use talon_sdk_go.Wire.Rows.{read_row-encode_parameters, concat, decode_rows-append_values}
use talon_sdk_go.Wire.Values.{read_value-payload}

abbrev any_json : Bytes → Bool
any_json _ = true

abbrev table : List (List Value)
table = (integer (negsuc 1) ∷ text (codes "ab") ∷ []) ∷ (null ∷ vector (1 ∷ 2 ∷ []) ∷ []) ∷ []

abbrev table_wire : Bytes
table_wire =
    (2 ∷ 0 ∷ 0 ∷ 0 ∷ 2 ∷ 0 ∷ 0 ∷ 0 ∷ [])
    ++ (1 ∷ 254 ∷ 255 ∷ 255 ∷ 255 ∷ 255 ∷ 255 ∷ 255 ∷ 255 ∷ 3 ∷ 2 ∷ 0 ∷ 0 ∷ 0 ∷ 97 ∷ 98 ∷ [])
    ++ (0 ∷ 7 ∷ 2 ∷ 0 ∷ 0 ∷ 0 ∷ 1 ∷ 0 ∷ 0 ∷ 0 ∷ 2 ∷ 0 ∷ 0 ∷ 0 ∷ [])

table_encoded : append_values any_json (put_le 4 2 ++ put_le 4 2) (concat table) ≡ ok table_wire
unfolding append_values append_wire_value payload length_bytes vector_bytes kind
    talon_sdk_go.Base.Utf8.valid_utf8 talon_sdk_go.Wire.Scalar.finite32 put_le
    talon_sdk_go.Base.Words.to_unsigned
table_encoded = refl

decode_rows-append_values_example : decode_rows any_json table_wire ≡ ok table
decode_rows-append_values_example =
    decode_rows-append_values any_json 2 table table_wire
      (
        (refl, (omega arith, (omega arith, tt))),
        ((refl, (tt, ((omega arith, (omega arith, tt)), tt))), tt),
      )
      (omega arith) (omega arith) (omega arith) table_encoded

minus_two :
    payload any_json (integer (negsuc 1)) ≡ ok (254 ∷ 255 ∷ 255 ∷ 255 ∷ 255 ∷ 255 ∷ 255 ∷ 255 ∷ [])
unfolding payload put_le talon_sdk_go.Base.Words.to_unsigned
minus_two = refl

read_value-payload_example :
    read_value any_json 1 ((254 ∷ 255 ∷ 255 ∷ 255 ∷ 255 ∷ 255 ∷ 255 ∷ 255 ∷ []) ++ 3 ∷ [])
    ≡ ok (integer (negsuc 1), 3 ∷ [])
unfolding kind
read_value-payload_example =
    read_value-payload any_json (254 ∷ 255 ∷ 255 ∷ 255 ∷ 255 ∷ 255 ∷ 255 ∷ 255 ∷ []) (3 ∷ [])
      (integer (negsuc 1)) (omega arith) minus_two

abbrev parameters : Bytes
parameters = 1 ∷ 0 ∷ 0 ∷ 0 ∷ 1 ∷ 254 ∷ 255 ∷ 255 ∷ 255 ∷ 255 ∷ 255 ∷ 255 ∷ 255 ∷ []

one_parameter : encode_parameters any_json (integer (negsuc 1) ∷ []) ≡ ok parameters
unfolding encode_parameters append_values append_wire_value payload kind put_le
    talon_sdk_go.Base.Words.to_unsigned
one_parameter = refl

read_row-encode_parameters_example :
    (get_le (take 4 parameters) ≡ 1)
    × (read_row any_json 1 (drop 4 parameters) ≡ ok (integer (negsuc 1) ∷ [], []))
read_row-encode_parameters_example =
    read_row-encode_parameters any_json (integer (negsuc 1) ∷ []) parameters (omega arith, tt)
      one_parameter

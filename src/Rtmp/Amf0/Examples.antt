-- ===== src/Rtmp/Amf0/Examples.antt =====
-- internal/rtmp/amf0/amf0.go: a value there and back.
use qumo.Common.{◌≡◌, refl, [], ◌∷◌, ◌++◌, Text, codes, text_eq, ok, err, arith}
use qumo.Rtmp.Amf0.{
  no_terminator, Value, null, number, text, object, strict_array, no_fields, field, no_values,
  value, Floats, u16, u32, u64, encode, encode_string, write_utf8, text_lt, decode_value,
}
use qumo.Rtmp.Amf0.Carried.{IsCarried, depth_of, fuel_of}
use qumo.Rtmp.Amf0.RoundTrip.{decode-encode}
use qumo.Rtmp.Amf0.EmptyKey.{encode_empty_key}
use qumo.Rtmp.Amf0.Fuel.{Ends, decode_value_total}

abbrev floats : Floats
floats = record { float_of_int = λ i. i; int_of_float = λ f. f }

-- {"app": "live", "fps": [30.0, null]}
abbrev connect_object : Value
connect_object = object (
    field (codes "app") (text (codes "live")) (
      field (codes "fps")
        (strict_array (value (number 4_629_137_466_983_448_576) (value null no_values))) no_fields))

abbrev encoded : Text
encoded =
    3 ∷ 0 ∷ 3 ∷ 97 ∷ 112 ∷ 112 ∷ 2 ∷ 0 ∷ 4 ∷ 108 ∷ 105 ∷ 118 ∷ 101 ∷ 0 ∷ 3 ∷ 102 ∷ 112 ∷ 115 ∷ 10
    ∷ 0 ∷ 0 ∷ 0 ∷ 2 ∷ 0 ∷ 64 ∷ 62 ∷ 0 ∷ 0 ∷ 0 ∷ 0 ∷ 0 ∷ 0 ∷ 5 ∷ 0 ∷ 0 ∷ 9 ∷ []

encode_connect : encode floats connect_object ≡ ok encoded
unfolding encode encode_string write_utf8 u16 u32 u64
encode_connect = refl

connect_object-IsCarried : IsCarried floats connect_object
unfolding text_lt text_eq
connect_object-IsCarried =
    (refl, refl, omega arith, (refl, tt, (omega arith, (omega arith, (tt, tt))), tt))

decode-encode_example : decode_value floats 9 0 (encoded ++ 5 ∷ []) ≡ ok (connect_object, 5 ∷ [])
unfolding depth_of fuel_of
decode-encode_example =
    decode-encode floats connect_object encoded (5 ∷ []) 9 encode_connect connect_object-IsCarried
      (omega arith) (omega arith)

-- A strict array that declares 2 ^ 32 - 1 values and has none.
decode_value_total_example : Ends 5 (decode_value floats 11 0 (10 ∷ 255 ∷ 255 ∷ 255 ∷ 255 ∷ []))
decode_value_total_example =
    decode_value_total floats 0 (10 ∷ 255 ∷ 255 ∷ 255 ∷ 255 ∷ []) 11 (omega arith)

-- {"": null}
encode_empty_key_example :
    decode_value floats 2 0 (3 ∷ 0 ∷ 0 ∷ 5 ∷ 0 ∷ 0 ∷ 9 ∷ []) ≡ err no_terminator
unfolding encode write_utf8 u16
encode_empty_key_example =
    encode_empty_key floats null no_fields (3 ∷ 0 ∷ 0 ∷ 5 ∷ 0 ∷ 0 ∷ 9 ∷ []) [] 0 refl

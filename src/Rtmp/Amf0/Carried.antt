-- ===== src/Rtmp/Amf0/Carried.antt =====
-- internal/rtmp/amf0/amf0.go: the values that AMF0 carries, and how deep they are.
use qumo.Common.{ℕ, suc, ◌<◌, ◌≡◌, true, false, [], max, Text, text_eq, length}
use qumo.Rtmp.Amf0.{
  Value, null, undefined, boolean, number, text, object, ecma_array, strict_array, date, Fields,
  no_fields, field, Values, no_values, value, Floats, count_fields, count_values, text_lt,
  millis_of,
}

-- A pair comes before those of the rest of a map.
abbrev pub Follows : Text → Fields → Type 0
Follows k no_fields = Unit {0}
Follows k (field k' v fs) = text_lt k k' ≡ true

-- The values that the encoding can carry: 64 bits in a number, lengths of 32 bits, a date whose
-- milliseconds are exact as a float64, and maps with no empty key, in the order of their keys.
abbrev mutual
  pub IsCarried : Floats → Value → Type 0
  IsCarried fl null = Unit {0}
  IsCarried fl undefined = Unit {0}
  IsCarried fl (boolean b) = Unit {0}
  IsCarried fl (number n) = n < 18_446_744_073_709_551_616
  IsCarried fl (text s) = length s < 4_294_967_296
  IsCarried fl (object fs) = AreFields fl fs
  IsCarried fl (ecma_array fs) = (count_fields fs < 4_294_967_296) × AreFields fl fs
  IsCarried fl (strict_array vs) = (count_values vs < 4_294_967_296) × AreValues fl vs
  IsCarried fl (date ms) =
      (fl.float_of_int ms < 18_446_744_073_709_551_616) × (millis_of fl (fl.float_of_int ms) ≡ ms)

  pub AreFields : Floats → Fields → Type 0
  AreFields fl no_fields = Unit {0}
  AreFields fl (field k v fs) =
      (text_eq k [] ≡ false) × Follows k fs × IsCarried fl v × AreFields fl fs

  pub AreValues : Floats → Values → Type 0
  AreValues fl no_values = Unit {0}
  AreValues fl (value v vs) = IsCarried fl v × AreValues fl vs

-- How much deeper than itself the decoder goes into a value.
unfoldable mutual
  pub depth_of : Value → ℕ
  depth_of null = 0
  depth_of undefined = 0
  depth_of (boolean b) = 0
  depth_of (number n) = 0
  depth_of (text s) = 0
  depth_of (object fs) = suc (depth_of_fields fs)
  depth_of (ecma_array fs) = suc (depth_of_fields fs)
  depth_of (strict_array vs) = suc (depth_of_values vs)
  depth_of (date ms) = 0

  pub depth_of_fields : Fields → ℕ
  depth_of_fields no_fields = 0
  depth_of_fields (field k v fs) = max (suc (depth_of v)) (depth_of_fields fs)

  pub depth_of_values : Values → ℕ
  depth_of_values no_values = 0
  depth_of_values (value v vs) = max (depth_of v) (depth_of_values vs)

-- The fuel that reads a value: one for every call of a function of the decoder within another.
unfoldable mutual
  pub fuel_of : Value → ℕ
  fuel_of null = 1
  fuel_of undefined = 1
  fuel_of (boolean b) = 1
  fuel_of (number n) = 1
  fuel_of (text s) = 1
  fuel_of (object fs) = suc (fuel_of_fields fs)
  fuel_of (ecma_array fs) = suc (fuel_of_fields fs)
  fuel_of (strict_array vs) = suc (fuel_of_values vs)
  fuel_of (date ms) = 1

  pub fuel_of_fields : Fields → ℕ
  fuel_of_fields no_fields = 1
  fuel_of_fields (field k v fs) = suc (max (fuel_of v) (fuel_of_fields fs))

  pub fuel_of_values : Values → ℕ
  fuel_of_values no_values = 1
  fuel_of_values (value v vs) = suc (max (fuel_of v) (fuel_of_values vs))

-- ===== src/Rtmp/Amf0.antt =====
-- internal/rtmp/amf0/amf0.go: the AMF0 encoding of values. A writer is what is written to it, and a
-- reader the bytes that are left.
pub mod Words
pub mod Carried
pub mod Reads
pub mod Atoms
pub mod RoundTrip
pub mod Fuel
pub mod EmptyKey
mod Examples
use qumo.Common.{
  ℕ, zero, suc, ◌+◌, ◌-◌, ◌*◌, ◌/◌, ◌%◌, ◌^◌, Bool, true, false, not, Option, none, some, List, [],
  ◌∷◌, ◌++◌, ltb, leb, ◌==◌, if◌then◌else◌, Text, text_eq, Result, ok, err, ◌>>=◌, length, take,
  drop,
}

-- The dynamic types that Decode returns. A number is the bit pattern of a float64, and a date the one
-- of an int64 of milliseconds; a map is its pairs in the order of their keys.
mutual
  pub data Value : Type 0 where
    null undefined : Value
    boolean : Bool → Value
    number : ℕ → Value
    text : Text → Value
    object : Fields → Value
    ecma_array : Fields → Value
    strict_array : Values → Value
    date : ℕ → Value

  pub data Fields : Type 0 where
    no_fields : Fields
    field : Text → Value → Fields → Fields

  pub data Values : Type 0 where
    no_values : Values
    value : Value → Values → Values

-- `out_of_fuel` is none of the source's.
pub data Amf0Error : Type 0 where
  unexpected_eof invalid_marker too_deep key_too_long no_terminator out_of_fuel : Amf0Error

-- float64(i) of an int64, and int64(f) of a float64 that is finite, on bit patterns.
pub record Floats : Type 0 where
  pub float_of_int : ℕ → ℕ
  pub int_of_float : ℕ → ℕ

abbrev pub max_decode_depth : ℕ
max_decode_depth = 256

unfoldable pub u16 : ℕ → Text
u16 n = n / 256 % 256 ∷ n % 256 ∷ []

unfoldable pub u32 : ℕ → Text
u32 n = u16 (n / 65_536 % 65_536) ++ u16 (n % 65_536)

unfoldable pub u64 : ℕ → Text
u64 n = u32 (n / 4_294_967_296 % 4_294_967_296) ++ u32 (n % 4_294_967_296)

unfoldable pub encode_string : Text → Text
encode_string s =
    if leb (length s) 65_535 then 2 ∷ u16 (length s) ++ s else 12 ∷ u32 (length s) ++ s

unfoldable pub write_utf8 : Text → Result Amf0Error Text
write_utf8 s = if ltb 65_535 (length s) then err key_too_long else ok (u16 (length s) ++ s)

abbrev pub object_end : Text
object_end = 0 ∷ 0 ∷ 9 ∷ []

abbrev pub count_fields : Fields → ℕ
count_fields no_fields = 0
count_fields (field k v fs) = suc (count_fields fs)

abbrev pub count_values : Values → ℕ
count_values no_values = 0
count_values (value v vs) = suc (count_values vs)

module _ (fl : Floats) where
  unfoldable mutual
    pub encode : Value → Result Amf0Error Text
    encode null = ok (5 ∷ [])
    encode undefined = ok (6 ∷ [])
    encode (boolean b) = ok (1 ∷ (if b then 1 else 0) ∷ [])
    encode (number n) = ok (0 ∷ u64 n)
    encode (text s) = ok (encode_string s)
    encode (object fs) = encode_fields fs >>= λ bs. ok (3 ∷ bs ++ object_end)
    encode (ecma_array fs) =
        encode_fields fs >>= λ bs. ok (8 ∷ u32 (count_fields fs) ++ bs ++ object_end)
    encode (strict_array vs) = encode_values vs >>= λ bs. ok (10 ∷ u32 (count_values vs) ++ bs)
    encode (date ms) = ok (11 ∷ u64 (fl.float_of_int ms) ++ 0 ∷ 0 ∷ [])

    pub encode_fields : Fields → Result Amf0Error Text
    encode_fields no_fields = ok []
    encode_fields (field k v fs) = write_utf8 k >>= λ key.
        encode v >>= λ bs. encode_fields fs >>= λ rest. ok (key ++ bs ++ rest)

    pub encode_values : Values → Result Amf0Error Text
    encode_values no_values = ok []
    encode_values (value v vs) = encode v >>= λ bs. encode_values vs >>= λ rest. ok (bs ++ rest)

-- What is read, and what is left.
abbrev pub Read {ℓ} : Type ℓ → Type ℓ
Read A = Result Amf0Error (A × Text)

unfoldable pub read_byte : Text → Read ℕ
read_byte [] = err unexpected_eof
read_byte (b ∷ bs) = ok (b, bs)

unfoldable pub read_u16 : Text → Read ℕ
unfolding read_byte
read_u16 bs = read_byte bs >>= λ (a, bs'). read_byte bs' >>= λ (b, rest). ok (a * 256 + b, rest)

unfoldable pub read_u32 : Text → Read ℕ
read_u32 bs = read_u16 bs >>= λ (a, bs'). read_u16 bs' >>= λ (b, rest). ok (a * 65_536 + b, rest)

unfoldable pub read_u64 : Text → Read ℕ
read_u64 bs =
    read_u32 bs >>= λ (a, bs'). read_u32 bs' >>= λ (b, rest). ok (a * 4_294_967_296 + b, rest)

-- io.ReadFull of a buffer of `n` bytes.
unfoldable pub read_full : ℕ → Text → Read Text
read_full n bs = if leb n (length bs) then ok (take n bs, drop n bs) else err unexpected_eof

-- Reading no bytes leaves the reader as it is, so the early return is that case too.
unfoldable pub read_utf8 : Text → Read Text
read_utf8 bs = read_u16 bs >>= λ (n, rest). if n == 0 then ok ([], rest) else read_full n rest

unfoldable pub read_long_utf8 : Text → Read Text
read_long_utf8 bs = read_u32 bs >>= λ (n, rest). if n == 0 then ok ([], rest) else read_full n rest

pub data Marker : Type 0 where
  number_marker boolean_marker string_marker object_marker null_marker undefined_marker : Marker
  ecma_array_marker strict_array_marker date_marker long_string_marker : Marker

unfoldable pub marker_of : ℕ → Option Marker
marker_of m =
    if m == 0
    then some number_marker
    else if m == 1
    then some boolean_marker
    else if m == 2
    then some string_marker
    else if m == 3
    then some object_marker
    else if m == 5
    then some null_marker
    else if m == 6
    then some undefined_marker
    else if m == 8
    then some ecma_array_marker
    else if m == 10
    then some strict_array_marker
    else if m == 11
    then some date_marker
    else if m == 12
    then some long_string_marker
    else none

-- The order of sort.Strings.
unfoldable pub text_lt : Text → Text → Bool
text_lt xs [] = false
text_lt [] (y ∷ ys) = true
text_lt (x ∷ xs) (y ∷ ys) = let rest = text_lt xs ys in if x == y then rest else ltb x y

-- A pair that was read before the others of the map: a later one of its key replaces it.
unfoldable pub put_first : Text → Value → Fields → Fields
put_first k v no_fields = field k v no_fields
put_first k v (field k' v' fs) =
    let rest = put_first k v fs in
    if text_eq k k'
    then field k' v' fs
    else if text_lt k k'
    then field k v (field k' v' fs)
    else field k' v' rest

-- The map of the pairs in the order that they are read.
unfoldable pub map_of : Fields → Fields
map_of no_fields = no_fields
map_of (field k v fs) = put_first k v (map_of fs)

-- math.IsNaN or math.IsInf: the exponent has all bits set.
abbrev pub not_finite : ℕ → Bool
not_finite bits = bits / 2 ^ 52 % 2 ^ 11 == 2_047

module _ (fl : Floats) where
  unfoldable pub millis_of : ℕ → ℕ
  millis_of bits = if not_finite bits then 0 else fl.int_of_float bits

  unfoldable mutual
    pub decode_value : ℕ → ℕ → Text → Read Value
    decode_value zero depth bs = err out_of_fuel
    decode_value (suc n) depth bs = elim (ltb max_decode_depth depth) [
      | true ↦ err too_deep
      | false ↦ read_byte bs >>= λ (m, rest). elim (marker_of m) [
        | none ↦ err invalid_marker
        | some number_marker ↦ read_u64 rest >>= λ (x, bs'). ok (number x, bs')
        | some boolean_marker ↦ read_byte rest >>= λ (b, bs'). ok (boolean (not (b == 0)), bs')
        | some string_marker ↦ read_utf8 rest >>= λ (s, bs'). ok (text s, bs')
        | some long_string_marker ↦ read_long_utf8 rest >>= λ (s, bs'). ok (text s, bs')
        | some object_marker ↦
            decode_fields n (depth + 1) rest >>= λ (fs, bs'). ok (object (map_of fs), bs')
        | some null_marker ↦ ok (null, rest)
        | some undefined_marker ↦ ok (undefined, rest)
        | some ecma_array_marker ↦ read_u32 rest >>= λ (c, bs').
            decode_fields n (depth + 1) bs' >>= λ (fs, bs''). ok (ecma_array (map_of fs), bs'')
        | some strict_array_marker ↦ read_u32 rest >>= λ (c, bs').
            decode_values n c (depth + 1) bs' >>= λ (vs, bs''). ok (strict_array vs, bs'')
        | some date_marker ↦ read_u64 rest >>= λ (x, bs').
            read_u16 bs' >>= λ (zone, bs''). ok (date (millis_of x), bs'')
      ]
    ]

    -- The pairs, in the order read. The source puts each into the map as it is read.
    pub decode_fields : ℕ → ℕ → Text → Read Fields
    decode_fields zero depth bs = err out_of_fuel
    decode_fields (suc n) depth bs = read_utf8 bs >>= λ (key, rest). elim (text_eq key []) [
      | true ↦
          read_byte rest >>= λ (m, bs'). if m == 9 then ok (no_fields, bs') else err no_terminator
      | false ↦ decode_value n (depth + 1) rest >>= λ (v, bs').
          decode_fields n depth bs' >>= λ (fs, bs''). ok (field key v fs, bs'')
    ]

    pub decode_values : ℕ → ℕ → ℕ → Text → Read Values
    decode_values zero count depth bs = err out_of_fuel
    decode_values (suc n) count depth bs = elim (count == 0) [
      | true ↦ ok (no_values, bs)
      | false ↦ decode_value n depth bs >>= λ (v, bs').
          decode_values n (count - 1) depth bs' >>= λ (vs, bs''). ok (value v vs, bs'')
    ]

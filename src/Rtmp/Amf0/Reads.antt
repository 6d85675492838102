-- ===== src/Rtmp/Amf0/Reads.antt =====
-- internal/rtmp/amf0/amf0.go: what one call of the decoder reads of each kind of value.
use qumo.Common.{
  ℕ, suc, ◌+◌, ◌<◌, ◌≤◌, ◌≡◌, refl, Bool, true, false, [], ◌∷◌, ◌++◌, if◌then◌else◌, Text, text_eq,
  ok, length, arith, ap, ◌∙◌,
}
use qumo.Rtmp.Amf0.{
  Value, null, undefined, boolean, number, text, object, ecma_array, strict_array, date, Fields,
  no_fields, field, Values, Floats, max_decode_depth, u16, u32, u64, read_byte, read_u16, marker_of,
  text_lt, put_first, map_of, decode_value, decode_fields, decode_values,
}
use qumo.Rtmp.Amf0.Words.{read_u32-u32, read_u64-u64, read_utf8-text, read_long_utf8-text}
use qumo.Rtmp.Amf0.Carried.{Follows, IsCarried, AreFields}

text_lt-eq : (s t : Text) → text_lt s t ≡ true → text_eq s t ≡ false
unfolding text_lt text_eq
text_lt-eq [] [] h = cc
text_lt-eq (x ∷ s) [] h = refl
text_lt-eq [] (y ∷ t) h = refl
text_lt-eq (x ∷ s) (y ∷ t) h = ground (arith, text_lt-eq s t)

pub put_first-Follows :
    (k : Text) (v : Value) (fs : Fields) → Follows k fs → put_first k v fs ≡ field k v fs
unfolding put_first
put_first-Follows k v no_fields h = refl
put_first-Follows k v (field k' v' fs) h = ground (arith, text_lt-eq k k' h)

-- The pairs of a map that is carried are in order, so they are the map's as they are.
pub map_of-AreFields : (fl : Floats) (fs : Fields) → AreFields fl fs → map_of fs ≡ fs
unfolding map_of
map_of-AreFields fl no_fields h = refl
map_of-AreFields fl (field k v fs) (n, f, c, h) =
    ap (put_first k v) (map_of-AreFields fl fs h) ∙ put_first-Follows k v fs f

-- A value's marker and what comes after it, when the decoder is not too deep.
module _ (fl : Floats) (n depth : ℕ) (le : depth ≤ max_decode_depth) where
  pub decode-number :
      (x : ℕ) (rest : Text)
      → x < 18_446_744_073_709_551_616
      → decode_value fl (suc n) depth (0 ∷ u64 x ++ rest) ≡ ok (number x, rest)
  unfolding decode_value read_byte marker_of
  decode-number x rest h = ground (arith, read_u64-u64 x rest h)

  pub decode-boolean :
      (b : Bool) (rest : Text)
      → decode_value fl (suc n) depth (1 ∷ (if b then 1 else 0) ∷ rest) ≡ ok (boolean b, rest)
  unfolding decode_value read_byte marker_of
  decode-boolean b rest = ground arith

  pub decode-atom :
      (rest : Text)
      → (decode_value fl (suc n) depth (5 ∷ rest) ≡ ok (null, rest))
        × (decode_value fl (suc n) depth (6 ∷ rest) ≡ ok (undefined, rest))
  unfolding decode_value read_byte marker_of
  decode-atom rest = (ground arith, ground arith)

  pub decode-string :
      (s rest : Text)
      → length s < 65_536
      → decode_value fl (suc n) depth (2 ∷ u16 (length s) ++ (s ++ rest)) ≡ ok (text s, rest)
  unfolding decode_value read_byte marker_of
  decode-string s rest h = ground (arith, read_utf8-text s rest h)

  pub decode-long_string :
      (s rest : Text)
      → length s < 4_294_967_296
      → decode_value fl (suc n) depth (12 ∷ u32 (length s) ++ (s ++ rest)) ≡ ok (text s, rest)
  unfolding decode_value read_byte marker_of
  decode-long_string s rest h = ground (arith, read_long_utf8-text s rest h)

  pub decode-date :
      (ms : ℕ) (rest : Text)
      → IsCarried fl (date ms)
      → decode_value fl (suc n) depth (11 ∷ u64 (fl.float_of_int ms) ++ 0 ∷ 0 ∷ rest)
        ≡ ok (date ms, rest)
  unfolding decode_value read_byte marker_of read_u16
  decode-date ms rest h = ground (arith, h, read_u64-u64 (fl.float_of_int ms) (0 ∷ 0 ∷ rest) h.0)

  pub decode-object :
      (fs : Fields) (bs rest : Text)
      → decode_fields fl n (depth + 1) bs ≡ ok (fs, rest)
      → decode_value fl (suc n) depth (3 ∷ bs) ≡ ok (object (map_of fs), rest)
  unfolding decode_value read_byte marker_of
  decode-object fs bs rest h = ground arith

  pub decode-ecma_array :
      (c : ℕ) (fs : Fields) (bs rest : Text)
      → c < 4_294_967_296
      → decode_fields fl n (depth + 1) bs ≡ ok (fs, rest)
      → decode_value fl (suc n) depth (8 ∷ u32 c ++ bs) ≡ ok (ecma_array (map_of fs), rest)
  unfolding decode_value read_byte marker_of
  decode-ecma_array c fs bs rest l h = ground (arith, read_u32-u32 c bs l)

  pub decode-strict_array :
      (c : ℕ) (vs : Values) (bs rest : Text)
      → c < 4_294_967_296
      → decode_values fl n c (depth + 1) bs ≡ ok (vs, rest)
      → decode_value fl (suc n) depth (10 ∷ u32 c ++ bs) ≡ ok (strict_array vs, rest)
  unfolding decode_value read_byte marker_of
  decode-strict_array c vs bs rest l h = ground (arith, read_u32-u32 c bs l)

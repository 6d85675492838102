-- ===== src/Rtmp/Amf0/RoundTrip.antt =====
-- internal/rtmp/amf0/amf0.go: what Decode reads of what Encode wrote.
use qumo.Common.{
  ℕ, zero, suc, ◌+◌, ◌<◌, ◌≤◌, ◌≡◌, refl, false, [], ◌∷◌, ◌++◌, Text, text_eq, ok, >>=-eq-ok,
  length, append_assoc, arith, ap, ◌∙◌, subst,
}
use qumo.Rtmp.Amf0.{
  Value, null, undefined, boolean, number, text, object, ecma_array, strict_array, date, Fields,
  no_fields, field, Values, no_values, value, Floats, max_decode_depth, u16, u32, write_utf8,
  object_end, count_fields, count_values, encode, encode_fields, encode_values, read_byte, read_u16,
  read_utf8, decode_value, decode_fields, decode_values,
}
use qumo.Rtmp.Amf0.Words.{read_utf8-text}
use qumo.Rtmp.Amf0.Carried.{IsCarried, depth_of, fuel_of}
use qumo.Rtmp.Amf0.Reads.{map_of-AreFields, decode-object, decode-ecma_array, decode-strict_array}
use qumo.Rtmp.Amf0.Atoms.{
  Back, BackFields, BackValues, Back-number, Back-boolean, Back-null, Back-undefined, Back-text,
  Back-date,
}

Back-object : (fl : Floats) (fs : Fields) → BackFields fl fs → Back fl (object fs)
unfolding encode depth_of fuel_of
Back-object fl fs b bs rest zero depth e c d f = absurd (omega (arith, f))
Back-object fl fs b bs rest (suc n) depth e c d f =
    let (cs, e1, r) = >>=-eq-ok (encode_fields fl fs) _ e in
    let same : 3 ∷ cs ++ object_end ≡ bs = ground arith in
    subst (λ x. decode_value fl (suc n) depth (x ++ rest) ≡ ok (object fs, rest)) same
      (ap (λ l. decode_value fl (suc n) depth (3 ∷ l)) (append_assoc cs object_end rest)
        ∙ decode-object fl n depth (omega (arith, d)) fs (cs ++ (object_end ++ rest)) rest
            (b cs rest n (depth + 1) e1 c (omega (arith, d)) (omega (arith, f)))
        ∙ ap (λ m. ok (object m, rest)) (map_of-AreFields fl fs c))

Back-ecma_array : (fl : Floats) (fs : Fields) → BackFields fl fs → Back fl (ecma_array fs)
unfolding encode depth_of fuel_of
Back-ecma_array fl fs b bs rest zero depth e c d f = absurd (omega (arith, f))
Back-ecma_array fl fs b bs rest (suc n) depth e c d f =
    let (cs, e1, r) = >>=-eq-ok (encode_fields fl fs) _ e in
    let same : 8 ∷ u32 (count_fields fs) ++ cs ++ object_end ≡ bs = ground arith in
    subst (λ x. decode_value fl (suc n) depth (x ++ rest) ≡ ok (ecma_array fs, rest)) same
      (ap (λ l. decode_value fl (suc n) depth (8 ∷ l))
          (append_assoc (u32 (count_fields fs) ++ cs) object_end rest
            ∙ append_assoc (u32 (count_fields fs)) cs (object_end ++ rest))
        ∙ decode-ecma_array fl n depth (omega (arith, d)) (count_fields fs) fs
            (cs ++ (object_end ++ rest)) rest c.0
            (b cs rest n (depth + 1) e1 c.1 (omega (arith, d)) (omega (arith, f)))
        ∙ ap (λ m. ok (ecma_array m, rest)) (map_of-AreFields fl fs c.1))

Back-strict_array : (fl : Floats) (vs : Values) → BackValues fl vs → Back fl (strict_array vs)
unfolding encode depth_of fuel_of
Back-strict_array fl vs b bs rest zero depth e c d f = absurd (omega (arith, f))
Back-strict_array fl vs b bs rest (suc n) depth e c d f =
    let (cs, e1, r) = >>=-eq-ok (encode_values fl vs) _ e in
    let same : 10 ∷ u32 (count_values vs) ++ cs ≡ bs = ground arith in
    subst (λ x. decode_value fl (suc n) depth (x ++ rest) ≡ ok (strict_array vs, rest)) same
      (ap (λ l. decode_value fl (suc n) depth (10 ∷ l))
          (append_assoc (u32 (count_values vs)) cs rest)
        ∙ decode-strict_array fl n depth (omega (arith, d)) (count_values vs) vs (cs ++ rest) rest
            c.0 (b cs rest n (depth + 1) e1 c.1 (omega (arith, d)) (omega (arith, f))))

decode-end :
    (fl : Floats) (n depth : ℕ) (rest : Text)
    → decode_fields fl (suc n) depth (object_end ++ rest) ≡ ok (no_fields, rest)
unfolding decode_value read_utf8 read_u16 read_byte text_eq
decode-end fl n depth rest = refl

decode-field :
    (fl : Floats) (n depth : ℕ) (k : Text) (v : Value) (fs : Fields) (more more' rest : Text)
    → text_eq k [] ≡ false
    → length k < 65_536
    → decode_value fl n (depth + 1) more ≡ ok (v, more')
    → decode_fields fl n depth more' ≡ ok (fs, rest)
    → decode_fields fl (suc n) depth (u16 (length k) ++ (k ++ more)) ≡ ok (field k v fs, rest)
unfolding decode_value
decode-field fl n depth k v fs more more' rest q l e1 e2 = ground (arith, read_utf8-text k more l)

decode-one :
    (fl : Floats) (n c depth : ℕ) (v : Value) (vs : Values) (more more' rest : Text)
    → decode_value fl n depth more ≡ ok (v, more')
    → decode_values fl n c depth more' ≡ ok (vs, rest)
    → decode_values fl (suc n) (suc c) depth more ≡ ok (value v vs, rest)
unfolding decode_value
decode-one fl n c depth v vs more more' rest e1 e2 = ground arith

decode-none :
    (fl : Floats) (n depth : ℕ) (rest : Text)
    → decode_values fl (suc n) 0 depth rest ≡ ok (no_values, rest)
unfolding decode_value
decode-none fl n depth rest = refl

write_utf8→ : (k b : Text) → write_utf8 k ≡ ok b → (length k < 65_536) × (u16 (length k) ++ k ≡ b)
unfolding write_utf8
write_utf8→ k b h = ground arith

BackFields-none : (fl : Floats) → BackFields fl no_fields
unfolding encode fuel_of
BackFields-none fl bs rest zero depth e c d f = absurd (omega (arith, f))
BackFields-none fl bs rest (suc n) depth e c d f =
    let same : [] ≡ bs = ground arith in
    subst (λ x. decode_fields fl (suc n) depth (x ++ (object_end ++ rest)) ≡ ok (no_fields, rest))
      same (decode-end fl n depth rest)

BackFields-field :
    (fl : Floats) (k : Text) (v : Value) (fs : Fields)
    → Back fl v
    → BackFields fl fs
    → BackFields fl (field k v fs)
unfolding encode depth_of fuel_of
BackFields-field fl k v fs bv bf bs rest zero depth e c d f = absurd (omega (arith, f))
BackFields-field fl k v fs bv bf bs rest (suc n) depth e (q, _, cv, cf) d f =
    let (kb, e1, r1) = >>=-eq-ok (write_utf8 k) _ e in
    let (vb, e2, r2) = >>=-eq-ok (encode fl v) _ r1 in
    let (fb, e3, r3) = >>=-eq-ok (encode_fields fl fs) _ r2 in
    let (l, w) = write_utf8→ k kb e1 in
    let tail = object_end ++ rest in
    let same : kb ++ vb ++ fb ≡ bs = ground arith in
    subst (λ x. decode_fields fl (suc n) depth (x ++ tail) ≡ ok (field k v fs, rest)) same
      (subst (λ x. decode_fields fl (suc n) depth (x ++ vb ++ fb ++ tail) ≡ ok (field k v fs, rest))
        w
        (ap (decode_fields fl (suc n) depth) (
            append_assoc (u16 (length k) ++ k ++ vb) fb tail
            ∙ append_assoc (u16 (length k) ++ k) vb (fb ++ tail)
            ∙ append_assoc (u16 (length k)) k (vb ++ (fb ++ tail)))
          ∙ decode-field fl n depth k v fs (vb ++ (fb ++ tail)) (fb ++ tail) rest q l
              (bv vb (fb ++ tail) n (depth + 1) e2 cv (omega (arith, d)) (omega (arith, f)))
              (bf fb rest n depth e3 cf (omega (arith, d)) (omega (arith, f)))))

BackValues-none : (fl : Floats) → BackValues fl no_values
unfolding encode fuel_of
BackValues-none fl bs rest zero depth e c d f = absurd (omega (arith, f))
BackValues-none fl bs rest (suc n) depth e c d f =
    let same : [] ≡ bs = ground arith in
    subst (λ x. decode_values fl (suc n) 0 depth (x ++ rest) ≡ ok (no_values, rest)) same
      (decode-none fl n depth rest)

BackValues-value :
    (fl : Floats) (v : Value) (vs : Values)
    → Back fl v
    → BackValues fl vs
    → BackValues fl (value v vs)
unfolding encode depth_of fuel_of
BackValues-value fl v vs bv bs' bs rest zero depth e c d f = absurd (omega (arith, f))
BackValues-value fl v vs bv bs' bs rest (suc n) depth e (cv, cs) d f =
    let (vb, e2, r2) = >>=-eq-ok (encode fl v) _ e in
    let (sb, e3, r3) = >>=-eq-ok (encode_values fl vs) _ r2 in
    let same : vb ++ sb ≡ bs = ground arith in
    subst
      (λ x.
        decode_values fl (suc n) (suc (count_values vs)) depth (x ++ rest) ≡ ok (value v vs, rest))
      same
      (ap (decode_values fl (suc n) (suc (count_values vs)) depth) (append_assoc vb sb rest)
        ∙ decode-one fl n (count_values vs) depth v vs (vb ++ (sb ++ rest)) (sb ++ rest) rest
            (bv vb (sb ++ rest) n depth e2 cv (omega (arith, d)) (omega (arith, f)))
            (bs' sb rest n depth e3 cs (omega (arith, d)) (omega (arith, f))))

mutual
  back : (fl : Floats) (v : Value) → Back fl v
  back fl null = Back-null fl
  back fl undefined = Back-undefined fl
  back fl (boolean b) = Back-boolean fl b
  back fl (number n) = Back-number fl n
  back fl (text s) = Back-text fl s
  back fl (object fs) = Back-object fl fs (back_fields fl fs)
  back fl (ecma_array fs) = Back-ecma_array fl fs (back_fields fl fs)
  back fl (strict_array vs) = Back-strict_array fl vs (back_values fl vs)
  back fl (date ms) = Back-date fl ms

  back_fields : (fl : Floats) (fs : Fields) → BackFields fl fs
  back_fields fl no_fields = BackFields-none fl
  back_fields fl (field k v fs) = BackFields-field fl k v fs (back fl v) (back_fields fl fs)

  back_values : (fl : Floats) (vs : Values) → BackValues fl vs
  back_values fl no_values = BackValues-none fl
  back_values fl (value v vs) = BackValues-value fl v vs (back fl v) (back_values fl vs)

-- What Encode writes of a value that AMF0 carries and that is not nested deeper than the decoder goes,
-- Decode reads back as the same value, leaving what comes after it; the fuel of the value is enough.
pub decode-encode :
    (fl : Floats) (v : Value) (bs rest : Text) (n : ℕ)
    → encode fl v ≡ ok bs
    → IsCarried fl v
    → depth_of v ≤ max_decode_depth
    → fuel_of v ≤ n
    → decode_value fl n 0 (bs ++ rest) ≡ ok (v, rest)
decode-encode fl v bs rest n e c d f = back fl v bs rest n 0 e c (omega (arith, d)) f

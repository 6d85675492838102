-- ===== src/Rtmp/Amf0/EmptyKey.antt =====
-- internal/rtmp/amf0/amf0.go: a map with an empty key.
use qumo.Common.{
  ℕ, suc, ◌≡◌, refl, false, [], ◌∷◌, ◌++◌, leb, ◌==◌, if◌then◌else◌, Text, text_eq, ok, err,
  >>=-eq-ok, length, arith, ap, ◌∙◌, sym, subst, Bool-cases, inl, inr,
}
use qumo.Rtmp.Amf0.{
  Value, null, undefined, boolean, number, text, object, ecma_array, strict_array, date, Fields,
  field, no_terminator, Floats, u16, u32, u64, encode_string, write_utf8, object_end, count_fields,
  count_values, encode, encode_fields, encode_values, read_byte, read_u16, read_utf8, marker_of,
  decode_value,
}

-- An encoding begins with a marker, which is not the one of an object's end.
record Begins (bs : Text) : Type 0 where
  m : ℕ
  more : Text
  is : bs ≡ m ∷ more
  no_end : (m == 9) ≡ false

Begins-of : (m : ℕ) (more bs : Text) → (m == 9) ≡ false → m ∷ more ≡ bs → Begins bs
Begins-of m more bs n e = record { m = m; more = more; is = sym e; no_end = n }

encode_string-Begins : (s : Text) → Begins (encode_string s)
unfolding encode_string
encode_string-Begins s = elim (Bool-cases (leb (length s) 65_535)) [
  | inl e ↦ record { m = 2; more = u16 (length s) ++ s; is = ground arith; no_end = refl }
  | inr e ↦ record { m = 12; more = u32 (length s) ++ s; is = ground arith; no_end = refl }
]

encode-Begins : (fl : Floats) (v : Value) (bs : Text) → encode fl v ≡ ok bs → Begins bs
unfolding encode
encode-Begins fl null bs e = Begins-of 5 [] bs refl (ground arith)
encode-Begins fl undefined bs e = Begins-of 6 [] bs refl (ground arith)
encode-Begins fl (boolean b) bs e = Begins-of 1 ((if b then 1 else 0) ∷ []) bs refl (ground arith)
encode-Begins fl (number n) bs e = Begins-of 0 (u64 n) bs refl (ground arith)
encode-Begins fl (text s) bs e =
    let same : encode_string s ≡ bs = ground arith in subst Begins same (encode_string-Begins s)
encode-Begins fl (object fs) bs e =
    let (cs, e1, r) = >>=-eq-ok (encode_fields fl fs) _ e in
    Begins-of 3 (cs ++ object_end) bs refl (ground arith)
encode-Begins fl (ecma_array fs) bs e =
    let (cs, e1, r) = >>=-eq-ok (encode_fields fl fs) _ e in
    Begins-of 8 (u32 (count_fields fs) ++ cs ++ object_end) bs refl (ground arith)
encode-Begins fl (strict_array vs) bs e =
    let (cs, e1, r) = >>=-eq-ok (encode_values fl vs) _ e in
    Begins-of 10 (u32 (count_values vs) ++ cs) bs refl (ground arith)
encode-Begins fl (date ms) bs e =
    Begins-of 11 (u64 (fl.float_of_int ms) ++ 0 ∷ 0 ∷ []) bs refl (ground arith)

decode-empty_key :
    (fl : Floats) (n : ℕ) (m : ℕ) (more : Text)
    → (m == 9) ≡ false
    → decode_value fl (suc (suc n)) 0 (3 ∷ 0 ∷ 0 ∷ m ∷ more) ≡ err no_terminator
unfolding decode_value read_byte read_utf8 read_u16 marker_of text_eq
decode-empty_key fl n m more h = ground arith

empty_key : (kb : Text) → write_utf8 [] ≡ ok kb → kb ≡ 0 ∷ 0 ∷ []
unfolding write_utf8 u16
empty_key kb e = ground arith

-- What Encode writes of a map whose first key is empty, Decode refuses, whatever the value and the other
-- keys are.
pub encode_empty_key :
    (fl : Floats) (v : Value) (fs : Fields) (bs rest : Text) (n : ℕ)
    → encode fl (object (field [] v fs)) ≡ ok bs
    → decode_value fl (suc (suc n)) 0 (bs ++ rest) ≡ err no_terminator
unfolding encode
encode_empty_key fl v fs bs rest n e =
    let (cs, e0, r0) = >>=-eq-ok (encode_fields fl (field [] v fs)) _ e in
    let (kb, e1, r1) = >>=-eq-ok (write_utf8 []) _ e0 in
    let (vb, e2, r2) = >>=-eq-ok (encode fl v) _ r1 in
    let (fb, e3, r3) = >>=-eq-ok (encode_fields fl fs) _ r2 in
    let b = encode-Begins fl v vb e2 in
    let read : cs ≡ 0 ∷ 0 ∷ b.m ∷ b.more ++ fb =
      sym (let joined : kb ++ vb ++ fb ≡ cs = ground arith in joined)
      ∙ ap (λ k. k ++ vb ++ fb) (empty_key kb e1)
      ∙ ap (λ x. 0 ∷ 0 ∷ x ++ fb) b.is in
    let written : bs ≡ 3 ∷ cs ++ object_end = ground arith in
    ap (λ x. decode_value fl (suc (suc n)) 0 (x ++ rest))
      (written ∙ ap (λ x. 3 ∷ x ++ object_end) read)
    ∙ decode-empty_key fl n b.m ((b.more ++ fb ++ object_end) ++ rest) b.no_end

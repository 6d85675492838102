-- ===== src/Rtmp/Amf0/Atoms.antt =====
-- internal/rtmp/amf0/amf0.go: the values that hold no others, there and back.
use qumo.Common.{
  ℕ, zero, suc, ◌+◌, ◌<◌, ◌≤◌, ◌≡◌, refl, Bool, [], ◌∷◌, ◌++◌, leb, if◌then◌else◌, Text, ok, length,
  append_assoc, arith, ap, ◌∙◌, sym, subst, Bool-cases, inl, inr,
}
use qumo.Rtmp.Amf0.{
  Value, null, undefined, boolean, number, text, date, Fields, Values, Floats, max_decode_depth,
  u16, u32, u64, encode_string, object_end, count_values, encode, encode_fields, encode_values,
  decode_value, decode_fields, decode_values,
}
use qumo.Rtmp.Amf0.Carried.{
  IsCarried, AreFields, AreValues, depth_of, depth_of_fields, depth_of_values, fuel_of,
  fuel_of_fields, fuel_of_values,
}
use qumo.Rtmp.Amf0.Reads.{
  decode-number, decode-boolean, decode-atom, decode-string, decode-long_string, decode-date,
}

-- What it takes for the decoder to read back the value, of what its encoding is put before.
abbrev pub Back : Floats → Value → Type 0
Back fl v =
    (bs rest : Text) (n depth : ℕ)
    → encode fl v ≡ ok bs
    → IsCarried fl v
    → depth + depth_of v ≤ max_decode_depth
    → fuel_of v ≤ n
    → decode_value fl n depth (bs ++ rest) ≡ ok (v, rest)

abbrev pub BackFields : Floats → Fields → Type 0
BackFields fl fs =
    (bs rest : Text) (n depth : ℕ)
    → encode_fields fl fs ≡ ok bs
    → AreFields fl fs
    → depth + depth_of_fields fs ≤ max_decode_depth
    → fuel_of_fields fs ≤ n
    → decode_fields fl n depth (bs ++ (object_end ++ rest)) ≡ ok (fs, rest)

abbrev pub BackValues : Floats → Values → Type 0
BackValues fl vs =
    (bs rest : Text) (n depth : ℕ)
    → encode_values fl vs ≡ ok bs
    → AreValues fl vs
    → depth + depth_of_values vs ≤ max_decode_depth
    → fuel_of_values vs ≤ n
    → decode_values fl n (count_values vs) depth (bs ++ rest) ≡ ok (vs, rest)

-- A value whose encoding is known, from what the decoder reads of it with some fuel.
Back-of :
    (fl : Floats) (v : Value) (known : Text)
    → encode fl v ≡ ok known
    → 1 ≤ fuel_of v
    → ((rest : Text) (n depth : ℕ)
        → depth ≤ max_decode_depth
        → IsCarried fl v
        → decode_value fl (suc n) depth (known ++ rest) ≡ ok (v, rest))
    → Back fl v
Back-of fl v known k one read bs rest zero depth e c d f = absurd (omega (arith, one, f))
Back-of fl v known k one read bs rest (suc n) depth e c d f =
    let ok_same : ok known ≡ ok bs = sym k ∙ e in
    let same : known ≡ bs = ground arith in
    subst (λ b. decode_value fl (suc n) depth (b ++ rest) ≡ ok (v, rest)) same
      (read rest n depth (omega (arith, d)) c)

pub Back-number : (fl : Floats) (x : ℕ) → Back fl (number x)
unfolding encode fuel_of
Back-number fl x =
    Back-of fl (number x) (0 ∷ u64 x) refl (omega arith)
      λ rest n depth le c. decode-number fl n depth le x rest c

pub Back-boolean : (fl : Floats) (b : Bool) → Back fl (boolean b)
unfolding encode fuel_of
Back-boolean fl b =
    Back-of fl (boolean b) (1 ∷ (if b then 1 else 0) ∷ []) refl (omega arith)
      λ rest n depth le c. decode-boolean fl n depth le b rest

pub Back-null : (fl : Floats) → Back fl null
unfolding encode fuel_of
Back-null fl =
    Back-of fl null (5 ∷ []) refl (omega arith)
      λ rest n depth le c. (decode-atom fl n depth le rest).0

pub Back-undefined : (fl : Floats) → Back fl undefined
unfolding encode fuel_of
Back-undefined fl =
    Back-of fl undefined (6 ∷ []) refl (omega arith)
      λ rest n depth le c. (decode-atom fl n depth le rest).1

decode-encode_string :
    (fl : Floats) (s rest : Text) (n depth : ℕ)
    → depth ≤ max_decode_depth
    → length s < 4_294_967_296
    → decode_value fl (suc n) depth (encode_string s ++ rest) ≡ ok (text s, rest)
unfolding encode_string
decode-encode_string fl s rest n depth le h = elim (Bool-cases (leb (length s) 65_535)) [
  | inl e ↦ ground (arith, decode-string fl n depth le s rest, append_assoc (u16 (length s)) s rest)
  | inr e ↦
      ground (arith, decode-long_string fl n depth le s rest, append_assoc (u32 (length s)) s rest)
]

pub Back-text : (fl : Floats) (s : Text) → Back fl (text s)
unfolding encode fuel_of
Back-text fl s =
    Back-of fl (text s) (encode_string s) refl (omega arith)
      λ rest n depth le c. decode-encode_string fl s rest n depth le c

pub Back-date : (fl : Floats) (ms : ℕ) → Back fl (date ms)
unfolding encode fuel_of
Back-date fl ms =
    Back-of fl (date ms) (11 ∷ u64 (fl.float_of_int ms) ++ 0 ∷ 0 ∷ []) refl (omega arith)
      λ rest n depth le c.
        ap (λ l. decode_value fl (suc n) depth (11 ∷ l))
          (append_assoc (u64 (fl.float_of_int ms)) (0 ∷ 0 ∷ []) rest)
        ∙ decode-date fl n depth le ms rest c

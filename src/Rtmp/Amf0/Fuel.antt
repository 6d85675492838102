-- ===== src/Rtmp/Amf0/Fuel.antt =====
-- internal/rtmp/amf0/amf0.go: the fuel of the decoder.
use qumo.Common.{
  ℕ, zero, suc, ◌+◌, ◌-◌, ◌*◌, ◌<◌, ◌≤◌, ◌≢◌, Bool, true, false, Option, none, some, [], ◌∷◌, ltb,
  leb, ◌==◌, if◌then◌else◌, Text, text_eq, ok, err, ◌>>=◌, length, drop, arith, Bool-cases, inl,
  inr,
}
use qumo.Rtmp.Amf0.{
  Value, invalid_marker, out_of_fuel, Floats, max_decode_depth, Read, read_byte, read_u16, read_u32,
  read_u64, read_full, read_utf8, read_long_utf8, Marker, marker_of, number_marker, boolean_marker,
  string_marker, object_marker, null_marker, undefined_marker, ecma_array_marker,
  strict_array_marker, date_marker, long_string_marker, decode_value, decode_fields, decode_values,
}

-- What was read leaves fewer than `k` bytes; what was not did not run out of fuel.
abbrev pub Ends : {A : Type 0} → ℕ → Read A → Type 0
Ends k (ok r) = length r.1 < k
Ends k (err e) = e ≢ out_of_fuel

Ends->>= :
    {A B : Type 0} (j k : ℕ) (r : Read A) (f : A × Text → Read B)
    → Ends j r
    → ((x : A × Text) → length x.1 < j → Ends k (f x))
    → Ends k (r >>= f)
Ends->>= j k (ok x) f h g = g x h
Ends->>= j k (err e) f h g = h

Ends-choose :
    {A : Type 0} (k : ℕ) (b : Bool) (x y : Read A)
    → Ends k x
    → Ends k y
    → Ends k (elim b [ true ↦ x | false ↦ y ])
Ends-choose k true x y hx hy = hx
Ends-choose k false x y hx hy = hy

Ends-mono : {A : Type 0} (j k : ℕ) (r : Read A) → j ≤ k → Ends j r → Ends k r
Ends-mono j k (ok x) le h = omega (arith, le, h)
Ends-mono j k (err e) le h = h

read_byte-Ends : (bs : Text) → Ends (length bs) (read_byte bs)
unfolding read_byte
read_byte-Ends [] = λ e. cc
read_byte-Ends (b ∷ bs) = omega arith

read_u16-Ends : (bs : Text) → Ends (length bs) (read_u16 bs)
unfolding read_u16
read_u16-Ends bs = Ends->>= (length bs) (length bs) (read_byte bs) _ (read_byte-Ends bs) λ x lx.
    Ends->>= (length x.1) (length bs) (read_byte x.1) _ (read_byte-Ends x.1)
      λ y ly. omega (arith, lx, ly)

read_u32-Ends : (bs : Text) → Ends (length bs) (read_u32 bs)
unfolding read_u32
read_u32-Ends bs = Ends->>= (length bs) (length bs) (read_u16 bs) _ (read_u16-Ends bs) λ x lx.
    Ends->>= (length x.1) (length bs) (read_u16 x.1) _ (read_u16-Ends x.1)
      λ y ly. omega (arith, lx, ly)

read_u64-Ends : (bs : Text) → Ends (length bs) (read_u64 bs)
unfolding read_u64
read_u64-Ends bs = Ends->>= (length bs) (length bs) (read_u32 bs) _ (read_u32-Ends bs) λ x lx.
    Ends->>= (length x.1) (length bs) (read_u32 x.1) _ (read_u32-Ends x.1)
      λ y ly. omega (arith, lx, ly)

length-drop : (n : ℕ) (bs : Text) → length (drop n bs) ≤ length bs
length-drop zero bs = omega arith
length-drop (suc n) [] = omega arith
length-drop (suc n) (b ∷ bs) = omega (arith, length-drop n bs)

read_full-Ends : (n : ℕ) (bs : Text) → Ends (suc (length bs)) (read_full n bs)
unfolding read_full
read_full-Ends n bs = elim (Bool-cases (leb n (length bs))) [
  | inl e ↦ rw e (omega (arith, length-drop n bs))
  | inr e ↦ rw e (λ q. cc)
]

-- The bytes of a text whose length was read.
text-Ends :
    (n k : ℕ) (bs : Text) → length bs < k → Ends k (if n == 0 then ok ([], bs) else read_full n bs)
text-Ends n k bs l = elim (Bool-cases (n == 0)) [
  | inl e ↦ rw e l
  | inr e ↦ rw e (Ends-mono (suc (length bs)) k (read_full n bs) l (read_full-Ends n bs))
]

read_utf8-Ends : (bs : Text) → Ends (length bs) (read_utf8 bs)
unfolding read_utf8
read_utf8-Ends bs =
    Ends->>= (length bs) (length bs) (read_u16 bs) _ (read_u16-Ends bs)
      λ x lx. text-Ends x.0 (length bs) x.1 lx

read_long_utf8-Ends : (bs : Text) → Ends (length bs) (read_long_utf8 bs)
unfolding read_long_utf8
read_long_utf8-Ends bs =
    Ends->>= (length bs) (length bs) (read_u32 bs) _ (read_u32-Ends bs)
      λ x lx. text-Ends x.0 (length bs) x.1 lx

-- Whatever the marker.
Ends-marker :
    (k : ℕ) (o : Option Marker) (n b s ls ob nu un ec st da : Read Value)
    → Ends k n
    → Ends k b
    → Ends k s
    → Ends k ls
    → Ends k ob
    → Ends k nu
    → Ends k un
    → Ends k ec
    → Ends k st
    → Ends k da
    → Ends k (elim o [
      | none ↦ err invalid_marker
      | some number_marker ↦ n
      | some boolean_marker ↦ b
      | some string_marker ↦ s
      | some long_string_marker ↦ ls
      | some object_marker ↦ ob
      | some null_marker ↦ nu
      | some undefined_marker ↦ un
      | some ecma_array_marker ↦ ec
      | some strict_array_marker ↦ st
      | some date_marker ↦ da
    ])
Ends-marker k none n b s ls ob nu un ec st da hn hb hs hl ho hu hd he ht ha = λ q. cc
Ends-marker k (some number_marker) n b s ls ob nu un ec st da hn hb hs hl ho hu hd he ht ha = hn
Ends-marker k (some boolean_marker) n b s ls ob nu un ec st da hn hb hs hl ho hu hd he ht ha = hb
Ends-marker k (some string_marker) n b s ls ob nu un ec st da hn hb hs hl ho hu hd he ht ha = hs
Ends-marker k (some long_string_marker) n b s ls ob nu un ec st da hn hb hs hl ho hu hd he ht ha =
    hl
Ends-marker k (some object_marker) n b s ls ob nu un ec st da hn hb hs hl ho hu hd he ht ha = ho
Ends-marker k (some null_marker) n b s ls ob nu un ec st da hn hb hs hl ho hu hd he ht ha = hu
Ends-marker k (some undefined_marker) n b s ls ob nu un ec st da hn hb hs hl ho hu hd he ht ha = hd
Ends-marker k (some ecma_array_marker) n b s ls ob nu un ec st da hn hb hs hl ho hu hd he ht ha = he
Ends-marker k (some strict_array_marker) n b s ls ob nu un ec st da hn hb hs hl ho hu hd he ht ha =
    ht
Ends-marker k (some date_marker) n b s ls ob nu un ec st da hn hb hs hl ho hu hd he ht ha = ha

mutual
  unfolding decode_value

  decode_value-Ends :
      (fl : Floats) (n depth : ℕ) (bs : Text)
      → 2 * length bs + 1 ≤ n
      → Ends (length bs) (decode_value fl n depth bs)
  decode_value-Ends fl zero depth bs f = absurd (omega (arith, f))
  decode_value-Ends fl (suc n) depth bs f =
      let k = length bs in
      Ends-choose k (ltb max_decode_depth depth) _ _ (λ q. cc)
        (Ends->>= k k (read_byte bs) _ (read_byte-Ends bs) λ x lx.
          Ends-marker k (marker_of x.0) _ _ _ _ _ _ _ _ _ _
            (Ends->>= (length x.1) k (read_u64 x.1) _ (read_u64-Ends x.1)
              λ y ly. omega (arith, lx, ly))
            (Ends->>= (length x.1) k (read_byte x.1) _ (read_byte-Ends x.1)
              λ y ly. omega (arith, lx, ly))
            (Ends->>= (length x.1) k (read_utf8 x.1) _ (read_utf8-Ends x.1)
              λ y ly. omega (arith, lx, ly))
            (Ends->>= (length x.1) k (read_long_utf8 x.1) _ (read_long_utf8-Ends x.1)
              λ y ly. omega (arith, lx, ly))
            (Ends->>= (length x.1) k (decode_fields fl n (depth + 1) x.1) _
              (decode_fields-Ends fl n (depth + 1) x.1 (omega (arith, f, lx)))
              λ y ly. omega (arith, lx, ly))
            lx lx
            (Ends->>= (length x.1) k (read_u32 x.1) _ (read_u32-Ends x.1) λ y ly.
              Ends->>= (length y.1) k (decode_fields fl n (depth + 1) y.1) _
                (decode_fields-Ends fl n (depth + 1) y.1 (omega (arith, f, lx, ly)))
                λ z lz. omega (arith, lx, ly, lz))
            (Ends->>= (length x.1) k (read_u32 x.1) _ (read_u32-Ends x.1) λ y ly.
              Ends->>= (suc (length y.1)) k (decode_values fl n y.0 (depth + 1) y.1) _
                (decode_values-Ends fl n y.0 (depth + 1) y.1 (omega (arith, f, lx, ly)))
                λ z lz. omega (arith, lx, ly, lz))
            (Ends->>= (length x.1) k (read_u64 x.1) _ (read_u64-Ends x.1) λ y ly.
              Ends->>= (length y.1) k (read_u16 y.1) _ (read_u16-Ends y.1)
                λ z lz. omega (arith, lx, ly, lz)))

  decode_fields-Ends :
      (fl : Floats) (n depth : ℕ) (bs : Text)
      → 2 * length bs + 2 ≤ n
      → Ends (length bs) (decode_fields fl n depth bs)
  decode_fields-Ends fl zero depth bs f = absurd (omega (arith, f))
  decode_fields-Ends fl (suc n) depth bs f =
      let k = length bs in
      Ends->>= k k (read_utf8 bs) _ (read_utf8-Ends bs) λ x lx.
        Ends-choose k (text_eq x.0 []) _ _
          (Ends->>= (length x.1) k (read_byte x.1) _ (read_byte-Ends x.1) λ y ly.
            elim (Bool-cases (y.0 == 9)) [
              | inl e ↦ rw e (omega (arith, lx, ly))
              | inr e ↦ rw e (λ q. cc)
            ])
          (Ends->>= (length x.1) k (decode_value fl n (depth + 1) x.1) _
            (decode_value-Ends fl n (depth + 1) x.1 (omega (arith, f, lx)))
            λ y ly.
              Ends->>= (length y.1) k (decode_fields fl n depth y.1) _
                (decode_fields-Ends fl n depth y.1 (omega (arith, f, lx, ly)))
                λ z lz. omega (arith, lx, ly, lz))

  decode_values-Ends :
      (fl : Floats) (n c depth : ℕ) (bs : Text)
      → 2 * length bs + 2 ≤ n
      → Ends (suc (length bs)) (decode_values fl n c depth bs)
  decode_values-Ends fl zero c depth bs f = absurd (omega (arith, f))
  decode_values-Ends fl (suc n) c depth bs f =
      let k = suc (length bs) in
      Ends-choose k (c == 0) _ _ (omega arith) (
        Ends->>= (length bs) k (decode_value fl n depth bs) _
          (decode_value-Ends fl n depth bs (omega (arith, f)))
          λ y ly.
            Ends->>= (suc (length y.1)) k (decode_values fl n (c - 1) depth y.1) _
              (decode_values-Ends fl n (c - 1) depth y.1 (omega (arith, f, ly)))
              λ z lz. omega (arith, ly, lz))

-- On every input, whatever it declares as lengths and counts, the decoder ends within a fuel of twice
-- the length of the input and one: it returns an error of the source's, or a value and fewer bytes.
pub decode_value_total :
    (fl : Floats) (depth : ℕ) (bs : Text) (n : ℕ)
    → 2 * length bs + 1 ≤ n
    → Ends (length bs) (decode_value fl n depth bs)
decode_value_total fl depth bs n f = decode_value-Ends fl n depth bs f

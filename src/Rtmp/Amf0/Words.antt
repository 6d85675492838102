-- ===== src/Rtmp/Amf0/Words.antt =====
-- internal/rtmp/amf0/amf0.go: what is read of the words and the texts that were written.
use qumo.Common.{
  ℕ, ◌+◌, ◌*◌, ◌/◌, ◌%◌, ◌<◌, ◌≡◌, refl, [], ◌∷◌, ◌++◌, Text, ok, length, length-append,
  take-append_self, drop-append_self, append_assoc, arith, ap, ◌∙◌,
}
use qumo.Rtmp.Amf0.{
  u16, u32, u64, read_byte, read_u16, read_u32, read_u64, read_full, read_utf8, read_long_utf8,
}

pub read_u16-u16 : (n : ℕ) (rest : Text) → n < 65_536 → read_u16 (u16 n ++ rest) ≡ ok (n, rest)
unfolding read_u16 u16 read_byte
read_u16-u16 n rest h =
    let same : n / 256 % 256 * 256 + n % 256 ≡ n = omega arith in ap (λ x. ok (x, rest)) same

read_u32-u16s :
    (a b : ℕ) (rest : Text)
    → a < 65_536
    → b < 65_536
    → read_u32 ((u16 a ++ u16 b) ++ rest) ≡ ok (a * 65_536 + b, rest)
unfolding read_u32
read_u32-u16s a b rest ha hb =
    ap read_u32 (append_assoc (u16 a) (u16 b) rest)
    ∙ ground (arith, read_u16-u16 a (u16 b ++ rest) ha, read_u16-u16 b rest hb)

pub read_u32-u32 :
    (n : ℕ) (rest : Text) → n < 4_294_967_296 → read_u32 (u32 n ++ rest) ≡ ok (n, rest)
unfolding u32
read_u32-u32 n rest h =
    let same : n / 65_536 % 65_536 * 65_536 + n % 65_536 ≡ n = omega arith in
    read_u32-u16s (n / 65_536 % 65_536) (n % 65_536) rest (omega arith) (omega arith)
    ∙ ap (λ x. ok (x, rest)) same

read_u64-u32s :
    (a b : ℕ) (rest : Text)
    → a < 4_294_967_296
    → b < 4_294_967_296
    → read_u64 ((u32 a ++ u32 b) ++ rest) ≡ ok (a * 4_294_967_296 + b, rest)
unfolding read_u64
read_u64-u32s a b rest ha hb =
    ap read_u64 (append_assoc (u32 a) (u32 b) rest)
    ∙ ground (arith, read_u32-u32 a (u32 b ++ rest) ha, read_u32-u32 b rest hb)

pub read_u64-u64 :
    (n : ℕ) (rest : Text) → n < 18_446_744_073_709_551_616 → read_u64 (u64 n ++ rest) ≡ ok (n, rest)
unfolding u64
read_u64-u64 n rest h =
    let same : n / 4_294_967_296 % 4_294_967_296 * 4_294_967_296 + n % 4_294_967_296 ≡ n =
      omega arith in
    read_u64-u32s (n / 4_294_967_296 % 4_294_967_296) (n % 4_294_967_296) rest (omega arith)
      (omega arith)
    ∙ ap (λ x. ok (x, rest)) same

read_full-text : (s rest : Text) → read_full (length s) (s ++ rest) ≡ ok (s, rest)
unfolding read_full
read_full-text s rest =
    ground (arith, length-append s rest, take-append_self s rest, drop-append_self s rest)

no_text : (s rest : Text) → length s ≡ 0 → (s ≡ []) × (s ++ rest ≡ rest)
no_text [] rest e = (refl, refl)
no_text (x ∷ s) rest e = ground arith

read_utf8-length :
    (n : ℕ) (s rest more : Text)
    → n < 65_536
    → (n ≡ 0 → (s ≡ []) × (more ≡ rest))
    → read_full n more ≡ ok (s, rest)
    → read_utf8 (u16 n ++ more) ≡ ok (s, rest)
unfolding read_utf8
read_utf8-length n s rest more h z e = ground (arith, read_u16-u16 n more h)

read_long_utf8-length :
    (n : ℕ) (s rest more : Text)
    → n < 4_294_967_296
    → (n ≡ 0 → (s ≡ []) × (more ≡ rest))
    → read_full n more ≡ ok (s, rest)
    → read_long_utf8 (u32 n ++ more) ≡ ok (s, rest)
unfolding read_long_utf8
read_long_utf8-length n s rest more h z e = ground (arith, read_u32-u32 n more h)

pub read_utf8-text :
    (s rest : Text) → length s < 65_536 → read_utf8 (u16 (length s) ++ (s ++ rest)) ≡ ok (s, rest)
read_utf8-text s rest h =
    read_utf8-length (length s) s rest (s ++ rest) h (no_text s rest) (read_full-text s rest)

pub read_long_utf8-text :
    (s rest : Text)
    → length s < 4_294_967_296
    → read_long_utf8 (u32 (length s) ++ (s ++ rest)) ≡ ok (s, rest)
read_long_utf8-text s rest h =
    read_long_utf8-length (length s) s rest (s ++ rest) h (no_text s rest) (read_full-text s rest)

-- ===== src/Token/Path/Within.antt =====
-- token/path.go, within: the prefix of a text against the segments of a directory.
use qumo.Common.{
  ◌≡◌, refl, Bool, true, false, ◌&&◌, ◌||◌, List, [], ◌∷◌, ◌++◌, Text, text_eq, arith, All, ap, ◌∙◌,
  sym,
}
use qumo.Token.Path.{slash, has_prefix, within}
use qumo.Token.Path.Segments.{NoSlash, IsSegment}
use qumo.Token.Path.Directories.{relative, dir_of, IsSegment-NoSlash}

-- `under xs ys`: the segments `xs` begin with the segments `ys`.
unfoldable pub under : List Text → List Text → Bool
under xs [] = true
under [] (y ∷ ys) = false
under (x ∷ xs) (y ∷ ys) = text_eq x y && under xs ys

has_prefix-segment :
    (x y rest more : Text)
    → NoSlash x
    → NoSlash y
    → has_prefix (x ++ slash ∷ rest) (y ++ slash ∷ more) ≡ (text_eq x y && has_prefix rest more)
unfolding has_prefix text_eq
has_prefix-segment [] [] rest more h k = refl
has_prefix-segment [] (b ∷ y) rest more h k = ground arith
has_prefix-segment (a ∷ x) [] rest more h k = ground arith
has_prefix-segment (a ∷ x) (b ∷ y) rest more h k =
    ground (arith, has_prefix-segment x y rest more h.1 k.1)

has_prefix-nil : (s : Text) → has_prefix s [] ≡ true
unfolding has_prefix
has_prefix-nil [] = refl
has_prefix-nil (x ∷ s) = refl

under-nil : (xs : List Text) → under xs [] ≡ true
unfolding under
under-nil [] = refl
under-nil (x ∷ xs) = refl

nil-has_prefix : (y more : Text) → has_prefix [] (y ++ slash ∷ more) ≡ false
unfolding has_prefix
nil-has_prefix [] more = refl
nil-has_prefix (b ∷ y) more = refl

under-cons :
    (x y : Text) (xs ys : List Text) → under (x ∷ xs) (y ∷ ys) ≡ (text_eq x y && under xs ys)
unfolding under
under-cons x y xs ys = refl

has_prefix-relative :
    (xs ys : List Text)
    → All NoSlash xs
    → All NoSlash ys
    → has_prefix (relative xs) (relative ys) ≡ under xs ys
has_prefix-relative xs [] h k = has_prefix-nil (relative xs) ∙ sym (under-nil xs)
has_prefix-relative [] (y ∷ ys) h k = nil-has_prefix y (relative ys) ∙ unfold under in refl
has_prefix-relative (x ∷ xs) (y ∷ ys) h k =
    has_prefix-segment x y (relative xs) (relative ys) h.0 k.0
    ∙ ap (λ b. text_eq x y && b) (has_prefix-relative xs ys h.1 k.1)
    ∙ sym (under-cons x y xs ys)

has_prefix-slash : (s t : Text) → has_prefix (slash ∷ s) (slash ∷ t) ≡ has_prefix s t
unfolding has_prefix
has_prefix-slash s t = refl

has_prefix-dir_of :
    (xs ys : List Text)
    → All NoSlash xs
    → All NoSlash ys
    → has_prefix (dir_of xs) (dir_of ys) ≡ under xs ys
has_prefix-dir_of xs ys h k =
    has_prefix-slash (relative xs) (relative ys) ∙ has_prefix-relative xs ys h k

abbrev pub hls_segment : Text
hls_segment = b'.' ∷ b'h' ∷ b'l' ∷ b's' ∷ []

-- A directory lies within another exactly when its segments begin with the other's segments, or with
-- the segment ".hls" and then the other's: never in the middle of a segment.
pub within-under :
    (xs ys : List Text)
    → All IsSegment xs
    → All IsSegment ys
    → within (dir_of xs) (dir_of ys) ≡ (under xs ys || under xs (hls_segment ∷ ys))
unfolding within
within-under xs ys h k =
    let hx = IsSegment-NoSlash xs h in
    let hy = IsSegment-NoSlash ys k in
    ap (λ b. b || has_prefix (dir_of xs) (dir_of (hls_segment ∷ ys)))
      (has_prefix-dir_of xs ys hx hy)
    ∙ ap (λ b. under xs ys || b) (has_prefix-dir_of xs (hls_segment ∷ ys) hx (omega arith, hy))

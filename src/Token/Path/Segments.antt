-- ===== src/Token/Path/Segments.antt =====
-- token/path.go: the segments of a normalized path.
use qumo.Common.{
  ℕ, ◌≡◌, ◌≢◌, refl, false, List, [], ◌∷◌, ◌++◌, ◌==◌, Text, text_eq, Result, ok, err, arith, All,
  Bool-cases, inl, inr,
}
use qumo.Token.Path.{PathError, cons_first, split, slash, has_any, is_dots, cons_ok, kept_segments}

abbrev pub NoSlash : Text → Type 0
NoSlash seg = All (λ x. x ≢ slash) seg

-- What normalizePath lets stand between two slashes.
pub record IsSegment (seg : Text) : Type 0 where
  pub not_empty : text_eq seg [] ≡ false
  pub no_slash : NoSlash seg
  pub no_dots : is_dots seg ≡ false
  pub no_wildcard : has_any seg ≡ false

cons_first-NoSlash :
    (x : ℕ) (segs : List Text) → x ≢ slash → All NoSlash segs → All NoSlash (cons_first x segs)
cons_first-NoSlash x [] h k = ((h, tt), tt)
cons_first-NoSlash x (seg ∷ segs) h k = ((h, k.0), k.1)

pub split-NoSlash : (p : Text) → All NoSlash (split slash p)
unfolding split
split-NoSlash [] = (tt, tt)
split-NoSlash (x ∷ xs) = elim (Bool-cases (x == slash)) [
  | inl e ↦ rw e (tt, split-NoSlash xs)
  | inr e ↦ rw e (cons_first-NoSlash x (split slash xs) (ground arith) (split-NoSlash xs))
]

-- Of a result that is there, every text is a segment.
abbrev pub Kept : Result PathError (List Text) → Type 0
Kept (ok kept) = All IsSegment kept
Kept (err e) = Unit {0}

cons_ok-Kept :
    (seg : Text) (r : Result PathError (List Text)) → IsSegment seg → Kept r → Kept (cons_ok seg r)
cons_ok-Kept seg (ok kept) h k = (h, k)
cons_ok-Kept seg (err e) h k = tt

pub kept_segments-Kept : (segs : List Text) → All NoSlash segs → Kept (kept_segments segs)
unfolding kept_segments
kept_segments-Kept [] h = tt
kept_segments-Kept (seg ∷ segs) h = elim (Bool-cases (text_eq seg [])) [
  | inl e ↦ rw e (kept_segments-Kept segs h.1)
  | inr e ↦ elim (Bool-cases (is_dots seg)) [
    | inl d ↦ rw (e, d) tt
    | inr d ↦ elim (Bool-cases (has_any seg)) [
      | inl w ↦ rw (e, d, w) tt
      | inr w ↦
          rw (e, d, w)
            (cons_ok-Kept seg (kept_segments segs)
              (record { not_empty = e; no_slash = h.0; no_dots = d; no_wildcard = w })
              (kept_segments-Kept segs h.1))
    ]
  ]
]

pub kept_segments-cons :
    (seg : Text) (segs kept : List Text)
    → IsSegment seg
    → kept_segments segs ≡ ok kept
    → kept_segments (seg ∷ segs) ≡ ok (seg ∷ kept)
unfolding kept_segments
kept_segments-cons seg segs kept h e = ground (arith, h.not_empty, h.no_dots, h.no_wildcard)

-- Segments are kept as they are.
pub kept_segments_self : (segs : List Text) → All IsSegment segs → kept_segments segs ≡ ok segs
kept_segments_self [] h = unfold kept_segments in refl
kept_segments_self (seg ∷ segs) h =
    kept_segments-cons seg segs segs h.0 (kept_segments_self segs h.1)

pub split-append_slash :
    (seg : Text) (rest : Text)
    → NoSlash seg
    → split slash (seg ++ slash ∷ rest) ≡ seg ∷ split slash rest
unfolding split
split-append_slash [] rest h = refl
split-append_slash (x ∷ seg) rest h = ground (arith, split-append_slash seg rest h.1)

pub split_self : (seg : Text) → NoSlash seg → split slash seg ≡ seg ∷ []
unfolding split
split_self [] h = refl
split_self (x ∷ seg) h = ground (arith, split_self seg h.1)

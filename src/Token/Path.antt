-- ===== src/Token/Path.antt =====
-- token/path.go: paths and directories as texts of bytes, and the segments they are made of.
pub mod Segments
pub mod Directories
pub mod Within
use qumo.Common.{
  ℕ, zero, suc, ◌≡◌, Bool, true, false, ◌&&◌, ◌||◌, List, [], ◌∷◌, ◌++◌, ◌==◌, if◌then◌else◌, Text,
  codes, text_eq, Result, ok, err, ◌>>=◌,
}

-- Why a path is refused: the segment, and which of the two rules it breaks.
pub data PathError : Type 0 where
  not_allowed : Text → PathError
  has_wildcard : Text → PathError

-- strings.Split(s, c) for a separator of one byte: at least one segment.
abbrev pub cons_first : ℕ → List Text → List Text
cons_first x [] = (x ∷ []) ∷ []
cons_first x (seg ∷ segs) = (x ∷ seg) ∷ segs

unfoldable pub split : ℕ → Text → List Text
split c [] = [] ∷ []
split c (x ∷ xs) = let rest = split c xs in if x == c then [] ∷ rest else cons_first x rest

-- strings.Join(segs, c).
unfoldable pub join : ℕ → List Text → Text
join c [] = []
join c (seg ∷ []) = seg
join c (seg ∷ (seg' ∷ segs)) = seg ++ c ∷ join c (seg' ∷ segs)

abbrev pub slash : ℕ
slash = b'/'

-- strings.ContainsAny(seg, "*{}").
unfoldable pub has_any : Text → Bool
has_any [] = false
has_any (x ∷ xs) = (x == b'*' || x == b'{' || x == b'}') || has_any xs

abbrev pub is_dots : Text → Bool
is_dots seg = text_eq seg (b'.' ∷ []) || text_eq seg (b'.' ∷ b'.' ∷ [])

abbrev pub cons_ok : Text → Result PathError (List Text) → Result PathError (List Text)
cons_ok seg (ok kept) = ok (seg ∷ kept)
cons_ok seg (err e) = err e

-- The loop of normalizePath. The first bad segment is the one that is named.
unfoldable pub kept_segments : List Text → Result PathError (List Text)
kept_segments [] = ok []
kept_segments (seg ∷ segs) =
    let rest = kept_segments segs in
    if text_eq seg []
    then rest
    else if is_dots seg
    then err (not_allowed seg)
    else if has_any seg
    then err (has_wildcard seg)
    else cons_ok seg rest

unfoldable pub normalize_path : Text → Result PathError Text
normalize_path p = kept_segments (split slash p) >>= λ kept. ok (join slash kept)

unfoldable pub directory : Text → Result PathError Text
directory p =
    normalize_path p >>= λ n. ok (if text_eq n [] then slash ∷ [] else slash ∷ n ++ slash ∷ [])

unfoldable pub at_and_beneath : Text → Result PathError (List Text)
at_and_beneath suffix = normalize_path suffix >>= λ s.
    ok (if text_eq s [] then (slash ∷ []) ∷ [] else (slash ∷ s) ∷ (slash ∷ s ++ slash ∷ []) ∷ [])

abbrev pub hls_directory : Text
hls_directory = b'/' ∷ b'.' ∷ b'h' ∷ b'l' ∷ b's' ∷ b'/' ∷ []

-- strings.HasPrefix(s, prefix).
unfoldable pub has_prefix : Text → Text → Bool
has_prefix s [] = true
has_prefix [] (y ∷ ys) = false
has_prefix (x ∷ xs) (y ∷ ys) = x == y && has_prefix xs ys

-- strings.TrimPrefix(s, "/").
abbrev pub trim_slash : Text → Text
trim_slash [] = []
trim_slash (x ∷ xs) = if x == slash then xs else x ∷ xs

unfoldable pub within : Text → Text → Bool
within root prefix = has_prefix root prefix || has_prefix root (hls_directory ++ trim_slash prefix)

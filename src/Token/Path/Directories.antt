-- ===== src/Token/Path/Directories.antt =====
-- token/path.go: directories are the segments of a path, each with a slash behind it, and one in front.
use qumo.Common.{
  ◌≡◌, refl, false, List, [], ◌∷◌, ◌++◌, if◌then◌else◌, Text, text_eq, ok, arith, All, ap,
  append_assoc, ◌∙◌, >>=-eq-ok,
}
use qumo.Token.Path.{split, join, slash, kept_segments, normalize_path, directory}
use qumo.Token.Path.Segments.{
  NoSlash, IsSegment, split-NoSlash, kept_segments-Kept, kept_segments_self, kept_segments-cons,
  split-append_slash, split_self,
}

-- Each segment with a slash behind it.
abbrev pub relative : List Text → Text
relative [] = []
relative (seg ∷ segs) = seg ++ slash ∷ relative segs

abbrev pub dir_of : List Text → Text
dir_of segs = slash ∷ relative segs

split-join :
    (seg : Text) (segs : List Text)
    → All NoSlash (seg ∷ segs)
    → split slash (join slash (seg ∷ segs)) ≡ seg ∷ segs
unfolding join
split-join seg [] h = split_self seg h.0
split-join seg (seg' ∷ segs) h =
    split-append_slash seg (join slash (seg' ∷ segs)) h.0
    ∙ ap (λ l. seg ∷ l) (split-join seg' segs h.1)

join-slash :
    (seg : Text) (segs : List Text) → join slash (seg ∷ segs) ++ slash ∷ [] ≡ relative (seg ∷ segs)
unfolding join
join-slash seg [] = refl
join-slash seg (seg' ∷ segs) =
    append_assoc seg (slash ∷ join slash (seg' ∷ segs)) (slash ∷ [])
    ∙ ap (λ l. seg ++ slash ∷ l) (join-slash seg' segs)

pub IsSegment-NoSlash : (segs : List Text) → All IsSegment segs → All NoSlash segs
IsSegment-NoSlash [] h = tt
IsSegment-NoSlash (seg ∷ segs) h = (h.0.no_slash, IsSegment-NoSlash segs h.1)

-- The segments of a directory are those that it was made of.
kept_segments-relative :
    (segs : List Text) → All IsSegment segs → kept_segments (split slash (relative segs)) ≡ ok segs
kept_segments-relative [] h = unfold kept_segments split text_eq in refl
kept_segments-relative (seg ∷ segs) h =
    ap kept_segments (split-append_slash seg (relative segs) h.0.no_slash)
    ∙ kept_segments-cons seg (split slash (relative segs)) segs h.0
        (kept_segments-relative segs h.1)

-- A normalized path is the segments that were kept, joined.
normalize_path-ok :
    (p : Text) {n : Text}
    → normalize_path p ≡ ok n
    → (segs : List Text) × All IsSegment segs × (n ≡ join slash segs)
unfolding normalize_path
normalize_path-ok p e =
    let (segs, k, j) = >>=-eq-ok (kept_segments (split slash p)) _ e in
    (segs, rw k at (kept_segments-Kept (split slash p) (split-NoSlash p)), ground arith)

normalize_path-join :
    (segs : List Text)
    → All IsSegment segs
    → normalize_path (join slash segs) ≡ ok (join slash segs)
normalize_path-join [] h = unfold normalize_path kept_segments split join text_eq in refl
normalize_path-join (seg ∷ segs) h =
    unfold normalize_path in
    rw (split-join seg segs (IsSegment-NoSlash (seg ∷ segs) h), kept_segments_self (seg ∷ segs) h)

-- A path that normalizePath returns is one that it keeps as it is.
pub normalize_path_idem : (p n : Text) → normalize_path p ≡ ok n → normalize_path n ≡ ok n
normalize_path_idem p n e =
    let (segs, h, j) = normalize_path-ok p e in rw j (normalize_path-join segs h)

join-nonempty :
    (seg : Text) (segs : List Text) → IsSegment seg → text_eq (join slash (seg ∷ segs)) [] ≡ false
unfolding join text_eq
join-nonempty [] [] h = h.not_empty
join-nonempty [] (seg' ∷ segs) h = refl
join-nonempty (x ∷ seg) [] h = refl
join-nonempty (x ∷ seg) (seg' ∷ segs) h = refl

dir-join :
    (segs : List Text)
    → All IsSegment segs
    → (if text_eq (join slash segs) [] then slash ∷ [] else slash ∷ join slash segs ++ slash ∷ [])
      ≡ dir_of segs
dir-join [] h = unfold join text_eq in refl
dir-join (seg ∷ segs) h =
    rw (join-nonempty seg segs h.0) (ap (λ l. slash ∷ l) (join-slash seg segs))

-- What Directory returns is the directory of some segments, in the one spelling of it.
pub directory-dir_of :
    (p d : Text) → directory p ≡ ok d → (segs : List Text) × All IsSegment segs × (d ≡ dir_of segs)
unfolding directory
directory-dir_of p d e =
    let (n, k, j) = >>=-eq-ok (normalize_path p) _ e in
    let (segs, h, i) = normalize_path-ok p k in (segs, h, cc (i, j, dir-join segs h))

kept_segments-dir_of :
    (segs : List Text) → All IsSegment segs → kept_segments (split slash (dir_of segs)) ≡ ok segs
kept_segments-dir_of segs h =
    ap kept_segments (split-append_slash [] (relative segs) tt)
    ∙ unfold kept_segments text_eq in kept_segments-relative segs h

pub directory-dir_of_self :
    (segs : List Text) → All IsSegment segs → directory (dir_of segs) ≡ ok (dir_of segs)
unfolding directory normalize_path
directory-dir_of_self segs h = rw (kept_segments-dir_of segs h, dir-join segs h)

-- Directory gives one spelling to each directory: what it returns starts and ends in a slash, has
-- between two slashes no empty segment, no "." or ".." and none with a wildcard, and Directory
-- keeps it as it is.
pub directory_canonical :
    (p d : Text)
    → directory p ≡ ok d
    → ((segs : List Text) × All IsSegment segs × (d ≡ dir_of segs)) × (directory d ≡ ok d)
directory_canonical p d e =
    let (segs, h, i) = directory-dir_of p d e in ((segs, h, i), rw i (directory-dir_of_self segs h))

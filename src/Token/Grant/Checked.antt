-- ===== src/Token/Grant/Checked.antt =====
-- token/grant.go, checked: what a token may carry under a key that is confined to a prefix.
use qumo.Common.{
  ◌≡◌, ◌≢◌, ◌↔◌, refl, true, false, ◌||◌, none, List, [], ◌∷◌, Text, text_eq, text_eq_iff, ok, err,
  arith, Among, inl, inr, sym, ◌∙◌, All, Result-cases,
}
use qumo.Token.Path.{slash, split, directory, within, has_prefix}
use qumo.Token.Path.Segments.{IsSegment}
use qumo.Token.Path.Directories.{dir_of, directory-dir_of}
use qumo.Token.Path.Within.{under, hls_segment, within-under}
use qumo.Token.Grant.{
  Action, publish, subscribe, create, post, redact, Grant, Moqt, forbidden, patterns, actions,
  any_dots, check_pattern, check_patterns, check_actions, is_directory, checked,
}

-- A pattern that checkPattern accepts parses under the root, and has no segment "." or "..".
pub record IsPattern (m : Moqt) (root s : Text) : Type 0 where
  pub parses : m.parse root s ≢ none
  pub no_dots : any_dots (split slash s) ≡ false

check_patterns→ :
    (m : Moqt) (root : Text) (ss : List Text) (s : Text)
    → check_patterns m root ss ≡ true
    → Among s ss
    → IsPattern m root s
unfolding check_patterns check_pattern
check_patterns→ m root [] s h among = absurd among
check_patterns→ m root (t ∷ ss) s h (inl e) = rw e (ground arith)
check_patterns→ m root (t ∷ ss) s h (inr among) = check_patterns→ m root ss s (ground arith) among

check_actions→ :
    (m : Moqt) (g : Grant) (a : Action) (s : Text)
    → check_actions m g actions ≡ true
    → Among s (patterns g a)
    → IsPattern m g.root s
unfolding check_actions
check_actions→ m g publish s h among =
    check_patterns→ m g.root (patterns g publish) s (ground arith) among
check_actions→ m g subscribe s h among =
    check_patterns→ m g.root (patterns g subscribe) s (ground arith) among
check_actions→ m g create s h among =
    check_patterns→ m g.root (patterns g create) s (ground arith) among
check_actions→ m g post s h among =
    check_patterns→ m g.root (patterns g post) s (ground arith) among
check_actions→ m g redact s h among =
    check_patterns→ m g.root (patterns g redact) s (ground arith) among

pub is_directory→ : (m : Moqt) (root : Text) → is_directory m root ≡ true → directory root ≡ ok root
unfolding is_directory
is_directory→ m root h = elim (Result-cases (directory root)) [
  | inl (d, e) ↦ ground (arith, text_eq_iff d root)
  | inr (x, e) ↦ ground arith
]

-- The root of a grant that has one, under a key whose prefix is the directory of the segments `ys`.
pub record IsConfined (m : Moqt) (ys : List Text) (g : Grant) : Type 0 where
  pub segments : List Text
  pub are_segments : All IsSegment segments
  pub root_is : g.root ≡ dir_of segments
  pub beneath : (under segments ys || under segments (hls_segment ∷ ys)) ≡ true
  pub well_formed : (a : Action) (s : Text) → Among s (patterns g a) → IsPattern m g.root s

pub checked-root :
    (m : Moqt) (prefix : Text) (g g' : Grant)
    → checked m prefix g ≡ ok g'
    → text_eq g.root [] ≡ false
    → (is_directory m g.root ≡ true)
      × (check_actions m g actions ≡ true)
      × (within g.root prefix ≡ true)
unfolding checked
checked-root m prefix g g' h n = ground arith

pub checked-same : (m : Moqt) (prefix : Text) (g g' : Grant) → checked m prefix g ≡ ok g' → g' ≡ g
unfolding checked
checked-same m prefix g g' h = ground arith

-- A grant that has a root, and that passes the check of a key confined to the directory of the
-- segments `ys`, is returned as it is; its root is a directory whose segments begin with `ys`, or with
-- ".hls" and `ys`; and every pattern of every action parses beneath that root and has no segment "."
-- or "..".
pub checked-IsConfined :
    (m : Moqt) (ys : List Text) (g g' : Grant)
    → All IsSegment ys
    → text_eq g.root [] ≡ false
    → checked m (dir_of ys) g ≡ ok g'
    → (g' ≡ g) × IsConfined m ys g
checked-IsConfined m ys g g' hy n h =
    let (d, a, w) = checked-root m (dir_of ys) g g' h n in
    let (xs, hx, e) = directory-dir_of g.root g.root (is_directory→ m g.root d) in
    (
      checked-same m (dir_of ys) g g' h,
      record {
        segments = xs;
        are_segments = hx;
        root_is = e;
        beneath = sym (within-under xs ys hx hy) ∙ (rw e at w);
        well_formed = λ act s among. check_actions→ m g act s a among;
      },
    )

within-any : (xs : List Text) → within (dir_of xs) (slash ∷ []) ≡ true
unfolding within has_prefix
within-any [] = refl
within-any (x ∷ xs) = refl

within-slash : (d : Text) → directory d ≡ ok d → within d (slash ∷ []) ≡ true
unfolding within has_prefix
within-slash d h = let (xs, hx, e) = directory-dir_of d d h in rw e (within-any xs)

is_directory-within :
    (m : Moqt) (root : Text) → is_directory m root ≡ true → within root (slash ∷ []) ≡ true
is_directory-within m root h = within-slash root (is_directory→ m root h)

checked-forbidden→ :
    (m : Moqt) (prefix : Text) (g : Grant)
    → checked m prefix g ≡ err forbidden
    → (is_directory m g.root ≡ true → within g.root (slash ∷ []) ≡ true)
    → (text_eq g.root [] ≡ false)
      × (within g.root prefix ≡ false)
      × (checked m (slash ∷ []) g ≡ ok g)
unfolding checked
checked-forbidden→ m prefix g h top = ground arith

→checked-forbidden :
    (m : Moqt) (prefix : Text) (g : Grant)
    → text_eq g.root [] ≡ false
    → within g.root prefix ≡ false
    → checked m (slash ∷ []) g ≡ ok g
    → checked m prefix g ≡ err forbidden
unfolding checked
→checked-forbidden m prefix g n w h = ground arith

-- A grant is refused as forbidden, not as invalid, exactly when it has a root outside the key's prefix
-- and a key with the prefix "/" could sign it.
checked-forbidden :
    (m : Moqt) (prefix : Text) (g : Grant)
    → (checked m prefix g ≡ err forbidden) ↔ (
        (text_eq g.root [] ≡ false)
        × (within g.root prefix ≡ false)
        × (checked m (slash ∷ []) g ≡ ok g))
checked-forbidden m prefix g = (
  λ h. checked-forbidden→ m prefix g h (is_directory-within m g.root),
  λ (n, w, h). →checked-forbidden m prefix g n w h,
)

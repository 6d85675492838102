-- ===== src/Token/Grant.antt =====
-- token/grant.go: what a token allows its bearer. The MoQ library, gomoqt, is a parameter.
pub mod Allows
pub mod Checked
use qumo.Common.{
  ℕ, zero, suc, Bool, true, false, not, ◌&&◌, ◌||◌, Option, none, some, List, [], ◌∷◌, ◌++◌, ◌==◌,
  if◌then◌else◌, Text, text_eq, Result, ok, err, ◌>>=◌,
}
use qumo.Token.Path.{
  PathError, slash, split, is_dots, trim_slash, normalize_path, directory, within,
}

pub data Action : Type 0 where
  publish subscribe create post redact : Action

-- The embedded moqt.Grant's Root, Publish, Subscribe and MaxAge, and the funnel's own fields.
pub record Grant : Type 0 where
  pub root : Text
  pub publishes : List Text
  pub subscribes : List Text
  pub max_age : ℕ
  pub creates : List Text
  pub posts : List Text
  pub redacts : List Text
  pub subject : Text

unfoldable pub empty_grant : Grant
empty_grant = record {
  root = [];
  publishes = [];
  subscribes = [];
  max_age = 0;
  creates = [];
  posts = [];
  redacts = [];
  subject = [];
}

-- An action that is none of these, for which the source returns nil, is not representable.
unfoldable pub patterns : Grant → Action → List Text
patterns g publish = g.publishes
patterns g subscribe = g.subscribes
patterns g create = g.creates
patterns g post = g.posts
patterns g redact = g.redacts

abbrev pub actions : List Action
actions = publish ∷ subscribe ∷ create ∷ post ∷ redact ∷ []

-- token/token.go: ErrInvalid and ErrForbidden, which every refusal wraps.
pub data TokenError : Type 0 where
  invalid forbidden : TokenError

-- moqt.ParseGrantPattern, Pattern.Match on a broadcast path, and Grant.Validate of the embedded grant.
pub record Moqt : Type 1 where
  pub Pattern : Type 0
  pub parse : Text → Text → Option Pattern
  pub matches : Pattern → Text → Bool
  pub validate : Text → List Text → List Text → Bool

abbrev pub is_empty {ℓ} : {A : Type ℓ} → List A → Bool
is_empty [] = true
is_empty (x ∷ xs) = false

-- Whether a segment of a pattern is "." or "..".
unfoldable pub any_dots : List Text → Bool
any_dots [] = false
any_dots (seg ∷ segs) = is_dots seg || any_dots segs

unfoldable pub no_patterns : Grant → List Action → Bool
no_patterns g [] = true
no_patterns g (a ∷ as') = is_empty (patterns g a) && no_patterns g as'

module _ (m : Moqt) where
  open m use {parse, matches, validate}

  -- The loop of Allows over the patterns of an action.
  unfoldable pub any_matches : Text → List Text → Text → Bool
  any_matches root [] bp = false
  any_matches root (s ∷ ss) bp =
      let rest = any_matches root ss bp in
      elim (parse root s) [
        | none ↦ rest
        | some pattern_ ↦ if matches pattern_ bp then true else rest
      ]

  unfoldable pub allows : Grant → Action → Text → Bool
  allows g action path = elim (normalize_path path) [
    | err e ↦ false
    | ok p ↦
        if text_eq p (trim_slash path)
        then any_matches g.root (patterns g action) (slash ∷ p)
        else false
  ]

  unfoldable pub check_pattern : Text → Text → Bool
  check_pattern root s = elim (parse root s) [
    | none ↦ false
    | some _ ↦ not (any_dots (split slash s))
  ]

  unfoldable pub check_patterns : Text → List Text → Bool
  check_patterns root [] = true
  check_patterns root (s ∷ ss) = check_pattern root s && check_patterns root ss

  unfoldable pub check_actions : Grant → List Action → Bool
  check_actions g [] = true
  check_actions g (a ∷ as') = check_patterns g.root (patterns g a) && check_actions g as'

  -- `root, err := Directory(g.Root); err != nil || root != g.Root`
  unfoldable pub is_directory : Text → Bool
  is_directory root = elim (directory root) [ err e ↦ false | ok d ↦ text_eq d root ]

  unfoldable pub checked : Text → Grant → Result TokenError Grant
  checked prefix g =
      if not (g.max_age == 0)
      then err invalid
      else if text_eq g.root []
      then (if no_patterns g actions then ok g else err invalid)
      else if not (is_directory g.root)
      then err invalid
      else if not (check_actions g actions)
      then err invalid
      else if not (validate g.root g.publishes g.subscribes)
      then err invalid
      else if within g.root prefix
      then ok g
      else err forbidden

-- ===== src/Token/Grant/Allows.antt =====
-- token/grant.go, Allows: the patterns of a grant against a broadcast.
use qumo.Common.{
  ◌≡◌, ◌↔◌, refl, true, some, List, [], ◌∷◌, Text, text_eq_iff, text_eq_self, ok, arith, Among, inl,
  inr, Option-cases, Bool-cases, Result-cases,
}
use qumo.Token.Path.{slash, trim_slash, normalize_path}
use qumo.Token.Grant.{Action, Grant, Moqt, patterns, any_matches, allows}

-- A pattern of the list that parses under the root and matches the broadcast.
abbrev pub Matching : Moqt → Text → List Text → Text → Type 0
Matching m root ss bp =
    (s : Text) × (p : m.Pattern) × Among s ss × (m.parse root s ≡ some p) × (m.matches p bp ≡ true)

Matching-tail :
    (m : Moqt) (root s bp : Text) (ss : List Text)
    → Matching m root ss bp
    → Matching m root (s ∷ ss) bp
Matching-tail m root s bp ss (t, p, among, q, r) = (t, p, inr among, q, r)

any_matches→ :
    (m : Moqt) (root : Text) (ss : List Text) (bp : Text)
    → any_matches m root ss bp ≡ true
    → Matching m root ss bp
unfolding any_matches
any_matches→ m root [] bp h = cc
any_matches→ m root (s ∷ ss) bp h = elim (Option-cases (m.parse root s)) [
  | inl e ↦ Matching-tail m root s bp ss (any_matches→ m root ss bp (ground arith))
  | inr (p, e) ↦ elim (Bool-cases (m.matches p bp)) [
    | inl q ↦ (s, p, inl refl, e, q)
    | inr q ↦ Matching-tail m root s bp ss (any_matches→ m root ss bp (ground arith))
  ]
]

→any_matches :
    (m : Moqt) (root : Text) (ss : List Text) (bp s : Text) (p : m.Pattern)
    → Among s ss
    → m.parse root s ≡ some p
    → m.matches p bp ≡ true
    → any_matches m root ss bp ≡ true
unfolding any_matches
→any_matches m root [] bp s p among e q = absurd among
→any_matches m root (t ∷ ss) bp s p (inl i) e q = ground arith
→any_matches m root (t ∷ ss) bp s p (inr i) e q =
    ground (arith, →any_matches m root ss bp s p i e q)

allows→ :
    (m : Moqt) (g : Grant) (action : Action) (path : Text)
    → allows m g action path ≡ true
    → (normalize_path path ≡ ok (trim_slash path))
      × (any_matches m g.root (patterns g action) (slash ∷ trim_slash path) ≡ true)
unfolding allows
allows→ m g action path h = elim (Result-cases (normalize_path path)) [
  | inr (e, n) ↦ ground arith
  | inl (p, n) ↦ ground (arith, text_eq_iff p (trim_slash path))
]

→allows :
    (m : Moqt) (g : Grant) (action : Action) (path : Text)
    → normalize_path path ≡ ok (trim_slash path)
    → any_matches m g.root (patterns g action) (slash ∷ trim_slash path) ≡ true
    → allows m g action path ≡ true
unfolding allows
→allows m g action path e h = ground (arith, text_eq_self (trim_slash path))

-- Allows answers true exactly when the path is in the spelling that normalizePath gives, up to one
-- slash in front, and some pattern of the action parses under the grant's root and matches the
-- broadcast at that path.
pub allows_iff :
    (m : Moqt) (g : Grant) (action : Action) (path : Text)
    → (allows m g action path ≡ true) ↔ (
        (normalize_path path ≡ ok (trim_slash path))
        × Matching m g.root (patterns g action) (slash ∷ trim_slash path))
allows_iff m g action path = (
  λ h. let (n, a) = allows→ m g action path h in (n, any_matches→ m g.root (patterns g action) _ a),
  λ (n, (s, p, among, q, r)).
      →allows m g action path n (→any_matches m g.root (patterns g action) _ s p among q r),
)

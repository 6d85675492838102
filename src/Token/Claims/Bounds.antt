-- ===== src/Token/Claims/Bounds.antt =====
-- token/token.go: the bounds of what an accepted token grants, in paths and in time.
use qumo.Common.{
  ◌+◌, ◌<◌, ◌≤◌, ◌≡◌, Bool, true, false, ◌||◌, Option, some, ok, arith, ◌⊎◌, inl, inr, Option-cases,
  Bool-cases, Result-cases, >>=-mono, Text, text_eq, text_eq_iff, List, [], ◌∷◌, All, sym, ◌∙◌,
  subst,
}
use qumo.Token.Path.{split, directory, within}
use qumo.Token.Path.Segments.{IsSegment}
use qumo.Token.Path.Directories.{dir_of, directory-dir_of, directory_canonical}
use qumo.Token.Path.Within.{under, hls_segment, within-under}
use qumo.Token.Grant.{Grant, Moqt, checked, no_patterns, actions}
use qumo.Token.Grant.Checked.{checked-root, checked-same, is_directory→}
use qumo.Token.Claims.{
  Time, leeway, max_lifetime, Claims, PathAuth, Key, Verified, Wire, check_time, check_dates,
  grant_of, required, guard, three_parts, grant_from, verify_claims, verify_signature, verify,
  member, path_auth_name, all_members, allowed_claims,
}
use qumo.Token.Claims.Sound.{verify-IsAccepted}

-- A directory at or beneath the one of the segments `ys`, or its mirror beneath ".hls".
abbrev pub Beneath : List Text → Text → Type 0
Beneath ys root =
    (xs : List Text) × All IsSegment xs
    × (root ≡ dir_of xs)
    × ((under xs ys || under xs (hls_segment ∷ ys)) ≡ true)

-- A grant that lies beneath the directory of `ys`, or has no root and no patterns.
abbrev pub Confined : List Text → Grant → Type 0
Confined ys g = ((g.root ≡ []) × (no_patterns g actions ≡ true)) ⊎ Beneath ys g.root

within-Beneath :
    (ys : List Text) (root : Text)
    → All IsSegment ys
    → directory root ≡ ok root
    → within root (dir_of ys) ≡ true
    → Beneath ys root
within-Beneath ys root hy d w =
    let (xs, hx, e) = directory-dir_of root root d in
    (xs, hx, e, sym (within-under xs ys hx hy) ∙ (subst (λ r. within r (dir_of ys) ≡ true) e w))

checked-no_root :
    (m : Moqt) (prefix : Text) (g g' : Grant)
    → checked m prefix g ≡ ok g'
    → text_eq g.root [] ≡ true
    → no_patterns g actions ≡ true
unfolding checked
checked-no_root m prefix g g' h n = ground arith

checked-Confined :
    (m : Moqt) (ys : List Text) (g g' : Grant)
    → All IsSegment ys
    → checked m (dir_of ys) g ≡ ok g'
    → Confined ys g'
checked-Confined m ys g g' hy h = subst (Confined ys) (sym (checked-same m (dir_of ys) g g' h)) here
  where
    here : Confined ys g
    here = elim (Bool-cases (text_eq g.root [])) [
      | inl e ↦ inl ((text_eq_iff g.root []).0 e, checked-no_root m (dir_of ys) g g' h e)
      | inr e ↦
          let (d, a, w) = checked-root m (dir_of ys) g g' h e in
          inr (within-Beneath ys g.root hy (is_directory→ m g.root d) w)
    ]

grant_of→ :
    (pa : PathAuth) (prefix : Text) (g : Grant)
    → grant_of pa prefix ≡ ok g
    → (root : Text) × (directory pa.root ≡ ok root) × (within root prefix ≡ true) × (g.root ≡ root)
unfolding grant_of
grant_of→ pa prefix g h = elim (Result-cases (directory pa.root)) [
  | inr (e, d) ↦ ground arith
  | inl (root, d) ↦ (root, d, ground arith, ground arith)
]

grant_of-Confined :
    (pa : PathAuth) (ys : List Text) (g : Grant)
    → All IsSegment ys
    → grant_of pa (dir_of ys) ≡ ok g
    → Confined ys g
grant_of-Confined pa ys g hy h =
    let (root, d, w, e) = grant_of→ pa (dir_of ys) g h in
    inr (
      subst (Beneath ys) (sym e)
        (within-Beneath ys root hy (directory_canonical pa.root root d).1 w))

grant_from→ :
    (m : Moqt) (w : Wire) (names : List Text) (c : Claims) (prefix : Text) (g : Grant)
    → grant_from m w names c prefix ≡ ok g
    → (checked m prefix c.grant ≡ ok g)
      ⊎ ((pa : PathAuth) × (c.path_auth ≡ some pa) × (grant_of pa prefix ≡ ok g))
unfolding grant_from
grant_from→ m w names c prefix g h = elim (Option-cases c.path_auth) [
  | inl e ↦ inl (ground arith)
  | inr (pa, e) ↦ elim (Bool-cases (member path_auth_name names)) [
    | inl p ↦ inr (pa, e, ground arith)
    | inr p ↦ inl (ground arith)
  ]
]

grant_from-Confined :
    (m : Moqt) (w : Wire) (names : List Text) (c : Claims) (ys : List Text) (g : Grant)
    → All IsSegment ys
    → grant_from m w names c (dir_of ys) ≡ ok g
    → Confined ys g
grant_from-Confined m w names c ys g hy h = elim (grant_from→ m w names c (dir_of ys) g h) [
  | inl e ↦ checked-Confined m ys c.grant g hy e
  | inr (pa, p, e) ↦ grant_of-Confined pa ys g hy e
]

-- A key confined to a directory signs for nothing outside it: the grant of an accepted token, in
-- either form of claims, has no root and no patterns, or a root whose segments begin with those of
-- the key's prefix, or with ".hls" and those.
pub verify-Confined :
    (m : Moqt) (w : Wire) (token : Text) (keys : Text → Option Key) (now : Time) (expiry : Bool)
    (v : Verified) (ys : List Text)
    → All IsSegment ys
    → v.key.prefix ≡ dir_of ys
    → verify m w token keys now expiry ≡ ok v
    → Confined ys v.grant
verify-Confined m w token keys now expiry v ys hy p e =
    let a = verify-IsAccepted m w token keys now expiry v e in
    grant_from-Confined m w a.claims.names a.claims.c ys v.grant hy (
      subst (λ prefix. grant_from m w a.claims.names a.claims.c prefix ≡ ok v.grant) p
        a.claims.granted)

-- A token that Verify accepts is not past its expiry by more than the leeway, and expires within the
-- longest lifetime and the leeway from now: a leaked one is of use no longer.
verify_expires :
    (m : Moqt) (w : Wire) (token : Text) (keys : Text → Option Key) (now : Time) (v : Verified)
    → verify m w token keys now true ≡ ok v
    → (now < v.expires_at + leeway) × (v.expires_at ≤ now + leeway + max_lifetime)
verify_expires m w token keys now v e =
    let f = (verify-IsAccepted m w token keys now true v e).claims.dated.in_force in
    (ground (arith, f), ground (arith, f))

check_time_live :
    (now : Time) (c : Claims) (e : Time)
    → check_time now true c ≡ ok e
    → check_time now false c ≡ ok e
unfolding check_time check_dates
check_time_live now c e h = ground arith

verify_claims_live :
    (m : Moqt) (w : Wire) (body : Text) (key : Key) (now : Time) (v : Verified)
    → verify_claims m w body key now true ≡ ok v
    → verify_claims m w body key now false ≡ ok v
unfolding verify_claims
verify_claims_live m w body key now v =
    >>=-mono (required (w.members body)) (required (w.members body)) _ _ v (λ a p. p)
      λ names.
        >>=-mono (guard (all_members names allowed_claims)) _ _ _ v (λ a p. p)
          λ u.
            >>=-mono (required (w.claims body)) _ _ _ v (λ a p. p)
              λ c.
                >>=-mono (check_time now true c) (check_time now false c) _ _ v
                  (check_time_live now c) λ exp p. p

-- VerifyLive accepts every token that Verify accepts, with the same result.
verify_live :
    (m : Moqt) (w : Wire) (token : Text) (keys : Text → Option Key) (now : Time) (v : Verified)
    → verify m w token keys now true ≡ ok v
    → verify m w token keys now false ≡ ok v
unfolding verify
verify_live m w token keys now v =
    >>=-mono (required (three_parts (split b'.' token))) _ _ _ v (λ a p. p)
      λ (head, body, tail).
        >>=-mono (verify_signature m w head body tail keys) _ _ _ v (λ a p. p)
          λ key. verify_claims_live m w body key now v

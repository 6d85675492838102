-- ===== src/Token/Claims/Live.antt =====
-- token/token.go, VerifyLive: a token at a later time and under a later key set.
use qumo.Common.{
  ◌≤◌, ◌≡◌, Bool, false, not, Option, some, ok, >>=-mono, arith, Text, text_eq, codes, Option-cases,
  inl, inr,
}
use qumo.Token.Path.{split}
use qumo.Token.Grant.{Moqt}
use qumo.Token.Claims.{
  Time, Claims, Key, Verified, Wire, check_time, check_dates, required, guard, three_parts,
  all_members, allowed_claims, verify_claims, verify_signature, verify,
}

-- Every key of the first set is in the second, unchanged.
abbrev pub KeepsKeys : (Text → Option Key) → (Text → Option Key) → Type 0
KeepsKeys keys keys' = (kid : Text) (key : Key) → keys kid ≡ some key → keys' kid ≡ some key

check_time_later :
    (now later : Time) (expiry : Bool) (c : Claims) (e : Time)
    → now ≤ later
    → check_time now expiry c ≡ ok e
    → check_time later false c ≡ ok e
unfolding check_time check_dates
check_time_later now later expiry c e le h = ground arith

verify_claims_later :
    (m : Moqt) (w : Wire) (body : Text) (key : Key) (now later : Time) (expiry : Bool)
    (v : Verified)
    → now ≤ later
    → verify_claims m w body key now expiry ≡ ok v
    → verify_claims m w body key later false ≡ ok v
unfolding verify_claims
verify_claims_later m w body key now later expiry v le =
    >>=-mono (required (w.members body)) (required (w.members body)) _ _ v (λ a p. p)
      λ names.
        >>=-mono (guard (all_members names allowed_claims)) _ _ _ v (λ a p. p)
          λ u.
            >>=-mono (required (w.claims body)) _ _ _ v (λ a p. p)
              λ c.
                >>=-mono (check_time now expiry c) (check_time later false c) _ _ v
                  (λ e p. check_time_later now later expiry c e le p) λ exp p. p

required-keeps :
    (o o' : Option Key)
    → ((key : Key) → o ≡ some key → o' ≡ some key)
    → (key : Key) → required o ≡ ok key
    → required o' ≡ ok key
required-keeps o o' k key h = elim (Option-cases o) [
  | inl e ↦ ground arith
  | inr (x, e) ↦ ground (arith, k x)
]

verify_signature_keeps :
    (m : Moqt) (w : Wire) (head body tail : Text) (keys keys' : Text → Option Key) (key : Key)
    → KeepsKeys keys keys'
    → verify_signature m w head body tail keys ≡ ok key
    → verify_signature m w head body tail keys' ≡ ok key
unfolding verify_signature
verify_signature_keeps m w head body tail keys keys' key k =
    >>=-mono (required (w.header head)) _ _ _ key (λ a p. p)
      λ h.
        >>=-mono (guard (not h.has_crit)) _ _ _ key (λ a p. p)
          λ u.
            >>=-mono (guard (text_eq h.alg (codes "EdDSA"))) _ _ _ key (λ a p. p)
              λ u'.
                >>=-mono (required (keys h.kid)) (required (keys' h.kid)) _ _ key
                  (required-keeps (keys h.kid) (keys' h.kid) (k h.kid)) λ key' p. p

-- A token that was accepted once, by Verify or VerifyLive, is accepted by VerifyLive at any later time
-- with the same result, past its expiry too, under every key set that still has the keys.
pub verify_later :
    (m : Moqt) (w : Wire) (token : Text) (keys keys' : Text → Option Key) (now later : Time)
    (expiry : Bool) (v : Verified)
    → KeepsKeys keys keys'
    → now ≤ later
    → verify m w token keys now expiry ≡ ok v
    → verify m w token keys' later false ≡ ok v
unfolding verify
verify_later m w token keys keys' now later expiry v k le =
    >>=-mono (required (three_parts (split b'.' token))) _ _ _ v (λ a p. p)
      λ (head, body, tail).
        >>=-mono (verify_signature m w head body tail keys)
          (verify_signature m w head body tail keys') _ _ v
          (λ key p. verify_signature_keeps m w head body tail keys keys' key k p)
          λ key p. verify_claims_later m w body key now later expiry v le p

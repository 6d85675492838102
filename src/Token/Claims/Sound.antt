-- ===== src/Token/Claims/Sound.antt =====
-- token/token.go, Verify and VerifyLive: what an accepted token is, and where its grant lies.
use qumo.Common.{
  ◌≡◌, refl, Bool, true, false, not, Option, none, some, ok, arith, >>=-eq-ok, Text, text_eq, codes,
  List, [], ◌∷◌, ◌++◌, sym, ◌∙◌, ap, subst,
}
use qumo.Token.Path.{split}
use qumo.Token.Grant.{Moqt}
use qumo.Token.Claims.{
  Time, Claims, Key, Verified, Header, Wire, check_time, required, guard, three_parts, all_members,
  allowed_claims, grant_from, verify_claims, verify_signature, verify,
}
use qumo.Token.Claims.Dates.{Dated, check_time_iff}

required→ {ℓ} : {A : Type ℓ} (o : Option A) {a : A} → required o ≡ ok a → o ≡ some a
required→ none h = cc
required→ (some b) h = ground arith

guard→ : (b : Bool) {u : Unit {0}} → guard b ≡ ok u → b ≡ true
guard→ true h = refl
guard→ false h = cc

module _ (m : Moqt) (w : Wire) where
  -- The signature of a token's three parts verifies under a trusted key that its header names.
  pub record IsSigned (head body tail : Text) (keys : Text → Option Key) (key : Key) : Type 0 where
    pub h : Header
    pub sig : Text
    pub header_is : w.header head ≡ some h
    pub no_crit : h.has_crit ≡ false
    pub alg_is : text_eq h.alg (codes "EdDSA") ≡ true
    pub trusted : keys h.kid ≡ some key
    pub signature_is : w.signature tail ≡ some sig
    pub verifies : w.signed key.public_key (head ++ b'.' ∷ body) sig ≡ true

  verify_signature→ :
      (head body tail : Text) (keys : Text → Option Key) (key : Key)
      → verify_signature m w head body tail keys ≡ ok key
      → IsSigned head body tail keys key
  unfolding verify_signature
  verify_signature→ head body tail keys key e =
      let (h, e1, r1) = >>=-eq-ok (required (w.header head)) _ e in
      let (_, e2, r2) = >>=-eq-ok (guard (not h.has_crit)) _ r1 in
      let (_, e3, r3) = >>=-eq-ok (guard (text_eq h.alg (codes "EdDSA"))) _ r2 in
      let (k, e4, r4) = >>=-eq-ok (required (keys h.kid)) _ r3 in
      let (sig, e5, r5) = >>=-eq-ok (required (w.signature tail)) _ r4 in
      let (_, e6, r6) = >>=-eq-ok (guard (w.signed k.public_key (head ++ b'.' ∷ body) sig)) _ r5 in
      let same : k ≡ key = ground arith in
      record {
        h = h;
        sig = sig;
        header_is = required→ _ e1;
        no_crit = ground (arith, guard→ _ e2);
        alg_is = guard→ _ e3;
        trusted = required→ _ e4 ∙ ap some same;
        signature_is = required→ _ e5;
        verifies =
            subst (λ (x : Key). w.signed x.public_key (head ++ b'.' ∷ body) sig ≡ true) same
              (guard→ _ e6);
      }

  -- The claims of a token, by its key, are the ones that it is verified with.
  pub record HasClaims (body : Text) (key : Key) (now : Time) (expiry : Bool) (v : Verified)
      : Type 0 where
    pub names : List Text
    pub c : Claims
    pub members_are : w.members body ≡ some names
    pub all_allowed : all_members names allowed_claims ≡ true
    pub claims_are : w.claims body ≡ some c
    pub dated : Dated now expiry c v.expires_at
    pub granted : grant_from m w names c key.prefix ≡ ok v.grant
    pub same_id : v.id ≡ c.id
    pub same_key : v.key ≡ key

  verify_claims→ :
      (body : Text) (key : Key) (now : Time) (expiry : Bool) (v : Verified)
      → verify_claims m w body key now expiry ≡ ok v
      → HasClaims body key now expiry v
  unfolding verify_claims
  verify_claims→ body key now expiry v e =
      let (names, e1, r1) = >>=-eq-ok (required (w.members body)) _ e in
      let (_, e2, r2) = >>=-eq-ok (guard (all_members names allowed_claims)) _ r1 in
      let (c, e3, r3) = >>=-eq-ok (required (w.claims body)) _ r2 in
      let (exp, e4, r4) = >>=-eq-ok (check_time now expiry c) _ r3 in
      let (g, e5, r5) = >>=-eq-ok (grant_from m w names c key.prefix) _ r4 in
      record {
        names = names;
        c = c;
        members_are = required→ _ e1;
        all_allowed = guard→ _ e2;
        claims_are = required→ _ e3;
        dated = (check_time_iff now expiry c v.expires_at).0 (ground arith);
        granted = ground arith;
        same_id = ground arith;
        same_key = ground arith;
      }

-- What it takes for a token to be accepted.
pub record IsAccepted (m : Moqt) (w : Wire) (token : Text) (keys : Text → Option Key) (now : Time)
    (expiry : Bool) (v : Verified) : Type 0 where
  pub head : Text
  pub body : Text
  pub tail : Text
  pub parts : split b'.' token ≡ head ∷ body ∷ tail ∷ []
  pub signed : IsSigned m w head body tail keys v.key
  pub claims : HasClaims m w body v.key now expiry v

three_parts→ : (l : List Text) {a b c : Text} → three_parts l ≡ some (a, b, c) → l ≡ a ∷ b ∷ c ∷ []
three_parts→ (a ∷ (b ∷ (c ∷ []))) h = ground arith
three_parts→ [] h = cc
three_parts→ (a ∷ []) h = cc
three_parts→ (a ∷ (b ∷ [])) h = cc
three_parts→ (a ∷ (b ∷ (c ∷ (d ∷ l)))) h = cc

-- An accepted token has three parts; its header names EdDSA, no crit and a trusted key; that key is
-- the one returned, and its signature of the first two parts verifies; every member of its claims is
-- allowed; its dates are in force; and its grant is read from its claims under the key's prefix.
pub verify-IsAccepted :
    (m : Moqt) (w : Wire) (token : Text) (keys : Text → Option Key) (now : Time) (expiry : Bool)
    (v : Verified)
    → verify m w token keys now expiry ≡ ok v
    → IsAccepted m w token keys now expiry v
unfolding verify
verify-IsAccepted m w token keys now expiry v e =
    let ((head, body, tail), e1, r1) = >>=-eq-ok (required (three_parts (split b'.' token))) _ e in
    let (key, e2, r2) = >>=-eq-ok (verify_signature m w head body tail keys) _ r1 in
    let c = verify_claims→ m w body key now expiry v r2 in
    record {
      head = head;
      body = body;
      tail = tail;
      parts = three_parts→ _ (required→ _ e1);
      signed =
          subst (λ k. IsSigned m w head body tail keys k) (sym c.same_key)
            (verify_signature→ m w head body tail keys key e2);
      claims = subst (λ k. HasClaims m w body k now expiry v) (sym c.same_key) c;
    }

-- ===== src/Auth/Sessions.antt =====
-- internal/auth/verifier.go, Authorize: a session at connect and when it is checked again.
use qumo.Common.{
  ◌≤◌, ◌≡◌, refl, Bool, false, ◌&&◌, Option, some, Text, Result, ok, err, Result-cases, arith, ◌⊎◌,
  inl, inr, sym, ap, ◌∙◌, subst,
}
use qumo.Token.Grant.{Moqt}
use qumo.Token.Claims.{Time, Key, Verified, Wire, verify}
use qumo.Token.Claims.Live.{KeepsKeys, verify_later}
use qumo.Auth.Verifier.{
  AuthError, no_key_set, stale_key_set, no_credential, refused, AuthGrant, UsageSession, KeyStore,
  publishes_broadcast, granted, grant_only, decide, authorize, connect, revalidate, is_connect,
  Request, credential_of, anonymous_grant,
}
use qumo.Auth.Decisions.{decide→, →decide, grant_only→}

-- What decides a request: whether its key's pause refuses it.
abbrev pub pause_refuses : Bool → AuthGrant → Bool
pause_refuses at_connect g = at_connect && publishes_broadcast g.grant

module _ (m : Moqt) (w : Wire) (usage : Bool) (store : KeyStore) (now : Time) (req : Request) where
  abbrev decided : Result AuthError (AuthGrant × UsageSession)
  decided =
      decide m w (credential_of req.query) (is_connect req.event)
        (pause_refuses (is_connect req.event)) store now

  authorize_anonymous :
      credential_of req.query ≡ err no_credential
      → (authorize m w usage store now req).0 ≡ ok anonymous_grant
  unfolding authorize
  authorize_anonymous e = ground arith

  authorize-decided :
      (token : Text)
      → credential_of req.query ≡ ok token
      → (authorize m w usage store now req).0 ≡ grant_only decided
  unfolding authorize
  authorize-decided token e = ground arith

  authorize_failed :
      (e : AuthError)
      → credential_of req.query ≡ err e
      → (e ≡ no_credential) ⊎ ((authorize m w usage store now req).0 ≡ grant_only decided)
  unfolding authorize
  authorize_failed no_credential c = inl refl
  authorize_failed no_key_set c = inr (ground arith)
  authorize_failed stale_key_set c = inr (ground arith)
  authorize_failed (refused x) c = inr (ground arith)

  -- What an accepted request was: one with no credential, or one whose credential was accepted.
  authorize→ :
      (g : AuthGrant)
      → (authorize m w usage store now req).0 ≡ ok g
      → ((credential_of req.query ≡ err no_credential) × (g ≡ anonymous_grant))
        ⊎ ((s : UsageSession) × (decided ≡ ok (g, s)))
  authorize→ g h = elim (Result-cases (credential_of req.query)) [
    | inl (token, c) ↦ inr (grant_only→ decided g (sym (authorize-decided token c) ∙ h))
    | inr (e, c) ↦ elim (authorize_failed e c) [
      | inr d ↦ inr (grant_only→ decided g (sym d ∙ h))
      | inl n ↦
          let none_is : credential_of req.query ≡ err no_credential = c ∙ ap err n in
          inl (
            none_is,
            (let same : ok g ≡ ok anonymous_grant = sym h ∙ authorize_anonymous none_is in
                ground arith),
          )
    ]
  ]

-- A revalidation refuses nothing for a pause.
revalidate-decided :
    (m : Moqt) (w : Wire) (usage : Bool) (store : KeyStore) (now : Time) (req : Request)
    (v : Verified) (token : Text) (keys : Text → Option Key)
    → req.event ≡ revalidate
    → credential_of req.query ≡ ok token
    → store.keys ≡ some keys
    → verify m w token keys now false ≡ ok v
    → (authorize m w usage store now req).0 ≡ ok (granted v)
revalidate-decided m w usage store now req v token keys e c k f =
    authorize-decided m w usage store now req token c
    ∙ ap grant_only (
        →decide m w (credential_of req.query) (is_connect req.event)
          (pause_refuses (is_connect req.event)) store now v
          (record {
            keys = keys;
            token = token;
            has_keys = k;
            fresh = λ q. ground arith;
            credential_is = c;
            verified = ap (λ x. verify m w token keys now (is_connect x)) e ∙ f;
            not_paused = ground arith;
          }))

-- A session that was admitted, with a credential or anonymously, is authorized with the same grant at
-- every later revalidation of the same query, however stale the key set is by then and past the
-- credential's expiry, as long as a key set is loaded that has the keys of the one at connect.
pub session_continues :
    (m : Moqt) (w : Wire) (usage usage' : Bool) (store store' : KeyStore) (now later : Time)
    (req req' : Request) (g : AuthGrant) (keys keys' : Text → Option Key)
    → req.event ≡ connect
    → req'.event ≡ revalidate
    → req'.query ≡ req.query
    → store.keys ≡ some keys
    → store'.keys ≡ some keys'
    → KeepsKeys keys keys'
    → now ≤ later
    → (authorize m w usage store now req).0 ≡ ok g
    → (authorize m w usage' store' later req').0 ≡ ok g
session_continues m w usage usage' store store' now later req req' g keys keys' c r q k k' keeps le
      h =
    elim (authorize→ m w usage store now req g h) [
      | inl (n, same) ↦
          authorize_anonymous m w usage' store' later req' (ap credential_of q ∙ n)
          ∙ ap ok (sym same)
      | inr (s, d) ↦
          let (v, o, is) =
            decide→ m w (credential_of req.query) (is_connect req.event)
              (pause_refuses (is_connect req.event)) store now (g, s) d in
          let same_keys : is.keys ≡ keys = ground (arith, is.has_keys) in
          revalidate-decided m w usage' store' later req' v is.token keys' r
            (ap credential_of q ∙ is.credential_is) k'
            (verify_later m w is.token keys keys' now later (is_connect req.event) v keeps le (
              subst (λ x. verify m w is.token x now (is_connect req.event) ≡ ok v) same_keys
                is.verified))
          ∙ ap (λ (p : AuthGrant × UsageSession). ok p.0) (sym o)
    ]

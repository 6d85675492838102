-- ===== src/Auth/Decisions.antt =====
-- internal/auth/verifier.go: when a credential is accepted, and whose tickets a session takes.
use qumo.Common.{
  ◌≡◌, ◌↔◌, Bool, true, false, not, ◌&&◌, Option, some, if◌then◌else◌, Text, text_eq, text_eq_iff,
  Result, ok, err, >>=-eq-ok, Result-cases, Option-cases, arith, inl, inr, sym, ap, ◌∙◌, [],
}
use qumo.Token.Grant.{Moqt}
use qumo.Token.Claims.{Time, Key, Verified, Wire, verify}
use qumo.Auth.Verifier.{
  AuthError, refused, forbidden_status, AuthGrant, UsageSession, KeyStore, is_fresh,
  publishes_broadcast, granted, unless_paused, grant_only, decide, ticket,
}

-- What it takes for a credential to be accepted as the verified token `v`.
pub record IsDecided (m : Moqt) (w : Wire) (credential : Result AuthError Text) (at_connect : Bool)
    (paused : AuthGrant → Bool) (store : KeyStore) (now : Time) (v : Verified) : Type 0 where
  pub keys : Text → Option Key
  pub token : Text
  pub has_keys : store.keys ≡ some keys
  pub fresh : at_connect ≡ true → is_fresh store now ≡ true
  pub credential_is : credential ≡ ok token
  pub verified : verify m w token keys now at_connect ≡ ok v
  pub not_paused : (v.key.pauses_publish && paused (granted v)) ≡ false

-- What decide returns of a verified token.
abbrev pub outcome : Verified → AuthGrant × UsageSession
outcome v = (granted v, record { kid = v.key.id; publishes = publishes_broadcast v.grant })

module _ (m : Moqt) (w : Wire) (credential : Result AuthError Text) (at_connect : Bool)
    (paused : AuthGrant → Bool) (store : KeyStore) (now : Time) where
  pub decide→ :
      (r : AuthGrant × UsageSession)
      → decide m w credential at_connect paused store now ≡ ok r
      → (v : Verified) × (r ≡ outcome v) × IsDecided m w credential at_connect paused store now v
  unfolding decide unless_paused
  decide→ r h = elim (Option-cases store.keys) [
    | inl e ↦ ground arith
    | inr (keys, e) ↦ elim (Result-cases credential) [
      | inr (x, c) ↦ ground arith
      | inl (token, c) ↦ elim (Result-cases (verify m w token keys now at_connect)) [
        | inr (x, d) ↦ ground arith
        | inl (v, d) ↦ (
          v,
          ground arith,
          record {
            keys = keys;
            token = token;
            has_keys = e;
            fresh = λ q. ground arith;
            credential_is = c;
            verified = d;
            not_paused = ground arith;
          },
        )
      ]
    ]
  ]

  pub →decide :
      (v : Verified)
      → IsDecided m w credential at_connect paused store now v
      → decide m w credential at_connect paused store now ≡ ok (outcome v)
  unfolding decide unless_paused
  →decide v d = ground (arith, d.has_keys, d.fresh, d.credential_is, d.verified, d.not_paused)

-- A credential is accepted, with the grant of its token, exactly when a key set is loaded, which at
-- connect is fresh, there is a credential, its token verifies under the set, and its key is not paused
-- or the grant is not one that the pause is about.
pub decide_iff :
    (m : Moqt) (w : Wire) (credential : Result AuthError Text) (at_connect : Bool)
    (paused : AuthGrant → Bool) (store : KeyStore) (now : Time) (r : AuthGrant × UsageSession)
    → (decide m w credential at_connect paused store now ≡ ok r)
      ↔ ((v : Verified) × (r ≡ outcome v) × IsDecided m w credential at_connect paused store now v)
decide_iff m w credential at_connect paused store now r = (
  decide→ m w credential at_connect paused store now r,
  λ (v, e, d). →decide m w credential at_connect paused store now v d ∙ ap ok (sym e),
)

pub grant_only→ :
    (r : Result AuthError (AuthGrant × UsageSession)) (g : AuthGrant)
    → grant_only r ≡ ok g
    → (s : UsageSession) × (r ≡ ok (g, s))
grant_only→ (ok (g', s)) g h = (s, ground arith)
grant_only→ (err e) g h = cc

-- The checks of Ticket on the grant that decide returned.
same_key→ :
    (key_id : Text) (g g' : AuthGrant)
    → (if text_eq key_id []
        then err (refused forbidden_status)
        else if not (text_eq g.key_id key_id)
        then err (refused forbidden_status)
        else ok g)
      ≡ ok g'
    → (g ≡ g') × (text_eq key_id [] ≡ false) × (g.key_id ≡ key_id)
same_key→ key_id g g' h = ground (arith, text_eq_iff g.key_id key_id)

-- A ticket that a session presents is accepted only when its token verifies at connect under a fresh key
-- set, it is signed by the key of the session, which is one, and that key is not paused, or the ticket
-- does not publish, or the session has published already.
pub ticket-IsDecided :
    (m : Moqt) (w : Wire) (store : KeyStore) (now : Time) (credential key_id : Text)
    (published : Bool) (g : AuthGrant)
    → ticket m w store now credential key_id published ≡ ok g
    → (text_eq key_id [] ≡ false)
      × (g.key_id ≡ key_id)
      × ((v : Verified) × (g ≡ granted v)
          × IsDecided m w
              (ok credential)
              true
              (λ g. not published && publishes_broadcast g.grant)
              store
              now
              v)
unfolding ticket
ticket-IsDecided m w store now credential key_id published g h =
    let paused : AuthGrant → Bool = λ g. not published && publishes_broadcast g.grant in
    let (g', e, r) =
      >>=-eq-ok (grant_only (decide m w (ok credential) true paused store now)) _ h in
    let (same, there, key) = same_key→ key_id g' g r in
    let (s, d) = grant_only→ _ g' e in
    let (v, o, is) = decide→ m w (ok credential) true paused store now (g', s) d in
    (there, ap (λ (x : AuthGrant). x.key_id) (sym same) ∙ key, (v, sym same ∙ ap (λ p. p.0) o, is))

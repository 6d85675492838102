-- ===== src/Auth/Verifier.antt =====
-- internal/auth/verifier.go, keysource.go and grant.go: the verifier's decisions. The key set is read from
-- the store as it is at the time of a call; what usage is told is in the result.
use qumo.Common.{
  ℕ, ◌-◌, ◌*◌, Bool, true, false, not, ◌&&◌, ◌||◌, Option, none, some, List, [], ◌∷◌, leb,
  if◌then◌else◌, Text, codes, text_eq, Result, ok, err, ◌>>=◌,
}
use qumo.Token.Path.{within}
use qumo.Token.Grant.{
  Action, publish, create, Grant, empty_grant, Moqt, TokenError, invalid, forbidden, is_empty,
  allows,
}
use qumo.Token.Claims.{Time, second, Key, Verified, Wire, verify}

-- Why a credential is not accepted. A refusal has its HTTP status; the others are not refusals.
pub data Status : Type 0 where
  unauthorized forbidden_status : Status

pub data AuthError : Type 0 where
  no_key_set stale_key_set no_credential : AuthError
  refused : Status → AuthError

pub record AuthGrant : Type 0 where
  pub grant : Grant
  pub revalidate : Time
  pub key_id : Text
  pub expires : Time
  pub anonymous : Bool

pub record UsageSession : Type 0 where
  pub kid : Text
  pub publishes : Bool

-- keySet's map of keys, or none loaded yet, and when it was last read.
pub record KeyStore : Type 0 where
  pub keys : Option (Text → Option Key)
  pub last_success : Time

abbrev pub keys_max_stale : Time
keys_max_stale = 6 * 3600 * second

abbrev pub revalidate_every : Time
revalidate_every = 30 * second

abbrev pub is_fresh : KeyStore → Time → Bool
is_fresh s now = leb (now - s.last_success) keys_max_stale

abbrev pub replace_keys : (Text → Option Key) → Time → KeyStore → KeyStore
replace_keys keys now s = record { keys = some keys; last_success = now }

abbrev pub confirm_keys : Time → KeyStore → KeyStore
confirm_keys now s = record s { last_success = now }

unfoldable pub holds_root : Key → Text → Bool
holds_root k root = text_eq root [] || within root k.prefix

unfoldable pub publishes_broadcast : Grant → Bool
publishes_broadcast g = not (is_empty g.publishes)

abbrev pub status_of : TokenError → Status
status_of forbidden = forbidden_status
status_of invalid = unauthorized

-- A connect URL's query as url.ParseQuery reads it: the pairs in order, or none.
abbrev pub Query : Type 0
Query = Option (List (Text × Text))

unfoldable pub first_value : Text → List (Text × Text) → Option Text
first_value name [] = none
first_value name ((k, value) ∷ rest) = if text_eq k name then some value else first_value name rest

unfoldable pub credential_of : Query → Result AuthError Text
credential_of none = err (refused unauthorized)
credential_of (some pairs) = elim (first_value (codes "jwt") pairs) [
  | none ↦ err no_credential
  | some credential ↦ ok credential
]

-- The grant of a verified token.
abbrev pub granted : Verified → AuthGrant
granted v = record {
  grant = v.grant;
  revalidate = revalidate_every;
  key_id = v.key.id;
  expires = v.expires_at;
  anonymous = false;
}

-- What follows once the token is verified.
unfoldable pub unless_paused :
    (AuthGrant → Bool) → Verified → Result AuthError (AuthGrant × UsageSession)
unless_paused paused v =
    if v.key.pauses_publish && paused (granted v)
    then err (refused forbidden_status)
    else ok (granted v, record { kid = v.key.id; publishes = publishes_broadcast v.grant })

abbrev pub anonymous_grant : AuthGrant
anonymous_grant = record {
  grant = empty_grant;
  revalidate = revalidate_every;
  key_id = [];
  expires = 0;
  anonymous = true;
}

pub data Event : Type 0 where
  connect revalidate : Event

abbrev pub is_connect : Event → Bool
is_connect connect = true
is_connect revalidate = false

-- The reports to usage: a session that was admitted, and the bytes of one with whether it lives on.
pub data Report : Type 0 where
  opens : Text → UsageSession → Report
  revalidated : Text → ℕ → Bool → Report

pub record Request : Type 0 where
  pub id : Text
  pub event : Event
  pub query : Query
  pub bytes : ℕ

abbrev pub is_refused : {A : Type 0} → Result AuthError A → Bool
is_refused (ok a) = false
is_refused (err (refused s)) = true
is_refused (err no_key_set) = false
is_refused (err stale_key_set) = false
is_refused (err no_credential) = false

abbrev pub grant_only : Result AuthError (AuthGrant × UsageSession) → Result AuthError AuthGrant
grant_only (ok (g, s)) = ok g
grant_only (err e) = err e

-- The calls of usage in Authorize.
unfoldable pub reports : Request → Result AuthError (AuthGrant × UsageSession) → List Report
reports req r = elim req.event [
  | connect ↦ elim r [ ok gs ↦ opens req.id gs.1 ∷ [] | err e ↦ [] ]
  | revalidate ↦ revalidated req.id req.bytes (not (is_refused r)) ∷ []
]

module _ (m : Moqt) (w : Wire) where
  -- The credential that the request carries, or why it carries none.
  unfoldable pub decide :
      Result AuthError Text
      → Bool
      → (AuthGrant → Bool)
      → KeyStore
      → Time
      → Result AuthError (AuthGrant × UsageSession)
  decide credential at_connect paused store now = elim store.keys [
    | none ↦ err no_key_set
    | some keys ↦
        if at_connect && not (is_fresh store now) then err stale_key_set else elim credential [
          | err e ↦ err e
          | ok token ↦ elim (verify m w token keys now at_connect) [
            | err e ↦ err (refused (status_of e))
            | ok v ↦ unless_paused paused v
          ]
        ]
  ]

  -- `usage` is whether there is a reporter.
  unfoldable pub authorize :
      Bool → KeyStore → Time → Request → Result AuthError AuthGrant × List Report
  authorize usage store now req =
      let at_connect = is_connect req.event in
      let decided =
        decide (credential_of req.query) at_connect (λ g. at_connect && publishes_broadcast g.grant)
          store now in
      elim (credential_of req.query) [
        | err no_credential ↦ (
          ok anonymous_grant,
          if usage && not at_connect then revalidated req.id req.bytes true ∷ [] else [],
        )
        | _ ↦ (grant_only decided, if usage then reports req decided else [])
      ]

  unfoldable pub check : KeyStore → Time → Text → Action → Text → Result AuthError AuthGrant
  check store now credential action path = grant_only (
      decide (ok credential) true
        (λ g.
          (elim action [ create ↦ true | publish ↦ true | _ ↦ false ])
          && allows m g.grant action path)
        store now)

  unfoldable pub ticket : KeyStore → Time → Text → Text → Bool → Result AuthError AuthGrant
  ticket store now credential key_id published =
      grant_only
        (decide (ok credential) true (λ g. not published && publishes_broadcast g.grant) store now)
      >>= λ g.
          if text_eq key_id []
          then err (refused forbidden_status)
          else if not (text_eq g.key_id key_id)
          then err (refused forbidden_status)
          else ok g

  unfoldable pub first_ticket : KeyStore → Time → Text → Result AuthError AuthGrant
  first_ticket store now credential =
      grant_only (decide (ok credential) true (λ g. publishes_broadcast g.grant) store now)

  unfoldable pub trusts : KeyStore → AuthGrant → Result AuthError Bool
  trusts store g = elim store.keys [
    | none ↦ err no_key_set
    | some keys ↦ elim (keys g.key_id) [
      | none ↦ ok false
      | some key ↦ ok (holds_root key g.grant.root)
    ]
  ]

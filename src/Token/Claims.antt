-- ===== src/Token/Claims.antt =====
-- token/token.go: the claims of a token and its verification. The wire form (base64url and JSON
-- decoding) and the signature scheme are parameters.
pub mod Dates
pub mod Sound
pub mod Bounds
pub mod Live
use qumo.Common.{
  ℕ, ◌+◌, ◌-◌, ◌*◌, ◌/◌, ◌<◌, Bool, true, false, not, ◌&&◌, ◌||◌, Option, none, some, List, [], ◌∷◌,
  ◌++◌, ltb, leb, if◌then◌else◌, Text, codes, text_eq, Result, ok, err, ◌>>=◌,
}
use qumo.Token.Path.{PathError, split, directory, at_and_beneath, within}
use qumo.Token.Grant.{Grant, empty_grant, Moqt, TokenError, invalid, forbidden, checked, is_empty}

-- A time is its distance from Go's zero time, in nanoseconds; a duration is in nanoseconds too. An
-- earlier time has no value here.
abbrev pub Time : Type 0
Time = ℕ

abbrev pub second : ℕ
second = 1_000_000_000

abbrev pub leeway : ℕ
leeway = 60 * second

abbrev pub max_lifetime : ℕ
max_lifetime = 3600 * second

pub record PathAuth : Type 0 where
  pub root : Text
  pub pub_path : Option Text
  pub sub_path : Option Text

-- A date is what numericDate makes of the number in the token. `grant` is what claims.grant returns:
-- the fields of the same names.
pub record Claims : Type 0 where
  pub path_auth : Option PathAuth
  pub grant : Grant
  pub issued_at : Option Time
  pub not_before : Option Time
  pub expires_at : Option Time
  pub id : Text

pub record Key : Type 0 where
  pub id : Text
  pub public_key : Text
  pub prefix : Text
  pub pauses_publish : Bool

-- A verified token: token.Claims.
pub record Verified : Type 0 where
  pub grant : Grant
  pub expires_at : Time
  pub id : Text
  pub key : Key

-- `has_crit` is whether the header has a crit member.
pub record Header : Type 0 where
  pub alg : Text
  pub kid : Text
  pub has_crit : Bool

-- decodeSegment at the three types that it is called with, base64 for the signature, and
-- ed25519.Verify of a key, a message and a signature. `members` are the names in the claims' object.
pub record Wire : Type 0 where
  pub header : Text → Option Header
  pub members : Text → Option (List Text)
  pub claims : Text → Option Claims
  pub signature : Text → Option Text
  pub signed : Text → Text → Text → Bool

-- Truncation to whole seconds, as `time.Unix(t.Unix(), 0)`.
abbrev pub whole_seconds : Time → Time
whole_seconds t = t / second * second

-- The three dates are there, with the checks in the source's order. `exp - iat <= 0` is `exp <= iat`.
unfoldable pub check_dates : Time → Bool → Time → Time → Time → Result TokenError Time
check_dates now expiry exp nbf iat =
    if leb exp iat || ltb (iat + max_lifetime) exp
    then err invalid
    else if expiry && not (ltb now (whole_seconds (exp + leeway)))
    then err invalid
    else if ltb (now + leeway) nbf || ltb (now + leeway) iat
    then err invalid
    else ok exp

unfoldable pub check_time : Time → Bool → Claims → Result TokenError Time
check_time now expiry c = elim c.expires_at [
  | none ↦ err invalid
  | some exp ↦ elim c.not_before [
    | none ↦ err invalid
    | some nbf ↦ elim c.issued_at [
      | none ↦ err invalid
      | some iat ↦ check_dates now expiry exp nbf iat
    ]
  ]
]

-- One role of a path_auth claim: a nil one grants nothing.
unfoldable pub role_patterns : Option Text → Result TokenError (List Text)
role_patterns none = ok []
role_patterns (some suffix) = elim (at_and_beneath suffix) [ ok ss ↦ ok ss | err e ↦ err invalid ]

abbrev pub is_some {ℓ} : {A : Type ℓ} → Option A → Bool
is_some none = false
is_some (some a) = true

unfoldable pub grant_of : PathAuth → Text → Result TokenError Grant
grant_of pa prefix =
    if not (is_some pa.pub_path) && not (is_some pa.sub_path)
    then err forbidden
    else elim (directory pa.root) [
      | err e ↦ err invalid
      | ok root ↦
          if not (within root prefix)
          then err forbidden
          else role_patterns pa.pub_path >>= λ publishes.
              role_patterns pa.sub_path >>= λ subscribes.
              ok
                (record empty_grant { root = root; publishes = publishes; subscribes = subscribes })
    ]

abbrev pub member : Text → List Text → Bool
member name [] = false
member name (x ∷ xs) = text_eq name x || member name xs

unfoldable pub all_members : List Text → List Text → Bool
all_members [] allowed = true
all_members (x ∷ xs) allowed = member x allowed && all_members xs allowed

unfoldable pub any_member : List Text → List Text → Bool
any_member [] names = false
any_member (x ∷ xs) names = member x names || any_member xs names

abbrev pub path_auth_name : Text
path_auth_name = codes "path_auth"

abbrev pub subject_name : Text
subject_name = codes "sub"

abbrev pub grant_claims : List Text
grant_claims =
    codes "root"
    ∷ codes "publish"
    ∷ codes "subscribe"
    ∷ codes "create"
    ∷ codes "post"
    ∷ codes "redact"
    ∷ []

abbrev pub allowed_claims : List Text
allowed_claims =
    path_auth_name
    ∷ codes "root"
    ∷ codes "publish"
    ∷ codes "subscribe"
    ∷ codes "create"
    ∷ codes "post"
    ∷ codes "redact"
    ∷ subject_name
    ∷ codes "iat"
    ∷ codes "nbf"
    ∷ codes "exp"
    ∷ codes "jti"
    ∷ []

abbrev pub guard : Bool → Result TokenError (Unit {0})
guard true = ok tt
guard false = err invalid

abbrev pub required {ℓ} : {A : Type ℓ} → Option A → Result TokenError A
required none = err invalid
required (some a) = ok a

-- The three parts of a token in compact form.
abbrev pub three_parts : List Text → Option (Text × Text × Text)
three_parts (a ∷ (b ∷ (c ∷ []))) = some (a, b, c)
three_parts _ = none

module _ (m : Moqt) (w : Wire) where
  -- The `switch` on the members of the claims.
  unfoldable pub grant_from : List Text → Claims → Text → Result TokenError Grant
  grant_from names c prefix =
      let has_path_auth = member path_auth_name names in
      if has_path_auth && any_member grant_claims names
      then err invalid
      else if not has_path_auth
      then checked m prefix c.grant
      else elim c.path_auth [
        | none ↦ err invalid
        | some pa ↦ if member subject_name names then err invalid else grant_of pa prefix
      ]

  -- The claims of a token whose signature by `key` verified.
  unfoldable pub verify_claims : Text → Key → Time → Bool → Result TokenError Verified
  verify_claims body key now expiry = do
    names ← required (w.members body)
    _ ← guard (all_members names allowed_claims)
    c ← required (w.claims body)
    exp ← check_time now expiry c
    g ← grant_from names c key.prefix
    ok (record { grant = g; expires_at = exp; id = c.id; key = key })

  -- The key that signed the token of these three parts.
  unfoldable pub verify_signature : Text → Text → Text → (Text → Option Key) → Result TokenError Key
  verify_signature head body tail keys = do
    h ← required (w.header head)
    _ ← guard (not h.has_crit)
    _ ← guard (text_eq h.alg (codes "EdDSA"))
    key ← required (keys h.kid)
    sig ← required (w.signature tail)
    _ ← guard (w.signed key.public_key (head ++ b'.' ∷ body) sig)
    ok key

  -- `verify`; `expiry` is true for Verify and false for VerifyLive.
  unfoldable pub verify : Text → (Text → Option Key) → Time → Bool → Result TokenError Verified
  verify token keys now expiry = do
    (head, body, tail) ← required (three_parts (split b'.' token))
    key ← verify_signature head body tail keys
    verify_claims body key now expiry

-- ===== src/Token/Samples.antt =====
-- token: a grant, a key, and a token that it signed, for the tests.
use qumo.Common.{
  ◌*◌, ◌≡◌, refl, true, false, ◌&&◌, Option, none, some, List, [], ◌∷◌, ◌++◌, if◌then◌else◌, Text,
  codes, text_eq, ok,
}
use qumo.Token.Path.{
  slash, split, join, kept_segments, normalize_path, directory, has_prefix, has_any, trim_slash,
  within,
}
use qumo.Token.Grant.{
  Grant, empty_grant, patterns, Moqt, checked, check_actions, check_patterns, check_pattern,
  is_directory, any_dots,
}
use qumo.Token.Claims.{
  Time, second, Claims, Key, Verified, Wire, check_time, check_dates, all_members, any_member,
  grant_from, verify_claims, verify_signature, verify,
}

-- A pattern is the broadcast that it names beneath the root, and must begin with a slash.
abbrev pub moqt : Moqt
moqt = record {
  Pattern = Text;
  parse = λ root s. if has_prefix s (slash ∷ []) then some (root ++ trim_slash s) else none;
  matches = λ p bp. text_eq p bp;
  validate = λ root ps ss. true;
}

abbrev pub team : List Text
team = codes "team" ∷ []

abbrev pub team_grant : Grant
team_grant = record empty_grant { root = codes "/team/"; publishes = codes "/cam" ∷ [] }

-- A token of the parts "h", "c" and "s", signed by the key "k1" of "/team/".
abbrev pub team_key : Key
team_key = record {
  id = codes "k1";
  public_key = codes "p";
  prefix = codes "/team/";
  pauses_publish = false;
}

abbrev pub trusted : Text → Option Key
trusted kid = if text_eq kid (codes "k1") then some team_key else none

abbrev pub noon : Time
noon = 1_000 * second

abbrev pub team_claims : Claims
team_claims = record {
  path_auth = none;
  grant = team_grant;
  issued_at = some (990 * second);
  not_before = some (990 * second);
  expires_at = some (1_100 * second);
  id = codes "j1";
}

abbrev pub wire : Wire
wire = record {
  header = λ t.
      if text_eq t (codes "h")
      then some (record { alg = codes "EdDSA"; kid = codes "k1"; has_crit = false })
      else none;
  members = λ t.
      some (
        codes "root"
        ∷ codes "publish"
        ∷ codes "iat"
        ∷ codes "nbf"
        ∷ codes "exp"
        ∷ codes "jti"
        ∷ []);
  claims = λ t. if text_eq t (codes "c") then some team_claims else none;
  signature = λ t. some t;
  signed =
      λ k msg sig. text_eq k (codes "p") && text_eq msg (codes "h.c") && text_eq sig (codes "s");
}

abbrev pub accepted : Verified
accepted = record {
  grant = team_grant;
  expires_at = 1_100 * second;
  id = codes "j1";
  key = team_key;
}

pub verify_team : verify moqt wire (codes "h.c.s") trusted noon true ≡ ok accepted
unfolding verify verify_signature verify_claims grant_from check_time check_dates all_members
    any_member checked check_actions check_patterns check_pattern is_directory any_dots patterns
    directory normalize_path kept_segments split join has_any has_prefix within text_eq empty_grant
verify_team = refl

-- ===== src/Token/Examples.antt =====
-- token: concrete grants and tokens, and the theorems at concrete inputs.
use qumo.Common.{
  ◌*◌, ◌≡◌, ◌↔◌, refl, true, false, ◌||◌, List, [], ◌∷◌, Text, codes, text_eq, ok, err, All, arith,
}
use qumo.Token.Path.{
  slash, split, join, kept_segments, normalize_path, directory, has_prefix, has_any, trim_slash,
  within,
}
use qumo.Token.Path.Segments.{IsSegment}
use qumo.Token.Path.Directories.{dir_of}
use qumo.Token.Path.Within.{under, hls_segment, within-under}
use qumo.Token.Grant.{
  publish, empty_grant, patterns, invalid, forbidden, any_matches, allows, checked, check_actions,
  check_patterns, check_pattern, is_directory, any_dots,
}
use qumo.Token.Grant.Allows.{Matching, allows_iff}
use qumo.Token.Grant.Checked.{IsConfined, checked-IsConfined}
use qumo.Token.Claims.{second, check_time, check_dates}
use qumo.Token.Claims.Sound.{IsAccepted, verify-IsAccepted}
use qumo.Token.Claims.Bounds.{Confined, verify-Confined}
use qumo.Token.Samples.{
  moqt, team, team_grant, trusted, noon, team_claims, wire, accepted, verify_team,
}

team_segments : All IsSegment team
unfolding has_any text_eq
team_segments =
    (record { not_empty = refl; no_slash = omega arith; no_dots = refl; no_wildcard = refl }, tt)

-- "/team/room/", beneath "/team/".
abbrev room : List Text
room = codes "team" ∷ codes "room" ∷ []

room_segments : All IsSegment room
unfolding has_any text_eq
room_segments = (
  team_segments.0,
  (record { not_empty = refl; no_slash = omega arith; no_dots = refl; no_wildcard = refl }, tt),
)

within-under_example :
    within (dir_of room) (dir_of team) ≡ (under room team || under room (hls_segment ∷ team))
within-under_example = within-under room team room_segments team_segments

-- "/teams/" is not within "/team/".
within_teams : within (codes "/teams/") (codes "/team/") ≡ false
unfolding within has_prefix
within_teams = refl

allows_iff_example : (allows moqt team_grant publish (codes "/team/cam") ≡ true) ↔ (
    (normalize_path (codes "/team/cam") ≡ ok (trim_slash (codes "/team/cam")))
    × Matching moqt team_grant.root
        (patterns team_grant publish)
        (slash ∷ trim_slash (codes "/team/cam")))
allows_iff_example = allows_iff moqt team_grant publish (codes "/team/cam")

allows_cam : allows moqt team_grant publish (codes "/team/cam") ≡ true
unfolding allows any_matches patterns normalize_path kept_segments split join has_any has_prefix
    text_eq
allows_cam = refl

checked-team : checked moqt (dir_of team) team_grant ≡ ok team_grant
unfolding checked check_actions check_patterns check_pattern is_directory any_dots patterns
    directory normalize_path kept_segments split join has_any has_prefix within text_eq empty_grant
checked-team = refl

checked-IsConfined_example : (team_grant ≡ team_grant) × IsConfined moqt team team_grant
unfolding text_eq
checked-IsConfined_example =
    checked-IsConfined moqt team team_grant team_grant team_segments refl checked-team

checked_other : checked moqt (codes "/other/") team_grant ≡ err forbidden
unfolding checked check_actions check_patterns check_pattern is_directory any_dots patterns
    directory normalize_path kept_segments split join has_any has_prefix within text_eq empty_grant
checked_other = refl

-- A token a minute and a second past its expiry is refused.
check_time_late : check_time (1_161 * second) true team_claims ≡ err invalid
unfolding check_time check_dates
check_time_late = refl

verify-IsAccepted_example : IsAccepted moqt wire (codes "h.c.s") trusted noon true accepted
verify-IsAccepted_example =
    verify-IsAccepted moqt wire (codes "h.c.s") trusted noon true accepted verify_team

verify-Confined_example : Confined team team_grant
verify-Confined_example =
    verify-Confined moqt wire (codes "h.c.s") trusted noon true accepted team team_segments refl
      verify_team

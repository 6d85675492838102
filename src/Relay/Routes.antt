-- ===== src/Relay/Routes.antt =====
-- internal/relay/handler.go, compareRoutes: whether a route displaces the one in use. A bitrate is a
-- uint64 of bits per second and a round trip time a number of nanoseconds, at least 0. The products
-- of float64 with 1.2 and 0.8 are compared here over the integers, which is the same test as long as
-- the numbers are below 2 ^ 50: rounding then moves no product past a number that it is compared to.
pub mod Rank
pub mod Election
pub mod Steps
pub mod Stranded
pub mod Installs
pub mod Kept
pub mod Promoted
pub mod Reached
mod Examples
use qumo.Common.{
  ℕ, ◌+◌, ◌-◌, ◌*◌, Bool, true, false, not, ◌&&◌, ◌||◌, ltb, leb, ◌==◌, if◌then◌else◌,
}

pub record RouteStats : Type 0 where
  pub alive : Bool
  pub hops : ℕ
  pub estimated_bitrate : ℕ
  pub rtt : ℕ

pub data RouteDecision : Type 0 where
  by_alive by_hops by_bitrate by_rtt dead_candidate inferior_hops inferior_bitrate inferior_rtt
        equal_or_unknown low_bitrate_margin low_rtt_margin :
      RouteDecision

unfoldable pub accepted : RouteDecision → Bool
accepted by_alive = true
accepted by_hops = true
accepted by_bitrate = true
accepted by_rtt = true
accepted _ = false

abbrev pub bool_eq : Bool → Bool → Bool
bool_eq true b = b
bool_eq false b = not b

-- 5 * time.Millisecond.
abbrev pub rtt_margin_abs : ℕ
rtt_margin_abs = 5_000_000

-- `float64(candidate) >= float64(current)*bitrateMargin`.
abbrev pub clears_bitrate_margin : ℕ → ℕ → Bool
clears_bitrate_margin candidate current = leb (current * 6) (candidate * 5)

-- `float64(candidate)/float64(current) <= rttMarginRel`.
abbrev pub clears_rtt_margin : ℕ → ℕ → Bool
clears_rtt_margin candidate current = leb (candidate * 5) (current * 4)

abbrev pub compare_rtt : ℕ → ℕ → RouteDecision
compare_rtt candidate current =
    if candidate == 0 || current == 0
    then equal_or_unknown
    else (let better = ltb candidate current in
        let improvement = current - candidate in
        if better && (leb rtt_margin_abs improvement || clears_rtt_margin candidate current)
        then by_rtt
        else if better
        then low_rtt_margin
        else inferior_rtt)

abbrev pub compare_bitrate : ℕ → ℕ → RouteDecision
compare_bitrate candidate current =
    if clears_bitrate_margin candidate current
    then by_bitrate
    else if ltb current candidate
    then low_bitrate_margin
    else inferior_bitrate

unfoldable pub compare_routes : RouteStats → RouteStats → RouteDecision
compare_routes candidate current =
    if not (bool_eq candidate.alive current.alive)
    then (if candidate.alive then by_alive else dead_candidate)
    else if not candidate.alive
    then dead_candidate
    else if ltb candidate.hops current.hops
    then by_hops
    else if ltb current.hops candidate.hops
    then inferior_hops
    else if not (candidate.estimated_bitrate == current.estimated_bitrate)
    then compare_bitrate candidate.estimated_bitrate current.estimated_bitrate
    else compare_rtt candidate.rtt current.rtt

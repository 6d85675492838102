-- ===== src/Relay/Routes/Examples.antt =====
-- internal/relay/handler.go and internal/relay/server.go, routes: concrete runs, and the theorems at
-- concrete inputs.
use qumo.Common.{ℕ, ◌<◌, ◌≡◌, refl, true, false, inl, inr, none, arith, if◌then◌else◌, ◌==◌}
use qumo.Relay.Routes.{RouteStats, accepted, compare_routes, by_bitrate, low_bitrate_margin}
use qumo.Relay.Routes.Rank.{Displaced, once, again, replaced_for_good}
use qumo.Relay.Routes.Election.{Election, vacant, route, no_route, elect, end_announcement}
use qumo.Relay.Routes.Steps.{arrive, promoting_now, Reach, here, later, elects, ends}
use qumo.Relay.Routes.Stranded.{IsElection}
use qumo.Relay.Routes.Reached.{Reach-IsElection, alternate_promoted}

abbrev slow : RouteStats
slow = record { alive = true; hops = 1; estimated_bitrate = 1_000; rtt = 0 }

abbrev fast : RouteStats
fast = record { alive = true; hops = 1; estimated_bitrate = 1_200; rtt = 0 }

abbrev near : RouteStats
near = record { alive = true; hops = 0; estimated_bitrate = 10; rtt = 0 }

-- A bitrate of 0 is one that is not known, and any other displaces it.
unknown_displaced : compare_routes slow (record slow { estimated_bitrate = 0 }) ≡ by_bitrate
unfolding compare_routes
unknown_displaced = refl

-- One fifth more is enough, less is not.
margin_cases :
    (compare_routes fast slow ≡ by_bitrate)
    × (compare_routes (record fast { estimated_bitrate = 1_199 }) slow ≡ low_bitrate_margin)
unfolding compare_routes
margin_cases = (refl, refl)

near-Displaced : Displaced slow near
unfolding compare_routes accepted
near-Displaced = again (once {c = fast} refl) refl

replaced_for_good_example : accepted (compare_routes slow near) ≡ false
replaced_for_good_example = replaced_for_good slow near near-Displaced

-- Handler 1 takes the path, handler 2 is kept as the alternate, and the announcement of 1 ends.
abbrev probe : ℕ → RouteStats
probe h = if h == 1 then fast else slow

abbrev taken : Election
taken = elect probe 1 vacant (arrive 1 true false no_route)

abbrev kept : Election
kept = elect probe 2 (route 1) (arrive 2 true false taken)

abbrev ended : Election
ended = end_announcement 1 kept

ended-Reach : Reach ended
unfolding elect
ended-Reach =
    later
      (later (later here (elects probe 1 true false vacant refl (inl refl)))
        (elects probe 2 true false (route 1) refl (inl refl)))
      (ends 1)

Reach-IsElection_example : IsElection none ended
Reach-IsElection_example = Reach-IsElection ended-Reach

alternate_promoted_example : (0 < ended.promotes) × ((promoting_now vacant ended).slot ≡ route 2)
unfolding elect end_announcement accepted compare_routes
alternate_promoted_example =
    alternate_promoted ended 2 vacant ended-Reach refl refl refl (λ a s. ground arith) (λ s. cc)
      (inr (refl, λ a s. ground arith))

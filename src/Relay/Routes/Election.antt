-- ===== src/Relay/Routes/Election.antt =====
-- internal/relay/server.go, the routes of one broadcast path under routeMu: the election between the
-- route in use and a new one, the alternate that is kept, and its promotion. A handler is a number.
-- The TrackMux is gomoqt's: the last Announce holds the path until its announcement ends, and an
-- Announce ends the announcement of the one before. Callbacks of an announcement run in goroutines of
-- their own, so what they are to do is pending until they have routeMu.
use qumo.Common.{
  ℕ, ◌+◌, ◌-◌, Bool, true, false, not, ◌&&◌, ◌||◌, Option, none, some, if◌then◌else◌, update, ◌==◌,
}
use qumo.Relay.Routes.{RouteStats, accepted, compare_routes}

-- Who holds the path at the TrackMux: nobody, a relay handler, or a handler of another kind.
pub data Slot : Type 0 where
  vacant other : Slot
  route : ℕ → Slot

-- `active h`: the announcement of `h` has not ended. `cancelled h`: its context is done. `draining h`:
-- Drain was called. `promoting h` and `discarding h`: the callbacks of installRoute and of
-- retainRouteLocked stand at the announcement. `discards h` and `promotes`: the calls of
-- discardAlternate and promoteAlternate that are yet to run. `retained` is the gauge.
pub record Election : Type 0 where
  pub known : ℕ → Bool
  pub active : ℕ → Bool
  pub cancelled : ℕ → Bool
  pub draining : ℕ → Bool
  pub promoting : ℕ → Bool
  pub discarding : ℕ → Bool
  pub discards : ℕ → Bool
  pub promotes : ℕ
  pub slot : Slot
  pub alternate : Option ℕ
  pub retained : ℕ

abbrev pub no_route : Election
no_route = record {
  known = λ h. false;
  active = λ h. false;
  cancelled = λ h. false;
  draining = λ h. false;
  promoting = λ h. false;
  discarding = λ h. false;
  discards = λ h. false;
  promotes = 0;
  slot = vacant;
  alternate = none;
  retained = 0;
}

abbrev pub cancel : ℕ → Election → Election
cancel h e = record e { cancelled = update e.cancelled h true }

abbrev pub drain : ℕ → Election → Election
drain h e = record e { draining = update e.draining h true }

-- RouteStats, of the measurements at the time of the call.
abbrev pub route_stats : (ℕ → RouteStats) → Election → ℕ → RouteStats
route_stats probe e h = record (probe h) { alive = not (e.cancelled h) && e.active h }

-- The announcement of `h` ends, and its callbacks start.
unfoldable pub end_announcement : ℕ → Election → Election
end_announcement h e = record e {
  active = update e.active h false;
  promoting = update e.promoting h false;
  discarding = update e.discarding h false;
  promotes = if e.promoting h then e.promotes + 1 else e.promotes;
  discards = if e.discarding h then update e.discards h true else e.discards;
}

-- TrackMux.Announce ends the announcement that held the path.
unfoldable pub displace : Election → Election
unfolding end_announcement
displace e = elim e.slot [ route a ↦ end_announcement a e | _ ↦ e ]

-- AfterFunc runs a callback at once when the announcement has ended already.
abbrev pub announce : ℕ → Election → Election
announce h e = record e {
  slot = route h;
  promoting = update e.promoting h (e.active h);
  promotes = if e.active h then e.promotes else e.promotes + 1;
}

unfoldable pub install_route : ℕ → Election → Election
unfolding displace
install_route h e = announce h (displace e)

abbrev pub keep_alternate : ℕ → Election → Election
keep_alternate h e = record e {
  alternate = some h;
  retained = e.retained + 1;
  discarding = update e.discarding h true;
}

abbrev pub drop_alternate : ℕ → Election → Election
drop_alternate h e = record e {
  alternate = none;
  retained = e.retained - 1;
  discarding = update e.discarding h false;
}

unfoldable pub retain_route : (ℕ → RouteStats) → ℕ → Election → Election
retain_route probe h e =
    if not (e.active h) || e.cancelled h then cancel h e else (elim e.alternate [
      | none ↦ keep_alternate h e
      | some prev ↦
          if not (accepted (compare_routes (route_stats probe e h) (route_stats probe e prev)))
          then cancel h e
          else keep_alternate h (cancel prev (drop_alternate prev e))
    ])

-- The part of serveSession under routeMu, with what TrackHandler returned.
unfoldable pub elect : (ℕ → RouteStats) → ℕ → Slot → Election → Election
unfolding install_route retain_route
elect probe h existing e = elim existing [
  | route a ↦
      if accepted (compare_routes (route_stats probe e h) (route_stats probe e a))
      then install_route h (drain a e)
      else retain_route probe h e
  | _ ↦ install_route h e
]

unfoldable pub discard_alternate : ℕ → Election → Election
discard_alternate h e = elim e.alternate [
  | none ↦ e
  | some a ↦
      if a == h then cancel h (record e { alternate = none; retained = e.retained - 1 }) else e
]

unfoldable pub promote_alternate : Slot → Election → Election
unfolding install_route
promote_alternate existing e = elim e.alternate [
  | none ↦ e
  | some h ↦
      let popped = drop_alternate h e in
      if not (e.active h) || e.cancelled h then cancel h popped else (elim existing [
        | vacant ↦ install_route h popped
        | other ↦ cancel h popped
        | route a ↦
            if not (e.cancelled a) && e.active a then cancel h popped else install_route h popped
      ])
]

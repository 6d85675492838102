-- ===== src/Relay/Routes/Steps.antt =====
-- internal/relay/server.go, the routes of one broadcast path: who calls what, in any order.
use qumo.Common.{ℕ, ◌-◌, ◌<◌, ◌≡◌, Bool, true, false, ◌⊎◌, update}
use qumo.Relay.Routes.{RouteStats}
use qumo.Relay.Routes.Election.{
  Slot, vacant, other, route, Election, no_route, cancel, end_announcement, displace, elect,
  discard_alternate, promote_alternate,
}

-- A handler that newRelayHandler made, whose announcement or session may have ended already.
abbrev pub arrive : ℕ → Bool → Bool → Election → Election
arrive h active cancelled e = record e {
  known = update e.known h true;
  active = update e.active h active;
  cancelled = update e.cancelled h cancelled;
  draining = update e.draining h false;
}

-- What TrackHandler may return: who announced last, or nobody when that announcement has ended.
abbrev pub Found : Election → Slot → Type 0
Found e found =
    (found ≡ e.slot) ⊎ ((found ≡ vacant) × ((a : ℕ) → e.slot ≡ route a → e.active a ≡ false))

abbrev pub discarding_now : ℕ → Election → Election
discarding_now h e = discard_alternate h (record e { discards = update e.discards h false })

abbrev pub promoting_now : Slot → Election → Election
promoting_now found e = promote_alternate found (record e { promotes = e.promotes - 1 })

pub data Step (e : Election) : Election → Type 0 where
  elects :
      (probe : ℕ → RouteStats) (h : ℕ) (active cancelled : Bool) (found : Slot)
      → e.known h ≡ false
      → Found e found
      → Step e (elect probe h found (arrive h active cancelled e))
  ends : (h : ℕ) → Step e (end_announcement h e)
  cancels : (h : ℕ) → Step e (cancel h e)
  discards_run : (h : ℕ) → e.discards h ≡ true → Step e (discarding_now h e)
  promotes_run : (found : Slot) → 0 < e.promotes → Found e found → Step e (promoting_now found e)
  others_announce : Step e (record (displace e) { slot = other })

pub data Reach : Election → Type 0 where
  here : Reach no_route
  later : {e f : Election} → Reach e → Step e f → Reach f

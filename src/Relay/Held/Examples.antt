-- ===== src/Relay/Held/Examples.antt =====
-- internal/relay/admit.go, heldGrants: a session's run, and the theorems at it.
use qumo.Common.{
  ℕ, ◌+◌, ◌<◌, ◌≡◌, refl, true, false, List, [], ◌∷◌, ◌++◌, if◌then◌else◌, codes, text_eq,
}
use qumo.Relay.Held.{
  UsageCall, opened_usage, publishing_usage, HeldGrants, no_grants, begin_ticket, settle_granted,
  usage_calls, count_pending, release_pending_locked, holding, watch, arm_locked, fire,
}
use qumo.Relay.Held.Steps.{
  HeldSystem, admitted, with_held, begins, grants_one, holds_one, watches, HeldReach, held_start,
  held_step,
}
use qumo.Relay.Held.Bound.{IsBound}
use qumo.Relay.Held.Usage.{HeldReach-IsBound}
use qumo.Relay.Held.Deadline.{pending_once, Closes, deadline}

-- A session beside two pending ones that watches its deadline of one second.
abbrev watched_session : HeldSystem
watched_session = with_held (admitted 2) (watch 1_000_000_000 (admitted 2).grants.held)

abbrev alone : HeldGrants
alone = watched_session.grants.held

-- A ticket of the key "k1" in flight.
abbrev flying_session : HeldSystem
flying_session =
    record (with_held watched_session
      (record alone { key = codes "k1"; in_flight = alone.in_flight + 1 })) {
        flying = codes "k1" ∷ [];
      }

-- It is granted, and does not publish.
abbrev granted_session : HeldSystem
granted_session =
    record (with_held flying_session (settle_granted false flying_session.grants.held)) {
      flying = [];
      granted = record { kid = codes "k1"; publishes = false } ∷ [];
      calls = flying_session.calls ++ usage_calls false flying_session.grants.held;
    }

abbrev holding_session : HeldSystem
holding_session = record granted_session {
  grants = holding granted_session.grants;
  holds = granted_session.holds + 1;
}

watched_session-Reach : HeldReach (admitted 2) watched_session
watched_session-Reach = held_step held_start (watches 1_000_000_000)

holding_session-Reach : HeldReach (admitted 2) holding_session
unfolding begin_ticket watch arm_locked no_grants count_pending text_eq
holding_session-Reach =
    held_step
      (held_step
        (held_step watched_session-Reach (
          begins (codes "k1") (record alone { key = codes "k1"; in_flight = alone.in_flight + 1 })
            refl refl))
        (grants_one (codes "k1") false [] [] refl))
      holds_one

HeldReach-IsBound_example :
    IsBound holding_session.grants.held []
      (record { kid = codes "k1"; publishes = false } ∷ [])
      holding_session.calls
HeldReach-IsBound_example = HeldReach-IsBound 2 holding_session-Reach

-- The second ticket, which publishes, is told as publishing.
second_publishes :
    (calls : List UsageCall) × (calls
      ≡ holding_session.calls ++ usage_calls true holding_session.grants.held)
    × (calls ≡ opened_usage false ∷ publishing_usage ∷ [])
unfolding usage_calls settle_granted holding release_pending_locked watch arm_locked no_grants
    count_pending
second_publishes = (opened_usage false ∷ publishing_usage ∷ [], refl, refl)

pending_once_example :
    (holding_session.grants.count ≡ (if holding_session.grants.held.pending then 3 else 2))
    × (0 < holding_session.holds → holding_session.grants.held.pending ≡ false)
pending_once_example = pending_once 2 holding_session-Reach

deadline_example :
    (watched_session.grants.held.watched ≡ true
      → watched_session.holds ≡ 0
      → Closes watched_session)
    × (0 < watched_session.holds
        → (t : ℕ) → fire t watched_session.grants.held ≡ (watched_session.grants.held, false))
deadline_example = deadline 2 watched_session-Reach

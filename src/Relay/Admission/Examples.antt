-- ===== src/Relay/Admission/Examples.antt =====
-- internal/relay/admit.go: sessions admitted, and the theorems at concrete inputs.
use qumo.Relay.Admission.{try_pending}
use qumo.Relay.Admission.Pending.{
  no_sessions, PendingReach, tries, pending_here, pending_later, IsLimited, pending_within,
}

-- With room for one, the second session fails.
one_session-Reach : PendingReach 1 no_sessions (record { count = 2; sessions = 1; failing = 1 })
unfolding try_pending
one_session-Reach = pending_later (pending_later pending_here tries) tries

pending_within_example : IsLimited 1 (record { count = 2; sessions = 1; failing = 1 })
pending_within_example = pending_within 1 one_session-Reach

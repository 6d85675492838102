-- ===== src/Relay/Lease/Examples.antt =====
-- internal/relay/lease.go: a concrete lease, and the theorems at concrete inputs.
use qumo.Common.{◌≡◌, refl, false, some, none, err, arith}
use qumo.Auth.Verifier.{refused, forbidden_status}
use qumo.Relay.Admission.{Reply, auth_outcome}
use qumo.Relay.Lease.{
  Lease, start_lease, Leased, leased, settle_check, settled, LeaseReach, starts, goes, fires, looks,
  settles,
}
use qumo.Relay.Lease.Timer.{IsLeased, LeaseReach-IsLeased}

abbrev lease : Lease
lease = record {
  timer = some 60_000_000_000;
  cadence = 60_000_000_000;
  failures = 0;
  stopped = false;
  ended = false;
}

lease_started : start_lease 60_000_000_000 ≡ some lease
unfolding start_lease
lease_started = refl

abbrev after_fire : Leased
after_fire = record (leased lease) { lease = record lease { timer = none }; fired = 1 }

abbrev after_look : Leased
after_look = record after_fire { fired = 0; checking = 1 }

abbrev refusal : Reply
refusal = err (refused forbidden_status)

abbrev after_refusal : Leased
after_refusal = settled (auth_outcome refusal) (settle_check refusal 0 after_look.lease) after_look

refusal_reached : LeaseReach (leased lease) after_refusal
refusal_reached =
    goes after_look after_refusal
      (goes after_fire after_look
        (goes (leased lease) after_fire starts (fires 60_000_000_000 refl)) (looks (omega arith)))
      (settles refusal 0 (omega arith) (omega arith))

refusal_closes : after_refusal.closings ≡ 1
unfolding settle_check
refusal_closes = refl

LeaseReach-IsLeased_example : IsLeased after_refusal
LeaseReach-IsLeased_example =
    LeaseReach-IsLeased 60_000_000_000 lease after_refusal lease_started refusal_reached

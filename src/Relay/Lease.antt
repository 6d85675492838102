-- ===== src/Relay/Lease.antt =====
-- internal/relay/lease.go: the lease of a session, which is checked again at a cadence. Delays are in
-- nanoseconds. `draw` is what rand.N returned.
pub mod Timer
mod Examples
use qumo.Common.{
  ℕ, zero, suc, ◌+◌, ◌-◌, ◌*◌, ◌/◌, ◌^◌, ◌<◌, ◌≤◌, ◌≡◌, min, Bool, true, false, Option, none, some,
  ltb, leb, if◌then◌else◌, Result, ok, err,
}
use qumo.Auth.Verifier.{AuthGrant}
use qumo.Relay.Admission.{
  Reply, Outcome, unchecked, admitted, refused_outcome, error, busy, auth_outcome,
}

abbrev pub revalidate_retry_base : ℕ
revalidate_retry_base = 1_000_000_000

abbrev pub revalidate_retry_max : ℕ
revalidate_retry_max = 30_000_000_000

-- `timer` is the delay with which it is armed, and `ended` whether the lease ended the session, for
-- which endRefused is its only reason.
pub record Lease : Type 0 where
  pub timer : Option ℕ
  pub cadence : ℕ
  pub failures : ℕ
  pub stopped : Bool
  pub ended : Bool

unfoldable pub start_lease : ℕ → Option Lease
start_lease cadence =
    if leb cadence 0
    then none
    else some (record {
      timer = some cadence;
      cadence = cadence;
      failures = 0;
      stopped = false;
      ended = false;
    })

abbrev pub stop : Lease → Lease
stop l = record l { stopped = true; timer = none }

-- The exponential delay, which does not overflow: 2 ^ 30 times the base is below 2 ^ 63.
abbrev pub retry_ceiling : ℕ → ℕ
retry_ceiling attempt = min (revalidate_retry_base * 2 ^ min (attempt - 1) 30) revalidate_retry_max

abbrev pub retry_delay : ℕ → ℕ → ℕ
retry_delay attempt draw = retry_ceiling attempt / 2 + draw

abbrev pub rearm : ℕ → Lease → Lease
rearm next l = if ltb 0 next then record l { timer = some next } else l

abbrev pub revalidate_of : Reply → ℕ
revalidate_of (ok (some g)) = g.revalidate
revalidate_of (ok none) = 0
revalidate_of (err e) = 0

-- The lease that a reply leaves, and whether it ends the session.
unfoldable pub on_outcome : Outcome → ℕ → ℕ → Lease → Lease × Bool
on_outcome refused_outcome revalidate draw l = (record l { stopped = true; ended = true }, true)
on_outcome error revalidate draw l =
    (rearm (retry_delay (l.failures + 1) draw) (record l { failures = l.failures + 1 }), false)
on_outcome admitted revalidate draw l =
    (rearm revalidate (record l { failures = 0; cadence = revalidate }), false)
on_outcome unchecked revalidate draw l = (rearm l.cadence (record l { failures = 0 }), false)
on_outcome busy revalidate draw l = (rearm l.cadence l, false)

-- The second part of check, under the lock, with the reply that the first part asked for.
unfoldable pub settle_check : Reply → ℕ → Lease → Lease × Bool
unfolding on_outcome auth_outcome
settle_check reply draw l =
    if l.stopped then (l, false) else on_outcome (auth_outcome reply) (revalidate_of reply) draw l

-- A session with its lease: the timers that fired and have not looked at `stopped`, the checks that
-- wait for a reply, and how many times the session was closed by its lease. `over` is whether the
-- session's end stopped the lease, and `refused` whether a check took a refusal before the lease was
-- stopped: both are kept by the model alone.
pub record Leased : Type 0 where
  pub lease : Lease
  pub fired : ℕ
  pub checking : ℕ
  pub closings : ℕ
  pub over : Bool
  pub refused : Bool

abbrev pub leased : Lease → Leased
leased l = record {
  lease = l;
  fired = 0;
  checking = 0;
  closings = 0;
  over = false;
  refused = false;
}

abbrev pub is_refusal : Outcome → Bool
is_refusal refused_outcome = true
is_refusal error = false
is_refusal admitted = false
is_refusal unchecked = false
is_refusal busy = false

abbrev pub settled : Outcome → Lease × Bool → Leased → Leased
settled o x s = record s {
  lease = x.0;
  checking = s.checking - 1;
  closings = if x.1 then s.closings + 1 else s.closings;
  refused = if s.lease.stopped then s.refused else is_refusal o;
}

-- The session's end, the timer, and the two parts of check, in any order. rand.N draws a number below
-- its argument.
pub data LeaseStep (s : Leased) : Leased → Type 0 where
  stops : LeaseStep s (record s { lease = stop s.lease; over = true })
  fires :
      (delay : ℕ)
      → s.lease.timer ≡ some delay
      → LeaseStep s (record s { lease = record s.lease { timer = none }; fired = s.fired + 1 })
  looks :
      0 < s.fired
      → LeaseStep s (record s {
        fired = s.fired - 1;
        checking = if s.lease.stopped then s.checking else s.checking + 1;
      })
  settles :
      (reply : Reply) (draw : ℕ)
      → 0 < s.checking
      → draw < retry_ceiling (s.lease.failures + 1) / 2 + 1
      → LeaseStep s (settled (auth_outcome reply) (settle_check reply draw s.lease) s)

pub data LeaseReach (start : Leased) : Leased → Type 0 where
  starts : LeaseReach start start
  goes : (s t : Leased) → LeaseReach start s → LeaseStep s t → LeaseReach start t

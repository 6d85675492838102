-- ===== src/Relay/Lease/Timer.antt =====
-- internal/relay/lease.go: what holds of a lease whatever order its calls come in.
use qumo.Common.{
  ◌/◌, ◌≢◌, ◌||◌, ok, err, ℕ, zero, suc, ◌+◌, ◌-◌, ◌^◌, ◌<◌, ◌≤◌, ◌≡◌, refl, min, Bool, true, false,
  Option, none, some, if◌then◌else◌, arith, if_each,
}
use qumo.Relay.Admission.{
  Reply, Outcome, unchecked, admitted, refused_outcome, error, busy, auth_outcome,
}
use qumo.Relay.Lease.{
  Lease, start_lease, stop, retry_delay, retry_ceiling, revalidate_retry_base, revalidate_retry_max,
  is_refusal, on_outcome, settle_check, revalidate_of, Leased, leased, settled, LeaseStep, stops,
  fires, looks, settles, LeaseReach, starts, goes,
}

abbrev armed : Option ℕ → ℕ
armed none = 0
armed (some delay) = 1

-- The check that is to come or under way.
abbrev pub checks : Leased → ℕ
checks s = armed s.lease.timer + s.fired + s.checking

-- The delay with which a timer is armed: the cadence, or from half a second to 30 seconds after checks
-- in a row that could not be answered.
abbrev pub Due : Lease → Type 0
Due l =
    (delay : ℕ)
    → l.timer ≡ some delay
    → (l.failures ≡ 0 → delay ≡ l.cadence)
      × (0 < l.failures → (revalidate_retry_base / 2 ≤ delay) × (delay ≤ revalidate_retry_max))

pub record IsLeased (s : Leased) : Type 0 where
  pub one_check : checks s ≤ 1
  pub goes_on : s.over ≡ false → s.refused ≡ false → 0 < s.lease.cadence → checks s ≡ 1
  pub stopped_as : s.lease.stopped ≡ (s.over || s.refused)
  pub ended_as : s.lease.ended ≡ s.refused
  pub closed_as : s.closings ≡ (if s.refused then 1 else 0)
  pub due : Due s.lease

pow_pos : (k : ℕ) → 1 ≤ 2 ^ k
pow_pos zero = omega arith
pow_pos (suc k) = let a = pow_pos k in omega arith

retry_delay_bounds :
    (attempt draw : ℕ)
    → draw < retry_ceiling attempt / 2 + 1
    → (revalidate_retry_base / 2 ≤ retry_delay attempt draw)
      × (retry_delay attempt draw ≤ revalidate_retry_max)
retry_delay_bounds attempt draw lt =
    let a = pow_pos (min (attempt - 1) 30) in (omega arith, omega arith)

-- What a reply makes of the lease of a session that is not stopped, whose timer has fired.
record Settled (o : Outcome) (x : Lease × Bool) : Type 0 where
  keeps_one : armed x.0.timer ≤ 1
  rearmed : is_refusal o ≡ false → 0 < x.0.cadence → armed x.0.timer ≡ 1
  stops_as : x.0.stopped ≡ is_refusal o
  ends_as : x.0.ended ≡ is_refusal o
  closes_as : x.1 ≡ is_refusal o
  due_then : Due x.0

module _ (revalidate draw : ℕ) (l : Lease) (running : l.stopped ≡ false) (lives : l.ended ≡ false)
    (fired : l.timer ≡ none) (drawn : draw < retry_ceiling (l.failures + 1) / 2 + 1) where
  on_outcome-Settled : (o : Outcome) → o ≢ busy → Settled o (on_outcome o revalidate draw l)
  unfolding on_outcome
  on_outcome-Settled refused_outcome b = record {
    keeps_one = ground (arith, fired);
    rearmed = λ e c. absurd cc;
    stops_as = refl;
    ends_as = refl;
    closes_as = refl;
    due_then = λ d e. absurd cc;
  }
  on_outcome-Settled error b =
      let (low, high) = retry_delay_bounds (l.failures + 1) draw drawn in
      record {
        keeps_one = ground (arith, fired);
        rearmed = λ e c. ground (arith, fired);
        stops_as = ground arith;
        ends_as = ground arith;
        closes_as = refl;
        due_then = λ d e. ground (arith, fired);
      }
  on_outcome-Settled admitted b = record {
    keeps_one = ground (arith, fired);
    rearmed = λ e c. ground (arith, fired);
    stops_as = ground arith;
    ends_as = ground arith;
    closes_as = refl;
    due_then = λ d e. ground (arith, fired);
  }
  on_outcome-Settled unchecked b = record {
    keeps_one = ground (arith, fired);
    rearmed = λ e c. ground (arith, fired);
    stops_as = ground arith;
    ends_as = ground arith;
    closes_as = refl;
    due_then = λ d e. ground (arith, fired);
  }
  on_outcome-Settled busy b = absurd (b refl)

auth_outcome-busy : (reply : Reply) → auth_outcome reply ≢ busy
unfolding auth_outcome
auth_outcome-busy (ok none) e = cc
auth_outcome-busy (ok (some g)) e = cc
auth_outcome-busy (err x) e = ground arith

armed_none : (t : Option ℕ) → armed t ≡ 0 → t ≡ none
armed_none none h = refl
armed_none (some delay) h = absurd (omega arith)

settled-IsLeased :
    (s : Leased) (o : Outcome) (x : Lease × Bool)
    → IsLeased s
    → 0 < s.checking
    → s.lease.stopped ≡ false
    → Settled o x
    → IsLeased (settled o x s)
settled-IsLeased s o x v some_check running w =
    let one = v.one_check in
    let keeps = w.keeps_one in
    let over : s.over ≡ false = ground (arith, v.stopped_as, running) in
    let none_yet : s.refused ≡ false = ground (arith, v.stopped_as, running) in
    record {
      one_check = omega arith;
      goes_on = λ e r c. let now = w.rearmed (ground (arith, r, running)) c in omega arith;
      stopped_as = ground (arith, w.stops_as, over, running);
      ended_as = ground (arith, w.ends_as, running);
      closed_as = ground (arith, w.closes_as, v.closed_as, none_yet, running);
      due = w.due_then;
    }

settle_check-IsLeased :
    (s : Leased) (reply : Reply) (draw : ℕ)
    → IsLeased s
    → 0 < s.checking
    → draw < retry_ceiling (s.lease.failures + 1) / 2 + 1
    → IsLeased (settled (auth_outcome reply) (settle_check reply draw s.lease) s)
unfolding settle_check
settle_check-IsLeased s reply draw v some_check drawn =
    let one = v.one_check in
    let o = auth_outcome reply in
    if_each (λ x. IsLeased (settled o x s)) s.lease.stopped (s.lease, false) _
      (λ e. record {
        one_check = omega arith;
        goes_on = λ f r c. absurd (ground (arith, v.stopped_as, e));
        stopped_as = ground (arith, v.stopped_as, e);
        ended_as = ground (arith, v.ended_as, e);
        closed_as = ground (arith, v.closed_as, e);
        due = v.due;
      })
      (λ e.
        let lives : s.lease.ended ≡ false = ground (arith, v.stopped_as, v.ended_as, e) in
        settled-IsLeased s o _ v some_check e (
          on_outcome-Settled (revalidate_of reply) draw s.lease e lives
            (armed_none s.lease.timer (omega arith)) drawn o (auth_outcome-busy reply)))

stops-IsLeased :
    (s : Leased) → IsLeased s → IsLeased (record s { lease = stop s.lease; over = true })
stops-IsLeased s v =
    let one = v.one_check in
    record {
      one_check = omega arith;
      goes_on = λ e r c. absurd cc;
      stopped_as = refl;
      ended_as = v.ended_as;
      closed_as = v.closed_as;
      due = λ d e. absurd cc;
    }

fires-IsLeased :
    (s : Leased) (delay : ℕ)
    → IsLeased s
    → s.lease.timer ≡ some delay
    → IsLeased (record s { lease = record s.lease { timer = none }; fired = s.fired + 1 })
fires-IsLeased s delay v e =
    let one = v.one_check in
    let was : armed s.lease.timer ≡ 1 = ground (arith, e) in
    record {
      one_check = omega arith;
      goes_on = λ f r c. let on = v.goes_on f r c in omega arith;
      stopped_as = v.stopped_as;
      ended_as = v.ended_as;
      closed_as = v.closed_as;
      due = λ d q. absurd cc;
    }

looks-IsLeased :
    (s : Leased)
    → IsLeased s
    → 0 < s.fired
    → IsLeased (record s {
      fired = s.fired - 1;
      checking = if s.lease.stopped then s.checking else s.checking + 1;
    })
looks-IsLeased s v some_fired =
    let one = v.one_check in
    record {
      one_check = ground arith;
      goes_on = λ f r c. let on = v.goes_on f r c in ground (arith, v.stopped_as, f, r);
      stopped_as = v.stopped_as;
      ended_as = v.ended_as;
      closed_as = v.closed_as;
      due = v.due;
    }

step-IsLeased : (s t : Leased) → IsLeased s → LeaseStep s t → IsLeased t
step-IsLeased s _ v stops = stops-IsLeased s v
step-IsLeased s _ v (fires delay e) = fires-IsLeased s delay v e
step-IsLeased s _ v (looks h) = looks-IsLeased s v h
step-IsLeased s _ v (settles reply draw h d) = settle_check-IsLeased s reply draw v h d

start_lease-IsLeased :
    (cadence : ℕ) (l : Lease) → start_lease cadence ≡ some l → IsLeased (leased l)
unfolding start_lease
start_lease-IsLeased cadence l e = record {
  one_check = ground arith;
  goes_on = λ f r c. ground arith;
  stopped_as = ground arith;
  ended_as = ground arith;
  closed_as = refl;
  due = λ d q. ground arith;
}

-- From the start of a lease, in whatever order its timer fires, its checks look whether it is stopped
-- and take their replies, and the session ends: at most one check is to come or under way, and there
-- is one as long as the session has not ended, no check took a refusal and there is a cadence, whatever
-- other replies the checks took. The lease is stopped exactly when the session ended or a check took a
-- refusal before that; it ended the session, and closed it, once, exactly in the second case. A timer
-- is armed with the cadence, or, after checks in a row that could not be answered, with half a second
-- to 30 seconds.
pub LeaseReach-IsLeased :
    (cadence : ℕ) (l : Lease) (s : Leased)
    → start_lease cadence ≡ some l
    → LeaseReach (leased l) s
    → IsLeased s
LeaseReach-IsLeased cadence l _ e starts = start_lease-IsLeased cadence l e
LeaseReach-IsLeased cadence l _ e (goes s t before step) =
    step-IsLeased s t (LeaseReach-IsLeased cadence l s e before) step

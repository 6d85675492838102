-- ===== src/Relay/Held/Deadline.antt =====
-- internal/relay/admit.go, heldGrants: the deadline of an anonymous session, and the server's count of
-- the pending ones.
use qumo.Common.{
  ℕ, suc, ◌+◌, ◌-◌, ◌<◌, ◌≡◌, ◌≢◌, refl, Bool, true, false, none, some, if◌then◌else◌, Text, arith,
  inl, inr, Option-cases, ◌∙◌,
}
use qumo.Relay.Held.{
  HeldGrants, Counted, end_unbound, no_grants, begin_ticket, settle_refused, settle_granted,
  count_pending, release_pending_locked, holding, arm_locked, released, watch, fire, unwatch,
}
use qumo.Relay.Held.Steps.{
  HeldSystem, admitted, HeldStep, begins, refuses, grants_one, holds_one, releases_one, watches,
  fires, ends, HeldReach, held_start, held_step,
}

-- What holds of a session's deadline between two calls, beside `others` pending sessions.
pub record IsWatched (others : ℕ) (c : Counted) (holds closings : ℕ) : Type 0 where
  pub live_is : c.held.live ≡ holds
  pub runs :
      c.held.watched ≡ true → c.held.live ≡ 0 → (c.held.running ≡ true) × (c.held.timer ≢ none)
  pub stopped : 0 < c.held.live → c.held.running ≡ false
  pub holds_released : 0 < c.held.live → c.held.pending ≡ false
  pub count_is : c.count ≡ (if c.held.pending then suc others else others)

module _ (others : ℕ) (c : Counted) (holds closings : ℕ)
    (v : IsWatched others c holds closings) where
  holding-IsWatched : IsWatched others (holding c) (holds + 1) closings
  unfolding holding release_pending_locked
  holding-IsWatched = record {
    live_is = ground (arith, v.live_is);
    runs = λ w l. ground (arith, v.live_is);
    stopped = λ l. ground arith;
    holds_released = λ l. ground arith;
    count_is = ground (arith, v.count_is);
  }

  released-IsWatched :
      0 < holds → IsWatched others (record c { held = released c.held }) (holds - 1) closings
  unfolding released arm_locked
  released-IsWatched some_hold = record {
    live_is = ground (arith, v.live_is);
    runs = λ w l. ground (arith, v.live_is, v.runs);
    stopped = λ l. ground (arith, v.live_is, v.stopped);
    holds_released = λ l. ground (arith, v.live_is, v.holds_released);
    count_is = ground (arith, v.count_is);
  }

  watch-IsWatched :
      (wait : ℕ) → IsWatched others (record c { held = watch wait c.held }) holds closings
  unfolding watch arm_locked
  watch-IsWatched wait = record {
    live_is = ground (arith, v.live_is);
    runs = λ w l. ground (arith, v.live_is, v.runs);
    stopped = λ l. ground (arith, v.live_is, v.stopped);
    holds_released = λ l. ground (arith, v.live_is, v.holds_released);
    count_is = ground (arith, v.count_is);
  }

  fire-IsWatched : (t n : ℕ) → IsWatched others (record c { held = (fire t c.held).0 }) holds n
  unfolding fire
  fire-IsWatched t n = record {
    live_is = ground (arith, v.live_is);
    runs = λ w l. ground (arith, v.live_is, v.runs);
    stopped = λ l. ground (arith, v.live_is, v.stopped);
    holds_released = λ l. ground (arith, v.live_is, v.holds_released);
    count_is = ground (arith, v.count_is);
  }

  unwatch-IsWatched : IsWatched others (unwatch c) holds closings
  unfolding unwatch release_pending_locked
  unwatch-IsWatched = record {
    live_is = ground (arith, v.live_is);
    runs = λ w l. ground arith;
    stopped = λ l. ground arith;
    holds_released = λ l. ground (arith, v.holds_released);
    count_is = ground (arith, v.count_is);
  }

-- A change of the fields that say nothing of the deadline.
record SameDeadline (h k : HeldGrants) : Type 0 where
  live_is : k.live ≡ h.live
  watched_is : k.watched ≡ h.watched
  running_is : k.running ≡ h.running
  timer_is : k.timer ≡ h.timer
  pending_is : k.pending ≡ h.pending

SameDeadline-IsWatched :
    (others : ℕ) (c : Counted) (k : HeldGrants) (holds closings : ℕ)
    → SameDeadline c.held k
    → IsWatched others c holds closings
    → IsWatched others (record c { held = k }) holds closings
SameDeadline-IsWatched others c k holds closings d v = record {
  live_is = d.live_is ∙ v.live_is;
  runs = λ w l. ground (arith, v.runs, d.live_is, d.watched_is, d.running_is, d.timer_is);
  stopped = λ l. ground (arith, v.stopped, d.live_is, d.running_is);
  holds_released = λ l. ground (arith, v.holds_released, d.live_is, d.pending_is);
  count_is = ground (arith, v.count_is, d.pending_is);
}

module _ (h : HeldGrants) where
  begin-Same : (kid : Text) (k : HeldGrants) → begin_ticket kid h ≡ some k → SameDeadline h k
  unfolding begin_ticket
  begin-Same kid k e = ground arith

  refuse-Same : SameDeadline h (settle_refused h)
  unfolding settle_refused
  refuse-Same = ground arith

  grant-Same : (publishes : Bool) → SameDeadline h (settle_granted publishes h)
  unfolding settle_granted
  grant-Same publishes = ground arith

HeldStep-IsWatched :
    (others : ℕ) {s t : HeldSystem}
    → HeldStep s t
    → IsWatched others s.grants s.holds s.closings
    → IsWatched others t.grants t.holds t.closings
HeldStep-IsWatched others {s} (begins kid k n e) v =
    SameDeadline-IsWatched others _ _ _ _ (begin-Same s.grants.held kid k e) v
HeldStep-IsWatched others {s} (refuses kid xs ys e) v =
    SameDeadline-IsWatched others _ _ _ _ (refuse-Same s.grants.held) v
HeldStep-IsWatched others {s} (grants_one kid p xs ys e) v =
    SameDeadline-IsWatched others _ _ _ _ (grant-Same s.grants.held p) v
HeldStep-IsWatched others {s} holds_one v = holding-IsWatched others _ _ _ v
HeldStep-IsWatched others {s} (releases_one some_hold) v =
    released-IsWatched others _ _ _ v some_hold
HeldStep-IsWatched others {s} (watches wait) v = watch-IsWatched others _ _ _ v wait
HeldStep-IsWatched others {s} (fires t lt) v = fire-IsWatched others _ _ s.closings v t _
HeldStep-IsWatched others {s} ends v = unwatch-IsWatched others _ _ _ v

admitted-IsWatched : (others : ℕ) → IsWatched others (admitted others).grants 0 0
unfolding no_grants count_pending
admitted-IsWatched others = record {
  live_is = refl;
  runs = λ w l. cc;
  stopped = λ l. refl;
  holds_released = λ l. ground arith;
  count_is = refl;
}

HeldReach-IsWatched :
    (others : ℕ) {s : HeldSystem}
    → HeldReach (admitted others) s
    → IsWatched others s.grants s.holds s.closings
HeldReach-IsWatched others held_start = admitted-IsWatched others
HeldReach-IsWatched others (held_step r st) =
    HeldStep-IsWatched others st (HeldReach-IsWatched others r)

-- An anonymous session counts as one of the server's pending sessions at most once, whatever other
-- calls come when: the count is that of the others, and one more while the session is pending, which it
-- is not while a grant is in force.
pub pending_once :
    (others : ℕ) {s : HeldSystem}
    → HeldReach (admitted others) s
    → (s.grants.count ≡ (if s.grants.held.pending then suc others else others))
      × (0 < s.holds → s.grants.held.pending ≡ false)
pending_once others r =
    let v = HeldReach-IsWatched others r in
    (v.count_is, λ h. v.holds_released (ground (arith, v.live_is)))

-- What the timers of a session do: the one of the deadline is running and closes the session, once.
pub record Closes (s : HeldSystem) : Type 0 where
  pub t : ℕ
  pub timer_is : s.grants.held.timer ≡ some t
  pub running : s.grants.held.running ≡ true
  pub closes : (fire t s.grants.held).1 ≡ true
  pub reason : (fire t s.grants.held).0.closed_for ≡ end_unbound
  pub once : (u : ℕ) → (fire u (fire t s.grants.held).0).1 ≡ false

fire-Closes :
    (s : HeldSystem) (t : ℕ)
    → s.grants.held.watched ≡ true
    → s.grants.held.live ≡ 0
    → s.grants.held.running ≡ true
    → s.grants.held.timer ≡ some t
    → Closes s
unfolding fire
fire-Closes s t w l r e = record {
  t = t;
  timer_is = e;
  running = r;
  closes = ground arith;
  reason = ground arith;
  once = λ u. ground arith;
}

fire-holding : (t : ℕ) (h : HeldGrants) → 0 < h.live → fire t h ≡ (h, false)
unfolding fire
fire-holding t h l = ground arith

-- While the deadline of an anonymous session is watched and no grant is in force, a timer is running
-- that closes the session for good when it fires; while a grant is in force, no timer that fires, a
-- stopped one included, does anything.
pub deadline :
    (others : ℕ) {s : HeldSystem}
    → HeldReach (admitted others) s
    → (s.grants.held.watched ≡ true → s.holds ≡ 0 → Closes s)
      × (0 < s.holds → (t : ℕ) → fire t s.grants.held ≡ (s.grants.held, false))
deadline others {s} r =
    let v = HeldReach-IsWatched others r in
    (
      λ w n.
          let (run, is) = v.runs w (v.live_is ∙ n) in
          elim (Option-cases s.grants.held.timer) [
            | inl none_is ↦ absurd (is none_is)
            | inr (t, e) ↦ fire-Closes s t w (v.live_is ∙ n) run e
          ],
      λ some_hold t. fire-holding t s.grants.held (ground (arith, v.live_is)),
    )

-- ===== src/Relay/Held.antt =====
-- internal/relay/admit.go, heldGrants: what the grants in force decide about an anonymous session. Each
-- method holds the mutex, so it is one step.
pub mod Steps
pub mod Bound
pub mod Usage
pub mod Deadline
mod Examples
use qumo.Common.{
  ℕ, suc, ◌+◌, ◌-◌, Bool, true, false, not, ◌&&◌, ◌||◌, Option, none, some, List, [], ◌∷◌, ltb,
  ◌==◌, if◌then◌else◌, Text, codes, text_eq,
}

-- What usage is told: the calls of `open` and of `publishing`.
pub data UsageCall : Type 0 where
  opened_usage : Bool → UsageCall
  publishing_usage : UsageCall

-- `pending` is whether the pointer to the server's count is there, and `watched` whether `expire` is. A
-- timer is its number, `armed` counts them, and `running` is whether the last one is not stopped. How
-- long a timer takes, which is `wait`, is not modelled.
pub record HeldGrants : Type 0 where
  pub key : Text
  pub opened : Bool
  pub publishes : Bool
  pub in_flight : ℕ
  pub live : ℕ
  pub pending : Bool
  pub wait : ℕ
  pub watched : Bool
  pub timer : Option ℕ
  pub armed : ℕ
  pub running : Bool
  pub closed_for : Text

-- A session's grants beside the server's count of pending anonymous sessions.
pub record Counted : Type 0 where
  pub held : HeldGrants
  pub count : ℕ

abbrev pub end_unbound : Text
end_unbound = codes "no_credential"

unfoldable pub no_grants : HeldGrants
no_grants = record {
  key = [];
  opened = false;
  publishes = false;
  in_flight = 0;
  live = 0;
  pending = false;
  wait = 0;
  watched = false;
  timer = none;
  armed = 0;
  running = false;
  closed_for = [];
}

unfoldable pub bound_key : HeldGrants → Text
bound_key h = h.key

unfoldable pub begin_ticket : Text → HeldGrants → Option HeldGrants
begin_ticket kid h =
    if text_eq h.key []
    then some (record h { key = kid; in_flight = h.in_flight + 1 })
    else if text_eq h.key kid
    then some (record h { in_flight = h.in_flight + 1 })
    else none

unfoldable pub settle_refused : HeldGrants → HeldGrants
settle_refused h =
    let n = h.in_flight - 1 in
    record h { in_flight = n; key = if not h.opened && n == 0 then [] else h.key }

-- What settleGranted calls, in order.
unfoldable pub usage_calls : Bool → HeldGrants → List UsageCall
usage_calls publishes h =
    if not h.opened
    then opened_usage publishes ∷ []
    else if publishes && not h.publishes
    then publishing_usage ∷ []
    else []

unfoldable pub settle_granted : Bool → HeldGrants → HeldGrants
settle_granted publishes h = record h {
  in_flight = h.in_flight - 1;
  opened = true;
  publishes = if not h.opened then publishes else publishes || h.publishes;
}

unfoldable pub count_pending : HeldGrants → HeldGrants
count_pending h = record h { pending = true }

unfoldable pub release_pending_locked : Counted → Counted
release_pending_locked c =
    if c.held.pending
    then record c { held = record c.held { pending = false }; count = c.count - 1 }
    else c

-- `h.timer.Stop()`, of a timer that is there.
abbrev pub stop_timer : HeldGrants → HeldGrants
stop_timer h = record h { running = false }

unfoldable pub holding : Counted → Counted
holding c =
    let c' =
      release_pending_locked (record c { held = record c.held { live = c.held.live + 1 } }) in
    record c' { held = stop_timer c'.held }

-- The new timer is the last that was armed.
unfoldable pub arm_locked : HeldGrants → HeldGrants
arm_locked h = record h { timer = some h.armed; armed = suc h.armed; running = true }

unfoldable pub released : HeldGrants → HeldGrants
released h =
    let h' = record h { live = h.live - 1 } in
    if h'.live == 0 && h'.watched then arm_locked h' else h'

unfoldable pub watch : ℕ → HeldGrants → HeldGrants
watch wait h =
    let h' = record h { wait = wait; watched = true } in if h'.live == 0 then arm_locked h' else h'

abbrev pub is_timer : ℕ → Option ℕ → Bool
is_timer t none = false
is_timer t (some u) = t == u

-- The function of a timer. Closing the session is the call of `expire`.
unfoldable pub fire : ℕ → HeldGrants → HeldGrants × Bool
fire t h =
    if not (is_timer t h.timer) || ltb 0 h.live || not h.watched
    then (h, false)
    else (record h { closed_for = end_unbound; watched = false }, true)

unfoldable pub unwatch : Counted → Counted
unwatch c =
    release_pending_locked (record c { held = stop_timer (record c.held { watched = false }) })

unfoldable pub closed_reason : HeldGrants → Text
closed_reason h = h.closed_for

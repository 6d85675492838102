-- ===== src/Relay/Held/Steps.antt =====
-- internal/relay/admit.go, heldGrants: the calls of a session's tickets and timers, in any order.
use qumo.Common.{
  ℕ, suc, ◌+◌, ◌-◌, ◌<◌, ◌≡◌, Bool, false, some, List, [], ◌∷◌, ◌++◌, if◌then◌else◌, Text, text_eq,
}
use qumo.Relay.Held.{
  UsageCall, HeldGrants, Counted, no_grants, begin_ticket, settle_refused, usage_calls,
  settle_granted, count_pending, holding, released, watch, fire, unwatch,
}

-- A ticket that was granted: its key, and whether it publishes.
pub record Granted : Type 0 where
  pub kid : Text
  pub publishes : Bool

-- `flying` is the keys of the tickets in flight, `granted` the tickets granted, the last one first,
-- `holds` the grants in force that grant something, `calls` what usage was told, in order, and
-- `closings` how many times the session was closed.
pub record HeldSystem : Type 0 where
  pub grants : Counted
  pub flying : List Text
  pub granted : List Granted
  pub holds : ℕ
  pub calls : List UsageCall
  pub closings : ℕ

-- An anonymous session that was admitted beside `others` pending ones: reservePending counted it.
abbrev pub admitted : ℕ → HeldSystem
admitted others = record {
  grants = record { held = count_pending no_grants; count = suc others };
  flying = [];
  granted = [];
  holds = 0;
  calls = [];
  closings = 0;
}

abbrev pub with_held : HeldSystem → HeldGrants → HeldSystem
with_held s h = record s { grants = record s.grants { held = h } }

pub data HeldStep (s : HeldSystem) : HeldSystem → Type 0 where
  begins :
      (kid : Text) (h : HeldGrants)
      → text_eq kid [] ≡ false
      → begin_ticket kid s.grants.held ≡ some h
      → HeldStep s (record (with_held s h) { flying = kid ∷ s.flying })
  refuses :
      (kid : Text) (xs ys : List Text)
      → s.flying ≡ xs ++ kid ∷ ys
      → HeldStep s (record (with_held s (settle_refused s.grants.held)) { flying = xs ++ ys })
  grants_one :
      (kid : Text) (publishes : Bool) (xs ys : List Text)
      → s.flying ≡ xs ++ kid ∷ ys
      → HeldStep s (record (with_held s (settle_granted publishes s.grants.held)) {
        flying = xs ++ ys;
        granted = record { kid = kid; publishes = publishes } ∷ s.granted;
        calls = s.calls ++ usage_calls publishes s.grants.held;
      })
  holds_one : HeldStep s (record s { grants = holding s.grants; holds = s.holds + 1 })
  releases_one :
      0 < s.holds
      → HeldStep s (record (with_held s (released s.grants.held)) { holds = s.holds - 1 })
  watches : (wait : ℕ) → HeldStep s (with_held s (watch wait s.grants.held))
  fires :
      (t : ℕ)
      → t < s.grants.held.armed
      → HeldStep s (record (with_held s (fire t s.grants.held).0) {
        closings = if (fire t s.grants.held).1 then suc s.closings else s.closings;
      })
  ends : HeldStep s (record s { grants = unwatch s.grants })

pub data HeldReach (s : HeldSystem) : HeldSystem → Type 0 where
  held_start : HeldReach s s
  held_step : {t u : HeldSystem} → HeldReach s t → HeldStep t u → HeldReach s u

-- ===== src/Relay/Egress.antt =====
-- internal/relay/handler.go, egress: the loop that delivers a track's groups to one subscriber. The
-- loads of a round see the ring at different times, so what they return is an argument of the round.
pub mod Times
pub mod Rounds
pub mod Once
pub mod Positions
pub mod InOrder
pub mod Missed
pub mod Passed
mod Examples
use qumo.Common.{
  ℕ, ◌+◌, ◌-◌, Bool, true, false, Option, none, some, List, [], ◌∷◌, ◌++◌, map, ltb, ◌==◌,
  if◌then◌else◌,
}
use qumo.Relay.Ring.{GroupRing, get, head, earliest_available}
use qumo.Relay.Drops.{
  SubscribeDrop, DropDistributor, DropReporter, inc64, new_drop_reporter, sent, report,
  report_skipped, flush, is_handled,
}

-- moqt.SubscribeErrorCodeInternal and moqt.SubscribeErrorCodeTimeout.
pub record ErrorCodes : Type 0 where
  pub internal : ℕ
  pub timeout : ℕ

pub data DeliverResult : Type 0 where
  group_sent group_timed_out delivery_stopped : DeliverResult

-- What a subscriber is given: a group, opened and written to the end, or a SUBSCRIBE_DROP.
pub data Given : Type 0 where
  group : ℕ → Given
  told : SubscribeDrop → Given

-- How a round ends: with `continue`, at the wait, or with `return`.
pub data After : Type 0 where
  continues waits returns : After

-- What egress reads of the cache that get returned.
pub record Pickup : Type 0 where
  pub seq : ℕ
  pub highest_seq : ℕ

-- The variables of the loop.
pub record Egress : Type 0 where
  pub last : ℕ
  pub skipped : Bool
  pub drops : DropReporter

unfoldable pub start_position : Bool → GroupRing → ℕ
unfolding earliest_available
start_position from_start ring =
    if from_start then earliest_available ring - 1 else if head ring == 0 then 0 else head ring - 1

unfoldable pub new_egress : Bool → GroupRing → DropDistributor → Egress
unfolding start_position new_drop_reporter
new_egress from_start ring src = record {
  last = start_position from_start ring;
  skipped = false;
  drops = new_drop_reporter src;
}

-- The position that the round asks for, and whether groups were skipped.
unfoldable pub next_position : ℕ → ℕ → Egress → Egress
next_position latest earliest e =
    let last = inc64 e.last in
    if ltb last earliest
    then record e { last = latest; skipped = true }
    else record e { last = last }

-- The answer of a call on the reporter, as what the subscriber is given.
abbrev pub told_all : List SubscribeDrop → List Given
told_all [] = []
told_all (d ∷ ds) = told d ∷ told_all ds

abbrev pub with_drops : DropReporter → Egress → Egress
with_drops r e = record e { drops = r }

-- The flush before the wait.
unfoldable pub at_wait : DropDistributor → Egress → List Given × Egress × After
unfolding flush
at_wait src e = let (ds, r) = flush src e.drops in (told_all ds, with_drops r e, waits)

module _ (codes : ErrorCodes) where
  unfoldable pub after_skip : Pickup → Egress → List Given × Egress
  unfolding report_skipped
  after_skip cache e =
      if e.skipped
      then (let (ds, r) = report_skipped cache.seq cache.highest_seq codes.internal e.drops in
          (told_all ds, record e { skipped = false; drops = r }))
      else ([], e)

  -- The switch on the result of deliverGroup; `src` is the distributor of drops at the flush.
  unfoldable pub delivered :
      DropDistributor → Pickup → DeliverResult → Egress → List Given × Egress × After
  unfolding sent report flush
  delivered src cache delivery_stopped e = ([], e, returns)
  delivered src cache group_timed_out e =
      let (ds, r) =
        report
          (record { start_group = cache.seq; end_group = cache.seq; error_code = codes.timeout })
          e.drops in
      (told_all ds, with_drops r e, continues)
  delivered src cache group_sent e =
      let (ds, r) = flush src (sent cache.seq e.drops) in
      (group cache.seq ∷ told_all ds, with_drops r e, continues)

  -- A group that get found.
  unfoldable pub picked_up :
      DropDistributor → Pickup → DeliverResult → Egress → List Given × Egress × After
  unfolding after_skip delivered is_handled
  picked_up src cache result e =
      let (ds, e') = after_skip cache e in
      let (given, e'', after) = delivered src cache result e' in
      if is_handled cache.seq e'.drops then (ds, e', continues) else (ds ++ given, e'', after)

  -- One round: `latest` and `earliest` are what head and earliestAvailable return, and `found` what
  -- get returns at the position then asked for.
  unfoldable pub egress_round :
      ℕ → ℕ → Option Pickup → DropDistributor → DeliverResult → Egress → List Given × Egress × After
  unfolding next_position picked_up at_wait
  egress_round latest earliest found src result e =
      let e' = next_position latest earliest e in
      if ltb e.last latest
      then (elim found [ none ↦ at_wait src e' | some cache ↦ picked_up src cache result e' ])
      else at_wait src e

-- Past the wait: another broadcast was noticed before it or ended it, the track ended, or the
-- subscriber left.
pub data Wake : Type 0 where
  broadcast track_ended left : Wake

unfoldable pub woken : DropDistributor → Wake → Egress → List Given × Egress × After
unfolding flush
woken src broadcast e = ([], e, continues)
woken src track_ended e = let (ds, r) = flush src e.drops in (told_all ds, with_drops r e, returns)
woken src left e = ([], e, returns)

-- What egress reads of the group that get returns for a position, if it returns one.
unfoldable pub look : ℕ → GroupRing → Option Pickup
unfolding get
look pos ring = elim (get pos ring).0 [
  | none ↦ none
  | some a ↦ some (record { seq = (ring.heap a).seq; highest_seq = (ring.heap a).highest_seq })
]

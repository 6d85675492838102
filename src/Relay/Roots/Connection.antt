-- ===== src/Relay/Roots/Connection.antt =====
-- internal/relay/admit.go, registerConnection: the connection's own credential beside the tickets.
use qumo.Common.{
  false, All, subst, ◌++◌, text_eq, ℕ, ◌<◌, ◌≡◌, true, none, some, List, [], ◌∷◌, Text, arith,
  Among, ◌⊎◌, inl, inr,
}
use qumo.Relay.Roots.{
  Withdrawal, RootHolds, begin_ticket, abandon_ticket, retire_connection, register_ticket,
  release_ticket, register_connection, release_connection,
}
use qumo.Relay.Roots.Steps.{
  RootSystem, fresh_session, RootStep, begins, abandons, registers, releases, connects, disconnects,
  RootReach, root_here, root_later, count_retires,
}
use qumo.Relay.Roots.Invariant.{RootInv, IsBegun}
use qumo.Relay.Roots.Keeps.{RootStep-RootInv, RootReach-RootInv}

register-retired :
    (h : Withdrawal) (r : RootHolds)
    → r.conn_retired ≡ true
    → (register_ticket h r).0.conn_retired ≡ true
unfolding register_ticket retire_connection
register-retired h r e = ground arith

release-retired :
    (h : Withdrawal) (r : RootHolds)
    → r.conn_retired ≡ true
    → (release_ticket h r).conn_retired ≡ true
unfolding release_ticket
release-retired h r e = ground arith

connect-retired :
    (id : ℕ) (r r' : RootHolds)
    → register_connection id r ≡ some r'
    → r.conn_retired ≡ true
    → r'.conn_retired ≡ true
unfolding register_connection
connect-retired id r r' c e = ground arith

step-retired :
    {s t : RootSystem} → RootStep s t → s.roots.conn_retired ≡ true → t.roots.conn_retired ≡ true
unfolding begin_ticket abandon_ticket release_connection
step-retired (begins root role room) e = e
step-retired (abandons h xs ys p) e = e
step-retired {s} (registers h xs ys p) e = register-retired h s.roots e
step-retired {s} (releases h) e = release-retired h s.roots e
step-retired {s} (connects id r c) e = connect-retired id s.roots r c e
step-retired (disconnects id) e = e

-- A state that is reached keeps the invariant and the retirement.
reach-retired :
    {s t : RootSystem}
    → RootReach s t
    → RootInv s
    → s.roots.conn_retired ≡ true
    → RootInv t × (t.roots.conn_retired ≡ true)
reach-retired root_here v e = (v, e)
reach-retired (root_later r st) v e =
    let (v', e') = reach-retired r v e in (RootStep-RootInv st v', step-retired st e')

Among-count :
    (h : Withdrawal) (hs : List Withdrawal) → Among h hs → h.retires ≡ true → 0 < count_retires hs
unfolding count_retires
Among-count h [] a e = absurd a
Among-count h (x ∷ hs) (inl q) e = ground arith
Among-count h (x ∷ hs) (inr a) e = ground (arith, Among-count h hs a e)

refuses :
    (id : ℕ) (r : RootHolds)
    → (r.conn_retired ≡ true) ⊎ (0 < r.retiring)
    → register_connection id r ≡ none
unfolding register_connection
refuses id r (inl e) = ground arith
refuses id r (inr e) = ground arith

pending_Begun :
    (n : ℕ) (h : Withdrawal) (xs ys : List Withdrawal)
    → All (IsBegun n) (xs ++ h ∷ ys)
    → IsBegun n h
pending_Begun n h [] ys v = v.0
pending_Begun n h (x ∷ xs) ys v = pending_Begun n h xs ys v.1

registered-retired :
    (h : Withdrawal) (r : RootHolds)
    → h.retires ≡ true
    → text_eq h.root [] ≡ false
    → (register_ticket h r).0.conn_retired ≡ true
unfolding register_ticket retire_connection
registered-retired h r e rooted = ground arith

-- While a ticket that retires the connection's credential is in flight, the credential can't be
-- presented; and once one is registered, it is held no more and can't be presented, whatever is called
-- after that.
pub connection_retired :
    (conn_root : Text) {s : RootSystem}
    → RootReach (fresh_session conn_root) s
    → ((h : Withdrawal) (id : ℕ)
        → Among h s.pending
        → h.retires ≡ true
        → register_connection id s.roots ≡ none)
      × ((h : Withdrawal) (xs ys : List Withdrawal) (t : RootSystem) (id : ℕ)
          → s.pending ≡ xs ++ h ∷ ys
          → h.retires ≡ true
          → RootReach (record { roots = (register_ticket h s.roots).0; pending = xs ++ ys }) t
          → (t.roots.conns ≡ []) × (register_connection id t.roots ≡ none))
connection_retired conn_root {s} r =
    let v = RootReach-RootInv conn_root r in
    (
      λ h id a e. refuses id s.roots (inr (ground (arith, v.counted, Among-count h s.pending a e))),
      λ h xs ys t id p e r'.
          let begun =
            pending_Begun s.roots.seq h xs ys (subst (All (IsBegun s.roots.seq)) p v.pending_ok) in
          let now = registered-retired h s.roots e (begun.rooted e) in
          let (v', e') = reach-retired r' (RootStep-RootInv (registers h xs ys p) v) now in
          (v'.retired e', refuses id t.roots (inl e')),
    )

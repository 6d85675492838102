-- ===== src/Relay/Roots/Examples.antt =====
-- internal/relay/admit.go, rootHolds: a session's run, and the theorems at it.
use qumo.Common.{List, ◌++◌, ◌≡◌, refl, none, [], ◌∷◌, codes, text_eq, arith, ℕ, true, Among}
use qumo.Relay.Roots.{
  role_relay, Withdrawal, new_root_holds, begin_ticket, register_ticket, register_connection,
  retire_connection, put_state, put_ticket, replaces,
}
use qumo.Relay.Roots.Steps.{
  RootSystem, fresh_session, begins, registers, RootReach, root_here, root_later,
}
use qumo.Relay.Roots.Invariant.{RootInv}
use qumo.Relay.Roots.Keeps.{RootReach-RootInv}
use qumo.Relay.Roots.Connection.{connection_retired}
use qumo.Relay.Roots.Register.{IsRegistered, register_supersedes}

-- A ticket for the root of the connection's credential begins.
abbrev begun_session : RootSystem
begun_session = record {
  roots = (begin_ticket (codes "/team/") role_relay (new_root_holds (codes "/team/"))).1;
  pending = (begin_ticket (codes "/team/") role_relay (new_root_holds (codes "/team/"))).0 ∷ [];
}

abbrev begun : Withdrawal
begun = (begin_ticket (codes "/team/") role_relay (new_root_holds (codes "/team/"))).0

-- It is granted, and retires the credential.
abbrev granted_ticket : RootSystem
granted_ticket = record { roots = (register_ticket begun begun_session.roots).0; pending = [] }

granted_ticket-Reach : RootReach (fresh_session (codes "/team/")) granted_ticket
unfolding new_root_holds
granted_ticket-Reach =
    root_later (root_later root_here (begins (codes "/team/") role_relay (omega arith)))
      (registers begun [] [] refl)

RootReach-RootInv_example : RootInv granted_ticket
RootReach-RootInv_example = RootReach-RootInv (codes "/team/") granted_ticket-Reach

-- The connection's credential can be presented no more.
connection_refused : register_connection 7 granted_ticket.roots ≡ none
unfolding register_connection register_ticket retire_connection put_state put_ticket replaces
    begin_ticket new_root_holds text_eq
connection_refused = refl

begun_session-Reach : RootReach (fresh_session (codes "/team/")) begun_session
unfolding new_root_holds
begun_session-Reach = root_later root_here (begins (codes "/team/") role_relay (omega arith))

register_supersedes_example : IsRegistered begun begun_session.roots
unfolding begin_ticket text_eq
register_supersedes_example = register_supersedes (codes "/team/") begun begun_session-Reach refl

connection_retired_example :
    ((h : Withdrawal) (id : ℕ)
      → Among h begun_session.pending
      → h.retires ≡ true
      → register_connection id begun_session.roots ≡ none)
    × ((h : Withdrawal) (xs ys : List Withdrawal) (t : RootSystem) (id : ℕ)
        → begun_session.pending ≡ xs ++ h ∷ ys
        → h.retires ≡ true
        → RootReach
            (record { roots = (register_ticket h begun_session.roots).0; pending = xs ++ ys })
            t
        → (t.roots.conns ≡ []) × (register_connection id t.roots ≡ none))
connection_retired_example = connection_retired (codes "/team/") begun_session-Reach

-- The ticket in flight retires the credential.
begun-retires : begun.retires ≡ true
unfolding begin_ticket new_root_holds text_eq
begun-retires = refl

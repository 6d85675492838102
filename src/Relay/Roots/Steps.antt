-- ===== src/Relay/Roots/Steps.antt =====
-- internal/relay/admit.go, rootHolds: the calls of a session's handlers, in any order and interleaving.
use qumo.Common.{
  ℕ, suc, ◌+◌, ◌^◌, ◌<◌, ◌≡◌, refl, some, List, [], ◌∷◌, ◌++◌, if◌then◌else◌, Text, arith,
}
use qumo.Relay.Roots.{
  RootRole, Withdrawal, RootHolds, new_root_holds, begin_ticket, abandon_ticket, register_ticket,
  release_ticket, register_connection, release_connection,
}

-- `pending` is the tickets that began and are neither registered nor abandoned.
pub record RootSystem : Type 0 where
  pub roots : RootHolds
  pub pending : List Withdrawal

abbrev pub fresh_session : Text → RootSystem
fresh_session conn_root = record { roots = new_root_holds conn_root; pending = [] }

-- Every ticket that began is registered or abandoned once. Any ticket may be released at any time.
pub data RootStep (s : RootSystem) : RootSystem → Type 0 where
  begins :
      (root : Text) (role : RootRole)
      → s.roots.seq + 1 < 2 ^ 64
      → RootStep s (record {
        roots = (begin_ticket root role s.roots).1;
        pending = (begin_ticket root role s.roots).0 ∷ s.pending;
      })
  abandons :
      (h : Withdrawal) (xs ys : List Withdrawal)
      → s.pending ≡ xs ++ h ∷ ys
      → RootStep s (record { roots = abandon_ticket h s.roots; pending = xs ++ ys })
  registers :
      (h : Withdrawal) (xs ys : List Withdrawal)
      → s.pending ≡ xs ++ h ∷ ys
      → RootStep s (record { roots = (register_ticket h s.roots).0; pending = xs ++ ys })
  releases : (h : Withdrawal) → RootStep s (record s { roots = release_ticket h s.roots })
  connects :
      (id : ℕ) (r : RootHolds)
      → register_connection id s.roots ≡ some r
      → RootStep s (record s { roots = r })
  disconnects : (id : ℕ) → RootStep s (record s { roots = release_connection id s.roots })

pub data RootReach (s : RootSystem) : RootSystem → Type 0 where
  root_here : RootReach s s
  root_later : {t u : RootSystem} → RootReach s t → RootStep t u → RootReach s u

-- How many of the tickets retire the connection's own credential.
unfoldable pub count_retires : List Withdrawal → ℕ
count_retires [] = 0
count_retires (h ∷ hs) = if h.retires then suc (count_retires hs) else count_retires hs

pub count_retires-middle :
    (xs : List Withdrawal) (h : Withdrawal) (ys : List Withdrawal)
    → count_retires (xs ++ h ∷ ys)
      ≡ (if h.retires then suc (count_retires (xs ++ ys)) else count_retires (xs ++ ys))
unfolding count_retires
count_retires-middle [] h ys = refl
count_retires-middle (x ∷ xs) h ys = ground (arith, count_retires-middle xs h ys)

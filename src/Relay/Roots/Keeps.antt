-- ===== src/Relay/Roots/Keeps.antt =====
-- internal/relay/admit.go, rootHolds: the calls and the invariant of a session's credentials.
use qumo.Common.{
  ℕ, suc, ◌+◌, ◌%◌, ◌^◌, ◌<◌, ◌≤◌, ◌≡◌, refl, true, false, some, List, [], ◌∷◌, ◌++◌, if◌then◌else◌,
  Text, text_eq, text_eq_iff, arith, All, inl, inr, Bool-cases, Option-cases, ◌⊎◌, All-append_to,
  All-append_of, subst, ap, sym, ◌∙◌,
}
use qumo.Relay.Roots.{
  RootRole, Withdrawal, RootState, state_empty, RootHolds, new_root_holds, begin_ticket,
  abandon_ticket, put_state, register_ticket, retire_connection, state_without, release_ticket,
  register_connection, release_connection, state_or_new,
}
use qumo.Relay.Roots.Steps.{
  RootSystem, fresh_session, RootStep, begins, abandons, registers, releases, connects, disconnects,
  RootReach, root_here, root_later, count_retires, count_retires-middle,
}
use qumo.Relay.Roots.Invariant.{
  IsRoot, IsBegun, RootInv, IsRoot-mono, put_state-ok, state_without-IsRoot, state_or_new-IsRoot,
}

fresh-RootInv : (conn_root : Text) → RootInv (fresh_session conn_root)
unfolding new_root_holds count_retires
fresh-RootInv conn_root = record {
  bounded = omega arith;
  root_ok = λ root st e. cc;
  not_empty = λ root st e. cc;
  counted = refl;
  pending_ok = tt;
  retired = λ e. refl;
}

IsBegun-mono : (n m : ℕ) (hs : List Withdrawal) → n ≤ m → All (IsBegun n) hs → All (IsBegun m) hs
IsBegun-mono n m [] le v = tt
IsBegun-mono n m (h ∷ hs) le v = (ground arith, IsBegun-mono n m hs le v.1)

module _ (s : RootSystem) (v : RootInv s) where
  begin-RootInv :
      (root : Text) (role : RootRole)
      → s.roots.seq + 1 < 2 ^ 64
      → RootInv (record {
        roots = (begin_ticket root role s.roots).1;
        pending = (begin_ticket root role s.roots).0 ∷ s.pending;
      })
  unfolding begin_ticket count_retires
  begin-RootInv root role room = record {
    bounded = ground arith;
    root_ok = λ k st e.
        IsRoot-mono k s.roots.seq ((s.roots.seq + 1) % 2 ^ 64) st (omega arith) (v.root_ok k st e);
    not_empty = v.not_empty;
    counted = ground (arith, v.counted);
    pending_ok = (
      ground arith,
      IsBegun-mono s.roots.seq ((s.roots.seq + 1) % 2 ^ 64) s.pending (omega arith) v.pending_ok,
    );
    retired = v.retired;
  }

  module _ (h : Withdrawal) (xs ys : List Withdrawal) (split : s.pending ≡ xs ++ h ∷ ys) where
    rest_ok : IsBegun s.roots.seq h × All (IsBegun s.roots.seq) (xs ++ ys)
    rest_ok =
        let (a, b) =
          All-append_to (IsBegun s.roots.seq) xs (h ∷ ys)
            (subst (All (IsBegun s.roots.seq)) split v.pending_ok) in
        (b.0, All-append_of (IsBegun s.roots.seq) xs ys a b.1)

    count_rest :
        s.roots.retiring
        ≡ (if h.retires then suc (count_retires (xs ++ ys)) else count_retires (xs ++ ys))
    count_rest = ground (arith, v.counted, ap count_retires split, count_retires-middle xs h ys)

    abandon-RootInv : RootInv (record { roots = abandon_ticket h s.roots; pending = xs ++ ys })
    unfolding abandon_ticket
    abandon-RootInv = record {
      bounded = v.bounded;
      root_ok = v.root_ok;
      not_empty = v.not_empty;
      counted = ground (arith, count_rest);
      pending_ok = rest_ok.1;
      retired = v.retired;
    }

    -- What registering does to the fields, with the root's state left to `put_state`.
    register-fields :
        ((register_ticket h s.roots).0.seq ≡ s.roots.seq)
        × ((register_ticket h s.roots).0.retiring ≡ count_retires (xs ++ ys))
        × ((register_ticket h s.roots).0.conn_retired ≡ true
            → (register_ticket h s.roots).0.conns ≡ [])
    unfolding register_ticket retire_connection
    register-fields =
        (ground arith, ground (arith, count_rest, rest_ok.0), ground (arith, v.retired))

    register-by_root :
        (k : Text) (st : RootState)
        → (register_ticket h s.roots).0.by_root k ≡ some st
        → (s.roots.by_root k ≡ some st)
          ⊎ ((h.root ≡ k) × ((put_state h (state_or_new (s.roots.by_root h.root))).0 ≡ some st))
    unfolding register_ticket retire_connection
    register-by_root k st e = ground (arith, text_eq_iff h.root k)

    register-IsRoot :
        (k : Text) (st : RootState)
        → (register_ticket h s.roots).0.by_root k ≡ some st
        → IsRoot k s.roots.seq st × (state_empty st ≡ false)
    register-IsRoot k st e = elim (register-by_root k st e) [
      | inl o ↦ (v.root_ok k st o, v.not_empty k st o)
      | inr (q, o) ↦
          subst (λ root. IsRoot root s.roots.seq st × (state_empty st ≡ false)) q
            (put_state-ok s.roots.seq h (state_or_new (s.roots.by_root h.root)) st
              (state_or_new-IsRoot s v h.root) rest_ok.0.begun o)
    ]

    register-RootInv :
        RootInv (record { roots = (register_ticket h s.roots).0; pending = xs ++ ys })
    register-RootInv =
        let q = register-fields.0 in
        record {
          bounded = omega (arith, v.bounded, q);
          root_ok = λ k st e. subst (λ n. IsRoot k n st) (sym q) (register-IsRoot k st e).0;
          not_empty = λ k st e. (register-IsRoot k st e).1;
          counted = register-fields.1;
          pending_ok = subst (λ n. All (IsBegun n) (xs ++ ys)) (sym q) rest_ok.1;
          retired = register-fields.2;
        }

  release-by_root :
      (h : Withdrawal) (k : Text) (st : RootState)
      → (release_ticket h s.roots).by_root k ≡ some st
      → (s.roots.by_root k ≡ some st)
        ⊎ ((h.root ≡ k)
            × (cur : RootState) × (s.roots.by_root h.root ≡ some cur)
            × (st ≡ state_without h cur)
            × (state_empty st ≡ false))
  unfolding release_ticket
  release-by_root h k st e = elim (Option-cases (s.roots.by_root h.root)) [
    | inl n ↦ inl (ground arith)
    | inr (cur, n) ↦ elim (Bool-cases (text_eq h.root k)) [
      | inl q ↦ inr ((text_eq_iff h.root k).0 q, cur, n, ground arith, ground arith)
      | inr q ↦ inl (ground arith)
    ]
  ]

  release-fields :
      (h : Withdrawal)
      → ((release_ticket h s.roots).seq ≡ s.roots.seq)
        × ((release_ticket h s.roots).retiring ≡ s.roots.retiring)
        × ((release_ticket h s.roots).conn_retired ≡ s.roots.conn_retired)
        × ((release_ticket h s.roots).conns ≡ s.roots.conns)
  unfolding release_ticket
  release-fields h = (ground arith, ground arith, ground arith, ground arith)

  release-IsRoot :
      (h : Withdrawal) (k : Text) (st : RootState)
      → (release_ticket h s.roots).by_root k ≡ some st
      → IsRoot k s.roots.seq st × (state_empty st ≡ false)
  release-IsRoot h k st e = elim (release-by_root h k st e) [
    | inl o ↦ (v.root_ok k st o, v.not_empty k st o)
    | inr (q, cur, o, is, full) ↦ (
      subst (λ root. IsRoot root s.roots.seq st) q
          (subst (IsRoot h.root s.roots.seq) (sym is)
            (state_without-IsRoot h.root s.roots.seq h cur (v.root_ok h.root cur o))),
      full,
    )
  ]

  release-RootInv : (h : Withdrawal) → RootInv (record s { roots = release_ticket h s.roots })
  release-RootInv h =
      let q = (release-fields h).0 in
      record {
        bounded = omega (arith, v.bounded, q);
        root_ok = λ k st e. subst (λ n. IsRoot k n st) (sym q) (release-IsRoot h k st e).0;
        not_empty = λ k st e. (release-IsRoot h k st e).1;
        counted = (release-fields h).1 ∙ v.counted;
        pending_ok = subst (λ n. All (IsBegun n) s.pending) (sym q) v.pending_ok;
        retired = λ e. ground (arith, release-fields h, v.retired);
      }

  connect-RootInv :
      (id : ℕ) (r : RootHolds)
      → register_connection id s.roots ≡ some r
      → RootInv (record s { roots = r })
  unfolding register_connection
  connect-RootInv id r e =
      let c : s.roots.conn_retired ≡ false = ground arith in
      let q : record s.roots { conns = id ∷ s.roots.conns } ≡ r = ground arith in
      subst (λ x. RootInv (record s { roots = x })) q
        (record {
          bounded = v.bounded;
          root_ok = v.root_ok;
          not_empty = v.not_empty;
          counted = v.counted;
          pending_ok = v.pending_ok;
          retired = λ e. cc;
        })

  disconnect-RootInv : (id : ℕ) → RootInv (record s { roots = release_connection id s.roots })
  unfolding release_connection
  disconnect-RootInv id = record {
    bounded = v.bounded;
    root_ok = v.root_ok;
    not_empty = v.not_empty;
    counted = v.counted;
    pending_ok = v.pending_ok;
    retired = λ e. ground (arith, v.retired);
  }

pub RootStep-RootInv : {s t : RootSystem} → RootStep s t → RootInv s → RootInv t
RootStep-RootInv {s} (begins root role room) v = begin-RootInv s v root role room
RootStep-RootInv {s} (abandons h xs ys e) v = abandon-RootInv s v h xs ys e
RootStep-RootInv {s} (registers h xs ys e) v = register-RootInv s v h xs ys e
RootStep-RootInv {s} (releases h) v = release-RootInv s v h
RootStep-RootInv {s} (connects id r e) v = connect-RootInv s v id r e
RootStep-RootInv {s} (disconnects id) v = disconnect-RootInv s v id

-- Whatever a session's handlers call, in any order: each root's ticket replaces others and is of that
-- root; its funnel tickets are of funnel actions alone, and began no earlier than the latest ticket of no
-- patterns; no root is held with neither; the tickets in flight that retire the connection's credential
-- are counted; and once it is retired no presentation of it is held.
pub RootReach-RootInv :
    (conn_root : Text) {s : RootSystem} → RootReach (fresh_session conn_root) s → RootInv s
RootReach-RootInv conn_root root_here = fresh-RootInv conn_root
RootReach-RootInv conn_root (root_later r st) = RootStep-RootInv st (RootReach-RootInv conn_root r)

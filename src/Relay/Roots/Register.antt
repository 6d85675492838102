-- ===== src/Relay/Roots/Register.antt =====
-- internal/relay/admit.go, registerTicket: which tickets it withdraws as replaced, and what is in force
-- afterwards.
use qumo.Common.{
  All-Among, ltb, ◌↔◌, ℕ, ◌≡◌, refl, true, false, not, ◌&&◌, Option, none, some, List, [], ◌++◌,
  if◌then◌else◌, Text, text_eq, text_eq_self, map, Among, Among-append_to, Among-append_of, arith,
  inl, inr, Bool-cases, Option-cases, sym, subst, max,
}
use qumo.Relay.Roots.{
  RootRole, role_funnel, role_relay, role_nothing, is_funnel, is_nothing, Withdrawal, Handle,
  RootState, state_empty, RootHolds, replaces, put_ticket, put_state, state_or_new, register_ticket,
  retire_connection, conn_of,
}
use qumo.Relay.Roots.Steps.{RootSystem, fresh_session, RootReach}
use qumo.Relay.Roots.Invariant.{IsRoot, IsFunnel, state_or_new-IsRoot}
use qumo.Relay.Roots.Keeps.{RootReach-RootInv}
use qumo.Relay.Roots.Puts.{put_state-IsPut, listed-Among}
use qumo.Relay.Roots.Supersede.{cleared_of, Replaced, listed, in_force, IsPut}

new-in_force : (o : Option RootState) → in_force (some (state_or_new o)) ≡ in_force o
new-in_force none = refl
new-in_force (some st) = refl

-- What `replaces` decides.
replaces-Replaced :
    (n : ℕ) (h : Withdrawal) (st : RootState)
    → IsRoot h.root n st
    → (replaces st h ≡ true) ↔ Replaced h (some st)
unfolding replaces
replaces-Replaced n h st v = (
  λ e. elim (Bool-cases (ltb h.seq st.cleared)) [
    | inl c ↦ inr (ground arith)
    | inr c ↦ elim (Option-cases st.ticket) [
      | inl q ↦ absurd (ground arith)
      | inr (t, q) ↦
          let ok = v.ticket_ok t q in
          inl (
            t,
            Among-append_of t (listed st.ticket) st.funnel
                (inl (subst (λ l. Among t (listed l)) (sym q) (inl refl))),
            ok.not_funnel,
            ground arith,
            ground arith,
          )
    ]
  ],
  λ r. elim r [
    | inl (t, a, nt, nh, lt) ↦ elim (Among-append_to t (listed st.ticket) st.funnel a) [
      | inl x ↦ let q = listed-Among st.ticket t x in ground arith
      | inr y ↦
          let ok = All-Among (IsFunnel h.root n st.cleared) t st.funnel v.funnel_ok y in
          let f = ok.funnel in absurd cc
    ]
    | inr lt ↦ ground arith
  ],
)

put_state-flag : (h : Withdrawal) (st : RootState) → (put_state h st).2 ≡ not (replaces st h)
unfolding put_state
put_state-flag h st = ground arith

is_nothing-funnel : (role : RootRole) → is_funnel role ≡ true → is_nothing role ≡ false
is_nothing-funnel role_funnel e = refl
is_nothing-funnel role_relay e = cc
is_nothing-funnel role_nothing e = cc

put_state-cleared :
    (h : Withdrawal) (st : RootState)
    → (replaces st h ≡ true → state_empty st ≡ false)
    → cleared_of (put_state h st).0
      ≡ (if (put_state h st).2 && is_nothing h.role then max st.cleared h.seq else st.cleared)
unfolding put_state put_ticket
put_state-cleared h st full = ground (arith, full, is_nothing-funnel h.role)

new-cleared : (o : Option RootState) → (state_or_new o).cleared ≡ cleared_of o
new-cleared none = refl
new-cleared (some st) = refl

new-Replaced :
    (h : Withdrawal) (o : Option RootState)
    → ((replaces (state_or_new o) h ≡ true) ↔ Replaced h (some (state_or_new o)))
    → (replaces (state_or_new o) h ≡ true) ↔ Replaced h o
new-Replaced h none e = e
new-Replaced h (some st) e = e

new-full :
    (h : Withdrawal) (o : Option RootState)
    → ((st : RootState) → o ≡ some st → state_empty st ≡ false)
    → replaces (state_or_new o) h ≡ true
    → state_empty (state_or_new o) ≡ false
unfolding replaces
new-full h none full e = absurd (ground arith)
new-full h (some st) full e = full st refl

abbrev pub retired_conns : Withdrawal → RootHolds → List Handle
retired_conns h r = if h.retires then map conn_of r.conns else []

-- What registering a ticket of a root does to that root's tickets, and to the other roots.
pub record IsRegistered (h : Withdrawal) (r : RootHolds) : Type 0 where
  pub out : List Handle
  pub withdrawn : (register_ticket h r).1 ≡ retired_conns h r ++ out
  pub put :
      IsPut h
        (in_force (r.by_root h.root))
        ((register_ticket h r).0.by_root h.root, out, (register_ticket h r).2)
  pub replaced_iff : ((register_ticket h r).2 ≡ false) ↔ Replaced h (r.by_root h.root)
  pub clears : cleared_of ((register_ticket h r).0.by_root h.root) ≡ (
      if (register_ticket h r).2 && is_nothing h.role
      then max (cleared_of (r.by_root h.root)) h.seq
      else cleared_of (r.by_root h.root))
  pub others :
      (k : Text) → text_eq h.root k ≡ false → (register_ticket h r).0.by_root k ≡ r.by_root k

register_ticket-IsRegistered :
    (h : Withdrawal) (r : RootHolds)
    → text_eq h.root [] ≡ false
    → IsPut h (in_force (r.by_root h.root)) (put_state h (state_or_new (r.by_root h.root)))
    → ((replaces (state_or_new (r.by_root h.root)) h ≡ true) ↔ Replaced h (r.by_root h.root))
    → (replaces (state_or_new (r.by_root h.root)) h ≡ true
        → state_empty (state_or_new (r.by_root h.root)) ≡ false)
    → IsRegistered h r
unfolding register_ticket retire_connection
register_ticket-IsRegistered h r rooted p was full = record {
  replaced_iff =
      (let flag = put_state-flag h (state_or_new (r.by_root h.root)) in
        (λ e. was.0 (ground (arith, flag)), λ b. let e = was.1 b in ground (arith, flag)));
  clears =
      (let now = put_state-cleared h (state_or_new (r.by_root h.root)) full in
        let before = new-cleared (r.by_root h.root) in ground (arith, text_eq_self h.root));
  out = (put_state h (state_or_new (r.by_root h.root))).1;
  withdrawn = ground arith;
  put =
      (let same : put_state h (state_or_new (r.by_root h.root)) ≡ (
        (register_ticket h r).0.by_root h.root,
        (put_state h (state_or_new (r.by_root h.root))).1,
        (register_ticket h r).2,
      ) =
          ground (arith, text_eq_self h.root) in
        subst (IsPut h (in_force (r.by_root h.root))) same p);
  others = λ k n. ground arith;
}

-- In every reachable state of a session's credentials, a ticket of a root that is registered is refused
-- exactly if it was replaced: it is of more than funnel actions and one such that began later is in
-- force, or it began before the number `cleared` of its root. Then it alone is withdrawn, and the
-- tickets in force stay as they were. Otherwise it is in force afterwards, and of the tickets that were,
-- exactly those that it supersedes are withdrawn and the others stay; and one of no patterns raises
-- `cleared` to its own number at least, which every other ticket leaves. Besides, one that retires the
-- connection's credential withdraws every presentation of it, and the other roots are left alone.
pub register_supersedes :
    (conn_root : Text) {s : RootSystem} (h : Withdrawal)
    → RootReach (fresh_session conn_root) s
    → text_eq h.root [] ≡ false
    → IsRegistered h s.roots
register_supersedes conn_root {s} h reach rooted =
    let v = RootReach-RootInv conn_root reach in
    let o = s.roots.by_root h.root in
    let root = state_or_new-IsRoot s v h.root in
    register_ticket-IsRegistered h s.roots rooted
      (subst (λ before. IsPut h before (put_state h (state_or_new o))) (new-in_force o)
        (put_state-IsPut s.roots.seq h (state_or_new o) root))
      (new-Replaced h o (replaces-Replaced s.roots.seq h (state_or_new o) root))
      (new-full h o (v.not_empty h.root))

-- ===== src/Relay/Roots/Invariant.antt =====
-- internal/relay/admit.go, rootHolds: what holds of a session's credentials between two calls.
use qumo.Common.{
  ℕ, ◌^◌, ◌<◌, ◌≤◌, ◌≡◌, refl, true, false, not, Option, some, List, [], ◌∷◌, Text, text_eq,
  text_eq_iff, arith, All, All-keep, keep, inl, inr, Bool-cases, Option-cases, max, ◌⊎◌, subst,
}
use qumo.Relay.Roots.{
  is_funnel, is_nothing, Withdrawal, RootState, state_empty, RootHolds, replaces, put_ticket,
  put_state, state_without, same_ticket, no_state, state_or_new, set_root, begun_before,
}
use qumo.Relay.Roots.Steps.{RootSystem, count_retires}

-- The ticket of a root replaces others, and began at the latest n-th.
pub record IsTicket (root : Text) (n cleared : ℕ) (t : Withdrawal) : Type 0 where
  pub same_root : t.root ≡ root
  pub not_funnel : is_funnel t.role ≡ false
  pub begun : t.seq ≤ n
  pub clears : is_nothing t.role ≡ true → t.seq ≤ cleared

-- A ticket of funnel actions alone, not begun before the latest ticket of no patterns.
pub record IsFunnel (root : Text) (n cleared : ℕ) (f : Withdrawal) : Type 0 where
  pub same_root : f.root ≡ root
  pub funnel : is_funnel f.role ≡ true
  pub begun : f.seq ≤ n
  pub after : cleared ≤ f.seq

pub record IsRoot (root : Text) (n : ℕ) (st : RootState) : Type 0 where
  pub ticket_ok : (t : Withdrawal) → st.ticket ≡ some t → IsTicket root n st.cleared t
  pub funnel_ok : All (IsFunnel root n st.cleared) st.funnel
  pub cleared_ok : st.cleared ≤ n

-- A ticket that began at the latest n-th, and retires the connection's credential only if it is one of
-- a root, and of more than funnel actions.
pub record IsBegun (n : ℕ) (h : Withdrawal) : Type 0 where
  pub begun : h.seq ≤ n
  pub rooted : h.retires ≡ true → text_eq h.root [] ≡ false
  pub replacing : h.retires ≡ true → is_funnel h.role ≡ false

pub record RootInv (s : RootSystem) : Type 0 where
  pub bounded : s.roots.seq < 2 ^ 64
  pub root_ok :
      (root : Text) (st : RootState) → s.roots.by_root root ≡ some st → IsRoot root s.roots.seq st
  pub not_empty :
      (root : Text) (st : RootState) → s.roots.by_root root ≡ some st → state_empty st ≡ false
  pub counted : s.roots.retiring ≡ count_retires s.pending
  pub pending_ok : All (IsBegun s.roots.seq) s.pending
  pub retired : s.roots.conn_retired ≡ true → s.roots.conns ≡ []

IsFunnel-mono :
    (root : Text) (n m c : ℕ) (fs : List Withdrawal)
    → n ≤ m
    → All (IsFunnel root n c) fs
    → All (IsFunnel root m c) fs
IsFunnel-mono root n m c [] le h = tt
IsFunnel-mono root n m c (f ∷ fs) le h = (ground arith, IsFunnel-mono root n m c fs le h.1)

pub IsRoot-mono :
    (root : Text) (n m : ℕ) (st : RootState) → n ≤ m → IsRoot root n st → IsRoot root m st
IsRoot-mono root n m st le v = record {
  ticket_ok = λ t e. ground (arith, v.ticket_ok t e);
  funnel_ok = IsFunnel-mono root n m st.cleared st.funnel le v.funnel_ok;
  cleared_ok = omega (arith, v.cleared_ok);
}

-- What is left of the funnel tickets once those begun before `h` are gone.
IsFunnel-cleared :
    (root : Text) (n c : ℕ) (h : Withdrawal) (fs : List Withdrawal)
    → All (IsFunnel root n c) fs
    → All (IsFunnel root n (max c h.seq)) (keep (λ f. not (begun_before h f)) fs)
IsFunnel-cleared root n c h [] v = tt
IsFunnel-cleared root n c h (f ∷ fs) v = elim (Bool-cases (begun_before h f)) [
  | inl e ↦ rw e (IsFunnel-cleared root n c h fs v.1)
  | inr e ↦ rw e (ground (arith, v.0), IsFunnel-cleared root n c h fs v.1)
]

put_ticket-IsRoot :
    (n : ℕ) (h : Withdrawal) (st : RootState)
    → IsRoot h.root n st
    → h.seq ≤ n
    → is_funnel h.role ≡ false
    → IsRoot h.root n (put_ticket h st).0
unfolding put_ticket
put_ticket-IsRoot n h st v le nf = elim (Bool-cases (is_nothing h.role)) [
  | inl e ↦ record {
    ticket_ok = λ t i. ground arith;
    funnel_ok = rw (e, put_ticket) (IsFunnel-cleared h.root n st.cleared h st.funnel v.funnel_ok);
    cleared_ok = ground (arith, v.cleared_ok);
  }
  | inr e ↦ record {
    ticket_ok = λ t i. ground arith;
    funnel_ok = rw (e, put_ticket) v.funnel_ok;
    cleared_ok = ground (arith, v.cleared_ok);
  }
]

-- `h` beside the funnel tickets of its root.
funnel-IsRoot :
    (n : ℕ) (h : Withdrawal) (st : RootState)
    → IsRoot h.root n st
    → h.seq ≤ n
    → is_funnel h.role ≡ true
    → replaces st h ≡ false
    → IsRoot h.root n (record st { funnel = h ∷ st.funnel })
unfolding replaces
funnel-IsRoot n h st v le f r = record {
  ticket_ok = λ t e. v.ticket_ok t e;
  funnel_ok =
      (record { same_root = refl; funnel = f; begun = le; after = ground arith }, v.funnel_ok);
  cleared_ok = v.cleared_ok;
}

-- What registering `h` leaves of its root's state.
pub put_state-ok :
    (n : ℕ) (h : Withdrawal) (st st' : RootState)
    → IsRoot h.root n st
    → h.seq ≤ n
    → (put_state h st).0 ≡ some st'
    → IsRoot h.root n st' × (state_empty st' ≡ false)
unfolding put_state put_ticket
put_state-ok n h st st' v le e = elim (Bool-cases (replaces st h)) [
  | inl r ↦ (let q : st ≡ st' = ground arith in subst (IsRoot h.root n) q v, ground arith)
  | inr r ↦ elim (Bool-cases (is_funnel h.role)) [
    | inl f ↦ (
      let q : record st { funnel = h ∷ st.funnel } ≡ st' = ground arith in
          subst (IsRoot h.root n) q (funnel-IsRoot n h st v le f r),
      ground arith,
    )
    | inr f ↦ (
      let q : (put_ticket h st).0 ≡ st' = ground arith in
          subst (IsRoot h.root n) q (put_ticket-IsRoot n h st v le f),
      ground arith,
    )
  ]
]

no_state-IsRoot : (root : Text) (n : ℕ) → IsRoot root n no_state
no_state-IsRoot root n = record { ticket_ok = λ t e. cc; funnel_ok = tt; cleared_ok = omega arith }

IsFunnel-without :
    (root : Text) (n c : ℕ) (h : Withdrawal) (fs : List Withdrawal)
    → All (IsFunnel root n c) fs
    → All (IsFunnel root n c) (keep (λ f. not (same_ticket h f)) fs)
IsFunnel-without root n c h fs v = All-keep (IsFunnel root n c) (λ f. not (same_ticket h f)) fs v

pub state_without-IsRoot :
    (root : Text) (n : ℕ) (h : Withdrawal) (st : RootState)
    → IsRoot root n st
    → IsRoot root n (state_without h st)
unfolding state_without
state_without-IsRoot root n h st v = record {
  ticket_ok = λ t e. v.ticket_ok t (ground arith);
  funnel_ok = IsFunnel-without root n st.cleared h st.funnel v.funnel_ok;
  cleared_ok = v.cleared_ok;
}

-- A root's state after setting one root's: the one set, or as it was.
pub by_root-set_root :
    (r : RootHolds) (root k : Text) (st : RootState) (o : Option RootState)
    → (set_root root o r).by_root k ≡ some st
    → ((root ≡ k) × (o ≡ some st)) ⊎ (r.by_root k ≡ some st)
by_root-set_root r root k st o e = ground (arith, text_eq_iff root k)

module _ (s : RootSystem) (v : RootInv s) where
  pub state_or_new-IsRoot :
      (root : Text) → IsRoot root s.roots.seq (state_or_new (s.roots.by_root root))
  state_or_new-IsRoot root = elim (Option-cases (s.roots.by_root root)) [
    | inl e ↦ rw e (no_state-IsRoot root s.roots.seq)
    | inr (st, e) ↦ rw e (v.root_ok root st e)
  ]

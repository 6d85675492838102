-- ===== src/Relay/Roots.antt =====
-- internal/relay/admit.go, rootHolds: the credentials that a session holds for each root. Each method
-- holds the mutex, so it is one step; what it withdraws is returned.
pub mod Steps
pub mod Invariant
pub mod Keeps
pub mod Supersede
pub mod Puts
pub mod Register
pub mod Connection
mod Examples
use qumo.Common.{
  ℕ, ◌+◌, ◌-◌, ◌%◌, ◌^◌, Bool, true, false, not, ◌&&◌, ◌||◌, Option, none, some, List, [], ◌∷◌,
  ◌++◌, ltb, leb, ◌==◌, if◌then◌else◌, Text, text_eq, keep, map, max,
}
use qumo.Token.Grant.{Grant, is_empty}

pub data RootRole : Type 0 where
  role_funnel role_relay role_nothing : RootRole

unfoldable pub role_of : Grant → RootRole
role_of tg =
    if not (is_empty tg.publishes) || not (is_empty tg.subscribes)
    then role_relay
    else if not (is_empty tg.creates) || not (is_empty tg.posts) || not (is_empty tg.redacts)
    then role_funnel
    else role_nothing

abbrev pub is_funnel : RootRole → Bool
is_funnel role_funnel = true
is_funnel role_relay = false
is_funnel role_nothing = false

abbrev pub is_nothing : RootRole → Bool
is_nothing role_funnel = false
is_nothing role_relay = false
is_nothing role_nothing = true

-- A ticket. Its number is its own, so it stands for the pointer too.
pub record Withdrawal : Type 0 where
  pub seq : ℕ
  pub root : Text
  pub role : RootRole
  pub retires : Bool

-- What a call of `withdraw(errSuperseded)` ends: a ticket, or a presentation of the connection's own
-- credential, by its address.
pub data Handle : Type 0 where
  ticket_of : Withdrawal → Handle
  conn_of : ℕ → Handle

pub record RootState : Type 0 where
  pub ticket : Option Withdrawal
  pub funnel : List Withdrawal
  pub cleared : ℕ

abbrev pub no_state : RootState
no_state = record { ticket = none; funnel = []; cleared = 0 }

abbrev pub is_none {ℓ} : {A : Type ℓ} → Option A → Bool
is_none none = true
is_none (some a) = false

abbrev pub state_empty : RootState → Bool
state_empty st = is_none st.ticket && is_empty st.funnel

pub record RootHolds : Type 0 where
  pub conn_root : Text
  pub seq : ℕ
  pub by_root : Text → Option RootState
  pub conns : List ℕ
  pub retiring : ℕ
  pub conn_retired : Bool

unfoldable pub new_root_holds : Text → RootHolds
new_root_holds conn_root = record {
  conn_root = conn_root;
  seq = 0;
  by_root = λ _. none;
  conns = [];
  retiring = 0;
  conn_retired = false;
}

unfoldable pub begin_ticket : Text → RootRole → RootHolds → Withdrawal × RootHolds
begin_ticket root role r =
    let n = (r.seq + 1) % 2 ^ 64 in
    let retires = not (text_eq root []) && not (is_funnel role) && text_eq root r.conn_root in
    (
      record { seq = n; root = root; role = role; retires = retires },
      record r { seq = n; retiring = if retires then r.retiring + 1 else r.retiring },
    )

unfoldable pub abandon_ticket : Withdrawal → RootHolds → RootHolds
abandon_ticket h r = record r { retiring = if h.retires then r.retiring - 1 else r.retiring }

-- Whether the ticket in force began after `h`.
abbrev pub later_ticket : Withdrawal → Option Withdrawal → Bool
later_ticket h none = false
later_ticket h (some t) = ltb h.seq t.seq

unfoldable pub replaces : RootState → Withdrawal → Bool
replaces st h = ltb h.seq st.cleared || (not (is_funnel h.role) && later_ticket h st.ticket)

unfoldable pub replaced : Withdrawal → RootHolds → Bool
replaced h r =
    if text_eq h.root []
    then false
    else elim (r.by_root h.root) [ none ↦ false | some st ↦ replaces st h ]

abbrev pub set_root : Text → Option RootState → RootHolds → RootHolds
set_root root st r = record r { by_root = λ k. if text_eq root k then st else r.by_root k }

abbrev pub withdrawn_ticket : Option Withdrawal → List Handle
withdrawn_ticket none = []
withdrawn_ticket (some t) = ticket_of t ∷ []

-- A ticket of funnel actions that began before `h`.
abbrev pub begun_before : Withdrawal → Withdrawal → Bool
begun_before h f = ltb f.seq h.seq

-- The state of a root once `h` is the ticket that replaces others, and what that withdraws.
unfoldable pub put_ticket : Withdrawal → RootState → RootState × List Handle
put_ticket h st =
    if is_nothing h.role
    then (
      record {
        ticket = some h;
        funnel = keep (λ f. not (begun_before h f)) st.funnel;
        cleared = max st.cleared h.seq;
      },
      withdrawn_ticket st.ticket ++ map ticket_of (keep (begun_before h) st.funnel),
    )
    else (record st { ticket = some h }, withdrawn_ticket st.ticket)

-- The `switch` of registerTicket: the root's state, what is withdrawn, and whether `h` is current.
unfoldable pub put_state : Withdrawal → RootState → Option RootState × List Handle × Bool
put_state h st =
    if replaces st h
    then (if state_empty st then none else some st, ticket_of h ∷ [], false)
    else if is_funnel h.role
    then (some (record st { funnel = h ∷ st.funnel }), [], true)
    else (let (st', out) = put_ticket h st in (some st', out, true))

-- `if h.retires { … }`.
unfoldable pub retire_connection : Withdrawal → RootHolds → RootHolds × List Handle
retire_connection h r =
    if h.retires
    then (
      record r { retiring = r.retiring - 1; conn_retired = true; conns = [] },
      map conn_of r.conns,
    )
    else (r, [])

abbrev pub state_or_new : Option RootState → RootState
state_or_new none = no_state
state_or_new (some st) = st

unfoldable pub register_ticket : Withdrawal → RootHolds → RootHolds × List Handle × Bool
register_ticket h r =
    if text_eq h.root []
    then (r, [], true)
    else (let (r', gone) = retire_connection h r in
        let (st, out, current) = put_state h (state_or_new (r.by_root h.root)) in
        (set_root h.root st r', gone ++ out, current))

abbrev pub same_ticket : Withdrawal → Withdrawal → Bool
same_ticket h t = h.seq == t.seq

abbrev pub drop_ticket : Withdrawal → Option Withdrawal → Option Withdrawal
drop_ticket h none = none
drop_ticket h (some t) = if same_ticket h t then none else some t

unfoldable pub state_without : Withdrawal → RootState → RootState
state_without h st = record st {
  ticket = drop_ticket h st.ticket;
  funnel = keep (λ f. not (same_ticket h f)) st.funnel;
}

-- The function `release` that registerTicket returns for a current ticket of a root.
unfoldable pub release_ticket : Withdrawal → RootHolds → RootHolds
unfolding state_without
release_ticket h r = elim (r.by_root h.root) [
  | none ↦ r
  | some st ↦
      let cur = state_without h st in set_root h.root (if state_empty cur then none else some cur) r
]

-- `id` is the address of the presentation.
unfoldable pub register_connection : ℕ → RootHolds → Option RootHolds
register_connection id r =
    if r.conn_retired || ltb 0 r.retiring then none else some (record r { conns = id ∷ r.conns })

unfoldable pub release_connection : ℕ → RootHolds → RootHolds
release_connection id r = record r { conns = keep (λ c. not (id == c)) r.conns }

-- ===== src/Relay/Roots/Supersede.antt =====
-- internal/relay/admit.go, registerTicket: which tickets are in force, and which a ticket ends.
use qumo.Common.{
  ℕ, ◌<◌, ◌≡◌, refl, Bool, true, false, not, ◌&&◌, ◌||◌, Option, none, some, List, [], ◌∷◌, ◌++◌,
  Text, keep, map, All, Among, arith, ◌⊎◌, ap, ◌∙◌,
}
use qumo.Relay.Roots.{
  RootRole, role_funnel, role_relay, role_nothing, is_funnel, is_nothing, Withdrawal, Handle,
  ticket_of, RootState, is_none, begun_before,
}
use qumo.Token.Grant.{is_empty}
use qumo.Relay.Roots.Invariant.{IsFunnel}

-- Whether a ticket ends another of its root: one of more than funnel actions ends every such one, and
-- one of no patterns also those of funnel actions that began before it.
abbrev pub supersedes : Withdrawal → Withdrawal → Bool
supersedes h g =
    not (is_funnel h.role) && (not (is_funnel g.role) || (is_nothing h.role && begun_before h g))

abbrev pub listed : Option Withdrawal → List Withdrawal
listed none = []
listed (some t) = t ∷ []

-- The tickets of a root that are in force.
abbrev pub in_force : Option RootState → List Withdrawal
in_force none = []
in_force (some st) = listed st.ticket ++ st.funnel

abbrev pub cleared_of : Option RootState → ℕ
cleared_of none = 0
cleared_of (some st) = st.cleared

-- A ticket was replaced before it registers: by one in force that began later and is of more than
-- funnel actions, as it is itself; or by one of no patterns that began later, the latest of which was
-- the `cleared`-th to begin.
abbrev pub Replaced : Withdrawal → Option RootState → Type 0
Replaced h o =
    ((t : Withdrawal) × Among t (in_force o)
      × (is_funnel t.role ≡ false)
      × (is_funnel h.role ≡ false)
      × (h.seq < t.seq))
    ⊎ (h.seq < cleared_of o)

-- What a ticket that is registered does to the tickets in force, by whether it is current.
pub record IsPut (h : Withdrawal) (before : List Withdrawal)
    (r : Option RootState × List Handle × Bool) : Type 0 where
  pub withdrawn : r.2 ≡ true → r.1 ≡ map ticket_of (keep (supersedes h) before)
  pub added : r.2 ≡ true → Among h (in_force r.0)
  pub kept :
      r.2 ≡ true
      → (g : Withdrawal) → Among g before
      → supersedes h g ≡ false
      → Among g (in_force r.0)
  pub only :
      r.2 ≡ true
      → (g : Withdrawal) → Among g (in_force r.0)
      → (g ≡ h) ⊎ (Among g before × (supersedes h g ≡ false))
  pub refused : r.2 ≡ false → (r.1 ≡ ticket_of h ∷ []) × (in_force r.0 ≡ before)

pub keep-same :
    (p q : Withdrawal → Bool) (xs : List Withdrawal)
    → All (λ x. p x ≡ q x) xs
    → keep p xs ≡ keep q xs
keep-same p q [] h = refl
keep-same p q (x ∷ xs) h = ground (arith, keep-same p q xs h.1)

pub keep-false : (xs : List Withdrawal) → keep (λ x. false) xs ≡ []
keep-false [] = refl
keep-false (x ∷ xs) = keep-false xs

pub empty-lists :
    (o : Option Withdrawal) (fs : List Withdrawal)
    → (is_none o && is_empty fs) ≡ true
    → listed o ++ fs ≡ []
empty-lists none [] e = refl
empty-lists none (f ∷ fs) e = cc
empty-lists (some t) fs e = cc

supersedes-role :
    (r : RootRole) (b : Bool)
    → (not (is_funnel r) && (false || (is_nothing r && b))) ≡ (is_nothing r && b)
supersedes-role role_funnel b = refl
supersedes-role role_relay b = refl
supersedes-role role_nothing b = refl

-- Of tickets of funnel actions alone, a ticket ends those that began before it, if it has no patterns.
pub supersedes-funnel :
    (h : Withdrawal) (root : Text) (n c : ℕ) (fs : List Withdrawal)
    → All (IsFunnel root n c) fs
    → All (λ f. supersedes h f ≡ (is_nothing h.role && begun_before h f)) fs
supersedes-funnel h root n c [] v = tt
supersedes-funnel h root n c (f ∷ fs) v = (
  ap (λ b. not (is_funnel h.role) && (not b || (is_nothing h.role && begun_before h f))) v.0.funnel
      ∙ supersedes-role h.role (begun_before h f),
  supersedes-funnel h root n c fs v.1,
)

pub keep-none :
    (p : Withdrawal → Bool) (xs : List Withdrawal)
    → ((x : Withdrawal) → p x ≡ false)
    → keep p xs ≡ []
keep-none p [] h = refl
keep-none p (x ∷ xs) h = ground (arith, h x, keep-none p xs h)

pub keep_every :
    (p : Withdrawal → Bool) (xs : List Withdrawal) → All (λ x. p x ≡ true) xs → keep p xs ≡ xs
keep_every p [] h = refl
keep_every p (x ∷ xs) h = ground (arith, h.0, keep_every p xs h.1)

pub All-map :
    (P Q : Withdrawal → Type 0) (xs : List Withdrawal)
    → ((x : Withdrawal) → P x → Q x)
    → All P xs
    → All Q xs
All-map P Q [] f h = tt
All-map P Q (x ∷ xs) f h = (f x h.0, All-map P Q xs f h.1)

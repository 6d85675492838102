-- ===== src/Relay/Routes/Installs.antt =====
-- internal/relay/server.go, the routes of one broadcast path: installing and keeping a handler.
use qumo.Common.{ℕ, ◌≡◌, ◌≢◌, refl, true, ◌⊎◌, inl, inr, Option, none, some, arith, Bool-cases}
use qumo.Relay.Routes.Election.{
  route, Election, cancel, end_announcement, displace, install_route, announce, keep_alternate,
  drop_alternate,
}
use qumo.Relay.Routes.Stranded.{IsElection, Slot-cases, Displaced, displace-Displaced}

-- What an Announce leaves alone.
displace_same :
    (e : Election) (h : ℕ)
    → ((displace e).known h ≡ e.known h)
      × ((displace e).slot ≡ e.slot)
      × ((displace e).alternate ≡ e.alternate)
unfolding displace end_announcement
displace_same e h = elim (Slot-cases e.slot) [
  | inl (inl n) ↦ (ground arith, ground arith, ground arith)
  | inl (inr n) ↦ (ground arith, ground arith, ground arith)
  | inr (a, s) ↦ (ground arith, ground arith, ground arith)
]

announce-IsElection :
    (x : Option ℕ) (h : ℕ) (e : Election)
    → Displaced x e
    → e.known h ≡ true
    → e.alternate ≢ some h
    → (x ≡ none) ⊎ (x ≡ some h)
    → IsElection none (announce h e)
announce-IsElection x h e (w, still) known free fits = record {
  gauge = w.gauge;
  kept = w.kept;
  discards_kept = w.discards_kept;
  ended_known = w.ended_known;
  in_use = λ a s. (ground arith, ground arith);
  promotes_used = λ a p. ground (arith, w.promotes_used a, still a);
  apart = λ a s k. ground arith;
  tracked = λ g y k a c d. ground (arith, w.tracked g, still g);
  backed = λ g s. elim (Bool-cases (e.active h)) [
    | inl l ↦ inr (h, refl, l)
    | inr l ↦ inl (ground arith)
  ];
}

pub install-IsElection :
    (x : Option ℕ) (h : ℕ) (e : Election)
    → IsElection x e
    → e.known h ≡ true
    → e.alternate ≢ some h
    → (x ≡ none) ⊎ (x ≡ some h)
    → IsElection none (install_route h e)
unfolding install_route
install-IsElection x h e v known free fits =
    let (a, b, c) = displace_same e h in
    announce-IsElection x h (displace e) (displace-Displaced x e v) (ground arith)
      (λ s. free (ground arith)) fits

-- The alternate is popped by a promotion that is no longer pending.
pub drop-IsElection :
    (h n : ℕ) (e : Election)
    → IsElection none e
    → e.alternate ≡ some h
    → IsElection (some h) (drop_alternate h (record e { promotes = n }))
drop-IsElection h n e v s = record {
  gauge = ground (arith, v.gauge);
  kept = λ g t. absurd cc;
  discards_kept = λ g d. ground (arith, v.discards_kept g);
  ended_known = v.ended_known;
  in_use = v.in_use;
  promotes_used = v.promotes_used;
  apart = λ a t u. absurd cc;
  tracked = λ g y k a c d. ground (arith, v.tracked g);
  backed = λ g t. absurd cc;
}

-- The alternate goes, and its context with it.
pub dropped-IsElection :
    (x : Option ℕ) (h : ℕ) (e : Election)
    → IsElection x e
    → e.alternate ≡ some h
    → IsElection x (cancel h (drop_alternate h e))
dropped-IsElection x h e v s = record {
  gauge = ground (arith, v.gauge);
  kept = λ g t. absurd cc;
  discards_kept = λ g d. ground (arith, v.discards_kept g);
  ended_known = v.ended_known;
  in_use = v.in_use;
  promotes_used = v.promotes_used;
  apart = λ a t u. absurd cc;
  tracked = λ g y k a c d. ground (arith, v.tracked g y k a);
  backed = λ g t. absurd cc;
}

-- A handler that is alive becomes the alternate while a route is in use.
pub keep-IsElection :
    (h a : ℕ) (e : Election)
    → IsElection (some h) e
    → e.alternate ≡ none
    → e.known h ≡ true
    → e.active h ≡ true
    → e.slot ≡ route a
    → e.active a ≡ true
    → a ≢ h
    → IsElection none (keep_alternate h e)
keep-IsElection h a e v n known lives s t apart = record {
  gauge = ground (arith, v.gauge);
  kept = λ g u. ground arith;
  discards_kept = λ g d. ground (arith, v.discards_kept g);
  ended_known = v.ended_known;
  in_use = v.in_use;
  promotes_used = v.promotes_used;
  apart = λ b u w. ground arith;
  tracked = λ g y k c d i. ground (arith, v.tracked g);
  backed = λ g u. inr (a, s, t);
}

-- ===== src/Relay/Routes/Reached.antt =====
-- internal/relay/server.go, the routes of one broadcast path: every state that is reached.
use qumo.Common.{ℕ, ◌<◌, ◌≡◌, ◌≢◌, refl, true, false, inl, inr, none, some, arith}
use qumo.Relay.Routes.Election.{
  Slot, other, route, Election, end_announcement, displace, install_route, promote_alternate,
}
use qumo.Relay.Routes.Steps.{
  promoting_now, Found, Step, elects, ends, cancels, discards_run, promotes_run, others_announce,
  Reach, here, later,
}
use qumo.Relay.Routes.Stranded.{
  IsElection, Slot-cases, cancel-IsElection, end-IsElection, Displaced, displace-Displaced,
}
use qumo.Relay.Routes.Kept.{elect-IsElection}
use qumo.Relay.Routes.Promoted.{discard-IsElection, promote-IsElection}

other-IsElection : (e : Election) → Displaced none e → IsElection none (record e { slot = other })
other-IsElection e (v, still) = record {
  gauge = v.gauge;
  kept = v.kept;
  discards_kept = v.discards_kept;
  ended_known = v.ended_known;
  in_use = λ a s. absurd cc;
  promotes_used = λ a p. ground (arith, v.promotes_used a, still a);
  apart = λ a s. absurd cc;
  tracked = λ g y k a c d. ground (arith, v.tracked g y k a c d, still g);
  backed = λ g s. elim (v.backed g s) [
    | inl p ↦ inl p
    | inr (a, t, l) ↦ absurd (ground (arith, still a t))
  ];
}

Step-IsElection : {e f : Election} → Step e f → IsElection none e → IsElection none f
Step-IsElection {e} (elects probe h b c found new fits) v =
    elect-IsElection e v probe h b c found new fits
Step-IsElection {e} (ends h) v = end-IsElection none e v h
Step-IsElection {e} (cancels h) v = cancel-IsElection none e v h
Step-IsElection {e} (discards_run h due) v = discard-IsElection e v h due
Step-IsElection {e} (promotes_run found due fits) v = promote-IsElection e v found
Step-IsElection {e} others_announce v = other-IsElection (displace e) (displace-Displaced none e v)

-- In every reachable state, in whatever order sessions elect, end and cancel routes and the callbacks
-- run: every handler that is alive and not draining is the route in use or the alternate; those two
-- are not the same; the gauge counts the alternate; the announcement of either has its callback, or
-- the call is pending; and while there is an alternate, a live announcement holds the path or a
-- promotion is pending.
pub Reach-IsElection : {e : Election} → Reach e → IsElection none e
Reach-IsElection here = record {
  gauge = refl;
  kept = λ h s. absurd cc;
  discards_kept = λ h d. absurd cc;
  ended_known = λ h d. absurd cc;
  in_use = λ a s. absurd cc;
  promotes_used = λ a p. absurd cc;
  apart = λ a s t. absurd cc;
  tracked = λ h y k a c d. absurd cc;
  backed = λ h s. absurd cc;
}
Reach-IsElection (later r st) = Step-IsElection st (Reach-IsElection r)

displace_alternate : (e : Election) → (displace e).slot ≡ e.slot
unfolding displace end_announcement
displace_alternate e = elim (Slot-cases e.slot) [
  | inl (inl n) ↦ ground arith
  | inl (inr n) ↦ ground arith
  | inr (a, s) ↦ ground arith
]

-- In every reachable state in which an alternate is kept that is alive, and the announcement that held
-- the path has ended, a promotion is pending, and when it runs the alternate holds the path.
pub alternate_promoted :
    (e : Election) (h : ℕ) (found : Slot)
    → Reach e
    → e.alternate ≡ some h
    → e.active h ≡ true
    → e.cancelled h ≡ false
    → ((a : ℕ) → e.slot ≡ route a → e.active a ≡ false)
    → e.slot ≢ other
    → Found e found
    → (0 < e.promotes) × ((promoting_now found e).slot ≡ route h)
unfolding promote_alternate install_route
alternate_promoted e h found r s lives free still mine fits =
    let v = Reach-IsElection r in
    (
      elim (v.backed h s) [ inl p ↦ p | inr (a, t, l) ↦ absurd (ground (arith, still a t)) ],
      elim (Slot-cases found) [
        | inl (inl n) ↦ ground arith
        | inl (inr n) ↦ absurd (ground arith)
        | inr (a, t) ↦ ground (arith, still a)
      ],
    )

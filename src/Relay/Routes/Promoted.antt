-- ===== src/Relay/Routes/Promoted.antt =====
-- internal/relay/server.go, the routes of one broadcast path: the calls that run later.
use qumo.Common.{
  ℕ, ◌-◌, ◌≡◌, ◌≢◌, refl, true, false, not, ◌&&◌, ◌||◌, ◌⊎◌, inl, inr, none, some, update, ◌==◌,
  arith, Bool-cases, Option-cases, subst, sym,
}
use qumo.Relay.Routes.Election.{
  Slot, Election, cancel, install_route, drop_alternate, discard_alternate, promote_alternate,
}
use qumo.Relay.Routes.Steps.{discarding_now, promoting_now}
use qumo.Relay.Routes.Stranded.{IsElection, Slot-cases, cancel_spare}
use qumo.Relay.Routes.Installs.{install-IsElection, drop-IsElection}

module _ (e : Election) (v : IsElection none e) where
  -- A call of discardAlternate that has nothing to do.
  idle_discard :
      (h : ℕ)
      → e.alternate ≢ some h
      → IsElection none (record e { discards = update e.discards h false })
  idle_discard h free = record {
    gauge = v.gauge;
    kept = λ g s. let (a, b, c) = v.kept g s in (a, b, ground arith);
    discards_kept = v.discards_kept;
    ended_known = λ g d. ground (arith, v.ended_known g);
    in_use = v.in_use;
    promotes_used = v.promotes_used;
    apart = v.apart;
    tracked = v.tracked;
    backed = v.backed;
  }

  discarded :
      (h : ℕ)
      → e.alternate ≡ some h
      → e.discards h ≡ true
      → IsElection none (
          cancel h (record e {
            discards = update e.discards h false;
            alternate = none;
            retained = e.retained - 1;
          }))
  discarded h s due = record {
    gauge = ground (arith, v.gauge);
    kept = λ g t. absurd cc;
    discards_kept = λ g d. ground (arith, v.discards_kept g, v.ended_known h);
    ended_known = λ g d. ground (arith, v.ended_known g);
    in_use = v.in_use;
    promotes_used = v.promotes_used;
    apart = λ a t u. absurd cc;
    tracked = λ g y k a c d. ground (arith, v.tracked g y k a);
    backed = λ g t. absurd cc;
  }

  pub discard-IsElection : (h : ℕ) → e.discards h ≡ true → IsElection none (discarding_now h e)
  unfolding discard_alternate
  discard-IsElection h due = elim (Option-cases e.alternate) [
    | inl n ↦
        let same : discarding_now h e ≡ record e { discards = update e.discards h false } =
          ground arith in
        subst (IsElection none) (sym same) (idle_discard h (λ s. cc))
    | inr (a, s) ↦ elim (Bool-cases (a == h)) [
      | inl q ↦
          let now : e.alternate ≡ some h = ground arith in
          let same : discarding_now h e
              ≡ cancel h (record e {
                discards = update e.discards h false;
                alternate = none;
                retained = e.retained - 1;
              }) =
            ground arith in
          subst (IsElection none) (sym same) (discarded h now due)
      | inr q ↦
          let same : discarding_now h e ≡ record e { discards = update e.discards h false } =
            ground arith in
          subst (IsElection none) (sym same) (idle_discard h (λ t. ground arith))
    ]
  ]

  idle_promote : e.alternate ≡ none → IsElection none (record e { promotes = e.promotes - 1 })
  idle_promote n = record {
    gauge = v.gauge;
    kept = v.kept;
    discards_kept = v.discards_kept;
    ended_known = v.ended_known;
    in_use = v.in_use;
    promotes_used = v.promotes_used;
    apart = v.apart;
    tracked = v.tracked;
    backed = λ g s. absurd cc;
  }

  -- What a promotion does with the alternate.
  promote_cases :
      (h : ℕ) (found : Slot)
      → e.alternate ≡ some h
      → (promoting_now found e
          ≡ cancel h (drop_alternate h (record e { promotes = e.promotes - 1 })))
        ⊎ (promoting_now found e
            ≡ install_route h (drop_alternate h (record e { promotes = e.promotes - 1 })))
  unfolding promote_alternate
  promote_cases h found s = elim (Bool-cases (not (e.active h) || e.cancelled h)) [
    | inl d ↦ inl (ground arith)
    | inr d ↦ elim (Slot-cases found) [
      | inl (inl n) ↦ inr (ground arith)
      | inl (inr n) ↦ inl (ground arith)
      | inr (a, t) ↦ elim (Bool-cases (not (e.cancelled a) && e.active a)) [
        | inl l ↦ inl (ground arith)
        | inr l ↦ inr (ground arith)
      ]
    ]
  ]

  pub promote-IsElection : (found : Slot) → IsElection none (promoting_now found e)
  unfolding promote_alternate
  promote-IsElection found = elim (Option-cases e.alternate) [
    | inl n ↦
        let same : promoting_now found e ≡ record e { promotes = e.promotes - 1 } = ground arith in
        subst (IsElection none) (sym same) (idle_promote n)
    | inr (h, s) ↦
        let popped = drop_alternate h (record e { promotes = e.promotes - 1 }) in
        let w = drop-IsElection h (e.promotes - 1) e v s in
        let known = (v.kept h s).0 in
        let gone = cancel_spare (some h) popped w h refl in
        let placed = install-IsElection (some h) h popped w known (λ t. cc) (inr refl) in
        elim (promote_cases h found s) [
          | inl q ↦ subst (IsElection none) (sym q) gone
          | inr q ↦ subst (IsElection none) (sym q) placed
        ]
  ]

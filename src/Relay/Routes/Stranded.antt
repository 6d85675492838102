-- ===== src/Relay/Routes/Stranded.antt =====
-- internal/relay/server.go, the routes of one broadcast path: what holds between two calls.
use qumo.Common.{
  ℕ, ◌<◌, ◌≡◌, ◌≢◌, refl, true, false, ◌⊎◌, inl, inr, Option, none, some, ◌==◌, arith, Bool-cases,
  subst, sym,
}
use qumo.Relay.Routes.Election.{
  Slot, vacant, other, route, Election, cancel, drain, end_announcement, displace,
}

abbrev pub count : Option ℕ → ℕ
count none = 0
count (some h) = 1

-- `spare` is a handler that has just arrived, if any.
pub record IsElection (spare : Option ℕ) (e : Election) : Type 0 where
  pub gauge : e.retained ≡ count e.alternate
  pub kept :
      (h : ℕ)
      → e.alternate ≡ some h
      → (e.known h ≡ true)
        × (e.active h ≡ true → e.discarding h ≡ true)
        × (e.active h ≡ false → e.discards h ≡ true)
  pub discards_kept : (h : ℕ) → e.discarding h ≡ true → (e.alternate ≡ some h) × (e.active h ≡ true)
  pub ended_known : (h : ℕ) → e.discards h ≡ true → (e.known h ≡ true) × (e.active h ≡ false)
  pub in_use :
      (a : ℕ) → e.slot ≡ route a → (e.known a ≡ true) × (e.active a ≡ true → e.promoting a ≡ true)
  pub promotes_used : (a : ℕ) → e.promoting a ≡ true → (e.slot ≡ route a) × (e.active a ≡ true)
  pub apart : (a : ℕ) → e.slot ≡ route a → e.alternate ≡ some a → ⊥
  pub tracked :
      (h : ℕ)
      → spare ≢ some h
      → e.known h ≡ true
      → e.active h ≡ true
      → e.cancelled h ≡ false
      → e.draining h ≡ false
      → (e.slot ≡ route h) ⊎ (e.alternate ≡ some h)
  pub backed :
      (h : ℕ)
      → e.alternate ≡ some h
      → (0 < e.promotes) ⊎ ((a : ℕ) × (e.slot ≡ route a) × (e.active a ≡ true))

pub Slot-cases : (s : Slot) → ((s ≡ vacant) ⊎ (s ≡ other)) ⊎ ((a : ℕ) × (s ≡ route a))
Slot-cases vacant = inl (inl refl)
Slot-cases other = inl (inr refl)
Slot-cases (route a) = inr (a, refl)

end_slot :
    (a : ℕ) (e : Election)
    → e.slot ≡ route a
    → (b : ℕ) → (end_announcement a e).slot ≡ route b
    → (end_announcement a e).active b ≡ false
unfolding end_announcement
end_slot a e s b t = ground arith

-- After an Announce of another, nobody's announcement holds the path.
abbrev pub Displaced : Option ℕ → Election → Type 0
Displaced x f = IsElection x f × ((a : ℕ) → f.slot ≡ route a → f.active a ≡ false)

module _ (x : Option ℕ) (e : Election) (v : IsElection x e) where
  pub cancel-IsElection : (h : ℕ) → IsElection x (cancel h e)
  cancel-IsElection h = record {
    gauge = v.gauge;
    kept = v.kept;
    discards_kept = v.discards_kept;
    ended_known = v.ended_known;
    in_use = v.in_use;
    promotes_used = v.promotes_used;
    apart = v.apart;
    tracked = λ g y k a c d. ground (arith, v.tracked g y k a);
    backed = v.backed;
  }

  pub drain-IsElection : (h : ℕ) → IsElection x (drain h e)
  drain-IsElection h = record {
    gauge = v.gauge;
    kept = v.kept;
    discards_kept = v.discards_kept;
    ended_known = v.ended_known;
    in_use = v.in_use;
    promotes_used = v.promotes_used;
    apart = v.apart;
    tracked = λ g y k a c d. ground (arith, v.tracked g y k a);
    backed = v.backed;
  }

  pub end-IsElection : (h : ℕ) → IsElection x (end_announcement h e)
  unfolding end_announcement
  end-IsElection h = record {
    gauge = v.gauge;
    kept = λ g s. let (a, b, c) = v.kept g s in (a, ground arith, ground arith);
    discards_kept = λ g d. ground (arith, v.discards_kept g);
    ended_known = λ g d. ground (arith, v.ended_known g, v.discards_kept g, v.kept g);
    in_use = λ a s. let (k, p) = v.in_use a s in (k, ground arith);
    promotes_used = λ a p. ground (arith, v.promotes_used a);
    apart = v.apart;
    tracked = λ g y k a c d. ground (arith, v.tracked g y k);
    backed = λ g s. elim (v.backed g s) [
      | inl p ↦ inl (ground arith)
      | inr (a, t, l) ↦ elim (Bool-cases (a == h)) [
        | inl q ↦ inl (ground (arith, (v.in_use a t).1 l))
        | inr q ↦ inr (a, t, ground arith)
      ]
    ];
  }

  pub cancel_spare : (h : ℕ) → x ≡ some h → IsElection none (cancel h e)
  cancel_spare h same = record {
    gauge = v.gauge;
    kept = v.kept;
    discards_kept = v.discards_kept;
    ended_known = v.ended_known;
    in_use = v.in_use;
    promotes_used = v.promotes_used;
    apart = v.apart;
    tracked = λ g y k a c d. ground (arith, v.tracked g);
    backed = v.backed;
  }

  pub displace-Displaced : Displaced x (displace e)
  unfolding displace
  displace-Displaced = elim (Slot-cases e.slot) [
    | inl (inl n) ↦
        let same : displace e ≡ e = ground arith in
        subst (Displaced x) (sym same) (v, λ a s. absurd cc)
    | inl (inr n) ↦
        let same : displace e ≡ e = ground arith in
        subst (Displaced x) (sym same) (v, λ a s. absurd cc)
    | inr (a, s) ↦
        let same : displace e ≡ end_announcement a e = ground arith in
        subst (Displaced x) (sym same) (end-IsElection a, end_slot a e s)
  ]

-- ===== src/Relay/Routes/Kept.antt =====
-- internal/relay/server.go, the routes of one broadcast path: an election.
use qumo.Common.{
  ℕ, ◌≡◌, ◌≢◌, refl, Bool, true, false, not, ◌||◌, inl, inr, none, some, arith, Bool-cases,
  Option-cases, subst, sym,
}
use qumo.Relay.Routes.{RouteStats, accepted, compare_routes}
use qumo.Relay.Routes.Election.{
  Slot, route, Election, cancel, drain, route_stats, install_route, keep_alternate, drop_alternate,
  retain_route, elect,
}
use qumo.Relay.Routes.Steps.{arrive, Found}
use qumo.Relay.Routes.Stranded.{IsElection, Slot-cases, drain-IsElection, cancel_spare}
use qumo.Relay.Routes.Installs.{install-IsElection, dropped-IsElection, keep-IsElection}

rejected_alive :
    (c d : RouteStats) → accepted (compare_routes c d) ≡ false → c.alive ≡ true → d.alive ≡ true
unfolding accepted compare_routes
rejected_alive c d r a = ground arith

arrive-IsElection :
    (h : ℕ) (b c : Bool) (e : Election)
    → IsElection none e
    → e.known h ≡ false
    → IsElection (some h) (arrive h b c e)
arrive-IsElection h b c e v new = record {
  gauge = v.gauge;
  kept = λ g s. ground (arith, v.kept g s);
  discards_kept = λ g d. ground (arith, v.discards_kept g d, v.kept g);
  ended_known = λ g d. ground (arith, v.ended_known g d);
  in_use = λ a s. ground (arith, v.in_use a s);
  promotes_used = λ a p. ground (arith, v.promotes_used a, v.in_use a);
  apart = v.apart;
  tracked = λ g y k a d i. ground (arith, v.tracked g);
  backed = λ g s. elim (v.backed g s) [
    | inl p ↦ inl p
    | inr (a, t, l) ↦ inr (a, t, ground (arith, v.in_use a t))
  ];
}

-- A handler that was not elected, while the route in use is alive.
retain-IsElection :
    (probe : ℕ → RouteStats) (h a : ℕ) (e : Election)
    → IsElection (some h) e
    → e.known h ≡ true
    → e.slot ≡ route a
    → a ≢ h
    → e.alternate ≢ some h
    → (e.active h ≡ true → e.cancelled h ≡ false → e.active a ≡ true)
    → IsElection none (retain_route probe h e)
unfolding retain_route
retain-IsElection probe h a e v known s apart free live =
    let dead = cancel_spare (some h) e v h refl in
    elim (Bool-cases (not (e.active h) || e.cancelled h)) [
      | inl b ↦
          let same : retain_route probe h e ≡ cancel h e = ground arith in
          subst (IsElection none) (sym same) dead
      | inr b ↦
          let lives : e.active h ≡ true = ground arith in
          let used : e.active a ≡ true = live lives (ground arith) in
          elim (Option-cases e.alternate) [
            | inl n ↦
                let same : retain_route probe h e ≡ keep_alternate h e = ground arith in
                subst (IsElection none) (sym same)
                  (keep-IsElection h a e v n known lives s used apart)
            | inr (prev, p) ↦
                elim (Bool-cases
                  (accepted (compare_routes (route_stats probe e h) (route_stats probe e prev)))) [
                    | inl w ↦
                        let f = cancel prev (drop_alternate prev e) in
                        let same : retain_route probe h e ≡ keep_alternate h f = ground arith in
                        subst (IsElection none) (sym same) (
                          keep-IsElection h a f (dropped-IsElection (some h) prev e v p) refl known
                            lives s used apart)
                    | inr w ↦
                        let same : retain_route probe h e ≡ cancel h e = ground arith in
                        subst (IsElection none) (sym same) dead
                  ]
          ]
    ]

module _ (e : Election) (v : IsElection none e) where
  pub elect-IsElection :
      (probe : ℕ → RouteStats) (h : ℕ) (b c : Bool) (found : Slot)
      → e.known h ≡ false
      → Found e found
      → IsElection none (elect probe h found (arrive h b c e))
  unfolding elect
  elect-IsElection probe h b c found new fits =
      let f = arrive h b c e in
      let w = arrive-IsElection h b c e v new in
      let known : f.known h ≡ true = ground arith in
      let free : f.alternate ≢ some h = λ s. ground (arith, v.kept h s) in
      let placed = install-IsElection (some h) h f w known free (inr refl) in
      elim (Slot-cases found) [
        | inl (inl n) ↦
            let same : elect probe h found f ≡ install_route h f = ground arith in
            subst (IsElection none) (sym same) placed
        | inl (inr n) ↦
            let same : elect probe h found f ≡ install_route h f = ground arith in
            subst (IsElection none) (sym same) placed
        | inr (a, s) ↦
            let used : e.slot ≡ route a = ground arith in
            let (old, p) = v.in_use a used in
            let apart : a ≢ h = λ q. ground arith in
            elim (Bool-cases
              (accepted (compare_routes (route_stats probe f h) (route_stats probe f a)))) [
                | inl w' ↦
                    let same : elect probe h found f ≡ install_route h (drain a f) = ground arith in
                    subst (IsElection none) (sym same) (
                      install-IsElection (some h) h (drain a f) (drain-IsElection (some h) f w a)
                        known free (inr refl))
                | inr w' ↦
                    let same : elect probe h found f ≡ retain_route probe h f = ground arith in
                    subst (IsElection none) (sym same) (
                      retain-IsElection probe h a f w known used apart free λ l d.
                        ground (
                          arith,
                          rejected_alive (route_stats probe f h) (route_stats probe f a) w',
                        ))
              ]
      ]

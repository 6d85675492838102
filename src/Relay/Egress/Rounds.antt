-- ===== src/Relay/Egress/Rounds.antt =====
-- internal/relay/handler.go, egress: how often one round gives a subscriber a group.
use qumo.Common.{
  ℕ, ◌==◌, ◌≡◌, refl, false, List, ◌++◌, ltb, arith, if◌then◌else◌, inl, inr, Bool-cases, sym,
  subst, if_either, Option, some, none,
}
use qumo.Relay.Drops.{
  SubscribeDrop, DropDistributor, sent, report, report_skipped, flush, is_handled,
}
use qumo.Relay.Drops.Tells.{IsReporter, Tells-none, Tells-then, Reported, report-Reported}
use qumo.Relay.Drops.Flushes.{report_skipped-Reported, flush-Reported}
use qumo.Relay.Egress.{
  ErrorCodes, DeliverResult, group_sent, group_timed_out, delivery_stopped, Given, After, continues,
  Pickup, Egress, next_position, told_all, with_drops, after_skip, delivered, picked_up, at_wait,
  egress_round, Wake, broadcast, track_ended, left, woken,
}
use qumo.Relay.Egress.Times.{
  times, times-told_all, Gives, Gives-of, Gives-then, sent-Tells, SmallDrops, since-All, IsPickup,
}

module _ (codes : ErrorCodes) (g : ℕ) (src : DropDistributor) (small : SmallDrops src) where
  flush_gives : (e : Egress) → IsReporter e.drops → Reported g e.drops (flush src e.drops)
  flush_gives e v = flush-Reported g src e.drops v (since-All e.drops.pos src small)

  after_skip-Gives :
      (cache : Pickup) (e : Egress)
      → IsReporter e.drops
      → IsPickup cache
      → Gives g e.drops (after_skip codes cache e).0 (after_skip codes cache e).1
  unfolding after_skip
  after_skip-Gives cache e v (a, b) =
      let (p, w) =
        report_skipped-Reported g cache.seq cache.highest_seq codes.internal e.drops v a b in
      ground (
        arith,
        times-told_all g (report_skipped cache.seq cache.highest_seq codes.internal e.drops).0,
        Tells-none g e.drops,
      )

  delivered-Gives :
      (cache : Pickup) (result : DeliverResult) (e : Egress)
      → IsReporter e.drops
      → IsPickup cache
      → is_handled cache.seq e.drops ≡ false
      → Gives g e.drops
          (delivered codes src cache result e).0
          (delivered codes src cache result e).1
  unfolding delivered
  delivered-Gives cache delivery_stopped e v p new = (Tells-none g e.drops, v)
  delivered-Gives cache group_timed_out e v p new =
      let drop : SubscribeDrop = record {
        start_group = cache.seq;
        end_group = cache.seq;
        error_code = codes.timeout;
      } in
      Gives-of g e.drops (report drop e.drops) e (report-Reported g drop e.drops v p.0)
  delivered-Gives cache group_sent e v p new =
      let (a, w) = sent-Tells g cache.seq e.drops v p.0 new in
      let begun : Egress = with_drops (sent cache.seq e.drops) e in
      let (b, u) = Gives-of g begun.drops (flush src begun.drops) e (flush_gives begun w) in
      (
        Tells-then g (if cache.seq == g then 1 else 0)
            (times g (told_all (flush src begun.drops).0)) e.drops begun.drops
            (flush src begun.drops).1 a b,
        u,
      )

  picked_up-Gives :
      (cache : Pickup) (result : DeliverResult) (e : Egress)
      → IsReporter e.drops
      → IsPickup cache
      → Gives g e.drops
          (picked_up codes src cache result e).0
          (picked_up codes src cache result e).1
  unfolding picked_up
  picked_up-Gives cache result e v p =
      let first = after_skip codes cache e in
      let (a, w) = after_skip-Gives cache e v p in
      let later = delivered codes src cache result first.1 in
      elim (Bool-cases (is_handled cache.seq first.1.drops)) [
        | inl h ↦
            let same : picked_up codes src cache result e ≡ (first.0, first.1, continues) =
              ground arith in
            subst (λ out. Gives g e.drops out.0 out.1) (sym same) (a, w)
        | inr h ↦
            let same : picked_up codes src cache result e ≡ (first.0 ++ later.0, later.1, later.2) =
              ground arith in
            subst (λ out. Gives g e.drops out.0 out.1) (sym same)
              (Gives-then g e.drops first.0 later.0 first.1 later.1 (a, w)
                (delivered-Gives cache result first.1 w p h))
      ]

  at_wait-Gives :
      (e : Egress) → IsReporter e.drops → Gives g e.drops (at_wait src e).0 (at_wait src e).1
  unfolding at_wait
  at_wait-Gives e v = Gives-of g e.drops (flush src e.drops) e (flush_gives e v)

  pub woken-Gives :
      (wake : Wake) (e : Egress)
      → IsReporter e.drops
      → Gives g e.drops (woken src wake e).0 (woken src wake e).1
  unfolding woken
  woken-Gives broadcast e v = (Tells-none g e.drops, v)
  woken-Gives track_ended e v = Gives-of g e.drops (flush src e.drops) e (flush_gives e v)
  woken-Gives left e v = (Tells-none g e.drops, v)

  next_position-drops :
      (latest earliest : ℕ) (e : Egress) → (next_position latest earliest e).drops ≡ e.drops
  unfolding next_position
  next_position-drops latest earliest e = ground arith

  -- What follows the choice of the next position.
  Gives-next :
      (latest earliest : ℕ) (e : Egress) (out : List Given × Egress × After)
      → (IsReporter (next_position latest earliest e).drops
          → Gives g (next_position latest earliest e).drops out.0 out.1)
      → IsReporter e.drops
      → Gives g e.drops out.0 out.1
  Gives-next latest earliest e out h v =
      let same = next_position-drops latest earliest e in
      subst (λ r. Gives g r out.0 out.1) same (h (subst IsReporter (sym same) v))

  pub egress_round-Gives :
      (latest earliest : ℕ) (found : Option Pickup) (result : DeliverResult) (e : Egress)
      → IsReporter e.drops
      → ((cache : Pickup) → found ≡ some cache → IsPickup cache)
      → Gives g e.drops
          (egress_round codes latest earliest found src result e).0
          (egress_round codes latest earliest found src result e).1
  unfolding egress_round
  egress_round-Gives latest earliest none result e v p =
      let e' = next_position latest earliest e in
      let looked = Gives-next latest earliest e (at_wait src e') (at_wait-Gives e') v in
      if_either (λ (out : List Given × Egress × After). Gives g e.drops out.0 out.1)
        (ltb e.last latest) (at_wait src e') (at_wait src e) looked (at_wait-Gives e v)
  egress_round-Gives latest earliest (some cache) result e v p =
      let e' = next_position latest earliest e in
      let taken = picked_up codes src cache result e' in
      let looked =
        Gives-next latest earliest e taken (λ w. picked_up-Gives cache result e' w (p cache refl))
          v in
      if_either (λ (out : List Given × Egress × After). Gives g e.drops out.0 out.1)
        (ltb e.last latest) taken (at_wait src e) looked (at_wait-Gives e v)

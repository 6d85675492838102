-- ===== src/Relay/Egress/Times.antt =====
-- internal/relay/handler.go, egress: how often a subscriber is given a group.
use qumo.Common.{
  ℕ, zero, suc, ◌%◌, ◌+◌, ◌-◌, ◌==◌, ◌≤◌, ◌<◌, ◌≡◌, refl, true, false, ◌&&◌, List, [], ◌∷◌, ◌++◌,
  leb, ltb, arith, if◌then◌else◌, sym, subst, All, if_either, length,
}
use qumo.Relay.Drops.{
  GroupSpan, SubscribeDrop, DropDistributor, DropReporter, sent, is_handled, since, held_drops,
  inc64, max_handled_spans,
}
use qumo.Relay.Drops.Spans.{limit, IsSpan, Apart, spans_hold-covers}
use qumo.Relay.Drops.Tells.{
  names, IsReporter, Tells, Tells-then, add-IsReporter, add-covers, Reported, IsSmall,
}
use qumo.Relay.Egress.{Given, group, told, Pickup, Egress, told_all, with_drops}

-- How often a group is among what a subscriber is given.
abbrev pub times : ℕ → List Given → ℕ
times g [] = 0
times g (group seq ∷ gs) = (if seq == g then 1 else 0) + times g gs
times g (told d ∷ gs) = (if leb d.start_group g && leb g d.end_group then 1 else 0) + times g gs

pub times-append : (g : ℕ) (gs bs : List Given) → times g (gs ++ bs) ≡ times g gs + times g bs
times-append g [] bs = omega arith
times-append g (group seq ∷ gs) bs = omega (arith, times-append g gs bs)
times-append g (told d ∷ gs) bs = omega (arith, times-append g gs bs)

pub times-told_all : (g : ℕ) (ds : List SubscribeDrop) → times g (told_all ds) ≡ names g ds
times-told_all g [] = refl
times-told_all g (d ∷ ds) = omega (arith, times-told_all g ds)

-- What a subscriber is given while the loop's variables go from those with the reporter `r` to `e`.
abbrev pub Gives : ℕ → DropReporter → List Given → Egress → Type 0
Gives g r gs e = Tells g r (times g gs) e.drops × IsReporter e.drops

pub Gives-of :
    (g : ℕ) (r : DropReporter) (out : List SubscribeDrop × DropReporter) (e : Egress)
    → Reported g r out
    → Gives g r (told_all out.0) (with_drops out.1 e)
Gives-of g r out e (p, v) = (subst (λ n. Tells g r n out.1) (sym (times-told_all g out.0)) p, v)

pub Gives-then :
    (g : ℕ) (r : DropReporter) (gs hs : List Given) (e e' : Egress)
    → Gives g r gs e
    → Gives g e.drops hs e'
    → Gives g r (gs ++ hs) e'
Gives-then g r gs hs e e' (p, v) (q, w) = (
  subst (λ n. Tells g r n e'.drops) (sym (times-append g gs hs))
      (Tells-then g (times g gs) (times g hs) r e.drops e'.drops p q),
  w,
)

-- The subscription's start does not matter to what is handled.
pub sent-Tells :
    (g seq : ℕ) (r : DropReporter)
    → IsReporter r
    → seq + 1 < limit
    → is_handled seq r ≡ false
    → Tells g r (if seq == g then 1 else 0) (sent seq r) × IsReporter (sent seq r)
unfolding sent is_handled
sent-Tells g seq r v small new =
    let span : GroupSpan = record { start = seq; end = seq } in
    let ok : IsSpan span = (omega arith, small) in
    let begun : DropReporter = if r.started then r else record r { started = true; start = seq } in
    let same : begun.handled ≡ r.handled = ground arith in
    let w : IsReporter begun = record {
      apart = subst (Apart 0) (sym same) v.apart;
      short = subst (λ hs. length hs ≤ max_handled_spans) (sym same) v.short;
    } in
    let holds = spans_hold-covers seq 0 r.handled v.apart in
    (
      record {
        keeps = λ h. add-covers g span begun w ok (ground arith);
        silent = λ h. ground arith;
        at_most = ground arith;
        marks = λ h. add-covers g span begun w ok (ground arith);
      },
      add-IsReporter span begun w ok,
    )

-- Every upstream drop that is held ends before the last group number.
abbrev pub SmallDrops : DropDistributor → Type 0
SmallDrops src = (i : ℕ) → IsSmall (src.drops i)

held_drops-All :
    (n pos : ℕ) (src : DropDistributor) → SmallDrops src → All IsSmall (held_drops n pos src)
unfolding held_drops
held_drops-All zero pos src h = tt
held_drops-All (suc n) pos src h = (h ((pos - 1) % src.size), held_drops-All n (inc64 pos) src h)

abbrev AllSmall : List SubscribeDrop × ℕ × ℕ → Type 0
AllSmall out = All IsSmall out.0

pub since-All : (pos : ℕ) (src : DropDistributor) → SmallDrops src → All IsSmall (since pos src).0
unfolding since
since-All pos src h =
    let first = inc64 pos in
    let still = inc64 (src.pos - src.size) in
    let late = held_drops-All (src.pos + 1 - still) still src h in
    let all = held_drops-All (src.pos + 1 - first) first src h in
    if_either AllSmall (leb src.pos pos) _ _ tt
      (if_either AllSmall (ltb src.size src.pos && leb first (src.pos - src.size)) _ _ late all)

abbrev pub IsPickup : Pickup → Type 0
IsPickup cache = (cache.seq + 1 < limit) × (cache.highest_seq + 1 < limit)

-- ===== src/Relay/Drops/Flushes.antt =====
-- internal/relay/drop_reporter.go, reportSkipped and flush: what they tell and what they keep.
use qumo.Common.{
  ℕ, ◌+◌, ◌-◌, ◌==◌, ◌<◌, ◌≡◌, Bool, true, false, not, ◌||◌, List, [], ◌++◌, ltb, arith, inl, inr,
  Bool-cases, sym, subst, All,
}
use qumo.Relay.Drops.{
  SubscribeDrop, DropReporter, inc64, report_all, report_skipped, report_when, flush, since,
  DropDistributor,
}
use qumo.Relay.Drops.Spans.{limit}
use qumo.Relay.Drops.Tells.{
  IsReporter, Tells-none, Reported, Reported-then, IsSmall, report-Reported, report_all-Reported,
}

report_when-Reported :
    (g : ℕ) (b : Bool) (drop : SubscribeDrop) (r : DropReporter)
    → IsReporter r
    → IsSmall drop
    → Reported g r (report_when b drop r)
unfolding report_when
report_when-Reported g true drop r v h = report-Reported g drop r v h
report_when-Reported g false drop r v h = (Tells-none g r, v)

pub report_skipped-Reported :
    (g next highest code : ℕ) (r : DropReporter)
    → IsReporter r
    → next + 1 < limit
    → highest + 1 < limit
    → Reported g r (report_skipped next highest code r)
unfolding report_skipped
report_skipped-Reported g next highest code r v a b =
    let below : SubscribeDrop = record {
      start_group = r.start;
      end_group = next - 1;
      error_code = code;
    } in
    let above : SubscribeDrop = record {
      start_group = inc64 next;
      end_group = highest;
      error_code = code;
    } in
    let first = report_when (ltb r.start next) below r in
    let second = report_when (ltb next highest) above first.1 in
    let (p, w) = report_when-Reported g (ltb r.start next) below r v (omega arith) in
    elim (Bool-cases r.started) [
      | inl s ↦
          let same : report_skipped next highest code r ≡ (first.0 ++ second.0, second.1) =
            ground arith in
          subst (Reported g r) (sym same) (
            Reported-then g r first.1 first.0 second p
              (report_when-Reported g (ltb next highest) above first.1 w b))
      | inr s ↦
          let same : report_skipped next highest code r ≡ ([], r) = ground arith in
          subst (Reported g r) (sym same) (Tells-none g r, v)
    ]

-- Drops that were read, at a position of the reporter's own.
Reported-pos :
    (g pos : ℕ) (r : DropReporter) (out : List SubscribeDrop × DropReporter)
    → Reported g (record r { pos = pos }) out
    → Reported g r out
Reported-pos g pos r out (p, v) =
    (record { keeps = p.keeps; silent = p.silent; at_most = p.at_most; marks = p.marks }, v)

pub flush-Reported :
    (g : ℕ) (src : DropDistributor) (r : DropReporter)
    → IsReporter r
    → All IsSmall (since r.pos src).0
    → Reported g r (flush src r)
unfolding flush
flush-Reported g src r v h = elim (Bool-cases (not r.started || src.pos == r.pos)) [
  | inl e ↦
      let same : flush src r ≡ ([], r) = ground arith in
      subst (Reported g r) (sym same) (Tells-none g r, v)
  | inr e ↦
      let moved : DropReporter = record r { pos = (since r.pos src).1 } in
      let same : flush src r ≡ report_all (since r.pos src).0 moved = ground arith in
      subst (Reported g r) (sym same) (
        Reported-pos g (since r.pos src).1 r (report_all (since r.pos src).0 moved) (
          report_all-Reported g (since r.pos src).0 moved
            (record { apart = v.apart; short = v.short }) h))
]

-- ===== src/Relay/Drops/Skips.antt =====
-- internal/relay/drop_reporter.go: reportSkipped, against a ledger.
use qumo.Common.{
  ℕ, suc, ◌+◌, ◌-◌, ◌≤◌, ◌<◌, ◌≡◌, refl, Bool, true, false, ◌&&◌, ◌||◌, List, [], ◌++◌, leb, ltb,
  arith, length, max, inl, inr, Bool-cases, ◌∙◌, sym, subst,
}
use qumo.Relay.Drops.{
  SubscribeDrop, DropReporter, max_handled_spans, inc64, report_when, report_skipped,
}
use qumo.Relay.Drops.Spans.{limit, inc64_small}
use qumo.Relay.Drops.Tells.{names-append, IsReporter, IsSmall, report-Reported}
use qumo.Relay.Drops.Ledger.{about, Exact, report-Exact}

-- The groups that a skip is about.
abbrev pub in_skip : ℕ → DropReporter → ℕ → ℕ → Bool
in_skip g r next highest =
    r.started && (leb (max r.start 1) g && (ltb g next || ltb next g && leb g highest))

-- Before every call there is room for two more spans.
abbrev pub HasRoom : DropReporter → Type 0
HasRoom r = length r.handled + 2 ≤ max_handled_spans

report_when-Exact :
    (g : ℕ) (b : Bool) (drop : SubscribeDrop) (r : DropReporter)
    → IsReporter r
    → length r.handled < max_handled_spans
    → IsSmall drop
    → Exact g r (report_when b drop r) (b && about r.started r.start drop g)
      × (length (report_when b drop r).1.handled ≤ suc (length r.handled))
      × IsReporter (report_when b drop r).1
unfolding report_when
report_when-Exact g true drop r v room small =
    let (a, b) = report-Exact g r v room drop small in (a, b, (report-Reported g drop r v small).1)
report_when-Exact g false drop r v room small = (
  record { tells = ground arith; notes = ground arith; same_started = refl; same_start = refl },
  omega arith,
  v,
)

-- The groups below the next one, and those above it.
skip_parts :
    (g start next highest : ℕ)
    → (((ltb start next && (leb (max (max start start) 1) g && leb g (next - 1)))
          && (ltb next highest && (leb (max (max (next + 1) start) 1) g && leb g highest)))
        ≡ false)
      × (((ltb start next && (leb (max (max start start) 1) g && leb g (next - 1)))
            || (ltb next highest && (leb (max (max (next + 1) start) 1) g && leb g highest)))
          ≡ (leb (max start 1) g && (ltb g next || ltb next g && leb g highest)))
skip_parts g start next highest = (ground arith, ground arith)

Exact-then :
    (g : ℕ) (r : DropReporter) (first second : List SubscribeDrop × DropReporter) (b c : Bool)
    → Exact g r first b
    → Exact g first.1 second c
    → (b && c) ≡ false
    → Exact g r (first.0 ++ second.0, second.1) (b || c)
Exact-then g r first second b c p q none =
    let sum = names-append g first.0 second.0 in
    record {
      tells = ground (arith, p.tells, q.tells, p.notes);
      notes = ground (arith, p.notes, q.notes);
      same_started = q.same_started ∙ p.same_started;
      same_start = q.same_start ∙ p.same_start;
    }

pub report_skipped-Exact :
    (g next highest code : ℕ) (r : DropReporter)
    → IsReporter r
    → HasRoom r
    → next + 1 < limit
    → highest + 1 < limit
    → Exact g r (report_skipped next highest code r) (in_skip g r next highest)
unfolding report_skipped
report_skipped-Exact g next highest code r v room a b =
    let below : SubscribeDrop = record {
      start_group = r.start;
      end_group = next - 1;
      error_code = code;
    } in
    let above : SubscribeDrop = record {
      start_group = inc64 next;
      end_group = highest;
      error_code = code;
    } in
    let first = report_when (ltb r.start next) below r in
    let second = report_when (ltb next highest) above first.1 in
    let (p, q, w) = report_when-Exact g (ltb r.start next) below r v (omega arith) (omega arith) in
    let (s, t, u) = report_when-Exact g (ltb next highest) above first.1 w (omega arith) b in
    let step = inc64_small next a in
    let lower = ltb r.start next && about r.started r.start below g in
    let upper = ltb next highest && about first.1.started first.1.start above g in
    elim (Bool-cases r.started) [
      | inl e ↦
          let same : report_skipped next highest code r ≡ (first.0 ++ second.0, second.1) =
            ground arith in
          let (apart, all) = skip_parts g r.start next highest in
          let range : lower || upper ≡ in_skip g r next highest =
            ground (arith, p.same_started, p.same_start) in
          let none : lower && upper ≡ false = ground (arith, p.same_started, p.same_start) in
          subst
            (λ (out : List SubscribeDrop × DropReporter). Exact g r out (in_skip g r next highest))
            (sym same)
            (subst (Exact g r (first.0 ++ second.0, second.1)) range
              (Exact-then g r first second lower upper p s none))
      | inr e ↦
          let same : report_skipped next highest code r ≡ ([], r) = ground arith in
          subst
            (λ (out : List SubscribeDrop × DropReporter). Exact g r out (in_skip g r next highest))
            (sym same)
            (record {
              tells = ground arith;
              notes = ground arith;
              same_started = refl;
              same_start = refl;
            })
    ]

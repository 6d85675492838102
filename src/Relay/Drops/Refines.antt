-- ===== src/Relay/Drops/Refines.antt =====
-- internal/relay/drop_reporter.go: any calls on a reporter, against the same calls on a ledger.
use qumo.Common.{
  ℕ, ◌+◌, ◌≤◌, ◌<◌, ◌≡◌, refl, Bool, true, false, not, ◌&&◌, ◌||◌, List, [], ◌∷◌, ◌++◌, leb, ltb,
  ◌==◌, arith, length, max, if◌then◌else◌, ◌∙◌, sym, subst,
}
use qumo.Relay.Drops.{
  GroupSpan, SubscribeDrop, DropReporter, max_handled_spans, add, report, report_skipped, sent,
  is_handled,
}
use qumo.Relay.Drops.Spans.{limit, IsSpan, Apart, spans_hold-covers}
use qumo.Relay.Drops.Tells.{
  names, names-append, IsReporter, IsSmall, add-IsReporter, report-Reported,
}
use qumo.Relay.Drops.Flushes.{report_skipped-Reported}
use qumo.Relay.Drops.Skips.{in_skip, HasRoom, report_skipped-Exact}
use qumo.Relay.Drops.Ledger.{Ledger, once_if, about, Exact, add_exact, report-Exact}

-- The calls of egress.
pub data Op : Type 0 where
  sends : ℕ → Op
  reports : SubscribeDrop → Op
  skips : ℕ → ℕ → ℕ → Op

-- The groups that the subscriber is to be told of by a call, unless it was given them.
unfoldable pub asked : Op → Ledger → ℕ → Bool
asked (sends seq) l g = false
asked (reports drop) l g = about l.started l.start drop g
asked (skips next highest code) l g =
    l.started && (leb (max l.start 1) g && (ltb g next || ltb next g && leb g highest))

unfoldable pub note : Op → Ledger → Ledger
unfolding asked
note (sends seq) l = record {
  started = true;
  start = if l.started then l.start else seq;
  holds = λ g. l.holds g || g == seq;
}
note op l = record l { holds = λ g. l.holds g || asked op l g }

unfoldable pub call : Op → DropReporter → List SubscribeDrop × DropReporter
unfolding sent report report_skipped
call (sends seq) r = ([], sent seq r)
call (reports drop) r = report drop r
call (skips next highest code) r = report_skipped next highest code r

unfoldable pub run : List Op → DropReporter → List SubscribeDrop × DropReporter
unfolding call
run [] r = ([], r)
run (op ∷ ops) r = let (told, r') = call op r in let (more, r'') = run ops r' in (told ++ more, r'')

-- How often each group is told of, and the ledger afterwards.
unfoldable pub replay : List Op → Ledger → (ℕ → ℕ) × Ledger
unfolding asked note
replay [] l = ((λ g. 0), l)
replay (op ∷ ops) l =
    let (told, l') = replay ops (note op l) in
    ((λ g. once_if (asked op l g && not (l.holds g)) + told g), l')

-- The groups of a call have a next one.
abbrev pub IsOp : Op → Type 0
IsOp (sends seq) = seq + 1 < limit
IsOp (reports drop) = IsSmall drop
IsOp (skips next highest code) = (next + 1 < limit) × (highest + 1 < limit)

-- Every call of a run is about groups that have a next one, and finds room for two more spans.
abbrev pub RunsIn : List Op → DropReporter → Type 0
RunsIn [] r = Unit
RunsIn (op ∷ ops) r = IsOp op × HasRoom r × RunsIn ops (call op r).1

-- A reporter that has given its subscriber the groups of the ledger.
pub record Refines (r : DropReporter) (l : Ledger) : Type 0 where
  pub started_as : r.started ≡ l.started
  pub start_as : r.start ≡ l.start
  pub handled_as : (g : ℕ) → is_handled g r ≡ l.holds g

sent-Refines :
    (seq : ℕ) (r : DropReporter) (l : Ledger)
    → IsReporter r
    → HasRoom r
    → seq + 1 < limit
    → Refines r l
    → Refines (sent seq r) (note (sends seq) l) × IsReporter (sent seq r)
unfolding sent note is_handled
sent-Refines seq r l v room small q =
    let span : GroupSpan = record { start = seq; end = seq } in
    let ok : IsSpan span = (omega arith, small) in
    let begun : DropReporter = if r.started then r else record r { started = true; start = seq } in
    let same : begun.handled ≡ r.handled = ground arith in
    let w : IsReporter begun = record {
      apart = subst (Apart 0) (sym same) v.apart;
      short = subst (λ hs. length hs ≤ max_handled_spans) (sym same) v.short;
    } in
    let few : length begun.handled < max_handled_spans = ground arith in
    let w' = add-IsReporter span begun w ok in
    (
      record {
        started_as = ground arith;
        start_as = ground (arith, q.started_as, q.start_as);
        handled_as = λ g. ground (
          arith,
          q.handled_as g,
          (add_exact g begun w few span ok).0,
          spans_hold-covers g 0 (add span begun).handled w'.apart,
          spans_hold-covers g 0 r.handled v.apart,
        );
      },
      w',
    )

-- The calls that tell of groups.
told-Refines :
    (r : DropReporter) (l : Ledger) (out : List SubscribeDrop × DropReporter) (range : ℕ → Bool)
    → IsReporter r
    → IsReporter out.1
    → Refines r l
    → ((g : ℕ) → Exact g r out (range g))
    → Refines out.1 (record l { holds = λ g. l.holds g || range g })
      × ((g : ℕ) → names g out.0 ≡ once_if (range g && not (l.holds g)))
unfolding is_handled
told-Refines r l out range v w q h = (
  record {
    started_as = (h 0).same_started ∙ q.started_as;
    start_as = (h 0).same_start ∙ q.start_as;
    handled_as = λ g. ground (
      arith,
      q.handled_as g,
      (h g).notes,
      spans_hold-covers g 0 out.1.handled w.apart,
      spans_hold-covers g 0 r.handled v.apart,
    );
  },
  λ g. ground (arith, (h g).tells, q.handled_as g, spans_hold-covers g 0 r.handled v.apart),
)

call-Refines :
    (op : Op) (r : DropReporter) (l : Ledger)
    → IsReporter r
    → HasRoom r
    → IsOp op
    → Refines r l
    → Refines (call op r).1 (note op l)
      × ((g : ℕ) → names g (call op r).0 ≡ once_if (asked op l g && not (l.holds g)))
      × IsReporter (call op r).1
unfolding call note asked
call-Refines (sends seq) r l v room small q =
    let (a, b) = sent-Refines seq r l v room small q in (a, (λ g. refl), b)
call-Refines (reports drop) r l v room small q =
    let out = report drop r in
    let w = (report-Reported 0 drop r v small).1 in
    let range = asked (reports drop) l in
    let (a, b) = told-Refines r l out range v w q λ g.
      let same : about r.started r.start drop g ≡ range g =
        ground (arith, q.started_as, q.start_as) in
      subst (Exact g r out) same (report-Exact g r v (omega arith) drop small).0 in
    (a, b, w)
call-Refines (skips next highest code) r l v room small q =
    let out = report_skipped next highest code r in
    let w = (report_skipped-Reported 0 next highest code r v small.0 small.1).1 in
    let range = asked (skips next highest code) l in
    let (a, b) = told-Refines r l out range v w q λ g.
      let same : in_skip g r next highest ≡ range g = ground (arith, q.started_as, q.start_as) in
      subst (Exact g r out) same
        (report_skipped-Exact g next highest code r v room small.0 small.1) in
    (a, b, w)

-- A reporter on which egress makes any calls, each of which finds room for two more spans under the
-- cap, does what a ledger of the groups given does: a drop and a skip tell the subscriber of exactly
-- the groups that they are about, from the start of the subscription on, that are not in the ledger,
-- each once, and of none before a group was sent; and afterwards isHandled answers as the ledger.
pub run-Refines :
    (ops : List Op) (r : DropReporter) (l : Ledger)
    → IsReporter r
    → RunsIn ops r
    → Refines r l
    → Refines (run ops r).1 (replay ops l).1
      × ((g : ℕ) → names g (run ops r).0 ≡ (replay ops l).0 g)
unfolding run replay
run-Refines [] r l v h q = (q, λ g. refl)
run-Refines (op ∷ ops) r l v (small, room, h) q =
    let (a, b, w) = call-Refines op r l v room small q in
    let (c, d) = run-Refines ops (call op r).1 (note op l) w h a in
    (c, λ g. names-append g (call op r).0 (run ops (call op r).1).0 ∙ omega (arith, b g, d g))

-- ===== src/Relay/Drops/Tells.antt =====
-- internal/relay/drop_reporter.go: what a subscriber is told of a group, and what the reporter keeps.
use qumo.Common.{
  ℕ, ◌+◌, ◌≤◌, ◌<◌, ◌≡◌, refl, Bool, true, false, ◌&&◌, ◌||◌, List, [], ◌∷◌, ◌++◌, leb, arith,
  length, max, if◌then◌else◌, inl, inr, Bool-cases, ◌∙◌, sym, subst, ◌⊎◌, All,
}
use qumo.Relay.Drops.{
  GroupSpan, SubscribeDrop, DropReporter, max_handled_spans, add, drops_of, unhandled, put_span,
  report, report_all,
}
use qumo.Relay.Drops.Spans.{within, covers, limit, IsSpan, Apart, covers_below}
use qumo.Relay.Drops.Handled.{put_span-Puts, within_cap-Apart, within_cap-covers, length-within_cap}
use qumo.Relay.Drops.Reports.{unhandled_from-Parts}

-- How many of the drops name a group.
abbrev pub names : ℕ → List SubscribeDrop → ℕ
names g [] = 0
names g (d ∷ ds) = (if leb d.start_group g && leb g d.end_group then 1 else 0) + names g ds

pub names-append :
    (g : ℕ) (ds es : List SubscribeDrop) → names g (ds ++ es) ≡ names g ds + names g es
names-append g [] es = omega arith
names-append g (d ∷ ds) es = omega (arith, names-append g ds es)

pub names-drops_of :
    (g code low : ℕ) (ss : List GroupSpan)
    → Apart low ss
    → names g (drops_of code ss) ≡ (if covers g ss then 1 else 0)
names-drops_of g code low [] h = refl
names-drops_of g code low (s ∷ ss) (a, b, d) =
    ground (arith, names-drops_of g code (s.end + 2) ss d, covers_below g (s.end + 2) ss d)

-- The spans handled are in order, and not too many.
pub record IsReporter (r : DropReporter) : Type 0 where
  pub apart : Apart 0 r.handled
  pub short : length r.handled ≤ max_handled_spans

-- When a subscriber is given a group `n` times while the reporter goes from `r` to `t`: what was
-- handled still is, a group that was handled is not given, the others once at most, and those are
-- handled then.
pub record Tells (g : ℕ) (r : DropReporter) (n : ℕ) (t : DropReporter) : Type 0 where
  pub keeps : covers g r.handled ≡ true → covers g t.handled ≡ true
  pub silent : covers g r.handled ≡ true → n ≡ 0
  pub at_most : n ≤ 1
  pub marks : 0 < n → covers g t.handled ≡ true

pub Tells-none : (g : ℕ) (r : DropReporter) → Tells g r 0 r
Tells-none g r = record {
  keeps = λ h. h;
  silent = λ h. refl;
  at_most = omega arith;
  marks = λ h. absurd (omega arith);
}

pub Tells-then :
    (g m n : ℕ) (r s t : DropReporter) → Tells g r m s → Tells g s n t → Tells g r (m + n) t
Tells-then g m n r s t p q = record {
  keeps = λ h. q.keeps (p.keeps h);
  silent = λ h. ground (arith, p.silent h, q.silent (p.keeps h));
  at_most = ground (arith, p.at_most, q.at_most, p.marks, q.silent);
  marks = λ h. ground (arith, p.marks, q.marks, q.keeps);
}

pub add-IsReporter :
    (span : GroupSpan) (r : DropReporter) → IsReporter r → IsSpan span → IsReporter (add span r)
add-IsReporter span r v ok =
    let (a, b, c) = put_span-Puts 0 r.handled span v.apart ok in
    let short = v.short in
    record {
      apart = within_cap-Apart (put_span span r.handled) a;
      short = length-within_cap (put_span span r.handled) (omega arith);
    }

-- Nothing that was handled is forgotten, and the groups of the span are handled besides.
pub add-covers :
    (g : ℕ) (span : GroupSpan) (r : DropReporter)
    → IsReporter r
    → IsSpan span
    → covers g r.handled || within g span ≡ true
    → covers g (add span r).handled ≡ true
add-covers g span r v ok h =
    let (a, b, c) = put_span-Puts g r.handled span v.apart ok in
    within_cap-covers g (put_span span r.handled) a (b ∙ h)

-- What is left of the range of a drop: from the first group sent on, and without group 0.
abbrev pub span_of : SubscribeDrop → DropReporter → GroupSpan
span_of drop r = record { start = max (max drop.start_group r.start) 1; end = drop.end_group }

-- Whether there is anything to tell of.
abbrev pub asks : SubscribeDrop → DropReporter → Bool
asks drop r = r.started && leb (span_of drop r).start drop.end_group

pub report_cases :
    (drop : SubscribeDrop) (r : DropReporter)
    → ((asks drop r ≡ false) × (report drop r ≡ ([], r)))
      ⊎ ((asks drop r ≡ true)
          × (report drop r
              ≡ (drops_of drop.error_code (unhandled (span_of drop r) r), add (span_of drop r) r)))
unfolding report
report_cases drop r = elim (Bool-cases (asks drop r)) [
  | inl a ↦ inr (a, ground arith)
  | inr a ↦ inl (a, ground arith)
]

add-Tells :
    (g code : ℕ) (span : GroupSpan) (r : DropReporter)
    → IsReporter r
    → IsSpan span
    → Tells g r (names g (drops_of code (unhandled span r))) (add span r)
add-Tells g code span r v ok =
    let (a, b) = unhandled_from-Parts g 0 span.start span.end r.handled v.apart ok.0 ok.1 in
    let told = names-drops_of g code span.start (unhandled span r) a in
    record {
      keeps = λ h. add-covers g span r v ok (ground arith);
      silent = λ h. ground arith;
      at_most = ground arith;
      marks = λ h. add-covers g span r v ok (ground arith);
    }

-- What `report` leaves, on a pair of its answer.
abbrev pub Reported : ℕ → DropReporter → List SubscribeDrop × DropReporter → Type 0
Reported g r out = Tells g r (names g out.0) out.1 × IsReporter out.1

pub report-Reported :
    (g : ℕ) (drop : SubscribeDrop) (r : DropReporter)
    → IsReporter r
    → drop.end_group + 1 < limit
    → Reported g r (report drop r)
report-Reported g drop r v small = elim (report_cases drop r) [
  | inl (a, e) ↦ subst (Reported g r) (sym e) (Tells-none g r, v)
  | inr (a, e) ↦
      let ok : IsSpan (span_of drop r) = (ground arith, small) in
      subst (Reported g r) (sym e) (
        add-Tells g drop.error_code (span_of drop r) r v ok,
        add-IsReporter (span_of drop r) r v ok,
      )
]

pub Reported-then :
    (g : ℕ) (r s : DropReporter) (ds : List SubscribeDrop) (out : List SubscribeDrop × DropReporter)
    → Tells g r (names g ds) s
    → Reported g s out
    → Reported g r (ds ++ out.0, out.1)
Reported-then g r s ds out p (q, v) = (
  subst (λ n. Tells g r n out.1) (sym (names-append g ds out.0))
      (Tells-then g (names g ds) (names g out.0) r s out.1 p q),
  v,
)

-- A drop whose last group has a next one.
abbrev pub IsSmall : SubscribeDrop → Type 0
IsSmall drop = drop.end_group + 1 < limit

pub report_all-Reported :
    (g : ℕ) (drops : List SubscribeDrop) (r : DropReporter)
    → IsReporter r
    → All IsSmall drops
    → Reported g r (report_all drops r)
unfolding report_all
report_all-Reported g [] r v h = (Tells-none g r, v)
report_all-Reported g (drop ∷ drops) r v (h, hs) =
    let (p, w) = report-Reported g drop r v h in
    Reported-then g r (report drop r).1 (report drop r).0 (report_all drops (report drop r).1) p
      (report_all-Reported g drops (report drop r).1 w hs)

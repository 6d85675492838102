-- ===== src/Relay/Drops/Reports.antt =====
-- internal/relay/drop_reporter.go, report: what the subscriber is told, against the groups that are
-- handled.
use qumo.Common.{
  ℕ, ◌+◌, ◌-◌, ◌≤◌, ◌<◌, ◌≡◌, Bool, not, ◌&&◌, ◌||◌, List, [], ◌∷◌, ◌++◌, leb, ltb, arith, inl, inr,
  Bool-cases, sym, subst,
}
use qumo.Relay.Drops.{GroupSpan, gap_before, unhandled_from}
use qumo.Relay.Drops.Spans.{covers, limit, IsSpan, Apart, Apart-low, inc64_small, covers_below}

-- Spans for a group `g`: from `next` on, and covering it exactly when `b`.
abbrev pub Parts : ℕ → ℕ → List GroupSpan → Bool → Type 0
Parts g next ss b = Apart next ss × (covers g ss ≡ b)

gap_before-Parts :
    (g next : ℕ) (s : GroupSpan)
    → IsSpan s
    → next ≤ s.end
    → Parts g next (gap_before next s) (leb next g && ltb g s.start)
gap_before-Parts g next s ok le = (ground arith, ground arith)

gap_append-Parts :
    (g next : ℕ) (s : GroupSpan) (rest : List GroupSpan) (b : Bool)
    → IsSpan s
    → next ≤ s.end
    → Parts g (s.end + 1) rest b
    → Parts g next (gap_before next s ++ rest) (leb next g && ltb g s.start || b)
gap_append-Parts g next s rest b ok le (h, e) = elim (Bool-cases (ltb next s.start)) [
  | inl c ↦ rw c (
    (
      omega arith,
      (ground arith, ground arith),
      Apart-low (s.start - 1 + 2) (s.end + 1) rest (ground arith) h,
    ),
    ground arith,
  )
  | inr c ↦ rw c (Apart-low next (s.end + 1) rest (omega arith) h, ground arith)
]

-- What is left of a range.
abbrev pub left : ℕ → ℕ → ℕ → List GroupSpan → Bool
left g next end ss = leb next g && leb g end && not (covers g ss)

pub unhandled_from-Parts :
    (g low next end : ℕ) (ss : List GroupSpan)
    → Apart low ss
    → next ≤ end
    → end + 1 < limit
    → Parts g next (unhandled_from next end ss) (left g next end ss)
unfolding unhandled_from
unhandled_from-Parts g low next end [] h le small = ((omega arith, (le, small), tt), ground arith)
unhandled_from-Parts g low next end (s ∷ ss) (a, (b, c), d) le small =
    let below = covers_below g (s.end + 2) ss d in
    let whole = unhandled_from next end (s ∷ ss) in
    let answer = left g next end (s ∷ ss) in
    elim (Bool-cases (ltb s.end next)) [
      | inl e ↦
          let (p, q) = unhandled_from-Parts g (s.end + 2) next end ss d le small in
          let same : whole ≡ unhandled_from next end ss = ground arith in
          subst (λ ts. Parts g next ts answer) (sym same) (p, ground arith)
      | inr e ↦ elim (Bool-cases (ltb end s.start)) [
        | inl e' ↦
            let same : whole ≡ record { start = next; end = end } ∷ [] = ground arith in
            subst (λ ts. Parts g next ts answer) (sym same)
              ((omega arith, (le, small), tt), ground arith)
        | inr e' ↦ elim (Bool-cases (leb end s.end)) [
          | inl e'' ↦
              let (p, q) = gap_before-Parts g next s (b, c) (ground arith) in
              let same : whole ≡ gap_before next s = ground arith in
              subst (λ ts. Parts g next ts answer) (sym same) (p, ground arith)
          | inr e'' ↦
              let rest =
                unhandled_from-Parts g (s.end + 2) (s.end + 1) end ss d (ground arith) small in
              let step = inc64_small s.end c in
              let (p, q) =
                gap_append-Parts g next s (unhandled_from (s.end + 1) end ss)
                  (left g (s.end + 1) end ss) (b, c) (ground arith) rest in
              let same : whole ≡ gap_before next s ++ unhandled_from (s.end + 1) end ss =
                ground arith in
              subst (λ ts. Parts g next ts answer) (sym same) (p, ground arith)
        ]
      ]
    ]
